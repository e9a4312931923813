-- ===== src/Fidpool/Lists.antt =====
-- libnpfs/fidpool.c: np_fidpool_list and np_fidpool_count.
use npfs.Prelude.{
  ℕ, zero, suc, ◌-◌, ◌≡◌, ◌∙◌, List, [], ◌∷◌, arith, length, length-append, leb, if◌then◌else◌,
}
use npfs.Constants.{fid_htable_size}
use npfs.State.{Ptr, St}
use npfs.State.Returns.{Returns, returns, Returns-bind, Returns-mono}
use npfs.Fidpool.{count_buckets, np_fidpool_count, list_bucket, list_buckets, np_fidpool_list}
use npfs.Fidpool.Chains.{fid_of, Chain, Chain-frame}
use npfs.Safety.Grows.{Safe, Grows, Grows-refl, Grows-trans, SafeBut-Grows}
use npfs.Safety.Actions.{np_fid_incref-Incref}
use npfs.Safety.Pool.{live_of_fid_of}

abbrev pub smaller : ℕ → ℕ → ℕ
smaller a b = if leb a b then a else b

list_bucket-length :
    (i room : ℕ) (ps : List Ptr) (s : St)
    → Chain (fid_of s.heap) i ps
    → Returns (λ qs t. Grows s t × (length qs ≡ smaller room (length ps))) (list_bucket room ps s)
unfolding list_bucket
list_bucket-length i room [] s c = returns (Grows-refl s, ground arith)
list_bucket-length i zero (p ∷ ps) s c = returns (Grows-refl s, ground arith)
list_bucket-length i (suc room) (p ∷ ps) s ((n, e, h, a), c) =
    Returns-bind (np_fid_incref-Incref s p (live_of_fid_of s.heap p n e)) λ _ t x.
      let g = x.calm.grows in
      Returns-bind (list_bucket-length i room ps t (Chain-frame i ps (λ q _. g.shape q) c))
        λ qs u (g', l). returns (Grows-trans g g', ground (arith, l))

list_buckets-length :
    (table : ℕ → List Ptr) (count n : ℕ) (s : St)
    → ((i : ℕ) → Chain (fid_of s.heap) i (table i))
    → Returns
        (λ qs t. Grows s t × (length qs ≡ smaller count (count_buckets table n)))
        (list_buckets table count n s)
unfolding list_buckets count_buckets
list_buckets-length table count zero s c = returns (Grows-refl s, ground arith)
list_buckets-length table count (suc n) s c =
    Returns-bind (list_buckets-length table count n s c) λ ps t (g, l).
      Returns-bind
        (list_bucket-length n (count - length ps) (table n) t
          (Chain-frame n _ (λ q _. g.shape q) (c n)))
        λ qs u (g', l'). returns (Grows-trans g g', length-append ps qs ∙ ground (arith, l, l'))

-- np_fidpool_list, in a safe state, does not fault and leaves a safe state. It lists as many fids as
-- np_fidpool_count counts, or the given count where that is less.
pub np_fidpool_list-np_fidpool_count :
    (count : ℕ) (s : St)
    → Safe s
    → Returns
        (λ qs t. Safe t × Returns (λ n _. length qs ≡ smaller count n) (np_fidpool_count s))
        (np_fidpool_list count s)
unfolding np_fidpool_list np_fidpool_count
np_fidpool_list-np_fidpool_count count s v =
    Returns-mono (list_buckets-length s.htable count fid_htable_size s v.pool.chains)
      (λ qs t (g, l). (SafeBut-Grows g v, returns l))
