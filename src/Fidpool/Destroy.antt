-- ===== src/Fidpool/Destroy.antt =====
-- libnpfs/fidpool.c: np_fidpool_destroy.
use npfs.Prelude.{
  ◌==◌, Bool-cases, eq_of_==, ne_of_==, subst, ℕ, zero, suc, ◌%◌, ◌<◌, ◌≡◌, ◌≢◌, refl, sym, ap, ◌∙◌,
  inl, inr, none, some, List, [], ◌∷◌, arith, Option-cases,
}
use npfs.Constants.{fid_htable_size}
use npfs.State.{Ptr, Env, St}
use npfs.State.Mem.{put_fid, put_fid_self, put_fid_ne}
use npfs.State.Returns.{Returns, returns, Returns-bind, Returns-mono}
use npfs.Fidpool.{free_fid, destroy_bucket, destroy_buckets, drop_table, np_fidpool_destroy}
use npfs.Fidpool.Chains.{In, Absent-ne, Chain, Chain-frame, Chain-hash, fid_of, number}
use npfs.Fidpool.WellFormed.{WellFormed}
use npfs.Safety.Actions.{load_live}
use npfs.Safety.Contract.{Contract}
use npfs.Safety.Pool.{live_of_fid_of}
use npfs.Safety.Decref.{release-Calm}

-- Which fids are gone, of those that a loop went through, and that the others are as they were.
record Cleared (Went : Ptr → Type 0) (s t : St) : Type 0 where
  gone : (q : Ptr) → Went q → fid_of t.heap q ≡ none
  kept : (q : Ptr) → ¬ Went q → fid_of t.heap q ≡ fid_of s.heap q

Before : (ℕ → List Ptr) → ℕ → Ptr → Type 0
Before table n q = (i : ℕ) × (i < n) × In q (table i)

module _ (env : Env) (c : Contract env) where
  destroy_bucket-Cleared :
      (i : ℕ) (ps : List Ptr) (s : St)
      → Chain (fid_of s.heap) i ps
      → Returns (λ _ t. Cleared (λ q. In q ps) s t) (destroy_bucket env ps s)
  unfolding destroy_bucket free_fid
  destroy_bucket-Cleared i [] s x = returns (record { gone = λ q m. absurd m; kept = λ q _. refl })
  destroy_bucket-Cleared i (p ∷ ps) s ((n, e, h, a), x) =
      let (f, live) = live_of_fid_of s.heap p n e in
      rw (load_live s p f live) (
        Returns-bind (release-Calm env c p f.type s (f, live)) λ _ t g.
          let apart : (q : Ptr) → In q ps → q ≢ p =
            λ q m same. Absent-ne (fid_of s.heap) n q ps m a (ap (fid_of s.heap) same ∙ e) in
          let same : (q : Ptr) → q ≢ p → fid_of (put_fid t.heap p none) q ≡ fid_of s.heap q =
            λ q ne. ap number (put_fid_ne t.heap p q none ne) ∙ g.grows.shape q in
          Returns-mono
            (destroy_bucket-Cleared i ps (record t { heap = put_fid t.heap p none })
              (Chain-frame i ps (λ q m. same q (apart q m)) x))
            λ _ u y. record {
              gone = λ q m. elim m [
                | inl hit ↦
                    ap (fid_of u.heap) (sym hit)
                    ∙ y.kept p (λ m'. apart p m' refl)
                    ∙ ap number (put_fid_self t.heap p none)
                | inr m' ↦ y.gone q m'
              ];
              kept = λ q no. y.kept q (λ m. no (inr m)) ∙ same q (λ hit. no (inl (sym hit)));
            })

  module _ (s : St) (v : WellFormed s) where
    one_bucket : (q : Ptr) (i j : ℕ) → In q (s.htable i) → In q (s.htable j) → i ≡ j
    one_bucket q i j m m' =
        let (k, e, h) = Chain-hash (fid_of s.heap) i q (s.htable i) (v.chains i) m in
        let (k', e', h') = Chain-hash (fid_of s.heap) j q (s.htable j) (v.chains j) m' in
        let same : some k ≡ some k' = sym e ∙ e' in cc

    destroy_buckets-Cleared :
        (n : ℕ)
        → Returns (λ _ t. Cleared (Before s.htable n) s t) (destroy_buckets env s.htable n s)
    unfolding destroy_buckets Before
    destroy_buckets-Cleared zero =
        returns (record { gone = λ q (i, lt, m). absurd (omega arith); kept = λ q _. refl })
    destroy_buckets-Cleared (suc n) = Returns-bind (destroy_buckets-Cleared n) λ _ t y.
        let here : (q : Ptr) → In q (s.htable n) → fid_of t.heap q ≡ fid_of s.heap q =
          λ q m. y.kept q (λ (i, lt, m'). (let same = one_bucket q i n m' m in omega arith)) in
        Returns-mono (destroy_bucket-Cleared n (s.htable n) t (Chain-frame n _ here (v.chains n)))
          λ _ u z. record {
            gone = λ q (i, lt, m). elim (Bool-cases (i == n)) [
              | inl hit ↦ z.gone q (subst (λ j. In q (s.htable j)) (eq_of_== i n hit) m)
              | inr miss ↦
                  let ne = ne_of_== i n miss in
                  z.kept q (λ m'. ne (one_bucket q i n m m')) ∙ y.gone q (i, omega arith, m)
            ];
            kept = λ q no.
                z.kept q (λ m. no (n, omega arith, m))
                ∙ y.kept q (λ (i, lt, m). no (i, omega arith, m));
          }

  -- From a well-formed pool, where a call of the file server touches no fids but those it is given,
  -- np_fidpool_destroy does not fault, so it frees no fid twice, and leaves no fid.
  pub np_fidpool_destroy-fid_of :
      (s : St)
      → WellFormed s
      → Returns (λ _ t. (p : Ptr) → fid_of t.heap p ≡ none) (np_fidpool_destroy env s)
  unfolding np_fidpool_destroy drop_table Before
  np_fidpool_destroy-fid_of s v =
      Returns-bind (destroy_buckets-Cleared s v fid_htable_size) λ _ t y. returns (λ p. dead t y p)
    where
      dead :
          (t : St)
          → Cleared (Before s.htable fid_htable_size) s t
          → (p : Ptr) → fid_of t.heap p ≡ none
      dead t y p = elim (Option-cases (fid_of s.heap p)) [
        | inr (k, e) ↦ y.gone p (k % fid_htable_size, omega arith, v.indexed p k e)
        | inl e ↦
            y.kept p (λ (i, lt, m).
              (let (k, e', h) = Chain-hash (fid_of s.heap) i p (s.htable i) (v.chains i) m in
                ground (arith, e, e')))
            ∙ e
      ]
