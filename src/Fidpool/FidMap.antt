-- ===== src/Fidpool/FidMap.antt =====
-- libnpfs/fidpool.c against its contract: a partial map from the numbers of fids to fids.
use npfs.Prelude.{
  ◌≤◌, ℕ, ◌≡◌, ◌≢◌, refl, sym, ap, ◌∙◌, subst, inl, inr, Bool, true, false, Option, none, some,
  arith, ◌==◌, Bool-cases, eq_of_==, ne_of_==, Option-cases, if◌then◌else◌, ◌+◌,
}
use npfs.State.{Ptr, Npfid, Env, St}
use npfs.State.Mem.{put_fid, put_fid_self, put_fid_ne}
use npfs.State.Returns.{Returns, returns, Returns-bind, Returns-mono}
use npfs.Fidpool.{
  np_fid_find, np_fid_create, create_missing, insert_fid, link_fid, new_fid, np_fid_destroy,
}
use npfs.Fidpool.Chains.{fid_of, number, Absent-of_all}
use npfs.Fidpool.WellFormed.{IsPool, WellFormed, IsPool-create}
use npfs.Fidpool.Find.{Looked, np_fid_lookup-Looked, np_fid_find-Looked}
use npfs.Safety.Grows.{Grows, Calm, IsPool-shape}
use npfs.Safety.Actions.{np_malloc-Calm}
use npfs.Safety.Contract.{Contract}
use npfs.Safety.Pool.{live_of_fid_of}
use npfs.Safety.Decref.{np_fid_destroy-Freed}
use npfs.Safety.Drops.{Freed}

-- What a pool promises: it is well formed, and the fid of a number is the one that the map names.
pub record Represents (m : ℕ → Option Ptr) (s : St) : Type 0 where
  pub pool : WellFormed s
  pub to : (n : ℕ) (p : Ptr) → m n ≡ some p → fid_of s.heap p ≡ some n
  pub from : (n : ℕ) (p : Ptr) → fid_of s.heap p ≡ some n → m n ≡ some p

abbrev pub update : (ℕ → Option Ptr) → ℕ → Option Ptr → ℕ → Option Ptr
update m n r k = if k == n then r else m k

Represents-table :
    (m : ℕ → Option Ptr) (n : ℕ) (s : St) (r : Option Ptr) (t : St)
    → Represents m s
    → Looked s n r t
    → Represents m t
Represents-table m n s r t v l = rw l.moved (record { pool = l.well; to = v.to; from = v.from })

-- In a pool that represents a map, a lookup returns the map's fid for the number, or none, and the
-- pool still represents the map.
pub np_fid_find-Represents :
    (m : ℕ → Option Ptr) (n : ℕ) (s : St)
    → Represents m s
    → Returns (λ r t. (r ≡ m n) × Represents m t) (np_fid_find n s)
np_fid_find-Represents m n s v =
    Returns-mono (np_fid_find-Looked s v.pool n)
      λ r t l. (answer r (λ e. l.none_absent e) l.some_found, Represents-table m n s r t v l)
  where
    answer :
        (r : Option Ptr)
        → (r ≡ none → (p : Ptr) → fid_of s.heap p ≢ some n)
        → ((p : Ptr) → r ≡ some p → fid_of s.heap p ≡ some n)
        → r ≡ m n
    answer none absent found = elim (Option-cases (m n)) [
      | inl e ↦ sym e
      | inr (p, e) ↦ absurd (absent refl p (v.to n p e))
    ]
    answer (some p) absent found = sym (v.from n p (found p refl))

-- A fid that the pool has already is what a creation returns.
update_same :
    (m : ℕ → Option Ptr) (n : ℕ) (p : Ptr) (s : St)
    → m n ≡ some p
    → Represents m s
    → Represents (update m n (some p)) s
update_same m n p s e v = record {
  pool = v.pool;
  to = λ k q h. v.to k q (elim (Bool-cases (k == n)) [
    | inl hit ↦ ground (arith, hit, h, e)
    | inr miss ↦ ground (arith, miss, h)
  ]);
  from = λ k q h. elim (Bool-cases (k == n)) [
    | inl hit ↦ rw hit (sym e ∙ ap m (sym (eq_of_== k n hit)) ∙ v.from k q h)
    | inr miss ↦ rw miss (v.from k q h)
  ];
}

-- The entry of a destroyed fid goes, and no other changes.
Represents-Freed :
    (m : ℕ → Option Ptr) (n : ℕ) (p : Ptr) (s t : St)
    → Represents m s
    → m n ≡ some p
    → Freed p s t
    → Represents (update m n none) t
Represents-Freed m n p s t v e x = record { pool = x.pool; to = to; from = from }
  where
    to : (k : ℕ) (q : Ptr) → update m n none k ≡ some q → fid_of t.heap q ≡ some k
    to k q h = elim (Bool-cases (k == n)) [
      | inl hit ↦ absurd (ground (arith, hit, h))
      | inr miss ↦
          let old : m k ≡ some q = ground (arith, miss, h) in
          let apart : q ≢ p = λ same. ne_of_== k n miss (
            let e' : some k ≡ some n = sym (v.to k q old) ∙ ap (fid_of s.heap) same ∙ v.to n p e in
            cc) in
          x.shape q apart ∙ v.to k q old
    ]

    from : (k : ℕ) (q : Ptr) → fid_of t.heap q ≡ some k → update m n none k ≡ some q
    from k q h =
        let (live, apart) = x.gone q (live_of_fid_of t.heap q k h) in
        let old = v.from k q (sym (x.shape q apart) ∙ h) in
        elim (Bool-cases (k == n)) [
          | inl hit ↦
              absurd
                (apart (let e' : some q ≡ some p = sym old ∙ ap m (eq_of_== k n hit) ∙ e in cc))
          | inr miss ↦ rw miss old
        ]

-- A new fid, at an address that was free, gets the entry.
Represents-link :
    (m : ℕ → Option Ptr) (n : ℕ) (s t : St)
    → Represents m s
    → m n ≡ none
    → Calm s t
    → s.next + 1 ≤ t.next
    → Returns (λ _ u. Represents (update m n (some s.next)) u) (link_fid n s.next t)
unfolding link_fid
Represents-link m n s t v absent c lt = returns (record {
  pool =
      IsPool-create
        (subst (λ b. IsPool t.heap b s.next) (sym c.table)
          (IsPool-shape s.next s.next c.grows.shape (omega arith) v.pool))
        n t.next
        (Absent-of_all _ n _ (λ p e. let there = v.from n p (sym (c.grows.shape p) ∙ e) in cc))
        (omega arith);
  to = to;
  from = from;
})
  where
    h' : Ptr → Option Npfid
    h' = put_fid t.heap s.next (some (new_fid n))

    free : (k : ℕ) (q : Ptr) → fid_of s.heap q ≡ some k → q ≢ s.next
    free k q e same =
        let none_there = v.pool.fresh s.next (omega arith) in ground (arith, none_there, e, same)

    other : (q : Ptr) → q ≢ s.next → fid_of h' q ≡ fid_of s.heap q
    other q ne = ap number (put_fid_ne t.heap s.next q _ ne) ∙ c.grows.shape q

    to : (k : ℕ) (q : Ptr) → update m n (some s.next) k ≡ some q → fid_of h' q ≡ some k
    to k q h = elim (Bool-cases (k == n)) [
      | inl hit ↦
          let same : s.next ≡ q = ground (arith, hit, h) in
          subst (λ x. fid_of h' x ≡ some k) same
            (ap number (put_fid_self t.heap s.next _) ∙ ap some (sym (eq_of_== k n hit)))
      | inr miss ↦ let old = v.to k q (ground (arith, miss, h)) in other q (free k q old) ∙ old
    ]

    from : (k : ℕ) (q : Ptr) → fid_of h' q ≡ some k → update m n (some s.next) k ≡ some q
    from k q h = elim (Bool-cases (q == s.next)) [
      | inl hit ↦
          let number_new : some n ≡ some k =
            ap number (sym (put_fid_self t.heap s.next (some (new_fid n))))
            ∙ ap (fid_of h') (sym (eq_of_== q s.next hit))
            ∙ h in
          let same : n ≡ k = cc in ground (arith, same, eq_of_== q s.next hit)
      | inr miss ↦
          let old = v.from k q (sym (other q (ne_of_== q s.next miss)) ∙ h) in
          let apart : k ≢ n =
            λ same. (let e' : none ≡ some q = sym absent ∙ ap m (sym same) ∙ old in cc) in
          ground (arith, apart, old)
    ]

Represents-Grows : (m : ℕ → Option Ptr) (s t : St) → Grows s t → Represents m s → Represents m t
Represents-Grows m s t g v = record {
  pool = g.pool v.pool;
  to = λ n p e. g.shape p ∙ v.to n p e;
  from = λ n p e. v.from n p (sym (g.shape p) ∙ e);
}

-- What a creation does: the pool is as it was where memory runs out, and otherwise the number has
-- the fid that is returned.
abbrev pub CreatesIn : (ℕ → Option Ptr) → ℕ → Option Ptr → St → Type 0
CreatesIn m n none t = (m n ≡ none) × Represents m t
CreatesIn m n (some p) t = Represents (update m n (some p)) t × ((q : Ptr) → m n ≡ some q → p ≡ q)

module _ (env : Env) where
  insert_fid-CreatesIn :
      (m : ℕ → Option Ptr) (n : ℕ) (s t : St) (b : Bool)
      → Represents m s
      → m n ≡ none
      → Calm s t
      → s.next + 1 ≤ t.next
      → Returns (CreatesIn m n) (insert_fid env n s.next b t)
  unfolding insert_fid
  insert_fid-CreatesIn m n s t true v e c lt =
      Returns-bind (Represents-link m n s t v e c lt) λ _ u w. returns (w, λ q e'. absurd cc)
  insert_fid-CreatesIn m n s t false v e c lt = returns (e, Represents-Grows m s t c.grows v)

  -- In a pool that represents a map, a creation returns the fid that the number has, or gives the
  -- number a new one. Where it returns none, the number has no fid and the map stays as it is.
  pub np_fid_create-Represents :
      (m : ℕ → Option Ptr) (n : ℕ) (s : St)
      → Represents m s
      → Returns (CreatesIn m n) (np_fid_create env n s)
  unfolding np_fid_create create_missing
  np_fid_create-Represents m n s v = Returns-bind (np_fid_lookup-Looked s v.pool n) looked
    where
      looked :
          (r : Option Ptr) (t : St)
          → Looked s n r t
          → Returns (CreatesIn m n) (create_missing env n r t)
      looked (some p) t l =
          let there = v.from n p (l.some_found p refl) in
          returns (update_same m n p t there (Represents-table m n s _ t v l), λ q e. cc)
      looked none t l =
          let v' = Represents-table m n s none t v l in
          let absent : m n ≡ none = elim (Option-cases (m n)) [
            | inl e ↦ e
            | inr (p, e) ↦ absurd (l.none_absent refl p (v.to n p e))
          ] in
          Returns-bind (np_malloc-Calm env t)
            λ b u (c, lt). insert_fid-CreatesIn m n t u b v' absent c lt

  -- To destroy the fid of a number takes the entry of the number out of the map and leaves the others,
  -- where a call of the file server touches no fids but those it is given.
  pub np_fid_destroy-Represents :
      (c : Contract env) (m : ℕ → Option Ptr) (n : ℕ) (p : Ptr) (s : St)
      → Represents m s
      → m n ≡ some p
      → Returns (λ _ t. Represents (update m n none) t) (np_fid_destroy env p s)
  np_fid_destroy-Represents c m n p s v e =
      Returns-mono (np_fid_destroy-Freed env c p s v.pool (live_of_fid_of s.heap p n (v.to n p e)))
        (λ _ t x. Represents-Freed m n p s t v e x)
