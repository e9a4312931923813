-- ===== src/Safety/Pool.antt =====
-- The references that np_fid_find, np_fid_create and np_fid_decref keep.
use npfs.Prelude.{
  ℕ, ◌+◌, ◌≤◌, ◌%◌, ◌≡◌, ◌≢◌, refl, sym, ap, ◌∙◌, subst, Bool, true, false, Option, none, some, ◌∷◌,
  arith,
}
use npfs.Constants.{fid_htable_size}
use npfs.State.{Ptr, Npfid, Env, St}
use npfs.State.Mem.{put_fid, put_bucket, put_fid_self, put_fid_ne}
use npfs.State.Returns.{Returns, returns, Returns-bind, Returns-mono}
use npfs.Fidpool.{np_fid_find, np_fid_create, create_missing, insert_fid, link_fid, new_fid}
use npfs.Fidpool.Chains.{fid_of, Absent-of_all}
use npfs.Fidpool.WellFormed.{IsPool, WellFormed, IsPool-create}
use npfs.Fidpool.Find.{Looked, np_fid_lookup-Looked, np_fid_find-Looked}
use npfs.Safety.Grows.{
  Holds, IsLive, IsLive-shape, Safe, SafeBut, SafeBut-Grows, Grows, Grows-trans, Calm, IsPool-shape,
}
use npfs.Safety.Actions.{np_malloc-Calm}

-- What np_fid_find and np_fid_lookup do.
pub record Finds (n : ℕ) (s : St) (r : Option Ptr) (s' : St) : Type 0 where
  pub grows : Grows s s'
  pub absent : r ≡ none → (p : Ptr) → fid_of s'.heap p ≢ some n
  pub found : (p : Ptr) → r ≡ some p → IsLive s'.heap p × (fid_of s'.heap p ≡ some n)

pub live_of_fid_of : (h : Ptr → Option Npfid) (p : Ptr) (n : ℕ) → fid_of h p ≡ some n → IsLive h p
live_of_fid_of h p n e = go (h p) refl
  where
    go : (o : Option Npfid) → h p ≡ o → IsLive h p
    go none x = absurd (ground (arith, x, e))
    go (some f) x = (f, x)

Looked-Finds : (n : ℕ) (s s' : St) (r : Option Ptr) → Looked s n r s' → Finds n s r s'
Looked-Finds n s s' r l = rw l.moved (record {
  grows = record {
    shape = λ p. refl;
    pool = λ _. l.well;
    holds = λ p k h. h;
    rfid = refl;
    req = refl;
    workreqs = refl;
  };
  absent = l.none_absent;
  found = λ p e. (live_of_fid_of s.heap p n (l.some_found p e), l.some_found p e);
})

pub np_fid_find-Finds : (n : ℕ) (s : St) → WellFormed s → Returns (Finds n s) (np_fid_find n s)
np_fid_find-Finds n s v =
    Returns-mono (np_fid_find-Looked s v n) (λ r s' l. Looked-Finds n s s' r l)

-- What np_fid_create does where no fid has the number: a fid without references, which is not
-- counted yet.
pub record Created (n : ℕ) (s : St) (q : Ptr) (s' : St) : Type 0 where
  pub safe : SafeBut (some q) s'
  pub made : s'.heap q ≡ some (new_fid n)
  pub holds : (p : Ptr) (k : ℕ) → Holds s.heap p k → Holds s'.heap p k
  pub fresh : (p : Ptr) → IsLive s.heap p → p ≢ q
  pub rfid : s'.rfid ≡ s.rfid
  pub req : s'.req ≡ s.req
  pub workreqs : s'.workreqs ≡ s.workreqs

abbrev pub CreatedIf : ℕ → St → Option Ptr → St → Type 0
CreatedIf n s none s' = Grows s s'
CreatedIf n s (some q) s' = Created n s q s'

-- The new fid's address is that of its allocation.
link_fid-Created :
    (n : ℕ) (s t : St)
    → Safe s
    → ((p : Ptr) → fid_of s.heap p ≢ some n)
    → Calm s t
    → s.next + 1 ≤ t.next
    → Returns (λ _ u. Created n s s.next u) (link_fid n s.next t)
unfolding link_fid
link_fid-Created n s t v a c lt = returns (record {
  safe = record {
    pool = pool;
    counted = counted;
    mine = λ p e. holds p 1 (v.mine p (sym c.grows.rfid ∙ e));
  };
  made = put_fid_self t.heap s.next _;
  holds = holds;
  fresh = fresh;
  rfid = c.grows.rfid;
  req = c.grows.req;
  workreqs = c.grows.workreqs;
})
  where
    fresh : (p : Ptr) → IsLive s.heap p → p ≢ s.next
    fresh p (f, live) e = ground (arith, v.pool.fresh p (omega arith))

    holds :
        (p : Ptr) (k : ℕ) → Holds s.heap p k → Holds (put_fid t.heap s.next (some (new_fid n))) p k
    holds p k h =
        let (f, e, a) = c.grows.holds p k h in
        (f, put_fid_ne t.heap s.next p _ (fresh p (h.0, h.1)) ∙ e, a)

    pool :
        IsPool
          (put_fid t.heap s.next (some (new_fid n)))
          (put_bucket t.htable (n % fid_htable_size) (s.next ∷ t.htable (n % fid_htable_size)))
          t.next
    pool =
        IsPool-create
          (subst (λ b. IsPool t.heap b s.next) (sym c.table)
            (IsPool-shape s.next s.next c.grows.shape (omega arith) v.pool))
          n t.next (Absent-of_all _ n _ (λ p e. a p (sym (c.grows.shape p) ∙ e))) (omega arith)

    counted :
        (p : Ptr)
        → IsLive (put_fid t.heap s.next (some (new_fid n))) p
        → some p ≢ some s.next
        → Holds (put_fid t.heap s.next (some (new_fid n))) p 1
    counted p (f, live) ne =
        let ne' : p ≢ s.next = λ e. ne (ap some e) in
        let old =
          IsLive-shape s.heap t.heap p (c.grows.shape p)
            (f, sym (put_fid_ne t.heap s.next p _ ne') ∙ live) in
        holds p 1 (v.counted p old (λ e. cc))

CreatedIf-Grows :
    (n : ℕ) {s t : St} (u : St) (q : Option Ptr) → Grows s t → CreatedIf n t q u → CreatedIf n s q u
CreatedIf-Grows n u none g c = Grows-trans g c
CreatedIf-Grows n {s} {t} u (some q) g c = record {
  safe = c.safe;
  made = c.made;
  holds = λ p k h. c.holds p k (g.holds p k h);
  fresh = λ p (f, live). c.fresh p (IsLive-shape t.heap s.heap p (sym (g.shape p)) (f, live));
  rfid = c.rfid ∙ g.rfid;
  req = c.req ∙ g.req;
  workreqs = c.workreqs ∙ g.workreqs;
}

module _ (env : Env) where
  insert_fid-Created :
      (n : ℕ) (s t : St) (b : Bool)
      → Safe s
      → ((p : Ptr) → fid_of s.heap p ≢ some n)
      → Calm s t
      → s.next + 1 ≤ t.next
      → Returns (CreatedIf n s) (insert_fid env n s.next b t)
  unfolding insert_fid
  insert_fid-Created n s t true v a c lt =
      Returns-bind (link_fid-Created n s t v a c lt) λ _ u x. returns x
  insert_fid-Created n s t false v a c lt = returns c.grows

  pub np_fid_create-Created :
      (n : ℕ) (s : St)
      → Safe s
      → ((p : Ptr) → fid_of s.heap p ≢ some n)
      → Returns (CreatedIf n s) (np_fid_create env n s)
  unfolding np_fid_create create_missing
  np_fid_create-Created n s v a =
      Returns-bind (np_fid_lookup-Looked s v.pool n) λ r t l. missing r t (Looked-Finds n s t r l)
    where
      missing :
          (r : Option Ptr) (t : St)
          → Finds n s r t
          → Returns (CreatedIf n s) (create_missing env n r t)
      missing (some p) t f = absurd (a p (sym (f.grows.shape p) ∙ (f.found p refl).1))
      missing none t f = Returns-bind (np_malloc-Calm env t) λ b u (c, lt).
          Returns-mono (insert_fid-Created n t u b (SafeBut-Grows f.grows v) (f.absent refl) c lt)
            (λ q w. CreatedIf-Grows n w q f.grows)
