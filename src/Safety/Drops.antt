-- ===== src/Safety/Drops.antt =====
-- What np_fid_decref does to the references, and a state with one reference or one fid less.
use npfs.Prelude.{
  ℕ, suc, ◌≤◌, ◌%◌, ◌≡◌, ◌≢◌, refl, sym, ap, ◌∙◌, subst, inl, inr, Option, none, some, arith,
  AtLeast, pos, ◌==◌, Bool-cases, ne_of_==,
}
use npfs.Constants.{fid_htable_size}
use npfs.State.{Ptr, Npfid, St}
use npfs.State.Mem.{put_fid, put_bucket, put_fid_self, put_fid_ne}
use npfs.State.Returns.{Returns, returns}
use npfs.Fidpool.{unlink, free_fid}
use npfs.Fidpool.Chains.{fid_of, number}
use npfs.Fidpool.WellFormed.{IsPool, WellFormed, IsPool-destroy}
use npfs.Safety.Grows.{Holds, IsLive, IsLive-shape, Calm, IsPool-shape}
use npfs.Safety.Actions.{write_shape, same_fid}
use npfs.Prelude.{pred_ℤ}

less_one : (m k : ℕ) → pos (suc m) ≡ pos (suc k) → pos m ≡ pos k
unfolding pred_ℤ
less_one m k e = ap pred_ℤ e

-- A safe state, but for the request's own fid.
pub record Counted (s : St) : Type 0 where
  pub pool : WellFormed s
  pub counted : (p : Ptr) → IsLive s.heap p → Holds s.heap p 1

-- What np_fid_decref does to the other references, and to the fid: the last reference frees it, and
-- any other is taken off its count.
pub record Drops (p : Ptr) (s s' : St) : Type 0 where
  pub others : (q : Ptr) (k : ℕ) → q ≢ p → Holds s.heap q k → Holds s'.heap q k
  pub own : (k : ℕ) → Holds s.heap p (suc (suc k)) → Holds s'.heap p (suc k)
  pub last : (f : Npfid) → s.heap p ≡ some f → f.refcount ≡ pos 1 → s'.heap p ≡ none
  pub lower :
      (f : Npfid) (k : ℕ)
      → s.heap p ≡ some f
      → f.refcount ≡ pos (suc (suc k))
      → s'.heap p ≡ some (record f { refcount = pos (suc k) })
  pub rfid : s'.rfid ≡ s.rfid
  pub req : s'.req ≡ s.req
  pub workreqs : s'.workreqs ≡ s.workreqs

-- The freed fid is gone, and the rest is as it was.
pub record Freed (p : Ptr) (s s' : St) : Type 0 where
  pub pool : WellFormed s'
  pub dead : s'.heap p ≡ none
  pub gone : (q : Ptr) → IsLive s'.heap q → IsLive s.heap q × (q ≢ p)
  pub others : (q : Ptr) (k : ℕ) → q ≢ p → Holds s.heap q k → Holds s'.heap q k
  pub shape : (q : Ptr) → q ≢ p → fid_of s'.heap q ≡ fid_of s.heap q
  pub rfid : s'.rfid ≡ s.rfid
  pub req : s'.req ≡ s.req
  pub workreqs : s'.workreqs ≡ s.workreqs

-- The heap without the fid, over a state that differs calmly.
pub free-Freed :
    (p : Ptr) (n : ℕ) (s t : St)
    → WellFormed s
    → fid_of s.heap p ≡ some n
    → Calm
        (record s {
          htable =
              put_bucket s.htable (n % fid_htable_size) (unlink p (s.htable (n % fid_htable_size)));
        })
        t
    → Returns (λ _ s'. Freed p s s') (free_fid p t)
unfolding free_fid
free-Freed p n s t v e c = returns (record {
  pool = pool;
  dead = put_fid_self t.heap p none;
  gone = gone;
  others = λ q k ne h.
      let (f, live, a) = c.grows.holds q k h in (f, put_fid_ne t.heap p q none ne ∙ live, a);
  shape = λ q ne. ap number (put_fid_ne t.heap p q none ne) ∙ c.grows.shape q;
  rfid = c.grows.rfid;
  req = c.grows.req;
  workreqs = c.grows.workreqs;
})
  where
    i : ℕ
    i = n % fid_htable_size

    pool : IsPool (put_fid t.heap p none) t.htable t.next
    pool =
        subst (λ b. IsPool (put_fid t.heap p none) b t.next) (sym c.table)
          (IsPool-destroy (IsPool-shape s.next t.next c.grows.shape c.later v) p n
            (c.grows.shape p ∙ e))

    gone : (q : Ptr) → IsLive (put_fid t.heap p none) q → IsLive s.heap q × (q ≢ p)
    gone q (f, live) = elim (Bool-cases (q == p)) [
      | inl hit ↦ absurd (ground (arith, hit, live))
      | inr miss ↦ (
        IsLive-shape s.heap t.heap q (c.grows.shape q)
            (f, sym (put_fid_ne t.heap p q none (ne_of_== q p miss)) ∙ live),
        ne_of_== q p miss,
      )
    ]

-- One reference less, of a fid that has more.
pub lower-Counted :
    (p : Ptr) (s : St) (f : Npfid) (m : ℕ)
    → Counted s
    → s.heap p ≡ some f
    → f.refcount ≡ pos (suc (suc m))
    → let s' = record s { heap = put_fid s.heap p (some (record f { refcount = pos (suc m) })) } in
      Counted s' × Drops p s s'
lower-Counted p s f m v live count = (
  record {
    pool = IsPool-shape s.next s.next shape (omega arith) v.pool;
    counted = λ q l. one q (v.counted q (IsLive-shape s.heap h' q (shape q) l));
  },
  record {
    others = others;
    own = own;
    last = last;
    lower = lower;
    rfid = refl;
    req = refl;
    workreqs = refl;
  },
)
  where
    g : Npfid
    g = record f { refcount = pos (suc m) }

    h' : Ptr → Option Npfid
    h' = put_fid s.heap p (some g)

    shape : (q : Ptr) → fid_of h' q ≡ fid_of s.heap q
    shape = write_shape s p f live g refl

    others : (q : Ptr) (k : ℕ) → q ≢ p → Holds s.heap q k → Holds h' q k
    others q k ne (x, e, a) = (x, put_fid_ne s.heap p q (some g) ne ∙ e, a)

    own : (k : ℕ) → Holds s.heap p (suc (suc k)) → Holds h' p (suc k)
    own k (x, e, a) =
        let same : x.refcount ≡ pos (suc (suc m)) =
          ap (λ (y : Npfid). y.refcount) (same_fid s p f live p x e refl) ∙ count in
        let a' : suc (suc k) ≤ suc (suc m) = subst (λ r. AtLeast (suc (suc k)) r) same a in
        (g, put_fid_self s.heap p (some g), omega arith)

    last : (x : Npfid) → s.heap p ≡ some x → x.refcount ≡ pos 1 → h' p ≡ none
    last x e one =
        let same : pos 1 ≡ pos (suc (suc m)) =
          sym one ∙ ap (λ (y : Npfid). y.refcount) (same_fid s p f live p x e refl) ∙ count in
        absurd cc

    lower :
        (x : Npfid) (k : ℕ)
        → s.heap p ≡ some x
        → x.refcount ≡ pos (suc (suc k))
        → h' p ≡ some (record x { refcount = pos (suc k) })
    lower x k e more =
        let same : x ≡ f = same_fid s p f live p x e refl in
        let counts : pos (suc (suc m)) ≡ pos (suc (suc k)) =
          sym count ∙ ap (λ (y : Npfid). y.refcount) (sym same) ∙ more in
        let less : pos (suc m) ≡ pos (suc k) = less_one _ _ counts in
        put_fid_self s.heap p (some g)
        ∙ ap (λ i. some (record f { refcount = i })) less
        ∙ ap (λ (y : Npfid). some (record y { refcount = pos (suc k) })) (sym same)

    one : (q : Ptr) → Holds s.heap q 1 → Holds h' q 1
    one q x = elim (Bool-cases (q == p)) [
      | inl hit ↦ (g, rw hit, omega arith)
      | inr miss ↦ others q 1 (ne_of_== q p miss) x
    ]

-- The last reference goes, and the fid with it.
pub last-Counted :
    (p : Ptr) (s s' : St) (f g : Npfid)
    → Counted s
    → s.heap p ≡ some f
    → f.refcount ≡ pos 1
    → Freed p (record s { heap = put_fid s.heap p (some g) }) s'
    → Counted s' × Drops p s s'
last-Counted p s s' f g v live count x = (
  record {
    pool = x.pool;
    counted = λ q l.
        let (l', nq) = x.gone q l in
        others q 1 nq (v.counted q (l'.0, sym (put_fid_ne s.heap p q (some g) nq) ∙ l'.1));
  },
  record {
    others = others;
    own = own;
    last = λ y e one. x.dead;
    lower = lower;
    rfid = x.rfid;
    req = x.req;
    workreqs = x.workreqs;
  },
)
  where
    others : (q : Ptr) (k : ℕ) → q ≢ p → Holds s.heap q k → Holds s'.heap q k
    others q k ne (y, e, a) = x.others q k ne (y, put_fid_ne s.heap p q (some g) ne ∙ e, a)

    own : (k : ℕ) → Holds s.heap p (suc (suc k)) → Holds s'.heap p (suc k)
    own k (y, e, a) =
        let same : y.refcount ≡ pos 1 =
          ap (λ (z : Npfid). z.refcount) (same_fid s p f live p y e refl) ∙ count in
        let a' : suc (suc k) ≤ 1 = subst (λ r. AtLeast (suc (suc k)) r) same a in
        absurd (omega arith)

    lower :
        (y : Npfid) (k : ℕ)
        → s.heap p ≡ some y
        → y.refcount ≡ pos (suc (suc k))
        → s'.heap p ≡ some (record y { refcount = pos (suc k) })
    lower y k e more =
        let same : pos 1 ≡ pos (suc (suc k)) =
          sym count
          ∙ ap (λ (z : Npfid). z.refcount) (sym (same_fid s p f live p y e refl))
          ∙ more in
        absurd cc
