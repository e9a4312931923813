-- ===== src/Safety/Grows.antt =====
-- The references to the fids of a connection (refcount of Npfid), and states that keep them.
use npfs.Prelude.{
  ℕ, ◌≤◌, ◌≡◌, ◌≢◌, refl, sym, ap, ◌∙◌, Option, none, some, List, arith, AtLeast, ℤ, pos, negsuc,
}
use npfs.State.{Ptr, Npfid, St}
use npfs.Fidpool.Chains.{fid_of, number, Chain-frame}
use npfs.Fidpool.WellFormed.{IsPool, WellFormed}

-- The fid lives and has so many references at least.
abbrev pub Holds : (Ptr → Option Npfid) → Ptr → ℕ → Type 0
Holds h p k = (f : Npfid) × (h p ≡ some f) × AtLeast k f.refcount

abbrev pub IsLive : (Ptr → Option Npfid) → Ptr → Type 0
IsLive h p = (f : Npfid) × (h p ≡ some f)

pub Holds-le : (h : Ptr → Option Npfid) (p : Ptr) (j k : ℕ) → j ≤ k → Holds h p k → Holds h p j
Holds-le h p j k le (f, e, a) = (f, e, weaken f.refcount a)
  where
    weaken : (r : ℤ) → AtLeast k r → AtLeast j r
    weaken (pos n) a = omega arith
    weaken (negsuc n) a = a

-- The pool is well formed, every fid but `x` has a reference, and the request's fid lives.
pub record SafeBut (x : Option Ptr) (s : St) : Type 0 where
  pub pool : WellFormed s
  pub counted : (p : Ptr) → IsLive s.heap p → some p ≢ x → Holds s.heap p 1
  pub mine : (p : Ptr) → s.rfid ≡ some p → Holds s.heap p 1

abbrev pub Safe : St → Type 0
Safe = SafeBut none

-- What an action that gives no reference back may do.
pub record Grows (s s' : St) : Type 0 where
  pub shape : (p : Ptr) → fid_of s'.heap p ≡ fid_of s.heap p
  pub pool : WellFormed s → WellFormed s'
  pub holds : (p : Ptr) (k : ℕ) → Holds s.heap p k → Holds s'.heap p k
  pub rfid : s'.rfid ≡ s.rfid
  pub req : s'.req ≡ s.req
  pub workreqs : s'.workreqs ≡ s.workreqs

pub Grows-refl : (s : St) → Grows s s
Grows-refl s = record {
  shape = λ p. refl;
  pool = λ v. v;
  holds = λ p k h. h;
  rfid = refl;
  req = refl;
  workreqs = refl;
}

pub Grows-trans : {s t u : St} → Grows s t → Grows t u → Grows s u
Grows-trans g h = record {
  shape = λ p. h.shape p ∙ g.shape p;
  pool = λ v. h.pool (g.pool v);
  holds = λ p k x. h.holds p k (g.holds p k x);
  rfid = h.rfid ∙ g.rfid;
  req = h.req ∙ g.req;
  workreqs = h.workreqs ∙ g.workreqs;
}

-- The same, where the buckets stay as they are.
pub record Calm (s s' : St) : Type 0 where
  pub grows : Grows s s'
  pub table : s'.htable ≡ s.htable
  pub later : s.next ≤ s'.next

pub Calm-refl : (s : St) → Calm s s
Calm-refl s = record { grows = Grows-refl s; table = refl; later = omega arith }

pub Calm-trans : {s t u : St} → Calm s t → Calm t u → Calm s u
Calm-trans g h = record {
  grows = Grows-trans g.grows h.grows;
  table = h.table ∙ g.table;
  later = omega (arith, g.later, h.later);
}

live_of_number : (o : Option Npfid) (n : ℕ) → number o ≡ some n → (f : Npfid) × (o ≡ some f)
live_of_number none n e = cc
live_of_number (some f) n e = (f, refl)

dead_of_number : (o : Option Npfid) → number o ≡ none → o ≡ none
dead_of_number none e = refl
dead_of_number (some f) e = cc

-- Fids of the same numbers at the same addresses have the same lives.
pub IsLive-shape :
    (h h' : Ptr → Option Npfid) (p : Ptr) → fid_of h' p ≡ fid_of h p → IsLive h' p → IsLive h p
IsLive-shape h h' p e (f, live) = live_of_number (h p) f.fid (sym e ∙ ap number live)

-- A pool stays one when its fids keep their numbers.
pub IsPool-shape :
    {h h' : Ptr → Option Npfid} {t : ℕ → List Ptr} (n n' : ℕ)
    → ((p : Ptr) → fid_of h' p ≡ fid_of h p)
    → n ≤ n'
    → IsPool h t n
    → IsPool h' t n'
IsPool-shape {h} {h'} {t} n n' same le v = record {
  chains = λ i. Chain-frame i (t i) (λ q _. same q) (v.chains i);
  indexed = λ p k e. v.indexed p k (sym (same p) ∙ e);
  fresh = λ p l. dead_of_number (h' p) (same p ∙ ap number (v.fresh p (omega arith)));
}

pub SafeBut-Grows : {x : Option Ptr} {s s' : St} → Grows s s' → SafeBut x s → SafeBut x s'
SafeBut-Grows {s} {s'} g v = record {
  pool = g.pool v.pool;
  counted =
      λ p live ne. g.holds p 1 (v.counted p (IsLive-shape s.heap s'.heap p (g.shape p) live) ne);
  mine = λ p e. g.holds p 1 (v.mine p (sym g.rfid ∙ e));
}
