-- ===== src/State/Mem.antt =====
-- The memory of a connection's fids.
use npfs.Prelude.{
  ◌≡◌, ◌≢◌, inl, inr, ==_self, Bool-cases, eq_of_==, ℕ, Option, none, some, List, ◌==◌,
  if◌then◌else◌, succ_ℤ,
}
use npfs.State.{Ptr, Npfid, fault, M, ok, ◌>>=◌}

-- The heap and the table are functions, changed at one place.
abbrev pub put_fid : (Ptr → Option Npfid) → Ptr → Option Npfid → Ptr → Option Npfid
put_fid h p f q = if q == p then f else h q

abbrev pub put_bucket : (ℕ → List Ptr) → ℕ → List Ptr → ℕ → List Ptr
put_bucket t i l j = if j == i then l else t j

-- `*p`, a fault where no fid lives.
unfoldable pub load : Ptr → M Npfid
load p s = elim (s.heap p) [ none ↦ fault | some f ↦ ok f s ]

-- `*p = f`
unfoldable pub store : Ptr → Npfid → M (Unit {0})
store p f s = elim (s.heap p) [
  | none ↦ fault
  | some _ ↦ ok tt (record s { heap = put_fid s.heap p (some f) })
]

-- A change of one fid's fields in place.
unfoldable pub adjust : Ptr → (Npfid → Npfid) → M (Unit {0})
adjust p g = do f ← load p; store p (g f)

-- The caller's pointer is not NULL.
unfoldable pub np_fid_incref : Ptr → M (Unit {0})
np_fid_incref p = adjust p (λ f. record f { refcount = succ_ℤ f.refcount })

pub put_fid_self : (h : Ptr → Option Npfid) (p : Ptr) (f : Option Npfid) → put_fid h p f p ≡ f
put_fid_self h p f = rw ==_self

pub put_fid_ne :
    (h : Ptr → Option Npfid) (p q : Ptr) (f : Option Npfid) → q ≢ p → put_fid h p f q ≡ h q
put_fid_ne h p q f ne = elim (Bool-cases (q == p)) [
  | inl hit ↦ absurd (ne (eq_of_== q p hit))
  | inr miss ↦ rw miss
]
