-- ===== src/Fidpool/Chains.antt =====
-- The lists of fids of libnpfs/fidpool.c: what a bucket keeps true, and how the list operations act.
use npfs.Prelude.{
  ℕ, ◌%◌, ◌≡◌, ◌≢◌, refl, sym, ◌∙◌, subst, ◌⊎◌, inl, inr, true, Option, none, some, List, [], ◌∷◌,
  arith, ◌==◌, Bool-cases, Option-cases, eq_of_==, ne_of_==,
}
use npfs.Constants.{fid_htable_size}
use npfs.State.{Ptr, Npfid}
use npfs.Fidpool.{unlink, scan, to_front}

abbrev pub number : Option Npfid → Option ℕ
number none = none
number (some f) = some f.fid

-- The number of the fid at an address.
abbrev pub fid_of : (Ptr → Option Npfid) → Ptr → Option ℕ
fid_of h p = number (h p)

abbrev pub In : Ptr → List Ptr → Type 0
In p [] = ⊥
In p (q ∷ qs) = (q ≡ p) ⊎ In p qs

-- No fid of the list has the number.
abbrev pub Absent : (Ptr → Option ℕ) → ℕ → List Ptr → Type 0
Absent g n [] = Unit {0}
Absent g n (q ∷ qs) = (g q ≢ some n) × Absent g n qs

-- The list of bucket `i`: its fids live, have numbers that hash to `i`, and no two have the same.
abbrev pub Chain : (Ptr → Option ℕ) → ℕ → List Ptr → Type 0
Chain g i [] = Unit {0}
Chain g i (q ∷ qs) =
    ((n : ℕ) × (g q ≡ some n) × (n % fid_htable_size ≡ i) × Absent g n qs) × Chain g i qs

module _ {g g' : Ptr → Option ℕ} where
  pub Absent-frame :
      (n : ℕ) (ps : List Ptr) → ((q : Ptr) → In q ps → g' q ≡ g q) → Absent g n ps → Absent g' n ps
  Absent-frame n [] same a = tt
  Absent-frame n (q ∷ qs) same a =
      (λ e. a.0 (sym (same q (inl refl)) ∙ e), Absent-frame n qs (λ r h. same r (inr h)) a.1)

  -- A chain speaks of its own fids only.
  pub Chain-frame :
      (i : ℕ) (ps : List Ptr) → ((q : Ptr) → In q ps → g' q ≡ g q) → Chain g i ps → Chain g' i ps
  Chain-frame i [] same c = tt
  Chain-frame i (q ∷ qs) same ((n, e, m, a), c) = (
    (n, same q (inl refl) ∙ e, m, Absent-frame n qs (λ r h. same r (inr h)) a),
    Chain-frame i qs (λ r h. same r (inr h)) c,
  )

pub In-unlink : (r p : Ptr) (ps : List Ptr) → r ≢ p → In r ps → In r (unlink p ps)
unfolding unlink
In-unlink r p [] ne m = m
In-unlink r p (q ∷ qs) ne (inl e) = ground (arith, e)
In-unlink r p (q ∷ qs) ne (inr m) = ground (arith, In-unlink r p qs ne m)

pub unlink-In : (r p : Ptr) (ps : List Ptr) → In r (unlink p ps) → In r ps
unfolding unlink
unlink-In r p [] m = m
unlink-In r p (q ∷ qs) m = ground (arith, unlink-In r p qs)

pub In-to_front : (r p : Ptr) (ps : List Ptr) → In r ps → In r (to_front p ps)
unfolding to_front
In-to_front r p [] m = m
In-to_front r p (q ∷ qs) m = elim (Bool-cases (q == p)) [
  | inl hit ↦ rw hit m
  | inr miss ↦ elim (Bool-cases (p == r)) [
    | inl same ↦ rw miss (inl (eq_of_== p r same))
    | inr other ↦ rw miss (inr (In-unlink r p (q ∷ qs) (λ e. ne_of_== p r other (sym e)) m))
  ]
]

module _ (g : Ptr → Option ℕ) where
  pub Absent-ne : (n : ℕ) (p : Ptr) (ps : List Ptr) → In p ps → Absent g n ps → g p ≢ some n
  Absent-ne n p [] m a = absurd m
  Absent-ne n p (q ∷ qs) (inl e) a = ground (arith, a.0)
  Absent-ne n p (q ∷ qs) (inr m) a = Absent-ne n p qs m a.1

  pub Absent-unlink : (n : ℕ) (p : Ptr) (ps : List Ptr) → Absent g n ps → Absent g n (unlink p ps)
  unfolding unlink
  Absent-unlink n p [] a = tt
  Absent-unlink n p (q ∷ qs) a = ground (arith, Absent-unlink n p qs a.1)

  pub Chain-unlink : (i : ℕ) (p : Ptr) (ps : List Ptr) → Chain g i ps → Chain g i (unlink p ps)
  unfolding unlink
  Chain-unlink i p [] c = tt
  Chain-unlink i p (q ∷ qs) ((n, e, m, a), c) = elim (Bool-cases (q == p)) [
    | inl hit ↦ rw hit c
    | inr miss ↦ rw miss ((n, e, m, Absent-unlink n p qs a), Chain-unlink i p qs c)
  ]

  -- The member's number hashes to the bucket.
  pub Chain-hash :
      (i : ℕ) (p : Ptr) (ps : List Ptr)
      → Chain g i ps
      → In p ps
      → (n : ℕ) × (g p ≡ some n) × (n % fid_htable_size ≡ i)
  Chain-hash i p [] c m = absurd m
  Chain-hash i p (q ∷ qs) ((n, e, h, a), c) (inl r) = (n, ground arith, h)
  Chain-hash i p (q ∷ qs) (x, c) (inr m) = Chain-hash i p qs c m

  -- Once a fid is taken out, its number is absent.
  pub unlink-Absent :
      (i n : ℕ) (p : Ptr) (ps : List Ptr)
      → Chain g i ps
      → In p ps
      → g p ≡ some n
      → Absent g n (unlink p ps)
  unfolding unlink
  unlink-Absent i n p [] c m e = tt
  unlink-Absent i n p (q ∷ qs) ((k, ek, h, a), c) (inl r) e =
      let hit : (q == p) ≡ true = ground arith in
      let same : k ≡ n = ground arith in rw hit (subst (λ m. Absent g m qs) same a)
  unlink-Absent i n p (q ∷ qs) ((k, ek, h, a), c) (inr m) e = elim (Bool-cases (q == p)) [
    | inl hit ↦ absurd (Absent-ne k p qs m a (ground (arith, eq_of_== q p hit)))
    | inr miss ↦ rw miss (λ x. Absent-ne k p qs m a (ground arith), unlink-Absent i n p qs c m e)
  ]

  -- A bucket stays a chain when one of its fids goes to the head.
  pub Chain-to_front :
      (i : ℕ) (p : Ptr) (ps : List Ptr) → Chain g i ps → In p ps → Chain g i (to_front p ps)
  unfolding to_front
  Chain-to_front i p [] c m = absurd m
  Chain-to_front i p (q ∷ qs) c m =
      let (n, e, h) = Chain-hash i p (q ∷ qs) c m in
      elim (Bool-cases (q == p)) [
        | inl hit ↦ rw hit c
        | inr miss ↦
            rw miss ((n, e, h, unlink-Absent i n p (q ∷ qs) c m e), Chain-unlink i p (q ∷ qs) c)
      ]

-- What np_fid_lookup's loop finds.
abbrev pub Found : (Ptr → Option Npfid) → ℕ → List Ptr → Option (Option Ptr) → Type 0
Found h n ps none = ⊥
Found h n ps (some none) = Absent (fid_of h) n ps
Found h n ps (some (some p)) = In p ps × (fid_of h p ≡ some n)

Found-cons :
    (h : Ptr → Option Npfid) (n : ℕ) (q : Ptr) (qs : List Ptr) (r : Option (Option Ptr))
    → fid_of h q ≢ some n
    → Found h n qs r
    → Found h n (q ∷ qs) r
Found-cons h n q qs none ne x = x
Found-cons h n q qs (some none) ne x = (ne, x)
Found-cons h n q qs (some (some p)) ne x = (inr x.0, x.1)

pub scan-Found :
    (h : Ptr → Option Npfid) (i n : ℕ) (ps : List Ptr)
    → Chain (fid_of h) i ps
    → Found h n ps (scan h n ps)
unfolding scan
scan-Found h i n [] c = tt
scan-Found h i n (q ∷ qs) ((k, e, m, a), c) = elim (Option-cases (h q)) [
  | inl dead ↦ absurd (ground (arith, e, dead))
  | inr (f, live) ↦ elim (Bool-cases (f.fid == n)) [
    | inl hit ↦ rw (live, scan) (rw hit (inl refl, ground (arith, eq_of_== f.fid n hit)))
    | inr miss ↦
        rw (live, scan)
          (rw miss
            (Found-cons h n q qs _ (ground (arith, ne_of_== f.fid n miss)) (scan-Found h i n qs c)))
  ]
]

pub Absent-of_all :
    (g : Ptr → Option ℕ) (n : ℕ) (ps : List Ptr) → ((p : Ptr) → g p ≢ some n) → Absent g n ps
Absent-of_all g n [] h = tt
Absent-of_all g n (q ∷ qs) h = (h q, Absent-of_all g n qs h)
