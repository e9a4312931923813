-- ===== src/Wire/Compare.antt =====
-- libnpfs/np.c: np_strcmp and np_strncmp, which compare bytes of a message with a C string.
use mathlib.Core.Bool.{true≢false}
use npfs.Prelude.{
  ℕ, ==_self, All, Bool, Option, [], arith, eq_of_==, false, if◌then◌else◌, leb, length, ltb, none,
  refl, some, suc, true, zero, ◌==◌, ◌∷◌, ◌≡◌, ◌≢◌, ◌≤◌, Bool-cases, List, ap, inl, inr, sym, ◌↔◌,
  ◌∙◌,
}
use npfs.Types.{Npstr}

-- Whether `strncmp(str, cs, len)` is 0, where str has len bytes. A C string ends with a 0 that the
-- list leaves out, and has no other.
unfoldable pub is_strncmp_zero : ℕ → Npstr → Npstr → Bool
is_strncmp_zero zero str cs = true
is_strncmp_zero (suc n) [] cs = true
is_strncmp_zero (suc n) (x ∷ xs) [] = x == 0
is_strncmp_zero (suc n) (x ∷ xs) (c ∷ cs) = if x == c then is_strncmp_zero n xs cs else false

-- Whether `cs[n]` is 0; none is a read behind the end of the C string.
unfoldable pub ends_at : ℕ → Npstr → Option Bool
ends_at n cs = if ltb n (length cs) then some false else if n == length cs then some true else none

-- Whether the result is 0; none where the function reads behind the end of cs.
unfoldable pub is_np_strcmp_zero : Npstr → Npstr → Option Bool
is_np_strcmp_zero str cs =
    if is_strncmp_zero (length str) str cs then ends_at (length str) cs else some false

unfoldable pub is_np_strncmp_zero : Npstr → Npstr → ℕ → Option Bool
is_np_strncmp_zero str cs len =
    if leb len (length str) then some (is_strncmp_zero len str cs) else is_np_strcmp_zero str cs

abbrev pub HasNoZero : Npstr → Type 0
HasNoZero s = All (λ b. b ≢ 0) s

cons-same : {x y : ℕ} {xs ys : List ℕ} → x ≡ y → xs ≡ ys → x ∷ xs ≡ y ∷ ys
cons-same {y} {xs} e es = ap (λ z. z ∷ xs) e ∙ ap (λ l. y ∷ l) es

ends_at-length : (n : ℕ) (cs : Npstr) → ends_at n cs ≡ some true → n ≡ length cs
unfolding ends_at
ends_at-length n cs h = ground (arith)

strncmp-length :
    (str cs : Npstr)
    → HasNoZero str
    → is_strncmp_zero (length str) str cs ≡ true
    → (length str ≤ length cs) × (length str ≡ length cs → str ≡ cs)
unfolding is_strncmp_zero
strncmp-length [] [] ok h = (omega arith, λ e. refl)
strncmp-length [] (c ∷ cs) ok h = (omega arith, λ e. absurd (omega (arith, e)))
strncmp-length (x ∷ xs) [] (nz, ok) h = absurd (nz (eq_of_== x 0 h))
strncmp-length (x ∷ xs) (c ∷ cs) (nz, ok) h = elim (Bool-cases (x == c)) [
  | inl hit ↦
      let rest : (length xs ≤ length cs) × (length xs ≡ length cs → xs ≡ cs) =
        strncmp-length xs cs ok
          (sym (ap (λ b. if b then is_strncmp_zero (length xs) xs cs else false) hit) ∙ h) in
      (omega (arith, rest.0), λ e. cons-same (eq_of_== x c hit) (rest.1 (omega (arith, e))))
  | inr miss ↦
      absurd
        (true≢false (sym h ∙ ap (λ b. if b then is_strncmp_zero (length xs) xs cs else false) miss))
]

strncmp_self : (s : Npstr) → is_strncmp_zero (length s) s s ≡ true
unfolding is_strncmp_zero
strncmp_self [] = refl
strncmp_self (x ∷ xs) = rw (==_self x) (strncmp_self xs)

ends_at_self : (n : ℕ) (cs : Npstr) → n ≡ length cs → ends_at n cs ≡ some true
unfolding ends_at
ends_at_self n cs e = ground (arith)

inside : (n : ℕ) (cs : Npstr) → n ≤ length cs → ends_at n cs ≢ none
unfolding ends_at
inside n cs le e = ground (arith)

abbrev pub is_there : Option Bool → Bool
is_there none = false
is_there (some b) = true

abbrev pub is_true : Option Bool → Bool
is_true none = true
is_true (some b) = b

-- For a string of a message without a zero byte, np_strcmp reads inside the C string, and its result
-- is 0 exactly where the two have the same bytes.
pub np_strcmp-equal :
    (str cs : Npstr)
    → HasNoZero str
    → (is_np_strcmp_zero str cs ≢ none) × (is_np_strcmp_zero str cs ≡ some true ↔ str ≡ cs)
unfolding is_np_strcmp_zero
np_strcmp-equal str cs ok = elim (Bool-cases (is_strncmp_zero (length str) str cs)) [
  | inl same ↦
      let facts : (length str ≤ length cs) × (length str ≡ length cs → str ≡ cs) =
        strncmp-length str cs ok same in
      rw same (
        inside (length str) cs facts.0,
        (
          (λ h. facts.1 (ends_at-length (length str) cs h)),
          (λ e. ends_at_self (length str) cs (ap length e)),
        ),
      )
  | inr other ↦ rw other (
    (λ h. true≢false (ap is_there h)),
    (
      (λ h. absurd (true≢false (sym (ap is_true h)))),
      (λ e. absurd (
          true≢false (
            sym (ap (λ s. is_strncmp_zero (length str) str s) (sym e) ∙ strncmp_self str)
            ∙ other))),
    ),
  )
]
