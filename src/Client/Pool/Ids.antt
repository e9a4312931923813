-- ===== src/Client/Pool/Ids.antt =====
-- libnpclient/pool.c: the identifiers that are in use.
use npfs.Prelude.{
  ℕ, All, List, [], ap, arith, length, refl, suc, zero, ◌%◌, ◌++◌, ◌/◌, ◌<◌, ◌∷◌, ◌≡◌, ◌≢◌, ◌≤◌,
  Bool-cases, inl, inr, ◌!=◌, false, if◌then◌else◌, sym, true, ◌∙◌,
}
use npfs.Client.Pool.{Npcpool, byte, first_free, set_byte, zeros}
use npfs.Client.Pool.Bits.{bit, bit-small}

-- 1 where the identifier is in use. Behind the bitmap none is.
unfoldable pub used : Npcpool → ℕ → ℕ
used p id = bit (byte p.map (id / 8)) (id % 8)

abbrev pub Bytes : List ℕ → Type 0
Bytes bytes = All (λ b. b < 256) bytes

pub byte-Bytes : (xs : List ℕ) (i : ℕ) → Bytes xs → byte xs i < 256
unfolding byte
byte-Bytes [] i ok = omega arith
byte-Bytes (x ∷ xs) zero (lt, ok) = lt
byte-Bytes (x ∷ xs) (suc i) (lt, ok) = byte-Bytes xs i ok

pub byte-set_byte : (xs : List ℕ) (i v : ℕ) → i < length xs → byte (set_byte xs i v) i ≡ v
unfolding byte set_byte
byte-set_byte [] i v lt = absurd (omega arith)
byte-set_byte (x ∷ xs) zero v lt = refl
byte-set_byte (x ∷ xs) (suc i) v lt = byte-set_byte xs i v (omega arith)

pub byte-other : (xs : List ℕ) (i j v : ℕ) → j ≢ i → byte (set_byte xs i v) j ≡ byte xs j
unfolding byte set_byte
byte-other [] i j v ne = refl
byte-other (x ∷ xs) zero zero v ne = absurd (ne refl)
byte-other (x ∷ xs) zero (suc j) v ne = refl
byte-other (x ∷ xs) (suc i) zero v ne = refl
byte-other (x ∷ xs) (suc i) (suc j) v ne = byte-other xs i j v (λ e. ne (ap suc e))

pub set_byte-Bytes : (xs : List ℕ) (i v : ℕ) → Bytes xs → v < 256 → Bytes (set_byte xs i v)
unfolding set_byte
set_byte-Bytes [] i v ok lt = tt
set_byte-Bytes (x ∷ xs) zero v (_, ok) lt = (lt, ok)
set_byte-Bytes (x ∷ xs) (suc i) v (h, ok) lt = (h, set_byte-Bytes xs i v ok lt)

pub byte-zeros : (n i : ℕ) → byte (zeros n) i ≡ 0
unfolding byte zeros
byte-zeros zero i = refl
byte-zeros (suc n) zero = refl
byte-zeros (suc n) (suc i) = byte-zeros n i

pub byte-grown : (xs : List ℕ) (n i : ℕ) → byte (xs ++ zeros n) i ≡ byte xs i
unfolding byte
byte-grown [] n i = byte-zeros n i
byte-grown (x ∷ xs) n zero = refl
byte-grown (x ∷ xs) n (suc i) = byte-grown xs n i

pub grown-Bytes : (xs : List ℕ) (n : ℕ) → Bytes xs → Bytes (xs ++ zeros n)
unfolding zeros
grown-Bytes [] zero ok = tt
grown-Bytes [] (suc n) ok = (omega arith, grown-Bytes [] n tt)
grown-Bytes (x ∷ xs) n (lt, ok) = (lt, grown-Bytes xs n ok)

pub length-zeros : (n : ℕ) → length (zeros n) ≡ n
unfolding zeros
length-zeros zero = refl
length-zeros (suc n) = omega (arith, length-zeros n)

pub byte-end : (xs : List ℕ) → byte xs (length xs) ≡ 0
unfolding byte
byte-end [] = refl
byte-end (x ∷ xs) = byte-end xs

first_free-here : (x : ℕ) (xs : List ℕ) → x != 0xff ≡ true → first_free (x ∷ xs) ≡ 0
unfolding first_free
first_free-here x xs h = ap (λ c. if c then 0 else suc (first_free xs)) h

first_free-there :
    (x : ℕ) (xs : List ℕ) → x != 0xff ≡ false → first_free (x ∷ xs) ≡ suc (first_free xs)
unfolding first_free
first_free-there x xs h = ap (λ c. if c then 0 else suc (first_free xs)) h

pub first_free-byte : (xs : List ℕ) → first_free xs < length xs → byte xs (first_free xs) ≢ 255
unfolding byte
first_free-byte [] lt e = omega arith
first_free-byte (x ∷ xs) lt e = elim (Bool-cases (x != 0xff)) [
  | inl free ↦ ground (arith, free, ap (byte (x ∷ xs)) (first_free-here x xs free))
  | inr full ↦
      first_free-byte xs (omega (arith, first_free-there x xs full))
        (sym (ap (byte (x ∷ xs)) (first_free-there x xs full)) ∙ e)
]

pub first_free-full :
    (xs : List ℕ) → length xs ≤ first_free xs → (i : ℕ) → i < length xs → byte xs i ≡ 255
unfolding byte
first_free-full [] le i lt = absurd (omega arith)
first_free-full (x ∷ xs) le zero lt = elim (Bool-cases (x != 0xff)) [
  | inl free ↦ absurd (omega (arith, first_free-here x xs free))
  | inr full ↦ ground arith
]
first_free-full (x ∷ xs) le (suc i) lt = elim (Bool-cases (x != 0xff)) [
  | inl free ↦ absurd (omega (arith, first_free-here x xs free))
  | inr full ↦ first_free-full xs (omega (arith, first_free-there x xs full)) i (omega arith)
]

pub byte-behind : (xs : List ℕ) (i : ℕ) → length xs ≤ i → byte xs i ≡ 0
unfolding byte
byte-behind [] i le = refl
byte-behind (x ∷ xs) zero le = absurd (omega arith)
byte-behind (x ∷ xs) (suc i) le = byte-behind xs i (omega arith)

pub used-small : (p : Npcpool) (id : ℕ) → used p id < 2
unfolding used
used-small p id = bit-small _ _
