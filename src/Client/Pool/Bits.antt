-- ===== src/Client/Pool/Bits.antt =====
-- libnpclient/pool.c: one byte of the bitmap.
use mathlib.Core.Bool.{true≢false}
use npfs.Prelude.{
  ℕ, Bool, arith, bit_and, false, ltb, refl, suc, sym, true, zero, ◌%◌, ◌&&◌, ◌-◌, ◌/◌, ◌<◌, ◌==◌,
  ◌||◌, ◌≡◌, ◌≢◌, Bool-cases, ap, eq_of_==, inl, inr, ◌^◌, ◌∙◌,
}
use npfs.Client.Pool.{byte, m2id, bit_or}

-- Bit k of a byte.
unfoldable pub bit : ℕ → ℕ → ℕ
bit b k = b / 2 ^ k % 2

all_below : ℕ → (ℕ → Bool) → Bool
all_below zero p = true
all_below (suc n) p = p n && all_below n p

all_below_lem : (n : ℕ) (p : ℕ → Bool) (x : ℕ) → all_below n p ≡ true → x < n → p x ≡ true
unfolding all_below
all_below_lem zero p x h lt = absurd (omega arith)
all_below_lem (suc n) p x h lt = ground (arith, all_below_lem n p x)

-- The bit that m2id names is 0 before, 1 after, and the only one that changes.
takes_one : ℕ → Bool
takes_one b =
    let m = byte m2id b in
    let c = bit_or b (2 ^ m) in
    ltb m 8
    && (ltb c 256
        && ((bit b m == 0)
            && ((bit c m == 1) && all_below 8 (λ k. (k == m) || (bit c k == bit b k)))))

takes_one_all : all_below 255 takes_one ≡ true
unfolding all_below takes_one m2id byte bit
takes_one_all = refl

gives_one : ℕ → ℕ → Bool
gives_one m b =
    let c = bit_and b (255 - 2 ^ m) in
    ltb c 256 && ((bit c m == 0) && all_below 8 (λ k. (k == m) || (bit c k == bit b k)))

gives_one_all : all_below 8 (λ m. all_below 256 (gives_one m)) ≡ true
unfolding all_below gives_one bit
gives_one_all = refl

&&-both : (a b : Bool) → a && b ≡ true → (a ≡ true) × (b ≡ true)
&&-both true b h = (refl, h)
&&-both false b h = absurd (true≢false (sym h))

ltb-lt : (a b : ℕ) → ltb a b ≡ true → a < b
ltb-lt a b h = ground arith

others_same :
    (b c m k : ℕ)
    → all_below 8 (λ k. (k == m) || (bit c k == bit b k)) ≡ true
    → k < 8
    → k ≢ m
    → bit c k ≡ bit b k
others_same b c m k h small ne =
    let at_k : ((k == m) || (bit c k == bit b k)) ≡ true =
      all_below_lem 8 (λ k. (k == m) || (bit c k == bit b k)) k h small in
    elim (Bool-cases (k == m)) [
      | inl hit ↦ absurd (ne (eq_of_== k m hit))
      | inr miss ↦
          eq_of_== (bit c k) (bit b k) (sym (ap (λ x. x || (bit c k == bit b k)) miss) ∙ at_k)
    ]

pub lowest_free :
    (b : ℕ)
    → b < 255
    → (byte m2id b < 8)
      × ((bit_or b (2 ^ byte m2id b) < 256)
          × ((bit b (byte m2id b) ≡ 0)
              × ((bit (bit_or b (2 ^ byte m2id b)) (byte m2id b) ≡ 1)
                  × ((k : ℕ)
                      → k < 8
                      → k ≢ byte m2id b
                      → bit (bit_or b (2 ^ byte m2id b)) k ≡ bit b k))))
unfolding takes_one
lowest_free b lt =
    let m : ℕ = byte m2id b in
    let c : ℕ = bit_or b (2 ^ m) in
    let t1 = &&-both _ _ (all_below_lem 255 takes_one b takes_one_all lt) in
    let t2 = &&-both _ _ t1.1 in
    let t3 = &&-both _ _ t2.1 in
    let t4 = &&-both _ _ t3.1 in
    (
      ltb-lt m 8 t1.0,
      (
        ltb-lt c 256 t2.0,
        (
          eq_of_== (bit b m) 0 t3.0,
          (eq_of_== (bit c m) 1 t4.0, (λ k small ne. others_same b c m k t4.1 small ne)),
        ),
      ),
    )

pub freed_bit :
    (m b : ℕ)
    → m < 8
    → b < 256
    → (bit_and b (255 - 2 ^ m) < 256)
      × ((bit (bit_and b (255 - 2 ^ m)) m ≡ 0)
          × ((k : ℕ) → k < 8 → k ≢ m → bit (bit_and b (255 - 2 ^ m)) k ≡ bit b k))
unfolding gives_one
freed_bit m b small lt =
    let c : ℕ = bit_and b (255 - 2 ^ m) in
    let t1 = &&-both _ _ (
      all_below_lem 256 (gives_one m) b
        (all_below_lem 8 (λ m. all_below 256 (gives_one m)) m gives_one_all small) lt) in
    let t2 = &&-both _ _ t1.1 in
    (
      ltb-lt c 256 t1.0,
      (eq_of_== (bit c m) 0 t2.0, (λ k small ne. others_same b c m k t2.1 small ne)),
    )

full_bits : all_below 8 (λ k. bit 255 k == 1) ≡ true
unfolding all_below bit
full_bits = refl

pub bit-full : (k : ℕ) → k < 8 → bit 255 k ≡ 1
bit-full k lt = eq_of_== (bit 255 k) 1 (all_below_lem 8 (λ k. bit 255 k == 1) k full_bits lt)

zero_bits : all_below 8 (λ k. bit 0 k == 0) ≡ true
unfolding all_below bit
zero_bits = refl

pub bit-zero : (k : ℕ) → k < 8 → bit 0 k ≡ 0
bit-zero k lt = eq_of_== (bit 0 k) 0 (all_below_lem 8 (λ k. bit 0 k == 0) k zero_bits lt)

pub bit-small : (b k : ℕ) → bit b k < 2
unfolding bit
bit-small b k = omega arith
