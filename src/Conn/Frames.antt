-- ===== src/Conn/Frames.antt =====
-- libnpfs/conn.c: how the messages that are cut depend on the input read so far.
use mathlib.Core.Bool.{true≢false}
use npfs.Prelude.{
  ℕ, Bool-cases, List, [], arith, drop, false, inl, inr, leb, length, ltb, none, refl, some, suc,
  take, true, zero, ◌&&◌, ◌-◌, ◌<◌, ◌∷◌, ◌≡◌, ◌≤◌, ◌⊎◌, ap, take-append, ◌++◌, ◌+◌, Bool,
  drop-append, if◌then◌else◌, length-append, length-drop, ◌∙◌, sym,
}
use npfs.Conn.{is_short, size_of}
use npfs.Wire.Get.{split_at?}
use npfs.Wire.Bytes.{le_word}
use npfs.Types.{Npfcall}
use npfs.Wire.Deserialize.{
  deserialize_from, deserialize_sized, np_deserialize, parsed, refused, scan_window, Deserialized,
  overread,
}

pub split_at-take :
    (n : ℕ) (xs : List ℕ) → n ≤ length xs → split_at? n xs ≡ some (take n xs, drop n xs)
unfolding split_at?
split_at-take zero xs h = refl
split_at-take (suc n) [] h = absurd (omega arith)
split_at-take (suc n) (x ∷ xs) h = rw (split_at-take n xs (omega arith))

pub split_at-none : (n : ℕ) (xs : List ℕ) → length xs < n → split_at? n xs ≡ none
unfolding split_at?
split_at-none zero xs h = absurd (omega arith)
split_at-none (suc n) [] h = refl
split_at-none (suc n) (x ∷ xs) h = rw (split_at-none n xs (omega arith))

lt-cases : (a b : ℕ) → (a ≤ b) ⊎ (b < a)
lt-cases a b = elim (Bool-cases (leb a b)) [
  | inl h ↦ inl (ground arith)
  | inr h ↦ inr (ground arith)
]

lt-leb : (a b : ℕ) → a < b → leb b a ≡ false
lt-leb a b h = ground arith

long : (n size : ℕ) → is_short n size ≡ false → n < size → 0x8000_0000 ≤ size
unfolding is_short
long n size h lt = ground (arith)

pub size_of-append : (b more : List ℕ) → 4 ≤ length b → size_of (b ++ more) ≡ size_of b
unfolding size_of
size_of-append b more h = ap le_word (take-append 4 b more h)

-- A message that is there, or whose size is a negative int, does not depend on what follows.
scan_window-append :
    (old : Npfcall) (size : ℕ) (dotu : Bool) (r more : List ℕ)
    → is_short (4 + length r) size ≡ false
    → 4 + length r + length more < 0x8000_0000
    → scan_window old size dotu (split_at? (size - 4) (r ++ more))
      ≡ scan_window old size dotu (split_at? (size - 4) r)
unfolding scan_window
scan_window-append old size dotu r more h small = elim (lt-cases (size - 4) (length r)) [
  | inl le ↦ rw (
    split_at-take (size - 4) (r ++ more) (omega (arith, length-append r more)),
    split_at-take (size - 4) r le,
    take-append (size - 4) r more le,
  )
  | inr lt ↦
      let big : 0x8000_0000 ≤ size = long (4 + length r) size h (omega arith) in
      rw (
        split_at-none (size - 4) (r ++ more) (omega (arith, length-append r more)),
        split_at-none (size - 4) r lt,
      )
]

pub np_deserialize-append :
    (old : Npfcall) (dotu : Bool) (b more : List ℕ)
    → 4 ≤ length b
    → is_short (length b) (size_of b) ≡ false
    → length b + length more < 0x8000_0000
    → np_deserialize old (b ++ more) dotu ≡ np_deserialize old b dotu
unfolding np_deserialize deserialize_from deserialize_sized size_of
np_deserialize-append old dotu b more four h small =
    let n : length (drop 4 b) ≡ length b - 4 = length-drop 4 b in
    let same : (4 + length (drop 4 b)) ≡ length b = omega (arith, n) in
    rw
      (
        split_at-take 4 (b ++ more) (omega (arith, length-append b more)),
        split_at-take 4 b four,
        take-append 4 b more four,
        drop-append 4 b more four,
      )
      (ap (λ w. if leb 4 (size_of b) && ltb (size_of b) 0x8000_0004 then w else refused)
        (scan_window-append old (size_of b) dotu (drop 4 b) more
          (ap (λ k. is_short k (size_of b)) same ∙ h) (omega (arith, n))))

abbrev is_parsed : Deserialized → Bool
is_parsed refused = false
is_parsed overread = false
is_parsed (parsed size fc cut) = true

neither : (c : Bool) → is_parsed (if c then overread else refused) ≡ false
neither true = refl
neither false = refl

parsed-in_range :
    (old : Npfcall) (dotu : Bool) (size : ℕ) (r : List ℕ)
    → is_parsed (deserialize_sized old dotu size r) ≡ true
    → (4 ≤ size) × (size - 4 ≤ length r)
unfolding deserialize_sized scan_window
parsed-in_range old dotu size r h = elim (lt-cases (size - 4) (length r)) [
  | inl le ↦ elim (lt-cases 4 size) [
    | inl four ↦ (four, le)
    | inr few ↦ absurd (
        true≢false (
          sym h
          ∙ ap
              (λ c. is_parsed (
                if c && ltb size 0x8000_0004
                then scan_window old size dotu (split_at? (size - 4) r)
                else refused))
              (lt-leb size 4 few)))
  ]
  | inr lt ↦ absurd (
      true≢false (
        sym h
        ∙ ap
            (λ o.
              is_parsed (
                if leb 4 size && ltb size 0x8000_0004
                then scan_window old size dotu o
                else refused))
            (split_at-none (size - 4) r lt)
        ∙ neither (leb 4 size && ltb size 0x8000_0004)))
]

-- A message that is parsed has its bytes in the buffer.
pub parsed-size :
    (old : Npfcall) (dotu : Bool) (b : List ℕ) (size : ℕ) (fc : Npfcall) (cut : Bool)
    → 4 ≤ length b
    → np_deserialize old b dotu ≡ parsed size fc cut
    → (4 ≤ size_of b) × (size_of b ≤ length b)
unfolding np_deserialize deserialize_from size_of
parsed-size old dotu b size fc cut four e =
    let range : (4 ≤ size_of b) × (size_of b - 4 ≤ length (drop 4 b)) =
      parsed-in_range old dotu (size_of b) (drop 4 b) (
        ap (λ o. is_parsed (deserialize_from old dotu o)) (sym (split_at-take 4 b four))
        ∙ ap is_parsed e) in
    (range.0, omega (arith, range.0, range.1, length-drop 4 b))
