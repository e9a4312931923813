-- ===== src/Conn/Inputs.antt =====
-- libnpfs/conn.c: the reads of np_conn_read_proc, against the whole input at once.
use npfs.Prelude.{
  length, take, drop, length-drop, take-drop, length-append, zero, suc, Bool-cases, ltb, false,
  if◌then◌else◌, ℕ, Bool, List, [], ◌∷◌, ◌++◌, ◌≡◌, ◌≤◌, ◌<◌, ◌+◌, ◌⊎◌, inl, inr, refl, sym, ap,
  ◌∙◌, arith,
}
use mathlib.Core.List.{append_assoc, append-nil}
use npfs.Conn.{Reader, Reading, waiting, closed, amount, take_input, push, go_on}
use npfs.Conn.Chunks.{later, push-again, settled, take_input-Within}
use npfs.Types.{Npfcall}

-- Reads that no reset disturbs.
abbrev pub undisturbed : List ℕ → List (ℕ × Bool)
undisturbed [] = []
undisturbed (k ∷ ks) = (k, false) ∷ undisturbed ks

pub take-sizes : (n : ℕ) (xs : List ℕ) → length (take n xs) + length (drop n xs) ≡ length xs
take-sizes n xs = sym (length-append (take n xs) (drop n xs)) ∙ ap length (take-drop n xs)

pub take_none : (n : ℕ) → take {A = ℕ} n [] ≡ []
take_none zero = refl
take_none (suc n) = refl

pub take-plus : (m j : ℕ) (xs : List ℕ) → take m xs ++ take j (drop m xs) ≡ take (m + j) xs
take-plus zero j xs = let same : j ≡ 0 + j = omega arith in ap (λ n. take n xs) same
take-plus (suc m) j [] = take_none j ∙ sym (take_none (suc m + j))
take-plus (suc m) j (x ∷ xs) =
    ap (λ l. x ∷ l) (take-plus m j xs)
    ∙ (let same : suc (m + j) ≡ suc m + j = omega arith in ap (λ n. take n (x ∷ xs)) same)

module _ (incall : ℕ → Npfcall) (resetting : ℕ → Bool) (dotu : Bool) (msize : ℕ) where
  -- What the bytes of the input that were read so far, all at once, leave of the reader. The loop
  -- waits, or ended by itself, there; or it ended for want of bytes, where the whole input was read
  -- or one message fills the buffer.
  pub data Follows (input : List ℕ) (rd : Reader) : Reading → Type 0 where
    so_far : (j : ℕ) → Follows input rd (take_input incall resetting dotu (push (take j input) rd))
    at_end :
        (j : ℕ) (r : Reader)
        → take_input incall resetting dotu (push (take j input) rd) ≡ waiting r
        → (length input ≤ j) ⊎ (msize ≤ length r.buf)
        → Follows input rd (closed r.queue)

  pub push_none : (rd : Reader) → push [] rd ≡ rd
  push_none rd = ap (λ l. record rd { buf = l }) (append-nil rd.buf)

  pub push_twice : (xs ys : List ℕ) (rd : Reader) → push ys (push xs rd) ≡ push (xs ++ ys) rd
  push_twice xs ys rd = ap (λ l. record rd { buf = l }) (append_assoc rd.buf xs ys)

  -- The input behind a read goes on where the read left off.
  pub lift :
      (m j : ℕ) (input : List ℕ) (rd r : Reader)
      → length rd.buf + length input < 0x8000_0000
      → take_input incall resetting dotu (push (take m input) rd) ≡ waiting r
      → take_input incall resetting dotu (push (take j (drop m input)) r)
        ≡ take_input incall resetting dotu (push (take (m + j) input) rd)
  unfolding go_on take_input
  lift m j input rd r small e =
      let xs : List ℕ = take m input in
      let ys : List ℕ = take j (drop m input) in
      sym (ap (later incall resetting dotu ys) e)
      ∙ push-again incall resetting dotu (suc (length (rd.buf ++ xs))) (push xs rd) ys (omega arith)
          (omega (arith, length-append rd.buf xs, take-sizes m input, take-sizes j (drop m input)))
      ∙ ap (take_input incall resetting dotu) (push_twice xs ys rd)
      ∙ ap (λ l. take_input incall resetting dotu (push l rd)) (take-plus m j input)

  pub settled_none :
      (rd : Reader) (input : List ℕ)
      → take_input incall resetting dotu rd ≡ waiting rd
      → take_input incall resetting dotu (push (take 0 input) rd) ≡ waiting rd
  settled_none rd input e = ap (take_input incall resetting dotu) (push_none rd) ∙ e

  amount-cases : (k room : ℕ) → (amount k room ≡ k) ⊎ (amount k room ≡ room)
  unfolding amount
  amount-cases k room = elim (Bool-cases (ltb k room)) [
    | inl few ↦ inl (ap (λ c. if c then k else room) few)
    | inr many ↦ inr (ap (λ c. if c then k else room) many)
  ]

  pub starved :
      (k room : ℕ) (input : List ℕ)
      → 0 < k
      → ltb 0 (length (take (amount k room) input)) ≡ false
      → (length input ≤ 0) ⊎ (room ≤ 0)
  starved k room input some_bytes h =
      let i : ℕ = amount k room in
      let sizes = take-sizes i input in
      let left = length-drop i input in
      let got_none : length (take i input) ≡ 0 = ground (arith, h) in
      elim (amount-cases k room) [
        | inl all ↦ inl (omega arith)
        | inr full ↦ elim (Bool-cases (ltb 0 room)) [
          | inl open_room ↦ inl (ground (arith, open_room))
          | inr no_room ↦ inr (ground (arith, no_room))
        ]
      ]

  -- The reader that the next reads start from.
  pub next_reader :
      (m : ℕ) (input : List ℕ) (rd r : Reader)
      → length rd.buf + length input < 0x8000_0000
      → take_input incall resetting dotu (push (take m input) rd) ≡ waiting r
      → (take_input incall resetting dotu r ≡ waiting r)
        × (length r.buf + length (drop m input) < 0x8000_0000)
  next_reader m input rd r small e =
      let whole = length-append rd.buf (take m input) in
      let sizes = take-sizes m input in
      let kept = take_input-Within incall resetting dotu (push (take m input) rd) r e in
      (settled incall resetting dotu (push (take m input) rd) r (omega arith) e, omega arith)
