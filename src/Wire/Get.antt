-- ===== src/Wire/Get.antt =====
-- libnpfs/np.c: struct cbuf where it is read from, and the buf_get functions.
use npfs.Prelude.{
  ◌⨾◌, ℕ, zero, suc, Bool, true, false, Option, none, some, List, [], ◌∷◌, ltb, if◌then◌else◌,
}
use npfs.Types.{Npstr, Npqid}
use npfs.Wire.Bytes.{le_word}

-- The bytes from p to ep, and p > ep: then p is ep + 1 and no byte is left. `cut` says that a string
-- or the data of a message has fewer bytes in the packet than its length says.
pub record Rbuf : Type 0 where
  pub rest : List ℕ
  pub over : Bool
  pub cut : Bool

-- One statement of a function that reads a buffer into a struct.
abbrev pub Scan : Type 0 → Type 0
Scan T = T × Rbuf → T × Rbuf

-- The first n elements and the others, if there are n.
unfoldable pub split_at? : ℕ → List ℕ → Option (List ℕ × List ℕ)
split_at? zero xs = some ([], xs)
split_at? (suc n) [] = none
split_at? (suc n) (x ∷ xs) = elim (split_at? n xs) [ none ↦ none | some r ↦ some (x ∷ r.0, r.1) ]

-- buf_check_size with the step of p, for a length that is not negative.
unfoldable pub advance : ℕ → Rbuf → Option (List ℕ × List ℕ)
advance n b = if b.over then none else split_at? n b.rest

-- The failed branch of buf_check_size: at the end of the buffer nothing is marked.
unfoldable pub get_failed : Rbuf → Rbuf
get_failed b = elim b.rest [ [] ↦ b | _ ∷ _ ↦ record b { rest = []; over = true } ]

unfoldable pub got_word : Rbuf → Option (List ℕ × List ℕ) → ℕ × Rbuf
got_word b none = (0, get_failed b)
got_word b (some (bs, rest)) = (le_word bs, record b { rest = rest })

unfoldable pub buf_get_int8 : Rbuf → ℕ × Rbuf
buf_get_int8 b = got_word b (advance 1 b)

unfoldable pub buf_get_int16 : Rbuf → ℕ × Rbuf
buf_get_int16 b = got_word b (advance 2 b)

unfoldable pub buf_get_int32 : Rbuf → ℕ × Rbuf
buf_get_int32 b = got_word b (advance 4 b)

unfoldable pub buf_get_int64 : Rbuf → ℕ × Rbuf
buf_get_int64 b = got_word b (advance 8 b)

-- The bytes behind the pointer that buf_alloc returns; NULL has none.
unfoldable pub got_bytes : ℕ → Rbuf → Option (List ℕ × List ℕ) → List ℕ × Rbuf
got_bytes len b none = ([], record (get_failed b) { cut = if ltb 0 len then true else b.cut })
got_bytes len b (some (bs, rest)) = (bs, record b { rest = rest })

-- A length from 2^31 is a negative int: the test passes, the pointer is p, and p moves back. The
-- model keeps the bytes from p to ep; every caller reads no further.
unfoldable pub buf_alloc : ℕ → Rbuf → List ℕ × Rbuf
buf_alloc len b =
    if ltb len 0x8000_0000
    then got_bytes len b (advance len b)
    else (b.rest, record b { over = false; cut = true })

unfoldable pub buf_get_str : Rbuf → Npstr × Rbuf
buf_get_str b = let (len, b1) = buf_get_int16 b in buf_alloc len b1

module _ {T : Type 0} where
  -- `place = get(buf);`
  unfoldable pub into : {A : Type 0} → (Rbuf → A × Rbuf) → (A → T → T) → Scan T
  into get set (fc, b) = let (v, b1) = get b in (set v fc, b1)

  -- A statement that reads nothing.
  unfoldable pub assign : (T → T) → Scan T
  assign set (fc, b) = (set fc, b)

  -- `at` applies a change to the qid in the struct.
  unfoldable pub buf_get_qid : ((Npqid → Npqid) → T → T) → Scan T
  buf_get_qid at =
      into buf_get_int8 (λ v. at (λ q. record q { type = v }))
      ⨾ into buf_get_int32 (λ v. at (λ q. record q { version = v }))
      ⨾ into buf_get_int64 (λ v. at (λ q. record q { path = v }))
