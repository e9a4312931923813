-- ===== src/Conn/Chunks.antt =====
-- libnpfs/conn.c: how the loop of np_conn_read_proc depends on the pieces in which the input comes.
use npfs.Prelude.{
  ℕ, Bool, List, [], arith, false, if◌then◌else◌, length, length-drop, ltb, refl, suc, true, zero,
  ◌++◌, ◌<◌, ◌∷◌, ◌≡◌, ◌≤◌, ap, drop, drop-append, length-append, ◌+◌, ◌∙◌, Bool-cases, inl, inr,
  sym, subst,
}
use mathlib.Core.List.{append-nil}
use npfs.Wire.Deserialize.{Deserialized, np_deserialize, overread, parsed, refused}
use npfs.Types.{Npfcall}
use npfs.Conn.{
  closed, Reader, Reading, accept, again, is_short, next_frame, size_of, go_on, push, take_input,
  waiting, broken, outside, spent,
}
use npfs.Conn.Frames.{parsed-size, np_deserialize-append, size_of-append}

if-same :
    {A : Type 0} (c : Bool) (x y z : A)
    → (c ≡ false → y ≡ z)
    → (if c then x else y) ≡ (if c then x else z)
if-same true x y z h = refl
if-same false x y z h = h refl

pub ltb-le : (a b : ℕ) → ltb a b ≡ false → b ≤ a
ltb-le a b h = ground arith

pub le-ltb : (a b : ℕ) → b ≤ a → ltb a b ≡ false
le-ltb a b h = ground arith

is_short-grows : (n m size : ℕ) → is_short n size ≡ false → n ≤ m → is_short m size ≡ false
unfolding is_short
is_short-grows n m size h le = ground (arith)

-- The loop keeps no more bytes than it had.
abbrev Within : ℕ → Reading → Type 0
Within k (waiting r) = length r.buf ≤ k
Within k (broken queue) = Unit
Within k (closed queue) = Unit
Within k (outside queue) = Unit
Within k spent = Unit

module _ (incall : ℕ → Npfcall) (resetting : ℕ → Bool) (dotu : Bool) where
  pub shrinks :
      (rd : Reader) (size : ℕ) (fc : Npfcall) (cut : Bool)
      → 4 ≤ length rd.buf
      → np_deserialize (incall rd.taken) rd.buf dotu ≡ parsed size fc cut
      → length (accept incall resetting dotu rd fc).buf < length rd.buf
  unfolding accept
  shrinks rd size fc cut four e =
      let range : (4 ≤ size_of rd.buf) × (size_of rd.buf ≤ length rd.buf) =
        parsed-size (incall rd.taken) dotu rd.buf size fc cut four e in
      omega (arith, range.0, range.1, length-drop (size_of rd.buf) rd.buf)

  next-same :
      (k l : Reader → Reading) (rd : Reader) (d : Deserialized)
      → ((size : ℕ) (fc : Npfcall) (cut : Bool)
          → d ≡ parsed size fc cut
          → k (accept incall resetting dotu rd fc) ≡ l (accept incall resetting dotu rd fc))
      → next_frame incall resetting dotu k rd d ≡ next_frame incall resetting dotu l rd d
  unfolding next_frame
  next-same k l rd refused h = refl
  next-same k l rd overread h = refl
  next-same k l rd (parsed size fc cut) h = h size fc cut refl

  -- More fuel than bytes makes no difference.
  pub again-enough :
      (n m : ℕ) (rd : Reader)
      → length rd.buf < n
      → length rd.buf < m
      → again incall resetting dotu n rd ≡ again incall resetting dotu m rd
  unfolding again
  again-enough zero m rd hn hm = absurd (omega arith)
  again-enough (suc n) zero rd hn hm = absurd (omega arith)
  again-enough (suc n) (suc m) rd hn hm = if-same (ltb (length rd.buf) 4) _ _ _ (λ four.
      if-same (is_short (length rd.buf) (size_of rd.buf)) _ _ _ (λ long.
        next-same (again incall resetting dotu n) (again incall resetting dotu m) rd _
          (λ size fc cut e.
            let less : length (accept incall resetting dotu rd fc).buf < length rd.buf =
              shrinks rd size fc cut (ltb-le (length rd.buf) 4 four) e in
            again-enough n m (accept incall resetting dotu rd fc) (omega (arith, less))
              (omega (arith, less)))))

  accept-push :
      (rd : Reader) (fc : Npfcall) (more : List ℕ)
      → 4 ≤ length rd.buf
      → size_of rd.buf ≤ length rd.buf
      → accept incall resetting dotu (push more rd) fc
        ≡ push more (accept incall resetting dotu rd fc)
  unfolding accept
  accept-push rd fc more four le =
      ap
        (λ l. record {
          buf = l;
          taken = suc rd.taken;
          queue = if resetting rd.taken then rd.queue else rd.queue ++ (fc ∷ []);
        })
        (ap (λ n. drop n (rd.buf ++ more)) (size_of-append rd.buf more four)
          ∙ drop-append (size_of rd.buf) rd.buf more le)

  -- The message at the front of the buffer is the same with more input behind it.
  again-push :
      (n : ℕ) (rd : Reader) (more : List ℕ)
      → 4 ≤ length rd.buf
      → is_short (length rd.buf) (size_of rd.buf) ≡ false
      → length rd.buf + length more < 0x8000_0000
      → again incall resetting dotu (suc n) (push more rd)
        ≡ next_frame incall resetting dotu
            (again incall resetting dotu n)
            (push more rd)
            (np_deserialize (incall rd.taken) rd.buf dotu)
  unfolding again
  again-push n rd more four long small =
      let whole : length (rd.buf ++ more) ≡ length rd.buf + length more =
        length-append rd.buf more in
      rw (
        le-ltb (length (rd.buf ++ more)) 4 (omega (arith, whole)),
        size_of-append rd.buf more four,
        is_short-grows (length rd.buf) (length (rd.buf ++ more)) (size_of rd.buf) long
            (omega (arith, whole)),
        np_deserialize-append (incall rd.taken) dotu rd.buf more four long small,
      )

  pub waits-few :
      (n : ℕ) (rd : Reader)
      → ltb (length rd.buf) 4 ≡ true
      → again incall resetting dotu (suc n) rd ≡ waiting rd
  unfolding again
  waits-few n rd few = rw few

  pub waits-short :
      (n : ℕ) (rd : Reader)
      → ltb (length rd.buf) 4 ≡ false
      → is_short (length rd.buf) (size_of rd.buf) ≡ true
      → again incall resetting dotu (suc n) rd ≡ waiting rd
  unfolding again
  waits-short n rd four short = rw (four, short)

  pub again-next :
      (n : ℕ) (rd : Reader)
      → ltb (length rd.buf) 4 ≡ false
      → is_short (length rd.buf) (size_of rd.buf) ≡ false
      → again incall resetting dotu (suc n) rd
        ≡ next_frame incall resetting dotu
            (again incall resetting dotu n)
            rd
            (np_deserialize (incall rd.taken) rd.buf dotu)
  unfolding again
  again-next n rd four long = rw (four, long)

  -- What comes of the input when more of it comes later.
  abbrev pub later : List ℕ → Reading → Reading
  later more = go_on (λ r. take_input incall resetting dotu (push more r))

  accept-enough :
      (n : ℕ) (rd : Reader) (more : List ℕ) (size : ℕ) (fc : Npfcall) (cut : Bool)
      → length rd.buf + length more ≡ n
      → 4 ≤ length rd.buf
      → np_deserialize (incall rd.taken) rd.buf dotu ≡ parsed size fc cut
      → take_input incall resetting dotu (push more (accept incall resetting dotu rd fc))
        ≡ again incall resetting dotu n (accept incall resetting dotu (push more rd) fc)
  unfolding take_input
  accept-enough n rd more size fc cut whole four e =
      let range : (4 ≤ size_of rd.buf) × (size_of rd.buf ≤ length rd.buf) =
        parsed-size (incall rd.taken) dotu rd.buf size fc cut four e in
      let less : length (accept incall resetting dotu rd fc).buf < length rd.buf =
        shrinks rd size fc cut four e in
      again-enough _ n (push more (accept incall resetting dotu rd fc)) (omega arith)
        (omega (arith, less, whole, length-append (accept incall resetting dotu rd fc).buf more))
      ∙ ap (again incall resetting dotu n) (sym (accept-push rd fc more four range.1))

  next-push :
      (n m : ℕ) (rd : Reader) (more : List ℕ) (d : Deserialized)
      → ((size : ℕ) (fc : Npfcall) (cut : Bool)
          → d ≡ parsed size fc cut
          → later more (again incall resetting dotu n (accept incall resetting dotu rd fc))
            ≡ again incall resetting dotu m (accept incall resetting dotu (push more rd) fc))
      → later more (next_frame incall resetting dotu (again incall resetting dotu n) rd d)
        ≡ next_frame incall resetting dotu (again incall resetting dotu m) (push more rd) d
  unfolding next_frame go_on
  next-push n m rd more refused h = refl
  next-push n m rd more overread h = refl
  next-push n m rd more (parsed size fc cut) h = h size fc cut refl

  -- The input so far, and then more, is the same as both at once.
  pub push-again :
      (n : ℕ) (rd : Reader) (more : List ℕ)
      → length rd.buf < n
      → length rd.buf + length more < 0x8000_0000
      → later more (again incall resetting dotu n rd)
        ≡ take_input incall resetting dotu (push more rd)
  unfolding go_on take_input
  push-again zero rd more h small = absurd (omega arith)
  push-again (suc n) rd more h small = elim (Bool-cases (ltb (length rd.buf) 4)) [
    | inl few ↦ ap (later more) (waits-few n rd few)
    | inr four ↦ elim (Bool-cases (is_short (length rd.buf) (size_of rd.buf))) [
      | inl short ↦ ap (later more) (waits-short n rd four short)
      | inr long ↦
          let m : ℕ = length (rd.buf ++ more) in
          let four' : 4 ≤ length rd.buf = ltb-le (length rd.buf) 4 four in
          ap (later more) (again-next n rd four long)
          ∙ next-push n m rd more _ (λ size fc cut e.
            let less : length (accept incall resetting dotu rd fc).buf < length rd.buf =
              shrinks rd size fc cut four' e in
            push-again n (accept incall resetting dotu rd fc) more (omega (arith, less))
              (omega (arith, less))
            ∙ accept-enough m rd more size fc cut (sym (length-append rd.buf more)) four' e)
          ∙ sym (again-push m rd more four' long small)
    ]
  ]

  next-Within :
      (k : ℕ) (loop : Reader → Reading) (rd : Reader) (d : Deserialized)
      → ((size : ℕ) (fc : Npfcall) (cut : Bool)
          → d ≡ parsed size fc cut
          → Within k (loop (accept incall resetting dotu rd fc)))
      → Within k (next_frame incall resetting dotu loop rd d)
  unfolding next_frame
  next-Within k loop rd refused h = tt
  next-Within k loop rd overread h = tt
  next-Within k loop rd (parsed size fc cut) h = h size fc cut refl

  again-Within :
      (k n : ℕ) (rd : Reader) → length rd.buf ≤ k → Within k (again incall resetting dotu n rd)
  unfolding again
  again-Within k zero rd le = tt
  again-Within k (suc n) rd le = elim (Bool-cases (ltb (length rd.buf) 4)) [
    | inl few ↦ subst (Within k) (sym (waits-few n rd few)) le
    | inr four ↦ elim (Bool-cases (is_short (length rd.buf) (size_of rd.buf))) [
      | inl short ↦ subst (Within k) (sym (waits-short n rd four short)) le
      | inr long ↦ subst (Within k) (sym (again-next n rd four long)) (
          next-Within k (again incall resetting dotu n) rd _ (λ size fc cut e.
            again-Within k n (accept incall resetting dotu rd fc)
              (omega (arith, shrinks rd size fc cut (ltb-le (length rd.buf) 4 four) e))))
    ]
  ]

  pub take_input-Within :
      (rd r : Reader)
      → take_input incall resetting dotu rd ≡ waiting r
      → length r.buf ≤ length rd.buf
  unfolding take_input
  take_input-Within rd r e =
      subst (Within (length rd.buf)) e
        (again-Within (length rd.buf) (suc (length rd.buf)) rd (omega arith))

  pub settled :
      (rd r : Reader)
      → length rd.buf < 0x8000_0000
      → take_input incall resetting dotu rd ≡ waiting r
      → take_input incall resetting dotu r ≡ waiting r
  unfolding take_input go_on
  settled rd r small e =
      sym (ap (λ l. take_input incall resetting dotu (record r { buf = l })) (append-nil r.buf))
      ∙ sym (ap (later []) e)
      ∙ push-again (suc (length rd.buf)) rd [] (omega arith) (omega arith)
      ∙ ap (λ l. take_input incall resetting dotu (record rd { buf = l })) (append-nil rd.buf)
      ∙ e
