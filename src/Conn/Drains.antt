-- ===== src/Conn/Drains.antt =====
-- libnpfs/conn.c: reads that get the whole input, where no message fills the buffer.
use npfs.Prelude.{
  ℕ, Bool, List, [], ◌∷◌, ◌++◌, All, ◌≡◌, ◌≤◌, ◌<◌, ◌+◌, ◌-◌, inl, inr, refl, sym, ap, ◌∙◌, arith,
  length, take, drop, take-drop, zero, suc, Bool-cases, ltb, length-append,
}
use npfs.Conn.{
  Reader, Reading, waiting, broken, closed, outside, spent, amount, np_conn_read_proc, take_input,
  push, go_on, read_once,
}
use npfs.Conn.Chunks.{later, push-again}
use npfs.Conn.Inputs.{
  undisturbed, lift, starved, next_reader, settled_none, push_none, take-sizes, push_twice,
}
use npfs.Types.{Npfcall}

queue_of : Reading → List Npfcall
queue_of (waiting r) = r.queue
queue_of (broken queue) = queue
queue_of (closed queue) = queue
queue_of (outside queue) = queue
queue_of spent = []

take_all : (xs : List ℕ) (n : ℕ) → length xs ≤ n → take n xs ≡ xs
take_all [] zero le = refl
take_all [] (suc n) le = refl
take_all (x ∷ xs) zero le = absurd (omega arith)
take_all (x ∷ xs) (suc n) le = ap (λ l. x ∷ l) (take_all xs n (omega arith))

module _ (incall : ℕ → Npfcall) (resetting : ℕ → Bool) (dotu : Bool) (msize : ℕ) where
  -- However much of the input was read, the message that is not yet whole leaves room.
  abbrev pub HasRoom : List ℕ → Reader → Type 0
  HasRoom input rd =
      (j : ℕ) (r : Reader)
      → take_input incall resetting dotu (push (take j input) rd) ≡ waiting r
      → length r.buf < msize

  waiting_first :
      (rest : List ℕ) (o : Reading) (final : Reader)
      → later incall resetting dotu rest o ≡ waiting final
      → (r : Reader) × (o ≡ waiting r)
  unfolding go_on
  waiting_first rest (waiting r) final e = (r, refl)
  waiting_first rest (broken queue) final e = absurd cc
  waiting_first rest (closed queue) final e = absurd cc
  waiting_first rest (outside queue) final e = absurd cc
  waiting_first rest spent final e = absurd cc

  -- The first part of an input that leaves the loop waiting leaves it waiting too.
  part_waits :
      (m : ℕ) (input : List ℕ) (rd final : Reader)
      → length rd.buf + length input < 0x8000_0000
      → take_input incall resetting dotu (push input rd) ≡ waiting final
      → (r : Reader) × (take_input incall resetting dotu (push (take m input) rd) ≡ waiting r)
  unfolding take_input
  part_waits m input rd final small e = waiting_first (drop m input) _ final (
      push-again incall resetting dotu (suc (length (rd.buf ++ take m input)))
        (push (take m input) rd) (drop m input) (omega arith)
        (omega (arith, length-append rd.buf (take m input), take-sizes m input))
      ∙ ap (take_input incall resetting dotu)
          (push_twice incall resetting dotu msize (take m input) (drop m input) rd)
      ∙ ap (λ l. take_input incall resetting dotu (push l rd)) (take-drop m input)
      ∙ e)

  no_input :
      (input : List ℕ) (rd final : Reader)
      → length input ≤ 0
      → take_input incall resetting dotu rd ≡ waiting rd
      → take_input incall resetting dotu (push input rd) ≡ waiting final
      → rd.queue ≡ final.queue
  unfolding queue_of
  no_input [] rd final none_left at_rest e = ap queue_of (
      sym at_rest
      ∙ sym (ap (take_input incall resetting dotu) (push_none incall resetting dotu msize rd))
      ∙ e)
  no_input (x ∷ input) rd final none_left at_rest e = absurd (omega arith)

  pub drains :
      (ks : List ℕ) (input : List ℕ) (rd final : Reader)
      → All (λ k. 0 < k) ks
      → length input < length ks
      → take_input incall resetting dotu rd ≡ waiting rd
      → length rd.buf + length input < 0x8000_0000
      → HasRoom input rd
      → take_input incall resetting dotu (push input rd) ≡ waiting final
      → np_conn_read_proc incall resetting dotu msize (undisturbed ks) input rd ≡ closed final.queue
  unfolding np_conn_read_proc read_once go_on
  drains [] input rd final ready many at_rest small room e = absurd (omega arith)
  drains (k ∷ ks) input rd final (some_bytes, ready) many at_rest small room e =
      let i : ℕ = amount k (msize - length rd.buf) in
      elim (Bool-cases (ltb 0 (length (take i input)))) [
        | inl more ↦
            let (r, w) = part_waits i input rd final small e in
            let (at_rest', small') = next_reader incall resetting dotu msize i input rd r small w in
            let sizes = take-sizes i input in
            rw (more, w)
              (drains ks (drop i input) r final ready (ground (arith, sizes)) at_rest' small'
                (λ j r' w'.
                  room (i + j) r'
                    (sym (lift incall resetting dotu msize i j input rd r small w) ∙ w'))
                (ap (λ l. take_input incall resetting dotu (push l r))
                    (sym (take_all (drop i input) (length input) (omega (arith, sizes))))
                  ∙ lift incall resetting dotu msize i (length input) input rd r small w
                  ∙ ap (λ l. take_input incall resetting dotu (push l rd))
                      (take_all input (i + length input) (omega arith))
                  ∙ e))
        | inr none_left ↦
            rw none_left
              (elim (starved incall resetting dotu msize k (msize - length rd.buf) input some_bytes
                none_left) [
                  | inl all ↦ ap closed (no_input input rd final all at_rest e)
                  | inr full ↦
                      let open_room =
                        room 0 rd (settled_none incall resetting dotu msize rd input at_rest) in
                      absurd (omega arith)
                ])
      ]
