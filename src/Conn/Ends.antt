-- ===== src/Conn/Ends.antt =====
-- libnpfs/conn.c: the inner loop of np_conn_read_proc ends.
use npfs.Prelude.{
  ℕ, Bool, Bool-cases, List, [], arith, if◌then◌else◌, inl, inr, length, ltb, refl, subst, suc, sym,
  zero, ◌<◌, ◌∷◌, ◌≡◌, ◌≢◌, drop, false, take, true, ◌-◌,
}
use npfs.Wire.Deserialize.{Deserialized, overread, parsed, refused}
use npfs.Types.{Npfcall}
use npfs.Conn.{
  Reader, Reading, accept, again, broken, go_on, is_short, next_frame, np_conn_read_proc, outside,
  push, read_once, size_of, spent, take_input, waiting, amount, closed,
}
use npfs.Conn.Chunks.{again-next, shrinks, waits-few, waits-short, ltb-le}

-- The fuel is not spent.
abbrev Ended : Reading → Type 0
Ended (waiting rd) = Unit
Ended (broken queue) = Unit
Ended (closed queue) = Unit
Ended (outside queue) = Unit
Ended spent = ⊥

module _ (incall : ℕ → Npfcall) (resetting : ℕ → Bool) (dotu : Bool) where
  next-Ended :
      (loop : Reader → Reading) (rd : Reader) (d : Deserialized)
      → ((size : ℕ) (fc : Npfcall) (cut : Bool)
          → d ≡ parsed size fc cut
          → Ended (loop (accept incall resetting dotu rd fc)))
      → Ended (next_frame incall resetting dotu loop rd d)
  unfolding next_frame
  next-Ended loop rd refused h = tt
  next-Ended loop rd overread h = tt
  next-Ended loop rd (parsed size fc cut) h = h size fc cut refl

  again-Ended : (n : ℕ) (rd : Reader) → length rd.buf < n → Ended (again incall resetting dotu n rd)
  again-Ended zero rd le = absurd (omega arith)
  again-Ended (suc n) rd le = elim (Bool-cases (ltb (length rd.buf) 4)) [
    | inl few ↦ subst Ended (sym (waits-few incall resetting dotu n rd few)) tt
    | inr four ↦ elim (Bool-cases (is_short (length rd.buf) (size_of rd.buf))) [
      | inl short ↦ subst Ended (sym (waits-short incall resetting dotu n rd four short)) tt
      | inr long ↦ subst Ended (sym (again-next incall resetting dotu n rd four long)) (
          next-Ended (again incall resetting dotu n) rd _ (λ size fc cut e.
            again-Ended n (accept incall resetting dotu rd fc) (
              omega (
                arith,
                shrinks incall resetting dotu rd size fc cut (ltb-le (length rd.buf) 4 four) e,
              ))))
    ]
  ]

  go_on-Ended :
      (loop : Reader → Reading) (o : Reading)
      → Ended o
      → ((rd : Reader) → Ended (loop rd))
      → Ended (go_on loop o)
  unfolding go_on
  go_on-Ended loop (waiting rd) e h = h rd
  go_on-Ended loop (broken queue) e h = tt
  go_on-Ended loop (closed queue) e h = tt
  go_on-Ended loop (outside queue) e h = tt
  go_on-Ended loop spent e h = e

  if-Ended : (b : Bool) (x y : Reading) → Ended x → Ended y → Ended (if b then x else y)
  if-Ended true x y hx hy = hx
  if-Ended false x y hx hy = hy

  reads-Ended :
      (msize : ℕ) (reads : List (ℕ × Bool)) (input : List ℕ) (rd : Reader)
      → Ended (np_conn_read_proc incall resetting dotu msize reads input rd)
  unfolding np_conn_read_proc read_once take_input
  reads-Ended msize [] input rd = tt
  reads-Ended msize ((k, discard) ∷ reads) input rd =
      let i : ℕ = amount k (msize - length rd.buf) in
      if-Ended (ltb 0 (length (take i input))) _ (closed rd.queue)
        (go_on-Ended (np_conn_read_proc incall resetting dotu msize reads (drop i input)) _
          (again-Ended _ (if discard then record rd { buf = [] } else push (take i input) rd)
            (omega arith))
          (reads-Ended msize reads (drop i input)))
        tt

  -- On any input, in any reads and with any of them thrown away by resets, the loop over the messages
  -- of the buffer ends: every message takes at least four bytes of it, and the fuel, one more than the
  -- bytes of the buffer, is enough.
  pub np_conn_read_proc-ends :
      (msize : ℕ) (reads : List (ℕ × Bool)) (input : List ℕ) (rd : Reader)
      → np_conn_read_proc incall resetting dotu msize reads input rd ≢ spent
  np_conn_read_proc-ends msize reads input rd e = subst Ended e (reads-Ended msize reads input rd)
