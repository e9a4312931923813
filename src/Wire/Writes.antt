-- ===== src/Wire/Writes.antt =====
-- libnpfs/np.c: what a buf_put function writes where the buffer has the room.
use npfs.Prelude.{
  ◌⨾◌, ℕ, ◌+◌, ◌-◌, ◌≤◌, ◌≡◌, ap, ◌∙◌, false, List, ◌++◌, length, length-append, arith, pass, subst,
  sym,
}
use mathlib.Core.List.{append_assoc, [], append-nil}
use npfs.Types.{Npstr, Npqid}
use npfs.Wire.Bytes.{le_bytes, qid_bytes}
use npfs.Wire.Put.{
  Wbuf, Fill, put_fits, put_bytes, buf_put_int8, buf_put_int16, buf_put_int32, buf_put_int64,
  buf_put_str, buf_put_qid, set_fields, put_data,
}

abbrev pub wbuf : List ℕ → ℕ → Wbuf
wbuf out room = record { out = out; room = room; over = false }

module _ {T : Type 0} where
  -- The statement appends these bytes and turns the struct x into y.
  pub data Writes (f : Fill T) (bs : List ℕ) (x y : T) : Type 0 where
    writes :
        ((out : List ℕ) (room : ℕ)
          → length bs ≤ room
          → f (x, wbuf out room) ≡ (y, wbuf (out ++ bs) (room - length bs)))
        → Writes f bs x y

  pub Writes-run :
      {f : Fill T} {bs : List ℕ} {x y : T}
      → Writes f bs x y
      → (out : List ℕ) (room : ℕ) → length bs ≤ room
      → f (x, wbuf out room) ≡ (y, wbuf (out ++ bs) (room - length bs))
  Writes-run (writes h) = h

  pub Writes-bytes : (bs : List ℕ) (set : T → T) (x : T) → Writes (put_bytes bs set) bs x (set x)
  unfolding put_bytes put_fits
  Writes-bytes bs set x = writes (λ out room le. ground (arith))

  pub Writes-int8 :
      (v : ℕ) (set : T → T) (x : T) → Writes (buf_put_int8 v set) (le_bytes 1 v) x (set x)
  unfolding buf_put_int8
  Writes-int8 v set x = Writes-bytes _ set x

  pub Writes-int16 :
      (v : ℕ) (set : T → T) (x : T) → Writes (buf_put_int16 v set) (le_bytes 2 v) x (set x)
  unfolding buf_put_int16
  Writes-int16 v set x = Writes-bytes _ set x

  pub Writes-int32 :
      (v : ℕ) (set : T → T) (x : T) → Writes (buf_put_int32 v set) (le_bytes 4 v) x (set x)
  unfolding buf_put_int32
  Writes-int32 v set x = Writes-bytes _ set x

  pub Writes-int64 :
      (v : ℕ) (set : T → T) (x : T) → Writes (buf_put_int64 v set) (le_bytes 8 v) x (set x)
  unfolding buf_put_int64
  Writes-int64 v set x = Writes-bytes _ set x

  pub Writes-str :
      (s : Npstr) (set : T → T) (x : T)
      → Writes (buf_put_str s set) (le_bytes 2 (length s) ++ s) x (set x)
  unfolding buf_put_str
  Writes-str s set x = Writes-bytes _ set x

  pub Writes-data : (bs : List ℕ) (set : T → T) (x : T) → Writes (put_data bs set) bs x (set x)
  unfolding put_data
  Writes-data bs set x = Writes-bytes bs set x

  pub Writes-then :
      {f g : Fill T} {cs bs : List ℕ} {x y z : T}
      → Writes f cs x y
      → Writes g bs y z
      → Writes (f ⨾ g) (cs ++ bs) x z
  unfolding ◌⨾◌
  Writes-then {g} {cs} {bs} {z} (writes hf) (writes hg) = writes (λ out room le.
      let sum : length (cs ++ bs) ≡ length cs + length bs = length-append cs bs in
      ap g (hf out room (omega arith))
      ∙ hg (out ++ cs) (room - length cs) (omega arith)
      ∙ ap (λ o. (z, wbuf o (room - length cs - length bs))) (append_assoc out cs bs)
      ∙ ap (λ n. (z, wbuf (out ++ (cs ++ bs)) n)) (omega arith))

  pub Writes-last : {f : Fill T} {bs : List ℕ} {x y : T} → Writes f bs x y → Writes f (bs ++ []) x y
  Writes-last {f} {bs} {x} {y} w = subst (λ b. Writes f b x y) (sym (append-nil bs)) w

  nothing_written :
      (x : T) (out : List ℕ) (room : ℕ)
      → ◌≡◌ {A = T × Wbuf} (x, wbuf out room) (x, wbuf (out ++ []) (room - 0))
  nothing_written x out room =
      ap (λ o. (x, wbuf o room)) (sym (append-nil out))
      ∙ ap (λ n. (x, wbuf (out ++ []) n)) (omega arith)

  pub Writes-pass : (x : T) → Writes pass [] x x
  unfolding pass
  Writes-pass x = writes (λ out room le. nothing_written x out room)

  pub Writes-set_fields : (set : T → T) (x : T) → Writes (set_fields set) [] x (set x)
  unfolding set_fields
  Writes-set_fields set x = writes (λ out room le. nothing_written (set x) out room)

  pub Writes-set :
      {g : Fill T} {bs : List ℕ} {y : T} (set : T → T) (x : T)
      → Writes g bs (set x) y
      → Writes (set_fields set ⨾ g) bs x y
  unfolding ◌⨾◌ set_fields
  Writes-set set x (writes h) = writes h

  pub Writes-qid :
      (at : (Npqid → Npqid) → T → T) (q : Npqid) (x : T)
      → Writes (buf_put_qid q at) (qid_bytes q) x (
          at
            (λ p. record p { path = q.path })
            (at (λ p. record p { version = q.version }) (at (λ p. record p { type = q.type }) x)))
  unfolding buf_put_qid qid_bytes
  Writes-qid at q x =
      Writes-then (Writes-int8 _ _ _) (Writes-then (Writes-int32 _ _ _) (Writes-int64 _ _ _))

pub ruleset fills = (
  Writes-int8, Writes-int16, Writes-int32, Writes-int64, Writes-str, Writes-then, Writes-last,
  Writes-pass, Writes-set, Writes-qid,
)
