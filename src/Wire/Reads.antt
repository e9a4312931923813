-- ===== src/Wire/Reads.antt =====
-- libnpfs/np.c: what a buf_get function reads from bytes that a buf_put function wrote.
use npfs.Prelude.{
  ◌⨾◌, ℕ, ◌<◌, ◌≡◌, refl, sym, ap, ◌∙◌, Bool, true, false, some, List, [], ◌∷◌, ◌++◌, length, arith,
  ltb, subst, pass,
}
use mathlib.Core.List.{append_assoc, append-nil}
use npfs.Types.{Npstr, Npqid}
use npfs.Wire.Bytes.{
  le_bytes, qid_bytes, length-le_bytes, le_word-bytes1, le_word-bytes2, le_word-bytes4,
  le_word-bytes8,
}
use npfs.Wire.Get.{
  Rbuf, Scan, split_at?, advance, got_word, got_bytes, buf_get_int8, buf_get_int16, buf_get_int32,
  buf_get_int64, buf_alloc, buf_get_str, buf_get_qid, into, assign,
}

abbrev pub rbuf : List ℕ → Bool → Rbuf
rbuf rest cut = record { rest = rest; over = false; cut = cut }

lt-ltb : (a b : ℕ) → a < b → ltb a b ≡ true
lt-ltb a b h = ground arith

pub split_at-append : (xs ys : List ℕ) → split_at? (length xs) (xs ++ ys) ≡ some (xs, ys)
unfolding split_at?
split_at-append [] ys = refl
split_at-append (x ∷ xs) ys = rw (split_at-append xs ys)

-- A read of one value.
pub data Gets {A : Type 0} (get : Rbuf → A × Rbuf) (bs : List ℕ) (v : A) : Type 0 where
  gets :
      ((rest : List ℕ) (cut : Bool) → get (rbuf (bs ++ rest) cut) ≡ (v, rbuf rest cut))
      → Gets get bs v

pub Gets-run :
    {A : Type 0} {get : Rbuf → A × Rbuf} {bs : List ℕ} {v : A}
    → Gets get bs v
    → (rest : List ℕ) (cut : Bool) → get (rbuf (bs ++ rest) cut) ≡ (v, rbuf rest cut)
Gets-run (gets run) = run

pub advance-append :
    (n : ℕ) (bs rest : List ℕ) (cut : Bool)
    → length bs ≡ n
    → advance n (rbuf (bs ++ rest) cut) ≡ some (bs, rest)
unfolding advance
advance-append n bs rest cut h =
    ap (λ k. split_at? k (bs ++ rest)) (sym h) ∙ split_at-append bs rest

pub Gets-int8 : (v : ℕ) → v < 256 → Gets buf_get_int8 (le_bytes 1 v) v
unfolding buf_get_int8 got_word
Gets-int8 v h = gets (λ rest cut.
    rw (advance-append 1 (le_bytes 1 v) rest cut (length-le_bytes 1 v), le_word-bytes1 v h))

pub Gets-int16 : (v : ℕ) → v < 65536 → Gets buf_get_int16 (le_bytes 2 v) v
unfolding buf_get_int16 got_word
Gets-int16 v h = gets (λ rest cut.
    rw (advance-append 2 (le_bytes 2 v) rest cut (length-le_bytes 2 v), le_word-bytes2 v h))

pub Gets-int32 : (v : ℕ) → v < 0x1_0000_0000 → Gets buf_get_int32 (le_bytes 4 v) v
unfolding buf_get_int32 got_word
Gets-int32 v h = gets (λ rest cut.
    rw (advance-append 4 (le_bytes 4 v) rest cut (length-le_bytes 4 v), le_word-bytes4 v h))

pub Gets-int64 : (v : ℕ) → v < 0x1_0000_0000_0000_0000 → Gets buf_get_int64 (le_bytes 8 v) v
unfolding buf_get_int64 got_word
Gets-int64 v h = gets (λ rest cut.
    rw (advance-append 8 (le_bytes 8 v) rest cut (length-le_bytes 8 v), le_word-bytes8 v h))

pub Gets-data : (bs : List ℕ) → length bs < 0x8000_0000 → Gets (buf_alloc (length bs)) bs bs
unfolding buf_alloc got_bytes
Gets-data bs h =
    gets (λ rest cut.
      rw (lt-ltb (length bs) 0x8000_0000 h, advance-append (length bs) bs rest cut refl))

pub Gets-str : (s : Npstr) → length s < 65536 → Gets buf_get_str (le_bytes 2 (length s) ++ s) s
unfolding buf_get_str
Gets-str s h = gets (λ rest cut.
    rw
      (
        append_assoc (le_bytes 2 (length s)) s rest,
        Gets-run (Gets-int16 (length s) h) (s ++ rest) cut,
      )
      (Gets-run (Gets-data s (omega arith)) rest cut))

-- One element and the others of a list.
pub Gets-two :
    {A : Type 0} {get : Rbuf → A × Rbuf} {others : Rbuf → List A × Rbuf} {cs bs : List ℕ} {v : A}
    {vs : List A}
    → Gets get cs v
    → Gets others bs vs
    → Gets
        (λ b. let (x, b1) = get b in let (xs, b2) = others b1 in (x ∷ xs, b2))
        (cs ++ bs)
        (v ∷ vs)
Gets-two {A} {get} {others} {cs} {bs} {v} (gets h) (gets k) = gets (λ rest cut.
    ap (λ l. let (x, b1) = get (rbuf l cut) in let (xs, b2) = others b1 in (x ∷ xs, b2))
      (append_assoc cs bs rest)
    ∙ ap (λ r. let (xs, b2) = others r.1 in (r.0 ∷ xs, b2)) (h (bs ++ rest) cut)
    ∙ ap (λ r. (v ∷ r.0, r.1)) (k rest cut))

module _ {T : Type 0} where
  -- The statement consumes these bytes and turns the struct x into y.
  pub data Reads (f : Scan T) (bs : List ℕ) (x y : T) : Type 0 where
    reads :
        ((rest : List ℕ) (cut : Bool) → f (x, rbuf (bs ++ rest) cut) ≡ (y, rbuf rest cut))
        → Reads f bs x y

  pub Reads-run :
      {f : Scan T} {bs : List ℕ} {x y : T}
      → Reads f bs x y
      → (rest : List ℕ) (cut : Bool) → f (x, rbuf (bs ++ rest) cut) ≡ (y, rbuf rest cut)
  Reads-run (reads h) = h

  pub Reads-into :
      {A : Type 0} {get : Rbuf → A × Rbuf} {bs : List ℕ} {v : A} (set : A → T → T) (x : T)
      → Gets get bs v
      → Reads (into get set) bs x (set v x)
  unfolding into
  Reads-into set x (gets h) = reads (λ rest cut. ap (λ r. (set r.0 x, r.1)) (h rest cut))

  pub Reads-assign : (set : T → T) (x : T) → Reads (assign set) [] x (set x)
  unfolding assign
  Reads-assign set x = reads (λ rest cut. refl)

  pub Reads-then :
      {f g : Scan T} {cs bs : List ℕ} {x y z : T}
      → Reads f cs x y
      → Reads g bs y z
      → Reads (f ⨾ g) (cs ++ bs) x z
  unfolding ◌⨾◌
  Reads-then {f} {g} {cs} {bs} {x} (reads hf) (reads hg) = reads (λ rest cut.
      ap g (ap (λ b. f (x, rbuf b cut)) (append_assoc cs bs rest) ∙ hf (bs ++ rest) cut)
      ∙ hg rest cut)

  pub Reads-last : {f : Scan T} {bs : List ℕ} {x y : T} → Reads f bs x y → Reads f (bs ++ []) x y
  Reads-last {f} {bs} {x} {y} r = subst (λ b. Reads f b x y) (sym (append-nil bs)) r

  pub Reads-pass : (x : T) → Reads pass [] x x
  unfolding pass
  Reads-pass x = reads (λ rest cut. refl)

  pub Reads-set :
      {g : Scan T} {bs : List ℕ} {y : T} (set : T → T) (x : T)
      → Reads g bs (set x) y
      → Reads (assign set ⨾ g) bs x y
  unfolding ◌⨾◌ assign
  Reads-set set x (reads h) = reads h

  pub Reads-qid :
      (at : (Npqid → Npqid) → T → T) (q : Npqid) (x : T)
      → q.type < 256
      → q.version < 0x1_0000_0000
      → q.path < 0x1_0000_0000_0000_0000
      → Reads (buf_get_qid at) (qid_bytes q) x (
          at
            (λ p. record p { path = q.path })
            (at (λ p. record p { version = q.version }) (at (λ p. record p { type = q.type }) x)))
  unfolding buf_get_qid qid_bytes
  Reads-qid at q x ht hv hp = Reads-then (Reads-into _ _ (Gets-int8 q.type ht)) (
      Reads-then (Reads-into _ _ (Gets-int32 q.version hv)) (Reads-into _ _ (Gets-int64 q.path hp)))
