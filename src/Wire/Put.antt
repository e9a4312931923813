-- ===== src/Wire/Put.antt =====
-- libnpfs/np.c: struct cbuf where it is written to, and the buf_put functions.
use npfs.Prelude.{◌⨾◌, ℕ, ◌-◌, Bool, true, false, List, [], ◌++◌, leb, ltb, length, if◌then◌else◌}
use npfs.Types.{Npstr, Npqid}
use npfs.Wire.Bytes.{le_bytes}

-- The bytes from sp to p, the room from p to ep, and p > ep. Then p is ep + 1 and no room is left.
pub record Wbuf : Type 0 where
  pub out : List ℕ
  pub room : ℕ
  pub over : Bool

-- One statement of a function that fills a buffer and, through the pval pointers, a struct.
abbrev pub Fill : Type 0 → Type 0
Fill T = T × Wbuf → T × Wbuf

-- buf_init; a length from 2^31 is a negative int, and ep lies below sp.
unfoldable pub buf_init : ℕ → Wbuf
buf_init n =
    if ltb n 0x8000_0000
    then record { out = []; room = n; over = false }
    else record { out = []; room = 0; over = true }

-- The failed branch of buf_check_size.
unfoldable pub put_failed : Wbuf → Wbuf
put_failed w = record w { room = 0; over = if leb w.room 0 then w.over else true }

-- The test of buf_check_size for a length that is not negative.
unfoldable pub put_fits : ℕ → Wbuf → Bool
put_fits n w = if w.over then false else leb n w.room

module _ {T : Type 0} where
  -- A statement that writes no bytes.
  unfoldable pub set_fields : (T → T) → Fill T
  set_fields set (fc, w) = (set fc, w)

  -- `if (buf_check_size(buf, n)) { write the n bytes; p += n; if (pval) *pval = val; }`
  unfoldable pub put_bytes : List ℕ → (T → T) → Fill T
  put_bytes bs set (fc, w) =
      if put_fits (length bs) w
      then (set fc, record w { out = w.out ++ bs; room = w.room - length bs })
      else (fc, put_failed w)

  unfoldable pub buf_put_int8 : ℕ → (T → T) → Fill T
  buf_put_int8 val set = put_bytes (le_bytes 1 val) set

  unfoldable pub buf_put_int16 : ℕ → (T → T) → Fill T
  buf_put_int16 val set = put_bytes (le_bytes 2 val) set

  unfoldable pub buf_put_int32 : ℕ → (T → T) → Fill T
  buf_put_int32 val set = put_bytes (le_bytes 4 val) set

  unfoldable pub buf_put_int64 : ℕ → (T → T) → Fill T
  buf_put_int64 val set = put_bytes (le_bytes 8 val) set

  -- The room for the length and the bytes is tested at once; NULL is the empty string.
  unfoldable pub buf_put_str : Npstr → (T → T) → Fill T
  buf_put_str s set = put_bytes (le_bytes 2 (length s) ++ s) set

  -- `set` is `*pqid` with the fields that have been put.
  unfoldable pub buf_put_qid : Npqid → ((Npqid → Npqid) → T → T) → Fill T
  buf_put_qid qid at =
      buf_put_int8 qid.type (at (λ q. record q { type = qid.type }))
      ⨾ buf_put_int32 qid.version (at (λ q. record q { version = qid.version }))
      ⨾ buf_put_int64 qid.path (at (λ q. record q { path = qid.path }))

  -- `p = buf_alloc(bufp, count); memmove(p, data, count);` for fewer than 2^31 bytes
  unfoldable pub put_data : List ℕ → (T → T) → Fill T
  put_data payload set = put_bytes payload set
