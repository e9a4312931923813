-- ===== src/Wire/Made.antt =====
-- libnpfs/np.c: what np_create_common and np_post_check make of a message whose size is right.
pub mod Session
pub mod Every
pub mod Files
pub mod Names
pub mod Attrs
pub mod Dirs
use mathlib.Core.List.{append_assoc}
use npfs.Prelude.{
  ℕ, List, Option, [], some, ◌<◌, ◌∷◌, ◌≡◌, ◌⨾◌, ap, arith, length, ◌%◌, ◌++◌, ◌+◌, ◌∙◌, ◌≤◌, All,
  Bool, ◌-◌,
}
use npfs.Wire.Layout.{Field, encode, packet, packet_size, sizes, u32, text, length-packet, Fits}
use npfs.Wire.Put.{Fill, buf_init, buf_put_int32, buf_put_str, put_bytes, put_failed, put_fits}
use npfs.Types.{Npfcall, Npstr}
use npfs.Wire.Create.{Packet, np_create_common, np_post_check, made, put_header}
use npfs.Wire.Writes.{
  Writes, fills, Writes-int16, Writes-int32, Writes-int8, Writes-then, wbuf, Writes-run,
}
use npfs.Constants.{notag, u32_mod}
use npfs.Wire.Bytes.{le_bytes, append_three}
use npfs.Wire.Message.{Message, fields, type_of}
use npfs.Wire.Message.Create.{create}

-- The result of a function that makes a message: the packet, and the fields that np_conn_respond
-- and the client read.
pub data Makes (r : Option Packet) (type tag : ℕ) (fs : List Field) : Type 0 where
  makes :
      {fc : Npfcall}
      → r ≡ some (record { fc = fc; pkt = packet type tag fs })
      → fc.size ≡ packet_size fs
      → fc.type ≡ type
      → fc.tag ≡ tag
      → Makes r type tag fs

-- The function of the message makes its packet.
abbrev pub MakesPacket : Bool → Npfcall → Message → Type 0
MakesPacket dotu mem m =
    All Fits (fields dotu m)
    → packet_size (fields dotu m) < 0x8000_0000
    → Makes (create dotu (some mem) m) (type_of m) notag (fields dotu m)

abbrev pub headed : Npfcall → ℕ → ℕ → Npfcall
headed mem size id = record mem { size = size; type = id; tag = notag }

total-wraps : (size n : ℕ) → size ≡ n → 7 + n < 0x8000_0000 → (size + 7) % u32_mod ≡ 7 + n
total-wraps size n e small = omega arith

buf_init-room : (n : ℕ) → n < 0x8000_0000 → buf_init n ≡ wbuf [] n
unfolding buf_init
buf_init-room n h = ground arith

run-both :
    (f g : Fill Npfcall) (n : ℕ) (bs : List ℕ) (x y : Npfcall)
    → Writes (f ⨾ g) bs x y
    → length bs ≤ n
    → g (f (x, wbuf [] n)) ≡ (y, wbuf bs (n - length bs))
unfolding ◌⨾◌
run-both f g n bs x y w le = Writes-run w [] n le

put_bytes-full :
    (bs : List ℕ) (set : Npfcall → Npfcall) (y : Npfcall) (out : List ℕ)
    → 0 < length bs
    → put_bytes bs set (y, wbuf out 0) ≡ (y, wbuf out 0)
unfolding put_bytes put_fits put_failed
put_bytes-full bs set y out pos = ground (arith)

put_header-Writes :
    (mem : Npfcall) (size id : ℕ)
    → Writes
        (put_header size id)
        (le_bytes 4 size ++ (le_bytes 1 id ++ le_bytes 2 notag))
        mem
        (headed mem size id)
unfolding put_header
put_header-Writes mem size id =
    Writes-then (Writes-int32 _ _ _) (Writes-then (Writes-int8 _ _ _) (Writes-int16 _ _ _))

-- The packet is full when the last field stands in it.
pub puts-fill :
    (mem : Npfcall) (id size : ℕ) (puts : Fill Npfcall) (fs : List Field) (y : Npfcall)
    → size ≡ sizes fs
    → packet_size fs < 0x8000_0000
    → Writes puts (encode fs) (headed mem (packet_size fs) id) y
    → puts (put_header ((size + 7) % u32_mod) id (mem, buf_init ((size + 7) % u32_mod)))
      ≡ (y, wbuf (packet id notag fs) 0)
unfolding packet
puts-fill mem id size puts fs y e small w =
    let n : ℕ = packet_size fs in
    let whole : List ℕ = le_bytes 4 n ++ (le_bytes 1 id ++ le_bytes 2 notag) ++ encode fs in
    let shape : whole ≡ packet id notag fs =
      append_three (le_bytes 4 n) (le_bytes 1 id) (le_bytes 2 notag) (encode fs) in
    let count : length whole ≡ n = ap length shape ∙ length-packet id notag fs in
    rw (total-wraps size (sizes fs) e small, buf_init-room n small)
      (run-both (put_header n id) puts n whole mem y (Writes-then (put_header-Writes mem n id) w)
          (omega (arith, count))
        ∙ ap (λ b. (y, wbuf b (n - length whole))) shape
        ∙ ap (λ k. (y, wbuf (packet id notag fs) k)) (omega (arith, count)))

module _ {id size : ℕ} {puts : Fill Npfcall} {fs : List Field} {y : Npfcall} where
  pub made-Makes :
      (mem : Npfcall)
      → Writes puts (encode fs) (headed mem (packet_size fs) id) y
      → size ≡ sizes fs
      → packet_size fs < 0x8000_0000
      → y.size ≡ packet_size fs
      → y.type ≡ id
      → y.tag ≡ notag
      → Makes (made (np_create_common (some mem) size id) puts) id notag fs
  unfolding made np_create_common np_post_check
  made-Makes mem w e small = makes (ap np_post_check (puts-fill mem id size puts fs y e small w))

  -- A field behind the end is dropped without a mark.
  pub made_late-Makes :
      (mem : Npfcall) (bs : List ℕ) (set : Npfcall → Npfcall)
      → 0 < length bs
      → Writes puts (encode fs) (headed mem (packet_size fs) id) y
      → size ≡ sizes fs
      → packet_size fs < 0x8000_0000
      → y.size ≡ packet_size fs
      → y.type ≡ id
      → y.tag ≡ notag
      → Makes (made (np_create_common (some mem) size id) (puts ⨾ put_bytes bs set)) id notag fs
  unfolding made np_create_common np_post_check ◌⨾◌
  made_late-Makes mem bs set pos w e small = makes (
      ap (λ x. np_post_check (put_bytes bs set x)) (puts-fill mem id size puts fs y e small w)
      ∙ ap np_post_check (put_bytes-full bs set y (packet id notag fs) pos))
