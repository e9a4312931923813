-- ===== src/Wire/Create.antt =====
-- libnpfs/np.c: what the functions that make a message share, and the changes of a packet in place.
-- `mem` is the block that malloc returns: none is NULL, and the fields of a block hold anything.
pub mod Session
pub mod Files
pub mod Names
pub mod Attrs
pub mod Dirs
use npfs.Prelude.{
  ◌⨾◌, ℕ, zero, suc, ◌+◌, ◌-◌, ◌/◌, ◌%◌, Bool, true, false, Option, none, some, List, [], ◌∷◌, leb,
  if◌then◌else◌,
}
use npfs.Types.{Npstr, Npfcall}
use npfs.Constants.{notag, u32_mod}
use npfs.Wire.Bytes.{le_bytes}
use npfs.Wire.Put.{Wbuf, Fill, buf_init, put_bytes, buf_put_int8, buf_put_int16, buf_put_int32}

-- A message with its packet: the bytes of it that have been written.
pub record Packet : Type 0 where
  pub fc : Npfcall
  pub pkt : List ℕ

unfoldable pub put_header : ℕ → ℕ → Fill Npfcall
put_header size id =
    buf_put_int32 size (λ fc. record fc { size = size })
    ⨾ buf_put_int8 id (λ fc. record fc { type = id })
    ⨾ buf_put_int16 notag (λ fc. record fc { tag = notag })

unfoldable pub np_create_common : Option Npfcall → ℕ → ℕ → Option (Npfcall × Wbuf)
np_create_common none size id = none
np_create_common (some mem) size id =
    let total = (size + (4 + 1 + 2)) % u32_mod in some (put_header total id (mem, buf_init total))

unfoldable pub np_post_check : Npfcall × Wbuf → Option Packet
np_post_check (fc, w) = if w.over then none else some (record { fc = fc; pkt = w.out })

-- `fc = np_create_common(bufp, size, id); if (!fc) return NULL; …; return np_post_check(fc, bufp);`
-- np_create_rremove and np_create_rwstat leave the test out; the result is NULL all the same.
unfoldable pub made : Option (Npfcall × Wbuf) → Fill Npfcall → Option Packet
made none puts = none
made (some x) puts = np_post_check (puts x)

-- A write at an offset of a buffer.
unfoldable pub overwrite : ℕ → List ℕ → List ℕ → List ℕ
overwrite zero [] old = old
overwrite zero (x ∷ new) [] = []
overwrite zero (x ∷ new) (y ∷ old) = x ∷ overwrite zero new old
overwrite (suc n) new [] = []
overwrite (suc n) new (y ∷ old) = y ∷ overwrite n new old

unfoldable pub np_set_tag : Packet → ℕ → Packet
np_set_tag p tag = record {
  fc = record p.fc { tag = tag };
  pkt = overwrite 5 (le_bytes 2 tag) p.pkt;
}

-- np_set_rread_count and np_set_rreaddir_count are the same text; none is a failed assert.
unfoldable pub set_count : Packet → ℕ → Option Packet
set_count p count =
    let size = 4 + 1 + 2 + 4 + count in
    if leb count p.fc.count
    then some (record {
      fc = record p.fc { size = size; count = count };
      pkt = overwrite 7 (le_bytes 4 count) (overwrite 0 (le_bytes 4 size) p.pkt);
    })
    else none
