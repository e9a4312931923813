-- ===== src/Wire/RoundTrip.antt =====
-- libnpfs/np.c: a message that one side makes and the other reads.
use npfs.Prelude.{
  ℕ, All, Bool, List, Option, [], ap, arith, false, leb, length, length-append, ltb, none, refl,
  some, sym, true, ◌&&◌, ◌++◌, ◌+◌, ◌-◌, ◌<◌, ◌∙◌, ◌≡◌, if◌then◌else◌,
}
use mathlib.Core.List.{append_assoc, append-nil}
use npfs.Wire.Deserialize.{
  Deserialized, deserialize_sized, finish, np_deserialize, scan_header, scan_switch, parsed,
  deserialize_from, scan_window, refused,
}
use npfs.Wire.Layout.{Field, Fits, encode, length-encode, packet, packet_size, sizes}
use npfs.Wire.Reads.{
  Gets-int16, Gets-int8, Reads, Reads-assign, Reads-into, Reads-then, rbuf, Reads-run,
  split_at-append,
}
use npfs.Wire.Message.{Message, fields, type_of, type_of-small}
use npfs.Types.{Npfcall}
use npfs.Wire.Create.{Packet, np_set_tag, overwrite}
use npfs.Wire.Message.Create.{create, is_whole}
use npfs.Wire.Message.Filled.{filled}
use npfs.Wire.Bytes.{le_bytes, le_word-bytes4, length-le_bytes}
use npfs.Constants.{nofid, notag}
use npfs.Wire.Parsed.{Scans-run}
use npfs.Wire.Get.{split_at?}
use npfs.Wire.Parsed.Every.{switch-Scans}
use npfs.Wire.Made.{makes, Makes}
use npfs.Wire.Made.Every.{create-Makes}

-- What the struct holds before the fields of the message are read.
abbrev pub received : Npfcall → ℕ → ℕ → ℕ → Npfcall
received old size type tag = record old {
  size = size;
  type = type;
  tag = tag;
  fid = nofid;
  afid = nofid;
  newfid = nofid;
}

scan_header-Reads :
    (fc : Npfcall) (size type tag : ℕ)
    → type < 256
    → tag < 65536
    → Reads scan_header
        (le_bytes 1 type ++ (le_bytes 2 tag ++ []))
        (record fc { size = size })
        (received fc size type tag)
unfolding scan_header
scan_header-Reads fc size type tag ht hg =
    Reads-then (Reads-into _ _ (Gets-int8 type ht))
      (Reads-then (Reads-into _ _ (Gets-int16 tag hg)) (Reads-assign _ _))

split_at-exact : (n : ℕ) (xs ys : List ℕ) → length xs ≡ n → split_at? n (xs ++ ys) ≡ some (xs, ys)
split_at-exact n xs ys h = ap (λ k. split_at? k (xs ++ ys)) (sym h) ∙ split_at-append xs ys

in_range : (n : ℕ) → 7 + n < 0x8000_0000 → leb 4 (7 + n) && ltb (7 + n) 0x8000_0004 ≡ true
in_range n h = ground arith

-- The packet without its size.
abbrev body : ℕ → ℕ → List Field → List ℕ
body type tag fs = le_bytes 1 type ++ (le_bytes 2 tag ++ encode fs)

length-body : (type tag : ℕ) (fs : List Field) → length (body type tag fs) ≡ packet_size fs - 4
length-body type tag fs = omega (
  arith,
  length-append (le_bytes 1 type) (le_bytes 2 tag ++ encode fs),
  length-append (le_bytes 2 tag) (encode fs),
  length-le_bytes 1 type,
  length-le_bytes 2 tag,
  length-encode fs,
)

scan_body :
    (dotu : Bool) (m : Message) (old : Npfcall) (tag size : ℕ)
    → All Fits (fields dotu m)
    → tag < 65536
    → scan_switch dotu (
        scan_header (record old { size = size }, rbuf (body (type_of m) tag (fields dotu m)) false))
      ≡ some (filled dotu m (received old size (type_of m) tag), rbuf [] false)
unfolding scan_switch le_bytes
scan_body dotu m old tag size fits hg =
    ap (scan_switch dotu) (
      Reads-run (scan_header-Reads old size (type_of m) tag (type_of-small m) hg)
        (encode (fields dotu m)) false)
    ∙ Scans-run (switch-Scans dotu m fits (received old size (type_of m) tag)) false

deserialize_sized-body :
    (dotu : Bool) (m : Message) (old : Npfcall) (tag : ℕ) (behind : List ℕ)
    → All Fits (fields dotu m)
    → packet_size (fields dotu m) < 0x8000_0000
    → tag < 65536
    → deserialize_sized old dotu
        (packet_size (fields dotu m))
        (body (type_of m) tag (fields dotu m) ++ behind)
      ≡ parsed
          (packet_size (fields dotu m))
          (filled dotu m (received old (packet_size (fields dotu m)) (type_of m) tag))
          false
unfolding deserialize_sized scan_window finish
deserialize_sized-body dotu m old tag behind fits small hg =
    let fs : List Field = fields dotu m in
    let n : ℕ = packet_size fs in
    let b : List ℕ = body (type_of m) tag fs in
    ap (λ c. if c then scan_window old n dotu (split_at? (n - 4) (b ++ behind)) else refused)
      (in_range (sizes fs) small)
    ∙ ap (scan_window old n dotu) (split_at-exact (n - 4) b behind (length-body (type_of m) tag fs))
    ∙ ap (finish n) (scan_body dotu m old tag n fits hg)

-- Where the fields of a message hold its values and the packet is shorter than 2^31, np_deserialize
-- reads the packet in the layout of the protocol, with any bytes behind it, into the fields that the
-- message carries, and nothing is missing. A field that only 9P2000.u has is ~0 or empty without it,
-- and every other field keeps what it held before, but for the three fids, which are NOFID.
pub np_deserialize-packet :
    (dotu : Bool) (m : Message) (old : Npfcall) (tag : ℕ) (behind : List ℕ)
    → All Fits (fields dotu m)
    → packet_size (fields dotu m) < 0x8000_0000
    → tag < 65536
    → np_deserialize old (packet (type_of m) tag (fields dotu m) ++ behind) dotu
      ≡ parsed
          (packet_size (fields dotu m))
          (filled dotu m (received old (packet_size (fields dotu m)) (type_of m) tag))
          false
unfolding np_deserialize deserialize_from packet
np_deserialize-packet dotu m old tag behind fits small hg =
    let fs : List Field = fields dotu m in
    let n : ℕ = packet_size fs in
    let b : List ℕ = body (type_of m) tag fs in
    ap (λ l. deserialize_from old dotu (split_at? 4 l)) (append_assoc (le_bytes 4 n) b behind)
    ∙ ap (deserialize_from old dotu)
        (split_at-exact 4 (le_bytes 4 n) (b ++ behind) (length-le_bytes 4 n))
    ∙ ap (λ k. deserialize_sized old dotu k (b ++ behind)) (le_word-bytes4 n (omega arith))
    ∙ deserialize_sized-body dotu m old tag behind fits small hg

-- What the receiver reads from the packet of a message with its tag set; none where no packet was made.
unfoldable pub delivered : Option Packet → ℕ → Npfcall → Bool → Option Deserialized
delivered none tag old dotu = none
delivered (some p) tag old dotu = some (np_deserialize old (np_set_tag p tag).pkt dotu)

np_set_tag-packet :
    (fc : Npfcall) (type tag : ℕ) (fs : List Field)
    → (np_set_tag (record { fc = fc; pkt = packet type notag fs }) tag).pkt ≡ packet type tag fs
unfolding np_set_tag packet overwrite le_bytes
np_set_tag-packet fc type tag fs = refl

delivered-packet :
    {r : Option Packet} {type : ℕ} {fs : List Field}
    → Makes r type notag fs
    → (tag : ℕ) (old : Npfcall) (dotu : Bool)
    → delivered r tag old dotu ≡ some (np_deserialize old (packet type tag fs) dotu)
unfolding delivered
delivered-packet {type} {fs} (makes {fc} e _ _ _) tag old dotu =
    ap (λ r. delivered r tag old dotu) e
    ∙ ap (λ l. some (np_deserialize old l dotu)) (np_set_tag-packet fc type tag fs)

-- Where the fields of a message hold its values and the packet is shorter than 2^31, and the message
-- is no Tauth or Tcreate of 9P2000.u, the function that makes the message returns a packet, and np_deserialize reads it back, with the tag that
-- np_set_tag put in, into the values it was made from. Every other field keeps what it held before,
-- and the three fids that the message does not carry are NOFID.
pub create-np_deserialize :
    (dotu : Bool) (m : Message) (mem old : Npfcall) (tag : ℕ)
    → is_whole dotu m ≡ true
    → All Fits (fields dotu m)
    → packet_size (fields dotu m) < 0x8000_0000
    → tag < 65536
    → delivered (create dotu (some mem) m) tag old dotu
      ≡ some (
          parsed
            (packet_size (fields dotu m))
            (filled dotu m (received old (packet_size (fields dotu m)) (type_of m) tag))
            false)
create-np_deserialize dotu m mem old tag whole fits small hg =
    delivered-packet (create-Makes dotu mem m whole fits small) tag old dotu
    ∙ ap (λ d. some d)
        (ap (λ l. np_deserialize old l dotu)
            (sym (append-nil (packet (type_of m) tag (fields dotu m))))
          ∙ np_deserialize-packet dotu m old tag [] fits small hg)
