-- ===== src/Wire/Layout.antt =====
-- The layout of a packet as the protocol has it, independent of the code of libnpfs/np.c.
use npfs.Prelude.{ℕ, List, [], arith, length, length-append, refl, ◌++◌, ◌+◌, ◌<◌, ◌∷◌, ◌≡◌, ◌≤◌}
use npfs.Types.{Npstr, Npqid}
use npfs.Wire.Bytes.{le_bytes, length-le_bytes, qid_bytes}
use npfs.Constants.{maxwelem}

-- One field of a message: a little-endian word, a string with a 16-bit length, a qid, the number of
-- names or qids of a walk, or bytes as they are.
pub data Field : Type 0 where
  u8 : ℕ → Field
  u16 : ℕ → Field
  u32 : ℕ → Field
  u64 : ℕ → Field
  text : Npstr → Field
  qid13 : Npqid → Field
  elements : ℕ → Field
  raw : List ℕ → Field

abbrev pub field_bytes : Field → List ℕ
field_bytes (u8 v) = le_bytes 1 v
field_bytes (u16 v) = le_bytes 2 v
field_bytes (u32 v) = le_bytes 4 v
field_bytes (u64 v) = le_bytes 8 v
field_bytes (text s) = le_bytes 2 (length s) ++ s
field_bytes (qid13 q) = qid_bytes q
field_bytes (elements n) = le_bytes 2 n
field_bytes (raw bs) = bs

-- The values that the field can hold.
abbrev pub Fits : Field → Type 0
Fits (u8 v) = v < 256
Fits (u16 v) = v < 65536
Fits (u32 v) = v < 0x1_0000_0000
Fits (u64 v) = v < 0x1_0000_0000_0000_0000
Fits (text s) = length s < 65536
Fits (qid13 q) = (q.type < 256) × ((q.version < 0x1_0000_0000) × (q.path < 0x1_0000_0000_0000_0000))
Fits (elements n) = n ≤ maxwelem
Fits (raw bs) = length bs < 0x8000_0000

abbrev pub field_size : Field → ℕ
field_size (u8 v) = 1
field_size (u16 v) = 2
field_size (u32 v) = 4
field_size (u64 v) = 8
field_size (text s) = 2 + length s
field_size (qid13 q) = 13
field_size (elements n) = 2
field_size (raw bs) = length bs

abbrev pub encode : List Field → List ℕ
encode [] = []
encode (f ∷ fs) = field_bytes f ++ encode fs

abbrev pub sizes : List Field → ℕ
sizes [] = 0
sizes (f ∷ fs) = field_size f + sizes fs

-- size[4] type[1] tag[2] and the fields; the size counts itself.
abbrev pub packet_size : List Field → ℕ
packet_size fs = 7 + sizes fs

unfoldable pub packet : ℕ → ℕ → List Field → List ℕ
packet type tag fs =
    le_bytes 4 (packet_size fs) ++ (le_bytes 1 type ++ (le_bytes 2 tag ++ encode fs))

length-field_bytes : (f : Field) → length (field_bytes f) ≡ field_size f
unfolding qid_bytes
length-field_bytes (u8 v) = length-le_bytes 1 v
length-field_bytes (u16 v) = length-le_bytes 2 v
length-field_bytes (u32 v) = length-le_bytes 4 v
length-field_bytes (u64 v) = length-le_bytes 8 v
length-field_bytes (text s) =
    omega (arith, length-append (le_bytes 2 (length s)) s, length-le_bytes 2 (length s))
length-field_bytes (qid13 q) = omega (
  arith,
  length-append (le_bytes 1 q.type) (le_bytes 4 q.version ++ le_bytes 8 q.path),
  length-append (le_bytes 4 q.version) (le_bytes 8 q.path),
  length-le_bytes 1 q.type,
  length-le_bytes 4 q.version,
  length-le_bytes 8 q.path,
)
length-field_bytes (elements n) = length-le_bytes 2 n
length-field_bytes (raw bs) = refl

pub length-encode : (fs : List Field) → length (encode fs) ≡ sizes fs
length-encode [] = refl
length-encode (f ∷ fs) =
    omega (arith, length-append (field_bytes f) (encode fs), length-field_bytes f, length-encode fs)

pub length-packet : (type tag : ℕ) (fs : List Field) → length (packet type tag fs) ≡ packet_size fs
unfolding packet
length-packet type tag fs =
    let body : List ℕ = le_bytes 2 tag ++ encode fs in
    omega (
      arith,
      length-append (le_bytes 4 (packet_size fs)) (le_bytes 1 type ++ body),
      length-append (le_bytes 1 type) body,
      length-append (le_bytes 2 tag) (encode fs),
      length-le_bytes 4 (packet_size fs),
      length-le_bytes 1 type,
      length-le_bytes 2 tag,
      length-encode fs,
    )
