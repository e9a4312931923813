-- ===== src/Wire.antt =====
-- libnpfs/np.c: the packets of the messages, byte by byte: the buffer operations, the functions that
-- make a message, and np_deserialize, which reads one.
pub mod Bytes
pub mod Put
pub mod Get
pub mod Writes
pub mod Reads
pub mod Stat
pub mod Create
pub mod Scan
pub mod Deserialize
pub mod Layout
pub mod Made
pub mod Message
pub mod Parsed
pub mod RoundTrip
pub mod Counts
pub mod Stats
pub mod Compare
