-- ===== src/Wire/Scan.antt =====
-- libnpfs/np.c: the cases of np_deserialize, message by message.
pub mod Session
pub mod Files
pub mod Names
pub mod Attrs
pub mod Dirs
