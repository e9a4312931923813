-- ===== src/Safety.antt =====
-- Memory safety of the handlers of libnpfs: the references that keep a fid alive.
pub mod Grows
pub mod Actions
pub mod Contract
pub mod Relies
pub mod Pool
pub mod Drops
pub mod Decref
pub mod Keeps
pub mod Fids
pub mod Files
pub mod Attrs
pub mod Dirs
pub mod Pairs
pub mod NewFid
pub mod Walk
pub mod Xattrwalk
pub mod Made
pub mod Session
pub mod Attach
pub mod Flush
pub mod Handle
pub mod Process
pub mod Respond
