-- ===== src/Fcall.antt =====
-- libnpfs/fcall.c: the handlers of the requests, in the children below, and what they share.
-- A handler returns its reply, or none for NULL.
pub mod Reply
pub mod Session
pub mod Walk
pub mod Files
pub mod Attrs
pub mod Dirs
pub mod Sizes
