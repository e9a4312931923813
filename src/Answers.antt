-- ===== src/Answers.antt =====
-- The answers of libnpfs/srv.c: how many a request gets, and under which tag.
pub mod Ends
pub mod Quiet
pub mod Files
pub mod Attrs
pub mod Dirs
pub mod Walk
pub mod Session
pub mod Once
