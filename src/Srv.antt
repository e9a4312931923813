-- ===== src/Srv.antt =====
-- libnpfs/srv.c: how a worker thread serves a request.
pub mod Table
pub mod Process
pub mod Respond
pub mod Version
