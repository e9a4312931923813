-- ===== src/Guards.antt =====
-- What the handlers of libnpfs/fcall.c test before they call the file server.
pub mod Traces
pub mod Clone
pub mod Reads
pub mod Writes
