-- ===== src/Guards/Clone.antt =====
-- libnpfs/fcall.c: np_walk where the file server's clone fails.
use npfs.State.Returns.{Returns}
use npfs.State.Call.{call, apply_ops}
use npfs.State.Call.{apply_ops, call}
