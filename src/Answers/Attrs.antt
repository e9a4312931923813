-- ===== src/Answers/Attrs.antt =====
-- libnpfs/fcall.c: the answers of the handlers in Fcall/Attrs.
use npfs.Prelude.{Option}
use npfs.Types.{Npfcall}
use npfs.State.{Ptr, Npfid, Env}
use npfs.Fcall.Reply.{
  np_create_rwalk, np_create_rclunk, np_create_rwrite, np_create_rauth, np_create_rflush,
  np_alloc_rread, np_set_rread_count,
}
use npfs.Answers.Ends.{answers, Quiet}
use npfs.Answers.Quiet.{quiet}
use npfs.Fcall.Attrs.{
  np_statfs, np_readlink, np_getattr, np_setattr, np_fsync, np_flock, np_getlock, np_lopen,
  xattrcreate_reply, xattrcreate_checked, np_xattrcreate,
}

module _ (env : Env) where
  pub np_statfs-Quiet : (tc : Npfcall) → Quiet (np_statfs env tc)
  unfolding np_statfs answers np_create_rwalk np_create_rclunk np_create_rwrite np_create_rauth
      np_create_rflush np_alloc_rread np_set_rread_count
  np_statfs-Quiet tc = search (quiet) depth 20

  pub np_readlink-Quiet : (tc : Npfcall) → Quiet (np_readlink env tc)
  unfolding np_readlink answers np_create_rwalk np_create_rclunk np_create_rwrite np_create_rauth
      np_create_rflush np_alloc_rread np_set_rread_count
  np_readlink-Quiet tc = search quiet depth 20

  pub np_getattr-Quiet : (tc : Npfcall) → Quiet (np_getattr env tc)
  unfolding np_getattr answers np_create_rwalk np_create_rclunk np_create_rwrite np_create_rauth
      np_create_rflush np_alloc_rread np_set_rread_count
  np_getattr-Quiet tc = search quiet depth 20

  pub np_setattr-Quiet : (tc : Npfcall) → Quiet (np_setattr env tc)
  unfolding np_setattr answers np_create_rwalk np_create_rclunk np_create_rwrite np_create_rauth
      np_create_rflush np_alloc_rread np_set_rread_count
  np_setattr-Quiet tc = search quiet depth 20

  pub np_fsync-Quiet : (tc : Npfcall) → Quiet (np_fsync env tc)
  unfolding np_fsync answers np_create_rwalk np_create_rclunk np_create_rwrite np_create_rauth
      np_create_rflush np_alloc_rread np_set_rread_count
  np_fsync-Quiet tc = search quiet depth 20

  pub np_flock-Quiet : (tc : Npfcall) → Quiet (np_flock env tc)
  unfolding np_flock answers np_create_rwalk np_create_rclunk np_create_rwrite np_create_rauth
      np_create_rflush np_alloc_rread np_set_rread_count
  np_flock-Quiet tc = search quiet depth 20

  pub np_getlock-Quiet : (tc : Npfcall) → Quiet (np_getlock env tc)
  unfolding np_getlock answers np_create_rwalk np_create_rclunk np_create_rwrite np_create_rauth
      np_create_rflush np_alloc_rread np_set_rread_count
  np_getlock-Quiet tc = search quiet depth 20

  pub np_lopen-Quiet : (tc : Npfcall) → Quiet (np_lopen env tc)
  unfolding np_lopen answers np_create_rwalk np_create_rclunk np_create_rwrite np_create_rauth
      np_create_rflush np_alloc_rread np_set_rread_count
  np_lopen-Quiet tc = search quiet depth 20

  pub xattrcreate_reply-Quiet : (p : Ptr) (rc : Option Npfcall) → Quiet (xattrcreate_reply env p rc)
  unfolding xattrcreate_reply answers np_create_rwalk np_create_rclunk np_create_rwrite
      np_create_rauth np_create_rflush np_alloc_rread np_set_rread_count
  xattrcreate_reply-Quiet p rc = search quiet depth 20

  pub xattrcreate_checked-Quiet :
      (tc : Npfcall) (p : Ptr) (f : Npfid) → Quiet (xattrcreate_checked env tc p f)
  unfolding xattrcreate_checked answers np_create_rwalk np_create_rclunk np_create_rwrite
      np_create_rauth np_create_rflush np_alloc_rread np_set_rread_count
  xattrcreate_checked-Quiet tc p f = search (quiet, xattrcreate_reply-Quiet) depth 20

  pub np_xattrcreate-Quiet : (tc : Npfcall) → Quiet (np_xattrcreate env tc)
  unfolding np_xattrcreate answers np_create_rwalk np_create_rclunk np_create_rwrite np_create_rauth
      np_create_rflush np_alloc_rread np_set_rread_count
  np_xattrcreate-Quiet tc = search (quiet, xattrcreate_checked-Quiet) depth 20
