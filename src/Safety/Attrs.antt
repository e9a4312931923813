-- ===== src/Safety/Attrs.antt =====
-- libnpfs/fcall.c: the references of the handlers of 9P2000.L on one fid.
use npfs.Prelude.{some}
use npfs.Types.{Npfcall}
use npfs.State.{Ptr, Npfid, Env, St}
use npfs.State.Returns.{Returns}
use npfs.Safety.Grows.{Safe}
use npfs.Safety.Contract.{Contract, event_fids}
use npfs.Safety.Keeps.{Keeps}
use npfs.Safety.Fids.{Own, keeps, Done, single}
use npfs.Fcall.Attrs.{
  np_statfs, np_readlink, np_getattr, np_setattr, np_fsync, np_flock, np_getlock, np_lopen,
  xattrcreate_reply, xattrcreate_checked, np_xattrcreate,
}

module _ (env : Env) (c : Contract env) (s : St) (v : Safe s) where
  xattrcreate_checked-Keeps :
      (tc : Npfcall) (p : Ptr) (f : Npfid)
      → Keeps (Own s p (some p)) (xattrcreate_checked env tc p f)
  unfolding xattrcreate_checked xattrcreate_reply event_fids
  xattrcreate_checked-Keeps tc p f = search keeps depth 18

  pub np_xattrcreate-Done : (tc : Npfcall) → Returns (Done s) (np_xattrcreate env tc s)
  unfolding np_xattrcreate
  np_xattrcreate-Done tc =
      single s env _ _ v λ p. search (keeps, xattrcreate_checked-Keeps) depth 14

  pub np_statfs-Done : (tc : Npfcall) → Returns (Done s) (np_statfs env tc s)
  unfolding np_statfs event_fids
  np_statfs-Done tc = single s env _ _ v λ p. search keeps depth 14

  pub np_readlink-Done : (tc : Npfcall) → Returns (Done s) (np_readlink env tc s)
  unfolding np_readlink event_fids
  np_readlink-Done tc = single s env _ _ v λ p. search keeps depth 14

  pub np_getattr-Done : (tc : Npfcall) → Returns (Done s) (np_getattr env tc s)
  unfolding np_getattr event_fids
  np_getattr-Done tc = single s env _ _ v λ p. search keeps depth 14

  pub np_setattr-Done : (tc : Npfcall) → Returns (Done s) (np_setattr env tc s)
  unfolding np_setattr event_fids
  np_setattr-Done tc = single s env _ _ v λ p. search keeps depth 14

  pub np_fsync-Done : (tc : Npfcall) → Returns (Done s) (np_fsync env tc s)
  unfolding np_fsync event_fids
  np_fsync-Done tc = single s env _ _ v λ p. search keeps depth 14

  pub np_flock-Done : (tc : Npfcall) → Returns (Done s) (np_flock env tc s)
  unfolding np_flock event_fids
  np_flock-Done tc = single s env _ _ v λ p. search keeps depth 14

  pub np_getlock-Done : (tc : Npfcall) → Returns (Done s) (np_getlock env tc s)
  unfolding np_getlock event_fids
  np_getlock-Done tc = single s env _ _ v λ p. search keeps depth 14

  pub np_lopen-Done : (tc : Npfcall) → Returns (Done s) (np_lopen env tc s)
  unfolding np_lopen event_fids
  np_lopen-Done tc = single s env _ _ v λ p. search keeps depth 14
