-- ===== src/Safety/Dirs.antt =====
-- libnpfs/fcall.c: the references of the handlers of 9P2000.L on directories.
use npfs.Prelude.{Option, some}
use npfs.Types.{Npfcall}
use npfs.State.{Ptr, Npfid, Env, St, M}
use npfs.State.Returns.{Returns}
use npfs.Safety.Grows.{Safe}
use npfs.Safety.Contract.{Contract, event_fids}
use npfs.Safety.Keeps.{Keeps, IsClosed}
use npfs.Safety.Fids.{Own, keeps, Done, single}
use npfs.Safety.Files.{create_reply_opens-Keeps}
use npfs.Fcall.Dirs.{
  dir_checked, mkdir_perm_checked, np_lcreate, np_symlink, np_mknod, np_mkdir, readdir_checked,
  np_readdir,
}

module _ (env : Env) (c : Contract env) (s : St) (v : Safe s) where
  pub dir_checked-Keeps :
      {Q : St → Type 0}
      → IsClosed Q
      → (f : Npfid) (k : M (Option Npfcall)) → Keeps Q k
      → Keeps Q (dir_checked env f k)
  unfolding dir_checked
  dir_checked-Keeps closed f k h = search (keeps) depth 14

  mkdir_perm_checked-Keeps :
      {Q : St → Type 0}
      → IsClosed Q
      → (tc : Npfcall) (k : M (Option Npfcall)) → Keeps Q k
      → Keeps Q (mkdir_perm_checked env tc k)
  unfolding mkdir_perm_checked
  mkdir_perm_checked-Keeps closed tc k h = search (keeps) depth 14

  readdir_checked-Keeps :
      (tc : Npfcall) (p : Ptr) (f : Npfid) → Keeps (Own s p (some p)) (readdir_checked env tc p f)
  unfolding readdir_checked event_fids
  readdir_checked-Keeps tc p f = search keeps depth 14

  pub np_lcreate-Done : (tc : Npfcall) → Returns (Done s) (np_lcreate env tc s)
  unfolding np_lcreate event_fids
  np_lcreate-Done tc = single s env _ _ v λ p.
      search (keeps, dir_checked-Keeps, mkdir_perm_checked-Keeps, create_reply_opens-Keeps) depth 18

  pub np_symlink-Done : (tc : Npfcall) → Returns (Done s) (np_symlink env tc s)
  unfolding np_symlink event_fids
  np_symlink-Done tc = single s env _ _ v λ p. search (keeps, dir_checked-Keeps) depth 18

  pub np_mknod-Done : (tc : Npfcall) → Returns (Done s) (np_mknod env tc s)
  unfolding np_mknod event_fids
  np_mknod-Done tc =
      single s env _ _ v λ p. search (keeps, dir_checked-Keeps, mkdir_perm_checked-Keeps) depth 18

  pub np_mkdir-Done : (tc : Npfcall) → Returns (Done s) (np_mkdir env tc s)
  unfolding np_mkdir event_fids
  np_mkdir-Done tc = single s env _ _ v λ p. search (keeps, dir_checked-Keeps) depth 18

  pub np_readdir-Done : (tc : Npfcall) → Returns (Done s) (np_readdir env tc s)
  unfolding np_readdir event_fids
  np_readdir-Done tc = single s env _ _ v λ p. search (keeps, readdir_checked-Keeps) depth 18
