-- ===== src/Answers/Dirs.antt =====
-- libnpfs/fcall.c: the answers of the handlers in Fcall/Dirs.
use npfs.Prelude.{ℕ, Option, none, some}
use npfs.Types.{Npfcall}
use npfs.State.{Ptr, Npfid, Env, M}
use npfs.Fcall.Reply.{
  np_create_rwalk, np_create_rclunk, np_create_rwrite, np_create_rauth, np_create_rflush,
  np_alloc_rread, np_set_rread_count,
}
use npfs.Answers.Ends.{answers, Quiet}
use npfs.Answers.Quiet.{quiet}
use npfs.Answers.Files.{create_reply_opens-Quiet}
use npfs.Fcall.Dirs.{
  dir_checked, mkdir_perm_checked, np_lcreate, np_symlink, np_mknod, np_mkdir, np_unlinkat,
  second_found, with_second, np_rename, np_link, np_renameat, readdir_checked, np_readdir,
}

module _ (env : Env) where
  pub dir_checked-Quiet :
      (f : Npfid) (k : M (Option Npfcall)) → Quiet k → Quiet (dir_checked env f k)
  unfolding dir_checked answers np_create_rwalk np_create_rclunk np_create_rwrite np_create_rauth
      np_create_rflush np_alloc_rread np_set_rread_count
  dir_checked-Quiet f k h0 = search (quiet) depth 20

  pub mkdir_perm_checked-Quiet :
      (tc : Npfcall) (k : M (Option Npfcall)) → Quiet k → Quiet (mkdir_perm_checked env tc k)
  unfolding mkdir_perm_checked answers np_create_rwalk np_create_rclunk np_create_rwrite
      np_create_rauth np_create_rflush np_alloc_rread np_set_rread_count
  mkdir_perm_checked-Quiet tc k h0 = search quiet depth 20

  pub np_lcreate-Quiet : (tc : Npfcall) → Quiet (np_lcreate env tc)
  unfolding np_lcreate answers np_create_rwalk np_create_rclunk np_create_rwrite np_create_rauth
      np_create_rflush np_alloc_rread np_set_rread_count
  np_lcreate-Quiet tc =
      search (quiet, create_reply_opens-Quiet, dir_checked-Quiet, mkdir_perm_checked-Quiet) depth 20

  pub np_symlink-Quiet : (tc : Npfcall) → Quiet (np_symlink env tc)
  unfolding np_symlink answers np_create_rwalk np_create_rclunk np_create_rwrite np_create_rauth
      np_create_rflush np_alloc_rread np_set_rread_count
  np_symlink-Quiet tc = search (quiet, dir_checked-Quiet) depth 20

  pub np_mknod-Quiet : (tc : Npfcall) → Quiet (np_mknod env tc)
  unfolding np_mknod answers np_create_rwalk np_create_rclunk np_create_rwrite np_create_rauth
      np_create_rflush np_alloc_rread np_set_rread_count
  np_mknod-Quiet tc = search (quiet, dir_checked-Quiet, mkdir_perm_checked-Quiet) depth 20

  pub np_mkdir-Quiet : (tc : Npfcall) → Quiet (np_mkdir env tc)
  unfolding np_mkdir answers np_create_rwalk np_create_rclunk np_create_rwrite np_create_rauth
      np_create_rflush np_alloc_rread np_set_rread_count
  np_mkdir-Quiet tc = search (quiet, dir_checked-Quiet) depth 20

  pub np_unlinkat-Quiet : (tc : Npfcall) → Quiet (np_unlinkat env tc)
  unfolding np_unlinkat answers np_create_rwalk np_create_rclunk np_create_rwrite np_create_rauth
      np_create_rflush np_alloc_rread np_set_rread_count
  np_unlinkat-Quiet tc = search (quiet, dir_checked-Quiet) depth 20

  pub second_found-Quiet :
      (a : Option Ptr) (k : (Ptr → M (Option Npfcall)))
      → ((x : Ptr) → Quiet (k x))
      → Quiet (second_found env a k)
  unfolding second_found answers np_create_rwalk np_create_rclunk np_create_rwrite np_create_rauth
      np_create_rflush np_alloc_rread np_set_rread_count
  second_found-Quiet none k h0 = search quiet depth 20
  second_found-Quiet (some a) k h0 = search quiet depth 20

  pub with_second-Quiet :
      (n : ℕ) (k : (Ptr → M (Option Npfcall)))
      → ((x : Ptr) → Quiet (k x))
      → Quiet (with_second env n k)
  unfolding with_second answers np_create_rwalk np_create_rclunk np_create_rwrite np_create_rauth
      np_create_rflush np_alloc_rread np_set_rread_count
  with_second-Quiet n k h0 = search (quiet, second_found-Quiet) depth 20

  pub np_rename-Quiet : (tc : Npfcall) → Quiet (np_rename env tc)
  unfolding np_rename answers np_create_rwalk np_create_rclunk np_create_rwrite np_create_rauth
      np_create_rflush np_alloc_rread np_set_rread_count
  np_rename-Quiet tc = search (quiet, with_second-Quiet) depth 20

  pub np_link-Quiet : (tc : Npfcall) → Quiet (np_link env tc)
  unfolding np_link answers np_create_rwalk np_create_rclunk np_create_rwrite np_create_rauth
      np_create_rflush np_alloc_rread np_set_rread_count
  np_link-Quiet tc = search (quiet, dir_checked-Quiet, with_second-Quiet) depth 20

  pub np_renameat-Quiet : (tc : Npfcall) → Quiet (np_renameat env tc)
  unfolding np_renameat answers np_create_rwalk np_create_rclunk np_create_rwrite np_create_rauth
      np_create_rflush np_alloc_rread np_set_rread_count
  np_renameat-Quiet tc = search (quiet, dir_checked-Quiet, with_second-Quiet) depth 20

  pub readdir_checked-Quiet :
      (tc : Npfcall) (p : Ptr) (f : Npfid) → Quiet (readdir_checked env tc p f)
  unfolding readdir_checked answers np_create_rwalk np_create_rclunk np_create_rwrite
      np_create_rauth np_create_rflush np_alloc_rread np_set_rread_count
  readdir_checked-Quiet tc p f = search quiet depth 20

  pub np_readdir-Quiet : (tc : Npfcall) → Quiet (np_readdir env tc)
  unfolding np_readdir answers np_create_rwalk np_create_rclunk np_create_rwrite np_create_rauth
      np_create_rflush np_alloc_rread np_set_rread_count
  np_readdir-Quiet tc = search (quiet, readdir_checked-Quiet) depth 20
