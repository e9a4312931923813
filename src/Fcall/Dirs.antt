-- ===== src/Fcall/Dirs.antt =====
-- libnpfs/fcall.c: the requests of 9P2000.L on directories.
use npfs.Prelude.{
  ℕ, ◌&&◌, ◌||◌, not, Option, none, some, ◌==◌, ◌!=◌, if◌then◌else◌, has_bits, bit_and,
}
use npfs.Types.{Npfcall}
use npfs.Constants.{
  eio, eperm, enotdir, qtdir, onotopen, oread, owrite, dmdir, rlcreate, unknown_fid, bad_use_fid,
  not_dir, perm_denied, too_large,
}
use npfs.State.{Ptr, Npfid, Event, Env, M, pure, get, ◌>>=◌, ◌>>◌, set_rfid}
use npfs.State.Mem.{load, np_fid_incref}
use npfs.State.Call.{call_rc}
use npfs.Fidpool.{np_fid_find, np_fid_decref}
use npfs.Fcall.Reply.{fail, with_fid, with_ref}
use npfs.Fcall.Files.{create_reply_opens, is_too_large}
use npfs.Fcall.Attrs.{uflags2omode}

module _ (env : Env) where
  -- The tests that most of these requests make: the fid is a directory that is not open.
  unfoldable pub dir_checked : Npfid → M (Option Npfcall) → M (Option Npfcall)
  dir_checked f k =
      if f.omode != onotopen
      then fail env bad_use_fid eio
      else if not (has_bits f.type qtdir)
      then fail env not_dir enotdir
      else k

  -- np_lcreate and np_mknod test `mode`, which their messages do not set.
  unfoldable pub mkdir_perm_checked : Npfcall → M (Option Npfcall) → M (Option Npfcall)
  mkdir_perm_checked tc k =
      if has_bits tc.perm dmdir && (tc.mode != oread) then fail env perm_denied eperm else k

  unfoldable pub np_lcreate : Npfcall → M (Option Npfcall)
  np_lcreate tc = with_fid env tc.fid λ p. load p >>= λ f. dir_checked f (
      mkdir_perm_checked tc (
        call_rc env (Event.lcreate p tc.name tc.flags tc.perm tc.gid)
        >>= create_reply_opens env p rlcreate (uflags2omode tc.flags)))

  unfoldable pub np_symlink : Npfcall → M (Option Npfcall)
  np_symlink tc =
      with_fid env tc.dfid
        λ p. load p >>= λ f. dir_checked f (call_rc env (Event.symlink p tc.name tc.symtgt tc.gid))

  unfoldable pub np_mknod : Npfcall → M (Option Npfcall)
  np_mknod tc = with_fid env tc.fid λ p. load p >>= λ f.
      dir_checked f (
        mkdir_perm_checked tc
          (call_rc env (Event.mknod p tc.name tc.perm tc.major tc.minor tc.gid)))

  unfoldable pub np_mkdir : Npfcall → M (Option Npfcall)
  np_mkdir tc =
      with_fid env tc.fid
        λ p. load p >>= λ f. dir_checked f (call_rc env (Event.mkdir p tc.name tc.perm tc.gid))

  -- The request does not get the fid where a test fails.
  unfoldable pub np_unlinkat : Npfcall → M (Option Npfcall)
  np_unlinkat tc = with_ref env tc.fid λ p.
      load p >>= λ f. dir_checked f (set_rfid (some p) >> call_rc env (Event.unlinkat p tc.name))

  -- A second fid: its reference is given back at the end.
  unfoldable pub second_found : Option Ptr → (Ptr → M (Option Npfcall)) → M (Option Npfcall)
  second_found none k = fail env unknown_fid eio
  second_found (some q) k = do np_fid_incref q; rc ← k q; np_fid_decref env (some q); pure rc

  unfoldable pub with_second : ℕ → (Ptr → M (Option Npfcall)) → M (Option Npfcall)
  with_second fid k = np_fid_find fid >>= λ q. second_found q k

  unfoldable pub np_rename : Npfcall → M (Option Npfcall)
  np_rename tc =
      with_fid env tc.fid λ p. with_second tc.dfid λ q. call_rc env (Event.rename p q tc.name)

  -- The request gets the fid when the directory's fid is found, and not before.
  unfoldable pub np_link : Npfcall → M (Option Npfcall)
  np_link tc = with_ref env tc.fid λ p. with_second tc.dfid λ q.
      set_rfid (some p) >> (load q >>= λ g. dir_checked g (call_rc env (Event.link q p tc.name)))

  unfoldable pub np_renameat : Npfcall → M (Option Npfcall)
  np_renameat tc = with_fid env tc.fid λ p. load p >>= λ f. dir_checked f (
      with_second tc.newfid
        λ q. load q >>= λ g. dir_checked g (call_rc env (Event.renameat p tc.oname q tc.name)))

  unfoldable pub readdir_checked : Npfcall → Ptr → Npfid → M (Option Npfcall)
  readdir_checked tc p f =
      if (f.omode == onotopen) || (bit_and f.omode 3 == owrite) || not (has_bits f.type qtdir)
      then fail env bad_use_fid eio
      else call_rc env (Event.readdir p tc.offset tc.count)

  unfoldable pub np_readdir : Npfcall → M (Option Npfcall)
  np_readdir tc = with_fid env tc.fid λ p. get >>= λ s.
      if is_too_large tc.count s.msize
      then fail env too_large eio
      else load p >>= readdir_checked tc p
