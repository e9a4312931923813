-- ===== src/Safety/Handle.antt =====
-- libnpfs/srv.c: the handlers of np_fcalls, as np_process_request runs them.
use npfs.Prelude.{◌≢◌, ◌≡◌, refl, [], Option, none, some}
use npfs.Types.{Npfcall}
use npfs.State.{Run, Npreq, Ptr, Env, St}
use npfs.State.Returns.{Returns, Returns-mono}
use npfs.Safety.Relies.{Relies}
use npfs.Safety.Grows.{Safe}
use npfs.Safety.Contract.{Contract}
use npfs.Safety.Fids.{Done}
use npfs.Fcall.Session.{find_req}
use npfs.Safety.Files.{
  np_open-Done, np_create-Done, np_read-Done, np_write-Done, np_clunk-Done, np_remove-Done,
  np_stat-Done, np_wstat-Done,
}
use npfs.Safety.Attrs.{
  np_statfs-Done, np_readlink-Done, np_getattr-Done, np_setattr-Done, np_fsync-Done, np_flock-Done,
  np_getlock-Done, np_lopen-Done, np_xattrcreate-Done,
}
use npfs.Safety.Dirs.{
  np_lcreate-Done, np_symlink-Done, np_mknod-Done, np_mkdir-Done, np_readdir-Done,
}
use npfs.Safety.Pairs.{np_rename-Done, np_link-Done, np_renameat-Done, np_unlinkat-Done}
use npfs.Safety.Walk.{np_walk-Done}
use npfs.Safety.Xattrwalk.{np_xattrwalk-Done}
use npfs.Safety.Session.{np_version-Done, np_auth-Done}
use npfs.Safety.Attach.{np_attach-Done}
use npfs.Srv.Table.{
  Handler, statfs, lopen, lcreate, symlink, mknod, rename, readlink, getattr, setattr, xattrwalk,
  xattrcreate, readdir, fsync, flock, getlock, link, mkdir, renameat, unlinkat, version, auth,
  attach, flush, walk, open_fid, create, read, write, clunk, remove, stat, wstat, handle,
}
use npfs.Safety.Flush.{Handled, Handled-Done, np_flush-Handled}
use npfs.Srv.Respond.{flushers_of}

module _ (env : Env) (c : Contract env) (s : St) (v : Safe s)
    (alone : flushers_of s.req s.workreqs ≡ []) (none_yet : s.rfid ≡ none) where
  done : {r : Run (Option Npfcall)} → Returns (Done s) r → Returns Handled r
  done h = Returns-mono h (λ rc t d. Handled-Done s rc t alone d)

  pub handle-Handled :
      (h : Handler) (tc : Npfcall)
      → Relies env (some (some h)) tc
      → (h ≡ Handler.attach → tc.afid ≢ tc.fid)
      → (h ≡ Handler.flush
          → (conn : Ptr) (r : Npreq) → find_req conn tc.oldtag s.workreqs ≡ some r
          → (r.id ≢ s.req) × (r.flushers ≡ []))
      → Returns Handled (handle env h tc s)
  unfolding handle
  handle-Handled statfs tc l a f = done (np_statfs-Done env c s v tc)
  handle-Handled lopen tc l a f = done (np_lopen-Done env c s v tc)
  handle-Handled lcreate tc l a f = done (np_lcreate-Done env c s v tc)
  handle-Handled symlink tc l a f = done (np_symlink-Done env c s v tc)
  handle-Handled mknod tc l a f = done (np_mknod-Done env c s v tc)
  handle-Handled rename tc l a f = done (np_rename-Done env c s v tc)
  handle-Handled readlink tc l a f = done (np_readlink-Done env c s v tc)
  handle-Handled getattr tc l a f = done (np_getattr-Done env c s v tc)
  handle-Handled setattr tc l a f = done (np_setattr-Done env c s v tc)
  handle-Handled xattrwalk tc l a f = done (np_xattrwalk-Done env c s v tc)
  handle-Handled xattrcreate tc l a f = done (np_xattrcreate-Done env c s v tc)
  handle-Handled readdir tc l a f = done (np_readdir-Done env c s v tc)
  handle-Handled fsync tc l a f = done (np_fsync-Done env c s v tc)
  handle-Handled flock tc l a f = done (np_flock-Done env c s v tc)
  handle-Handled getlock tc l a f = done (np_getlock-Done env c s v tc)
  handle-Handled link tc l a f = done (np_link-Done env c s v tc none_yet)
  handle-Handled mkdir tc l a f = done (np_mkdir-Done env c s v tc)
  handle-Handled renameat tc l a f = done (np_renameat-Done env c s v tc)
  handle-Handled unlinkat tc l a f = done (np_unlinkat-Done env c s v tc)
  handle-Handled version tc l a f = done (np_version-Done env c s v (l.version refl) tc)
  handle-Handled auth tc l a f =
      done (np_auth-Done env c s v (l.auth refl).0 (l.auth refl).1 tc none_yet)
  handle-Handled attach tc l a f =
      done (np_attach-Done env c (l.attach refl) s v tc (a refl) none_yet)
  handle-Handled flush tc l a f = np_flush-Handled env c s v alone tc (f refl)
  handle-Handled walk tc l a f = done (np_walk-Done env c s v tc (l.walk refl))
  handle-Handled open_fid tc l a f = done (np_open-Done env c s v tc)
  handle-Handled create tc l a f = done (np_create-Done env c s v tc)
  handle-Handled read tc l a f = done (np_read-Done env c s v (l.read refl) tc)
  handle-Handled write tc l a f = done (np_write-Done env c s v tc)
  handle-Handled clunk tc l a f =
      done (np_clunk-Done env c s v (l.clunk refl).0 (l.clunk refl).1 tc)
  handle-Handled remove tc l a f = done (np_remove-Done env c s v tc)
  handle-Handled stat tc l a f = done (np_stat-Done env c s v tc)
  handle-Handled wstat tc l a f = done (np_wstat-Done env c s v tc)
