-- ===== src/Answers/Once.antt =====
-- libnpfs/srv.c: the answers of a worker's work on one request.
use npfs.Prelude.{ℕ, ◌≡◌, ◌⊎◌, true, false, Option, none, some, ◌∷◌}
use npfs.Types.{Npfcall}
use npfs.State.{Ename, Env, St, and_then}
use npfs.State.Returns.{Returns}
use npfs.Werror.{np_rerror}
use npfs.Srv.Table.{
  Handler, statfs, lopen, lcreate, symlink, mknod, rename, readlink, getattr, setattr, xattrwalk,
  xattrcreate, readdir, fsync, flock, getlock, link, mkdir, renameat, unlinkat, version, auth,
  attach, flush, walk, open_fid, create, read, write, clunk, remove, stat, wstat, handle,
}
use npfs.Srv.Process.{
  run_handler, first_error, np_create_rlerror, np_create_rerror, answer_error, np_process_request,
}
use npfs.Answers.Ends.{
  answers, Ends, ends, Silent-refl, Quiet, Quiet-fault, Quiet-bind, Quiet-then, Quiet-if,
}
use npfs.Answers.Quiet.{quiet, Quiet-werror, Quiet-reply}
use npfs.Safety.Contract.{Contract}
use npfs.Safety.Relies.{Relies}
use npfs.State.{and_then}
use npfs.Answers.Files.{
  np_open-Quiet, np_create-Quiet, np_read-Quiet, np_write-Quiet, np_clunk-Quiet, np_remove-Quiet,
  np_stat-Quiet, np_wstat-Quiet,
}
use npfs.Answers.Attrs.{
  np_statfs-Quiet, np_readlink-Quiet, np_getattr-Quiet, np_setattr-Quiet, np_fsync-Quiet,
  np_flock-Quiet, np_getlock-Quiet, np_lopen-Quiet, np_xattrcreate-Quiet,
}
use npfs.Answers.Dirs.{
  np_lcreate-Quiet, np_symlink-Quiet, np_mknod-Quiet, np_mkdir-Quiet, np_readdir-Quiet,
  np_rename-Quiet, np_link-Quiet, np_renameat-Quiet, np_unlinkat-Quiet,
}
use npfs.Answers.Walk.{np_walk-Quiet, np_xattrwalk-Quiet}
use npfs.Answers.Session.{np_version-Quiet, np_auth-Quiet, np_attach-Quiet, np_flush-Quiet}

-- No answer to a request that the handler left to the file server, and one to any other.
abbrev pub Answered : Npfcall → St → St → Type 0
Answered tc s t =
    ((t.responded ≡ false) × (answers t.trace ≡ answers s.trace))
    ⊎ ((rc : Npfcall) × (t.responded ≡ true)
        × (answers t.trace ≡ (tc.tag, record rc { tag = tc.tag }) ∷ answers s.trace))

module _ (env : Env) where
  handle-Quiet : (h : Handler) (tc : Npfcall) → Quiet (handle env h tc)
  unfolding handle
  handle-Quiet statfs tc = np_statfs-Quiet env tc
  handle-Quiet lopen tc = np_lopen-Quiet env tc
  handle-Quiet lcreate tc = np_lcreate-Quiet env tc
  handle-Quiet symlink tc = np_symlink-Quiet env tc
  handle-Quiet mknod tc = np_mknod-Quiet env tc
  handle-Quiet rename tc = np_rename-Quiet env tc
  handle-Quiet readlink tc = np_readlink-Quiet env tc
  handle-Quiet getattr tc = np_getattr-Quiet env tc
  handle-Quiet setattr tc = np_setattr-Quiet env tc
  handle-Quiet xattrwalk tc = np_xattrwalk-Quiet env tc
  handle-Quiet xattrcreate tc = np_xattrcreate-Quiet env tc
  handle-Quiet readdir tc = np_readdir-Quiet env tc
  handle-Quiet fsync tc = np_fsync-Quiet env tc
  handle-Quiet flock tc = np_flock-Quiet env tc
  handle-Quiet getlock tc = np_getlock-Quiet env tc
  handle-Quiet link tc = np_link-Quiet env tc
  handle-Quiet mkdir tc = np_mkdir-Quiet env tc
  handle-Quiet renameat tc = np_renameat-Quiet env tc
  handle-Quiet unlinkat tc = np_unlinkat-Quiet env tc
  handle-Quiet version tc = np_version-Quiet env tc
  handle-Quiet auth tc = np_auth-Quiet env tc
  handle-Quiet attach tc = np_attach-Quiet env tc
  handle-Quiet flush tc = np_flush-Quiet env tc
  handle-Quiet walk tc = np_walk-Quiet env tc
  handle-Quiet open_fid tc = np_open-Quiet env tc
  handle-Quiet create tc = np_create-Quiet env tc
  handle-Quiet read tc = np_read-Quiet env tc
  handle-Quiet write tc = np_write-Quiet env tc
  handle-Quiet clunk tc = np_clunk-Quiet env tc
  handle-Quiet remove tc = np_remove-Quiet env tc
  handle-Quiet stat tc = np_stat-Quiet env tc
  handle-Quiet wstat tc = np_wstat-Quiet env tc

  run-Quiet : (h : Option (Option Handler)) (tc : Npfcall) → Quiet (run_handler env h tc)
  unfolding run_handler
  run-Quiet none tc = Quiet-fault
  run-Quiet (some none) tc = search quiet
  run-Quiet (some (some h)) tc = handle-Quiet h tc

  error-Quiet : (rc : Option Npfcall) (e : Option Ename × ℕ) → Quiet (answer_error env rc e)
  unfolding answer_error np_create_rlerror np_create_rerror
  error-Quiet rc (none, errno) = record { at = λ s. ends (Silent-refl s) }
  error-Quiet rc (some name, errno) = record {
    at = λ s. (Quiet-if s.dotl _ _ (Quiet-reply env _) (Quiet-reply env _)).at s;
  }

  first-Quiet : (type : ℕ) → Quiet (first_error env type)
  unfolding first_error
  first-Quiet type = search quiet

  pub np_process_request-Quiet : (tc : Npfcall) → Quiet (np_process_request env tc)
  unfolding np_process_request np_rerror
  np_process_request-Quiet tc = Quiet-then _ _ (first-Quiet tc.type) (
      Quiet-then _ _ (Quiet-werror env none 0) (
        Quiet-bind _ _ (run-Quiet _ tc)
          (λ rc. Quiet-bind _ _ (record { at = λ s. ends (Silent-refl s) }) (error-Quiet rc))))
