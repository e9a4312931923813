-- ===== src/Answers/Files.antt =====
-- libnpfs/fcall.c: the answers of the handlers in Fcall/Files.
use npfs.Prelude.{ℕ, Bool, Option, none, some, if◌then◌else◌, ◌==◌}
use npfs.Types.{Npfcall}
use npfs.State.{Ptr, Npfid, Outcome, Env, pure}
use npfs.Fcall.Reply.{
  np_create_rwalk, np_create_rclunk, np_create_rwrite, np_create_rauth, np_create_rflush,
  np_alloc_rread, np_set_rread_count,
}
use npfs.Answers.Ends.{answers, Quiet, Quiet-fault}
use npfs.Answers.Quiet.{quiet}
use npfs.Constants.{rerror, rclunk}
use npfs.State.{◌>>=◌}
use npfs.Fcall.Files.{
  open_checked, np_open, create_reply_opens, create_checked, np_create, auth_read_into,
  read_checked, read_sized, np_read, auth_written, write_checked, np_write, drop_on, auth_clunked,
  clunk_removed, auth_clunk, clunk_checked, np_clunk, np_remove, np_stat, wstat_checked, np_wstat,
}

module _ (env : Env) where
  pub open_checked-Quiet : (tc : Npfcall) (p : Ptr) (f : Npfid) → Quiet (open_checked env tc p f)
  unfolding open_checked answers np_create_rwalk np_create_rclunk np_create_rwrite np_create_rauth
      np_create_rflush np_alloc_rread np_set_rread_count
  open_checked-Quiet tc p f = search (quiet) depth 20

  pub np_open-Quiet : (tc : Npfcall) → Quiet (np_open env tc)
  unfolding np_open answers np_create_rwalk np_create_rclunk np_create_rwrite np_create_rauth
      np_create_rflush np_alloc_rread np_set_rread_count
  np_open-Quiet tc = search (quiet, open_checked-Quiet) depth 20

  pub create_reply_opens-Quiet :
      (p : Ptr) (n : ℕ) (n2 : ℕ) (rc : Option Npfcall) → Quiet (create_reply_opens env p n n2 rc)
  unfolding create_reply_opens answers np_create_rwalk np_create_rclunk np_create_rwrite
      np_create_rauth np_create_rflush np_alloc_rread np_set_rread_count
  create_reply_opens-Quiet p n n2 none = search quiet depth 20
  create_reply_opens-Quiet p n n2 (some rc) = search quiet depth 20

  pub create_checked-Quiet :
      (tc : Npfcall) (p : Ptr) (f : Npfid) (b : Bool) → Quiet (create_checked env tc p f b)
  unfolding create_checked answers np_create_rwalk np_create_rclunk np_create_rwrite np_create_rauth
      np_create_rflush np_alloc_rread np_set_rread_count
  create_checked-Quiet tc p f b = search (quiet, create_reply_opens-Quiet) depth 20

  pub np_create-Quiet : (tc : Npfcall) → Quiet (np_create env tc)
  unfolding np_create answers np_create_rwalk np_create_rclunk np_create_rwrite np_create_rauth
      np_create_rflush np_alloc_rread np_set_rread_count
  np_create-Quiet tc = search (quiet, create_checked-Quiet) depth 20

  pub auth_read_into-Quiet :
      (tc : Npfcall) (p : Ptr) (rc : Option Npfcall) → Quiet (auth_read_into env tc p rc)
  unfolding auth_read_into answers np_create_rwalk np_create_rclunk np_create_rwrite np_create_rauth
      np_create_rflush np_alloc_rread np_set_rread_count
  auth_read_into-Quiet tc p none = search quiet depth 20
  auth_read_into-Quiet tc p (some rc) = search quiet depth 20

  pub read_checked-Quiet : (tc : Npfcall) (p : Ptr) (f : Npfid) → Quiet (read_checked env tc p f)
  unfolding read_checked answers np_create_rwalk np_create_rclunk np_create_rwrite np_create_rauth
      np_create_rflush np_alloc_rread np_set_rread_count
  read_checked-Quiet tc p f = search (quiet, auth_read_into-Quiet) depth 20

  pub read_sized-Quiet : (tc : Npfcall) (p : Ptr) (n : ℕ) → Quiet (read_sized env tc p n)
  unfolding read_sized answers np_create_rwalk np_create_rclunk np_create_rwrite np_create_rauth
      np_create_rflush np_alloc_rread np_set_rread_count
  read_sized-Quiet tc p n = search (quiet, read_checked-Quiet) depth 20

  pub np_read-Quiet : (tc : Npfcall) → Quiet (np_read env tc)
  unfolding np_read answers np_create_rwalk np_create_rclunk np_create_rwrite np_create_rauth
      np_create_rflush np_alloc_rread np_set_rread_count
  np_read-Quiet tc = search (quiet, read_sized-Quiet) depth 20

  pub auth_written-Quiet : (o : Outcome) → Quiet (auth_written env o)
  unfolding auth_written answers np_create_rwalk np_create_rclunk np_create_rwrite np_create_rauth
      np_create_rflush np_alloc_rread np_set_rread_count
  auth_written-Quiet o = search quiet depth 20

  pub write_checked-Quiet :
      (tc : Npfcall) (p : Ptr) (f : Npfid) (n : ℕ) → Quiet (write_checked env tc p f n)
  unfolding write_checked answers np_create_rwalk np_create_rclunk np_create_rwrite np_create_rauth
      np_create_rflush np_alloc_rread np_set_rread_count
  write_checked-Quiet tc p f n = search (quiet, auth_written-Quiet) depth 20

  pub np_write-Quiet : (tc : Npfcall) → Quiet (np_write env tc)
  unfolding np_write answers np_create_rwalk np_create_rclunk np_create_rwrite np_create_rauth
      np_create_rflush np_alloc_rread np_set_rread_count
  np_write-Quiet tc = search (quiet, write_checked-Quiet) depth 20

  pub drop_on-Quiet : (n : ℕ) (p : Ptr) (rc : Option Npfcall) → Quiet (drop_on env n p rc)
  unfolding drop_on answers np_create_rwalk np_create_rclunk np_create_rwrite np_create_rauth
      np_create_rflush np_alloc_rread np_set_rread_count
  drop_on-Quiet n p none = search quiet depth 20
  drop_on-Quiet n p (some rc) = search quiet depth 20

  pub auth_clunked-Quiet : (o : Outcome) → Quiet (auth_clunked env o)
  unfolding auth_clunked answers np_create_rwalk np_create_rclunk np_create_rwrite np_create_rauth
      np_create_rflush np_alloc_rread np_set_rread_count
  auth_clunked-Quiet o = search quiet depth 20

  pub clunk_removed-Quiet : (p : Ptr) (rc : Option Npfcall) → Quiet (clunk_removed env p rc)
  unfolding clunk_removed np_create_rclunk
  clunk_removed-Quiet p none = Quiet-fault
  clunk_removed-Quiet p (some rc) = record {
    at = λ s.
        let quiet_if : Quiet (
            if rc.type == rerror
            then pure (some rc)
            else np_create_rclunk env >>= drop_on env rclunk p) =
          search (quiet, drop_on-Quiet) depth 12 in
        quiet_if.at s;
  }

  pub auth_clunk-Quiet : (p : Ptr) → Quiet (auth_clunk env p)
  unfolding auth_clunk answers np_create_rwalk np_create_rclunk np_create_rwrite np_create_rauth
      np_create_rflush np_alloc_rread np_set_rread_count
  auth_clunk-Quiet p = search (quiet, auth_clunked-Quiet) depth 20

  pub clunk_checked-Quiet : (p : Ptr) (f : Npfid) → Quiet (clunk_checked env p f)
  unfolding clunk_checked answers np_create_rwalk np_create_rclunk np_create_rwrite np_create_rauth
      np_create_rflush np_alloc_rread np_set_rread_count
  clunk_checked-Quiet p f =
      search (quiet, drop_on-Quiet, clunk_removed-Quiet, auth_clunk-Quiet) depth 20

  pub np_clunk-Quiet : (tc : Npfcall) → Quiet (np_clunk env tc)
  unfolding np_clunk answers np_create_rwalk np_create_rclunk np_create_rwrite np_create_rauth
      np_create_rflush np_alloc_rread np_set_rread_count
  np_clunk-Quiet tc = search (quiet, clunk_checked-Quiet) depth 20

  pub np_remove-Quiet : (tc : Npfcall) → Quiet (np_remove env tc)
  unfolding np_remove answers np_create_rwalk np_create_rclunk np_create_rwrite np_create_rauth
      np_create_rflush np_alloc_rread np_set_rread_count
  np_remove-Quiet tc = search (quiet, drop_on-Quiet) depth 20

  pub np_stat-Quiet : (tc : Npfcall) → Quiet (np_stat env tc)
  unfolding np_stat answers np_create_rwalk np_create_rclunk np_create_rwrite np_create_rauth
      np_create_rflush np_alloc_rread np_set_rread_count
  np_stat-Quiet tc = search quiet depth 20

  pub wstat_checked-Quiet : (tc : Npfcall) (p : Ptr) (f : Npfid) → Quiet (wstat_checked env tc p f)
  unfolding wstat_checked answers np_create_rwalk np_create_rclunk np_create_rwrite np_create_rauth
      np_create_rflush np_alloc_rread np_set_rread_count
  wstat_checked-Quiet tc p f = search quiet depth 20

  pub np_wstat-Quiet : (tc : Npfcall) → Quiet (np_wstat env tc)
  unfolding np_wstat answers np_create_rwalk np_create_rclunk np_create_rwrite np_create_rauth
      np_create_rflush np_alloc_rread np_set_rread_count
  np_wstat-Quiet tc = search (quiet, wstat_checked-Quiet) depth 20
