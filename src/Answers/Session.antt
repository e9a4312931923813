-- ===== src/Answers/Session.antt =====
-- libnpfs/fcall.c: the answers of the handlers in Fcall/Session.
use npfs.Prelude.{refl, Bool, true, false, Option, none, some, List, [], ◌∷◌, if◌then◌else◌}
use npfs.Types.{Npfcall, Npstr}
use npfs.State.{Ptr, Npreq, Event, Outcome, Env, St, M}
use npfs.Fcall.Reply.{
  np_create_rwalk, np_create_rclunk, np_create_rwrite, np_create_rauth, np_create_rflush,
  np_alloc_rread, np_set_rread_count,
}
use npfs.Answers.Ends.{
  Ends-mono, answers, Ends, ends, Silent, Quiet, Quiet-pure, Quiet-bind, Quiet-then, Quiet-if,
}
use npfs.Answers.Quiet.{quiet}
use npfs.Answers.Quiet.{Quiet-malloc, Quiet-reply, Quiet-call_void}
use npfs.State.{ok, fault}
use npfs.Answers.Ends.{faults, Silent-refl}
use npfs.Fcall.Session.{
  np_version, np_strdup, dup_aname, find_user, auth_started, start_auth, auth_as, auth_user,
  auth_done, auth_made, auth_found, np_auth, attach_call, auth_checked, check_auth, attach_as,
  attach_user, attach_auth, attach_with, attach_made, attach_found, np_attach, flush_work,
  flush_waiting, np_flush,
}

module _ (env : Env) where
  pub np_version-Quiet : (tc : Npfcall) → Quiet (np_version env tc)
  unfolding np_version answers np_create_rwalk np_create_rclunk np_create_rwrite np_create_rauth
      np_create_rflush np_alloc_rread np_set_rread_count
  np_version-Quiet tc = search (quiet) depth 20

  pub np_strdup-Quiet : (w : Npstr) → Quiet (np_strdup env w)
  unfolding np_strdup
  np_strdup-Quiet w = Quiet-bind _ _ (Quiet-malloc env) (λ given. record { at = λ s. go given s })
    where
      go : (b : Bool) (s : St) → Ends {A = Npstr} (λ _ t. Silent s t) (if b then ok w s else fault)
      go true s = ends (Silent-refl s)
      go false s = faults

  pub dup_aname-Quiet : (w : Npstr) → Quiet (dup_aname env w)
  unfolding dup_aname
  dup_aname-Quiet [] = Quiet-pure []
  dup_aname-Quiet (x ∷ xs) = np_strdup-Quiet (x ∷ xs)

  pub find_user-Quiet : (tc : Npfcall) → Quiet (find_user env tc)
  unfolding find_user answers np_create_rwalk np_create_rclunk np_create_rwrite np_create_rauth
      np_create_rflush np_alloc_rread np_set_rread_count
  find_user-Quiet tc = search (quiet, np_strdup-Quiet) depth 20

  pub auth_started-Quiet : (o : Outcome) → Quiet (auth_started env o)
  unfolding auth_started answers np_create_rwalk np_create_rclunk np_create_rwrite np_create_rauth
      np_create_rflush np_alloc_rread np_set_rread_count
  auth_started-Quiet o = search quiet depth 20

  pub start_auth-Quiet : (p : Ptr) (w : Npstr) → Quiet (start_auth env p w)
  unfolding start_auth answers np_create_rwalk np_create_rclunk np_create_rwrite np_create_rauth
      np_create_rflush np_alloc_rread np_set_rread_count
  start_auth-Quiet p w = search (quiet, auth_started-Quiet) depth 20

  pub auth_as-Quiet : (tc : Npfcall) (p : Ptr) (a : Option Ptr) → Quiet (auth_as env tc p a)
  unfolding auth_as answers np_create_rwalk np_create_rclunk np_create_rwrite np_create_rauth
      np_create_rflush np_alloc_rread np_set_rread_count
  auth_as-Quiet tc p none = search quiet depth 20
  auth_as-Quiet tc p (some a) = search (quiet, dup_aname-Quiet, start_auth-Quiet) depth 20

  pub auth_user-Quiet : (tc : Npfcall) (p : Ptr) → Quiet (auth_user env tc p)
  unfolding auth_user answers np_create_rwalk np_create_rclunk np_create_rwrite np_create_rauth
      np_create_rflush np_alloc_rread np_set_rread_count
  auth_user-Quiet tc p = search (quiet, find_user-Quiet, auth_as-Quiet) depth 20

  pub auth_done-Quiet : (a : Option Ptr) (rc : Option Npfcall) → Quiet (auth_done env a rc)
  unfolding auth_done answers np_create_rwalk np_create_rclunk np_create_rwrite np_create_rauth
      np_create_rflush np_alloc_rread np_set_rread_count
  auth_done-Quiet a none = search quiet depth 20
  auth_done-Quiet a (some rc) = search quiet depth 20

  pub auth_made-Quiet : (tc : Npfcall) (a : Option Ptr) → Quiet (auth_made env tc a)
  unfolding auth_made answers np_create_rwalk np_create_rclunk np_create_rwrite np_create_rauth
      np_create_rflush np_alloc_rread np_set_rread_count
  auth_made-Quiet tc none = search (quiet, auth_done-Quiet) depth 20
  auth_made-Quiet tc (some a) = search (quiet, auth_user-Quiet, auth_done-Quiet) depth 20

  pub auth_found-Quiet : (tc : Npfcall) (a : Option Ptr) → Quiet (auth_found env tc a)
  unfolding auth_found answers np_create_rwalk np_create_rclunk np_create_rwrite np_create_rauth
      np_create_rflush np_alloc_rread np_set_rread_count
  auth_found-Quiet tc none = search (quiet, auth_made-Quiet) depth 20
  auth_found-Quiet tc (some a) = search (quiet, auth_done-Quiet) depth 20

  pub np_auth-Quiet : (tc : Npfcall) → Quiet (np_auth env tc)
  unfolding np_auth answers np_create_rwalk np_create_rclunk np_create_rwrite np_create_rauth
      np_create_rflush np_alloc_rread np_set_rread_count
  np_auth-Quiet tc = search (quiet, auth_found-Quiet) depth 20

  pub attach_call-Quiet : (tc : Npfcall) (p : Ptr) (a : Option Ptr) → Quiet (attach_call env tc p a)
  unfolding attach_call answers np_create_rwalk np_create_rclunk np_create_rwrite np_create_rauth
      np_create_rflush np_alloc_rread np_set_rread_count
  attach_call-Quiet tc p a = search quiet depth 20

  pub auth_checked-Quiet :
      (tc : Npfcall) (p : Ptr) (a : Option Ptr) (o : Outcome) → Quiet (auth_checked env tc p a o)
  unfolding auth_checked answers np_create_rwalk np_create_rclunk np_create_rwrite np_create_rauth
      np_create_rflush np_alloc_rread np_set_rread_count
  auth_checked-Quiet tc p none o = search (quiet, attach_call-Quiet) depth 20
  auth_checked-Quiet tc p (some a) o = search (quiet, attach_call-Quiet) depth 20

  pub check_auth-Quiet :
      (tc : Npfcall) (p : Ptr) (a : Option Ptr) (w : Npstr) → Quiet (check_auth env tc p a w)
  unfolding check_auth answers np_create_rwalk np_create_rclunk np_create_rwrite np_create_rauth
      np_create_rflush np_alloc_rread np_set_rread_count
  check_auth-Quiet tc p a w = search (quiet, attach_call-Quiet, auth_checked-Quiet) depth 20

  pub attach_as-Quiet :
      (tc : Npfcall) (p : Ptr) (a : Option Ptr) (a3 : Option Ptr) → Quiet (attach_as env tc p a a3)
  unfolding attach_as answers np_create_rwalk np_create_rclunk np_create_rwrite np_create_rauth
      np_create_rflush np_alloc_rread np_set_rread_count
  attach_as-Quiet tc p a none = search quiet depth 20
  attach_as-Quiet tc p a (some a3) = search (quiet, dup_aname-Quiet, check_auth-Quiet) depth 20

  pub attach_user-Quiet : (tc : Npfcall) (p : Ptr) (a : Option Ptr) → Quiet (attach_user env tc p a)
  unfolding attach_user answers np_create_rwalk np_create_rclunk np_create_rwrite np_create_rauth
      np_create_rflush np_alloc_rread np_set_rread_count
  attach_user-Quiet tc p a = search (quiet, find_user-Quiet, attach_as-Quiet) depth 20

  pub attach_auth-Quiet : (tc : Npfcall) (p : Ptr) (a : Option Ptr) → Quiet (attach_auth env tc p a)
  unfolding attach_auth answers np_create_rwalk np_create_rclunk np_create_rwrite np_create_rauth
      np_create_rflush np_alloc_rread np_set_rread_count
  attach_auth-Quiet tc p none = search (quiet, attach_user-Quiet) depth 20
  attach_auth-Quiet tc p (some a) = search (quiet, attach_user-Quiet) depth 20

  pub attach_with-Quiet : (tc : Npfcall) (p : Ptr) (a : Option Ptr) → Quiet (attach_with env tc p a)
  unfolding attach_with answers np_create_rwalk np_create_rclunk np_create_rwrite np_create_rauth
      np_create_rflush np_alloc_rread np_set_rread_count
  attach_with-Quiet tc p a = search (quiet, attach_auth-Quiet) depth 20

  pub attach_made-Quiet : (tc : Npfcall) (a : Option Ptr) → Quiet (attach_made env tc a)
  unfolding attach_made answers np_create_rwalk np_create_rclunk np_create_rwrite np_create_rauth
      np_create_rflush np_alloc_rread np_set_rread_count
  attach_made-Quiet tc none = search quiet depth 20
  attach_made-Quiet tc (some a) = search (quiet, attach_with-Quiet) depth 20

  pub attach_found-Quiet : (tc : Npfcall) (a : Option Ptr) → Quiet (attach_found env tc a)
  unfolding attach_found answers np_create_rwalk np_create_rclunk np_create_rwrite np_create_rauth
      np_create_rflush np_alloc_rread np_set_rread_count
  attach_found-Quiet tc none = search (quiet, attach_made-Quiet) depth 20
  attach_found-Quiet tc (some a) = search quiet depth 20

  pub np_attach-Quiet : (tc : Npfcall) → Quiet (np_attach env tc)
  unfolding np_attach answers np_create_rwalk np_create_rclunk np_create_rwrite np_create_rauth
      np_create_rflush np_alloc_rread np_set_rread_count
  np_attach-Quiet tc = search (quiet, attach_found-Quiet) depth 20

  -- A change of the request lists is silent.
  on_lists :
      {A : Type 0} (m : M A) (rs ws : List Npreq) (s : St)
      → Quiet m
      → Ends (λ _ t. Silent s t) (m (record s { reqs = rs; workreqs = ws }))
  on_lists m rs ws s h =
      Ends-mono (h.at (record s { reqs = rs; workreqs = ws }))
        (λ _ t x. record { answers = x.answers; tag = x.tag; responded = x.responded })

  pub flush_work-Quiet : (r : Option Npreq) → Quiet (flush_work env r)
  unfolding flush_work np_create_rflush answers
  flush_work-Quiet none = record { at = λ s. (Quiet-reply env _).at s }
  flush_work-Quiet (some r) = record {
    at = λ s. on_lists _ s.reqs _ s (
        Quiet-then _ _
          (Quiet-if env.has_flush _ _ (Quiet-call_void env (Event.flush r.id) (λ es. refl))
            (Quiet-pure tt))
          (Quiet-pure none));
  }

  pub flush_waiting-Quiet : (tc : Npfcall) (r : Option Npreq) → Quiet (flush_waiting env tc r)
  unfolding flush_waiting np_create_rflush
  flush_waiting-Quiet tc none = record { at = λ s. (flush_work-Quiet _).at s }
  flush_waiting-Quiet tc (some r) = record {
    at = λ s. on_lists _ _ s.workreqs s (Quiet-reply env _);
  }

  pub np_flush-Quiet : (tc : Npfcall) → Quiet (np_flush env tc)
  unfolding np_flush
  np_flush-Quiet tc = record { at = λ s. (flush_waiting-Quiet tc _).at s }
