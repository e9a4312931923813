-- ===== src/Answers/Walk.antt =====
-- libnpfs/fcall.c: the answers of the handlers in Fcall/Walk.
use npfs.Prelude.{refl, Bool, Option, none, some, List, [], ◌∷◌}
use npfs.Types.{Npfcall, Npqid, Npstr}
use npfs.State.{Ptr, Npfid, Event, Outcome, Env, M}
use npfs.Fcall.Reply.{
  np_create_rwalk, np_create_rclunk, np_create_rwrite, np_create_rauth, np_create_rflush,
  np_alloc_rread, np_set_rread_count,
}
use npfs.Answers.Ends.{answers, Quiet, Quiet-pure, Quiet-bind}
use npfs.Answers.Quiet.{quiet}
use npfs.Answers.Quiet.{Quiet-call}
use npfs.Fcall.Walk.{
  walk_done, walk_next, walk_step, walk_names, walk_reply, walk_end, walk_from, walk_share,
  walk_cloned, walk_made, walk_found, walk_checked, np_walk, xattrwalk_asked, np_xattrwalk_new,
  xattrwalk_made, xattrwalk_found, np_xattrwalk,
}

module _ (env : Env) where
  pub walk_done-Quiet : (a : Option Ptr) (rc : Option Npfcall) → Quiet (walk_done env a rc)
  unfolding walk_done answers np_create_rwalk np_create_rclunk np_create_rwrite np_create_rauth
      np_create_rflush np_alloc_rread np_set_rread_count
  walk_done-Quiet a rc = search (quiet) depth 20

  pub walk_next-Quiet :
      (b : Bool) (k : M (List Npqid)) (q : Npqid) → Quiet k → Quiet (walk_next env b k q)
  unfolding walk_next answers np_create_rwalk np_create_rclunk np_create_rwrite np_create_rauth
      np_create_rflush np_alloc_rread np_set_rread_count
  walk_next-Quiet b k q h0 = search quiet depth 20

  pub walk_step-Quiet :
      (p : Ptr) (b : Bool) (k : M (List Npqid)) (o : Outcome)
      → Quiet k
      → Quiet (walk_step env p b k o)
  unfolding walk_step answers np_create_rwalk np_create_rclunk np_create_rwrite np_create_rauth
      np_create_rflush np_alloc_rread np_set_rread_count
  walk_step-Quiet p b k o h0 = search (quiet, walk_next-Quiet) depth 20

  pub walk_names-Quiet : (p : Ptr) (ws : List Npstr) → Quiet (walk_names env p ws)
  unfolding walk_names answers
  walk_names-Quiet p [] = Quiet-pure []
  walk_names-Quiet p (w ∷ ws) =
      Quiet-bind _ _ (Quiet-call env (Event.walk p w) (λ es. refl))
        (λ o. walk_step-Quiet p _ _ o (walk_names-Quiet p ws))

  pub walk_reply-Quiet : (tc : Npfcall) (p : Ptr) (qs : List Npqid) → Quiet (walk_reply env tc p qs)
  unfolding walk_reply answers np_create_rwalk np_create_rclunk np_create_rwrite np_create_rauth
      np_create_rflush np_alloc_rread np_set_rread_count
  walk_reply-Quiet tc p qs = search (quiet, walk_done-Quiet) depth 20

  pub walk_end-Quiet : (tc : Npfcall) (p : Ptr) (qs : List Npqid) → Quiet (walk_end env tc p qs)
  unfolding walk_end answers np_create_rwalk np_create_rclunk np_create_rwrite np_create_rauth
      np_create_rflush np_alloc_rread np_set_rread_count
  walk_end-Quiet tc p qs = search (quiet, walk_done-Quiet, walk_reply-Quiet) depth 20

  pub walk_from-Quiet : (tc : Npfcall) (p : Ptr) → Quiet (walk_from env tc p)
  unfolding walk_from answers np_create_rwalk np_create_rclunk np_create_rwrite np_create_rauth
      np_create_rflush np_alloc_rread np_set_rread_count
  walk_from-Quiet tc p = search (quiet, walk_names-Quiet, walk_end-Quiet) depth 20

  pub walk_share-Quiet : (tc : Npfcall) (p : Ptr) (p2 : Ptr) → Quiet (walk_share env tc p p2)
  unfolding walk_share answers np_create_rwalk np_create_rclunk np_create_rwrite np_create_rauth
      np_create_rflush np_alloc_rread np_set_rread_count
  walk_share-Quiet tc p p2 = search (quiet, walk_from-Quiet) depth 20

  pub walk_cloned-Quiet :
      (tc : Npfcall) (p : Ptr) (p2 : Ptr) (o : Outcome) → Quiet (walk_cloned env tc p p2 o)
  unfolding walk_cloned answers np_create_rwalk np_create_rclunk np_create_rwrite np_create_rauth
      np_create_rflush np_alloc_rread np_set_rread_count
  walk_cloned-Quiet tc p p2 o = search (quiet, walk_done-Quiet, walk_share-Quiet) depth 20

  pub walk_made-Quiet : (tc : Npfcall) (p : Ptr) (a : Option Ptr) → Quiet (walk_made env tc p a)
  unfolding walk_made answers np_create_rwalk np_create_rclunk np_create_rwrite np_create_rauth
      np_create_rflush np_alloc_rread np_set_rread_count
  walk_made-Quiet tc p none = search quiet depth 20
  walk_made-Quiet tc p (some a) = search (quiet, walk_cloned-Quiet) depth 20

  pub walk_found-Quiet : (tc : Npfcall) (p : Ptr) (a : Option Ptr) → Quiet (walk_found env tc p a)
  unfolding walk_found answers np_create_rwalk np_create_rclunk np_create_rwrite np_create_rauth
      np_create_rflush np_alloc_rread np_set_rread_count
  walk_found-Quiet tc p none = search (quiet, walk_made-Quiet) depth 20
  walk_found-Quiet tc p (some a) = search (quiet, walk_done-Quiet) depth 20

  pub walk_checked-Quiet : (tc : Npfcall) (p : Ptr) (f : Npfid) → Quiet (walk_checked env tc p f)
  unfolding walk_checked answers np_create_rwalk np_create_rclunk np_create_rwrite np_create_rauth
      np_create_rflush np_alloc_rread np_set_rread_count
  walk_checked-Quiet tc p f = search (quiet, walk_from-Quiet, walk_found-Quiet) depth 20

  pub np_walk-Quiet : (tc : Npfcall) → Quiet (np_walk env tc)
  unfolding np_walk answers np_create_rwalk np_create_rclunk np_create_rwrite np_create_rauth
      np_create_rflush np_alloc_rread np_set_rread_count
  np_walk-Quiet tc = search (quiet, walk_checked-Quiet) depth 20

  pub xattrwalk_asked-Quiet :
      (tc : Npfcall) (p : Ptr) (p2 : Ptr) → Quiet (xattrwalk_asked env tc p p2)
  unfolding xattrwalk_asked answers np_create_rwalk np_create_rclunk np_create_rwrite
      np_create_rauth np_create_rflush np_alloc_rread np_set_rread_count
  xattrwalk_asked-Quiet tc p p2 = search quiet depth 20

  pub np_xattrwalk_new-Quiet :
      (tc : Npfcall) (p : Ptr) (p2 : Ptr) → Quiet (np_xattrwalk_new env tc p p2)
  unfolding np_xattrwalk_new answers np_create_rwalk np_create_rclunk np_create_rwrite
      np_create_rauth np_create_rflush np_alloc_rread np_set_rread_count
  np_xattrwalk_new-Quiet tc p p2 = search (quiet, xattrwalk_asked-Quiet) depth 20

  pub xattrwalk_made-Quiet :
      (tc : Npfcall) (p : Ptr) (a : Option Ptr) → Quiet (xattrwalk_made env tc p a)
  unfolding xattrwalk_made answers np_create_rwalk np_create_rclunk np_create_rwrite np_create_rauth
      np_create_rflush np_alloc_rread np_set_rread_count
  xattrwalk_made-Quiet tc p none = search quiet depth 20
  xattrwalk_made-Quiet tc p (some a) = search (quiet, np_xattrwalk_new-Quiet) depth 20

  pub xattrwalk_found-Quiet :
      (tc : Npfcall) (p : Ptr) (a : Option Ptr) → Quiet (xattrwalk_found env tc p a)
  unfolding xattrwalk_found answers np_create_rwalk np_create_rclunk np_create_rwrite
      np_create_rauth np_create_rflush np_alloc_rread np_set_rread_count
  xattrwalk_found-Quiet tc p none = search (quiet, xattrwalk_made-Quiet) depth 20
  xattrwalk_found-Quiet tc p (some a) = search quiet depth 20

  pub np_xattrwalk-Quiet : (tc : Npfcall) → Quiet (np_xattrwalk env tc)
  unfolding np_xattrwalk answers np_create_rwalk np_create_rclunk np_create_rwrite np_create_rauth
      np_create_rflush np_alloc_rread np_set_rread_count
  np_xattrwalk-Quiet tc = search (quiet, xattrwalk_found-Quiet) depth 20
