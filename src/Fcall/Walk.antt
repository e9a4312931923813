-- ===== src/Fcall/Walk.antt =====
-- libnpfs/fcall.c: np_walk and np_xattrwalk, which make a fid from another.
use npfs.Prelude.{
  Bool, ◌&&◌, not, Option, none, some, List, [], ◌∷◌, ◌==◌, ◌!=◌, ltb, if◌then◌else◌, has_bits,
  is_zero, length, take,
}
use npfs.Types.{Npstr, Npqid, Npfcall}
use npfs.Constants.{
  eio, enomem, maxwelem, qtdir, ftxattr, onotopen, rxattrwalk, in_use, no_memory, bad_use_fid,
  too_many_wnames,
}
use npfs.State.{Ptr, Npfid, Event, Outcome, Env, M, pure, ◌>>=◌, ◌>>◌}
use npfs.State.Mem.{load, adjust, np_fid_incref}
use npfs.State.Call.{call, call_rc, np_user_incref}
use npfs.Werror.{np_werror}
use npfs.Fidpool.{np_fid_find, np_fid_create, np_fid_decref}
use npfs.Fcall.Reply.{fail, with_fid, has_type, np_create_rwalk}

module _ (env : Env) where
  -- `np_fid_decref(newfid); return rc;`
  unfoldable pub walk_done : Option Ptr → Option Npfcall → M (Option Npfcall)
  walk_done q rc = np_fid_decref env q >> pure rc

  -- One round of the loop of np_walk behind the call. `rest` is the loop's next rounds.
  unfoldable pub walk_next : Bool → M (List Npqid) → Npqid → M (List Npqid)
  walk_next more rest qid =
      if more && not (has_bits qid.type qtdir)
      then pure (qid ∷ [])
      else rest >>= λ qids. pure (qid ∷ qids)

  unfoldable pub walk_step : Ptr → Bool → M (List Npqid) → Outcome → M (List Npqid)
  walk_step q more rest o =
      if is_zero o.ret
      then pure []
      else adjust q (λ f. record f { type = o.qid.type }) >> walk_next more rest o.qid

  -- The loop of np_walk: the qids of the names that it walked.
  unfoldable pub walk_names : Ptr → List Npstr → M (List Npqid)
  walk_names q [] = pure []
  walk_names q (w ∷ ws) =
      call env (Event.walk q w) >>= walk_step q (ltb 0 (length ws)) (walk_names q ws)

  -- np_walk behind its loop.
  unfoldable pub walk_reply : Npfcall → Ptr → List Npqid → M (Option Npfcall)
  walk_reply tc q qids = do
    np_werror env none 0
    if (tc.fid != tc.newfid) && (length qids == tc.nwname) then np_fid_incref q else pure tt
    rc ← np_create_rwalk env (length qids) qids
    walk_done (some q) rc

  unfoldable pub walk_end : Npfcall → Ptr → List Npqid → M (Option Npfcall)
  walk_end tc q qids =
      if (length qids == 0) && (tc.nwname != 0)
      then walk_done (some q) none
      else walk_reply tc q qids

  unfoldable pub walk_from : Npfcall → Ptr → M (Option Npfcall)
  walk_from tc q = do
    np_fid_incref q
    qids ← walk_names q (take tc.nwname tc.wnames)
    walk_end tc q qids

  -- The new fid gets the user and the type of the fid that it was cloned from.
  unfoldable pub walk_share : Npfcall → Ptr → Ptr → M (Option Npfcall)
  walk_share tc p q = do
    f ← load p
    np_user_incref f.user
    adjust q (λ g. record g { user = f.user; type = f.type })
    walk_from tc q

  -- The new fid behind the file server's clone.
  unfoldable pub walk_cloned : Npfcall → Ptr → Ptr → Outcome → M (Option Npfcall)
  walk_cloned tc p q o = if is_zero o.ret then walk_done (some q) none else walk_share tc p q

  unfoldable pub walk_made : Npfcall → Ptr → Option Ptr → M (Option Npfcall)
  walk_made tc p none = fail env no_memory enomem
  walk_made tc p (some q) = call env (Event.clone p q) >>= walk_cloned tc p q

  unfoldable pub walk_found : Npfcall → Ptr → Option Ptr → M (Option Npfcall)
  walk_found tc p (some q) = do np_werror env (some in_use) eio; walk_done (some q) none
  walk_found tc p none = np_fid_create env tc.newfid >>= walk_made tc p

  unfoldable pub walk_checked : Npfcall → Ptr → Npfid → M (Option Npfcall)
  walk_checked tc p f =
      if f.omode != onotopen
      then fail env bad_use_fid eio
      else if ltb maxwelem tc.nwname
      then fail env too_many_wnames eio
      else if tc.fid != tc.newfid
      then np_fid_find tc.newfid >>= walk_found tc p
      else walk_from tc p

  unfoldable pub np_walk : Npfcall → M (Option Npfcall)
  np_walk tc = with_fid env tc.fid λ p. load p >>= walk_checked tc p

  unfoldable pub xattrwalk_asked : Npfcall → Ptr → Ptr → M (Option Npfcall)
  xattrwalk_asked tc p q = do
    rc ← call_rc env (Event.xattrwalk p q tc.name)
    if has_type rc rxattrwalk then adjust q (λ g. record g { type = ftxattr }) else pure tt
    np_fid_decref env (some q)
    pure rc

  unfoldable pub np_xattrwalk_new : Npfcall → Ptr → Ptr → M (Option Npfcall)
  np_xattrwalk_new tc p q = do
    f ← load p
    np_user_incref f.user
    adjust q (λ g. record g { user = f.user })
    np_fid_incref q
    xattrwalk_asked tc p q

  unfoldable pub xattrwalk_made : Npfcall → Ptr → Option Ptr → M (Option Npfcall)
  xattrwalk_made tc p none = fail env no_memory enomem
  xattrwalk_made tc p (some q) = np_xattrwalk_new tc p q

  unfoldable pub xattrwalk_found : Npfcall → Ptr → Option Ptr → M (Option Npfcall)
  xattrwalk_found tc p (some q) = fail env in_use eio
  xattrwalk_found tc p none = np_fid_create env tc.newfid >>= xattrwalk_made tc p

  unfoldable pub np_xattrwalk : Npfcall → M (Option Npfcall)
  np_xattrwalk tc = with_fid env tc.fid λ p. np_fid_find tc.newfid >>= xattrwalk_found tc p
