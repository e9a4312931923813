-- ===== src/Fcall/Session.antt =====
-- libnpfs/fcall.c: np_version, np_auth, np_attach and np_flush.
use npfs.Prelude.{
  ℕ, ◌+◌, ◌&&◌, Option, none, some, List, [], ◌∷◌, ◌==◌, ◌!=◌, ltb, if◌then◌else◌, has_bits,
  is_zero, length,
}
use npfs.Types.{Npstr, Npfcall}
use npfs.Constants.{
  eio, iohdrsz, nofid, qtauth, in_use, no_auth, unknown_fid, unknown_user, bad_use_fid,
}
use npfs.State.{Ptr, Npreq, Event, Env, M, pure, ok, fault, ◌>>=◌, ◌>>◌, set_rfid, Outcome}
use npfs.State.Mem.{load, adjust, np_fid_incref}
use npfs.State.Call.{call, call_rc, call_void}
use npfs.Werror.{np_werror, malloc}
use npfs.Fidpool.{np_fid_find, np_fid_create, np_fid_decref}
use npfs.Fcall.Reply.{fail, np_create_rauth, np_create_rflush}

-- A request of this connection with the tag, in a list of the server.
unfoldable pub find_req : Ptr → ℕ → List Npreq → Option Npreq
find_req conn tag [] = none
find_req conn tag (r ∷ rs) =
    if (r.conn == conn) && (r.tag == tag) then some r else find_req conn tag rs

unfoldable pub remove_req : Ptr → List Npreq → List Npreq
remove_req id [] = []
remove_req id (r ∷ rs) = if r.id == id then rs else r ∷ remove_req id rs

-- `creq->flushreq = req`
unfoldable pub add_flusher : Ptr → Ptr → List Npreq → List Npreq
add_flusher id req [] = []
add_flusher id req (r ∷ rs) =
    if r.id == id then record r { flushers = req ∷ r.flushers } ∷ rs else r ∷ add_flusher id req rs

-- `req->flushreq = chain`
unfoldable pub set_flushers : Ptr → List Ptr → List Npreq → List Npreq
set_flushers req chain [] = []
set_flushers req chain (r ∷ rs) =
    if r.id == req then record r { flushers = chain } ∷ rs else r ∷ set_flushers req chain rs

module _ (env : Env) where
  unfoldable pub np_version : Npfcall → M (Option Npfcall)
  np_version tc =
      if ltb tc.msize (iohdrsz + 1)
      then fail env "msize too small" eio
      else call_rc env (Event.version tc.msize tc.version)

  -- np_strdup does not test what malloc returns: it writes through NULL.
  unfoldable pub np_strdup : Npstr → M Npstr
  np_strdup str = do given ← malloc env; λ s. if given then ok str s else fault

  -- An empty attach name is NULL, which np_strdup is not called for.
  unfoldable pub dup_aname : Npstr → M Npstr
  dup_aname [] = pure []
  dup_aname (c ∷ cs) = np_strdup (c ∷ cs)

  -- The user of an auth or attach message. `uname.len && n_uname == ~0` selects the name.
  unfoldable pub find_user : Npfcall → M (Option Ptr)
  find_user tc =
      if ltb 0 (length tc.uname) && (tc.n_uname == nofid)
      then (do uname ← np_strdup tc.uname; o ← call env (Event.uname2user uname); pure o.user)
      else (do o ← call env (Event.uid2user tc.n_uname); pure o.user)

  -- `if (n) { assert(...); rc = np_create_rauth(&aqid); } else np_werror(Enoauth, EIO)`
  unfoldable pub auth_started : Outcome → M (Option Npfcall)
  auth_started o =
      if is_zero o.ret
      then fail env no_auth eio
      else if has_bits o.qid.type qtauth
      then np_create_rauth env o.qid
      else λ s. fault

  unfoldable pub start_auth : Ptr → Npstr → M (Option Npfcall)
  start_auth p aname =
      if env.has_auth && env.has_startauth
      then call env (Event.startauth p aname) >>= auth_started
      else fail env no_auth eio

  -- np_auth behind the new fid, up to `done`.
  unfoldable pub auth_as : Npfcall → Ptr → Option Ptr → M (Option Npfcall)
  auth_as tc p none = fail env unknown_user eio
  auth_as tc p (some u) = do
    aname ← dup_aname tc.aname
    adjust p (λ f. record f { user = some u; type = qtauth })
    start_auth p aname

  unfoldable pub auth_user : Npfcall → Ptr → M (Option Npfcall)
  auth_user tc p = do user ← find_user tc; auth_as tc p user

  -- `done:` of np_auth drops the reference where there is no reply.
  unfoldable pub auth_done : Option Ptr → Option Npfcall → M (Option Npfcall)
  auth_done p none = np_fid_decref env p >> pure none
  auth_done p (some rc) = pure (some rc)

  unfoldable pub auth_made : Npfcall → Option Ptr → M (Option Npfcall)
  auth_made tc none = auth_done none none
  auth_made tc (some p) = do np_fid_incref p; rc ← auth_user tc p; auth_done (some p) rc

  unfoldable pub auth_found : Npfcall → Option Ptr → M (Option Npfcall)
  auth_found tc (some p) = do np_werror env (some in_use) eio; auth_done (some p) none
  auth_found tc none = np_fid_create env tc.afid >>= auth_made tc

  unfoldable pub np_auth : Npfcall → M (Option Npfcall)
  np_auth tc = do afid ← np_fid_find tc.afid; auth_found tc afid

  -- np_attach behind its tests, and the question whether the user may attach.
  unfoldable pub attach_call : Npfcall → Ptr → Option Ptr → M (Option Npfcall)
  attach_call tc p afid = call_rc env (Event.attach p afid tc.uname tc.aname)

  unfoldable pub auth_checked : Npfcall → Ptr → Option Ptr → Outcome → M (Option Npfcall)
  auth_checked tc p afid o = if is_zero o.ret then pure none else attach_call tc p afid

  unfoldable pub check_auth : Npfcall → Ptr → Option Ptr → Npstr → M (Option Npfcall)
  check_auth tc p afid aname =
      if env.has_auth && env.has_checkauth
      then call env (Event.checkauth p afid aname) >>= auth_checked tc p afid
      else attach_call tc p afid

  unfoldable pub attach_as : Npfcall → Ptr → Option Ptr → Option Ptr → M (Option Npfcall)
  attach_as tc p afid none = fail env unknown_user eio
  attach_as tc p afid (some u) = do
    adjust p (λ f. record f { user = some u })
    aname ← dup_aname tc.aname
    check_auth tc p afid aname

  unfoldable pub attach_user : Npfcall → Ptr → Option Ptr → M (Option Npfcall)
  attach_user tc p afid = do user ← find_user tc; attach_as tc p afid user

  -- The tests on the auth fid. One that is no auth fid gets no reference here.
  unfoldable pub attach_auth : Npfcall → Ptr → Option Ptr → M (Option Npfcall)
  attach_auth tc p none =
      if tc.afid != nofid then fail env unknown_fid eio else attach_user tc p none
  attach_auth tc p (some a) = load a >>= λ f.
      if has_bits f.type qtauth
      then np_fid_incref a >> attach_user tc p (some a)
      else fail env bad_use_fid eio

  -- `done:` of np_attach gives the auth fid back.
  unfoldable pub attach_with : Npfcall → Ptr → Option Ptr → M (Option Npfcall)
  attach_with tc p afid = do rc ← attach_auth tc p afid; np_fid_decref env afid; pure rc

  unfoldable pub attach_made : Npfcall → Option Ptr → M (Option Npfcall)
  attach_made tc none = pure none
  attach_made tc (some p) = do
    np_fid_incref p
    set_rfid (some p)
    afid ← np_fid_find tc.afid
    attach_with tc p afid

  unfoldable pub attach_found : Npfcall → Option Ptr → M (Option Npfcall)
  attach_found tc (some p) = fail env in_use eio
  attach_found tc none = np_fid_create env tc.fid >>= attach_made tc

  unfoldable pub np_attach : Npfcall → M (Option Npfcall)
  np_attach tc = do fid ← np_fid_find tc.fid; attach_found tc fid

  -- A request that is worked on answers this one later, and the server is told. The references
  -- that np_flush takes it gives back itself.
  unfoldable pub flush_work : Option Npreq → M (Option Npfcall)
  flush_work none s = np_create_rflush env s
  flush_work (some r) s =
      ((if env.has_flush then call_void env (Event.flush r.id) else pure tt) >> pure none)
        (record s { workreqs = add_flusher r.id s.req (set_flushers s.req r.flushers s.workreqs) })

  -- A request that waits is dropped with no answer.
  unfoldable pub flush_waiting : Npfcall → Option Npreq → M (Option Npfcall)
  flush_waiting tc none s = flush_work (find_req s.conn tc.oldtag s.workreqs) s
  flush_waiting tc (some r) s = np_create_rflush env (record s { reqs = remove_req r.id s.reqs })

  unfoldable pub np_flush : Npfcall → M (Option Npfcall)
  np_flush tc s = flush_waiting tc (find_req s.conn tc.oldtag s.reqs) s
