-- ===== src/Srv/Respond.antt =====
-- libnpfs/srv.c: np_respond, and a worker thread's work on one request (np_wthread_proc).
use npfs.Prelude.{
  ℕ, ◌+◌, ◌%◌, true, false, Option, none, some, List, [], ◌∷◌, ◌==◌, if◌then◌else◌, has_bits,
}
use npfs.Types.{Npfcall, blank}
use npfs.Constants.{rread, rflush, qtdir, u32_mod}
use npfs.State.{Ptr, Npreq, Event, Env, St, M, pure, ok, fault, ◌>>=◌, ◌>>◌, set_rfid, Npfid}
use npfs.State.Mem.{load, adjust}
use npfs.Fidpool.{np_fid_decref}
use npfs.Fcall.Reply.{create_reply}
use npfs.Fcall.Session.{remove_req}
use npfs.Srv.Process.{np_process_request}

-- The record of a request in a list, the requests that flush it, and a list without some requests.
unfoldable pub req_of : Ptr → List Npreq → Option Npreq
req_of id [] = none
req_of id (r ∷ rs) = if r.id == id then some r else req_of id rs

unfoldable pub flushers_of : Ptr → List Npreq → List Ptr
flushers_of id rs = elim (req_of id rs) [ none ↦ [] | some r ↦ r.flushers ]

unfoldable pub remove_reqs : List Ptr → List Npreq → List Npreq
remove_reqs [] rs = rs
remove_reqs (id ∷ ids) rs = remove_reqs ids (remove_req id rs)

-- The request leaves the queue and is the newest of the work.
abbrev pub begun : Npreq → List Npreq → St → St
begun r rs s = record s {
  req = r.id;
  tag = r.tag;
  rfid = none;
  responded = false;
  reqs = rs;
  workreqs = r ∷ s.workreqs;
}

-- np_srv_remove_req and np_srv_add_workreq of the first request, a new one, which has no fid. A
-- worker that finds no request waits and does not get here.
unfoldable pub take_request : List Npreq → M (Unit {0})
take_request [] s = fault
take_request (r ∷ rs) s = ok tt (begun r rs s)

unfoldable pub note_dir_offset : Ptr → ℕ → Npfid → M (Unit {0})
note_dir_offset p offset f =
    if has_bits f.type qtdir then adjust p (λ g. record g { diroffset = offset }) else pure tt

module _ (env : Env) where
  -- np_conn_respond: the answer goes out under the tag of its request.
  unfoldable pub np_conn_respond : ℕ → Npfcall → M (Unit {0})
  np_conn_respond tag rc s = ok tt (record s { trace = Event.send tag rc ∷ s.trace })

  -- The offset that the next read of a directory must have, a u32.
  unfoldable pub note_offset : Npfcall → Npfcall → Option Ptr → M (Unit {0})
  note_offset tc rc none = if rc.type == rread then (λ s. fault) else pure tt
  note_offset tc rc (some p) =
      if rc.type == rread
      then load p >>= note_dir_offset p ((tc.offset + rc.count) % u32_mod)
      else pure tt

  -- The reply goes out, and the request's reference to its fid is given back.
  unfoldable pub send_reply : Npfcall → Npfcall → Option Ptr → ℕ → M (Unit {0})
  send_reply tc rc fid tag = do
    note_offset tc rc fid
    np_fid_decref env fid
    set_rfid none
    np_conn_respond tag (record rc { tag = tag })

  -- A request that waited for this one, found by its id in the list as it was.
  unfoldable pub answer_flush : Option Npreq → Option Npfcall → M (Unit {0})
  answer_flush none rc s = fault
  answer_flush (some r) none s = fault
  answer_flush (some r) (some rc) s = np_conn_respond r.tag (record rc { tag = r.tag }) s

  unfoldable pub answer_flushers : List Npreq → List Ptr → M (Unit {0})
  answer_flushers all [] = pure tt
  answer_flushers all (id ∷ ids) = do
    rc ← create_reply env (blank rflush)
    answer_flush (req_of id all) rc
    answer_flushers all ids

  -- The first answer: the request and those that flush it leave the list of the work.
  unfoldable pub respond_first : Npfcall → Npfcall → M (Unit {0})
  respond_first tc rc s =
      (send_reply tc rc s.rfid s.tag >> answer_flushers s.workreqs (flushers_of s.req s.workreqs))
        (record s {
          responded = true;
          workreqs = remove_reqs (s.req ∷ flushers_of s.req s.workreqs) s.workreqs;
        })

  -- A second answer to a request is dropped.
  unfoldable pub np_respond : Npfcall → Npfcall → M (Unit {0})
  np_respond tc rc s = (if s.responded then pure tt else respond_first tc rc) s

  -- np_wthread_proc answers where the handler gave a reply. Otherwise the file server does, later.
  unfoldable pub respond_if : Npfcall → Option Npfcall → M (Unit {0})
  respond_if tc none = pure tt
  respond_if tc (some rc) = np_respond tc rc

  -- A worker's work on the first request, whose message is tc.
  unfoldable pub serve : Npfcall → M (Unit {0})
  serve tc s = (take_request s.reqs >> (np_process_request env tc >>= respond_if tc)) s
