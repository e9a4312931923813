-- ===== src/Fcall/Reply.antt =====
-- What the handlers of libnpfs/fcall.c share: their first and last steps, and the replies of
-- libnpfs/np.c that they make themselves.
use npfs.Prelude.{
  ◌==◌, ℕ, ◌+◌, Bool, false, Option, none, some, String, List, ltb, leb, if◌then◌else◌,
}
use npfs.Types.{Npqid, Npfcall, blank}
use npfs.Constants.{
  eio, unknown_fid, u32_mod, rauth, rwalk, rread, rwrite, rclunk, rflush, maxwelem,
}
use npfs.State.{Ptr, Env, M, pure, ok, fault, ◌>>=◌, ◌>>◌, set_rfid}
use npfs.State.Mem.{np_fid_incref}
use npfs.Werror.{np_werror, np_malloc}
use npfs.Fidpool.{np_fid_find}

-- The type of a reply that is there.
abbrev pub has_type : Option Npfcall → ℕ → Bool
has_type none t = false
has_type (some rc) t = rc.type == t

module _ (env : Env) where
  -- `np_werror(ename, ecode); goto done;` with no reply
  unfoldable pub fail : String → ℕ → M (Option Npfcall)
  fail text code = np_werror env (some text) code >> pure none

  -- np_create_common, for a reply that fits a packet.
  unfoldable pub create_reply : Npfcall → M (Option Npfcall)
  create_reply rc = do given ← np_malloc env; pure (if given then some rc else none)

  unfoldable pub np_create_rauth : Npqid → M (Option Npfcall)
  np_create_rauth q = create_reply (record (blank rauth) { qid = q })

  unfoldable pub np_create_rflush : M (Option Npfcall)
  np_create_rflush = create_reply (blank rflush)

  unfoldable pub np_create_rclunk : M (Option Npfcall)
  np_create_rclunk = create_reply (blank rclunk)

  unfoldable pub np_create_rwrite : ℕ → M (Option Npfcall)
  np_create_rwrite n = create_reply (record (blank rwrite) { count = n })

  unfoldable pub np_create_rwalk : ℕ → List Npqid → M (Option Npfcall)
  np_create_rwalk n qids =
      if ltb maxwelem n
      then pure none
      else create_reply (record (blank rwalk) { nwqid = n; wqids = qids })

  -- The size of the packet, 4 + 1 + 2 + 4 + count, is a u32; where it wraps the reply is NULL here. That
  -- stands also for the code's reply to a count from 2^31, which is too small for its header.
  unfoldable pub np_alloc_rread : ℕ → M (Option Npfcall)
  np_alloc_rread count = do
    rc ← create_reply (record (blank rread) { count = count })
    pure (if ltb (count + 11) u32_mod then rc else none)

  unfoldable pub np_set_rread_count : Npfcall → ℕ → M Npfcall
  np_set_rread_count rc n s = if leb n rc.count then ok (record rc { count = n }) s else fault

  -- The first steps of a handler: the fid of the message, with a reference.
  unfoldable pub found : Option Ptr → (Ptr → M (Option Npfcall)) → M (Option Npfcall)
  found none k = fail unknown_fid eio
  found (some p) k = np_fid_incref p >> k p

  unfoldable pub with_ref : ℕ → (Ptr → M (Option Npfcall)) → M (Option Npfcall)
  with_ref fid k = do p ← np_fid_find fid; found p k

  -- Most handlers record the fid in the request next.
  unfoldable pub with_fid : ℕ → (Ptr → M (Option Npfcall)) → M (Option Npfcall)
  with_fid fid k = with_ref fid (λ p. set_rfid (some p) >> k p)
