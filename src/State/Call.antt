-- ===== src/State/Call.antt =====
-- A call of an operation that the file server or the user pool implements.
use npfs.Prelude.{ℕ, Option, none, some, String, List, [], ◌∷◌}
use npfs.Types.{Npfcall}
use npfs.State.{Ptr, Event, Outcome, Env, copied, M, pure, ok, ◌>>=◌, ◌>>◌}
use npfs.State.{FidOp, incref, set_omode, set_type, set_user}
use npfs.State.Mem.{adjust, np_fid_incref}

unfoldable pub apply_op : FidOp → M (Unit {0})
apply_op (incref p) = np_fid_incref p
apply_op (set_omode p v) = adjust p (λ f. record f { omode = v })
apply_op (set_type p v) = adjust p (λ f. record f { type = v })
apply_op (set_user p u) = adjust p (λ f. record f { user = u })

unfoldable pub apply_ops : List FidOp → M (Unit {0})
apply_ops [] = pure tt
apply_ops (o ∷ os) = apply_op o >> apply_ops os

-- The server sets the thread's error by np_werror, whose allocation is taken to succeed.
unfoldable pub set_outcome_error : Option (String × ℕ) → M (Unit {0})
set_outcome_error none s = ok tt s
set_outcome_error (some (text, code)) s =
    ok tt (record s { ename = some (copied text); ecode = code })

-- libnpfs/user.c counts the references of a user; a NULL user is passed over.
unfoldable pub np_user_incref : Option Ptr → M (Unit {0})
np_user_incref none s = ok tt s
np_user_incref (some u) s = ok tt (record s { trace = Event.user_incref u ∷ s.trace })

unfoldable pub np_user_decref : Option Ptr → M (Unit {0})
np_user_decref none s = ok tt s
np_user_decref (some u) s = ok tt (record s { trace = Event.user_decref u ∷ s.trace })

module _ (env : Env) where
  abbrev consult : Event → M Outcome
  consult e s = ok (env.server (e ∷ s.trace)) (record s { trace = e ∷ s.trace })

  unfoldable pub call : Event → M Outcome
  call e = do o ← consult e; apply_ops o.ops; set_outcome_error o.err; pure o

  -- An operation that returns nothing, or whose result is not used.
  unfoldable pub call_void : Event → M (Unit {0})
  call_void e = call e >>= λ _. pure tt

  -- An operation that returns a reply.
  unfoldable pub call_rc : Event → M (Option Npfcall)
  call_rc e = do o ← call e; pure o.rc
