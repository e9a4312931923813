-- ===== src/Srv/Process.antt =====
-- libnpfs/srv.c: np_process_request.
use npfs.Prelude.{
  ℕ, ◌-◌, ◌/◌, Bool, ◌||◌, Option, none, some, [], ◌∷◌, ltb, if◌then◌else◌, get_elem?,
}
use Prim.Native.Char.{code}
use Prim.Native.String.{String}
use npfs.Types.{Npstr, Npfcall, blank}
use npfs.Constants.{tfirst, rlast, rlerror, rerror, enosys, no_memory}
use npfs.State.{Ename, copied, ennomem, Env, M, pure, ok, fault, ◌>>=◌, ◌>>◌}
use npfs.Werror.{np_werror, np_rerror}
use npfs.Fcall.Reply.{create_reply}
use npfs.Srv.Table.{Handler, np_fcalls, handle}

-- The bytes of a text.
unfoldable pub text_bytes : String → Npstr
text_bytes String.[] = []
text_bytes (String.◌∷◌ c s) = code c ∷ text_bytes s

unfoldable pub ename_bytes : Ename → Npstr
ename_bytes (copied t) = text_bytes t
ename_bytes ennomem = text_bytes no_memory

-- The entry of the table for a message type.
unfoldable pub lookup_handler : ℕ → Option (Option Handler)
lookup_handler type =
    if ltb type tfirst || ltb rlast type
    then some none
    else get_elem? np_fcalls ((type - tfirst) / 2)

module _ (env : Env) where
  -- `f`: none is NULL, and what stands behind the table is a fault.
  unfoldable pub run_handler : Option (Option Handler) → Npfcall → M (Option Npfcall)
  run_handler none tc = λ s. fault
  run_handler (some none) tc = np_werror env (some "unsupported message") enosys >> pure none
  run_handler (some (some h)) tc = handle env h tc

  unfoldable pub first_error : ℕ → M (Unit {0})
  first_error type =
      if ltb type tfirst || ltb rlast type
      then np_werror env (some "unknown message type") enosys
      else pure tt

  unfoldable pub np_create_rlerror : ℕ → M (Option Npfcall)
  np_create_rlerror code = create_reply env (record (blank rlerror) { ecode = code })

  unfoldable pub np_create_rerror : Npstr → ℕ → Bool → M (Option Npfcall)
  np_create_rerror name code dotu =
      create_reply env (record (blank rerror) { ename = name; ecode = if dotu then code else 0 })

  -- An error of the thread replaces the reply.
  unfoldable pub answer_error : Option Npfcall → Option Ename × ℕ → M (Option Npfcall)
  answer_error rc (none, errno) s = ok rc s
  answer_error rc (some name, errno) s =
      (if s.dotl then np_create_rlerror errno else np_create_rerror (ename_bytes name) errno s.dotu)
        s

  unfoldable pub np_process_request : Npfcall → M (Option Npfcall)
  np_process_request tc = do
    first_error tc.type
    np_werror env none 0
    rc ← run_handler (lookup_handler tc.type) tc
    e ← np_rerror
    answer_error rc e
