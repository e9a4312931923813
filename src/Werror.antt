-- ===== src/Werror.antt =====
-- libnpfs/error.c: the error of a thread, and allocation.
pub mod Sticky
use npfs.Prelude.{ℕ, Bool, true, false, Option, none, some, String, ◌+◌, if◌then◌else◌}
use npfs.Constants.{enomem, no_memory}
use npfs.State.{Env, St, Ename, copied, ennomem, M, pure, ok, ◌>>=◌, ◌>>◌}

-- The text that np_vwerror keeps: it frees an allocated one and leaves Ennomem.
abbrev pub freed : Option Ename → Option Ename
freed none = none
freed (some (copied t)) = none
freed (some ennomem) = some ennomem

module _ (env : Env) where
  -- `malloc`: whether it succeeds. Its address is the number of the allocation.
  unfoldable pub malloc : M Bool
  malloc s = ok (env.malloc s.next) (record s { next = s.next + 1 })

  abbrev set_error : Option Ename → ℕ → M (Unit {0})
  set_error name code s = ok tt (record s { ename = name; ecode = code })

  unfoldable pub set_text : String → ℕ → Bool → M (Unit {0})
  set_text text code true = set_error (some (copied text)) code
  set_text text code false = set_error (some ennomem) enomem

  -- The thread's error record is there already.
  unfoldable pub np_werror : Option String → ℕ → M (Unit {0})
  np_werror none code s = set_error (freed s.ename) code s
  np_werror (some text) code s = (malloc >>= set_text text code) s

  unfoldable pub np_malloc : M Bool
  np_malloc = do
    given ← malloc
    if given then pure true else (np_werror (some no_memory) enomem >> pure false)

unfoldable pub np_rerror : M (Option Ename × ℕ)
np_rerror s = ok (s.ename, s.ecode) s

unfoldable pub np_haserror : M Bool
np_haserror s = ok (elim s.ename [ none ↦ false | some _ ↦ true ]) s
