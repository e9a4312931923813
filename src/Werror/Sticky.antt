-- ===== src/Werror/Sticky.antt =====
-- libnpfs/error.c: what np_haserror says after np_werror.
use npfs.Prelude.{◌+◌, ℕ, ◌≡◌, refl, Bool, true, false, Option, none, some, String}
use npfs.State.{Env, St, Ename, copied, ennomem, ◌>>◌}
use npfs.State.Returns.{Returns, returns}
use npfs.Werror.{freed, malloc, set_text, np_werror, np_haserror}

-- A text is an error, and no text clears one, unless it is Ennomem, the text that is not allocated.
abbrev pub error_after : Option String → Option Ename → Bool
error_after (some text) old = true
error_after none none = false
error_after none (some (copied t)) = false
error_after none (some ennomem) = true

-- After np_werror, np_haserror is true where a text was given, whether memory runs out or not, and
-- where none was given but the error was Ennomem; it is false in the other cases.
pub np_werror-np_haserror :
    (env : Env) (name : Option String) (code : ℕ) (s : St)
    → Returns (λ b _. b ≡ error_after name s.ename) ((np_werror env name code >> np_haserror) s)
unfolding np_werror np_haserror malloc set_text
np_werror-np_haserror env (some text) code s = texted (env.malloc s.next)
  where
    texted :
        (b : Bool)
        → Returns
            (λ r _. r ≡ true)
            ((set_text env text code b >> np_haserror) (record s { next = s.next + 1 }))
    texted true = returns refl
    texted false = returns refl
np_werror-np_haserror env none code s = returns (cleared s.ename)
  where
    cleared :
        (e : Option Ename) → elim (freed e) [ none ↦ false | some _ ↦ true ] ≡ error_after none e
    cleared none = refl
    cleared (some (copied text)) = refl
    cleared (some ennomem) = refl
