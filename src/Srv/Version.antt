-- ===== src/Srv/Version.antt =====
-- libnpfs/srv.c: np_default_version, which answers a version message.
pub mod Sound
use npfs.Prelude.{
  ℕ, Bool, Option, [], false, if◌then◌else◌, ltb, none, some, true, ◌&&◌, ◌++◌, ◌∷◌, ◌≡◌,
}
use npfs.Types.{Npfcall, Npstr}
use npfs.Wire.Create.{Packet}
use npfs.Constants.{iohdrsz}
use npfs.Wire.Compare.{is_np_strcmp_zero, is_np_strncmp_zero, is_strncmp_zero}
use npfs.Wire.Create.Session.{np_create_rversion}

-- "9P2000", "9P2000.u" and "9P2000.L"
abbrev pub plain : Npstr
plain = 0x39 ∷ (0x50 ∷ (0x32 ∷ (0x30 ∷ (0x30 ∷ (0x30 ∷ [])))))

abbrev pub unix_dialect : Npstr
unix_dialect = plain ++ (0x2e ∷ (0x75 ∷ []))

abbrev pub linux_dialect : Npstr
linux_dialect = plain ++ (0x2e ∷ (0x4c ∷ []))

-- The name of the reply, dotu and dotl; or no dialect.
abbrev pub Choice : Type 0
Choice = Option (Npstr × (Bool × Bool))

unfoldable pub choose_plain : Option Bool → Option Choice
choose_plain none = none
choose_plain (some true) = some (some (plain, (false, false)))
choose_plain (some false) = some none

unfoldable pub choose_linux : Bool → Npstr → Option Bool → Option Choice
choose_linux srv_dotl version none = none
choose_linux srv_dotl version (some same) =
    if same && srv_dotl
    then some (some (linux_dialect, (true, true)))
    else choose_plain (is_np_strncmp_zero version plain 6)

unfoldable pub choose_unix : Bool → Bool → Npstr → Option Bool → Option Choice
choose_unix srv_dotu srv_dotl version none = none
choose_unix srv_dotu srv_dotl version (some same) =
    if same && srv_dotu
    then some (some (unix_dialect, (true, false)))
    else choose_linux srv_dotl version (is_np_strcmp_zero version linux_dialect)

-- A read behind the end of a name; an error; or a reset of the connection to the msize and the
-- dialect, with the reply.
pub data Version : Type 0 where
  reads_outside : Version
  too_small : Version
  unsupported : Version
  agreed : ℕ → Npstr → Bool → Bool → Option Packet → Version

unfoldable pub smaller_size : ℕ → ℕ → ℕ
smaller_size msize limit = if ltb limit msize then limit else msize

unfoldable pub answer_choice : Option Npfcall → ℕ → Choice → Version
answer_choice mem msize none = unsupported
answer_choice mem msize (some (ver, (dotu, dotl))) =
    agreed msize ver dotu dotl (np_create_rversion mem msize ver)

unfoldable pub answer_version : Option Npfcall → ℕ → Option Choice → Version
answer_version mem msize none = reads_outside
answer_version mem msize (some choice) =
    if ltb msize iohdrsz then too_small else answer_choice mem msize choice

unfoldable pub np_default_version : Option Npfcall → ℕ → Bool → Bool → ℕ → ℕ → Npstr → Version
np_default_version mem srv_msize srv_dotu srv_dotl conn_msize msize version =
    answer_version mem (smaller_size (smaller_size msize srv_msize) conn_msize)
      (choose_unix srv_dotu srv_dotl version (is_np_strcmp_zero version unix_dialect))
