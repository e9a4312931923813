-- ===== src/Srv/Version/Sound.antt =====
-- libnpfs/srv.c: what np_default_version agrees to.
use mathlib.Core.Bool.{true≢false}
use npfs.Srv.Version.{agreed, reads_outside, too_small, unsupported}
use npfs.Prelude.{
  ℕ, Bool, Bool-cases, Option, arith, false, inl, inr, ltb, none, refl, some, sym, true, ◌<◌, ◌≡◌,
  ◌≤◌, ◌⊎◌, ap, if◌then◌else◌, leb, length, ◌∙◌, ◌≢◌,
}
use npfs.Srv.Version.{
  Choice, Version, answer_choice, answer_version, choose_linux, choose_plain, choose_unix,
  linux_dialect, np_default_version, plain, smaller_size, unix_dialect,
}
use npfs.Wire.Compare.{
  HasNoZero, is_np_strcmp_zero, is_np_strncmp_zero, is_strncmp_zero, np_strcmp-equal, is_there,
  is_true,
}
use npfs.Types.{Npfcall, Npstr}
use npfs.Constants.{iohdrsz}
use npfs.Wire.Create.Session.{np_create_rversion}

-- What a choice of a dialect rests on: the name that the client asked for, and what the server has.
pub data Offers (srv_dotu srv_dotl : Bool) (version : Npstr) : Npstr → Bool → Bool → Type 0 where
  offers_unix :
      version ≡ unix_dialect
      → srv_dotu ≡ true
      → Offers srv_dotu srv_dotl version unix_dialect true false
  offers_linux :
      version ≡ linux_dialect
      → srv_dotl ≡ true
      → Offers srv_dotu srv_dotl version linux_dialect true true
  offers_plain :
      is_strncmp_zero 6 version plain ≡ true → Offers srv_dotu srv_dotl version plain false false

plain-inside : (version : Npstr) → HasNoZero version → is_np_strncmp_zero version plain 6 ≢ none
unfolding is_np_strncmp_zero
plain-inside version ok e = elim (Bool-cases (leb 6 (length version))) [
  | inl long ↦ true≢false (
      ap is_there (
        sym (
          ap
            (λ b.
              if b then some (is_strncmp_zero 6 version plain) else is_np_strcmp_zero version plain)
            long)
        ∙ e))
  | inr short ↦ (np_strcmp-equal version plain ok).0 (
      sym (
        ap
          (λ b.
            if b then some (is_strncmp_zero 6 version plain) else is_np_strcmp_zero version plain)
          short)
      ∙ e)
]

plain-prefix :
    (version : Npstr)
    → HasNoZero version
    → is_np_strncmp_zero version plain 6 ≡ some true
    → is_strncmp_zero 6 version plain ≡ true
unfolding is_np_strncmp_zero is_strncmp_zero
plain-prefix version ok e = elim (Bool-cases (leb 6 (length version))) [
  | inl long ↦ ap is_true (
      sym (
        ap
          (λ b.
            if b then some (is_strncmp_zero 6 version plain) else is_np_strcmp_zero version plain)
          long)
      ∙ e)
  | inr short ↦
      ap (λ v. is_strncmp_zero 6 v plain)
        ((np_strcmp-equal version plain ok).1.0 (
          sym (
            ap
              (λ b.
                if b
                then some (is_strncmp_zero 6 version plain)
                else is_np_strcmp_zero version plain)
              short)
          ∙ e))
]

module _ (srv_dotu srv_dotl : Bool) (version : Npstr) where
  abbrev IsChosen : Option Choice → Type 0
  IsChosen none = ⊥
  IsChosen (some none) = Unit
  IsChosen (some (some (ver, (dotu, dotl)))) = Offers srv_dotu srv_dotl version ver dotu dotl

  plain-IsChosen :
      HasNoZero version
      → (o : Option Bool) → o ≡ is_np_strncmp_zero version plain 6
      → IsChosen (choose_plain o)
  unfolding choose_plain
  plain-IsChosen ok none e = plain-inside version ok (sym e)
  plain-IsChosen ok (some true) e = offers_plain (plain-prefix version ok (sym e))
  plain-IsChosen ok (some false) e = tt

  linux-IsChosen :
      HasNoZero version
      → (dotl : Bool) → dotl ≡ srv_dotl
      → (o : Option Bool) → o ≡ is_np_strcmp_zero version linux_dialect
      → IsChosen (choose_linux dotl version o)
  unfolding choose_linux
  linux-IsChosen ok dotl same none e = (np_strcmp-equal version linux_dialect ok).0 (sym e)
  linux-IsChosen ok true same (some true) e =
      offers_linux ((np_strcmp-equal version linux_dialect ok).1.0 (sym e)) (sym same)
  linux-IsChosen ok false same (some true) e = plain-IsChosen ok _ refl
  linux-IsChosen ok true same (some false) e = plain-IsChosen ok _ refl
  linux-IsChosen ok false same (some false) e = plain-IsChosen ok _ refl

  unix-IsChosen :
      HasNoZero version
      → (dotu : Bool) → dotu ≡ srv_dotu
      → (o : Option Bool) → o ≡ is_np_strcmp_zero version unix_dialect
      → IsChosen (choose_unix dotu srv_dotl version o)
  unfolding choose_unix
  unix-IsChosen ok dotu same none e = (np_strcmp-equal version unix_dialect ok).0 (sym e)
  unix-IsChosen ok true same (some true) e =
      offers_unix ((np_strcmp-equal version unix_dialect ok).1.0 (sym e)) (sym same)
  unix-IsChosen ok false same (some true) e = linux-IsChosen ok srv_dotl refl _ refl
  unix-IsChosen ok true same (some false) e = linux-IsChosen ok srv_dotl refl _ refl
  unix-IsChosen ok false same (some false) e = linux-IsChosen ok srv_dotl refl _ refl

  module _ (mem : Option Npfcall) (srv_msize conn_msize msize : ℕ) where
    abbrev limit : ℕ
    limit = smaller_size (smaller_size msize srv_msize) conn_msize

    -- An answer that the protocol allows.
    abbrev pub IsSound : Version → Type 0
    IsSound reads_outside = ⊥
    IsSound too_small = (msize < iohdrsz) ⊎ ((srv_msize < iohdrsz) ⊎ (conn_msize < iohdrsz))
    IsSound unsupported = Unit
    IsSound (agreed m ver dotu dotl rc) =
        ((iohdrsz ≤ m) × ((m ≤ msize) × ((m ≤ srv_msize) × (m ≤ conn_msize))))
        × (Offers srv_dotu srv_dotl version ver dotu dotl × (rc ≡ np_create_rversion mem m ver))

    limit-least : (limit ≤ msize) × ((limit ≤ srv_msize) × (limit ≤ conn_msize))
    unfolding smaller_size
    limit-least = (ground (arith), (ground (arith), ground (arith)))

    limit-small :
        ltb limit iohdrsz ≡ true
        → (msize < iohdrsz) ⊎ ((srv_msize < iohdrsz) ⊎ (conn_msize < iohdrsz))
    unfolding smaller_size
    limit-small h = ground (arith)

    limit-large : ltb limit iohdrsz ≡ false → iohdrsz ≤ limit
    limit-large h = ground arith

    choice-IsSound :
        (c : Choice) → IsChosen (some c) → iohdrsz ≤ limit → IsSound (answer_choice mem limit c)
    unfolding answer_choice
    choice-IsSound none ok le = tt
    choice-IsSound (some (ver, (dotu, dotl))) ok le = ((le, limit-least), (ok, refl))

    answer-IsSound : (o : Option Choice) → IsChosen o → IsSound (answer_version mem limit o)
    unfolding answer_version
    answer-IsSound none bad = bad
    answer-IsSound (some c) ok = elim (Bool-cases (ltb limit iohdrsz)) [
      | inl few ↦ rw few (limit-small few)
      | inr enough ↦ rw enough (choice-IsSound c ok (limit-large enough))
    ]

    -- For a version without a zero byte, np_default_version reads no name behind its end. It says
    -- that the msize is too small only where one of the three sizes is below IOHDRSZ, and where it
    -- agrees, the size is at least IOHDRSZ and at most what the client asks for and what the server
    -- and the connection have, the dialect is one that the client asked for and, beyond plain
    -- 9P2000, the server has, and the reply is made with that size and name.
    pub np_default_version-IsSound :
        HasNoZero version
        → IsSound (np_default_version mem srv_msize srv_dotu srv_dotl conn_msize msize version)
    unfolding np_default_version
    np_default_version-IsSound ok = answer-IsSound _ (unix-IsChosen ok srv_dotu refl _ refl)
