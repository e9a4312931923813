-- ===== src/Wire/Create/Session.antt =====
-- libnpfs/np.c: the functions that make the messages of a session: version, auth, error, flush, attach and walk.
use npfs.Prelude.{
  ℕ, Bool, List, Option, [], if◌then◌else◌, length, ltb, none, pass, ◌*◌, ◌++◌, ◌+◌, ◌∷◌, ◌⨾◌,
}
use npfs.Types.{Npstr, Npqid, Npfcall, zero_qid}
use npfs.Wire.Create.{Packet, np_create_common, made}
use npfs.Wire.Put.{
  Fill, buf_put_int16, buf_put_int32, buf_put_qid, buf_put_str, put_data, set_fields,
}
use npfs.Constants.{
  maxwelem, rattach, rauth, rerror, rflush, rversion, rwalk, tattach, tauth, tflush, tversion,
  twalk,
}

unfoldable pub np_create_tversion : Option Npfcall → ℕ → Npstr → Option Packet
np_create_tversion mem msize version =
    made (np_create_common mem (4 + 2 + length version) tversion) (
      buf_put_int32 msize (λ fc. record fc { msize = msize })
      ⨾ buf_put_str version (λ fc. record fc { version = version }))

unfoldable pub np_create_rversion : Option Npfcall → ℕ → Npstr → Option Packet
np_create_rversion mem msize version =
    made (np_create_common mem (4 + 2 + length version) rversion) (
      buf_put_int32 msize (λ fc. record fc { msize = msize })
      ⨾ buf_put_str version (λ fc. record fc { version = version }))

unfoldable pub np_create_tauth : Option Npfcall → ℕ → Npstr → Npstr → ℕ → Bool → Option Packet
np_create_tauth mem fid uname aname n_uname dotu =
    made (np_create_common mem (4 + 2 + 2 + length uname + length aname) tauth) (
      buf_put_int32 fid (λ fc. record fc { fid = fid })
      ⨾ buf_put_str uname (λ fc. record fc { uname = uname })
      ⨾ buf_put_str aname (λ fc. record fc { aname = aname })
      ⨾ (if dotu then buf_put_int32 n_uname (λ fc. record fc { n_uname = n_uname }) else pass))

unfoldable pub np_create_rauth : Option Npfcall → Npqid → Option Packet
np_create_rauth mem qid =
    made (np_create_common mem (13) rauth) (buf_put_qid qid (λ g fc. record fc { qid = g fc.qid }))

unfoldable pub np_create_rerror : Option Npfcall → Npstr → ℕ → Bool → Option Packet
np_create_rerror mem ename ecode dotu =
    made (np_create_common mem (2 + length ename + (if dotu then 4 else 0)) rerror) (
      buf_put_str ename (λ fc. record fc { ename = ename })
      ⨾ (if dotu then buf_put_int32 ecode (λ fc. record fc { ecode = ecode }) else pass))

unfoldable pub np_create_tflush : Option Npfcall → ℕ → Option Packet
np_create_tflush mem oldtag =
    made (np_create_common mem (2) tflush)
      (buf_put_int16 oldtag (λ fc. record fc { oldtag = oldtag }))

unfoldable pub np_create_rflush : Option Npfcall → Option Packet
np_create_rflush mem = made (np_create_common mem (0) rflush) (pass)

unfoldable pub np_create_tattach : Option Npfcall → ℕ → ℕ → Npstr → Npstr → ℕ → Bool → Option Packet
np_create_tattach mem fid afid uname aname n_uname dotu =
    made
      (np_create_common mem (4 + 4 + 2 + 2 + length uname + length aname + (if dotu then 4 else 0))
        tattach)
      (buf_put_int32 fid (λ fc. record fc { fid = fid })
        ⨾ buf_put_int32 afid (λ fc. record fc { afid = afid })
        ⨾ buf_put_str uname (λ fc. record fc { uname = uname })
        ⨾ buf_put_str aname (λ fc. record fc { aname = aname })
        ⨾ (if dotu then buf_put_int32 n_uname (λ fc. record fc { n_uname = n_uname }) else pass))

unfoldable pub np_create_rattach : Option Npfcall → Npqid → Option Packet
np_create_rattach mem qid =
    made (np_create_common mem (13) rattach)
      (buf_put_qid qid (λ g fc. record fc { qid = g fc.qid }))

-- The caller's array has nwname entries; the entries of fc->wnames up to nwname make the list.
unfoldable pub put_wnames : List Npstr → Fill Npfcall
put_wnames [] = pass
put_wnames (s ∷ ss) =
    buf_put_str s (λ fc. record fc { wnames = fc.wnames ++ (s ∷ []) }) ⨾ put_wnames ss

unfoldable pub names_length : List Npstr → ℕ
names_length [] = 0
names_length (s ∷ ss) = length s + names_length ss

unfoldable pub np_create_twalk : Option Npfcall → ℕ → ℕ → List Npstr → Option Packet
np_create_twalk mem fid newfid names =
    if ltb maxwelem (length names)
    then none
    else made (np_create_common mem (4 + 4 + 2 + length names * 2 + names_length names) twalk) (
        buf_put_int32 fid (λ fc. record fc { fid = fid })
        ⨾ buf_put_int32 newfid (λ fc. record fc { newfid = newfid })
        ⨾ buf_put_int16 (length names) (λ fc. record fc { nwname = length names; wnames = [] })
        ⨾ put_wnames names)

-- A change of the last entry.
unfoldable pub at_last : (Npqid → Npqid) → List Npqid → List Npqid
at_last g [] = []
at_last g (q ∷ []) = g q ∷ []
at_last g (q ∷ (p ∷ qs)) = q ∷ at_last g (p ∷ qs)

-- The next entry of the array comes into use, and its fields are set as they are put.
unfoldable pub put_wqids : List Npqid → Fill Npfcall
put_wqids [] = pass
put_wqids (q ∷ qs) =
    set_fields (λ fc. record fc { wqids = fc.wqids ++ (zero_qid ∷ []) })
    ⨾ buf_put_qid q (λ g fc. record fc { wqids = at_last g fc.wqids })
    ⨾ put_wqids qs

-- nwqid is not negative.
unfoldable pub np_create_rwalk : Option Npfcall → List Npqid → Option Packet
np_create_rwalk mem qids =
    if ltb maxwelem (length qids)
    then none
    else made (np_create_common mem (2 + length qids * 13) rwalk) (
        buf_put_int16 (length qids) (λ fc. record fc { nwqid = length qids; wqids = [] })
        ⨾ put_wqids qids)

-- The length of the string is not written.
unfoldable pub np_create_rerror1 : Option Npfcall → Npstr → ℕ → Bool → Option Packet
np_create_rerror1 mem ename ecode dotu =
    made (np_create_common mem (2 + length ename + (if dotu then 4 else 0)) rerror) (
      put_data ename (λ fc. record fc { ename = ename })
      ⨾ (if dotu then buf_put_int32 ecode (λ fc. record fc { ecode = ecode }) else (pass)))
