-- ===== src/Wire/Scan/Session.antt =====
-- libnpfs/np.c: the cases of np_deserialize for the messages of a session: version, auth, error, flush, attach and walk.
use npfs.Prelude.{ℕ, Bool, List, Option, [], if◌then◌else◌, ltb, none, some, suc, zero, ◌∷◌, ◌⨾◌}
use npfs.Types.{Npfcall, Npqid, Npstr, zero_qid}
use npfs.Wire.Get.{Scan, into, Rbuf, assign, buf_get_int16, buf_get_int32, buf_get_qid, buf_get_str}
use npfs.Constants.{maxwelem}

unfoldable pub scan_tversion : Scan Npfcall
scan_tversion =
    into buf_get_int32 (λ v fc. record fc { msize = v })
    ⨾ into buf_get_str (λ v fc. record fc { version = v })

unfoldable pub scan_rversion : Scan Npfcall
scan_rversion =
    into buf_get_int32 (λ v fc. record fc { msize = v })
    ⨾ into buf_get_str (λ v fc. record fc { version = v })

unfoldable pub scan_tauth : Bool → Scan Npfcall
scan_tauth dotu =
    into buf_get_int32 (λ v fc. record fc { afid = v })
    ⨾ into buf_get_str (λ v fc. record fc { uname = v })
    ⨾ into buf_get_str (λ v fc. record fc { aname = v })
    ⨾ (if dotu
        then into buf_get_int32 (λ v fc. record fc { n_uname = v })
        else assign (λ fc. record fc { n_uname = 0xffff_ffff }))

unfoldable pub scan_rauth : Scan Npfcall
scan_rauth = buf_get_qid (λ g fc. record fc { qid = g fc.qid })

unfoldable pub scan_rerror : Bool → Scan Npfcall
scan_rerror dotu =
    into buf_get_str (λ v fc. record fc { ename = v })
    ⨾ (if dotu
        then into buf_get_int32 (λ v fc. record fc { ecode = v })
        else assign (λ fc. record fc { ecode = 0xffff_ffff }))

unfoldable pub scan_tflush : Scan Npfcall
scan_tflush = into buf_get_int16 (λ v fc. record fc { oldtag = v })

unfoldable pub scan_tattach : Bool → Scan Npfcall
scan_tattach dotu =
    into buf_get_int32 (λ v fc. record fc { fid = v })
    ⨾ into buf_get_int32 (λ v fc. record fc { afid = v })
    ⨾ into buf_get_str (λ v fc. record fc { uname = v })
    ⨾ into buf_get_str (λ v fc. record fc { aname = v })
    ⨾ (if dotu
        then into buf_get_int32 (λ v fc. record fc { n_uname = v })
        else assign (λ fc. record fc { n_uname = 0xffff_ffff }))

unfoldable pub scan_rattach : Scan Npfcall
scan_rattach = buf_get_qid (λ g fc. record fc { qid = g fc.qid })

-- The loop over the names; the entries of fc->wnames up to nwname make the list.
unfoldable pub get_names : ℕ → Rbuf → List Npstr × Rbuf
get_names zero b = ([], b)
get_names (suc n) b = let (s, b1) = buf_get_str b in let (ss, b2) = get_names n b1 in (s ∷ ss, b2)

unfoldable pub scan_wnames : Npfcall × Rbuf → Option (Npfcall × Rbuf)
scan_wnames (fc, b) =
    if ltb maxwelem fc.nwname
    then none
    else some (into (get_names fc.nwname) (λ v fc. record fc { wnames = v }) (fc, b))

unfoldable pub scan_twalk : Npfcall × Rbuf → Option (Npfcall × Rbuf)
scan_twalk x = scan_wnames (
    (into buf_get_int32 (λ v fc. record fc { fid = v })
        ⨾ into buf_get_int32 (λ v fc. record fc { newfid = v })
        ⨾ into buf_get_int16 (λ v fc. record fc { nwname = v }))
      x)

-- Every field of the entry is assigned, so its old value does not matter.
unfoldable pub get_qids : ℕ → Rbuf → List Npqid × Rbuf
get_qids zero b = ([], b)
get_qids (suc n) b =
    let (q, b1) = buf_get_qid (λ g. g) (zero_qid, b) in let (qs, b2) = get_qids n b1 in (q ∷ qs, b2)

unfoldable pub scan_wqids : Npfcall × Rbuf → Option (Npfcall × Rbuf)
scan_wqids (fc, b) =
    if ltb maxwelem fc.nwqid
    then none
    else some (into (get_qids fc.nwqid) (λ v fc. record fc { wqids = v }) (fc, b))

unfoldable pub scan_rwalk : Npfcall × Rbuf → Option (Npfcall × Rbuf)
scan_rwalk x = scan_wqids (into buf_get_int16 (λ v fc. record fc { nwqid = v }) x)
