-- ===== src/Wire/Scan/Files.antt =====
-- libnpfs/np.c: the cases of np_deserialize for the messages on files: open, create, read, write, clunk, remove, stat and wstat.
use npfs.Prelude.{Bool, [], if◌then◌else◌, ◌⨾◌}
use npfs.Types.{Npfcall}
use npfs.Wire.Get.{
  Scan, into, assign, buf_alloc, buf_get_int16, buf_get_int32, buf_get_int64, buf_get_int8,
  buf_get_qid, buf_get_str,
}
use npfs.Wire.Stat.{buf_get_stat}

unfoldable pub scan_topen : Scan Npfcall
scan_topen =
    into buf_get_int32 (λ v fc. record fc { fid = v })
    ⨾ into buf_get_int8 (λ v fc. record fc { mode = v })

unfoldable pub scan_ropen : Scan Npfcall
scan_ropen =
    buf_get_qid (λ g fc. record fc { qid = g fc.qid })
    ⨾ into buf_get_int32 (λ v fc. record fc { iounit = v })

unfoldable pub scan_tcreate : Bool → Scan Npfcall
scan_tcreate dotu =
    into buf_get_int32 (λ v fc. record fc { fid = v })
    ⨾ into buf_get_str (λ v fc. record fc { name = v })
    ⨾ into buf_get_int32 (λ v fc. record fc { perm = v })
    ⨾ into buf_get_int8 (λ v fc. record fc { mode = v })
    ⨾ (if dotu
        then into buf_get_str (λ v fc. record fc { extension = v })
        else assign (λ fc. record fc { extension = [] }))

unfoldable pub scan_tread : Scan Npfcall
scan_tread =
    into buf_get_int32 (λ v fc. record fc { fid = v })
    ⨾ into buf_get_int64 (λ v fc. record fc { offset = v })
    ⨾ into buf_get_int32 (λ v fc. record fc { count = v })

unfoldable pub scan_rwrite : Scan Npfcall
scan_rwrite = into buf_get_int32 (λ v fc. record fc { count = v })

unfoldable pub scan_tclunk : Scan Npfcall
scan_tclunk = into buf_get_int32 (λ v fc. record fc { fid = v })

-- `fc->data = buf_alloc(bufp, fc->count);`
unfoldable pub scan_data : Scan Npfcall
scan_data (fc, b) = into (buf_alloc fc.count) (λ v fc. record fc { bytes = v }) (fc, b)

unfoldable pub scan_rread : Scan Npfcall
scan_rread = into buf_get_int32 (λ v fc. record fc { count = v }) ⨾ scan_data

unfoldable pub scan_twrite : Scan Npfcall
scan_twrite =
    into buf_get_int32 (λ v fc. record fc { fid = v })
    ⨾ into buf_get_int64 (λ v fc. record fc { offset = v })
    ⨾ into buf_get_int32 (λ v fc. record fc { count = v })
    ⨾ scan_data

unfoldable pub scan_rstat : Bool → Scan Npfcall
scan_rstat dotu =
    into buf_get_int16 (λ v fc. fc) ⨾ buf_get_stat (λ g fc. record fc { stat = g fc.stat }) dotu

unfoldable pub scan_twstat : Bool → Scan Npfcall
scan_twstat dotu =
    into buf_get_int32 (λ v fc. record fc { fid = v })
    ⨾ into buf_get_int16 (λ v fc. fc)
    ⨾ buf_get_stat (λ g fc. record fc { stat = g fc.stat }) dotu
