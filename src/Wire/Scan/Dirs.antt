-- ===== src/Wire/Scan/Dirs.antt =====
-- libnpfs/np.c: the cases of np_deserialize for the messages of 9P2000.L on directories, locks and links.
use npfs.Prelude.{◌⨾◌}
use npfs.Types.{Npfcall}
use npfs.Wire.Get.{Scan, into, buf_get_int32, buf_get_int64, buf_get_int8, buf_get_qid, buf_get_str}

unfoldable pub scan_treaddir : Scan Npfcall
scan_treaddir =
    into buf_get_int32 (λ v fc. record fc { fid = v })
    ⨾ into buf_get_int64 (λ v fc. record fc { offset = v })
    ⨾ into buf_get_int32 (λ v fc. record fc { count = v })

unfoldable pub scan_tfsync : Scan Npfcall
scan_tfsync = into buf_get_int32 (λ v fc. record fc { fid = v })

unfoldable pub scan_tlock : Scan Npfcall
scan_tlock =
    into buf_get_int32 (λ v fc. record fc { fid = v })
    ⨾ into buf_get_int8 (λ v fc. record fc { locktype = v })
    ⨾ into buf_get_int32 (λ v fc. record fc { flags = v })
    ⨾ into buf_get_int64 (λ v fc. record fc { offset = v })
    ⨾ into buf_get_int64 (λ v fc. record fc { locklength = v })
    ⨾ into buf_get_int32 (λ v fc. record fc { procid = v })
    ⨾ into buf_get_str (λ v fc. record fc { clientid = v })

unfoldable pub scan_rlock : Scan Npfcall
scan_rlock = into buf_get_int8 (λ v fc. record fc { lockstatus = v })

unfoldable pub scan_tgetlock : Scan Npfcall
scan_tgetlock =
    into buf_get_int32 (λ v fc. record fc { fid = v })
    ⨾ into buf_get_int8 (λ v fc. record fc { locktype = v })
    ⨾ into buf_get_int64 (λ v fc. record fc { offset = v })
    ⨾ into buf_get_int64 (λ v fc. record fc { locklength = v })
    ⨾ into buf_get_int32 (λ v fc. record fc { procid = v })
    ⨾ into buf_get_str (λ v fc. record fc { clientid = v })

unfoldable pub scan_rgetlock : Scan Npfcall
scan_rgetlock =
    into buf_get_int32 (λ v fc. record fc { fid = v })
    ⨾ into buf_get_int8 (λ v fc. record fc { locktype = v })
    ⨾ into buf_get_int64 (λ v fc. record fc { offset = v })
    ⨾ into buf_get_int64 (λ v fc. record fc { locklength = v })
    ⨾ into buf_get_int32 (λ v fc. record fc { procid = v })
    ⨾ into buf_get_str (λ v fc. record fc { clientid = v })

unfoldable pub scan_tlink : Scan Npfcall
scan_tlink =
    into buf_get_int32 (λ v fc. record fc { dfid = v })
    ⨾ into buf_get_int32 (λ v fc. record fc { fid = v })
    ⨾ into buf_get_str (λ v fc. record fc { name = v })

unfoldable pub scan_tmkdir : Scan Npfcall
scan_tmkdir =
    into buf_get_int32 (λ v fc. record fc { fid = v })
    ⨾ into buf_get_str (λ v fc. record fc { name = v })
    ⨾ into buf_get_int32 (λ v fc. record fc { perm = v })
    ⨾ into buf_get_int32 (λ v fc. record fc { gid = v })

unfoldable pub scan_rmkdir : Scan Npfcall
scan_rmkdir = buf_get_qid (λ g fc. record fc { qid = g fc.qid })

unfoldable pub scan_trenameat : Scan Npfcall
scan_trenameat =
    into buf_get_int32 (λ v fc. record fc { fid = v })
    ⨾ into buf_get_str (λ v fc. record fc { oname = v })
    ⨾ into buf_get_int32 (λ v fc. record fc { newfid = v })
    ⨾ into buf_get_str (λ v fc. record fc { name = v })

unfoldable pub scan_tunlinkat : Scan Npfcall
scan_tunlinkat =
    into buf_get_int32 (λ v fc. record fc { fid = v })
    ⨾ into buf_get_str (λ v fc. record fc { name = v })
    ⨾ into buf_get_int32 (λ v fc. record fc { flags = v })
