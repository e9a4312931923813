-- ===== src/Wire/Scan/Names.antt =====
-- libnpfs/np.c: the cases of np_deserialize for the messages of 9P2000.L on names: lerror to readlink.
use npfs.Prelude.{◌⨾◌}
use npfs.Types.{Npfcall}
use npfs.Wire.Get.{Scan, into, buf_get_int32, buf_get_qid, buf_get_str}
use npfs.Wire.Stat.{buf_get_statfs}

unfoldable pub scan_rlerror : Scan Npfcall
scan_rlerror = into buf_get_int32 (λ v fc. record fc { ecode = v })

unfoldable pub scan_tstatfs : Scan Npfcall
scan_tstatfs = into buf_get_int32 (λ v fc. record fc { fid = v })

unfoldable pub scan_tlopen : Scan Npfcall
scan_tlopen =
    into buf_get_int32 (λ v fc. record fc { fid = v })
    ⨾ into buf_get_int32 (λ v fc. record fc { flags = v })

unfoldable pub scan_rlopen : Scan Npfcall
scan_rlopen =
    buf_get_qid (λ g fc. record fc { qid = g fc.qid })
    ⨾ into buf_get_int32 (λ v fc. record fc { iounit = v })

unfoldable pub scan_tlcreate : Scan Npfcall
scan_tlcreate =
    into buf_get_int32 (λ v fc. record fc { fid = v })
    ⨾ into buf_get_str (λ v fc. record fc { name = v })
    ⨾ into buf_get_int32 (λ v fc. record fc { flags = v })
    ⨾ into buf_get_int32 (λ v fc. record fc { perm = v })
    ⨾ into buf_get_int32 (λ v fc. record fc { gid = v })

unfoldable pub scan_rlcreate : Scan Npfcall
scan_rlcreate =
    buf_get_qid (λ g fc. record fc { qid = g fc.qid })
    ⨾ into buf_get_int32 (λ v fc. record fc { iounit = v })

unfoldable pub scan_tsymlink : Scan Npfcall
scan_tsymlink =
    into buf_get_int32 (λ v fc. record fc { dfid = v })
    ⨾ into buf_get_str (λ v fc. record fc { name = v })
    ⨾ into buf_get_str (λ v fc. record fc { symtgt = v })
    ⨾ into buf_get_int32 (λ v fc. record fc { gid = v })

unfoldable pub scan_rsymlink : Scan Npfcall
scan_rsymlink = buf_get_qid (λ g fc. record fc { qid = g fc.qid })

unfoldable pub scan_tmknod : Scan Npfcall
scan_tmknod =
    into buf_get_int32 (λ v fc. record fc { fid = v })
    ⨾ into buf_get_str (λ v fc. record fc { name = v })
    ⨾ into buf_get_int32 (λ v fc. record fc { perm = v })
    ⨾ into buf_get_int32 (λ v fc. record fc { major = v })
    ⨾ into buf_get_int32 (λ v fc. record fc { minor = v })
    ⨾ into buf_get_int32 (λ v fc. record fc { gid = v })

unfoldable pub scan_rmknod : Scan Npfcall
scan_rmknod = buf_get_qid (λ g fc. record fc { qid = g fc.qid })

unfoldable pub scan_trename : Scan Npfcall
scan_trename =
    into buf_get_int32 (λ v fc. record fc { fid = v })
    ⨾ into buf_get_int32 (λ v fc. record fc { dfid = v })
    ⨾ into buf_get_str (λ v fc. record fc { name = v })

unfoldable pub scan_treadlink : Scan Npfcall
scan_treadlink = into buf_get_int32 (λ v fc. record fc { fid = v })

unfoldable pub scan_rreadlink : Scan Npfcall
scan_rreadlink = into buf_get_str (λ v fc. record fc { symtgt = v })

unfoldable pub scan_rstatfs : Scan Npfcall
scan_rstatfs = buf_get_statfs (λ g fc. record fc { stfs = g fc.stfs })
