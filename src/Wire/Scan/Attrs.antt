-- ===== src/Wire/Scan/Attrs.antt =====
-- libnpfs/np.c: the cases of np_deserialize for the messages of 9P2000.L on attributes.
use npfs.Prelude.{ℕ, ◌⨾◌}
use npfs.Types.{Npfcall, Npattrs}
use npfs.Wire.Get.{Scan, into, Rbuf, assign, buf_get_int32, buf_get_int64, buf_get_qid, buf_get_str}
use npfs.State.{get}

unfoldable pub scan_tgetattr : Scan Npfcall
scan_tgetattr =
    into buf_get_int32 (λ v fc. record fc { fid = v })
    ⨾ into buf_get_int64 (λ v fc. record fc { mask = v })

unfoldable pub scan_txattrwalk : Scan Npfcall
scan_txattrwalk =
    into buf_get_int32 (λ v fc. record fc { fid = v })
    ⨾ into buf_get_int32 (λ v fc. record fc { newfid = v })
    ⨾ into buf_get_str (λ v fc. record fc { name = v })

unfoldable pub scan_rxattrwalk : Scan Npfcall
scan_rxattrwalk = into buf_get_int64 (λ v fc. record fc { asize = v })

unfoldable pub scan_txattrcreate : Scan Npfcall
scan_txattrcreate =
    into buf_get_int32 (λ v fc. record fc { fid = v })
    ⨾ into buf_get_str (λ v fc. record fc { name = v })
    ⨾ into buf_get_int64 (λ v fc. record fc { asize = v })
    ⨾ into buf_get_int32 (λ v fc. record fc { flags = v })

-- `attrs-> = …`
unfoldable pub into_attrs : (Rbuf → ℕ × Rbuf) → (ℕ → Npattrs → Npattrs) → Scan Npfcall
into_attrs get set = into get (λ v fc. record fc { attrs = set v fc.attrs })

unfoldable pub scan_rgetattr : Scan Npfcall
scan_rgetattr =
    into buf_get_int64 (λ v fc. record fc { mask = v })
    ⨾ buf_get_qid (λ g fc. record fc { qid = g fc.qid })
    ⨾ into_attrs buf_get_int32 (λ v a. record a { mode = v })
    ⨾ into_attrs buf_get_int32 (λ v a. record a { uid = v })
    ⨾ into_attrs buf_get_int32 (λ v a. record a { gid = v })
    ⨾ into_attrs buf_get_int64 (λ v a. record a { nlink = v })
    ⨾ into_attrs buf_get_int64 (λ v a. record a { rdev = v })
    ⨾ into_attrs buf_get_int64 (λ v a. record a { size = v })
    ⨾ into_attrs buf_get_int64 (λ v a. record a { blksize = v })
    ⨾ into_attrs buf_get_int64 (λ v a. record a { blocks = v })
    ⨾ into_attrs buf_get_int64 (λ v a. record a { atime_sec = v })
    ⨾ into_attrs buf_get_int64 (λ v a. record a { atime_nsec = v })
    ⨾ into_attrs buf_get_int64 (λ v a. record a { mtime_sec = v })
    ⨾ into_attrs buf_get_int64 (λ v a. record a { mtime_nsec = v })
    ⨾ into_attrs buf_get_int64 (λ v a. record a { ctime_sec = v })
    ⨾ into_attrs buf_get_int64 (λ v a. record a { ctime_nsec = v })
    ⨾ into_attrs buf_get_int64 (λ v a. record a { btime_sec = v })
    ⨾ into_attrs buf_get_int64 (λ v a. record a { btime_nsec = v })
    ⨾ into_attrs buf_get_int64 (λ v a. record a { gen = v })
    ⨾ into_attrs buf_get_int64 (λ v a. record a { data_version = v })

unfoldable pub scan_tsetattr : Scan Npfcall
scan_tsetattr =
    into buf_get_int32 (λ v fc. record fc { fid = v })
    ⨾ into buf_get_int32 (λ v fc. record fc { mask = v })
    ⨾ assign (λ fc. record fc { attrs = record fc.attrs { mask = fc.mask } })
    ⨾ into_attrs buf_get_int32 (λ v a. record a { mode = v })
    ⨾ into_attrs buf_get_int32 (λ v a. record a { uid = v })
    ⨾ into_attrs buf_get_int32 (λ v a. record a { gid = v })
    ⨾ into_attrs buf_get_int64 (λ v a. record a { size = v })
    ⨾ into_attrs buf_get_int64 (λ v a. record a { atime_sec = v })
    ⨾ into_attrs buf_get_int64 (λ v a. record a { atime_nsec = v })
    ⨾ into_attrs buf_get_int64 (λ v a. record a { mtime_sec = v })
    ⨾ into_attrs buf_get_int64 (λ v a. record a { mtime_nsec = v })
