-- ===== src/Wire/Create/Files.antt =====
-- libnpfs/np.c: the functions that make the messages on files: open, create, read, write, clunk, remove, stat and wstat.
use npfs.Prelude.{ℕ, Bool, List, Option, length, pass, ◌+◌, ◌⨾◌}
use npfs.Types.{Npstr, Npqid, Npfcall}
use npfs.Wire.Create.{Packet, np_create_common, made, set_count}
use npfs.Wire.Stat.{Npwstat, buf_put_wstat, size_wstat}
use npfs.Wire.Put.{
  buf_put_int16, buf_put_int32, buf_put_int64, buf_put_int8, buf_put_qid, buf_put_str, put_data,
}
use npfs.Constants.{
  rclunk, rcreate, ropen, rread, rremove, rstat, rwrite, rwstat, tclunk, tcreate, topen, tread,
  tremove, tstat, twrite, twstat,
}

unfoldable pub np_create_topen : Option Npfcall → ℕ → ℕ → Option Packet
np_create_topen mem fid mode = made (np_create_common mem (4 + 1) topen) (
    buf_put_int32 fid (λ fc. record fc { fid = fid })
    ⨾ buf_put_int8 mode (λ fc. record fc { mode = mode }))

unfoldable pub np_create_ropen : Option Npfcall → Npqid → ℕ → Option Packet
np_create_ropen mem qid iounit = made (np_create_common mem (13 + 4) ropen) (
    buf_put_qid qid (λ g fc. record fc { qid = g fc.qid })
    ⨾ buf_put_int32 iounit (λ fc. record fc { iounit = iounit }))

unfoldable pub np_create_tcreate : Option Npfcall → ℕ → Npstr → ℕ → ℕ → Option Packet
np_create_tcreate mem fid name perm mode =
    made (np_create_common mem (4 + 2 + length name + 4 + 1) tcreate) (
      buf_put_int32 fid (λ fc. record fc { fid = fid })
      ⨾ buf_put_str name (λ fc. record fc { name = name })
      ⨾ buf_put_int32 perm (λ fc. record fc { perm = perm })
      ⨾ buf_put_int8 mode (λ fc. record fc { mode = mode }))

unfoldable pub np_create_rcreate : Option Npfcall → Npqid → ℕ → Option Packet
np_create_rcreate mem qid iounit = made (np_create_common mem (13 + 4) rcreate) (
    buf_put_qid qid (λ g fc. record fc { qid = g fc.qid })
    ⨾ buf_put_int32 iounit (λ fc. record fc { iounit = iounit }))

unfoldable pub np_create_tread : Option Npfcall → ℕ → ℕ → ℕ → Option Packet
np_create_tread mem fid offset count = made (np_create_common mem (4 + 8 + 4) tread) (
    buf_put_int32 fid (λ fc. record fc { fid = fid })
    ⨾ buf_put_int64 offset (λ fc. record fc { offset = offset })
    ⨾ buf_put_int32 count (λ fc. record fc { count = count }))

unfoldable pub np_create_rwrite : Option Npfcall → ℕ → Option Packet
np_create_rwrite mem count =
    made (np_create_common mem (4) rwrite) (buf_put_int32 count (λ fc. record fc { count = count }))

unfoldable pub np_create_tclunk : Option Npfcall → ℕ → Option Packet
np_create_tclunk mem fid =
    made (np_create_common mem (4) tclunk) (buf_put_int32 fid (λ fc. record fc { fid = fid }))

unfoldable pub np_create_rclunk : Option Npfcall → Option Packet
np_create_rclunk mem = made (np_create_common mem (0) rclunk) (pass)

unfoldable pub np_create_tremove : Option Npfcall → ℕ → Option Packet
np_create_tremove mem fid =
    made (np_create_common mem (4) tremove) (buf_put_int32 fid (λ fc. record fc { fid = fid }))

unfoldable pub np_create_rremove : Option Npfcall → Option Packet
np_create_rremove mem = made (np_create_common mem (0) rremove) (pass)

unfoldable pub np_create_tstat : Option Npfcall → ℕ → Option Packet
np_create_tstat mem fid =
    made (np_create_common mem (4) tstat) (buf_put_int32 fid (λ fc. record fc { fid = fid }))

unfoldable pub np_create_rwstat : Option Npfcall → Option Packet
np_create_rwstat mem = made (np_create_common mem (0) rwstat) (pass)

-- `space` is what the block of malloc holds where the data will stand; fewer than 2^31 bytes.
unfoldable pub np_alloc_rread : Option Npfcall → List ℕ → Option Packet
np_alloc_rread mem space = made (np_create_common mem (4 + length space) rread) (
    buf_put_int32 (length space) (λ fc. record fc { count = length space })
    ⨾ put_data space (λ fc. record fc { bytes = space }))

-- The memmove fills the space, so the packet is the one that np_alloc_rread makes where the space
-- holds the data already. The code reads fc->data without a test for NULL; NULL is none here.
unfoldable pub np_create_rread : Option Npfcall → List ℕ → Option Packet
np_create_rread mem payload = np_alloc_rread mem payload

unfoldable pub np_set_rread_count : Packet → ℕ → Option Packet
np_set_rread_count p count = set_count p count

unfoldable pub np_create_twrite : Option Npfcall → ℕ → ℕ → List ℕ → Option Packet
np_create_twrite mem fid offset payload =
    made (np_create_common mem (4 + 8 + 4 + length payload) twrite) (
      buf_put_int32 fid (λ fc. record fc { fid = fid })
      ⨾ buf_put_int64 offset (λ fc. record fc { offset = offset })
      ⨾ buf_put_int32 (length payload) (λ fc. record fc { count = length payload })
      ⨾ put_data payload (λ fc. record fc { bytes = payload }))

unfoldable pub np_create_rstat : Option Npfcall → Npwstat → Bool → Option Packet
np_create_rstat mem wstat dotu =
    let statsz = size_wstat wstat dotu in
    made (np_create_common mem (2 + 2 + statsz) rstat) (
      buf_put_int16 (statsz + 2) (λ fc. fc)
      ⨾ buf_put_wstat wstat (λ g fc. record fc { stat = g fc.stat }) statsz dotu)

unfoldable pub np_create_twstat : Option Npfcall → ℕ → Npwstat → Bool → Option Packet
np_create_twstat mem fid wstat dotu =
    let statsz = size_wstat wstat dotu in
    made (np_create_common mem (4 + 2 + 2 + statsz) twstat) (
      buf_put_int32 fid (λ fc. record fc { fid = fid })
      ⨾ buf_put_int16 (statsz + 2) (λ fc. fc)
      ⨾ buf_put_wstat wstat (λ g fc. record fc { stat = g fc.stat }) statsz dotu)
