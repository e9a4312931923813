-- ===== src/Wire/Create/Dirs.antt =====
-- libnpfs/np.c: the functions that make the messages of 9P2000.L on directories, locks and links.
use npfs.Prelude.{ℕ, List, Option, length, pass, ◌+◌, ◌⨾◌}
use npfs.Types.{Npstr, Npqid, Npfcall}
use npfs.Wire.Create.{Packet, np_create_common, made, set_count}
use npfs.Wire.Put.{buf_put_int32, buf_put_int64, buf_put_int8, buf_put_qid, buf_put_str, put_data}
use npfs.Constants.{
  rfsync, rgetlock, rlink, rlock, rmkdir, rreaddir, rrenameat, runlinkat, tfsync, tgetlock, tlink,
  tlock, tmkdir, treaddir, trenameat, tunlinkat,
}

unfoldable pub np_create_treaddir : Option Npfcall → ℕ → ℕ → ℕ → Option Packet
np_create_treaddir mem fid offset count = made (np_create_common mem (4 + 8 + 4) treaddir) (
    buf_put_int32 fid (λ fc. record fc { fid = fid })
    ⨾ buf_put_int64 offset (λ fc. record fc { offset = offset })
    ⨾ buf_put_int32 count (λ fc. record fc { count = count }))

unfoldable pub np_create_tfsync : Option Npfcall → ℕ → Option Packet
np_create_tfsync mem fid =
    made (np_create_common mem (4) tfsync) (buf_put_int32 fid (λ fc. record fc { fid = fid }))

unfoldable pub np_create_rfsync : Option Npfcall → Option Packet
np_create_rfsync mem = made (np_create_common mem (0) rfsync) (pass)

unfoldable pub np_create_tlock : Option Npfcall → ℕ → ℕ → ℕ → ℕ → ℕ → ℕ → Npstr → Option Packet
np_create_tlock mem fid type flags offset len procid clientid =
    made (np_create_common mem (4 + 1 + 4 + 8 + 8 + 4 + 2 + length clientid) tlock) (
      buf_put_int32 fid (λ fc. record fc { fid = fid })
      ⨾ buf_put_int8 type (λ fc. record fc { locktype = type })
      ⨾ buf_put_int32 flags (λ fc. record fc { flags = flags })
      ⨾ buf_put_int64 offset (λ fc. record fc { offset = offset })
      ⨾ buf_put_int64 len (λ fc. record fc { locklength = len })
      ⨾ buf_put_int32 procid (λ fc. record fc { procid = procid })
      ⨾ buf_put_str clientid (λ fc. record fc { clientid = clientid }))

unfoldable pub np_create_rlock : Option Npfcall → ℕ → Option Packet
np_create_rlock mem status =
    made (np_create_common mem (1) rlock)
      (buf_put_int8 status (λ fc. record fc { lockstatus = status }))

unfoldable pub np_create_tgetlock : Option Npfcall → ℕ → ℕ → ℕ → ℕ → ℕ → Npstr → Option Packet
np_create_tgetlock mem fid type offset len procid clientid =
    made (np_create_common mem (4 + 1 + 8 + 8 + 4 + 2 + length clientid) tgetlock) (
      buf_put_int32 fid (λ fc. record fc { fid = fid })
      ⨾ buf_put_int8 type (λ fc. record fc { locktype = type })
      ⨾ buf_put_int64 offset (λ fc. record fc { offset = offset })
      ⨾ buf_put_int64 len (λ fc. record fc { locklength = len })
      ⨾ buf_put_int32 procid (λ fc. record fc { procid = procid })
      ⨾ buf_put_str clientid (λ fc. record fc { clientid = clientid }))

unfoldable pub np_create_rgetlock : Option Npfcall → ℕ → ℕ → ℕ → ℕ → Npstr → Option Packet
np_create_rgetlock mem type offset len procid clientid =
    made (np_create_common mem (1 + 8 + 8 + 4 + 2 + length clientid) rgetlock) (
      buf_put_int8 type (λ fc. record fc { locktype = type })
      ⨾ buf_put_int64 offset (λ fc. record fc { offset = offset })
      ⨾ buf_put_int64 len (λ fc. record fc { locklength = len })
      ⨾ buf_put_int32 procid (λ fc. record fc { procid = procid })
      ⨾ buf_put_str clientid (λ fc. record fc { clientid = clientid }))

unfoldable pub np_create_tlink : Option Npfcall → ℕ → ℕ → Npstr → Option Packet
np_create_tlink mem dfid fid name = made (np_create_common mem (4 + 4 + 2 + length name) tlink) (
    buf_put_int32 dfid (λ fc. record fc { dfid = dfid })
    ⨾ buf_put_int32 fid (λ fc. record fc { fid = fid })
    ⨾ buf_put_str name (λ fc. record fc { name = name }))

unfoldable pub np_create_rlink : Option Npfcall → Option Packet
np_create_rlink mem = made (np_create_common mem (0) rlink) (pass)

unfoldable pub np_create_tmkdir : Option Npfcall → ℕ → Npstr → ℕ → ℕ → Option Packet
np_create_tmkdir mem dfid name mode gid =
    made (np_create_common mem (4 + 2 + length name + 4 + 4) tmkdir) (
      buf_put_int32 dfid (λ fc. record fc { fid = dfid })
      ⨾ buf_put_str name (λ fc. record fc { name = name })
      ⨾ buf_put_int32 mode (λ fc. record fc { perm = mode })
      ⨾ buf_put_int32 gid (λ fc. record fc { gid = gid }))

unfoldable pub np_create_rmkdir : Option Npfcall → Npqid → Option Packet
np_create_rmkdir mem qid =
    made (np_create_common mem (13) rmkdir) (buf_put_qid qid (λ g fc. record fc { qid = g fc.qid }))

unfoldable pub np_create_trenameat : Option Npfcall → ℕ → Npstr → ℕ → Npstr → Option Packet
np_create_trenameat mem odfid oname ndfid nname =
    made (np_create_common mem (4 + 2 + length oname + 4 + 2 + length nname) trenameat) (
      buf_put_int32 odfid (λ fc. record fc { fid = odfid })
      ⨾ buf_put_str oname (λ fc. record fc { oname = oname })
      ⨾ buf_put_int32 ndfid (λ fc. record fc { newfid = ndfid })
      ⨾ buf_put_str nname (λ fc. record fc { name = nname }))

unfoldable pub np_create_rrenameat : Option Npfcall → Option Packet
np_create_rrenameat mem = made (np_create_common mem (0) rrenameat) (pass)

unfoldable pub np_create_tunlinkat : Option Npfcall → ℕ → Npstr → ℕ → Option Packet
np_create_tunlinkat mem dfid name flags =
    made (np_create_common mem (4 + 2 + length name + 4) tunlinkat) (
      buf_put_int32 dfid (λ fc. record fc { fid = dfid })
      ⨾ buf_put_str name (λ fc. record fc { name = name })
      ⨾ buf_put_int32 flags (λ fc. record fc { flags = flags }))

unfoldable pub np_create_runlinkat : Option Npfcall → Option Packet
np_create_runlinkat mem = made (np_create_common mem (0) runlinkat) (pass)

unfoldable pub np_create_rreaddir : Option Npfcall → List ℕ → Option Packet
np_create_rreaddir mem payload = made (np_create_common mem (4 + length payload) rreaddir) (
    buf_put_int32 (length payload) (λ fc. record fc { count = length payload })
    ⨾ put_data payload (λ fc. record fc { bytes = payload }))

-- `space` is what the block of malloc holds where the data will stand; fewer than 2^31 bytes.
unfoldable pub np_alloc_rreaddir : Option Npfcall → List ℕ → Option Packet
np_alloc_rreaddir mem space = made (np_create_common mem (4 + length space) rreaddir) (
    buf_put_int32 (length space) (λ fc. record fc { count = length space })
    ⨾ put_data space (λ fc. record fc { bytes = space }))

unfoldable pub np_set_rreaddir_count : Packet → ℕ → Option Packet
np_set_rreaddir_count p count = set_count p count
