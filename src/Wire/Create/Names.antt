-- ===== src/Wire/Create/Names.antt =====
-- libnpfs/np.c: the functions that make the messages of 9P2000.L on names: lerror to readlink.
use npfs.Prelude.{ℕ, Option, length, pass, ◌+◌, ◌⨾◌}
use npfs.Types.{Npstr, Npqid, Npfcall, Npstatfs}
use npfs.Wire.Create.{Packet, np_create_common, made}
use npfs.Wire.Put.{buf_put_int32, buf_put_qid, buf_put_str}
use npfs.Wire.Stat.{buf_put_statfs, size_statfs}
use npfs.Constants.{
  rlcreate, rlerror, rlopen, rmknod, rreadlink, rrename, rstatfs, rsymlink, tlcreate, tlerror,
  tlopen, tmknod, treadlink, trename, tstatfs, tsymlink,
}

-- libnpfs/sys-Linux.c
unfoldable pub np_errno_to_linux : ℕ → ℕ
np_errno_to_linux ecode = ecode

unfoldable pub np_create_rlerror : Option Npfcall → ℕ → Option Packet
np_create_rlerror mem ecode =
    made (np_create_common mem (4) rlerror) (
      buf_put_int32 (np_errno_to_linux ecode) (λ fc. record fc { ecode = np_errno_to_linux ecode }))

unfoldable pub np_create_tstatfs : Option Npfcall → ℕ → Option Packet
np_create_tstatfs mem fid =
    made (np_create_common mem (4) tstatfs) (buf_put_int32 fid (λ fc. record fc { fid = fid }))

unfoldable pub np_create_tlopen : Option Npfcall → ℕ → ℕ → Option Packet
np_create_tlopen mem fid flags = made (np_create_common mem (4 + 4) tlopen) (
    buf_put_int32 fid (λ fc. record fc { fid = fid })
    ⨾ buf_put_int32 flags (λ fc. record fc { flags = flags }))

unfoldable pub np_create_rlopen : Option Npfcall → Npqid → ℕ → Option Packet
np_create_rlopen mem qid iounit = made (np_create_common mem (13 + 4) rlopen) (
    buf_put_qid qid (λ g fc. record fc { qid = g fc.qid })
    ⨾ buf_put_int32 iounit (λ fc. record fc { iounit = iounit }))

unfoldable pub np_create_tlcreate : Option Npfcall → ℕ → Npstr → ℕ → ℕ → ℕ → Option Packet
np_create_tlcreate mem fid name flags mode gid =
    made (np_create_common mem (4 + 2 + length name + 4 + 4 + 4) tlcreate) (
      buf_put_int32 fid (λ fc. record fc { fid = fid })
      ⨾ buf_put_str name (λ fc. record fc { name = name })
      ⨾ buf_put_int32 flags (λ fc. record fc { flags = flags })
      ⨾ buf_put_int32 mode (λ fc. record fc { perm = mode })
      ⨾ buf_put_int32 gid (λ fc. record fc { gid = gid }))

unfoldable pub np_create_rlcreate : Option Npfcall → Npqid → ℕ → Option Packet
np_create_rlcreate mem qid iounit = made (np_create_common mem (13 + 4) rlcreate) (
    buf_put_qid qid (λ g fc. record fc { qid = g fc.qid })
    ⨾ buf_put_int32 iounit (λ fc. record fc { iounit = iounit }))

unfoldable pub np_create_tsymlink : Option Npfcall → ℕ → Npstr → Npstr → ℕ → Option Packet
np_create_tsymlink mem dfid name symtgt gid =
    made (np_create_common mem (4 + 2 + length name + 2 + length symtgt + 4) tsymlink) (
      buf_put_int32 dfid (λ fc. record fc { fid = dfid })
      ⨾ buf_put_str name (λ fc. record fc { name = name })
      ⨾ buf_put_str symtgt (λ fc. record fc { symtgt = symtgt })
      ⨾ buf_put_int32 gid (λ fc. record fc { gid = gid }))

unfoldable pub np_create_rsymlink : Option Npfcall → Npqid → Option Packet
np_create_rsymlink mem qid =
    made (np_create_common mem (13) rsymlink)
      (buf_put_qid qid (λ g fc. record fc { qid = g fc.qid }))

unfoldable pub np_create_tmknod : Option Npfcall → ℕ → Npstr → ℕ → ℕ → ℕ → ℕ → Option Packet
np_create_tmknod mem dfid name mode major minor gid =
    made (np_create_common mem (4 + 2 + length name + 4 + 4 + 4 + 4) tmknod) (
      buf_put_int32 dfid (λ fc. record fc { fid = dfid })
      ⨾ buf_put_str name (λ fc. record fc { name = name })
      ⨾ buf_put_int32 mode (λ fc. record fc { perm = mode })
      ⨾ buf_put_int32 major (λ fc. record fc { major = major })
      ⨾ buf_put_int32 minor (λ fc. record fc { minor = minor })
      ⨾ buf_put_int32 gid (λ fc. record fc { gid = gid }))

unfoldable pub np_create_rmknod : Option Npfcall → Npqid → Option Packet
np_create_rmknod mem qid =
    made (np_create_common mem (13) rmknod) (buf_put_qid qid (λ g fc. record fc { qid = g fc.qid }))

unfoldable pub np_create_trename : Option Npfcall → ℕ → ℕ → Npstr → Option Packet
np_create_trename mem fid dfid name =
    made (np_create_common mem (4 + 4 + 2 + length name) trename) (
      buf_put_int32 fid (λ fc. record fc { fid = fid })
      ⨾ buf_put_int32 dfid (λ fc. record fc { dfid = dfid })
      ⨾ buf_put_str name (λ fc. record fc { name = name }))

unfoldable pub np_create_rrename : Option Npfcall → Option Packet
np_create_rrename mem = made (np_create_common mem (0) rrename) (pass)

unfoldable pub np_create_treadlink : Option Npfcall → ℕ → Option Packet
np_create_treadlink mem fid =
    made (np_create_common mem (4) treadlink) (buf_put_int32 fid (λ fc. record fc { fid = fid }))

unfoldable pub np_create_rreadlink : Option Npfcall → Npstr → Option Packet
np_create_rreadlink mem target =
    made (np_create_common mem (2 + length target) rreadlink)
      (buf_put_str target (λ fc. record fc { symtgt = target }))

unfoldable pub np_create_lerror : Option Npfcall → ℕ → Option Packet
np_create_lerror mem ecode =
    made (np_create_common mem 4 tlerror) (buf_put_int32 ecode (λ fc. record fc { ecode = ecode }))

unfoldable pub np_create_rstatfs : Option Npfcall → Npstatfs → Option Packet
np_create_rstatfs mem stfs =
    made (np_create_common mem (size_statfs stfs) rstatfs)
      (buf_put_statfs stfs (λ g fc. record fc { stfs = g fc.stfs }))
