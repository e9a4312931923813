-- ===== src/Wire/Create/Attrs.antt =====
-- libnpfs/np.c: the functions that make the messages of 9P2000.L on attributes.
use npfs.Prelude.{ℕ, Option, length, pass, ◌+◌, ◌⨾◌}
use npfs.Types.{Npstr, Npqid, Npfcall, Npattrs}
use npfs.Wire.Create.{Packet, np_create_common, made}
use npfs.Wire.Put.{buf_put_int32, buf_put_int64, buf_put_qid, buf_put_str, set_fields}
use npfs.Constants.{
  rgetattr, rsetattr, rxattrcreate, rxattrwalk, tgetattr, tsetattr, txattrcreate, txattrwalk,
}

unfoldable pub np_create_tgetattr : Option Npfcall → ℕ → ℕ → Option Packet
np_create_tgetattr mem fid mask = made (np_create_common mem (4 + 8) tgetattr) (
    buf_put_int32 fid (λ fc. record fc { fid = fid })
    ⨾ buf_put_int64 mask (λ fc. record fc { mask = mask }))

unfoldable pub np_create_rsetattr : Option Npfcall → Option Packet
np_create_rsetattr mem = made (np_create_common mem (0) rsetattr) (pass)

unfoldable pub np_create_txattrwalk : Option Npfcall → ℕ → ℕ → Npstr → Option Packet
np_create_txattrwalk mem fid newfid name =
    made (np_create_common mem (4 + 4 + 2 + length name) txattrwalk) (
      buf_put_int32 fid (λ fc. record fc { fid = fid })
      ⨾ buf_put_int32 newfid (λ fc. record fc { newfid = newfid })
      ⨾ buf_put_str name (λ fc. record fc { name = name }))

unfoldable pub np_create_rxattrwalk : Option Npfcall → ℕ → Option Packet
np_create_rxattrwalk mem asize =
    made (np_create_common mem (8) rxattrwalk)
      (buf_put_int64 asize (λ fc. record fc { asize = asize }))

unfoldable pub np_create_txattrcreate : Option Npfcall → ℕ → Npstr → ℕ → ℕ → Option Packet
np_create_txattrcreate mem fid name asize flags =
    made (np_create_common mem (4 + 2 + length name + 8 + 4) txattrcreate) (
      buf_put_int32 fid (λ fc. record fc { fid = fid })
      ⨾ buf_put_str name (λ fc. record fc { name = name })
      ⨾ buf_put_int64 asize (λ fc. record fc { asize = asize })
      ⨾ buf_put_int32 flags (λ fc. record fc { flags = flags }))

unfoldable pub np_create_rxattrcreate : Option Npfcall → Option Packet
np_create_rxattrcreate mem = made (np_create_common mem (0) rxattrcreate) (pass)

-- A field of fc->attrs.
abbrev pub at_attrs : (Npattrs → Npattrs) → Npfcall → Npfcall
at_attrs g fc = record fc { attrs = g fc.attrs }

unfoldable pub np_create_rgetattr : Option Npfcall → ℕ → Npattrs → Npqid → Option Packet
np_create_rgetattr mem mask attrs qid =
    made
      (np_create_common mem
        (8 + 13 + 4 + 4 + 4 + 8 + 8 + 8 + 8 + 8 + 8 + 8 + 8 + 8 + 8 + 8 + 8 + 8 + 8 + 8) rgetattr)
      (buf_put_int64 mask (λ fc. record fc { mask = mask })
        ⨾ buf_put_qid qid (λ g fc. record fc { qid = g fc.qid })
        ⨾ buf_put_int32 attrs.mode (at_attrs (λ a. record a { mode = attrs.mode }))
        ⨾ buf_put_int32 attrs.uid (at_attrs (λ a. record a { uid = attrs.uid }))
        ⨾ buf_put_int32 attrs.gid (at_attrs (λ a. record a { gid = attrs.gid }))
        ⨾ buf_put_int64 attrs.nlink (at_attrs (λ a. record a { nlink = attrs.nlink }))
        ⨾ buf_put_int64 attrs.rdev (at_attrs (λ a. record a { rdev = attrs.rdev }))
        ⨾ buf_put_int64 attrs.size (at_attrs (λ a. record a { size = attrs.size }))
        ⨾ buf_put_int64 attrs.blksize (at_attrs (λ a. record a { blksize = attrs.blksize }))
        ⨾ buf_put_int64 attrs.blocks (at_attrs (λ a. record a { blocks = attrs.blocks }))
        ⨾ buf_put_int64 attrs.atime_sec (at_attrs (λ a. record a { atime_sec = attrs.atime_sec }))
        ⨾ buf_put_int64 attrs.atime_nsec
            (at_attrs (λ a. record a { atime_nsec = attrs.atime_nsec }))
        ⨾ buf_put_int64 attrs.mtime_sec (at_attrs (λ a. record a { mtime_sec = attrs.mtime_sec }))
        ⨾ buf_put_int64 attrs.mtime_nsec
            (at_attrs (λ a. record a { mtime_nsec = attrs.mtime_nsec }))
        ⨾ buf_put_int64 attrs.ctime_sec (at_attrs (λ a. record a { ctime_sec = attrs.ctime_sec }))
        ⨾ buf_put_int64 attrs.ctime_nsec
            (at_attrs (λ a. record a { ctime_nsec = attrs.ctime_nsec }))
        ⨾ buf_put_int64 attrs.btime_sec (at_attrs (λ a. record a { btime_sec = attrs.btime_sec }))
        ⨾ buf_put_int64 attrs.btime_nsec
            (at_attrs (λ a. record a { btime_nsec = attrs.btime_nsec }))
        ⨾ buf_put_int64 attrs.gen (at_attrs (λ a. record a { gen = attrs.gen }))
        ⨾ buf_put_int64 attrs.data_version
            (at_attrs (λ a. record a { data_version = attrs.data_version })))

unfoldable pub np_create_tsetattr : Option Npfcall → ℕ → ℕ → Npattrs → Option Packet
np_create_tsetattr mem fid mask attrs =
    made (np_create_common mem (4 + 4 + 4 + 4 + 8 + 8 + 8 + 8) tsetattr) (
      buf_put_int32 fid (λ fc. record fc { fid = fid })
      ⨾ buf_put_int32 mask (λ fc. fc)
      ⨾ set_fields (λ fc. record fc { mask = mask; attrs = record fc.attrs { mask = mask } })
      ⨾ buf_put_int32 attrs.mode (at_attrs (λ a. record a { mode = attrs.mode }))
      ⨾ buf_put_int32 attrs.uid (at_attrs (λ a. record a { uid = attrs.uid }))
      ⨾ buf_put_int32 attrs.gid (at_attrs (λ a. record a { gid = attrs.gid }))
      ⨾ buf_put_int64 attrs.size (at_attrs (λ a. record a { size = attrs.size }))
      ⨾ buf_put_int64 attrs.atime_sec (at_attrs (λ a. record a { atime_sec = attrs.atime_sec }))
      ⨾ buf_put_int64 attrs.atime_nsec (at_attrs (λ a. record a { atime_nsec = attrs.atime_nsec }))
      ⨾ buf_put_int64 attrs.mtime_sec (at_attrs (λ a. record a { mtime_sec = attrs.mtime_sec }))
      ⨾ buf_put_int64 attrs.mtime_nsec (at_attrs (λ a. record a { mtime_nsec = attrs.mtime_nsec })))
