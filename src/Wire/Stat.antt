-- ===== src/Wire/Stat.antt =====
-- libnpfs/np.c: the stat and statfs structures and the directory entries as bytes.
use npfs.Prelude.{◌⨾◌, ℕ, ◌+◌, ◌-◌, Bool, true, false, List, [], ltb, length, if◌then◌else◌, pass}
use npfs.Types.{Npstr, Npqid, Npstat, Npstatfs, zero_stat}
use npfs.Wire.Put.{
  Wbuf, Fill, buf_init, set_fields, buf_put_int8, buf_put_int16, buf_put_int32, buf_put_int64,
  buf_put_str, buf_put_qid,
}
use npfs.Wire.Get.{
  Rbuf, Scan, into, assign, buf_get_int16, buf_get_int32, buf_get_int64, buf_get_str, buf_get_qid,
}

-- The strings are C strings, and a NULL pointer is put and measured like the empty string.
pub record Npwstat : Type 0 where
  pub type : ℕ
  pub dev : ℕ
  pub qid : Npqid
  pub mode : ℕ
  pub atime : ℕ
  pub mtime : ℕ
  pub length : ℕ
  pub name : Npstr
  pub uid : Npstr
  pub gid : Npstr
  pub muid : Npstr
  pub extension : Npstr
  pub n_uid : ℕ
  pub n_gid : ℕ
  pub n_muid : ℕ

-- The size without the two bytes of the size field itself.
unfoldable pub size_wstat : Npwstat → Bool → ℕ
size_wstat wstat dotu =
    2
    + 4
    + 13
    + 4
    + 4
    + 4
    + 8
    + 8
    + length wstat.name
    + length wstat.uid
    + length wstat.gid
    + length wstat.muid
    + (if dotu then 4 + 4 + 4 + 2 + length wstat.extension else 0)

unfoldable pub size_statfs : Npstatfs → ℕ
size_statfs stfs = 4 + 8 + 8 + 8 + 8 + 8 + 8 + 8 + 4

-- `at` is the place of the struct that the pval pointers point into.
module _ {T : Type 0} where
  unfoldable pub put_dotu_stat : Npwstat → ((Npstat → Npstat) → T → T) → Bool → Fill T
  put_dotu_stat w at true =
      buf_put_str w.extension (at (λ s. record s { extension = w.extension }))
      ⨾ buf_put_int32 w.n_uid (at (λ s. record s { n_uid = w.n_uid }))
      ⨾ buf_put_int32 w.n_gid (at (λ s. record s { n_gid = w.n_gid }))
      ⨾ buf_put_int32 w.n_muid (at (λ s. record s { n_muid = w.n_muid }))
  put_dotu_stat w at false = set_fields (at (λ s. record s { extension = [] }))

  unfoldable pub buf_put_wstat : Npwstat → ((Npstat → Npstat) → T → T) → ℕ → Bool → Fill T
  buf_put_wstat w at statsz dotu =
      buf_put_int16 statsz (at (λ s. record s { size = statsz }))
      ⨾ buf_put_int16 w.type (at (λ s. record s { type = w.type }))
      ⨾ buf_put_int32 w.dev (at (λ s. record s { dev = w.dev }))
      ⨾ buf_put_qid w.qid (λ g. at (λ s. record s { qid = g s.qid }))
      ⨾ buf_put_int32 w.mode (at (λ s. record s { mode = w.mode }))
      ⨾ buf_put_int32 w.atime (at (λ s. record s { atime = w.atime }))
      ⨾ buf_put_int32 w.mtime (at (λ s. record s { mtime = w.mtime }))
      ⨾ buf_put_int64 w.length (at (λ s. record s { length = w.length }))
      ⨾ buf_put_str w.name (at (λ s. record s { name = w.name }))
      ⨾ buf_put_str w.uid (at (λ s. record s { uid = w.uid }))
      ⨾ buf_put_str w.gid (at (λ s. record s { gid = w.gid }))
      ⨾ buf_put_str w.muid (at (λ s. record s { muid = w.muid }))
      ⨾ put_dotu_stat w at dotu

  unfoldable pub buf_put_statfs : Npstatfs → ((Npstatfs → Npstatfs) → T → T) → Fill T
  buf_put_statfs f at =
      buf_put_int32 f.type (at (λ s. record s { type = f.type }))
      ⨾ buf_put_int32 f.bsize (at (λ s. record s { bsize = f.bsize }))
      ⨾ buf_put_int64 f.blocks (at (λ s. record s { blocks = f.blocks }))
      ⨾ buf_put_int64 f.bfree (at (λ s. record s { bfree = f.bfree }))
      ⨾ buf_put_int64 f.bavail (at (λ s. record s { bavail = f.bavail }))
      ⨾ buf_put_int64 f.files (at (λ s. record s { files = f.files }))
      ⨾ buf_put_int64 f.ffree (at (λ s. record s { ffree = f.ffree }))
      ⨾ buf_put_int64 f.fsid (at (λ s. record s { fsid = f.fsid }))
      ⨾ buf_put_int32 f.namelen (at (λ s. record s { namelen = f.namelen }))

  unfoldable pub buf_put_dirent : Npqid → ℕ → ℕ → Npstr → Fill T
  buf_put_dirent qid offset type name =
      buf_put_qid qid (λ g x. x)
      ⨾ buf_put_int64 offset pass
      ⨾ buf_put_int8 type pass
      ⨾ buf_put_str name pass

  unfoldable pub get_dotu_stat : ((Npstat → Npstat) → T → T) → Bool → Scan T
  get_dotu_stat at true =
      into buf_get_str (λ v. at (λ s. record s { extension = v }))
      ⨾ into buf_get_int32 (λ v. at (λ s. record s { n_uid = v }))
      ⨾ into buf_get_int32 (λ v. at (λ s. record s { n_gid = v }))
      ⨾ into buf_get_int32 (λ v. at (λ s. record s { n_muid = v }))
  get_dotu_stat at false = assign (at (λ s. record s { extension = [] }))

  unfoldable pub buf_get_stat : ((Npstat → Npstat) → T → T) → Bool → Scan T
  buf_get_stat at dotu =
      into buf_get_int16 (λ v. at (λ s. record s { size = v }))
      ⨾ into buf_get_int16 (λ v. at (λ s. record s { type = v }))
      ⨾ into buf_get_int32 (λ v. at (λ s. record s { dev = v }))
      ⨾ buf_get_qid (λ g. at (λ s. record s { qid = g s.qid }))
      ⨾ into buf_get_int32 (λ v. at (λ s. record s { mode = v }))
      ⨾ into buf_get_int32 (λ v. at (λ s. record s { atime = v }))
      ⨾ into buf_get_int32 (λ v. at (λ s. record s { mtime = v }))
      ⨾ into buf_get_int64 (λ v. at (λ s. record s { length = v }))
      ⨾ into buf_get_str (λ v. at (λ s. record s { name = v }))
      ⨾ into buf_get_str (λ v. at (λ s. record s { uid = v }))
      ⨾ into buf_get_str (λ v. at (λ s. record s { gid = v }))
      ⨾ into buf_get_str (λ v. at (λ s. record s { muid = v }))
      ⨾ get_dotu_stat at dotu

  unfoldable pub buf_get_statfs : ((Npstatfs → Npstatfs) → T → T) → Scan T
  buf_get_statfs at =
      into buf_get_int32 (λ v. at (λ s. record s { type = v }))
      ⨾ into buf_get_int32 (λ v. at (λ s. record s { bsize = v }))
      ⨾ into buf_get_int64 (λ v. at (λ s. record s { blocks = v }))
      ⨾ into buf_get_int64 (λ v. at (λ s. record s { bfree = v }))
      ⨾ into buf_get_int64 (λ v. at (λ s. record s { bavail = v }))
      ⨾ into buf_get_int64 (λ v. at (λ s. record s { files = v }))
      ⨾ into buf_get_int64 (λ v. at (λ s. record s { ffree = v }))
      ⨾ into buf_get_int64 (λ v. at (λ s. record s { fsid = v }))
      ⨾ into buf_get_int32 (λ v. at (λ s. record s { namelen = v }))

-- The result and the bytes written. `p - sp` counts the bytes.
unfoldable pub written : {T : Type 0} → T × Wbuf → ℕ × List ℕ
written (x, w) = if w.over then (0, w.out) else (length w.out, w.out)

-- `stat` is a local that nothing reads.
unfoldable pub np_serialize_stat : Npwstat → ℕ → Bool → ℕ × List ℕ
np_serialize_stat wstat buflen dotu =
    let statsz = size_wstat wstat dotu in
    if ltb buflen statsz
    then (0, [])
    else written (buf_put_wstat wstat (λ g. g) statsz dotu (zero_stat, buf_init buflen))

unfoldable pub np_serialize_dirent : Npqid → ℕ → ℕ → Npstr → ℕ → ℕ × List ℕ
np_serialize_dirent qid offset type name buflen =
    if ltb buflen (13 + 8 + 1 + 2 + length name)
    then (0, [])
    else written (buf_put_dirent qid offset type name (tt, buf_init buflen))

-- The number of bytes read, 0 where p passed the end, with the struct.
unfoldable pub consumed : ℕ → Npstat × Rbuf → ℕ × Npstat
consumed buflen (stat, b) = if b.over then (0, stat) else (buflen - length b.rest, stat)

-- `buf` holds the buflen bytes.
unfoldable pub np_deserialize_stat : Npstat → List ℕ → Bool → ℕ × Npstat
np_deserialize_stat stat buf dotu =
    consumed (length buf)
      (buf_get_stat (λ g. g) dotu (stat, record { rest = buf; over = false; cut = false }))
