-- ===== src/Srv/Table.antt =====
-- libnpfs/srv.c: the table np_fcalls.
use npfs.Prelude.{Option, none, some, List, [], ◌∷◌}
use npfs.Types.{Npfcall}
use npfs.State.{Env, M}
use npfs.Fcall.Session.{np_version, np_auth, np_attach, np_flush}
use npfs.Fcall.Walk.{np_walk, np_xattrwalk}
use npfs.Fcall.Files.{np_open, np_create, np_read, np_write, np_clunk, np_remove, np_stat, np_wstat}
use npfs.Fcall.Attrs.{
  np_statfs, np_readlink, np_getattr, np_setattr, np_fsync, np_flock, np_getlock, np_lopen,
  np_xattrcreate,
}
use npfs.Fcall.Dirs.{
  np_lcreate, np_symlink, np_mknod, np_mkdir, np_unlinkat, np_rename, np_link, np_renameat,
  np_readdir,
}

-- The handlers, by name.
pub data Handler : Type 0 where
  statfs lopen lcreate symlink mknod rename readlink getattr setattr xattrwalk xattrcreate : Handler
  readdir fsync flock getlock link mkdir renameat unlinkat version auth attach flush walk : Handler
  open_fid create read write clunk remove stat wstat : Handler

-- The table of the handlers: entry i is for the message types 6 + 2 * i and 7 + 2 * i.
abbrev pub np_fcalls : List (Option Handler)
np_fcalls =
    none
    ∷ some statfs
    ∷ none
    ∷ some lopen
    ∷ some lcreate
    ∷ some symlink
    ∷ some mknod
    ∷ some rename
    ∷ some readlink
    ∷ some getattr
    ∷ some setattr
    ∷ none
    ∷ some xattrwalk
    ∷ some xattrcreate
    ∷ none
    ∷ none
    ∷ none
    ∷ some readdir
    ∷ none
    ∷ none
    ∷ none
    ∷ none
    ∷ some fsync
    ∷ some flock
    ∷ some getlock
    ∷ none
    ∷ none
    ∷ none
    ∷ none
    ∷ none
    ∷ none
    ∷ none
    ∷ some link
    ∷ some mkdir
    ∷ some renameat
    ∷ some unlinkat
    ∷ none
    ∷ none
    ∷ none
    ∷ none
    ∷ none
    ∷ none
    ∷ none
    ∷ none
    ∷ none
    ∷ none
    ∷ none
    ∷ some version
    ∷ some auth
    ∷ some attach
    ∷ none
    ∷ some flush
    ∷ some walk
    ∷ some open_fid
    ∷ some create
    ∷ some read
    ∷ some write
    ∷ some clunk
    ∷ some remove
    ∷ some stat
    ∷ some wstat
    ∷ []

module _ (env : Env) where
  unfoldable pub handle : Handler → Npfcall → M (Option Npfcall)
  handle statfs = np_statfs env
  handle lopen = np_lopen env
  handle lcreate = np_lcreate env
  handle symlink = np_symlink env
  handle mknod = np_mknod env
  handle rename = np_rename env
  handle readlink = np_readlink env
  handle getattr = np_getattr env
  handle setattr = np_setattr env
  handle xattrwalk = np_xattrwalk env
  handle xattrcreate = np_xattrcreate env
  handle readdir = np_readdir env
  handle fsync = np_fsync env
  handle flock = np_flock env
  handle getlock = np_getlock env
  handle link = np_link env
  handle mkdir = np_mkdir env
  handle renameat = np_renameat env
  handle unlinkat = np_unlinkat env
  handle version = np_version env
  handle auth = np_auth env
  handle attach = np_attach env
  handle flush = np_flush env
  handle walk = np_walk env
  handle open_fid = np_open env
  handle create = np_create env
  handle read = np_read env
  handle write = np_write env
  handle clunk = np_clunk env
  handle remove = np_remove env
  handle stat = np_stat env
  handle wstat = np_wstat env
