-- ===== src/Fcall/Files.antt =====
-- libnpfs/fcall.c: np_open to np_wstat, the requests of 9P2000 on one fid.
use npfs.Prelude.{
  ℕ, ◌+◌, ◌%◌, Bool, ◌&&◌, ◌||◌, not, Option, none, some, ◌==◌, ◌!=◌, ltb, if◌then◌else◌, has_bits,
  is_zero, is_negative, to_nat, bit_and,
}
use npfs.Types.{Npfcall}
use npfs.Constants.{
  eio, eperm, enotdir, iohdrsz, u32_mod, u64_max, nofid, qtauth, qtdir, ftxattr, onotopen, oread,
  owrite, orclose, dmdir, dmspecial, rerror, rclunk, rremove, rcreate, bad_use_fid, not_dir,
  perm_denied, too_large, bad_offset, dir_change,
}
use npfs.State.{Ptr, Npfid, Event, Outcome, Env, M, pure, fault, get, ◌>>=◌, ◌>>◌}
use npfs.State.Mem.{load, adjust}
use npfs.State.Call.{call, call_rc}
use npfs.Fidpool.{np_fid_decref}
use npfs.Fcall.Reply.{
  fail, with_fid, has_type, np_create_rclunk, np_create_rwrite, np_alloc_rread, np_set_rread_count,
}

-- `tc->count + IOHDRSZ > conn->msize`, a sum of u32.
unfoldable pub is_too_large : ℕ → ℕ → Bool
is_too_large count msize = ltb msize ((count + iohdrsz) % u32_mod)

module _ (env : Env) where
  unfoldable pub open_checked : Npfcall → Ptr → Npfid → M (Option Npfcall)
  open_checked tc p f =
      if f.omode != onotopen
      then fail env bad_use_fid eio
      else if has_bits f.type qtdir && (tc.mode != oread)
      then fail env perm_denied eperm
      else (do
        rc ← call_rc env (Event.open_fid p tc.mode)
        adjust p (λ g. record g { omode = tc.mode })
        pure rc)

  unfoldable pub np_open : Npfcall → M (Option Npfcall)
  np_open tc = with_fid env tc.fid λ p. load p >>= open_checked tc p

  -- A fid that a create request opened.
  unfoldable pub create_reply_opens : Ptr → ℕ → ℕ → Option Npfcall → M (Option Npfcall)
  create_reply_opens p type mode none = pure none
  create_reply_opens p type mode (some rc) =
      if rc.type == type
      then adjust p (λ g. record g { omode = mode; type = rc.qid.type }) >> pure (some rc)
      else pure (some rc)

  unfoldable pub create_checked : Npfcall → Ptr → Npfid → Bool → M (Option Npfcall)
  create_checked tc p f dotu =
      if f.omode != onotopen
      then fail env bad_use_fid eio
      else if not (has_bits f.type qtdir)
      then fail env not_dir enotdir
      else if has_bits tc.perm dmdir && (tc.mode != oread)
      then fail env perm_denied eperm
      else if has_bits tc.perm dmspecial && not dotu
      then fail env perm_denied eperm
      else call_rc env (Event.create p tc.name tc.perm tc.mode tc.extension)
        >>= create_reply_opens p rcreate tc.mode

  unfoldable pub np_create : Npfcall → M (Option Npfcall)
  np_create tc = with_fid env tc.fid λ p. load p >>= λ f. get >>= λ s. create_checked tc p f s.dotu

  unfoldable pub auth_read_into : Npfcall → Ptr → Option Npfcall → M (Option Npfcall)
  auth_read_into tc p none = pure none
  auth_read_into tc p (some rc) = do
    o ← call env (Event.auth_read p tc.offset tc.count)
    if is_negative o.ret
        then pure none
        else (np_set_rread_count env rc (to_nat o.ret) >>= λ rc'. pure (some rc'))

  unfoldable pub read_checked : Npfcall → Ptr → Npfid → M (Option Npfcall)
  read_checked tc p f =
      if has_bits f.type qtauth
      then if env.has_auth
        then np_alloc_rread env tc.count >>= auth_read_into tc p
        else fail env bad_use_fid eio
      else if has_bits f.type ftxattr
      then call_rc env (Event.xattrread p tc.offset tc.count)
      else if (f.omode == onotopen) || (bit_and f.omode 3 == owrite)
      then fail env bad_use_fid eio
      else if has_bits f.type qtdir && (tc.offset != f.diroffset)
      then fail env bad_offset eio
      else call_rc env (Event.read p tc.offset tc.count)

  unfoldable pub read_sized : Npfcall → Ptr → ℕ → M (Option Npfcall)
  read_sized tc p msize =
      if is_too_large tc.count msize then fail env too_large eio else load p >>= read_checked tc p

  unfoldable pub np_read : Npfcall → M (Option Npfcall)
  np_read tc = with_fid env tc.fid λ p. get >>= λ s. read_sized tc p s.msize

  unfoldable pub auth_written : Outcome → M (Option Npfcall)
  auth_written o = if is_negative o.ret then pure none else np_create_rwrite env (to_nat o.ret)

  unfoldable pub write_checked : Npfcall → Ptr → Npfid → ℕ → M (Option Npfcall)
  write_checked tc p f msize =
      if has_bits f.type qtauth
      then if env.has_auth
        then call env (Event.auth_write p tc.offset tc.count tc.bytes) >>= auth_written
        else fail env bad_use_fid eio
      else if has_bits f.type ftxattr
      then call_rc env (Event.xattrwrite p tc.offset tc.count tc.bytes)
      else if (f.omode == onotopen) || has_bits f.type qtdir || (bit_and f.omode 3 == oread)
      then fail env bad_use_fid eio
      else if is_too_large tc.count msize
      then fail env too_large eio
      else call_rc env (Event.write p tc.offset tc.count tc.bytes)

  unfoldable pub np_write : Npfcall → M (Option Npfcall)
  np_write tc = with_fid env tc.fid λ p. load p >>= λ f. get >>= λ s. write_checked tc p f s.msize

  -- The pool's own reference goes with a reply of the given type.
  unfoldable pub drop_on : ℕ → Ptr → Option Npfcall → M (Option Npfcall)
  drop_on type p rc = if has_type rc type then np_fid_decref env (some p) >> pure rc else pure rc

  unfoldable pub auth_clunked : Outcome → M (Option Npfcall)
  auth_clunked o = if is_zero o.ret then pure none else np_create_rclunk env

  -- `rc->type` is read where the file server's remove gave NULL, too.
  unfoldable pub clunk_removed : Ptr → Option Npfcall → M (Option Npfcall)
  clunk_removed p none s = fault
  clunk_removed p (some rc) s =
      (if rc.type == rerror then pure (some rc) else np_create_rclunk env >>= drop_on rclunk p) s

  -- The auth fid's clunk is called without a test that it is set.
  unfoldable pub auth_clunk : Ptr → M (Option Npfcall)
  auth_clunk p =
      if env.has_auth_clunk then call env (Event.auth_clunk p) >>= auth_clunked else λ s. fault

  unfoldable pub clunk_checked : Ptr → Npfid → M (Option Npfcall)
  clunk_checked p f =
      if has_bits f.type qtauth
      then if env.has_auth then auth_clunk p else fail env bad_use_fid eio
      else if (f.omode != onotopen) && (f.omode == orclose)
      then call_rc env (Event.remove p) >>= clunk_removed p
      else call_rc env (Event.clunk p) >>= drop_on rclunk p

  unfoldable pub np_clunk : Npfcall → M (Option Npfcall)
  np_clunk tc = with_fid env tc.fid λ p. load p >>= clunk_checked p

  unfoldable pub np_remove : Npfcall → M (Option Npfcall)
  np_remove tc = with_fid env tc.fid λ p. call_rc env (Event.remove p) >>= drop_on rremove p

  unfoldable pub np_stat : Npfcall → M (Option Npfcall)
  np_stat tc = with_fid env tc.fid λ p. call_rc env (Event.stat p)

  unfoldable pub wstat_checked : Npfcall → Ptr → Npfid → M (Option Npfcall)
  wstat_checked tc p f =
      if has_bits f.type qtdir && not (has_bits tc.stat.mode dmdir)
        || not (has_bits f.type qtdir) && has_bits tc.stat.mode dmdir
      then fail env dir_change eperm
      else call_rc env (Event.wstat p tc.stat)

  -- A wstat leaves the fields alone that are all ones.
  unfoldable pub np_wstat : Npfcall → M (Option Npfcall)
  np_wstat tc = with_fid env tc.fid λ p.
      if (tc.stat.type != 0xffff)
        || (tc.stat.dev != nofid)
        || (tc.stat.qid.version != nofid)
        || (tc.stat.qid.path != u64_max)
      then fail env perm_denied eperm
      else load p >>= wstat_checked tc p
