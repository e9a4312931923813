-- ===== src/Fcall/Attrs.antt =====
-- libnpfs/fcall.c: the requests of 9P2000.L on one fid that make no fid and no name.
use npfs.Prelude.{ℕ, Bool, Option, ◌==◌, if◌then◌else◌, has_bits, bit_and, bit_or}
use npfs.Types.{Npfcall}
use npfs.Constants.{
  eio, ftxattr, oread, owrite, ordwr, oexcl, otrunc, oappend, rxattrcreate, bad_use_fid,
}
use npfs.State.{Ptr, Npfid, Event, Env, M, pure, ◌>>=◌, ◌>>◌}
use npfs.State.Mem.{load, adjust}
use npfs.State.Call.{call_rc}
use npfs.Fcall.Reply.{fail, with_fid, has_type}

-- `flags & 3` of open(2), as an open mode of 9P.
abbrev access_mode : ℕ → ℕ
access_mode flags = if flags == 1 then owrite else if flags == 2 then ordwr else oread

abbrev add_mode : Bool → ℕ → ℕ → ℕ
add_mode set bits mode = if set then bit_or mode bits else mode

-- O_TRUNC is 0x200, O_APPEND is 0x400 and O_EXCL is 0x80.
unfoldable pub uflags2omode : ℕ → ℕ
uflags2omode flags = add_mode (has_bits flags 0x80) oexcl (
    add_mode (has_bits flags 0x400) oappend
      (add_mode (has_bits flags 0x200) otrunc (access_mode (bit_and flags 3))))

module _ (env : Env) where
  unfoldable pub np_statfs : Npfcall → M (Option Npfcall)
  np_statfs tc = with_fid env tc.fid λ p. call_rc env (Event.statfs p)

  unfoldable pub np_readlink : Npfcall → M (Option Npfcall)
  np_readlink tc = with_fid env tc.fid λ p. call_rc env (Event.readlink p)

  unfoldable pub np_getattr : Npfcall → M (Option Npfcall)
  np_getattr tc = with_fid env tc.fid λ p. call_rc env (Event.getattr p tc.mask)

  unfoldable pub np_setattr : Npfcall → M (Option Npfcall)
  np_setattr tc = with_fid env tc.fid λ p. call_rc env (Event.setattr p tc.attrs)

  unfoldable pub np_fsync : Npfcall → M (Option Npfcall)
  np_fsync tc = with_fid env tc.fid λ p. call_rc env (Event.fsync p)

  unfoldable pub np_flock : Npfcall → M (Option Npfcall)
  np_flock tc = with_fid env tc.fid λ p.
      call_rc env (Event.flock p tc.locktype tc.flags tc.offset tc.locklength tc.procid tc.clientid)

  unfoldable pub np_getlock : Npfcall → M (Option Npfcall)
  np_getlock tc =
      with_fid env tc.fid
        λ p. call_rc env (Event.getlock p tc.locktype tc.offset tc.locklength tc.procid tc.clientid)

  unfoldable pub np_lopen : Npfcall → M (Option Npfcall)
  np_lopen tc = with_fid env tc.fid λ p. do
    rc ← call_rc env (Event.lopen p tc.flags)
    adjust p (λ g. record g { omode = uflags2omode tc.flags })
    pure rc

  unfoldable pub xattrcreate_reply : Ptr → Option Npfcall → M (Option Npfcall)
  xattrcreate_reply p rc =
      if has_type rc rxattrcreate
      then adjust p (λ g. record g { type = bit_or g.type ftxattr }) >> pure rc
      else pure rc

  unfoldable pub xattrcreate_checked : Npfcall → Ptr → Npfid → M (Option Npfcall)
  xattrcreate_checked tc p f =
      if has_bits f.type ftxattr
      then fail env bad_use_fid eio
      else call_rc env (Event.xattrcreate p tc.name tc.asize tc.flags) >>= xattrcreate_reply p

  unfoldable pub np_xattrcreate : Npfcall → M (Option Npfcall)
  np_xattrcreate tc = with_fid env tc.fid λ p. load p >>= xattrcreate_checked tc p
