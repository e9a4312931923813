-- ===== src/Wire/Deserialize.antt =====
-- libnpfs/np.c: np_deserialize.
use npfs.Prelude.{
  ℕ, Bool, List, Option, [], false, if◌then◌else◌, leb, ltb, none, pass, some, true, ◌&&◌, ◌-◌,
  ◌==◌, ◌∷◌, ◌⨾◌,
}
use npfs.Types.{Npfcall}
use npfs.Wire.Get.{Rbuf, Scan, assign, buf_get_int16, buf_get_int8, into, split_at?}
use npfs.Wire.Bytes.{le_word}
use npfs.Constants.{
  nofid, rattach, rauth, rclunk, rcreate, rerror, rflush, rfsync, rgetattr, rgetlock, rlcreate,
  rlerror, rlink, rlock, rlopen, rmkdir, rmknod, ropen, rread, rreaddir, rreadlink, rremove,
  rrename, rrenameat, rsetattr, rstat, rstatfs, rsymlink, runlinkat, rversion, rwalk, rwrite,
  rwstat, rxattrcreate, rxattrwalk, tattach, tauth, tclunk, tcreate, tflush, tfsync, tgetattr,
  tgetlock, tlcreate, tlink, tlock, tlopen, tmkdir, tmknod, topen, tread, treaddir, treadlink,
  tremove, trename, trenameat, tsetattr, tstat, tstatfs, tsymlink, tunlinkat, tversion, twalk,
  twrite, twstat, txattrcreate, txattrwalk,
}
use npfs.Wire.Scan.Session.{
  scan_rattach, scan_rauth, scan_rerror, scan_rversion, scan_rwalk, scan_tattach, scan_tauth,
  scan_tflush, scan_tversion, scan_twalk,
}
use npfs.Wire.Scan.Attrs.{
  scan_rgetattr, scan_rxattrwalk, scan_tgetattr, scan_tsetattr, scan_txattrcreate, scan_txattrwalk,
}
use npfs.Wire.Scan.Dirs.{
  scan_rgetlock, scan_rlock, scan_rmkdir, scan_tfsync, scan_tgetlock, scan_tlink, scan_tlock,
  scan_tmkdir, scan_treaddir, scan_trenameat, scan_tunlinkat,
}
use npfs.Wire.Scan.Names.{
  scan_rlcreate, scan_rlerror, scan_rlopen, scan_rmknod, scan_rreadlink, scan_rstatfs,
  scan_rsymlink, scan_tlcreate, scan_tlopen, scan_tmknod, scan_treadlink, scan_trename,
  scan_tstatfs, scan_tsymlink,
}
use npfs.Wire.Scan.Files.{
  scan_ropen, scan_rread, scan_rstat, scan_rwrite, scan_tclunk, scan_tcreate, scan_topen,
  scan_tread, scan_twrite, scan_twstat,
}

-- 0; a packet whose size reaches past the bytes that are there; or the size and the message. The flag
-- is that of the buffer.
pub data Deserialized : Type 0 where
  refused : Deserialized
  overread : Deserialized
  parsed : ℕ → Npfcall → Bool → Deserialized

-- A case of the switch; none is `goto error`.
abbrev pub Case : Type 0
Case = Npfcall × Rbuf → Option (Npfcall × Rbuf)

unfoldable pub always : Scan Npfcall → Case
always f x = some (f x)

unfoldable pub switch : ℕ → List (ℕ × Case) → Case
switch type [] x = none
switch type ((t, c) ∷ cs) x = elim (type == t) [ true ↦ c x | false ↦ switch type cs x ]

-- The messages of 9P2000.L.
unfoldable pub cases_dotl : List (ℕ × Case)
cases_dotl =
    ((rlerror, always scan_rlerror)
      ∷ ((tstatfs, always scan_tstatfs)
          ∷ ((rstatfs, always scan_rstatfs)
              ∷ ((tlopen, always scan_tlopen)
                  ∷ ((rlopen, always scan_rlopen)
                      ∷ ((tlcreate, always scan_tlcreate)
                          ∷ ((rlcreate, always scan_rlcreate)
                              ∷ ((tsymlink, always scan_tsymlink)
                                  ∷ ((rsymlink, always scan_rsymlink)
                                      ∷ ((tmknod, always scan_tmknod)
                                          ∷ ((rmknod, always scan_rmknod)
                                              ∷ ((trename, always scan_trename)
                                                  ∷ ((rrename, always pass)
                                                      ∷ ((treadlink, always scan_treadlink)
                                                          ∷ ((rreadlink, always scan_rreadlink)
                                                            ∷ ((tgetattr, always scan_tgetattr)
                                                            ∷ ((rgetattr, always scan_rgetattr)
                                                            ∷ ((tsetattr, always scan_tsetattr)
                                                            ∷ ((rsetattr, always pass)
                                                            ∷ ((txattrwalk, always scan_txattrwalk)
                                                            ∷ ((rxattrwalk, always scan_rxattrwalk)
                                                            ∷ ((
                                                            txattrcreate,
                                                            always scan_txattrcreate,
                                                            )
                                                            ∷ ((rxattrcreate, always pass)
                                                            ∷ ((treaddir, always scan_treaddir)
                                                            ∷ ((rreaddir, always scan_rread)
                                                            ∷ ((tfsync, always scan_tfsync)
                                                            ∷ ((rfsync, always pass)
                                                            ∷ ((tlock, always scan_tlock)
                                                            ∷ ((rlock, always scan_rlock)
                                                            ∷ ((tgetlock, always scan_tgetlock)
                                                            ∷ ((rgetlock, always scan_rgetlock)
                                                            ∷ ((tlink, always scan_tlink)
                                                            ∷ ((rlink, always pass)
                                                            ∷ ((tmkdir, always scan_tmkdir)
                                                            ∷ ((rmkdir, always scan_rmkdir)
                                                            ∷ ((trenameat, always scan_trenameat)
                                                            ∷ ((rrenameat, always pass)
                                                            ∷ ((tunlinkat, always scan_tunlinkat)
                                                            ∷ ((runlinkat, always pass)
                                                            ∷ [])))))))))))))))))))))))))))))))))))))))

unfoldable pub cases : Bool → List (ℕ × Case)
cases dotu =
    ((tversion, always scan_tversion)
      ∷ ((rversion, always scan_rversion)
          ∷ ((tauth, always (scan_tauth dotu))
              ∷ ((rauth, always scan_rauth)
                  ∷ ((tattach, always (scan_tattach dotu))
                      ∷ ((rattach, always scan_rattach)
                          ∷ ((rerror, always (scan_rerror dotu))
                              ∷ ((tflush, always scan_tflush)
                                  ∷ ((rflush, always pass)
                                      ∷ ((twalk, scan_twalk)
                                          ∷ ((rwalk, scan_rwalk)
                                              ∷ ((topen, always scan_topen)
                                                  ∷ ((ropen, always scan_ropen)
                                                      ∷ ((tcreate, always (scan_tcreate dotu))
                                                          ∷ ((rcreate, always scan_ropen)
                                                            ∷ ((tread, always scan_tread)
                                                            ∷ ((rread, always scan_rread)
                                                            ∷ ((twrite, always scan_twrite)
                                                            ∷ ((rwrite, always scan_rwrite)
                                                            ∷ ((tclunk, always scan_tclunk)
                                                            ∷ ((rclunk, always pass)
                                                            ∷ ((tremove, always scan_tclunk)
                                                            ∷ ((rremove, always pass)
                                                            ∷ ((tstat, always scan_tclunk)
                                                            ∷ ((rstat, always (scan_rstat dotu))
                                                            ∷ ((twstat, always (scan_twstat dotu))
                                                            ∷ ((rwstat, always pass)
                                                            ∷ cases_dotl)))))))))))))))))))))))))))

unfoldable pub scan_header : Scan Npfcall
scan_header =
    into buf_get_int8 (λ v fc. record fc { type = v })
    ⨾ into buf_get_int16 (λ v fc. record fc { tag = v })
    ⨾ assign (λ fc. record fc { fid = nofid; afid = nofid; newfid = nofid })

unfoldable pub scan_switch : Bool → Case
scan_switch dotu (fc, b) = switch fc.type (cases dotu) (fc, b)

unfoldable pub finish : ℕ → Option (Npfcall × Rbuf) → Deserialized
finish size none = refused
finish size (some (fc, b)) = if b.over then refused else parsed size fc b.cut

-- The bytes up to ep, if they are there.
unfoldable pub scan_window : Npfcall → ℕ → Bool → Option (List ℕ × List ℕ) → Deserialized
scan_window fc size dotu none = overread
scan_window fc size dotu (some (window, behind)) = finish size (
    scan_switch dotu (
      scan_header (record fc { size = size }, record { rest = window; over = false; cut = false })))

-- The length size - 4 is an int. Where it is negative nothing can be read, the type is 0, and no
-- case has it.
unfoldable pub deserialize_sized : Npfcall → Bool → ℕ → List ℕ → Deserialized
deserialize_sized fc dotu size rest =
    if leb 4 size && ltb size 0x8000_0004
    then scan_window fc size dotu (split_at? (size - 4) rest)
    else refused

unfoldable pub deserialize_from : Npfcall → Bool → Option (List ℕ × List ℕ) → Deserialized
deserialize_from fc dotu none = overread
deserialize_from fc dotu (some (head, rest)) = deserialize_sized fc dotu (le_word head) rest

-- `bytes` are the bytes from `data` on.
unfoldable pub np_deserialize : Npfcall → List ℕ → Bool → Deserialized
np_deserialize fc bytes dotu = deserialize_from fc dotu (split_at? 4 bytes)
