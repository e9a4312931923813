-- ===== src/Wire/Made/Every.antt =====
-- libnpfs/np.c: the packet of every message.
use mathlib.Core.Bool.{true≢false}
use npfs.Prelude.{All, Bool, some, ◌<◌, ◌≡◌, true, false, sym}
use npfs.Wire.Layout.{Fits, packet_size}
use npfs.Wire.Made.{Makes}
use npfs.Wire.Message.{Message, fields, type_of}
use npfs.Types.{Npfcall}
use npfs.Wire.Message.Create.{create, is_whole}
use npfs.Constants.{notag}
use npfs.Wire.Made.Session.{
  np_create_rattach-Makes, np_create_rauth-Makes, np_create_rerror-Makes, np_create_rflush-Makes,
  np_create_rversion-Makes, np_create_rwalk-Makes, np_create_tattach-Makes, np_create_tauth-Makes,
  np_create_tflush-Makes, np_create_tversion-Makes, np_create_twalk-Makes,
}
use npfs.Wire.Made.Files.{
  np_create_rclunk-Makes, np_create_rcreate-Makes, np_create_ropen-Makes, np_create_rread-Makes,
  np_create_rremove-Makes, np_create_rstat-Makes, np_create_rwrite-Makes, np_create_rwstat-Makes,
  np_create_tclunk-Makes, np_create_tcreate-Makes, np_create_topen-Makes, np_create_tread-Makes,
  np_create_tremove-Makes, np_create_tstat-Makes, np_create_twrite-Makes, np_create_twstat-Makes,
}
use npfs.Wire.Made.Dirs.{
  np_create_rfsync-Makes, np_create_rlink-Makes, np_create_rlock-Makes, np_create_rmkdir-Makes,
  np_create_rreaddir-Makes, np_create_rrenameat-Makes, np_create_runlinkat-Makes,
  np_create_tfsync-Makes, np_create_tgetlock-Makes, np_create_tlink-Makes, np_create_tlock-Makes,
  np_create_tmkdir-Makes, np_create_treaddir-Makes, np_create_trenameat-Makes,
  np_create_tunlinkat-Makes,
}
use npfs.Wire.Made.Attrs.{
  np_create_rgetattr-Makes, np_create_rsetattr-Makes, np_create_rxattrcreate-Makes,
  np_create_rxattrwalk-Makes, np_create_tgetattr-Makes, np_create_txattrcreate-Makes,
  np_create_txattrwalk-Makes,
}
use npfs.Wire.Made.Names.{
  np_create_rlcreate-Makes, np_create_rlerror-Makes, np_create_rlopen-Makes, np_create_rmknod-Makes,
  np_create_rreadlink-Makes, np_create_rrename-Makes, np_create_rsymlink-Makes,
  np_create_tlcreate-Makes, np_create_tlopen-Makes, np_create_tmknod-Makes,
  np_create_treadlink-Makes, np_create_trename-Makes, np_create_tstatfs-Makes,
  np_create_tsymlink-Makes,
}

-- Where the fields of a message hold its values and the packet is shorter than 2^31, and the message
-- is no Tauth or Tcreate of 9P2000.u, the function that makes the message returns a packet with the size, the type, NOTAG and those fields in the
-- layout of the protocol, and the struct has the same size, type and tag.
pub create-Makes :
    (dotu : Bool) (mem : Npfcall) (m : Message)
    → is_whole dotu m ≡ true
    → All Fits (fields dotu m)
    → packet_size (fields dotu m) < 0x8000_0000
    → Makes (create dotu (some mem) m) (type_of m) notag (fields dotu m)
create-Makes dotu mem (Message.tversion msize version) whole =
    np_create_tversion-Makes mem dotu msize version
create-Makes dotu mem (Message.rversion msize version) whole =
    np_create_rversion-Makes mem dotu msize version
create-Makes true mem (Message.tauth fid uname aname n_uname) whole =
    absurd (true≢false (sym whole))
create-Makes false mem (Message.tauth fid uname aname n_uname) whole =
    np_create_tauth-Makes mem fid uname aname n_uname
create-Makes dotu mem (Message.rauth qid) whole = np_create_rauth-Makes mem dotu qid
create-Makes dotu mem (Message.tattach fid afid uname aname n_uname) whole =
    np_create_tattach-Makes mem dotu fid afid uname aname n_uname
create-Makes dotu mem (Message.rattach qid) whole = np_create_rattach-Makes mem dotu qid
create-Makes dotu mem (Message.rerror ename ecode) whole =
    np_create_rerror-Makes mem dotu ename ecode
create-Makes dotu mem (Message.tflush oldtag) whole = np_create_tflush-Makes mem dotu oldtag
create-Makes dotu mem Message.rflush whole = np_create_rflush-Makes mem dotu
create-Makes dotu mem (Message.twalk fid newfid names) whole =
    np_create_twalk-Makes mem dotu fid newfid names
create-Makes dotu mem (Message.rwalk qids) whole = np_create_rwalk-Makes mem dotu qids
create-Makes dotu mem (Message.topen fid mode) whole = np_create_topen-Makes mem dotu fid mode
create-Makes dotu mem (Message.ropen qid iounit) whole = np_create_ropen-Makes mem dotu qid iounit
create-Makes true mem (Message.tcreate fid name perm mode extension) whole =
    absurd (true≢false (sym whole))
create-Makes false mem (Message.tcreate fid name perm mode extension) whole =
    np_create_tcreate-Makes mem fid name perm mode extension
create-Makes dotu mem (Message.rcreate qid iounit) whole =
    np_create_rcreate-Makes mem dotu qid iounit
create-Makes dotu mem (Message.tread fid offset count) whole =
    np_create_tread-Makes mem dotu fid offset count
create-Makes dotu mem (Message.rread payload) whole = np_create_rread-Makes mem dotu payload
create-Makes dotu mem (Message.twrite fid offset payload) whole =
    np_create_twrite-Makes mem dotu fid offset payload
create-Makes dotu mem (Message.rwrite count) whole = np_create_rwrite-Makes mem dotu count
create-Makes dotu mem (Message.tclunk fid) whole = np_create_tclunk-Makes mem dotu fid
create-Makes dotu mem Message.rclunk whole = np_create_rclunk-Makes mem dotu
create-Makes dotu mem (Message.tremove fid) whole = np_create_tremove-Makes mem dotu fid
create-Makes dotu mem Message.rremove whole = np_create_rremove-Makes mem dotu
create-Makes dotu mem (Message.tstat fid) whole = np_create_tstat-Makes mem dotu fid
create-Makes dotu mem (Message.rstat wstat) whole = np_create_rstat-Makes mem dotu wstat
create-Makes dotu mem (Message.twstat fid wstat) whole = np_create_twstat-Makes mem dotu fid wstat
create-Makes dotu mem Message.rwstat whole = np_create_rwstat-Makes mem dotu
create-Makes dotu mem (Message.rlerror ecode) whole = np_create_rlerror-Makes mem dotu ecode
create-Makes dotu mem (Message.tstatfs fid) whole = np_create_tstatfs-Makes mem dotu fid
create-Makes dotu mem (Message.tlopen fid flags) whole = np_create_tlopen-Makes mem dotu fid flags
create-Makes dotu mem (Message.rlopen qid iounit) whole = np_create_rlopen-Makes mem dotu qid iounit
create-Makes dotu mem (Message.tlcreate fid name flags mode gid) whole =
    np_create_tlcreate-Makes mem dotu fid name flags mode gid
create-Makes dotu mem (Message.rlcreate qid iounit) whole =
    np_create_rlcreate-Makes mem dotu qid iounit
create-Makes dotu mem (Message.tsymlink dfid name symtgt gid) whole =
    np_create_tsymlink-Makes mem dotu dfid name symtgt gid
create-Makes dotu mem (Message.rsymlink qid) whole = np_create_rsymlink-Makes mem dotu qid
create-Makes dotu mem (Message.tmknod dfid name mode major minor gid) whole =
    np_create_tmknod-Makes mem dotu dfid name mode major minor gid
create-Makes dotu mem (Message.rmknod qid) whole = np_create_rmknod-Makes mem dotu qid
create-Makes dotu mem (Message.trename fid dfid name) whole =
    np_create_trename-Makes mem dotu fid dfid name
create-Makes dotu mem Message.rrename whole = np_create_rrename-Makes mem dotu
create-Makes dotu mem (Message.treadlink fid) whole = np_create_treadlink-Makes mem dotu fid
create-Makes dotu mem (Message.rreadlink target) whole = np_create_rreadlink-Makes mem dotu target
create-Makes dotu mem (Message.tgetattr fid mask) whole = np_create_tgetattr-Makes mem dotu fid mask
create-Makes dotu mem (Message.rgetattr mask attrs q) whole =
    np_create_rgetattr-Makes mem dotu mask attrs q
create-Makes dotu mem Message.rsetattr whole = np_create_rsetattr-Makes mem dotu
create-Makes dotu mem (Message.txattrwalk fid newfid name) whole =
    np_create_txattrwalk-Makes mem dotu fid newfid name
create-Makes dotu mem (Message.rxattrwalk asize) whole = np_create_rxattrwalk-Makes mem dotu asize
create-Makes dotu mem (Message.txattrcreate fid name asize flags) whole =
    np_create_txattrcreate-Makes mem dotu fid name asize flags
create-Makes dotu mem Message.rxattrcreate whole = np_create_rxattrcreate-Makes mem dotu
create-Makes dotu mem (Message.treaddir fid offset count) whole =
    np_create_treaddir-Makes mem dotu fid offset count
create-Makes dotu mem (Message.rreaddir payload) whole = np_create_rreaddir-Makes mem dotu payload
create-Makes dotu mem (Message.tfsync fid) whole = np_create_tfsync-Makes mem dotu fid
create-Makes dotu mem Message.rfsync whole = np_create_rfsync-Makes mem dotu
create-Makes dotu mem (Message.tlock fid type flags offset len procid clientid) whole =
    np_create_tlock-Makes mem dotu fid type flags offset len procid clientid
create-Makes dotu mem (Message.rlock status) whole = np_create_rlock-Makes mem dotu status
create-Makes dotu mem (Message.tgetlock fid type offset len procid clientid) whole =
    np_create_tgetlock-Makes mem dotu fid type offset len procid clientid
create-Makes dotu mem (Message.tlink dfid fid name) whole =
    np_create_tlink-Makes mem dotu dfid fid name
create-Makes dotu mem Message.rlink whole = np_create_rlink-Makes mem dotu
create-Makes dotu mem (Message.tmkdir dfid name mode gid) whole =
    np_create_tmkdir-Makes mem dotu dfid name mode gid
create-Makes dotu mem (Message.rmkdir qid) whole = np_create_rmkdir-Makes mem dotu qid
create-Makes dotu mem (Message.trenameat odfid oname ndfid nname) whole =
    np_create_trenameat-Makes mem dotu odfid oname ndfid nname
create-Makes dotu mem Message.rrenameat whole = np_create_rrenameat-Makes mem dotu
create-Makes dotu mem (Message.tunlinkat dfid name flags) whole =
    np_create_tunlinkat-Makes mem dotu dfid name flags
create-Makes dotu mem Message.runlinkat whole = np_create_runlinkat-Makes mem dotu
