-- ===== src/Wire/Message/Create.antt =====
-- libnpfs/np.c: the function that makes a message, for each message.
use npfs.Prelude.{Bool, Option, not, true}
use npfs.Wire.Message.{Message}
use npfs.Types.{Npfcall}
use npfs.Wire.Create.{Packet}
use npfs.Wire.Create.Session.{
  np_create_rattach, np_create_rauth, np_create_rerror, np_create_rflush, np_create_rversion,
  np_create_rwalk, np_create_tattach, np_create_tauth, np_create_tflush, np_create_tversion,
  np_create_twalk,
}
use npfs.Wire.Create.Files.{
  np_create_rclunk, np_create_rcreate, np_create_ropen, np_create_rread, np_create_rremove,
  np_create_rstat, np_create_rwrite, np_create_rwstat, np_create_tclunk, np_create_tcreate,
  np_create_topen, np_create_tread, np_create_tremove, np_create_tstat, np_create_twrite,
  np_create_twstat,
}
use npfs.Wire.Create.Dirs.{
  np_create_rfsync, np_create_rlink, np_create_rlock, np_create_rmkdir, np_create_rreaddir,
  np_create_rrenameat, np_create_runlinkat, np_create_tfsync, np_create_tgetlock, np_create_tlink,
  np_create_tlock, np_create_tmkdir, np_create_treaddir, np_create_trenameat, np_create_tunlinkat,
}
use npfs.Wire.Create.Attrs.{
  np_create_rgetattr, np_create_rsetattr, np_create_rxattrcreate, np_create_rxattrwalk,
  np_create_tgetattr, np_create_txattrcreate, np_create_txattrwalk,
}
use npfs.Wire.Create.Names.{
  np_create_rlcreate, np_create_rlerror, np_create_rlopen, np_create_rmknod, np_create_rreadlink,
  np_create_rrename, np_create_rsymlink, np_create_tlcreate, np_create_tlopen, np_create_tmknod,
  np_create_treadlink, np_create_trename, np_create_tstatfs, np_create_tsymlink,
}

abbrev pub create : Bool → Option Npfcall → Message → Option Packet
create dotu mem (Message.tversion msize version) = np_create_tversion mem msize version
create dotu mem (Message.rversion msize version) = np_create_rversion mem msize version
create dotu mem (Message.tauth fid uname aname n_uname) =
    np_create_tauth mem fid uname aname n_uname dotu
create dotu mem (Message.rauth qid) = np_create_rauth mem qid
create dotu mem (Message.tattach fid afid uname aname n_uname) =
    np_create_tattach mem fid afid uname aname n_uname dotu
create dotu mem (Message.rattach qid) = np_create_rattach mem qid
create dotu mem (Message.rerror ename ecode) = np_create_rerror mem ename ecode dotu
create dotu mem (Message.tflush oldtag) = np_create_tflush mem oldtag
create dotu mem Message.rflush = np_create_rflush mem
create dotu mem (Message.twalk fid newfid names) = np_create_twalk mem fid newfid names
create dotu mem (Message.rwalk qids) = np_create_rwalk mem qids
create dotu mem (Message.topen fid mode) = np_create_topen mem fid mode
create dotu mem (Message.ropen qid iounit) = np_create_ropen mem qid iounit
create dotu mem (Message.tcreate fid name perm mode extension) =
    np_create_tcreate mem fid name perm mode
create dotu mem (Message.rcreate qid iounit) = np_create_rcreate mem qid iounit
create dotu mem (Message.tread fid offset count) = np_create_tread mem fid offset count
create dotu mem (Message.rread payload) = np_create_rread mem payload
create dotu mem (Message.twrite fid offset payload) = np_create_twrite mem fid offset payload
create dotu mem (Message.rwrite count) = np_create_rwrite mem count
create dotu mem (Message.tclunk fid) = np_create_tclunk mem fid
create dotu mem Message.rclunk = np_create_rclunk mem
create dotu mem (Message.tremove fid) = np_create_tremove mem fid
create dotu mem Message.rremove = np_create_rremove mem
create dotu mem (Message.tstat fid) = np_create_tstat mem fid
create dotu mem (Message.rstat wstat) = np_create_rstat mem wstat dotu
create dotu mem (Message.twstat fid wstat) = np_create_twstat mem fid wstat dotu
create dotu mem Message.rwstat = np_create_rwstat mem
create dotu mem (Message.rlerror ecode) = np_create_rlerror mem ecode
create dotu mem (Message.tstatfs fid) = np_create_tstatfs mem fid
create dotu mem (Message.tlopen fid flags) = np_create_tlopen mem fid flags
create dotu mem (Message.rlopen qid iounit) = np_create_rlopen mem qid iounit
create dotu mem (Message.tlcreate fid name flags mode gid) =
    np_create_tlcreate mem fid name flags mode gid
create dotu mem (Message.rlcreate qid iounit) = np_create_rlcreate mem qid iounit
create dotu mem (Message.tsymlink dfid name symtgt gid) =
    np_create_tsymlink mem dfid name symtgt gid
create dotu mem (Message.rsymlink qid) = np_create_rsymlink mem qid
create dotu mem (Message.tmknod dfid name mode major minor gid) =
    np_create_tmknod mem dfid name mode major minor gid
create dotu mem (Message.rmknod qid) = np_create_rmknod mem qid
create dotu mem (Message.trename fid dfid name) = np_create_trename mem fid dfid name
create dotu mem Message.rrename = np_create_rrename mem
create dotu mem (Message.treadlink fid) = np_create_treadlink mem fid
create dotu mem (Message.rreadlink target) = np_create_rreadlink mem target
create dotu mem (Message.tgetattr fid mask) = np_create_tgetattr mem fid mask
create dotu mem (Message.rgetattr mask attrs q) = np_create_rgetattr mem mask attrs q
create dotu mem Message.rsetattr = np_create_rsetattr mem
create dotu mem (Message.txattrwalk fid newfid name) = np_create_txattrwalk mem fid newfid name
create dotu mem (Message.rxattrwalk asize) = np_create_rxattrwalk mem asize
create dotu mem (Message.txattrcreate fid name asize flags) =
    np_create_txattrcreate mem fid name asize flags
create dotu mem Message.rxattrcreate = np_create_rxattrcreate mem
create dotu mem (Message.treaddir fid offset count) = np_create_treaddir mem fid offset count
create dotu mem (Message.rreaddir payload) = np_create_rreaddir mem payload
create dotu mem (Message.tfsync fid) = np_create_tfsync mem fid
create dotu mem Message.rfsync = np_create_rfsync mem
create dotu mem (Message.tlock fid type flags offset len procid clientid) =
    np_create_tlock mem fid type flags offset len procid clientid
create dotu mem (Message.rlock status) = np_create_rlock mem status
create dotu mem (Message.tgetlock fid type offset len procid clientid) =
    np_create_tgetlock mem fid type offset len procid clientid
create dotu mem (Message.tlink dfid fid name) = np_create_tlink mem dfid fid name
create dotu mem Message.rlink = np_create_rlink mem
create dotu mem (Message.tmkdir dfid name mode gid) = np_create_tmkdir mem dfid name mode gid
create dotu mem (Message.rmkdir qid) = np_create_rmkdir mem qid
create dotu mem (Message.trenameat odfid oname ndfid nname) =
    np_create_trenameat mem odfid oname ndfid nname
create dotu mem Message.rrenameat = np_create_rrenameat mem
create dotu mem (Message.tunlinkat dfid name flags) = np_create_tunlinkat mem dfid name flags
create dotu mem Message.runlinkat = np_create_runlinkat mem

-- np_create_tauth leaves out n_uname and np_create_tcreate the extension, which 9P2000.u has.
abbrev pub is_whole : Bool → Message → Bool
is_whole dotu (Message.tauth fid uname aname n_uname) = not dotu
is_whole dotu (Message.tcreate fid name perm mode extension) = not dotu
is_whole dotu m = true
