-- ===== src/Wire/Parsed/Every.antt =====
-- libnpfs/np.c: the case of np_deserialize for every message.
use npfs.Prelude.{Bool}
use npfs.Wire.Message.{Message}
use npfs.Wire.Parsed.{ScansMessage}
use npfs.Wire.Parsed.Session.{
  scan_rattach-Scans, scan_rauth-Scans, scan_rerror-Scans, scan_rflush-Scans, scan_rversion-Scans,
  scan_rwalk-Scans, scan_tattach-Scans, scan_tauth-Scans, scan_tflush-Scans, scan_tversion-Scans,
  scan_twalk-Scans,
}
use npfs.Wire.Parsed.Files.{
  scan_rclunk-Scans, scan_rcreate-Scans, scan_ropen-Scans, scan_rread-Scans, scan_rremove-Scans,
  scan_rstat-Scans, scan_rwrite-Scans, scan_rwstat-Scans, scan_tclunk-Scans, scan_tcreate-Scans,
  scan_topen-Scans, scan_tread-Scans, scan_tremove-Scans, scan_tstat-Scans, scan_twrite-Scans,
  scan_twstat-Scans,
}
use npfs.Wire.Parsed.Dirs.{
  scan_rfsync-Scans, scan_rlink-Scans, scan_rlock-Scans, scan_rmkdir-Scans, scan_rreaddir-Scans,
  scan_rrenameat-Scans, scan_runlinkat-Scans, scan_tfsync-Scans, scan_tgetlock-Scans,
  scan_tlink-Scans, scan_tlock-Scans, scan_tmkdir-Scans, scan_treaddir-Scans, scan_trenameat-Scans,
  scan_tunlinkat-Scans,
}
use npfs.Wire.Parsed.Attrs.{
  scan_rgetattr-Scans, scan_rsetattr-Scans, scan_rxattrcreate-Scans, scan_rxattrwalk-Scans,
  scan_tgetattr-Scans, scan_txattrcreate-Scans, scan_txattrwalk-Scans,
}
use npfs.Wire.Parsed.Names.{
  scan_rlcreate-Scans, scan_rlerror-Scans, scan_rlopen-Scans, scan_rmknod-Scans,
  scan_rreadlink-Scans, scan_rrename-Scans, scan_rsymlink-Scans, scan_tlcreate-Scans,
  scan_tlopen-Scans, scan_tmknod-Scans, scan_treadlink-Scans, scan_trename-Scans,
  scan_tstatfs-Scans, scan_tsymlink-Scans,
}

pub switch-Scans : (dotu : Bool) (m : Message) → ScansMessage dotu m
switch-Scans dotu (Message.tversion msize version) = scan_tversion-Scans dotu msize version
switch-Scans dotu (Message.rversion msize version) = scan_rversion-Scans dotu msize version
switch-Scans dotu (Message.tauth fid uname aname n_uname) =
    scan_tauth-Scans dotu fid uname aname n_uname
switch-Scans dotu (Message.rauth qid) = scan_rauth-Scans dotu qid
switch-Scans dotu (Message.tattach fid afid uname aname n_uname) =
    scan_tattach-Scans dotu fid afid uname aname n_uname
switch-Scans dotu (Message.rattach qid) = scan_rattach-Scans dotu qid
switch-Scans dotu (Message.rerror ename ecode) = scan_rerror-Scans dotu ename ecode
switch-Scans dotu (Message.tflush oldtag) = scan_tflush-Scans dotu oldtag
switch-Scans dotu Message.rflush = scan_rflush-Scans dotu
switch-Scans dotu (Message.twalk fid newfid names) = scan_twalk-Scans dotu fid newfid names
switch-Scans dotu (Message.rwalk qids) = scan_rwalk-Scans dotu qids
switch-Scans dotu (Message.topen fid mode) = scan_topen-Scans dotu fid mode
switch-Scans dotu (Message.ropen qid iounit) = scan_ropen-Scans dotu qid iounit
switch-Scans dotu (Message.tcreate fid name perm mode extension) =
    scan_tcreate-Scans dotu fid name perm mode extension
switch-Scans dotu (Message.rcreate qid iounit) = scan_rcreate-Scans dotu qid iounit
switch-Scans dotu (Message.tread fid offset count) = scan_tread-Scans dotu fid offset count
switch-Scans dotu (Message.rread payload) = scan_rread-Scans dotu payload
switch-Scans dotu (Message.twrite fid offset payload) = scan_twrite-Scans dotu fid offset payload
switch-Scans dotu (Message.rwrite count) = scan_rwrite-Scans dotu count
switch-Scans dotu (Message.tclunk fid) = scan_tclunk-Scans dotu fid
switch-Scans dotu Message.rclunk = scan_rclunk-Scans dotu
switch-Scans dotu (Message.tremove fid) = scan_tremove-Scans dotu fid
switch-Scans dotu Message.rremove = scan_rremove-Scans dotu
switch-Scans dotu (Message.tstat fid) = scan_tstat-Scans dotu fid
switch-Scans dotu (Message.rstat wstat) = scan_rstat-Scans dotu wstat
switch-Scans dotu (Message.twstat fid wstat) = scan_twstat-Scans dotu fid wstat
switch-Scans dotu Message.rwstat = scan_rwstat-Scans dotu
switch-Scans dotu (Message.rlerror ecode) = scan_rlerror-Scans dotu ecode
switch-Scans dotu (Message.tstatfs fid) = scan_tstatfs-Scans dotu fid
switch-Scans dotu (Message.tlopen fid flags) = scan_tlopen-Scans dotu fid flags
switch-Scans dotu (Message.rlopen qid iounit) = scan_rlopen-Scans dotu qid iounit
switch-Scans dotu (Message.tlcreate fid name flags mode gid) =
    scan_tlcreate-Scans dotu fid name flags mode gid
switch-Scans dotu (Message.rlcreate qid iounit) = scan_rlcreate-Scans dotu qid iounit
switch-Scans dotu (Message.tsymlink dfid name symtgt gid) =
    scan_tsymlink-Scans dotu dfid name symtgt gid
switch-Scans dotu (Message.rsymlink qid) = scan_rsymlink-Scans dotu qid
switch-Scans dotu (Message.tmknod dfid name mode major minor gid) =
    scan_tmknod-Scans dotu dfid name mode major minor gid
switch-Scans dotu (Message.rmknod qid) = scan_rmknod-Scans dotu qid
switch-Scans dotu (Message.trename fid dfid name) = scan_trename-Scans dotu fid dfid name
switch-Scans dotu Message.rrename = scan_rrename-Scans dotu
switch-Scans dotu (Message.treadlink fid) = scan_treadlink-Scans dotu fid
switch-Scans dotu (Message.rreadlink target) = scan_rreadlink-Scans dotu target
switch-Scans dotu (Message.tgetattr fid mask) = scan_tgetattr-Scans dotu fid mask
switch-Scans dotu (Message.rgetattr mask attrs q) = scan_rgetattr-Scans dotu mask attrs q
switch-Scans dotu Message.rsetattr = scan_rsetattr-Scans dotu
switch-Scans dotu (Message.txattrwalk fid newfid name) = scan_txattrwalk-Scans dotu fid newfid name
switch-Scans dotu (Message.rxattrwalk asize) = scan_rxattrwalk-Scans dotu asize
switch-Scans dotu (Message.txattrcreate fid name asize flags) =
    scan_txattrcreate-Scans dotu fid name asize flags
switch-Scans dotu Message.rxattrcreate = scan_rxattrcreate-Scans dotu
switch-Scans dotu (Message.treaddir fid offset count) = scan_treaddir-Scans dotu fid offset count
switch-Scans dotu (Message.rreaddir payload) = scan_rreaddir-Scans dotu payload
switch-Scans dotu (Message.tfsync fid) = scan_tfsync-Scans dotu fid
switch-Scans dotu Message.rfsync = scan_rfsync-Scans dotu
switch-Scans dotu (Message.tlock fid type flags offset len procid clientid) =
    scan_tlock-Scans dotu fid type flags offset len procid clientid
switch-Scans dotu (Message.rlock status) = scan_rlock-Scans dotu status
switch-Scans dotu (Message.tgetlock fid type offset len procid clientid) =
    scan_tgetlock-Scans dotu fid type offset len procid clientid
switch-Scans dotu (Message.tlink dfid fid name) = scan_tlink-Scans dotu dfid fid name
switch-Scans dotu Message.rlink = scan_rlink-Scans dotu
switch-Scans dotu (Message.tmkdir dfid name mode gid) = scan_tmkdir-Scans dotu dfid name mode gid
switch-Scans dotu (Message.rmkdir qid) = scan_rmkdir-Scans dotu qid
switch-Scans dotu (Message.trenameat odfid oname ndfid nname) =
    scan_trenameat-Scans dotu odfid oname ndfid nname
switch-Scans dotu Message.rrenameat = scan_rrenameat-Scans dotu
switch-Scans dotu (Message.tunlinkat dfid name flags) = scan_tunlinkat-Scans dotu dfid name flags
switch-Scans dotu Message.runlinkat = scan_runlinkat-Scans dotu
