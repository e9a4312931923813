-- ===== src/Wire/Message/Filled.antt =====
-- The fields of Npfcall that a message carries. The others keep what the struct held before.
use npfs.Prelude.{Bool, [], if◌then◌else◌, length}
use npfs.Wire.Message.{Message}
use npfs.Types.{Npfcall, Npstat}
use npfs.Wire.Stat.{Npwstat, size_wstat}

abbrev pub filled_stat : Npwstat → Bool → Npstat → Npstat
filled_stat w dotu s = record s {
  size = size_wstat w dotu;
  type = w.type;
  dev = w.dev;
  qid = w.qid;
  mode = w.mode;
  atime = w.atime;
  mtime = w.mtime;
  length = w.length;
  name = w.name;
  uid = w.uid;
  gid = w.gid;
  muid = w.muid;
  extension = if dotu then w.extension else [];
  n_uid = if dotu then w.n_uid else s.n_uid;
  n_gid = if dotu then w.n_gid else s.n_gid;
  n_muid = if dotu then w.n_muid else s.n_muid;
}

-- Without 9P2000.u a number that only it has is ~0, and a text is empty.
abbrev pub filled : Bool → Message → Npfcall → Npfcall
filled dotu (Message.tversion msize version) fc = record fc { msize = msize; version = version }
filled dotu (Message.rversion msize version) fc = record fc { msize = msize; version = version }
filled dotu (Message.tauth fid uname aname n_uname) fc = record fc {
  afid = fid;
  uname = uname;
  aname = aname;
  n_uname = if dotu then n_uname else 0xffff_ffff;
}
filled dotu (Message.rauth qid) fc = record fc { qid = qid }
filled dotu (Message.tattach fid afid uname aname n_uname) fc = record fc {
  fid = fid;
  afid = afid;
  uname = uname;
  aname = aname;
  n_uname = if dotu then n_uname else 0xffff_ffff;
}
filled dotu (Message.rattach qid) fc = record fc { qid = qid }
filled dotu (Message.rerror ename ecode) fc = record fc {
  ename = ename;
  ecode = if dotu then ecode else 0xffff_ffff;
}
filled dotu (Message.tflush oldtag) fc = record fc { oldtag = oldtag }
filled dotu Message.rflush fc = fc
filled dotu (Message.twalk fid newfid names) fc = record fc {
  fid = fid;
  newfid = newfid;
  nwname = length names;
  wnames = names;
}
filled dotu (Message.rwalk qids) fc = record fc { nwqid = length qids; wqids = qids }
filled dotu (Message.topen fid mode) fc = record fc { fid = fid; mode = mode }
filled dotu (Message.ropen qid iounit) fc = record fc { qid = qid; iounit = iounit }
filled dotu (Message.tcreate fid name perm mode extension) fc = record fc {
  fid = fid;
  name = name;
  perm = perm;
  mode = mode;
  extension = if dotu then extension else [];
}
filled dotu (Message.rcreate qid iounit) fc = record fc { qid = qid; iounit = iounit }
filled dotu (Message.tread fid offset count) fc = record fc {
  fid = fid;
  offset = offset;
  count = count;
}
filled dotu (Message.rread payload) fc = record fc { count = length payload; bytes = payload }
filled dotu (Message.twrite fid offset payload) fc = record fc {
  fid = fid;
  offset = offset;
  count = length payload;
  bytes = payload;
}
filled dotu (Message.rwrite count) fc = record fc { count = count }
filled dotu (Message.tclunk fid) fc = record fc { fid = fid }
filled dotu Message.rclunk fc = fc
filled dotu (Message.tremove fid) fc = record fc { fid = fid }
filled dotu Message.rremove fc = fc
filled dotu (Message.tstat fid) fc = record fc { fid = fid }
filled dotu (Message.rstat wstat) fc = record fc { stat = filled_stat wstat dotu fc.stat }
filled dotu (Message.twstat fid wstat) fc = record fc {
  fid = fid;
  stat = filled_stat wstat dotu fc.stat;
}
filled dotu Message.rwstat fc = fc
filled dotu (Message.rlerror ecode) fc = record fc { ecode = ecode }
filled dotu (Message.tstatfs fid) fc = record fc { fid = fid }
filled dotu (Message.tlopen fid flags) fc = record fc { fid = fid; flags = flags }
filled dotu (Message.rlopen qid iounit) fc = record fc { qid = qid; iounit = iounit }
filled dotu (Message.tlcreate fid name flags mode gid) fc = record fc {
  fid = fid;
  name = name;
  flags = flags;
  perm = mode;
  gid = gid;
}
filled dotu (Message.rlcreate qid iounit) fc = record fc { qid = qid; iounit = iounit }
filled dotu (Message.tsymlink dfid name symtgt gid) fc = record fc {
  dfid = dfid;
  name = name;
  symtgt = symtgt;
  gid = gid;
}
filled dotu (Message.rsymlink qid) fc = record fc { qid = qid }
filled dotu (Message.tmknod dfid name mode major minor gid) fc = record fc {
  fid = dfid;
  name = name;
  perm = mode;
  major = major;
  minor = minor;
  gid = gid;
}
filled dotu (Message.rmknod qid) fc = record fc { qid = qid }
filled dotu (Message.trename fid dfid name) fc = record fc { fid = fid; dfid = dfid; name = name }
filled dotu Message.rrename fc = fc
filled dotu (Message.treadlink fid) fc = record fc { fid = fid }
filled dotu (Message.rreadlink target) fc = record fc { symtgt = target }
filled dotu (Message.tgetattr fid mask) fc = record fc { fid = fid; mask = mask }
filled dotu (Message.rgetattr mask attrs q) fc = record fc {
  mask = mask;
  qid = q;
  attrs = record attrs { mask = fc.attrs.mask };
}
filled dotu Message.rsetattr fc = fc
filled dotu (Message.txattrwalk fid newfid name) fc = record fc {
  fid = fid;
  newfid = newfid;
  name = name;
}
filled dotu (Message.rxattrwalk asize) fc = record fc { asize = asize }
filled dotu (Message.txattrcreate fid name asize flags) fc = record fc {
  fid = fid;
  name = name;
  asize = asize;
  flags = flags;
}
filled dotu Message.rxattrcreate fc = fc
filled dotu (Message.treaddir fid offset count) fc = record fc {
  fid = fid;
  offset = offset;
  count = count;
}
filled dotu (Message.rreaddir payload) fc = record fc { count = length payload; bytes = payload }
filled dotu (Message.tfsync fid) fc = record fc { fid = fid }
filled dotu Message.rfsync fc = fc
filled dotu (Message.tlock fid type flags offset len procid clientid) fc = record fc {
  fid = fid;
  locktype = type;
  flags = flags;
  offset = offset;
  locklength = len;
  procid = procid;
  clientid = clientid;
}
filled dotu (Message.rlock status) fc = record fc { lockstatus = status }
filled dotu (Message.tgetlock fid type offset len procid clientid) fc = record fc {
  fid = fid;
  locktype = type;
  offset = offset;
  locklength = len;
  procid = procid;
  clientid = clientid;
}
filled dotu (Message.tlink dfid fid name) fc = record fc { dfid = dfid; fid = fid; name = name }
filled dotu Message.rlink fc = fc
filled dotu (Message.tmkdir dfid name mode gid) fc = record fc {
  fid = dfid;
  name = name;
  perm = mode;
  gid = gid;
}
filled dotu (Message.rmkdir qid) fc = record fc { qid = qid }
filled dotu (Message.trenameat odfid oname ndfid nname) fc = record fc {
  fid = odfid;
  oname = oname;
  newfid = ndfid;
  name = nname;
}
filled dotu Message.rrenameat fc = fc
filled dotu (Message.tunlinkat dfid name flags) fc = record fc {
  fid = dfid;
  name = name;
  flags = flags;
}
filled dotu Message.runlinkat fc = fc
