-- ===== src/Types.antt =====
-- include/npfs.h: the wire-level structures and the constants of the protocol.
-- A string (Npstr) is the list of its bytes; its len field is the length of that list.
use npfs.Prelude.{ℕ, List, []}

abbrev pub Npstr : Type 0
Npstr = List ℕ

pub record Npqid : Type 0 where
  pub type : ℕ
  pub version : ℕ
  pub path : ℕ

pub record Npstat : Type 0 where
  pub size : ℕ
  pub type : ℕ
  pub dev : ℕ
  pub qid : Npqid
  pub mode : ℕ
  pub atime : ℕ
  pub mtime : ℕ
  pub length : ℕ
  pub name : Npstr
  pub uid : Npstr
  pub gid : Npstr
  pub muid : Npstr
  pub extension : Npstr
  pub n_uid : ℕ
  pub n_gid : ℕ
  pub n_muid : ℕ

pub record Npstatfs : Type 0 where
  pub type : ℕ
  pub bsize : ℕ
  pub blocks : ℕ
  pub bfree : ℕ
  pub bavail : ℕ
  pub files : ℕ
  pub ffree : ℕ
  pub fsid : ℕ
  pub namelen : ℕ

pub record Npattrs : Type 0 where
  pub mask : ℕ
  pub mode : ℕ
  pub uid : ℕ
  pub gid : ℕ
  pub nlink : ℕ
  pub rdev : ℕ
  pub size : ℕ
  pub blksize : ℕ
  pub blocks : ℕ
  pub atime_sec : ℕ
  pub atime_nsec : ℕ
  pub mtime_sec : ℕ
  pub mtime_nsec : ℕ
  pub ctime_sec : ℕ
  pub ctime_nsec : ℕ
  pub btime_sec : ℕ
  pub btime_nsec : ℕ
  pub gen : ℕ
  pub data_version : ℕ

-- A message, without its packet buffer and its link in the free list.
pub record Npfcall : Type 0 where
  pub size : ℕ
  pub type : ℕ
  pub tag : ℕ
  pub fid : ℕ
  pub msize : ℕ
  pub version : Npstr
  pub afid : ℕ
  pub uname : Npstr
  pub aname : Npstr
  pub qid : Npqid
  pub ename : Npstr
  pub oldtag : ℕ
  pub newfid : ℕ
  pub nwname : ℕ
  pub wnames : List Npstr
  pub nwqid : ℕ
  pub wqids : List Npqid
  pub mode : ℕ
  pub iounit : ℕ
  pub name : Npstr
  pub perm : ℕ
  pub offset : ℕ
  pub count : ℕ
  pub bytes : List ℕ
  pub stat : Npstat
  pub ecode : ℕ
  pub extension : Npstr
  pub n_uname : ℕ
  pub stfs : Npstatfs
  pub flags : ℕ
  pub gid : ℕ
  pub major : ℕ
  pub minor : ℕ
  pub symtgt : Npstr
  pub dfid : ℕ
  pub mask : ℕ
  pub attrs : Npattrs
  pub asize : ℕ
  pub locktype : ℕ
  pub locklength : ℕ
  pub procid : ℕ
  pub clientid : Npstr
  pub lockstatus : ℕ
  pub oname : Npstr

abbrev pub zero_qid : Npqid
zero_qid = record { type = 0; version = 0; path = 0 }

abbrev pub zero_stat : Npstat
zero_stat = record {
  size = 0;
  type = 0;
  dev = 0;
  qid = zero_qid;
  mode = 0;
  atime = 0;
  mtime = 0;
  length = 0;
  name = [];
  uid = [];
  gid = [];
  muid = [];
  extension = [];
  n_uid = 0;
  n_gid = 0;
  n_muid = 0;
}

abbrev pub zero_statfs : Npstatfs
zero_statfs = record {
  type = 0;
  bsize = 0;
  blocks = 0;
  bfree = 0;
  bavail = 0;
  files = 0;
  ffree = 0;
  fsid = 0;
  namelen = 0;
}

abbrev pub zero_attrs : Npattrs
zero_attrs = record {
  mask = 0;
  mode = 0;
  uid = 0;
  gid = 0;
  nlink = 0;
  rdev = 0;
  size = 0;
  blksize = 0;
  blocks = 0;
  atime_sec = 0;
  atime_nsec = 0;
  mtime_sec = 0;
  mtime_nsec = 0;
  ctime_sec = 0;
  ctime_nsec = 0;
  btime_sec = 0;
  btime_nsec = 0;
  gen = 0;
  data_version = 0;
}

-- A message of one type whose other fields are not set.
abbrev pub blank : ℕ → Npfcall
blank type = record {
  size = 0;
  type = type;
  tag = 65535;
  fid = 0;
  msize = 0;
  version = [];
  afid = 0;
  uname = [];
  aname = [];
  qid = zero_qid;
  ename = [];
  oldtag = 0;
  newfid = 0;
  nwname = 0;
  wnames = [];
  nwqid = 0;
  wqids = [];
  mode = 0;
  iounit = 0;
  name = [];
  perm = 0;
  offset = 0;
  count = 0;
  bytes = [];
  stat = zero_stat;
  ecode = 0;
  extension = [];
  n_uname = 0;
  stfs = zero_statfs;
  flags = 0;
  gid = 0;
  major = 0;
  minor = 0;
  symtgt = [];
  dfid = 0;
  mask = 0;
  attrs = zero_attrs;
  asize = 0;
  locktype = 0;
  locklength = 0;
  procid = 0;
  clientid = [];
  lockstatus = 0;
  oname = [];
}
