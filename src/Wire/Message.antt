-- ===== src/Wire/Message.antt =====
-- The messages that libnpfs/np.c makes and reads back, with the arguments of the function that makes
-- them, and what the protocol says of each: its type and the fields of its packet.
pub mod Create
pub mod Filled
use npfs.Prelude.{ℕ, Bool, List, [], if◌then◌else◌, length, ◌+◌, ◌∷◌, arith, ◌<◌}
use npfs.Wire.Layout.{Field, text, qid13, u16, u32, u64, elements, u8, raw}
use npfs.Types.{Npattrs, Npqid, Npstr}
use npfs.Wire.Stat.{Npwstat, size_wstat}

pub data Message : Type 0 where
  tversion : ℕ → Npstr → Message
  rversion : ℕ → Npstr → Message
  tauth : ℕ → Npstr → Npstr → ℕ → Message
  rauth : Npqid → Message
  tattach : ℕ → ℕ → Npstr → Npstr → ℕ → Message
  rattach : Npqid → Message
  rerror : Npstr → ℕ → Message
  tflush : ℕ → Message
  rflush : Message
  twalk : ℕ → ℕ → List Npstr → Message
  rwalk : List Npqid → Message
  topen : ℕ → ℕ → Message
  ropen : Npqid → ℕ → Message
  tcreate : ℕ → Npstr → ℕ → ℕ → Npstr → Message
  rcreate : Npqid → ℕ → Message
  tread : ℕ → ℕ → ℕ → Message
  rread : List ℕ → Message
  twrite : ℕ → ℕ → List ℕ → Message
  rwrite : ℕ → Message
  tclunk : ℕ → Message
  rclunk : Message
  tremove : ℕ → Message
  rremove : Message
  tstat : ℕ → Message
  rstat : Npwstat → Message
  twstat : ℕ → Npwstat → Message
  rwstat : Message
  rlerror : ℕ → Message
  tstatfs : ℕ → Message
  tlopen : ℕ → ℕ → Message
  rlopen : Npqid → ℕ → Message
  tlcreate : ℕ → Npstr → ℕ → ℕ → ℕ → Message
  rlcreate : Npqid → ℕ → Message
  tsymlink : ℕ → Npstr → Npstr → ℕ → Message
  rsymlink : Npqid → Message
  tmknod : ℕ → Npstr → ℕ → ℕ → ℕ → ℕ → Message
  rmknod : Npqid → Message
  trename : ℕ → ℕ → Npstr → Message
  rrename : Message
  treadlink : ℕ → Message
  rreadlink : Npstr → Message
  tgetattr : ℕ → ℕ → Message
  rgetattr : ℕ → Npattrs → Npqid → Message
  rsetattr : Message
  txattrwalk : ℕ → ℕ → Npstr → Message
  rxattrwalk : ℕ → Message
  txattrcreate : ℕ → Npstr → ℕ → ℕ → Message
  rxattrcreate : Message
  treaddir : ℕ → ℕ → ℕ → Message
  rreaddir : List ℕ → Message
  tfsync : ℕ → Message
  rfsync : Message
  tlock : ℕ → ℕ → ℕ → ℕ → ℕ → ℕ → Npstr → Message
  rlock : ℕ → Message
  tgetlock : ℕ → ℕ → ℕ → ℕ → ℕ → Npstr → Message
  tlink : ℕ → ℕ → Npstr → Message
  rlink : Message
  tmkdir : ℕ → Npstr → ℕ → ℕ → Message
  rmkdir : Npqid → Message
  trenameat : ℕ → Npstr → ℕ → Npstr → Message
  rrenameat : Message
  tunlinkat : ℕ → Npstr → ℕ → Message
  runlinkat : Message

abbrev pub type_of : Message → ℕ
type_of (Message.tversion _ _) = 100
type_of (Message.rversion _ _) = 101
type_of (Message.tauth _ _ _ _) = 102
type_of (Message.rauth _) = 103
type_of (Message.tattach _ _ _ _ _) = 104
type_of (Message.rattach _) = 105
type_of (Message.rerror _ _) = 107
type_of (Message.tflush _) = 108
type_of Message.rflush = 109
type_of (Message.twalk _ _ _) = 110
type_of (Message.rwalk _) = 111
type_of (Message.topen _ _) = 112
type_of (Message.ropen _ _) = 113
type_of (Message.tcreate _ _ _ _ _) = 114
type_of (Message.rcreate _ _) = 115
type_of (Message.tread _ _ _) = 116
type_of (Message.rread _) = 117
type_of (Message.twrite _ _ _) = 118
type_of (Message.rwrite _) = 119
type_of (Message.tclunk _) = 120
type_of Message.rclunk = 121
type_of (Message.tremove _) = 122
type_of Message.rremove = 123
type_of (Message.tstat _) = 124
type_of (Message.rstat _) = 125
type_of (Message.twstat _ _) = 126
type_of Message.rwstat = 127
type_of (Message.rlerror _) = 7
type_of (Message.tstatfs _) = 8
type_of (Message.tlopen _ _) = 12
type_of (Message.rlopen _ _) = 13
type_of (Message.tlcreate _ _ _ _ _) = 14
type_of (Message.rlcreate _ _) = 15
type_of (Message.tsymlink _ _ _ _) = 16
type_of (Message.rsymlink _) = 17
type_of (Message.tmknod _ _ _ _ _ _) = 18
type_of (Message.rmknod _) = 19
type_of (Message.trename _ _ _) = 20
type_of Message.rrename = 21
type_of (Message.treadlink _) = 22
type_of (Message.rreadlink _) = 23
type_of (Message.tgetattr _ _) = 24
type_of (Message.rgetattr _ _ _) = 25
type_of Message.rsetattr = 27
type_of (Message.txattrwalk _ _ _) = 30
type_of (Message.rxattrwalk _) = 31
type_of (Message.txattrcreate _ _ _ _) = 32
type_of Message.rxattrcreate = 33
type_of (Message.treaddir _ _ _) = 40
type_of (Message.rreaddir _) = 41
type_of (Message.tfsync _) = 50
type_of Message.rfsync = 51
type_of (Message.tlock _ _ _ _ _ _ _) = 52
type_of (Message.rlock _) = 53
type_of (Message.tgetlock _ _ _ _ _ _) = 54
type_of (Message.tlink _ _ _) = 70
type_of Message.rlink = 71
type_of (Message.tmkdir _ _ _ _) = 72
type_of (Message.rmkdir _) = 73
type_of (Message.trenameat _ _ _ _) = 74
type_of Message.rrenameat = 75
type_of (Message.tunlinkat _ _ _) = 76
type_of Message.runlinkat = 77

abbrev pub texts : List Npstr → List Field
texts [] = []
texts (s ∷ ss) = text s ∷ texts ss

abbrev pub qid_fields : List Npqid → List Field
qid_fields [] = []
qid_fields (q ∷ qs) = qid13 q ∷ qid_fields qs

abbrev pub stat_fields : Npwstat → Bool → List Field
stat_fields w dotu =
    u16 (size_wstat w dotu)
    ∷ (u16 w.type
        ∷ (u32 w.dev
            ∷ (qid13 w.qid
                ∷ (u32 w.mode
                    ∷ (u32 w.atime
                        ∷ (u32 w.mtime
                            ∷ (u64 w.length
                                ∷ (text w.name
                                    ∷ (text w.uid
                                        ∷ (text w.gid
                                            ∷ (text w.muid
                                                ∷ (if dotu
                                                    then text w.extension
                                                      ∷ (u32 w.n_uid
                                                          ∷ (u32 w.n_gid ∷ (u32 w.n_muid ∷ [])))
                                                    else []))))))))))))

-- In 9P2000.u the messages tauth, tattach and rerror have a number more, tcreate a text, and a stat
-- a text and three numbers.
abbrev pub fields : Bool → Message → List Field
fields dotu (Message.tversion msize version) = u32 msize ∷ (text version ∷ [])
fields dotu (Message.rversion msize version) = u32 msize ∷ (text version ∷ [])
fields dotu (Message.tauth fid uname aname n_uname) =
    u32 fid ∷ (text uname ∷ (text aname ∷ (if dotu then u32 n_uname ∷ [] else [])))
fields dotu (Message.rauth qid) = qid13 qid ∷ []
fields dotu (Message.tattach fid afid uname aname n_uname) =
    u32 fid ∷ (u32 afid ∷ (text uname ∷ (text aname ∷ (if dotu then u32 n_uname ∷ [] else []))))
fields dotu (Message.rattach qid) = qid13 qid ∷ []
fields dotu (Message.rerror ename ecode) = text ename ∷ (if dotu then u32 ecode ∷ [] else [])
fields dotu (Message.tflush oldtag) = u16 oldtag ∷ []
fields dotu Message.rflush = []
fields dotu (Message.twalk fid newfid names) =
    u32 fid ∷ (u32 newfid ∷ (elements (length names) ∷ texts names))
fields dotu (Message.rwalk qids) = elements (length qids) ∷ qid_fields qids
fields dotu (Message.topen fid mode) = u32 fid ∷ (u8 mode ∷ [])
fields dotu (Message.ropen qid iounit) = qid13 qid ∷ (u32 iounit ∷ [])
fields dotu (Message.tcreate fid name perm mode extension) =
    u32 fid ∷ (text name ∷ (u32 perm ∷ (u8 mode ∷ (if dotu then text extension ∷ [] else []))))
fields dotu (Message.rcreate qid iounit) = qid13 qid ∷ (u32 iounit ∷ [])
fields dotu (Message.tread fid offset count) = u32 fid ∷ (u64 offset ∷ (u32 count ∷ []))
fields dotu (Message.rread payload) = u32 (length payload) ∷ (raw payload ∷ [])
fields dotu (Message.twrite fid offset payload) =
    u32 fid ∷ (u64 offset ∷ (u32 (length payload) ∷ (raw payload ∷ [])))
fields dotu (Message.rwrite count) = u32 count ∷ []
fields dotu (Message.tclunk fid) = u32 fid ∷ []
fields dotu Message.rclunk = []
fields dotu (Message.tremove fid) = u32 fid ∷ []
fields dotu Message.rremove = []
fields dotu (Message.tstat fid) = u32 fid ∷ []
fields dotu (Message.rstat wstat) = u16 (size_wstat wstat dotu + 2) ∷ stat_fields wstat dotu
fields dotu (Message.twstat fid wstat) =
    u32 fid ∷ (u16 (size_wstat wstat dotu + 2) ∷ stat_fields wstat dotu)
fields dotu Message.rwstat = []
fields dotu (Message.rlerror ecode) = u32 ecode ∷ []
fields dotu (Message.tstatfs fid) = u32 fid ∷ []
fields dotu (Message.tlopen fid flags) = u32 fid ∷ (u32 flags ∷ [])
fields dotu (Message.rlopen qid iounit) = qid13 qid ∷ (u32 iounit ∷ [])
fields dotu (Message.tlcreate fid name flags mode gid) =
    u32 fid ∷ (text name ∷ (u32 flags ∷ (u32 mode ∷ (u32 gid ∷ []))))
fields dotu (Message.rlcreate qid iounit) = qid13 qid ∷ (u32 iounit ∷ [])
fields dotu (Message.tsymlink dfid name symtgt gid) =
    u32 dfid ∷ (text name ∷ (text symtgt ∷ (u32 gid ∷ [])))
fields dotu (Message.rsymlink qid) = qid13 qid ∷ []
fields dotu (Message.tmknod dfid name mode major minor gid) =
    u32 dfid ∷ (text name ∷ (u32 mode ∷ (u32 major ∷ (u32 minor ∷ (u32 gid ∷ [])))))
fields dotu (Message.rmknod qid) = qid13 qid ∷ []
fields dotu (Message.trename fid dfid name) = u32 fid ∷ (u32 dfid ∷ (text name ∷ []))
fields dotu Message.rrename = []
fields dotu (Message.treadlink fid) = u32 fid ∷ []
fields dotu (Message.rreadlink target) = text target ∷ []
fields dotu (Message.tgetattr fid mask) = u32 fid ∷ (u64 mask ∷ [])
fields dotu (Message.rgetattr mask attrs q) =
    u64 mask
    ∷ (qid13 q
        ∷ (u32 attrs.mode
            ∷ (u32 attrs.uid
                ∷ (u32 attrs.gid
                    ∷ (u64 attrs.nlink
                        ∷ (u64 attrs.rdev
                            ∷ (u64 attrs.size
                                ∷ (u64 attrs.blksize
                                    ∷ (u64 attrs.blocks
                                        ∷ (u64 attrs.atime_sec
                                            ∷ (u64 attrs.atime_nsec
                                                ∷ (u64 attrs.mtime_sec
                                                    ∷ (u64 attrs.mtime_nsec
                                                        ∷ (u64 attrs.ctime_sec
                                                            ∷ (u64 attrs.ctime_nsec
                                                            ∷ (u64 attrs.btime_sec
                                                            ∷ (u64 attrs.btime_nsec
                                                            ∷ (u64 attrs.gen
                                                            ∷ (u64 attrs.data_version
                                                            ∷ [])))))))))))))))))))
fields dotu Message.rsetattr = []
fields dotu (Message.txattrwalk fid newfid name) = u32 fid ∷ (u32 newfid ∷ (text name ∷ []))
fields dotu (Message.rxattrwalk asize) = u64 asize ∷ []
fields dotu (Message.txattrcreate fid name asize flags) =
    u32 fid ∷ (text name ∷ (u64 asize ∷ (u32 flags ∷ [])))
fields dotu Message.rxattrcreate = []
fields dotu (Message.treaddir fid offset count) = u32 fid ∷ (u64 offset ∷ (u32 count ∷ []))
fields dotu (Message.rreaddir payload) = u32 (length payload) ∷ (raw payload ∷ [])
fields dotu (Message.tfsync fid) = u32 fid ∷ []
fields dotu Message.rfsync = []
fields dotu (Message.tlock fid type flags offset len procid clientid) =
    u32 fid
    ∷ (u8 type ∷ (u32 flags ∷ (u64 offset ∷ (u64 len ∷ (u32 procid ∷ (text clientid ∷ []))))))
fields dotu (Message.rlock status) = u8 status ∷ []
fields dotu (Message.tgetlock fid type offset len procid clientid) =
    u32 fid ∷ (u8 type ∷ (u64 offset ∷ (u64 len ∷ (u32 procid ∷ (text clientid ∷ [])))))
fields dotu (Message.tlink dfid fid name) = u32 dfid ∷ (u32 fid ∷ (text name ∷ []))
fields dotu Message.rlink = []
fields dotu (Message.tmkdir dfid name mode gid) =
    u32 dfid ∷ (text name ∷ (u32 mode ∷ (u32 gid ∷ [])))
fields dotu (Message.rmkdir qid) = qid13 qid ∷ []
fields dotu (Message.trenameat odfid oname ndfid nname) =
    u32 odfid ∷ (text oname ∷ (u32 ndfid ∷ (text nname ∷ [])))
fields dotu Message.rrenameat = []
fields dotu (Message.tunlinkat dfid name flags) = u32 dfid ∷ (text name ∷ (u32 flags ∷ []))
fields dotu Message.runlinkat = []

pub type_of-small : (m : Message) → type_of m < 256
type_of-small (Message.tversion _ _) = omega arith
type_of-small (Message.rversion _ _) = omega arith
type_of-small (Message.tauth _ _ _ _) = omega arith
type_of-small (Message.rauth _) = omega arith
type_of-small (Message.tattach _ _ _ _ _) = omega arith
type_of-small (Message.rattach _) = omega arith
type_of-small (Message.rerror _ _) = omega arith
type_of-small (Message.tflush _) = omega arith
type_of-small Message.rflush = omega arith
type_of-small (Message.twalk _ _ _) = omega arith
type_of-small (Message.rwalk _) = omega arith
type_of-small (Message.topen _ _) = omega arith
type_of-small (Message.ropen _ _) = omega arith
type_of-small (Message.tcreate _ _ _ _ _) = omega arith
type_of-small (Message.rcreate _ _) = omega arith
type_of-small (Message.tread _ _ _) = omega arith
type_of-small (Message.rread _) = omega arith
type_of-small (Message.twrite _ _ _) = omega arith
type_of-small (Message.rwrite _) = omega arith
type_of-small (Message.tclunk _) = omega arith
type_of-small Message.rclunk = omega arith
type_of-small (Message.tremove _) = omega arith
type_of-small Message.rremove = omega arith
type_of-small (Message.tstat _) = omega arith
type_of-small (Message.rstat _) = omega arith
type_of-small (Message.twstat _ _) = omega arith
type_of-small Message.rwstat = omega arith
type_of-small (Message.rlerror _) = omega arith
type_of-small (Message.tstatfs _) = omega arith
type_of-small (Message.tlopen _ _) = omega arith
type_of-small (Message.rlopen _ _) = omega arith
type_of-small (Message.tlcreate _ _ _ _ _) = omega arith
type_of-small (Message.rlcreate _ _) = omega arith
type_of-small (Message.tsymlink _ _ _ _) = omega arith
type_of-small (Message.rsymlink _) = omega arith
type_of-small (Message.tmknod _ _ _ _ _ _) = omega arith
type_of-small (Message.rmknod _) = omega arith
type_of-small (Message.trename _ _ _) = omega arith
type_of-small Message.rrename = omega arith
type_of-small (Message.treadlink _) = omega arith
type_of-small (Message.rreadlink _) = omega arith
type_of-small (Message.tgetattr _ _) = omega arith
type_of-small (Message.rgetattr _ _ _) = omega arith
type_of-small Message.rsetattr = omega arith
type_of-small (Message.txattrwalk _ _ _) = omega arith
type_of-small (Message.rxattrwalk _) = omega arith
type_of-small (Message.txattrcreate _ _ _ _) = omega arith
type_of-small Message.rxattrcreate = omega arith
type_of-small (Message.treaddir _ _ _) = omega arith
type_of-small (Message.rreaddir _) = omega arith
type_of-small (Message.tfsync _) = omega arith
type_of-small Message.rfsync = omega arith
type_of-small (Message.tlock _ _ _ _ _ _ _) = omega arith
type_of-small (Message.rlock _) = omega arith
type_of-small (Message.tgetlock _ _ _ _ _ _) = omega arith
type_of-small (Message.tlink _ _ _) = omega arith
type_of-small Message.rlink = omega arith
type_of-small (Message.tmkdir _ _ _ _) = omega arith
type_of-small (Message.rmkdir _) = omega arith
type_of-small (Message.trenameat _ _ _ _) = omega arith
type_of-small Message.rrenameat = omega arith
type_of-small (Message.tunlinkat _ _ _) = omega arith
type_of-small Message.runlinkat = omega arith
