-- ===== src/Constants.antt =====
-- include/npfs.h, libnpfs/fcall.c: numbers and texts of the protocol. The errno and open(2) values
-- are those of Linux.
use npfs.Prelude.{ℕ, String}

-- Message types.
abbrev pub tfirst : ℕ
tfirst = 6

abbrev pub rlerror : ℕ
rlerror = 7

abbrev pub rlcreate : ℕ
rlcreate = 15

abbrev pub rxattrwalk : ℕ
rxattrwalk = 31

abbrev pub rxattrcreate : ℕ
rxattrcreate = 33

abbrev pub tversion : ℕ
tversion = 100

abbrev pub rversion : ℕ
rversion = 101

abbrev pub rauth : ℕ
rauth = 103

abbrev pub rerror : ℕ
rerror = 107

abbrev pub rflush : ℕ
rflush = 109

abbrev pub rwalk : ℕ
rwalk = 111

abbrev pub rcreate : ℕ
rcreate = 115

abbrev pub rread : ℕ
rread = 117

abbrev pub rwrite : ℕ
rwrite = 119

abbrev pub rclunk : ℕ
rclunk = 121

abbrev pub rremove : ℕ
rremove = 123

abbrev pub rlast : ℕ
rlast = 128

abbrev pub tlerror : ℕ
tlerror = 6

abbrev pub tstatfs : ℕ
tstatfs = 8

abbrev pub rstatfs : ℕ
rstatfs = 9

abbrev pub tlopen : ℕ
tlopen = 12

abbrev pub rlopen : ℕ
rlopen = 13

abbrev pub tlcreate : ℕ
tlcreate = 14

abbrev pub tsymlink : ℕ
tsymlink = 16

abbrev pub rsymlink : ℕ
rsymlink = 17

abbrev pub tmknod : ℕ
tmknod = 18

abbrev pub rmknod : ℕ
rmknod = 19

abbrev pub trename : ℕ
trename = 20

abbrev pub rrename : ℕ
rrename = 21

abbrev pub treadlink : ℕ
treadlink = 22

abbrev pub rreadlink : ℕ
rreadlink = 23

abbrev pub tgetattr : ℕ
tgetattr = 24

abbrev pub rgetattr : ℕ
rgetattr = 25

abbrev pub tsetattr : ℕ
tsetattr = 26

abbrev pub rsetattr : ℕ
rsetattr = 27

abbrev pub txattrwalk : ℕ
txattrwalk = 30

abbrev pub txattrcreate : ℕ
txattrcreate = 32

abbrev pub treaddir : ℕ
treaddir = 40

abbrev pub rreaddir : ℕ
rreaddir = 41

abbrev pub tfsync : ℕ
tfsync = 50

abbrev pub rfsync : ℕ
rfsync = 51

abbrev pub tlock : ℕ
tlock = 52

abbrev pub rlock : ℕ
rlock = 53

abbrev pub tgetlock : ℕ
tgetlock = 54

abbrev pub rgetlock : ℕ
rgetlock = 55

abbrev pub tlink : ℕ
tlink = 70

abbrev pub rlink : ℕ
rlink = 71

abbrev pub tmkdir : ℕ
tmkdir = 72

abbrev pub rmkdir : ℕ
rmkdir = 73

abbrev pub trenameat : ℕ
trenameat = 74

abbrev pub rrenameat : ℕ
rrenameat = 75

abbrev pub tunlinkat : ℕ
tunlinkat = 76

abbrev pub runlinkat : ℕ
runlinkat = 77

abbrev pub tauth : ℕ
tauth = 102

abbrev pub tattach : ℕ
tattach = 104

abbrev pub rattach : ℕ
rattach = 105

abbrev pub tflush : ℕ
tflush = 108

abbrev pub twalk : ℕ
twalk = 110

abbrev pub topen : ℕ
topen = 112

abbrev pub ropen : ℕ
ropen = 113

abbrev pub tcreate : ℕ
tcreate = 114

abbrev pub tread : ℕ
tread = 116

abbrev pub twrite : ℕ
twrite = 118

abbrev pub tclunk : ℕ
tclunk = 120

abbrev pub tremove : ℕ
tremove = 122

abbrev pub tstat : ℕ
tstat = 124

abbrev pub rstat : ℕ
rstat = 125

abbrev pub twstat : ℕ
twstat = 126

abbrev pub rwstat : ℕ
rwstat = 127

-- Open modes.
abbrev pub oread : ℕ
oread = 0

abbrev pub owrite : ℕ
owrite = 1

abbrev pub ordwr : ℕ
ordwr = 2

abbrev pub oexcl : ℕ
oexcl = 4

abbrev pub otrunc : ℕ
otrunc = 0x10

abbrev pub orclose : ℕ
orclose = 0x40

abbrev pub oappend : ℕ
oappend = 0x80

abbrev pub onotopen : ℕ
onotopen = 0xffff

-- Permissions.
abbrev pub dmdir : ℕ
dmdir = 0x8000_0000

-- Dmnamedpipe | Dmsymlink | Dmlink | Dmdevice | Dmsocket
abbrev pub dmspecial : ℕ
dmspecial = 0x03b0_0000

-- Qid types.
abbrev pub qtdir : ℕ
qtdir = 0x80

abbrev pub qtauth : ℕ
qtauth = 0x08

abbrev pub ftxattr : ℕ
ftxattr = 0x100

abbrev pub notag : ℕ
notag = 0xffff

abbrev pub nofid : ℕ
nofid = 0xffff_ffff

abbrev pub maxwelem : ℕ
maxwelem = 16

abbrev pub iohdrsz : ℕ
iohdrsz = 24

abbrev pub fid_htable_size : ℕ
fid_htable_size = 64

-- The modulus of u32.
abbrev pub u32_mod : ℕ
u32_mod = 0x1_0000_0000

abbrev pub u64_max : ℕ
u64_max = 0xffff_ffff_ffff_ffff

-- errno.
abbrev pub eperm : ℕ
eperm = 1

abbrev pub eio : ℕ
eio = 5

abbrev pub enomem : ℕ
enomem = 12

abbrev pub enotdir : ℕ
enotdir = 20

abbrev pub enosys : ℕ
enosys = 38

-- Error texts.
abbrev pub unknown_fid : String
unknown_fid = "unknown fid"

abbrev pub no_memory : String
no_memory = "no memory"

abbrev pub no_auth : String
no_auth = "no authentication required"

abbrev pub in_use : String
in_use = "fid already exists"

abbrev pub bad_use_fid : String
bad_use_fid = "bad use of fid"

abbrev pub not_dir : String
not_dir = "not a directory"

abbrev pub too_many_wnames : String
too_many_wnames = "too many wnames"

abbrev pub perm_denied : String
perm_denied = "permission denied"

abbrev pub too_large : String
too_large = "i/o count too large"

abbrev pub bad_offset : String
bad_offset = "bad offset in directory read"

abbrev pub dir_change : String
dir_change = "cannot convert between files and directories"

abbrev pub unknown_user : String
unknown_user = "unknown user"
