-- ===== src/State.antt =====
-- The state that a request handler of libnpfs works on: the fids of its connection (Npfid,
-- Npfidpool, Npconn), the error of its thread, its request (Npreq) and the request lists of the
-- server (Npsrv), all of include/npfs.h, with the calls that left the library so far.
-- A handler is an action on that state; it faults where the code uses freed memory or NULL.
pub mod Returns
pub mod Mem
pub mod Call
use npfs.Prelude.{ℕ, Bool, List, Option, String, ℤ}
use npfs.Types.{Npstr, Npqid, Npstat, Npattrs, Npfcall}

-- The address of a fid, a user or a request.
abbrev pub Ptr : Type 0
Ptr = ℕ

-- `aux`, which only the file server reads, is left out, and so is the lock.
pub record Npfid : Type 0 where
  pub fid : ℕ
  pub refcount : ℤ
  pub omode : ℕ
  pub type : ℕ
  pub diroffset : ℕ
  pub user : Option Ptr

-- A request in a list of the server. `flushers` is the chain of flushreq pointers that starts at it.
pub record Npreq : Type 0 where
  pub id : Ptr
  pub conn : Ptr
  pub tag : ℕ
  pub refcount : ℕ
  pub flushers : List Ptr

-- The text of the thread's error: an allocated copy, or the static text Ennomem.
pub data Ename : Type 0 where
  copied : String → Ename
  ennomem : Ename

-- The calls that leave the library: the operations of Npsrv and Npauth, the user pool, and the
-- counts of the users, and the answers that are sent under a tag.
pub data Event : Type 0 where
  version : ℕ → Npstr → Event
  startauth : Ptr → Npstr → Event
  checkauth : Ptr → Option Ptr → Npstr → Event
  auth_read : Ptr → ℕ → ℕ → Event
  auth_write : Ptr → ℕ → ℕ → List ℕ → Event
  auth_clunk : Ptr → Event
  fiddestroy : Ptr → Event
  attach : Ptr → Option Ptr → Npstr → Npstr → Event
  flush : Ptr → Event
  clone : Ptr → Ptr → Event
  walk : Ptr → Npstr → Event
  open_fid : Ptr → ℕ → Event
  create : Ptr → Npstr → ℕ → ℕ → Npstr → Event
  read : Ptr → ℕ → ℕ → Event
  write : Ptr → ℕ → ℕ → List ℕ → Event
  clunk : Ptr → Event
  remove : Ptr → Event
  stat : Ptr → Event
  wstat : Ptr → Npstat → Event
  statfs : Ptr → Event
  lopen : Ptr → ℕ → Event
  lcreate : Ptr → Npstr → ℕ → ℕ → ℕ → Event
  symlink : Ptr → Npstr → Npstr → ℕ → Event
  mknod : Ptr → Npstr → ℕ → ℕ → ℕ → ℕ → Event
  rename : Ptr → Ptr → Npstr → Event
  readlink : Ptr → Event
  getattr : Ptr → ℕ → Event
  setattr : Ptr → Npattrs → Event
  xattrwalk : Ptr → Ptr → Npstr → Event
  xattrcreate : Ptr → Npstr → ℕ → ℕ → Event
  xattrread : Ptr → ℕ → ℕ → Event
  xattrwrite : Ptr → ℕ → ℕ → List ℕ → Event
  readdir : Ptr → ℕ → ℕ → Event
  fsync : Ptr → Event
  flock : Ptr → ℕ → ℕ → ℕ → ℕ → ℕ → Npstr → Event
  getlock : Ptr → ℕ → ℕ → ℕ → ℕ → Npstr → Event
  link : Ptr → Ptr → Npstr → Event
  mkdir : Ptr → Npstr → ℕ → ℕ → Event
  renameat : Ptr → Npstr → Ptr → Npstr → Event
  unlinkat : Ptr → Npstr → Event
  uname2user : Npstr → Event
  uid2user : ℕ → Event
  user_incref : Ptr → Event
  user_decref : Ptr → Event
  send : ℕ → Npfcall → Event

-- What a file server does to a fid while it serves a call. One that gives references back, as some
-- do that took them, is not modelled.
pub data FidOp : Type 0 where
  incref : Ptr → FidOp
  set_omode : Ptr → ℕ → FidOp
  set_type : Ptr → ℕ → FidOp
  set_user : Ptr → Option Ptr → FidOp

-- What a call brings back: its reply, its int result, its error, the qid and the user that it
-- writes or returns, and what it did to fids.
pub record Outcome : Type 0 where
  pub rc : Option Npfcall
  pub ret : ℤ
  pub err : Option (String × ℕ)
  pub qid : Npqid
  pub user : Option Ptr
  pub ops : List FidOp

-- What the library does not implement. The file server is any function of the calls so far, the
-- newest first; `malloc n` says whether the n-th allocation succeeds.
-- `auth`, `startauth_set` and so on say which of the optional functions are set.
pub record Env : Type 0 where
  pub server : List Event → Outcome
  pub malloc : ℕ → Bool
  pub has_auth : Bool
  pub has_startauth : Bool
  pub has_checkauth : Bool
  pub has_auth_clunk : Bool
  pub has_fiddestroy : Bool
  pub has_flush : Bool

pub record St : Type 0 where
  -- the fids of the connection, by address, and the hash table of their addresses
  pub heap : Ptr → Option Npfid
  pub htable : ℕ → List Ptr
  -- the connection
  pub conn : Ptr
  pub msize : ℕ
  pub dotu : Bool
  pub dotl : Bool
  -- the number of allocations so far: the address of the next one
  pub next : ℕ
  -- the error of the thread
  pub ename : Option Ename
  pub ecode : ℕ
  -- the request that is served, and its fid
  pub req : Ptr
  pub rfid : Option Ptr
  pub tag : ℕ
  pub responded : Bool
  -- the requests of the server that wait, and those that are worked on
  pub reqs : List Npreq
  pub workreqs : List Npreq
  -- the calls that left the library, the newest first
  pub trace : List Event

pub data Run (A : Type 0) : Type 0 where
  ok : A → St → Run A
  fault : Run A

abbrev pub M : Type 0 → Type 0
M A = St → Run A

abbrev pub pure : {A : Type 0} → A → M A
pure a s = ok a s

module _ {A B : Type 0} where
  abbrev pub and_then : Run A → (A → M B) → Run B
  and_then (ok a s) k = k a s
  and_then fault k = fault

  infixl 5 ◌>>=◌ ◌>>◌
  abbrev pub ◌>>=◌ : M A → (A → M B) → M B
  ◌>>=◌ m k s = and_then (m s) k

  abbrev pub ◌>>◌ : M A → M B → M B
  ◌>>◌ m n s = and_then (m s) (λ _. n)

abbrev pub get : M St
get s = ok s s

abbrev pub modify : (St → St) → M (Unit {0})
modify f s = ok tt (f s)

-- `req->fid = fid`
abbrev pub set_rfid : Option Ptr → M (Unit {0})
set_rfid p s = ok tt (record s { rfid = p })
