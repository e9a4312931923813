-- ===== src/Examples.antt =====
-- Runs of libnpfs/fcall.c, fidpool.c, error.c and srv.c on small states.
mod Wire
mod Conn
mod Client
use npfs.Prelude.{
  length, All, Bool-cases, subst, sym, ℕ, ◌+◌, ◌<◌, ◌≤◌, ◌≡◌, ◌≢◌, ◌↔◌, inl, inr, refl, true, false,
  Option, none, some, List, [], ◌∷◌, pos, arith, if◌then◌else◌, ◌==◌, has_bits,
}
use npfs.Types.{Npfcall, blank}
use npfs.Constants.{onotopen, rread, iohdrsz, u32_mod}
use npfs.State.{Ptr, Event, Outcome, Env, St, ◌>>◌}
use npfs.State.Mem.{put_fid, put_bucket}
use npfs.State.Returns.{Returns}
use npfs.Werror.{np_werror, np_haserror}
use npfs.Werror.Sticky.{error_after, np_werror-np_haserror}
use npfs.Fidpool.{np_fid_find, np_fid_create, np_fid_destroy, np_fid_decref, new_fid}
use npfs.Fidpool.Chains.{In, fid_of}
use npfs.Fidpool.WellFormed.{IsPool-create, IsPool}
use npfs.Fidpool.FidMap.{
  Represents, update, CreatesIn, np_fid_find-Represents, np_fid_create-Represents,
  np_fid_destroy-Represents,
}
use npfs.Fcall.Files.{np_write, is_too_large}
use npfs.Safety.Fids.{Done}
use npfs.Guards.Writes.{WriteGuarded, np_write-Guarded}
use npfs.Fidpool.{np_fidpool_list, np_fidpool_count}
use npfs.Fidpool.Lists.{smaller, np_fidpool_list-np_fidpool_count}
use npfs.Fidpool.{np_fidpool_destroy}
use npfs.Fidpool.Destroy.{np_fidpool_destroy-fid_of}
use npfs.Fcall.Sizes.{is_too_large-bounds}
use npfs.Srv.Process.{lookup_handler}
use npfs.State.{Npreq}
use npfs.Srv.Respond.{req_of, flushers_of}
use npfs.Safety.Grows.{IsPool-shape, Safe, Holds, IsLive}
use npfs.Safety.Relies.{Relies}
use npfs.Safety.Contract.{op_fid, event_fids, Contract}
use npfs.Safety.Decref.{np_fid_decref-Drops}
use npfs.Safety.Drops.{Drops}
use npfs.Safety.Process.{lookup_handler-in_bounds}

-- A file server that says yes to all, and whose replies are empty.
abbrev reply : ℕ → Outcome
reply type = record {
  rc = some (blank type);
  ret = pos 0;
  err = none;
  qid = record { type = 8; version = 0; path = 0 };
  user = some 90;
  ops = [];
}

abbrev yes_server : List Event → Outcome
yes_server (Event.clone p q ∷ t) = record (reply 0) { ret = pos 1 }
yes_server (Event.attach p a u n ∷ t) = reply 105
yes_server (Event.read p o c ∷ t) = reply rread
yes_server _ = reply 0

abbrev env : Env
env = record {
  server = yes_server;
  malloc = λ n. true;
  has_auth = false;
  has_startauth = false;
  has_checkauth = false;
  has_auth_clunk = false;
  has_fiddestroy = false;
  has_flush = true;
}

no_ops :
    (t : List Event) (e : Event) → All (λ o. In (op_fid o) (event_fids e)) (yes_server (e ∷ t)).ops
no_ops t (Event.clone p q) = tt
no_ops t _ = tt

env-Contract : Contract env
env-Contract = record { local = no_ops }

-- A connection with one fid, of number 7, at address 0.
abbrev with_one : ℕ → ℕ → St
with_one type omode = record {
  heap =
      put_fid (λ p. none) 0
        (some (record (new_fid 7) { refcount = pos 1; type = type; omode = omode }));
  htable = put_bucket (λ i. []) 7 (0 ∷ []);
  conn = 50;
  msize = 8216;
  dotu = true;
  dotl = false;
  next = 1;
  ename = none;
  ecode = 0;
  req = 60;
  rfid = none;
  tag = 0;
  responded = false;
  reqs = record { id = 60; conn = 50; tag = 3; refcount = 1; flushers = [] } ∷ [];
  workreqs = [];
  trace = [];
}

-- A directory that is not open, and a file that is open for reading and writing.
abbrev one_fid : St
one_fid = with_one 128 onotopen

abbrev opened_fid : St
opened_fid = with_one 0 2

empty-IsPool : IsPool (λ p. none) (λ i. []) 0
empty-IsPool = record { chains = λ i. tt; indexed = λ p n e. absurd cc; fresh = λ p h. refl }

with_one-IsPool : (type omode : ℕ) → let s = with_one type omode in IsPool s.heap s.htable s.next
with_one-IsPool type omode =
    IsPool-shape 1 1 shape (omega arith) (IsPool-create empty-IsPool 7 1 tt (omega arith))
  where
    shape :
        (p : Ptr)
        → fid_of (with_one type omode).heap p ≡ fid_of (put_fid (λ q. none) 0 (some (new_fid 7))) p
    shape p = elim (Bool-cases (p == 0)) [ inl hit ↦ rw hit refl | inr miss ↦ rw miss refl ]

with_one-Safe : (type omode : ℕ) → Safe (with_one type omode)
with_one-Safe type omode = record {
  pool = with_one-IsPool type omode;
  counted =
      λ p live ne. subst (λ q. Holds (with_one type omode).heap q 1) (sym (only_live p live)) held;
  mine = λ p e. absurd cc;
}
  where
    only_live : (p : Ptr) → IsLive (with_one type omode).heap p → p ≡ 0
    only_live p (f, live) = ground (arith, live)

    held : Holds (with_one type omode).heap 0 1
    held = (_, refl, omega arith)

one_fid-Safe : Safe one_fid
one_fid-Safe = with_one-Safe 128 onotopen

-- A stat of the fid.
abbrev stat_message : Npfcall
stat_message = record (blank 124) { tag = 3; fid = 7 }

abbrev first_request : Npreq
first_request = record { id = 60; conn = 50; tag = 3; refcount = 1; flushers = [] }

-- The pool of one fid, as a map.
abbrev seven : ℕ → Option Ptr
seven n = if n == 7 then some 0 else none

one_fid-Represents : Represents seven one_fid
one_fid-Represents = record {
  pool = with_one-IsPool 128 onotopen;
  to = λ n p e. ground (arith, e);
  from = λ n p e. ground (arith, e);
}

np_fid_find-Represents_example :
    Returns (λ r t. (r ≡ some 0) × Represents seven t) (np_fid_find 7 one_fid)
np_fid_find-Represents_example = np_fid_find-Represents seven 7 one_fid one_fid-Represents

np_fid_create-Represents_example : Returns (CreatesIn seven 71) (np_fid_create env 71 one_fid)
np_fid_create-Represents_example = np_fid_create-Represents env seven 71 one_fid one_fid-Represents

np_fid_destroy-Represents_example :
    Returns (λ _ t. Represents (update seven 7 none) t) (np_fid_destroy env 0 one_fid)
np_fid_destroy-Represents_example =
    np_fid_destroy-Represents env env-Contract seven 7 0 one_fid one_fid-Represents refl

np_fid_decref-Drops_example :
    Returns (λ _ t. Safe t × Drops 0 one_fid t) (np_fid_decref env (some 0) one_fid)
np_fid_decref-Drops_example =
    np_fid_decref-Drops env env-Contract 0 one_fid one_fid-Safe (_, refl) (inl (λ e. cc))

lookup_handler-in_bounds_example : lookup_handler 127 ≢ none
lookup_handler-in_bounds_example = lookup_handler-in_bounds 127 (omega arith)

is_too_large-bounds_example :
    (0xfffffff0 + iohdrsz < u32_mod
      → is_too_large 0xfffffff0 8216 ≡ false ↔ 0xfffffff0 + iohdrsz ≤ 8216)
    × (u32_mod ≤ 0xfffffff0 + iohdrsz → is_too_large 0xfffffff0 8216 ≡ false)
is_too_large-bounds_example = is_too_large-bounds 0xfffffff0 8216 (omega arith) (omega arith)

np_werror-np_haserror_example :
    Returns (λ b _. b ≡ error_after none none) ((np_werror env none 0 >> np_haserror) one_fid)
np_werror-np_haserror_example = np_werror-np_haserror env none 0 one_fid

-- A read and a write of the open file.
abbrev read_message : Npfcall
read_message = record (blank 116) { tag = 3; fid = 7; count = 100 }

abbrev write_message : Npfcall
write_message = record (blank 118) { tag = 3; fid = 7; count = 1; bytes = 65 ∷ [] }

np_write-Guarded_example :
    Returns
      (λ rc t. Done opened_fid rc t × WriteGuarded env write_message opened_fid rc t)
      (np_write env write_message opened_fid)
np_write-Guarded_example =
    np_write-Guarded env write_message env-Contract opened_fid (with_one-Safe 0 2)

np_fidpool_list-np_fidpool_count_example :
    Returns
      (λ qs t. Safe t × Returns (λ n _. length qs ≡ smaller 5 n) (np_fidpool_count one_fid))
      (np_fidpool_list 5 one_fid)
np_fidpool_list-np_fidpool_count_example = np_fidpool_list-np_fidpool_count 5 one_fid one_fid-Safe

np_fidpool_destroy-fid_of_example :
    Returns (λ _ t. (p : Ptr) → fid_of t.heap p ≡ none) (np_fidpool_destroy env one_fid)
np_fidpool_destroy-fid_of_example =
    np_fidpool_destroy-fid_of env env-Contract one_fid (with_one-IsPool 128 onotopen)

-- A file server whose clone fails, and a new fid beside the other one.
abbrev no_clone : Env
no_clone = record env { server = λ t. reply 0 }

abbrev two_fids : St
two_fids = record one_fid { heap = put_fid one_fid.heap 1 (some (new_fid 9)) }

abbrev walk_message : Npfcall
walk_message = record (blank 110) { tag = 3; fid = 7; newfid = 9 }
