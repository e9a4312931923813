-- ===== src/Safety/Relies.antt =====
-- What single handlers of libnpfs/fcall.c use without a test.
use npfs.Prelude.{
  ℕ, List, Option, some, none, ◌≡◌, ◌≢◌, ◌∷◌, ◌≤◌, true, false, is_zero, to_nat, has_bits,
}
use npfs.Types.{Npstr, Npfcall}
use npfs.Constants.{qtauth, rread}
use npfs.State.{Ptr, Event, Env}
use npfs.Fcall.Reply.{has_type}
use npfs.Srv.Table.{Handler}

-- np_walk: where clone fails, the new fid stays in the pool with a count of -1.
abbrev pub Clones : Env → Type 0
Clones env = (t : List Event) (p q : Ptr) → is_zero (env.server (Event.clone p q ∷ t)).ret ≡ false

-- np_clunk of a fid that is removed on close reads the type of the reply to remove.
abbrev pub Removes : Env → Type 0
Removes env = (t : List Event) (p : Ptr) → (env.server (Event.remove p ∷ t)).rc ≢ none

-- np_clunk of an auth fid calls the auth clunk.
abbrev pub AuthClunks : Env → Type 0
AuthClunks env = env.has_auth ≡ true → env.has_auth_clunk ≡ true

-- np_respond takes the fid of a read reply: a version, which has no fid, is not answered by one.
abbrev pub Versions : Env → Type 0
Versions env =
    (t : List Event) (m : ℕ) (v : Npstr)
    → has_type (env.server (Event.version m v ∷ t)).rc rread ≡ false

-- np_auth asserts that the qid of a startauth that succeeds is one of an auth file.
abbrev pub Auths : Env → Type 0
Auths env =
    (t : List Event) (p : Ptr) (n : Npstr)
    → has_bits (env.server (Event.startauth p n ∷ t)).qid.type qtauth ≡ true

-- np_set_rread_count asserts that an auth read gives no more bytes than it was asked for.
abbrev pub AuthReads : Env → Type 0
AuthReads env =
    (t : List Event) (p : Ptr) (o c : ℕ) → to_nat (env.server (Event.auth_read p o c ∷ t)).ret ≤ c

-- np_strdup writes through what malloc returns.
abbrev pub Memory : Env → Type 0
Memory env = (n : ℕ) → env.malloc n ≡ true

-- What the handler of a message relies on, by its entry of np_fcalls. The handlers that are not
-- named rely on none of these.
pub record Relies (env : Env) (h : Option (Option Handler)) (tc : Npfcall) : Type 0 where
  pub walk : h ≡ some (some Handler.walk) → tc.fid ≢ tc.newfid → Clones env
  pub clunk : h ≡ some (some Handler.clunk) → Removes env × AuthClunks env
  pub version : h ≡ some (some Handler.version) → Versions env
  pub auth : h ≡ some (some Handler.auth) → Auths env × Memory env
  pub attach : h ≡ some (some Handler.attach) → Memory env
  pub read : h ≡ some (some Handler.read) → AuthReads env
