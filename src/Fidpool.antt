-- ===== src/Fidpool.antt =====
-- libnpfs/fidpool.c: the fids of a connection, in a hash table of doubly linked lists.
-- A bucket is the list of the addresses of its fids; the fields next and prev are that order.
pub mod Chains
pub mod WellFormed
pub mod Find
pub mod FidMap
pub mod Lists
pub mod Destroy
use npfs.Prelude.{
  ◌-◌, ◌++◌, ℕ, zero, suc, ◌+◌, ◌%◌, Bool, true, false, ◌&&◌, Option, none, some, List, [], ◌∷◌,
  ◌==◌, if◌then◌else◌, has_bits, pos, pred_ℤ, is_zero, length,
}
use npfs.Constants.{fid_htable_size, onotopen, qtauth}
use npfs.State.{Ptr, Npfid, Event, Env, fault, M, pure, ok, ◌>>=◌, ◌>>◌}
use npfs.State.Mem.{np_fid_incref, put_fid, put_bucket, load, store}
use npfs.State.Call.{call_void, np_user_decref}
use npfs.Werror.{np_malloc}

-- Takes one node out of a bucket.
unfoldable pub unlink : Ptr → List Ptr → List Ptr
unlink p [] = []
unlink p (q ∷ qs) = if q == p then qs else q ∷ unlink p qs

-- The loop of np_fid_lookup. The outer `none` is a fault.
unfoldable pub scan : (Ptr → Option Npfid) → ℕ → List Ptr → Option (Option Ptr)
scan h fid [] = some none
scan h fid (p ∷ ps) = elim (h p) [
  | none ↦ none
  | some f ↦ if f.fid == fid then some (some p) else scan h fid ps
]

-- The found fid goes to the head of its bucket, unless it is there.
unfoldable pub to_front : Ptr → List Ptr → List Ptr
to_front p [] = []
to_front p (q ∷ qs) = if q == p then q ∷ qs else p ∷ unlink p (q ∷ qs)

unfoldable pub np_fid_lookup : ℕ → ℕ → M (Option Ptr)
np_fid_lookup fid hash s = elim (scan s.heap fid (s.htable hash)) [
  | none ↦ fault
  | some none ↦ ok none s
  | some (some p) ↦
      ok (some p) (record s { htable = put_bucket s.htable hash (to_front p (s.htable hash)) })
]

unfoldable pub np_fid_find : ℕ → M (Option Ptr)
np_fid_find fid = np_fid_lookup fid (fid % fid_htable_size)

abbrev pub new_fid : ℕ → Npfid
new_fid fid = record {
  fid = fid;
  refcount = pos 0;
  omode = onotopen;
  type = 0;
  diroffset = 0;
  user = none;
}

-- The new fid goes to the head of its bucket.
unfoldable pub link_fid : ℕ → Ptr → M (Unit {0})
link_fid fid p s = ok tt (record s {
  heap = put_fid s.heap p (some (new_fid fid));
  htable = put_bucket s.htable hash (p ∷ s.htable hash);
})
  where
    hash : ℕ
    hash = fid % fid_htable_size

unfoldable pub unlink_fid : Ptr → ℕ → M (Unit {0})
unlink_fid p hash s =
    ok tt (record s { htable = put_bucket s.htable hash (unlink p (s.htable hash)) })

-- `free(fid)`
unfoldable pub free_fid : Ptr → M (Unit {0})
free_fid p s = ok tt (record s { heap = put_fid s.heap p none })

-- `free(pool)`
unfoldable pub drop_table : M (Unit {0})
drop_table s = ok tt (record s { htable = λ i. [] })

module _ (env : Env) where
  unfoldable pub insert_fid : ℕ → Ptr → Bool → M (Option Ptr)
  insert_fid fid p true = link_fid fid p >> pure (some p)
  insert_fid fid p false = pure none

  unfoldable pub create_missing : ℕ → Option Ptr → M (Option Ptr)
  create_missing fid (some p) s = ok (some p) s
  create_missing fid none s = (np_malloc env >>= insert_fid fid s.next) s

  unfoldable pub np_fid_create : ℕ → M (Option Ptr)
  np_fid_create fid = do f ← np_fid_lookup fid (fid % fid_htable_size); create_missing fid f

  -- The file server's own data of a fid goes away.
  unfoldable pub release : Ptr → ℕ → M (Unit {0})
  release p type =
      if has_bits type qtauth
      then if env.has_auth && env.has_auth_clunk
        then call_void env (Event.auth_clunk p)
        else pure tt
      else if env.has_fiddestroy
      then call_void env (Event.fiddestroy p)
      else pure tt

  unfoldable pub np_fid_destroy : Ptr → M (Unit {0})
  np_fid_destroy p = do
    f ← load p
    unlink_fid p (f.fid % fid_htable_size)
    release p f.type
    g ← load p
    np_user_decref g.user
    free_fid p

  -- A NULL pointer is `none`.
  unfoldable pub np_fid_decref : Option Ptr → M (Unit {0})
  np_fid_decref none = pure tt
  np_fid_decref (some p) = do
    f ← load p
    store p (record f { refcount = pred_ℤ f.refcount })
    if is_zero (pred_ℤ f.refcount) then np_fid_destroy p else pure tt

  -- The inner loop of np_fidpool_destroy.
  unfoldable pub destroy_bucket : List Ptr → M (Unit {0})
  destroy_bucket [] = pure tt
  destroy_bucket (p ∷ ps) = do f ← load p; release p f.type; free_fid p; destroy_bucket ps

  unfoldable pub destroy_buckets : (ℕ → List Ptr) → ℕ → M (Unit {0})
  destroy_buckets t zero = pure tt
  destroy_buckets t (suc n) = do destroy_buckets t n; destroy_bucket (t n)

  unfoldable pub np_fidpool_destroy : M (Unit {0})
  np_fidpool_destroy s = (destroy_buckets s.htable fid_htable_size >> drop_table) s

-- The loop over the buckets from 0 on, with `n` of them to go.
unfoldable pub count_buckets : (ℕ → List Ptr) → ℕ → ℕ
count_buckets t zero = 0
count_buckets t (suc n) = count_buckets t n + length (t n)

unfoldable pub np_fidpool_count : M ℕ
np_fidpool_count s = ok (count_buckets s.htable fid_htable_size) s

-- The inner loop of np_fidpool_list: as many fids of a bucket as there is room for.
unfoldable pub list_bucket : ℕ → List Ptr → M (List Ptr)
list_bucket room [] = pure []
list_bucket zero (p ∷ ps) = pure []
list_bucket (suc room) (p ∷ ps) = do np_fid_incref p; qs ← list_bucket room ps; pure (p ∷ qs)

-- The buckets before the n-th, from the first on.
unfoldable pub list_buckets : (ℕ → List Ptr) → ℕ → ℕ → M (List Ptr)
list_buckets t count zero = pure []
list_buckets t count (suc n) = do
  ps ← list_buckets t count n
  qs ← list_bucket (count - length ps) (t n)
  pure (ps ++ qs)

unfoldable pub np_fidpool_list : ℕ → M (List Ptr)
np_fidpool_list count s = list_buckets s.htable count fid_htable_size s
