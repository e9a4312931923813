-- ===== src/Guards/Writes.antt =====
-- libnpfs/fcall.c: np_write: the one call that it makes, and when.
use npfs.Prelude.{
  String, ℤ, subst, ℕ, ◌≡◌, ◌≢◌, refl, ◌∙◌, ap, ◌⊎◌, inl, inr, true, false, Option, none, some, ◌∷◌,
  has_bits, bit_and, arith, ◌==◌, ◌||◌, succ_ℤ, is_negative,
}
use npfs.Types.{Npfcall}
use npfs.Constants.{eio, qtauth, qtdir, ftxattr, onotopen, oread, bad_use_fid, too_large}
use npfs.State.{get, Ptr, Npfid, Event, Env, St, ◌>>=◌}
use npfs.State.Returns.{Returns}
use npfs.State.Mem.{load}
use npfs.State.Call.{call, call_rc}
use npfs.Fcall.Reply.{fail, np_create_rwrite}
use npfs.Fcall.Files.{is_too_large, auth_written, write_checked, np_write}
use npfs.Safety.Grows.{Safe}
use npfs.Safety.Contract.{Contract}
use npfs.Safety.Fids.{Done}
use npfs.Safety.Files.{np_write-Done}
use npfs.Safety.Actions.{load_live}
use npfs.Answers.Ends.{Ends-if, Ends, ends, Ends-bind, Ends-mono, Returns-Ends}
use npfs.Guards.Traces.{
  call-OneCall, call_rc-OneCall, fail-NoCall, create_reply-NoCall, Entered, with_fid-Ends,
}

-- The calls that a write may make, by the kind of the fid. A plain fid is open for writing, is no
-- directory, and the count passed the test.
pub data MayWrite (env : Env) (tc : Npfcall) (msize : ℕ) (p : Ptr) (f : Npfid)
    : Event → Type 0 where
  on_auth :
      has_bits f.type qtauth ≡ true
      → env.has_auth ≡ true
      → MayWrite env tc msize p f (Event.auth_write p tc.offset tc.count tc.bytes)
  on_xattr :
      has_bits f.type qtauth ≡ false
      → has_bits f.type ftxattr ≡ true
      → MayWrite env tc msize p f (Event.xattrwrite p tc.offset tc.count tc.bytes)
  on_plain :
      has_bits f.type qtauth ≡ false
      → has_bits f.type ftxattr ≡ false
      → f.omode ≢ onotopen
      → has_bits f.type qtdir ≡ false
      → bit_and f.omode 3 ≢ oread
      → is_too_large tc.count msize ≡ false
      → MayWrite env tc msize p f (Event.write p tc.offset tc.count tc.bytes)

-- What a write does: it ends with no reply and no call, or it makes one call, on a fid of the
-- message's number that may be written.
abbrev pub WriteGuarded : Env → Npfcall → St → Option Npfcall → St → Type 0
WriteGuarded env tc s rc t =
    ((rc ≡ none) × (t.trace ≡ s.trace))
    ⊎ ((p : Ptr) × (f : Npfid) × (e : Event) × (s.heap p ≡ some f)
        × (f.fid ≡ tc.fid)
        × MayWrite env tc s.msize p f e
        × (t.trace ≡ e ∷ s.trace))

-- The count of references has no part in it.
recount :
    (env : Env) (tc : Npfcall) (m : ℕ) (p : Ptr) (f : Npfid) (r : ℤ) (e : Event)
    → MayWrite env tc m p (record f { refcount = r }) e
    → MayWrite env tc m p f e
recount env tc m p f r _ (on_auth a b) = on_auth a b
recount env tc m p f r _ (on_xattr a b) = on_xattr a b
recount env tc m p f r _ (on_plain a b c d e g) = on_plain a b c d e g

module _ (env : Env) (tc : Npfcall) (m : ℕ) (p : Ptr) (f : Npfid) where
  abbrev Checked : St → Option Npfcall → St → Type 0
  Checked s rc t =
      ((rc ≡ none) × (t.trace ≡ s.trace))
      ⊎ ((e : Event) × MayWrite env tc m p f e × (t.trace ≡ e ∷ s.trace))

  failed : (text : String) (s : St) → Ends (Checked s) (fail env text eio s)
  failed text s = Ends-mono (fail-NoCall env text eio s) (λ rc t x. inl x)

  called : (e : Event) (s : St) → MayWrite env tc m p f e → Ends (Checked s) (call_rc env e s)
  called e s may = Ends-mono (call_rc-OneCall env e s) (λ rc t x. inr (e, may, x))

  write_auth :
      (s : St)
      → has_bits f.type qtauth ≡ true
      → env.has_auth ≡ true
      → Ends
          (Checked s)
          ((call env (Event.auth_write p tc.offset tc.count tc.bytes) >>= auth_written env) s)
  unfolding auth_written np_create_rwrite
  write_auth s auth set = Ends-bind (call-OneCall env _ s) λ o t x.
      Ends-if (is_negative o.ret) _ _ t (λ _. ends (inr (_, on_auth auth set, x)))
        (λ _. Ends-mono (create_reply-NoCall env _ t) (λ rc u y. inr (_, on_auth auth set, y ∙ x)))

  write_checked-Guarded : (s : St) → Ends (Checked s) (write_checked env tc p f m s)
  unfolding write_checked
  write_checked-Guarded s =
      Ends-if (has_bits f.type qtauth) _ _ s
        (λ auth.
          Ends-if env.has_auth _ (fail env bad_use_fid eio) s (λ set. write_auth s auth set)
            (λ _. failed bad_use_fid s))
        λ no_auth.
          Ends-if (has_bits f.type ftxattr)
            (call_rc env (Event.xattrwrite p tc.offset tc.count tc.bytes)) _ s
            (λ xattr. called _ s (on_xattr no_auth xattr))
            λ no_xattr.
              Ends-if
                ((f.omode == onotopen) || has_bits f.type qtdir || (bit_and f.omode 3 == oread))
                (fail env bad_use_fid eio) _ s (λ _. failed bad_use_fid s)
                λ opened.
                  Ends-if (is_too_large tc.count m) (fail env too_large eio)
                    (call_rc env (Event.write p tc.offset tc.count tc.bytes)) s
                    (λ _. failed too_large s)
                    λ fits. called _ s (
                      on_plain no_auth no_xattr (ground (arith, opened)) (ground (arith, opened))
                        (ground (arith, opened)) fits)

module _ (env : Env) (tc : Npfcall) where
  entered :
      (s : St) (p : Ptr) (f : Npfid) (t : St)
      → Entered env s tc.fid p f t
      → Ends
          (WriteGuarded env tc s)
          ((load p >>= λ g. get >>= λ x. write_checked env tc p g x.msize) t)
  entered s p f t x =
      rw (load_live t p _ x.now) (Ends-mono (write_checked-Guarded env tc t.msize p _ t) whole)
    where
      whole :
          (rc : Option Npfcall) (u : St)
          → Checked env tc t.msize p (record f { refcount = succ_ℤ f.refcount }) t rc u
          → WriteGuarded env tc s rc u
      whole rc u (inl (e, y)) = inl (e, y ∙ x.trace)
      whole rc u (inr (e, may, y)) = inr (
        p,
        f,
        e,
        x.old,
        x.number,
        subst (λ m. MayWrite env tc m p f e) x.msize (recount env tc _ p f _ e may),
        y ∙ ap (λ l. e ∷ l) x.trace,
      )

  -- From a safe state, where a call of the file server touches no fids but those it is given, a write
  -- does not fault. It ends
  -- with no reply and makes no call, or it makes one call of the file server, on a live fid of the
  -- message's number: the auth write of an auth fid, the write of an attribute fid, or the write of a
  -- fid that is open for writing and no directory, with a count that passed the test on the size.
  pub np_write-Guarded :
      (c : Contract env) (s : St)
      → Safe s
      → Returns (λ rc t. Done s rc t × WriteGuarded env tc s rc t) (np_write env tc s)
  unfolding np_write
  np_write-Guarded c s v = Returns-Ends (np_write-Done env c s v tc) (
      with_fid-Ends env tc.fid _ s (WriteGuarded env tc s) v.pool (λ t x. inl (refl, x))
        (λ p f t x. entered s p f t x))
