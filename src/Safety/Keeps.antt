-- ===== src/Safety/Keeps.antt =====
-- Actions that keep a statement about the state, one rule for each way to build a handler.
use npfs.Prelude.{
  ℕ, ◌≡◌, sym, subst, Bool, Option, none, some, String, List, if◌then◌else◌, AtLeast,
}
use npfs.Types.{Npqid, Npfcall}
use npfs.State.{Ptr, Npfid, Event, Env, St, M, pure, get, ◌>>=◌, ◌>>◌}
use npfs.State.Mem.{load, adjust}
use npfs.State.Returns.{Returns, returns, Returns-bind, Returns-mono, Returns-if}
use npfs.State.Call.{call, call_void, call_rc, np_user_incref}
use npfs.Werror.{np_werror}
use npfs.Fcall.Reply.{fail, create_reply, np_create_rwalk, np_alloc_rread}
use npfs.Safety.Grows.{IsLive, Grows}
use npfs.Safety.Actions.{load_live, adjust-Calm, np_werror-Calm, np_malloc-Calm, CalmTo}
use npfs.Safety.Contract.{Contract, call-Calm, np_user_incref-Calm, AllLive, event_fids}

-- The action does not fault, and leaves a state of which Q holds.
pub record Keeps (Q : St → Type 0) {A : Type 0} (m : M A) : Type 0 where
  pub at : (s : St) → Q s → Returns (λ _ s'. Q s') (m s)

-- A statement that calm actions keep.
abbrev pub IsClosed : (St → Type 0) → Type 0
IsClosed Q = (s s' : St) → Grows s s' → Q s → Q s'

module _ {Q : St → Type 0} where
  pub Keeps-pure : {A : Type 0} (a : A) → Keeps Q (pure a)
  Keeps-pure a = record { at = λ s h. returns h }

  pub Keeps-bind :
      {A B : Type 0} (m : M A) (k : A → M B)
      → Keeps Q m
      → ((a : A) → Keeps Q (k a))
      → Keeps Q (m >>= k)
  Keeps-bind m k hm hk = record { at = λ s h. Returns-bind (hm.at s h) (λ a t h'. (hk a).at t h') }

  pub Keeps-then :
      {B : Type 0} (m : M (Unit {0})) (n : M B) → Keeps Q m → Keeps Q n → Keeps Q (m >> n)
  Keeps-then m n hm hn = record { at = λ s h. Returns-bind (hm.at s h) (λ a t h'. hn.at t h') }

  pub Keeps-if :
      {A : Type 0} (b : Bool) (m n : M A) → Keeps Q m → Keeps Q n → Keeps Q (if b then m else n)
  Keeps-if b m n hm hn = record { at = λ s h. Returns-if b m n s (λ _. hm.at s h) (λ _. hn.at s h) }

  pub Keeps-get : {A : Type 0} (k : St → M A) → ((s : St) → Keeps Q (k s)) → Keeps Q (get >>= k)
  Keeps-get k hk = record { at = λ s h. (hk s).at s h }

module _ {Q : St → Type 0} (closed : IsClosed Q) where
  calm : {A : Type 0} (m : M A) → ((s : St) → CalmTo s (m s)) → Keeps Q m
  calm m hm = record { at = λ s h. Returns-mono (hm s) (λ _ t g. closed s t g.grows h) }

  pub Keeps-load : (p : Ptr) → ((s : St) → Q s → IsLive s.heap p) → Keeps Q (load p)
  Keeps-load p live = record {
    at = λ s h. let (f, e) = live s h in rw (load_live s p f e) (returns h);
  }

  -- A change of fields that leaves the number and the references alone.
  pub Keeps-adjust :
      (p : Ptr) (c : Npfid → Npfid)
      → ((f : Npfid) → (c f).fid ≡ f.fid)
      → ((f : Npfid) → (c f).refcount ≡ f.refcount)
      → ((s : St) → Q s → IsLive s.heap p)
      → Keeps Q (adjust p c)
  Keeps-adjust p c number count live = record {
    at = λ s h.
        let (f, e) = live s h in
        Returns-mono
          (adjust-Calm s p f e c (number f) (λ k a. subst (λ r. AtLeast k r) (sym (count f)) a))
          (λ _ t g. closed s t g.grows h);
  }

  pub Keeps-user_incref : (u : Option Ptr) → Keeps Q (np_user_incref u)
  Keeps-user_incref u = calm _ (np_user_incref-Calm u)

  module _ (env : Env) where
    pub Keeps-werror : (name : Option String) (code : ℕ) → Keeps Q (np_werror env name code)
    Keeps-werror name code = calm _ (np_werror-Calm env name code)

    pub Keeps-fail : (text : String) (code : ℕ) → Keeps Q (fail env text code)
    unfolding fail
    Keeps-fail text code = Keeps-then _ _ (Keeps-werror (some text) code) (Keeps-pure none)

    pub Keeps-reply : (rc : Npfcall) → Keeps Q (create_reply env rc)
    unfolding create_reply
    Keeps-reply rc =
        Keeps-bind _ _ (calm _ (λ s. Returns-mono (np_malloc-Calm env s) (λ _ t g. g.0)))
          (λ b. Keeps-pure _)

    pub Keeps-rwalk : (n : ℕ) (qids : List Npqid) → Keeps Q (np_create_rwalk env n qids)
    unfolding np_create_rwalk
    Keeps-rwalk n qids = Keeps-if _ _ _ (Keeps-pure none) (Keeps-reply _)

    pub Keeps-rread : (count : ℕ) → Keeps Q (np_alloc_rread env count)
    unfolding np_alloc_rread
    Keeps-rread count = Keeps-bind _ _ (Keeps-reply _) (λ rc. Keeps-pure _)

    module _ (c : Contract env) (e : Event) (live : (s : St) → Q s → AllLive s (event_fids e)) where
      pub Keeps-call : Keeps Q (call env e)
      Keeps-call = record {
        at = λ s h. Returns-mono (call-Calm env c e s (live s h)) (λ _ t g. closed s t g.0.grows h);
      }

      pub Keeps-call_rc : Keeps Q (call_rc env e)
      unfolding call_rc
      Keeps-call_rc = Keeps-bind _ _ Keeps-call (λ o. Keeps-pure o.rc)

      pub Keeps-call_void : Keeps Q (call_void env e)
      unfolding call_void
      Keeps-call_void = Keeps-bind _ _ Keeps-call (λ o. Keeps-pure tt)
