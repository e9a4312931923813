-- ===== src/Safety/Contract.antt =====
-- What libnpfs relies on in a file server, and the calls of one that keeps to it.
use npfs.Prelude.{
  inl, inr, subst, ℕ, ◌≡◌, refl, sym, ap, Option, none, some, String, List, [], ◌∷◌, arith, All,
}
use npfs.State.{Ptr, Event, Outcome, Env, St}
use npfs.State.{FidOp, incref, set_omode, set_type, set_user}
use npfs.State.Returns.{Returns, returns, Returns-bind, Returns-mono}
use npfs.State.Call.{
  apply_op, apply_ops, set_outcome_error, call, call_void, call_rc, np_user_incref,
}
use npfs.Fidpool.Chains.{In}
use npfs.Safety.Grows.{IsLive, IsLive-shape, Calm, Calm-refl, Calm-trans}
use npfs.Safety.Actions.{adjust-Calm, np_fid_incref-Incref, CalmTo, Calm-same}

abbrev pub op_fid : FidOp → Ptr
op_fid (incref p) = p
op_fid (set_omode p v) = p
op_fid (set_type p v) = p
op_fid (set_user p u) = p

-- The fids that a call hands to the file server.
unfoldable pub event_fids : Event → List Ptr
event_fids (Event.startauth p n) = p ∷ []
event_fids (Event.checkauth p none n) = p ∷ []
event_fids (Event.checkauth p (some a) n) = p ∷ a ∷ []
event_fids (Event.auth_read p o c) = p ∷ []
event_fids (Event.auth_write p o c d) = p ∷ []
event_fids (Event.auth_clunk p) = p ∷ []
event_fids (Event.fiddestroy p) = p ∷ []
event_fids (Event.attach p none u n) = p ∷ []
event_fids (Event.attach p (some a) u n) = p ∷ a ∷ []
event_fids (Event.clone p q) = p ∷ q ∷ []
event_fids (Event.walk p n) = p ∷ []
event_fids (Event.open_fid p m) = p ∷ []
event_fids (Event.create p n m d e) = p ∷ []
event_fids (Event.read p o c) = p ∷ []
event_fids (Event.write p o c d) = p ∷ []
event_fids (Event.clunk p) = p ∷ []
event_fids (Event.remove p) = p ∷ []
event_fids (Event.stat p) = p ∷ []
event_fids (Event.wstat p d) = p ∷ []
event_fids (Event.statfs p) = p ∷ []
event_fids (Event.lopen p f) = p ∷ []
event_fids (Event.lcreate p n f m g) = p ∷ []
event_fids (Event.symlink p n t g) = p ∷ []
event_fids (Event.mknod p n m j k g) = p ∷ []
event_fids (Event.rename p q n) = p ∷ q ∷ []
event_fids (Event.readlink p) = p ∷ []
event_fids (Event.getattr p m) = p ∷ []
event_fids (Event.setattr p a) = p ∷ []
event_fids (Event.xattrwalk p q n) = p ∷ q ∷ []
event_fids (Event.xattrcreate p n z f) = p ∷ []
event_fids (Event.xattrread p o c) = p ∷ []
event_fids (Event.xattrwrite p o c d) = p ∷ []
event_fids (Event.readdir p o c) = p ∷ []
event_fids (Event.fsync p) = p ∷ []
event_fids (Event.flock p t f o l r c) = p ∷ []
event_fids (Event.getlock p t o l r c) = p ∷ []
event_fids (Event.link p q n) = p ∷ q ∷ []
event_fids (Event.mkdir p n m g) = p ∷ []
event_fids (Event.renameat p n q m) = p ∷ q ∷ []
event_fids (Event.unlinkat p n) = p ∷ []
event_fids _ = []

-- A file server, while it serves a call, touches no fids but those that the call hands to it.
pub record Contract (env : Env) : Type 0 where
  pub local :
      (t : List Event) (e : Event)
      → All (λ o. In (op_fid o) (event_fids e)) (env.server (e ∷ t)).ops

apply_op-Calm : (o : FidOp) (s : St) → IsLive s.heap (op_fid o) → CalmTo s (apply_op o s)
unfolding apply_op
apply_op-Calm (incref p) s l = Returns-mono (np_fid_incref-Incref s p l) (λ _ t g. g.calm)
apply_op-Calm (set_omode p v) s (f, e) = adjust-Calm s p f e _ refl (λ k a. a)
apply_op-Calm (set_type p v) s (f, e) = adjust-Calm s p f e _ refl (λ k a. a)
apply_op-Calm (set_user p u) s (f, e) = adjust-Calm s p f e _ refl (λ k a. a)

abbrev pub AllLive : St → List Ptr → Type 0
AllLive s ps = (p : Ptr) → In p ps → IsLive s.heap p

pub live_one : (s : St) (p : Ptr) → IsLive s.heap p → AllLive s (p ∷ [])
live_one s p l q (inl e) = subst (λ r. IsLive s.heap r) e l
live_one s p l q (inr m) = absurd m

pub live_two : (s : St) (p r : Ptr) → IsLive s.heap p → IsLive s.heap r → AllLive s (p ∷ r ∷ [])
live_two s p r l m q (inl e) = subst (λ x. IsLive s.heap x) e l
live_two s p r l m q (inr x) = live_one s r m q x

AllLive-Calm : {s s' : St} (ps : List Ptr) → Calm s s' → AllLive s ps → AllLive s' ps
AllLive-Calm {s} {s'} ps g l p m = IsLive-shape s'.heap s.heap p (sym (g.grows.shape p)) (l p m)

apply_ops-Calm :
    (ps : List Ptr) (os : List FidOp) (s : St)
    → All (λ o. In (op_fid o) ps) os
    → AllLive s ps
    → CalmTo s (apply_ops os s)
unfolding apply_ops
apply_ops-Calm ps [] s a l = returns (Calm-refl s)
apply_ops-Calm ps (o ∷ os) s (m, a) l =
    Returns-bind (apply_op-Calm o s (l (op_fid o) m)) λ _ t g.
      Returns-mono (apply_ops-Calm ps os t a (AllLive-Calm ps g l)) (λ _ u h. Calm-trans g h)

set_outcome_error-Calm : (e : Option (String × ℕ)) (s : St) → CalmTo s (set_outcome_error e s)
unfolding set_outcome_error
set_outcome_error-Calm none s = returns (Calm-refl s)
set_outcome_error-Calm (some (text, code)) s =
    returns (Calm-same s _ refl refl (omega arith) refl refl refl)

pub np_user_incref-Calm : (u : Option Ptr) (s : St) → CalmTo s (np_user_incref u s)
unfolding np_user_incref
np_user_incref-Calm none s = returns (Calm-refl s)
np_user_incref-Calm (some u) s = returns (Calm-same s _ refl refl (omega arith) refl refl refl)

module _ (env : Env) (c : Contract env) where
  -- A call touches no reference, and returns what the server says.
  pub call-Calm :
      (e : Event) (s : St)
      → AllLive s (event_fids e)
      → Returns (λ o s'. Calm s s' × (o ≡ env.server (e ∷ s.trace))) (call env e s)
  unfolding call
  call-Calm e s l =
      Returns-bind
        (apply_ops-Calm (event_fids e) _ (record s { trace = e ∷ s.trace }) (c.local s.trace e) l)
        λ _ t g. Returns-bind (set_outcome_error-Calm _ t) λ _ u h.
          returns (
            Calm-trans (Calm-same s _ refl refl (omega arith) refl refl refl) (Calm-trans g h),
            refl,
          )

  pub call_void-Calm :
      (e : Event) (s : St) → AllLive s (event_fids e) → CalmTo s (call_void env e s)
  unfolding call_void
  call_void-Calm e s l = Returns-bind (call-Calm e s l) λ o t g. returns g.0

  pub call_rc-Calm :
      (e : Event) (s : St)
      → AllLive s (event_fids e)
      → Returns (λ rc s'. Calm s s' × (rc ≡ (env.server (e ∷ s.trace)).rc)) (call_rc env e s)
  unfolding call_rc
  call_rc-Calm e s l =
      Returns-bind (call-Calm e s l) λ o t g. returns (g.0, ap (λ (x : Outcome). x.rc) g.1)
