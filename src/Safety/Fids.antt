-- ===== src/Safety/Fids.antt =====
-- The first and last steps of a handler: the reference that a request has to its fid.
use npfs.Prelude.{
  ℕ, ◌≡◌, ◌≢◌, refl, sym, ◌∙◌, subst, ◌⊎◌, inl, inr, false, Option, none, some, String, [], ◌∷◌,
  arith,
}
use npfs.Types.{Npfcall}
use npfs.Constants.{rread}
use npfs.State.{Ptr, Event, Env, St, M}
use npfs.State.Returns.{Returns, returns, Returns-bind, Returns-mono, Returns-if}
use npfs.Fcall.Reply.{has_type, fail, found, with_ref, with_fid}
use npfs.Fcall.Files.{drop_on}
use npfs.Safety.Grows.{Holds, Holds-le, IsLive, Safe, SafeBut-Grows, Grows-trans}
use npfs.Safety.Actions.{np_fid_incref-Incref, np_werror-Calm}
use npfs.Safety.Contract.{Contract, AllLive, live_one, event_fids}
use npfs.Safety.Pool.{Finds, np_fid_find-Finds}
use npfs.Safety.Decref.{np_fid_decref-Drops}
use npfs.State.Call.{call, call_rc}
use npfs.Safety.Keeps.{
  Keeps, IsClosed, Keeps-pure, Keeps-bind, Keeps-then, Keeps-if, Keeps-get, Keeps-load,
  Keeps-adjust, Keeps-fail, Keeps-reply, Keeps-call, Keeps-call_rc,
}

pub some≢none : (p : Ptr) → some p ≢ none
some≢none p e = cc

-- What a handler leaves: a safe state, the lists of the requests as they were, and a fid in the
-- request where the reply is one to a read.
pub record Done (s0 : St) (rc : Option Npfcall) (s : St) : Type 0 where
  pub safe : Safe s
  pub req : s.req ≡ s0.req
  pub workreqs : s.workreqs ≡ s0.workreqs
  pub fid : (s.rfid ≢ none) ⊎ (has_type rc rread ≡ false)

-- The fid has the pool's reference and one of this request, which records the fid `r`.
pub record Own (s0 : St) (p : Ptr) (r : Option Ptr) (s : St) : Type 0 where
  pub safe : Safe s
  pub two : Holds s.heap p 2
  pub rfid : s.rfid ≡ r
  pub req : s.req ≡ s0.req
  pub workreqs : s.workreqs ≡ s0.workreqs

module _ (s0 : St) where
  pub Own-closed : (p : Ptr) (r : Option Ptr) → IsClosed (Own s0 p r)
  Own-closed p r s t g o = record {
    safe = SafeBut-Grows g o.safe;
    two = g.holds p 2 o.two;
    rfid = g.rfid ∙ o.rfid;
    req = g.req ∙ o.req;
    workreqs = g.workreqs ∙ o.workreqs;
  }

  pub Own-live : (p : Ptr) (r : Option Ptr) (s : St) → Own s0 p r s → IsLive s.heap p
  Own-live p r s o = (o.two.0, o.two.1)

  pub Own-live_one : (p : Ptr) (r : Option Ptr) (s : St) → Own s0 p r s → AllLive s (p ∷ [])
  Own-live_one p r s o = live_one s p (o.two.0, o.two.1)

  pub Done-none : {s : St} → Safe s → s.req ≡ s0.req → s.workreqs ≡ s0.workreqs → Done s0 none s
  Done-none v a b = record { safe = v; req = a; workreqs = b; fid = inr refl }

  pub Done-Own : (p : Ptr) (rc : Option Npfcall) {s : St} → Own s0 p (some p) s → Done s0 rc s
  Done-Own p rc o = record {
    safe = o.safe;
    req = o.req;
    workreqs = o.workreqs;
    fid = inl (λ e. some≢none p (sym o.rfid ∙ e));
  }

  pub Own-set :
      (p : Ptr) (r : Option Ptr) (s : St)
      → Own s0 p r s
      → Own s0 p (some p) (record s { rfid = some p })
  Own-set p r s o = record {
    safe = record {
      pool = o.safe.pool;
      counted = o.safe.counted;
      mine = λ q e.
          let same : p ≡ q = cc in
          Holds-le s.heap q 1 2 (omega arith) (subst (λ x. Holds s.heap x 2) same o.two);
    };
    two = o.two;
    rfid = refl;
    req = o.req;
    workreqs = o.workreqs;
  }

  -- A handler that keeps the request's reference is done.
  pub Keeps-Done :
      (p : Ptr) (m : M (Option Npfcall))
      → Keeps (Own s0 p (some p)) m
      → (s : St) → Own s0 p (some p) s
      → Returns (Done s0) (m s)
  Keeps-Done p m k s o = Returns-mono (k.at s o) (λ rc t o'. Done-Own p rc o')

  module _ (env : Env) where
    -- A failure before the request has a fid.
    pub fail-Done :
        (text : String) (code : ℕ) (s : St)
        → Safe s
        → s.req ≡ s0.req
        → s.workreqs ≡ s0.workreqs
        → Returns (Done s0) (fail env text code s)
    unfolding fail
    fail-Done text code s v a b = Returns-bind (np_werror-Calm env (some text) code s) λ _ t g.
        returns (Done-none (SafeBut-Grows g.grows v) (g.grows.req ∙ a) (g.grows.workreqs ∙ b))

    pub with_ref-Done :
        (n : ℕ) (k : Ptr → M (Option Npfcall))
        → Safe s0
        → ((p : Ptr) (s : St) → Own s0 p s0.rfid s → Returns (Done s0) (k p s))
        → Returns (Done s0) (with_ref env n k s0)
    unfolding with_ref found
    with_ref-Done n k v next = Returns-bind (np_fid_find-Finds n s0 v.pool) looked
      where
        looked : (r : Option Ptr) (t : St) → Finds n s0 r t → Returns (Done s0) (found env r k t)
        looked none t f = fail-Done _ _ t (SafeBut-Grows f.grows v) f.grows.req f.grows.workreqs
        looked (some p) t f =
            let v' = SafeBut-Grows f.grows v in
            let live = (f.found p refl).0 in
            Returns-bind (np_fid_incref-Incref t p live) λ _ u i.
              let g = Grows-trans f.grows i.calm.grows in
              next p u (record {
                safe = SafeBut-Grows i.calm.grows v';
                two = i.more 1 (v'.counted p live (some≢none p));
                rfid = g.rfid;
                req = g.req;
                workreqs = g.workreqs;
              })

    -- The handlers that record their fid at once.
    pub with_fid-Done :
        (n : ℕ) (k : Ptr → M (Option Npfcall))
        → Safe s0
        → ((p : Ptr) (s : St) → Own s0 p (some p) s → Returns (Done s0) (k p s))
        → Returns (Done s0) (with_fid env n k s0)
    unfolding with_fid
    with_fid-Done n k v next = with_ref-Done n _ v λ p s o. next p _ (Own-set p _ s o)

    -- A handler that keeps the request's reference from the first test to the end.
    pub single :
        (n : ℕ) (k : Ptr → M (Option Npfcall))
        → Safe s0
        → ((p : Ptr) → Keeps (Own s0 p (some p)) (k p))
        → Returns (Done s0) (with_fid env n k s0)
    single n k v keeps = with_fid-Done n k v λ p s o. Keeps-Done p (k p) (keeps p) s o

    -- The pool's reference goes, and the request's stays.
    pub drop_on-Done :
        (c : Contract env) (type : ℕ) (p : Ptr) (rc : Option Npfcall) (s : St)
        → Own s0 p (some p) s
        → Returns (Done s0) (drop_on env type p rc s)
    unfolding drop_on
    drop_on-Done c type p rc s o =
        Returns-if (has_type rc type) _ _ s
          (λ _.
            Returns-bind (np_fid_decref-Drops env c p s o.safe (Own-live p _ s o) (inr o.two))
              λ _ t (v, d). returns (record {
                safe = v;
                req = d.req ∙ o.req;
                workreqs = d.workreqs ∙ o.workreqs;
                fid = inl (λ e. some≢none p (sym (d.rfid ∙ o.rfid) ∙ e));
              }))
          (λ _. returns (Done-Own p rc o))

  -- A call on the handler's fid.
  module _ (env : Env) (c : Contract env) (p : Ptr) (e : Event) (h : event_fids e ≡ p ∷ []) where
    on_fid : (s : St) → Own s0 p (some p) s → AllLive s (event_fids e)
    on_fid s o = subst (AllLive s) (sym h) (Own-live_one p _ s o)

    pub Keeps-on_fid : Keeps (Own s0 p (some p)) (call env e)
    Keeps-on_fid = Keeps-call (Own-closed p _) env c e on_fid

    pub Keeps-on_fid_rc : Keeps (Own s0 p (some p)) (call_rc env e)
    Keeps-on_fid_rc = Keeps-call_rc (Own-closed p _) env c e on_fid

-- To follow a handler from its tests to its end.
pub ruleset keeps = (
  Keeps-pure, Keeps-if, Keeps-bind, Keeps-then, Keeps-get, Keeps-fail, Keeps-reply, Keeps-load,
  Keeps-adjust, Own-closed, Own-live, Keeps-on_fid_rc,
)
