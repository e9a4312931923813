-- ===== src/Guards/Traces.antt =====
-- Which calls a run makes: the steps that make none, and the call that makes one.
use npfs.Prelude.{
  ◌+◌, Option-cases, inl, inr, subst, ℕ, ◌≡◌, refl, ◌∙◌, sym, ap, Bool, true, false, Option, none,
  some, String, List, [], ◌∷◌, if◌then◌else◌, succ_ℤ, arith,
}
use npfs.Types.{Npfcall}
use npfs.Constants.{eio, unknown_fid}
use npfs.State.{Ptr, Npfid, Event, Outcome, Env, St, Run, ok, fault, M, pure, ◌>>=◌, ◌>>◌}
use npfs.State.{FidOp, incref, set_omode, set_type, set_user}
use npfs.State.Returns.{Returns, returns}
use npfs.State.Mem.{load, adjust, np_fid_incref, put_fid_self}
use npfs.State.Call.{apply_op, apply_ops, set_outcome_error, call, call_rc}
use npfs.Werror.{malloc, set_text, np_werror, np_malloc}
use npfs.Fidpool.Chains.{fid_of, number}
use npfs.Fidpool.WellFormed.{WellFormed}
use npfs.Fidpool.Find.{Looked, np_fid_find-Looked}
use npfs.Fcall.Reply.{fail, create_reply, found, with_ref, with_fid}
use npfs.Safety.Actions.{adjust_live}
use npfs.Answers.Ends.{Ends, ends, faults, Ends-bind, Ends-mono}

-- The run makes no call.
abbrev pub NoCall : {A : Type 0} → St → Run A → Type 0
NoCall s r = Ends (λ _ t. t.trace ≡ s.trace) r

-- The run makes the call, and no other.
abbrev pub OneCall : {A : Type 0} → Event → St → Run A → Type 0
OneCall e s r = Ends (λ _ t. t.trace ≡ e ∷ s.trace) r

adjust-NoCall : (p : Ptr) (g : Npfid → Npfid) (s : St) → NoCall s (adjust p g s)
unfolding adjust load
adjust-NoCall p g s = elim (Option-cases (s.heap p)) [
  | inl e ↦ rw (e, load) faults
  | inr (f, e) ↦ rw (adjust_live s p f e g) (ends refl)
]

apply_op-NoCall : (o : FidOp) (s : St) → NoCall s (apply_op o s)
unfolding apply_op np_fid_incref
apply_op-NoCall (incref p) s = adjust-NoCall p _ s
apply_op-NoCall (set_omode p v) s = adjust-NoCall p _ s
apply_op-NoCall (set_type p v) s = adjust-NoCall p _ s
apply_op-NoCall (set_user p u) s = adjust-NoCall p _ s

apply_ops-NoCall : (os : List FidOp) (s : St) → NoCall s (apply_ops os s)
unfolding apply_ops
apply_ops-NoCall [] s = ends refl
apply_ops-NoCall (o ∷ os) s =
    Ends-bind (apply_op-NoCall o s) λ _ t e. Ends-mono (apply_ops-NoCall os t) (λ _ u e'. e' ∙ e)

outcome-NoCall : (e : Option (String × ℕ)) (s : St) → NoCall s (set_outcome_error e s)
unfolding set_outcome_error
outcome-NoCall none s = ends refl
outcome-NoCall (some (text, code)) s = ends refl

module _ (env : Env) where
  pub call-OneCall : (e : Event) (s : St) → OneCall e s (call env e s)
  unfolding call
  call-OneCall e s =
      Ends-bind (apply_ops-NoCall _ _) λ _ t x. Ends-bind (outcome-NoCall _ t) λ _ u y. ends (y ∙ x)

  pub call_rc-OneCall : (e : Event) (s : St) → OneCall e s (call_rc env e s)
  unfolding call_rc
  call_rc-OneCall e s = Ends-bind (call-OneCall e s) λ o t x. ends x

  text-NoCall : (text : String) (c : ℕ) (b : Bool) (s : St) → NoCall s (set_text env text c b s)
  unfolding set_text
  text-NoCall text c true s = ends refl
  text-NoCall text c false s = ends refl

  werror-NoCall : (text : String) (c : ℕ) (s : St) → NoCall s (np_werror env (some text) c s)
  unfolding np_werror malloc
  werror-NoCall text c s = Ends-mono (text-NoCall text c _ _) (λ _ t e. e)

  -- A failed test gives no reply.
  pub fail-NoCall :
      (text : String) (c : ℕ) (s : St)
      → Ends (λ rc t. (rc ≡ none) × (t.trace ≡ s.trace)) (fail env text c s)
  unfolding fail
  fail-NoCall text c s = Ends-bind (werror-NoCall text c s) λ _ t e. ends (refl, e)

  np_malloc-NoCall : (s : St) → NoCall s (np_malloc env s)
  unfolding np_malloc malloc
  np_malloc-NoCall s = given (env.malloc s.next)
    where
      given :
          (b : Bool)
          → NoCall s (
              (if b
                  then pure true
                  else (np_werror env (some npfs.Constants.no_memory) npfs.Constants.enomem
                      >> pure false))
                (record s { next = s.next + 1 }))
      given true = ends refl
      given false = Ends-bind (werror-NoCall _ _ _) λ _ t e. ends e

  pub create_reply-NoCall : (rc : Npfcall) (s : St) → NoCall s (create_reply env rc s)
  unfolding create_reply
  create_reply-NoCall rc s = Ends-bind (np_malloc-NoCall s) λ b t e. ends e

  -- The state behind the first steps of a handler: the fid has one reference more.
  pub record Entered (s : St) (n : ℕ) (p : Ptr) (f : Npfid) (t : St) : Type 0 where
    pub old : s.heap p ≡ some f
    pub number : f.fid ≡ n
    pub now : t.heap p ≡ some (record f { refcount = succ_ℤ f.refcount })
    pub trace : t.trace ≡ s.trace
    pub msize : t.msize ≡ s.msize

  fid_at :
      (s : St) (p : Ptr) (n : ℕ)
      → fid_of s.heap p ≡ some n
      → (f : Npfid) × (s.heap p ≡ some f) × (f.fid ≡ n)
  fid_at s p n e = go (s.heap p) refl
    where
      go : (o : Option Npfid) → s.heap p ≡ o → (f : Npfid) × (s.heap p ≡ some f) × (f.fid ≡ n)
      go none x = absurd (ground (arith, x, e))
      go (some f) x = (f, x, (let same : some f.fid ≡ some n = ap number (sym x) ∙ e in cc))

  -- A handler that fails without a call where the fid is unknown.
  pub with_fid-Ends :
      (n : ℕ) (k : Ptr → M (Option Npfcall)) (s : St) (P : Option Npfcall → St → Type 0)
      → WellFormed s
      → ((t : St) → t.trace ≡ s.trace → P none t)
      → ((p : Ptr) (f : Npfid) (t : St) → Entered s n p f t → Ends P (k p t))
      → Ends P (with_fid env n k s)
  unfolding with_fid with_ref found np_fid_incref
  with_fid-Ends n k s P v unknown known = looked (np_fid_find-Looked s v n)
    where
      looked :
          {r : Run (Option Ptr)}
          → Returns (Looked s n) r
          → Ends P
              (npfs.State.and_then r (λ p. found env p (λ q. npfs.State.set_rfid (some q) >> k q)))
      looked (returns {a = none} {s = t} l) =
          Ends-mono (fail-NoCall unknown_fid eio t) λ rc u (e, x).
            subst (λ r. P r u) (sym e) (unknown u (x ∙ ap (λ (y : St). y.trace) l.moved))
      looked (returns {a = some p} {s = t} l) =
          let (f, live, same) = fid_at s p n (l.some_found p refl) in
          let here : t.heap p ≡ some f = ap (λ (y : St). y.heap p) l.moved ∙ live in
          rw (adjust_live t p f here _) (
            known p f _ (record {
              old = live;
              number = same;
              now = put_fid_self t.heap p _;
              trace = ap (λ (y : St). y.trace) l.moved;
              msize = ap (λ (y : St). y.msize) l.moved;
            }))
