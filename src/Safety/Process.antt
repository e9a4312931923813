-- ===== src/Safety/Process.antt =====
-- libnpfs/srv.c: np_process_request.
use npfs.Prelude.{
  suc, zero, ◌<◌, ◌||◌, get_elem?, ◌/◌, ◌-◌, ◌<◌, ap, length, ltb, inr, ◌≢◌, ◌∙◌, ◌==◌, ap,
  if◌then◌else◌, ◌≡◌, refl, Bool, true, false, List, [], ◌∷◌, Option, none, some, ℕ, arith,
}
use npfs.Types.{blank, Npfcall}
use npfs.State.{Ename, Npreq, Ptr, Env, St, pure, Run}
use npfs.State.Returns.{Returns, returns, Returns-bind, Returns-mono, Returns-if}
use npfs.Safety.Relies.{Relies}
use npfs.Safety.Grows.{Calm, Calm-refl, Calm-trans, Safe, SafeBut-Grows, Calm, Calm-refl}
use npfs.Safety.Contract.{Contract}
use npfs.Types.{blank}
use npfs.Constants.{tfirst, rlast, rlerror, enosys, rread, rread}
use npfs.Safety.Actions.{CalmTo, np_malloc-Calm, np_werror-Calm, np_malloc-Calm, CalmTo}
use npfs.Fcall.Reply.{create_reply, has_type, create_reply}
use npfs.Fcall.Session.{find_req}
use npfs.Srv.Respond.{flushers_of}
use npfs.Srv.Table.{Handler, np_fcalls}
use npfs.Srv.Process.{
  run_handler, lookup_handler, first_error, np_create_rlerror, np_create_rerror, answer_error,
  np_process_request,
}
use npfs.Safety.Flush.{Handled, Handled-Grows}
use npfs.Safety.Handle.{handle-Handled}
use npfs.Werror.{np_rerror}

-- A message that the theorems are about. One type is read behind the end of the table, an auth fid
-- that is the attached fid is freed, a flush of itself is never answered, and a second flush of a
-- request takes over the first one, which its own error reply would answer too.
pub record Admitted (tc : Npfcall) (s : St) : Type 0 where
  pub type : tc.type ≢ 128
  pub attach : lookup_handler tc.type ≡ some (some Handler.attach) → tc.afid ≢ tc.fid
  pub flush :
      lookup_handler tc.type ≡ some (some Handler.flush)
      → (conn : Ptr) (r : Npreq) → find_req conn tc.oldtag s.workreqs ≡ some r
      → (r.id ≢ s.req) × (r.flushers ≡ [])

get_elem?-some {ℓ} : {A : Type ℓ} (xs : List A) (i : ℕ) → i < length xs → get_elem? xs i ≢ none
get_elem?-some [] i lt e = absurd (omega arith)
get_elem?-some (x ∷ xs) zero lt e = cc
get_elem?-some (x ∷ xs) (suc i) lt e = get_elem?-some xs i (omega arith) e

pick {ℓ} :
    {A : Type ℓ} (b : Bool) (x : Option (Option A))
    → (b ≡ false → x ≢ none)
    → (if b then some none else x) ≢ none
pick true x h e = cc
pick false x h e = h refl e

-- No message type but 128 reads np_fcalls outside its bounds.
pub lookup_handler-in_bounds : (type : ℕ) → type ≢ 128 → lookup_handler type ≢ none
unfolding lookup_handler
lookup_handler-in_bounds type ne =
    pick (ltb type tfirst || ltb rlast type) _
      (λ in_range. get_elem?-some np_fcalls ((type - tfirst) / 2) (ground arith))

module _ (env : Env) (c : Contract env) where
  first_error-Calm : (type : ℕ) (s : St) → CalmTo s (first_error env type s)
  unfolding first_error
  first_error-Calm type s =
      Returns-if (ltb type tfirst || ltb rlast type) _ (pure tt) s
        (λ _. np_werror-Calm env (some "unknown message type") enosys s)
        (λ _. returns (Calm-refl s))

  reply-Calm :
      (rc : Npfcall) (s : St)
      → (rc.type == rread) ≡ false
      → Returns (λ r t. Calm s t × (has_type r rread ≡ false)) (create_reply env rc s)
  unfolding create_reply
  reply-Calm rc s h = Returns-bind (np_malloc-Calm env s) λ b t g. returns (g.0, kind b)
    where
      kind : (b : Bool) → has_type (if b then some rc else none) rread ≡ false
      kind true = h
      kind false = refl

  replace :
      (rc : Option Npfcall) (r : Run (Option Npfcall)) (s : St)
      → Handled rc s
      → Returns (λ r t. Calm s t × (has_type r rread ≡ false)) r
      → Returns Handled r
  replace rc r s h x = Returns-mono x λ q t (g, e).
      let h' = Handled-Grows rc g.grows h in
      record { safe = h'.safe; alone = h'.alone; fid = inr e }

  answer_error-Handled :
      (rc : Option Npfcall) (e : Option Ename × ℕ) (s : St)
      → Handled rc s
      → Returns Handled (answer_error env rc e s)
  unfolding answer_error np_create_rlerror np_create_rerror
  answer_error-Handled rc (none, errno) s h = returns h
  answer_error-Handled rc (some name, errno) s h =
      Returns-if s.dotl (create_reply env (record (blank rlerror) { ecode = errno })) _ s
        (λ _. replace rc _ s h (reply-Calm _ s refl)) (λ _. replace rc _ s h (reply-Calm _ s refl))

  run_handler-Handled :
      (h : Option (Option Handler)) (tc : Npfcall) (s : St)
      → Safe s
      → flushers_of s.req s.workreqs ≡ []
      → s.rfid ≡ none
      → h ≢ none
      → Relies env h tc
      → (h ≡ some (some Handler.attach) → tc.afid ≢ tc.fid)
      → (h ≡ some (some Handler.flush)
          → (conn : Ptr) (r : Npreq) → find_req conn tc.oldtag s.workreqs ≡ some r
          → (r.id ≢ s.req) × (r.flushers ≡ []))
      → Returns Handled (run_handler env h tc s)
  unfolding run_handler
  run_handler-Handled none tc s v alone none_yet there l a f = absurd (there refl)
  run_handler-Handled (some none) tc s v alone none_yet there l a f =
      Returns-bind (np_werror-Calm env (some "unsupported message") enosys s) λ _ t g.
        returns (Handled-Grows none g.grows (record { safe = v; alone = alone; fid = inr refl }))
  run_handler-Handled (some (some h)) tc s v alone none_yet there l a f =
      handle-Handled env c s v alone none_yet h tc l (λ e. a (ap (λ x. some (some x)) e))
        (λ e. f (ap (λ x. some (some x)) e))

  pub np_process_request-Handled :
      (tc : Npfcall) (s : St)
      → Safe s
      → flushers_of s.req s.workreqs ≡ []
      → s.rfid ≡ none
      → Relies env (lookup_handler tc.type) tc
      → Admitted tc s
      → Returns Handled (np_process_request env tc s)
  unfolding np_process_request np_rerror
  np_process_request-Handled tc s v alone none_yet l a =
      Returns-bind (first_error-Calm tc.type s) λ _ t g.
        Returns-bind (np_werror-Calm env none 0 t) λ _ u h.
          let k = (Calm-trans g h).grows in
          Returns-bind
            (run_handler-Handled (lookup_handler tc.type) tc u (SafeBut-Grows k v)
              (rw (k.req, k.workreqs, alone)) (k.rfid ∙ none_yet)
              (lookup_handler-in_bounds tc.type a.type) l a.attach (rw (k.req, k.workreqs) a.flush))
            λ rc w d. answer_error-Handled rc _ w d
