-- ===== src/Safety/Made.antt =====
-- A fid that np_auth or np_attach makes, and the users.
use npfs.Prelude.{
  Bool-cases, eq_of_==, ne_of_==, inl, inr, ◌∙◌, ◌==◌, ◌≡◌, refl, sym, subst, [], ◌∷◌, Option, none,
  some, ℕ, arith,
}
use npfs.Types.{Npstr, Npfcall}
use npfs.State.{Ptr, Event, Env, St}
use npfs.State.Returns.{returns}
use npfs.State.Call.{call}
use npfs.Safety.Relies.{Memory}
use npfs.Safety.Grows.{IsLive-shape, Safe, SafeBut-Grows, Grows, Holds, IsLive}
use npfs.Safety.Contract.{Contract, AllLive, live_one, event_fids}
use npfs.Safety.Keeps.{Keeps, IsClosed, Keeps-pure, Keeps-bind, Keeps-if, Keeps-call}
use npfs.Safety.Fids.{some≢none, some≢none}
use npfs.Werror.{malloc}
use npfs.Safety.Actions.{Incref}
use npfs.Safety.Pool.{Created}
use npfs.Fidpool.Chains.{In}
use npfs.Safety.Actions.{Calm-same}
use npfs.Fcall.Session.{np_strdup, dup_aname, find_user}

-- A fid that the handler made and holds, and that the request may record.
pub record Made (s0 : St) (p : Ptr) (r : Option Ptr) (s : St) : Type 0 where
  pub safe : Safe s
  pub live : IsLive s.heap p
  pub rfid : s.rfid ≡ r
  pub req : s.req ≡ s0.req
  pub workreqs : s.workreqs ≡ s0.workreqs

module _ (s : St) (p : Ptr) where
  pub Made-closed : (r : Option Ptr) → IsClosed (Made s p r)
  Made-closed r t u g o = record {
    safe = SafeBut-Grows g o.safe;
    live = IsLive-shape u.heap t.heap p (sym (g.shape p)) o.live;
    rfid = g.rfid ∙ o.rfid;
    req = g.req ∙ o.req;
    workreqs = g.workreqs ∙ o.workreqs;
  }

  pub Made-live : (r : Option Ptr) (t : St) → Made s p r t → IsLive t.heap p
  Made-live r t o = o.live

  -- The first reference makes the new fid safe.
  pub Made-Created :
      (n : ℕ) (t u : St)
      → s.rfid ≡ none
      → Grows s t
      → Created n t p u
      → (w : St) → Incref p u w
      → Made s p none w
  Made-Created n t u none_yet g d w i =
      let g' = i.calm.grows in
      let one = i.more 0 (_, d.made, omega arith) in
      let but = SafeBut-Grows g' d.safe in
      record {
        safe = record {
          pool = but.pool;
          counted = λ r live _. elim (Bool-cases (r == p)) [
            | inl hit ↦ subst (λ x. Holds w.heap x 1) (sym (eq_of_== r p hit)) one
            | inr miss ↦ but.counted r live (λ e. ne_of_== r p miss cc)
          ];
          mine = but.mine;
        };
        live = (one.0, one.1);
        rfid = g'.rfid ∙ d.rfid ∙ g.rfid ∙ none_yet;
        req = g'.req ∙ d.req ∙ g.req;
        workreqs = g'.workreqs ∙ d.workreqs ∙ g.workreqs;
      }

  pub Made-set :
      (r : Option Ptr) (t : St) → Made s p r t → Made s p (some p) (record t { rfid = some p })
  Made-set r t o = record {
    safe = record {
      pool = o.safe.pool;
      counted = o.safe.counted;
      mine = λ q e.
          let same : p ≡ q = cc in
          subst (λ x. Holds t.heap x 1) same (o.safe.counted p o.live (some≢none p));
    };
    live = o.live;
    rfid = refl;
    req = o.req;
    workreqs = o.workreqs;
  }

module _ (env : Env) (c : Contract env) (memory : Memory env) (s : St) where
  pub Keeps-Made :
      (p : Ptr) (r : Option Ptr) (e : Event)
      → event_fids e ≡ p ∷ []
      → Keeps (Made s p r) (call env e)
  Keeps-Made p r e h =
      Keeps-call (Made-closed s p r) env c e
        (λ t o. subst (AllLive t) (sym h) (live_one t p o.live))

  pub no_fids :
      (Q : St → Type 0) → IsClosed Q → (e : Event) → event_fids e ≡ [] → Keeps Q (call env e)
  no_fids Q closed e h =
      Keeps-call closed env c e (λ t o p m. absurd (let m' : In p [] = subst (In p) h m in m'))

  np_strdup-Keeps : (Q : St → Type 0) → IsClosed Q → (str : Npstr) → Keeps Q (np_strdup env str)
  unfolding np_strdup malloc
  np_strdup-Keeps Q closed str = record {
    at = λ t o.
        rw (memory t.next)
          (returns (closed t _ (Calm-same t _ refl refl (omega arith) refl refl refl).grows o));
  }

  pub dup_aname-Keeps : (Q : St → Type 0) → IsClosed Q → (str : Npstr) → Keeps Q (dup_aname env str)
  unfolding dup_aname
  dup_aname-Keeps Q closed [] = Keeps-pure []
  dup_aname-Keeps Q closed (x ∷ xs) = np_strdup-Keeps Q closed (x ∷ xs)

  pub find_user-Keeps : (Q : St → Type 0) → IsClosed Q → (tc : Npfcall) → Keeps Q (find_user env tc)
  unfolding find_user event_fids
  find_user-Keeps Q closed tc =
      search (Keeps-if, Keeps-bind, Keeps-pure, np_strdup-Keeps, no_fids, closed) depth 12
