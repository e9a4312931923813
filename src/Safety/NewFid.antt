-- ===== src/Safety/NewFid.antt =====
-- A fid that a handler makes, from its allocation to the reference that is given back.
use npfs.Prelude.{
  Bool-cases, eq_of_==, ne_of_==, ◌⊎◌, inl, inr, ◌≢◌, ◌∙◌, ◌==◌, ◌≡◌, sym, subst, [], ◌∷◌, Option,
  some, ℕ, arith,
}
use npfs.Types.{Npfcall}
use npfs.State.{Ptr, Event, Env, St}
use npfs.State.Returns.{Returns, returns, Returns-bind, Returns-mono}
use npfs.State.Call.{call}
use npfs.Safety.Grows.{IsLive-shape, SafeBut, SafeBut-Grows, Holds, IsLive}
use npfs.Safety.Contract.{Contract, AllLive, live_one, event_fids}
use npfs.Safety.Keeps.{Keeps, IsClosed, Keeps-call}
use npfs.Safety.Fids.{Own, some≢none, Own-closed, Done, some≢none}
use npfs.State.Mem.{np_fid_incref}
use npfs.Safety.Actions.{np_fid_incref-Incref, Incref}
use npfs.Safety.Decref.{np_fid_decref-Drops}
use npfs.Safety.Pool.{Created}
use npfs.Fcall.Walk.{walk_done}

-- A new fid that has no reference yet, beside the request's fid.
pub record Fresh (s0 : St) (p q : Ptr) (s : St) : Type 0 where
  pub but : SafeBut (some q) s
  pub held : Holds s.heap q 0
  pub two : Holds s.heap p 2
  pub rfid : s.rfid ≡ some p
  pub req : s.req ≡ s0.req
  pub workreqs : s.workreqs ≡ s0.workreqs

-- A fid that is walked, which may be the request's.
pub record Walking (s0 : St) (p q : Ptr) (s : St) : Type 0 where
  pub own : Own s0 p (some p) s
  pub live : IsLive s.heap q

module _ (s : St) (p q : Ptr) where
  pub Fresh-closed : IsClosed (Fresh s p q)
  Fresh-closed t u g o = record {
    but = SafeBut-Grows g o.but;
    held = g.holds q 0 o.held;
    two = g.holds p 2 o.two;
    rfid = g.rfid ∙ o.rfid;
    req = g.req ∙ o.req;
    workreqs = g.workreqs ∙ o.workreqs;
  }

  pub Fresh-Created : (n : ℕ) (t u : St) → Own s p (some p) t → Created n t q u → Fresh s p q u
  Fresh-Created n t u o d = record {
    but = d.safe;
    held = (_, d.made, omega arith);
    two = d.holds p 2 o.two;
    rfid = d.rfid ∙ o.rfid;
    req = d.req ∙ o.req;
    workreqs = d.workreqs ∙ o.workreqs;
  }

  pub Fresh-live : (t : St) → Fresh s p q t → IsLive t.heap p
  Fresh-live t o = (o.two.0, o.two.1)

  pub Fresh-live_new : (t : St) → Fresh s p q t → IsLive t.heap q
  Fresh-live_new t o = (o.held.0, o.held.1)

  -- The first reference of the new fid.
  pub Fresh-Incref : (t u : St) → Fresh s p q t → Incref q t u → Walking s p q u
  Fresh-Incref t u o i =
      let o' = Fresh-closed t u i.calm.grows o in
      let one = i.more 0 o.held in
      record {
        own = record {
          safe = record {
            pool = o'.but.pool;
            counted = λ r live _. elim (Bool-cases (r == q)) [
              | inl hit ↦ subst (λ x. Holds u.heap x 1) (sym (eq_of_== r q hit)) one
              | inr miss ↦ o'.but.counted r live (λ e. ne_of_== r q miss cc)
            ];
            mine = o'.but.mine;
          };
          two = o'.two;
          rfid = o'.rfid;
          req = o'.req;
          workreqs = o'.workreqs;
        };
        live = (one.0, one.1);
      }

  pub Walking-closed : IsClosed (Walking s p q)
  Walking-closed t u g o = record {
    own = Own-closed s p _ t u g o.own;
    live = IsLive-shape u.heap t.heap q (sym (g.shape q)) o.live;
  }

  pub Walking-live : (t : St) → Walking s p q t → IsLive t.heap q
  Walking-live t o = o.live

  pub Walking-incref : Keeps (Walking s p q) (np_fid_incref q)
  Walking-incref = record {
    at = λ t o.
        Returns-mono (np_fid_incref-Incref t q o.live) (λ _ u i. Walking-closed t u i.calm.grows o);
  }

module _ (env : Env) (c : Contract env) (s : St) where
  -- The last reference that the handler has to the other fid.
  pub walk_done-Done :
      (p q : Ptr) (rc : Option Npfcall) (t : St)
      → Walking s p q t
      → Returns (Done s) (walk_done env (some q) rc t)
  unfolding walk_done
  walk_done-Done p q rc t o =
      Returns-bind (np_fid_decref-Drops env c q t o.own.safe o.live apart) λ _ u (v', d).
        returns (record {
          safe = v';
          req = d.req ∙ o.own.req;
          workreqs = d.workreqs ∙ o.own.workreqs;
          fid = inl (λ e. some≢none p (sym (d.rfid ∙ o.own.rfid) ∙ e));
        })
    where
      apart : (t.rfid ≢ some q) ⊎ Holds t.heap q 2
      apart = elim (Bool-cases (q == p)) [
        | inl hit ↦ inr (subst (λ x. Holds t.heap x 2) (sym (eq_of_== q p hit)) o.own.two)
        | inr miss ↦
            inl (λ e. let same : some p ≡ some q = sym o.own.rfid ∙ e in ne_of_== q p miss cc)
      ]

  pub Keeps-Walking :
      (p q : Ptr) (e : Event) → event_fids e ≡ q ∷ [] → Keeps (Walking s p q) (call env e)
  Keeps-Walking p q e h =
      Keeps-call (Walking-closed s p q) env c e
        (λ t o. subst (AllLive t) (sym h) (live_one t q o.live))
