-- ===== src/Safety/Decref.antt =====
-- np_fid_decref: the reference that it takes away, and what it leaves of the others.
use npfs.Prelude.{
  eq_of_==, ℕ, zero, suc, ◌≤◌, ◌≡◌, ◌≢◌, refl, sym, ap, ◌∙◌, subst, ◌⊎◌, inl, inr, Option, none,
  some, arith, AtLeast, ℤ, pos, negsuc, pred_ℤ, is_zero, if◌then◌else◌, ◌==◌, Bool-cases, ne_of_==,
  ◌&&◌, has_bits,
}
use npfs.Constants.{qtauth}
use npfs.State.{Ptr, Npfid, Event, Env, St, pure}
use npfs.State.Mem.{put_fid, put_fid_self}
use npfs.State.Returns.{Returns, returns, Returns-bind, Returns-mono, Returns-if}
use npfs.State.Call.{np_user_decref}
use npfs.Fidpool.{np_fid_destroy, unlink_fid, release, np_fid_decref}
use npfs.Fidpool.Chains.{number}
use npfs.Fidpool.WellFormed.{WellFormed}
use npfs.Safety.Grows.{Holds, IsLive, IsLive-shape, Safe, Calm-refl, Calm-trans, IsPool-shape}
use npfs.Safety.Actions.{load_live, store_live, CalmTo, Calm-same, write_shape, same_fid}
use npfs.Safety.Contract.{Contract, call_void-Calm, event_fids, live_one}
use npfs.Safety.Drops.{Counted, Drops, Freed, free-Freed, lower-Counted, last-Counted}

np_user_decref-Calm : (u : Option Ptr) (s : St) → CalmTo s (np_user_decref u s)
unfolding np_user_decref
np_user_decref-Calm none s = returns (Calm-refl s)
np_user_decref-Calm (some u) s = returns (Calm-same s _ refl refl (omega arith) refl refl refl)

module _ (env : Env) (c : Contract env) where
  pub release-Calm :
      (p : Ptr) (type : ℕ) (s : St) → IsLive s.heap p → CalmTo s (release env p type s)
  unfolding release event_fids
  release-Calm p type s live =
      Returns-if (has_bits type qtauth) _ _ s
        (λ _.
          Returns-if (env.has_auth && env.has_auth_clunk) _ _ s
            (λ _. call_void-Calm env c (Event.auth_clunk p) s (live_one s p live))
            (λ _. returns (Calm-refl s)))
        (λ _.
          Returns-if env.has_fiddestroy _ _ s
            (λ _. call_void-Calm env c (Event.fiddestroy p) s (live_one s p live))
            (λ _. returns (Calm-refl s)))

  pub np_fid_destroy-Freed :
      (p : Ptr) (s : St)
      → WellFormed s
      → IsLive s.heap p
      → Returns (λ _ s'. Freed p s s') (np_fid_destroy env p s)
  unfolding np_fid_destroy unlink_fid
  np_fid_destroy-Freed p s v (f, live) = rw (load_live s p f live) (
      Returns-bind (release-Calm p f.type _ (f, live)) λ _ t g.
        let (f', live') = IsLive-shape t.heap s.heap p (sym (g.grows.shape p)) (f, live) in
        rw (load_live t p f' live') (
          Returns-bind (np_user_decref-Calm f'.user t)
            λ _ u h. free-Freed p f.fid s u v (ap number live) (Calm-trans g h)))

  pub np_fid_decref-Counted :
      (p : Ptr) (s : St)
      → Counted s
      → IsLive s.heap p
      → Returns (λ _ s'. Counted s' × Drops p s s') (np_fid_decref env (some p) s)
  unfolding np_fid_decref pred_ℤ
  np_fid_decref-Counted p s v (f, live) =
      rw (load_live s p f live, store_live s p f live) (count f.refcount refl)
    where
      at_least : (k : ℕ) (r : ℤ) → f.refcount ≡ r → Holds s.heap p k → AtLeast k r
      at_least k r e (x, ex, a) =
          subst (λ i. AtLeast k i)
            (ap (λ (y : Npfid). y.refcount) (same_fid s p f live p x ex refl) ∙ e) a

      one : Holds s.heap p 1
      one = v.counted p (f, live)

      lowered : ℤ → St
      lowered r = record s { heap = put_fid s.heap p (some (record f { refcount = pred_ℤ r })) }

      count :
          (r : ℤ)
          → f.refcount ≡ r
          → Returns
              (λ _ s'. Counted s' × Drops p s s')
              ((if is_zero (pred_ℤ r) then np_fid_destroy env p else pure tt) (lowered r))
      count (pos zero) e = let none_left : 1 ≤ 0 = at_least 1 (pos 0) e one in absurd (omega arith)
      count (pos (suc zero)) e =
          Returns-mono
            (np_fid_destroy-Freed p (lowered (pos 1))
              (IsPool-shape s.next s.next (write_shape s p f live _ refl) (omega arith) v.pool)
              (_, put_fid_self s.heap p _))
            (λ _ s' x. last-Counted p s s' f _ v live e x)
      count (pos (suc (suc m))) e = returns (lower-Counted p s f m v live e)
      count (negsuc n) e = absurd (at_least 1 (negsuc n) e one)

  -- A reference that is given back: the last one frees the fid, and any other is taken off its count,
  -- which is all that changes of the fid. The references to other fids stay, and the state stays safe.
  -- The state was safe, the fid live, and the request's own fid another one or one with two
  -- references; a call of the file server touches no fids but those it is given.
  pub np_fid_decref-Drops :
      (p : Ptr) (s : St)
      → Safe s
      → IsLive s.heap p
      → (s.rfid ≢ some p) ⊎ Holds s.heap p 2
      → Returns (λ _ s'. Safe s' × Drops p s s') (np_fid_decref env (some p) s)
  np_fid_decref-Drops p s v live mine =
      Returns-mono
        (np_fid_decref-Counted p s
          (record { pool = v.pool; counted = λ q l. v.counted q l (λ e. cc) }) live)
        λ _ s' (v', d). (
          record {
            pool = v'.pool;
            counted = λ q l _. v'.counted q l;
            mine = λ q e. kept s' d q (sym d.rfid ∙ e);
          },
          d,
        )
    where
      kept : (s' : St) → Drops p s s' → (q : Ptr) → s.rfid ≡ some q → Holds s'.heap q 1
      kept s' d q e = elim (Bool-cases (q == p)) [
        | inl hit ↦ own (eq_of_== q p hit) mine
        | inr miss ↦ d.others q 1 (ne_of_== q p miss) (v.mine q e)
      ]
        where
          own : q ≡ p → (s.rfid ≢ some p) ⊎ Holds s.heap p 2 → Holds s'.heap q 1
          own same (inl ne) = absurd (ne (e ∙ ap some same))
          own same (inr h) = subst (λ x. Holds s'.heap x 1) (sym same) (d.own 0 h)
