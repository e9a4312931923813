-- ===== src/Safety/Actions.antt =====
-- The actions that give no reference back: fields, calls of the file server, errors, replies.
use npfs.Prelude.{
  ◌+◌, ℕ, suc, ◌≤◌, ◌≡◌, refl, ap, ◌∙◌, subst, inl, inr, Bool, true, false, Option, none, some,
  String, arith, AtLeast, ℤ, pos, negsuc, succ_ℤ, ◌==◌, Bool-cases, eq_of_==, ne_of_==,
}
use npfs.State.{Ptr, Npfid, Env, St, Run, ok}
use npfs.State.Mem.{put_fid, put_fid_self, put_fid_ne, load, store, adjust, np_fid_incref}
use npfs.State.Returns.{Returns, returns, Returns-bind, Returns-mono}
use npfs.Werror.{malloc, np_werror, set_text, np_malloc}
use npfs.Fidpool.Chains.{fid_of, number}
use npfs.Safety.Grows.{Holds, IsLive, Calm, Calm-trans, IsPool-shape}

AtLeast-succ : (r : ℤ) (k : ℕ) → AtLeast k r → AtLeast (suc k) (succ_ℤ r)
unfolding succ_ℤ
AtLeast-succ (pos n) k a = omega arith
AtLeast-succ (negsuc n) k a = absurd a

AtLeast-le : (r : ℤ) (j k : ℕ) → j ≤ k → AtLeast k r → AtLeast j r
AtLeast-le (pos n) j k le a = omega arith
AtLeast-le (negsuc n) j k le a = a

module _ (s : St) (p : Ptr) (f : Npfid) (live : s.heap p ≡ some f) where
  pub same_fid : (q : Ptr) (f' : Npfid) → s.heap q ≡ some f' → q ≡ p → f' ≡ f
  same_fid q f' e hit = cc

  pub write_shape :
      (g : Npfid)
      → g.fid ≡ f.fid
      → (q : Ptr) → fid_of (put_fid s.heap p (some g)) q ≡ fid_of s.heap q
  write_shape g same q = elim (Bool-cases (q == p)) [
    | inl hit ↦ rw (hit, eq_of_== q p hit, live) (ap some same)
    | inr miss ↦ ap number (put_fid_ne s.heap p q (some g) (ne_of_== q p miss))
  ]

  -- A write of one fid's fields that keeps its number and loses no reference.
  pub write-Calm :
      (g : Npfid)
      → g.fid ≡ f.fid
      → ((k : ℕ) → AtLeast k f.refcount → AtLeast k g.refcount)
      → Calm s (record s { heap = put_fid s.heap p (some g) })
  write-Calm g same more = record {
    grows = record {
      shape = shape;
      pool = IsPool-shape s.next s.next shape (omega arith);
      holds = holds;
      rfid = refl;
      req = refl;
      workreqs = refl;
    };
    table = refl;
    later = omega arith;
  }
    where
      shape : (q : Ptr) → fid_of (put_fid s.heap p (some g)) q ≡ fid_of s.heap q
      shape = write_shape g same

      holds : (q : Ptr) (k : ℕ) → Holds s.heap q k → Holds (put_fid s.heap p (some g)) q k
      holds q k (f', e, a) = elim (Bool-cases (q == p)) [
        | inl hit ↦ (
          g,
          rw hit,
          more k (subst (λ r. AtLeast k r.refcount) (same_fid q f' e (eq_of_== q p hit)) a),
        )
        | inr miss ↦ (f', put_fid_ne s.heap p q (some g) (ne_of_== q p miss) ∙ e, a)
      ]

  pub load_live : load p s ≡ ok f s
  unfolding load
  load_live = rw (live, load)

  pub store_live : (g : Npfid) → store p g s ≡ ok tt (record s { heap = put_fid s.heap p (some g) })
  unfolding store
  store_live g = rw (live, store)

  pub adjust_live :
      (c : Npfid → Npfid) → adjust p c s ≡ ok tt (record s { heap = put_fid s.heap p (some (c f)) })
  unfolding adjust
  adjust_live c = rw (load_live, adjust) (store_live (c f))

  pub adjust-Calm :
      (c : Npfid → Npfid)
      → (c f).fid ≡ f.fid
      → ((k : ℕ) → AtLeast k f.refcount → AtLeast k (c f).refcount)
      → Returns (λ _ s'. Calm s s') (adjust p c s)
  adjust-Calm c same more = rw (adjust_live c) (returns (write-Calm (c f) same more))

-- What np_fid_incref does: one reference more.
pub record Incref (p : Ptr) (s s' : St) : Type 0 where
  pub calm : Calm s s'
  pub more : (k : ℕ) → Holds s.heap p k → Holds s'.heap p (suc k)

pub np_fid_incref-Incref :
    (s : St) (p : Ptr) → IsLive s.heap p → Returns (λ _ s'. Incref p s s') (np_fid_incref p s)
unfolding np_fid_incref
np_fid_incref-Incref s p (f, live) = rw (adjust_live s p f live _) (
    returns (record {
      calm = write-Calm s p f live _ refl (λ k a.
          AtLeast-le (succ_ℤ f.refcount) k (suc k) (omega arith) (AtLeast-succ f.refcount k a));
      more = λ k (f', e, a). (
        _,
        put_fid_self s.heap p _,
        AtLeast-succ f.refcount k
            (subst (λ r. AtLeast k r.refcount) (same_fid s p f live p f' e refl) a),
      );
    }))

-- The actions below succeed and touch no fid.
abbrev pub CalmTo : {A : Type 0} → St → Run A → Type 0
CalmTo s r = Returns (λ _ s'. Calm s s') r

-- A state that differs in the message, the errors and the trace alone.
pub Calm-same :
    (s s' : St)
    → s'.heap ≡ s.heap
    → s'.htable ≡ s.htable
    → s.next ≤ s'.next
    → s'.rfid ≡ s.rfid
    → s'.req ≡ s.req
    → s'.workreqs ≡ s.workreqs
    → Calm s s'
Calm-same s s' h t n r q w = record {
  grows = record {
    shape = λ p. ap (λ x. fid_of x p) h;
    pool = λ v. rw (h, t) (IsPool-shape s.next s'.next (λ p. refl) n v);
    holds = λ p k x. rw h x;
    rfid = r;
    req = q;
    workreqs = w;
  };
  table = t;
  later = n;
}

module _ (env : Env) where
  pub malloc-Calm : (s : St) → CalmTo s (malloc env s)
  unfolding malloc
  malloc-Calm s = returns (Calm-same s _ refl refl (omega arith) refl refl refl)

  set_text-Calm : (text : String) (c : ℕ) (b : Bool) (s : St) → CalmTo s (set_text env text c b s)
  unfolding set_text
  set_text-Calm text c true s = returns (Calm-same s _ refl refl (omega arith) refl refl refl)
  set_text-Calm text c false s = returns (Calm-same s _ refl refl (omega arith) refl refl refl)

  pub np_werror-Calm : (name : Option String) (c : ℕ) (s : St) → CalmTo s (np_werror env name c s)
  unfolding np_werror
  np_werror-Calm none c s = returns (Calm-same s _ refl refl (omega arith) refl refl refl)
  np_werror-Calm (some text) c s =
      Returns-bind (malloc-Calm s)
        λ b t g. Returns-mono (set_text-Calm text c b t) (λ _ u h. Calm-trans g h)

  -- An allocation that np_malloc reports takes a number.
  pub np_malloc-Calm :
      (s : St) → Returns (λ _ s'. Calm s s' × (s.next + 1 ≤ s'.next)) (np_malloc env s)
  unfolding np_malloc malloc
  np_malloc-Calm s = elim (Bool-cases (env.malloc s.next)) [
    | inl given ↦
        rw given (returns (Calm-same s _ refl refl (omega arith) refl refl refl, omega arith))
    | inr refused ↦ rw refused (
        Returns-bind (np_werror-Calm _ _ _) λ _ t c. returns (
          Calm-trans (Calm-same s _ refl refl (omega arith) refl refl refl) c,
          omega (arith, c.later),
        ))
  ]
