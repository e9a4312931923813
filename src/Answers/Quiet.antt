-- ===== src/Answers/Quiet.antt =====
-- libnpfs/error.c, fidpool.c, fcall.c: the answers of the steps that the handlers are made of.
use npfs.Prelude.{
  leb, ℕ, ◌≡◌, refl, Bool, true, false, Option, none, some, String, List, [], ◌∷◌, if◌then◌else◌,
}
use npfs.Types.{Npfcall}
use npfs.State.{Ptr, Event, Env, St, ok, fault, M}
use npfs.State.{FidOp, incref, set_omode, set_type, set_user}
use npfs.State.Call.{
  apply_op, apply_ops, set_outcome_error, call, call_void, call_rc, np_user_incref, np_user_decref,
}
use npfs.State.Mem.{put_bucket}
use npfs.Werror.{malloc, set_text, np_werror, np_malloc}
use npfs.Fidpool.{
  to_front, scan, np_fid_lookup, np_fid_find, insert_fid, link_fid, create_missing, np_fid_create,
  unlink_fid, free_fid, release, np_fid_destroy, np_fid_decref,
}
use npfs.Fcall.Reply.{fail, create_reply, np_set_rread_count, found, with_ref, with_fid}
use npfs.Answers.Ends.{
  answers, Ends, ends, faults, Ends-bind, Ends-mono, Silent, Silent-refl, Silent-trans, Quiet,
  Quiet-pure, Quiet-fault, Quiet-bind, Quiet-then, Quiet-if, Quiet-get, Quiet-set_rfid, Quiet-load,
  Quiet-store, Quiet-adjust, Quiet-incref,
}

ruleset basic = (
  Quiet-pure, Quiet-fault, Quiet-bind, Quiet-then, Quiet-if, Quiet-get, Quiet-set_rfid, Quiet-load,
  Quiet-store, Quiet-adjust, Quiet-incref,
)

same :
    (s t : St)
    → answers t.trace ≡ answers s.trace
    → t.tag ≡ s.tag
    → t.responded ≡ s.responded
    → Silent s t
same s t a b c = record { answers = a; tag = b; responded = c }

Quiet-op : (o : FidOp) → Quiet (apply_op o)
unfolding apply_op
Quiet-op (incref p) = Quiet-incref p
Quiet-op (set_omode p v) = Quiet-adjust p _
Quiet-op (set_type p v) = Quiet-adjust p _
Quiet-op (set_user p u) = Quiet-adjust p _

Quiet-ops : (os : List FidOp) → Quiet (apply_ops os)
unfolding apply_ops
Quiet-ops [] = Quiet-pure tt
Quiet-ops (o ∷ os) = Quiet-then _ _ (Quiet-op o) (Quiet-ops os)

Quiet-outcome_error : (e : Option (String × ℕ)) → Quiet (set_outcome_error e)
unfolding set_outcome_error
Quiet-outcome_error none = record { at = λ s. ends (Silent-refl s) }
Quiet-outcome_error (some (text, code)) = record { at = λ s. ends (same _ _ refl refl refl) }

pub Quiet-user_incref : (u : Option Ptr) → Quiet (np_user_incref u)
unfolding np_user_incref answers
Quiet-user_incref none = record { at = λ s. ends (Silent-refl s) }
Quiet-user_incref (some u) = record { at = λ s. ends (same _ _ refl refl refl) }

pub Quiet-user_decref : (u : Option Ptr) → Quiet (np_user_decref u)
unfolding np_user_decref answers
Quiet-user_decref none = record { at = λ s. ends (Silent-refl s) }
Quiet-user_decref (some u) = record { at = λ s. ends (same _ _ refl refl refl) }

pub Quiet-lookup : (n i : ℕ) → Quiet (np_fid_lookup n i)
unfolding np_fid_lookup
Quiet-lookup n i = record { at = λ s. looked s (scan s.heap n (s.htable i)) }
  where
    looked :
        (s : St) (r : Option (Option Ptr))
        → Ends {A = Option Ptr}
            (λ _ t. Silent s t)
            (elim r [
              | none ↦ fault
              | some none ↦ ok none s
              | some (some p) ↦
                  ok
                    (some p)
                    (record s { htable = put_bucket s.htable i (to_front p (s.htable i)) })
            ])
    looked s none = faults
    looked s (some none) = ends (Silent-refl s)
    looked s (some (some p)) = ends (same _ _ refl refl refl)

pub Quiet-find : (n : ℕ) → Quiet (np_fid_find n)
unfolding np_fid_find
Quiet-find n = Quiet-lookup n _

-- A call that is no answer.
module _ (env : Env) (e : Event)
    (no_answer : (es : List Event) → answers (e ∷ es) ≡ answers es) where
  pub Quiet-call : Quiet (call env e)
  unfolding call
  Quiet-call = record {
    at = λ s. Ends-bind ((Quiet-ops _).at (record s { trace = e ∷ s.trace })) λ _ t x.
        Ends-bind ((Quiet-outcome_error _).at t)
          λ _ u y. ends (Silent-trans (same _ _ (no_answer s.trace) refl refl) (Silent-trans x y));
  }

  pub Quiet-call_rc : Quiet (call_rc env e)
  unfolding call_rc
  Quiet-call_rc = Quiet-bind _ _ Quiet-call (λ o. Quiet-pure o.rc)

  pub Quiet-call_void : Quiet (call_void env e)
  unfolding call_void
  Quiet-call_void = Quiet-bind _ _ Quiet-call (λ o. Quiet-pure tt)

module _ (env : Env) where
  pub Quiet-malloc : Quiet (malloc env)
  unfolding malloc
  Quiet-malloc = record { at = λ s. ends (same _ _ refl refl refl) }

  Quiet-text : (text : String) (code : ℕ) (b : Bool) → Quiet (set_text env text code b)
  unfolding set_text
  Quiet-text text code true = record { at = λ s. ends (same _ _ refl refl refl) }
  Quiet-text text code false = record { at = λ s. ends (same _ _ refl refl refl) }

  pub Quiet-werror : (name : Option String) (code : ℕ) → Quiet (np_werror env name code)
  unfolding np_werror
  Quiet-werror none code = record { at = λ s. ends (same _ _ refl refl refl) }
  Quiet-werror (some text) code = record {
    at = λ s. (Quiet-bind _ _ Quiet-malloc (Quiet-text text code)).at s;
  }

  pub Quiet-np_malloc : Quiet (np_malloc env)
  unfolding np_malloc
  Quiet-np_malloc = search (basic, Quiet-malloc, Quiet-werror) depth 12

  pub Quiet-fail : (text : String) (code : ℕ) → Quiet (fail env text code)
  unfolding fail
  Quiet-fail text code = search (basic, Quiet-werror)

  pub Quiet-reply : (rc : Npfcall) → Quiet (create_reply env rc)
  unfolding create_reply
  Quiet-reply rc = search (basic, Quiet-np_malloc)

  link-Quiet : (n : ℕ) (p : Ptr) → Quiet (link_fid n p)
  unfolding link_fid
  link-Quiet n p = record { at = λ s. ends (same _ _ refl refl refl) }

  insert-Quiet : (n : ℕ) (p : Ptr) (b : Bool) → Quiet (insert_fid env n p b)
  unfolding insert_fid
  insert-Quiet n p true = search (basic, link-Quiet)
  insert-Quiet n p false = Quiet-pure none

  missing-Quiet : (n : ℕ) (p : Option Ptr) → Quiet (create_missing env n p)
  unfolding create_missing
  missing-Quiet n (some p) = record { at = λ s. ends (Silent-refl s) }
  missing-Quiet n none = record {
    at = λ s. (Quiet-bind _ _ Quiet-np_malloc (insert-Quiet n s.next)).at s;
  }

  pub Quiet-create : (n : ℕ) → Quiet (np_fid_create env n)
  unfolding np_fid_create
  Quiet-create n = Quiet-bind _ _ (Quiet-lookup n _) (missing-Quiet n)

  release-Quiet : (p : Ptr) (type : ℕ) → Quiet (release env p type)
  unfolding release answers
  release-Quiet p type =
      Quiet-if _ _ _ (Quiet-if _ _ _ (Quiet-call_void env _ (λ es. refl)) (Quiet-pure tt))
        (Quiet-if _ _ _ (Quiet-call_void env _ (λ es. refl)) (Quiet-pure tt))

  unlink-Quiet : (p : Ptr) (i : ℕ) → Quiet (unlink_fid p i)
  unfolding unlink_fid
  unlink-Quiet p i = record { at = λ s. ends (same _ _ refl refl refl) }

  free-Quiet : (p : Ptr) → Quiet (free_fid p)
  unfolding free_fid
  free-Quiet p = record { at = λ s. ends (same _ _ refl refl refl) }

  destroy-Quiet : (p : Ptr) → Quiet (np_fid_destroy env p)
  unfolding np_fid_destroy
  destroy-Quiet p =
      search (basic, unlink-Quiet, release-Quiet, Quiet-user_decref, free-Quiet) depth 14

  pub Quiet-decref : (p : Option Ptr) → Quiet (np_fid_decref env p)
  unfolding np_fid_decref
  Quiet-decref none = Quiet-pure tt
  Quiet-decref (some p) = search (basic, destroy-Quiet) depth 10

  found-Quiet :
      (p : Option Ptr) (k : Ptr → M (Option Npfcall))
      → ((q : Ptr) → Quiet (k q))
      → Quiet (found env p k)
  unfolding found
  found-Quiet none k h = Quiet-fail _ _
  found-Quiet (some p) k h = Quiet-then _ _ (Quiet-incref p) (h p)

  pub Quiet-with_ref :
      (n : ℕ) (k : Ptr → M (Option Npfcall)) → ((q : Ptr) → Quiet (k q)) → Quiet (with_ref env n k)
  unfolding with_ref
  Quiet-with_ref n k h = Quiet-bind _ _ (Quiet-find n) (λ p. found-Quiet p k h)

  pub Quiet-with_fid :
      (n : ℕ) (k : Ptr → M (Option Npfcall)) → ((q : Ptr) → Quiet (k q)) → Quiet (with_fid env n k)
  unfolding with_fid
  Quiet-with_fid n k h = Quiet-with_ref n _ (λ q. Quiet-then _ _ (Quiet-set_rfid (some q)) (h q))

pub Quiet-rread_count : (env : Env) (rc : Npfcall) (n : ℕ) → Quiet (np_set_rread_count env rc n)
unfolding np_set_rread_count
Quiet-rread_count env rc n = record { at = λ s. go s (leb n rc.count) }
  where
    go :
        (s : St) (b : Bool)
        → Ends {A = Npfcall}
            (λ _ t. Silent s t)
            (if b then ok (record rc { count = n }) s else fault)
    go s true = ends (Silent-refl s)
    go s false = faults

pub ruleset quiet = (
  Quiet-pure, Quiet-fault, Quiet-bind, Quiet-then, Quiet-if, Quiet-get, Quiet-set_rfid, Quiet-load,
  Quiet-adjust, Quiet-incref, Quiet-find, Quiet-user_incref, Quiet-malloc, Quiet-werror, Quiet-fail,
  Quiet-reply, Quiet-create, Quiet-decref, Quiet-with_ref, Quiet-with_fid, Quiet-call,
  Quiet-call_rc, Quiet-call_void, Quiet-rread_count,
)
