-- ===== src/Answers/Ends.antt =====
-- The answers among the calls of a run, and rules for runs that may fault.
use npfs.Prelude.{
  ℕ, ◌≡◌, refl, ◌∙◌, Bool, true, false, Option, none, some, List, [], ◌∷◌, if◌then◌else◌,
}
use npfs.Types.{Npfcall}
use npfs.State.{
  Ptr, Npfid, Event, St, Run, ok, fault, M, pure, get, set_rfid, and_then, ◌>>=◌, ◌>>◌,
}
use npfs.State.Returns.{Returns, returns}
use npfs.State.Mem.{load, store, adjust, np_fid_incref}

-- The answers among the calls that left the library, the newest first.
unfoldable pub answers : List Event → List (ℕ × Npfcall)
answers [] = []
answers (Event.send tag rc ∷ es) = (tag, rc) ∷ answers es
answers (_ ∷ es) = answers es

pub data Ends {A : Type 0} (P : A → St → Type 0) : Run A → Type 0 where
  ends : {a : A} {s : St} → P a s → Ends P (ok a s)
  faults : Ends P fault

module _ {A : Type 0} {P : A → St → Type 0} where
  pub Returns-Ends :
      {Q : A → St → Type 0} {r : Run A} → Returns P r → Ends Q r → Returns (λ a s. P a s × Q a s) r
  Returns-Ends (returns p) (ends q) = returns (p, q)

  pub Ends-bind :
      {B : Type 0} {Q : B → St → Type 0} {r : Run A} {k : A → M B}
      → Ends P r
      → ((a : A) (s : St) → P a s → Ends Q (k a s))
      → Ends Q (and_then r k)
  Ends-bind (ends p) next = next _ _ p
  Ends-bind faults next = faults

  pub Ends-mono :
      {Q : A → St → Type 0} {r : Run A} → Ends P r → ((a : A) (s : St) → P a s → Q a s) → Ends Q r
  Ends-mono (ends p) weaken = ends (weaken _ _ p)
  Ends-mono faults weaken = faults

  pub Ends-if :
      (b : Bool) (m n : M A) (s : St)
      → (b ≡ true → Ends P (m s))
      → (b ≡ false → Ends P (n s))
      → Ends P ((if b then m else n) s)
  Ends-if true m n s hm hn = hm refl
  Ends-if false m n s hm hn = hn refl

-- No answer went out, and the request's own tag and state are as they were.
pub record Silent (s t : St) : Type 0 where
  pub answers : answers t.trace ≡ answers s.trace
  pub tag : t.tag ≡ s.tag
  pub responded : t.responded ≡ s.responded

pub Silent-refl : (s : St) → Silent s s
Silent-refl s = record { answers = refl; tag = refl; responded = refl }

pub Silent-trans : {s t u : St} → Silent s t → Silent t u → Silent s u
Silent-trans x y = record {
  answers = y.answers ∙ x.answers;
  tag = y.tag ∙ x.tag;
  responded = y.responded ∙ x.responded;
}

-- The action sends no answer.
pub record Quiet {A : Type 0} (m : M A) : Type 0 where
  pub at : (s : St) → Ends (λ _ t. Silent s t) (m s)

pub Quiet-pure : {A : Type 0} (a : A) → Quiet (pure a)
Quiet-pure a = record { at = λ s. ends (Silent-refl s) }

pub Quiet-fault : {A : Type 0} → Quiet {A = A} (λ s. fault)
Quiet-fault = record { at = λ s. faults }

pub Quiet-bind :
    {A B : Type 0} (m : M A) (k : A → M B) → Quiet m → ((a : A) → Quiet (k a)) → Quiet (m >>= k)
Quiet-bind m k hm hk = record {
  at = λ s. Ends-bind (hm.at s) λ a t x. Ends-mono ((hk a).at t) (λ _ u y. Silent-trans x y);
}

pub Quiet-then : {B : Type 0} (m : M (Unit {0})) (n : M B) → Quiet m → Quiet n → Quiet (m >> n)
Quiet-then m n hm hn = record {
  at = λ s. Ends-bind (hm.at s) λ a t x. Ends-mono (hn.at t) (λ _ u y. Silent-trans x y);
}

pub Quiet-if : {A : Type 0} (b : Bool) (m n : M A) → Quiet m → Quiet n → Quiet (if b then m else n)
Quiet-if true m n hm hn = hm
Quiet-if false m n hm hn = hn

pub Quiet-get : {A : Type 0} (k : St → M A) → ((s : St) → Quiet (k s)) → Quiet (get >>= k)
Quiet-get k hk = record { at = λ s. (hk s).at s }

pub Quiet-set_rfid : (p : Option Ptr) → Quiet (set_rfid p)
Quiet-set_rfid p = record {
  at = λ s. ends (record { answers = refl; tag = refl; responded = refl });
}

pub Quiet-load : (p : Ptr) → Quiet (load p)
unfolding load
Quiet-load p = record { at = λ s. go s (s.heap p) }
  where
    go :
        (s : St) (o : Option Npfid)
        → Ends (λ _ t. Silent s t) (elim o [ none ↦ fault | some f ↦ ok f s ])
    go s none = faults
    go s (some f) = ends (Silent-refl s)

pub Quiet-store : (p : Ptr) (f : Npfid) → Quiet (store p f)
unfolding store
Quiet-store p f = record { at = λ s. go s (s.heap p) }
  where
    go :
        (s : St) (o : Option Npfid)
        → Ends
            (λ _ t. Silent s t)
            ((elim o [
              | none ↦ fault
              | some _ ↦ ok tt (record s { heap = npfs.State.Mem.put_fid s.heap p (some f) })
            ]))
    go s none = faults
    go s (some g) = ends (record { answers = refl; tag = refl; responded = refl })

pub Quiet-adjust : (p : Ptr) (g : Npfid → Npfid) → Quiet (adjust p g)
unfolding adjust
Quiet-adjust p g = Quiet-bind _ _ (Quiet-load p) (λ f. Quiet-store p (g f))

pub Quiet-incref : (p : Ptr) → Quiet (np_fid_incref p)
unfolding np_fid_incref
Quiet-incref p = Quiet-adjust p _
