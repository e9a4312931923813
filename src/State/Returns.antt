-- ===== src/State/Returns.antt =====
-- Total correctness of a run: it does not fault, and its result meets a postcondition.
use npfs.Prelude.{Bool, true, false, ◌≡◌, refl, if◌then◌else◌}
use npfs.State.{St, Run, ok, M, and_then}

pub data Returns {A : Type 0} (P : A → St → Type 0) : Run A → Type 0 where
  returns : {a : A} {s : St} → P a s → Returns P (ok a s)

module _ {A : Type 0} {P : A → St → Type 0} where
  pub Returns-bind :
      {B : Type 0} {Q : B → St → Type 0} {r : Run A} {k : A → M B}
      → Returns P r
      → ((a : A) (s : St) → P a s → Returns Q (k a s))
      → Returns Q (and_then r k)
  Returns-bind (returns p) next = next _ _ p

  pub Returns-mono :
      {Q : A → St → Type 0} {r : Run A}
      → Returns P r
      → ((a : A) (s : St) → P a s → Q a s)
      → Returns Q r
  Returns-mono (returns p) weaken = returns (weaken _ _ p)

  pub Returns-if :
      (b : Bool) (m n : M A) (s : St)
      → (b ≡ true → Returns P (m s))
      → (b ≡ false → Returns P (n s))
      → Returns P ((if b then m else n) s)
  Returns-if true m n s hm hn = hm refl
  Returns-if false m n s hm hn = hn refl
