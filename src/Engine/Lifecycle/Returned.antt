-- ===== src/Engine/Lifecycle/Returned.antt =====
-- Calls that return, for `apply` of qingtian_engine/lifecycle.py.
use qingtian_ai.Engine.Lifecycle.Checks.{◌and_then◌}
use qingtian_ai.Exec.{Exec, Result, err, ok}
use qingtian_ai.Exec.Rules.{Post}
use qingtian_ai.Prelude.{refl, some, subst, ◌≡◌}

pub some_same : {A : Type 0} {a b : A} → some a ≡ some b → a ≡ b
some_same h = cc

-- what holds of a call that returns holds with the call's run
pub Post-ran :
    {S A : Type 0} {m : Exec S A} {s : S} {Q : A → S → Type 0}
    → Post m s Q
    → Post m s (λ a s'. Q a s' × (m s ≡ (ok a, s')))
Post-ran h = record { at = λ a s' e. (h.at a s' e, e) }

-- a result that is returned
pub record Returns {A : Type 0} (m : Result A) (P : A → Type 0) : Type 0 where
  pub at : (a : A) → m ≡ ok a → P a

pub Returns-ok : {A : Type 0} {P : A → Type 0} (a : A) → P a → Returns (ok a) P
Returns-ok {P = P} a h = record { at = λ b e. subst P (cc e) h }

pub Returns-and_then :
    {A B : Type 0} {P : B → Type 0} (m : Result A) (k : A → Result B)
    → ((a : A) → m ≡ ok a → Returns (k a) P)
    → Returns (m and_then k) P
unfolding ◌and_then◌
Returns-and_then (ok a) k h = h a refl
Returns-and_then (err e) k h = record { at = λ b q. absurd (cc q) }
