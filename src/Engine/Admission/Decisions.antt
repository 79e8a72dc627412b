-- ===== src/Engine/Admission/Decisions.antt =====
-- What `_guard` and the decision of the first transaction of `dispatch` answer, in
-- qingtian_engine/admission.py.
use qingtian_ai.Engine.Admission.{Desk, Facts}
use qingtian_ai.Engine.Admission.Dispatch.{coalesced, decision_for, is_matching}
use qingtian_ai.Engine.Admission.Orders.{Order}
use qingtian_ai.Engine.Admission.Projections.{active_runs}
use qingtian_ai.Engine.Admission.Reading.{first_true, guard, stops}
use qingtian_ai.Engine.Lifecycle.{Host, ManagedRun}
use qingtian_ai.Prelude.{
  All, Bool, Bool-cases, List, Option, String, [], any, false, inl, inr, none, refl, some, subst,
  true, ◌==◌, ◌∷◌, ◌≡◌,
}

-- a stop whose state is not that of a request that is being dispatched
pub record NotPending (x : Option (String × String)) : Type 0 where
  holds : (state reason : String) → x ≡ some (state, reason) → (state == "pending") ≡ false

first_true-NotPending :
    (xs : List (Bool × (String × String)))
    → All (λ x. (x.1.0 == "pending") ≡ false) xs
    → NotPending (first_true xs)
unfolding first_true
first_true-NotPending [] h = record { holds = λ s r e. absurd (cc) }
first_true-NotPending ((true, (state, reason)) ∷ xs) h = record {
  holds = λ s r e. let p : state ≡ s = cc in subst (λ x. (x == "pending") ≡ false) p h.0;
}
first_true-NotPending ((false, stop) ∷ xs) h = first_true-NotPending xs h.1

pub guard-NotPending : (host : Host) (f : Facts) → NotPending (guard host f)
unfolding guard
guard-NotPending host f =
    first_true-NotPending (stops host f)
      (refl, (refl, (refl, (refl, (refl, (refl, (refl, (refl, tt))))))))

module _ (host : Host) (o : Order) (f : Facts) (db : Desk) where
  coalesced-state :
      (runs : List ManagedRun) {s r : String} {run : Option ManagedRun}
      → coalesced host o f db runs ≡ some (s, r, run)
      → (s == "pending") ≡ false
  unfolding coalesced
  coalesced-state [] h = absurd (cc)
  coalesced-state (run ∷ []) {s} h =
      elim (Bool-cases (any (is_matching host o f run db) db.receipts)) [
        | inl e ↦
            let p : "coalesced" ≡ s = cc (rw e at h) in subst (λ x. (x == "pending") ≡ false) p refl
        | inr e ↦
            let p : "uncertain" ≡ s = cc (rw e at h) in subst (λ x. (x == "pending") ≡ false) p refl
      ]
  coalesced-state (run ∷ another ∷ rest) {s} h =
      let p : "uncertain" ≡ s = cc in subst (λ x. (x == "pending") ≡ false) p refl

  coalesced-none : (runs : List ManagedRun) → coalesced host o f db runs ≡ none → runs ≡ []
  unfolding coalesced
  coalesced-none [] h = refl
  coalesced-none (run ∷ []) h = elim (Bool-cases (any (is_matching host o f run db) db.receipts)) [
    | inl e ↦ absurd (cc (rw e at h))
    | inr e ↦ absurd (cc (rw e at h))
  ]
  coalesced-none (run ∷ another ∷ rest) h = absurd (cc)

  -- a decision that answers the request does not leave it pending
  pub decision-state :
      (is_undecided : Bool) (stop : Option (String × String)) {s r : String}
      {run : Option ManagedRun}
      → NotPending stop
      → decision_for host o f is_undecided db stop ≡ some (s, r, run)
      → (s == "pending") ≡ false
  unfolding decision_for
  decision-state is_undecided (some (state, reason)) {s} n h =
      let p : state ≡ s = cc in subst (λ x. (x == "pending") ≡ false) p (n.holds state reason refl)
  decision-state true none {s} n h =
      let p : "uncertain" ≡ s = cc in subst (λ x. (x == "pending") ≡ false) p refl
  decision-state false none n h = coalesced-state (active_runs f.runs) h

  -- a request is dispatched if nothing stops it, none is open, and no run is active
  pub decision-none :
      (is_undecided : Bool) (stop : Option (String × String))
      → decision_for host o f is_undecided db stop ≡ none
      → (stop ≡ none) × (is_undecided ≡ false) × (active_runs f.runs ≡ [])
  unfolding decision_for
  decision-none is_undecided (some stop) h = absurd (cc)
  decision-none true none h = absurd (cc)
  decision-none false none h = (refl, refl, coalesced-none (active_runs f.runs) h)
