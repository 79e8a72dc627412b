-- ===== src/Engine/Lease/Gate.antt =====
-- What the contracts of qingtian_engine/coordinator.py say of the completion gate of
-- qingtian_engine/service.py, `missing_completion_evidence`.
use mathlib.Core.Option
use qingtian_ai.Engine.Lease.Evidence.{
  Counts, EvidenceContract, EvidenceItem, Ledger, Machine, contract_of, is_in, is_kept, is_met,
  is_satisfied_by, is_verified, item_of_kind, missing_completion_evidence, newest_first,
  required_evidence, sync_evidence_contracts,
}
use qingtian_ai.Engine.Lease.Required.{contracts-Settled}
use qingtian_ai.Prelude.{
  &&-right, Bool, Bool-cases, List, String, [], all, any, any-filter, any-order_by, any_mono, ap,
  arith, filter, filter_none, first, inl, inr, ltb, order_by, refl, some, subst, sym, true, ℕ, ◌&&◌,
  ◌==◌, ◌∙◌, ◌∷◌, ◌≡◌,
}

first_verified :
    (k : String) (items : List EvidenceItem)
    → is_verified (first (λ e. e.kind == k) items) ≡ true
    → any (λ e. e.verified && e.kind == k) items ≡ true
unfolding first any is_verified
first_verified k [] h = absurd (cc)
first_verified k (e ∷ items) h = elim (Bool-cases (e.kind == k)) [
  | inl same ↦ let verified : e.verified ≡ true = cc (rw same at h) in rw same (rw verified refl)
  | inr distinct ↦ rw (first_verified k items (rw distinct at h)) (ground arith)
]

-- an item of a kind that is verified is among the evidence that the gate looks at
satisfied-any :
    (db : Ledger) (task_id k : String)
    → is_satisfied_by db task_id k ≡ true
    → any (λ e. e.task_id == task_id && e.verified && e.kind == k) db.evidence ≡ true
unfolding is_satisfied_by item_of_kind newest_first
satisfied-any db task_id k h =
    let items = filter (λ e. e.task_id == task_id) db.evidence in
    let before : EvidenceItem → EvidenceItem → Bool = λ a b. ltb b.id a.id in
    let test : EvidenceItem → Bool = λ e. e.verified && e.kind == k in
    any_mono (λ e. e.task_id == task_id && (e.verified && e.kind == k))
      (λ e. e.task_id == task_id && e.verified && e.kind == k) db.evidence
      (λ e both. ground (arith, both))
      (sym (any-filter test (λ e. e.task_id == task_id) db.evidence)
        ∙ sym (any-order_by test before items)
        ∙ first_verified k (order_by before items) h)

module _ (machine : Machine) (now : ℕ) (db : Ledger) where
  -- If a call of sync_evidence_contracts returns and every contract that a task, not canceled,
  -- requires is then met, the completion gate misses no evidence.
  pub satisfied_completes :
      (task_id : String) (needed : List String) (cs : List EvidenceContract) (n : Counts)
      → any (λ t. is_kept t && t.id == task_id) db.tasks ≡ true
      → required_evidence machine db task_id ≡ some needed
      → sync_evidence_contracts machine now db ≡ some (cs, n)
      → all (λ k. is_met (contract_of task_id k cs)) needed ≡ true
      → missing_completion_evidence machine db task_id ≡ some []
  unfolding missing_completion_evidence
  satisfied_completes task_id needed cs n live known e met =
      let (result, f, settled) = contracts-Settled machine now db task_id needed live known in
      let same : result ≡ (cs, n) = Option.some-injective _ _ (sym f ∙ e) in
      rw known (
        ap some (
          filter_none (λ k. is_met (contract_of task_id k cs)) _ needed
            (λ k h.
              let decided =
                sym (
                  subst
                    (λ r.
                      is_met (contract_of task_id k r)
                      ≡ (is_in k needed && is_satisfied_by db task_id k))
                    (λ i. (same i).0) (settled k).1)
                ∙ h in
              rw (satisfied-any db task_id k (&&-right (is_in k needed) _ decided)) refl)
            met))
