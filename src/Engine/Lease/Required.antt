-- ===== src/Engine/Lease/Required.antt =====
-- What a call of `sync_evidence_contracts` in qingtian_engine/coordinator.py leaves in the table.
use mathlib.Core.Option
use qingtian_ai.Engine.Lease.Evidence.{
  Counts, EvidenceContract, EvidenceTask, Ledger, Machine, contract_for, contract_of, counted,
  is_in, is_kept, is_met, is_required, is_satisfied_by, put_contracts, required_evidence,
  required_for_task, sync_evidence_contracts, sync_one, sync_task, sync_tasks,
}
use qingtian_ai.Engine.Lease.Newest.{Newest, is_satisfied_by_lem}
use qingtian_ai.Engine.Lease.Synced.{
  eq_false_sym, put_contracts_kept, put_contracts_written, relax_cleared, relax_kept,
}
use qingtian_ai.Prelude.{
  All, All-filter_of, All-weaken, Bool, Bool-cases, List, String, [], any, any-filter, ap, arith,
  eq_self, eq→≡, false, filter, first-some, inl, inr, not, not-both, refl, some, subst, true, ℕ,
  ◌&&◌, ◌==◌, ◌∙◌, ◌∷◌, ◌≡◌, ◌⊎◌,
}

ids_known : (ts : List EvidenceTask) → All (λ t. any (λ x. x.id == t.id) ts ≡ true) ts
unfolding any
ids_known [] = tt
ids_known (t ∷ ts) =
    (rw (eq_self t.id) refl, All-weaken ts (λ x h. rw h (ground arith)) (ids_known ts))

module _ (machine : Machine) (now : ℕ) (db : Ledger) where
  -- the contracts of a task are those of its required kinds, each met by a verified newest item
  abbrev Settled : String → List String → List EvidenceContract → Type 0
  Settled task_id needed cs =
      (k : String)
      → (is_required (contract_of task_id k cs) ≡ is_in k needed)
        × (is_met (contract_of task_id k cs) ≡ (is_in k needed && is_satisfied_by db task_id k))

  sync_task-Settled :
      (task_id : String) (needed : List String) (cs : List EvidenceContract)
      → Settled task_id needed (sync_task now db task_id needed cs)
  unfolding sync_task contract_for is_required is_met
  sync_task-Settled task_id needed cs k = elim (Bool-cases (is_in k needed)) [
    | inl e ↦
        rw
          (relax_kept now db task_id k task_id needed (put_contracts now db task_id needed cs)
            (rw e (ground arith)))
          (rw (put_contracts_written now db task_id k needed cs e) (rw e (refl, refl)))
    | inr e ↦
        let cleared =
          relax_cleared now db task_id k needed (put_contracts now db task_id needed cs) e in
        rw e cleared
  ]

  sync_task-kept :
      (task_id another : String) (needed kinds : List String) (cs : List EvidenceContract)
      → (another == task_id) ≡ false
      → Settled task_id needed cs
      → Settled task_id needed (sync_task now db another kinds cs)
  unfolding sync_task
  sync_task-kept task_id another needed kinds cs h settled k =
      rw
        (relax_kept now db task_id k another kinds (put_contracts now db another kinds cs)
            (rw (eq_false_sym another task_id h) refl)
          ∙ put_contracts_kept now db task_id k another kinds cs (rw h refl))
        (settled k)

  -- one step of the loop
  sync_one_lem :
      (task_id : String) (needed : List String) (t : EvidenceTask) (cs : List EvidenceContract)
      (n : Counts) {cs' : List EvidenceContract} {n' : Counts}
      → required_evidence machine db task_id ≡ some needed
      → ((t.id == task_id) ≡ true) ⊎ Settled task_id needed cs
      → sync_one machine now db t (cs, n) ≡ some (cs', n')
      → Settled task_id needed cs'
  unfolding sync_one
  sync_one_lem task_id needed t cs n known h e =
      let (kinds, first_row, result) =
        (Option.map-eq-some_iff _ (required_evidence machine db t.id)).0 e in
      subst (Settled task_id needed) (λ i. (result i).0)
        (elim (Bool-cases (t.id == task_id)) [
          | inl s ↦
              let same : t.id ≡ task_id = eq→≡ _ _ s in
              let all_of : kinds ≡ needed =
                cc (first_row, known, ap (required_evidence machine db) same) in
              rw same (rw all_of (sync_task-Settled task_id needed cs))
          | inr d ↦ elim h [
            | inl s ↦ absurd (not-both d s)
            | inr settled ↦ sync_task-kept task_id t.id needed kinds cs d settled
          ]
        ])

  sync_tasks_lem :
      (task_id : String) (needed : List String) (ts : List EvidenceTask)
      (cs : List EvidenceContract) (n : Counts) {cs' : List EvidenceContract} {n' : Counts}
      → required_evidence machine db task_id ≡ some needed
      → (any (λ t. t.id == task_id) ts ≡ true) ⊎ Settled task_id needed cs
      → sync_tasks machine now db ts (cs, n) ≡ some (cs', n')
      → Settled task_id needed cs'
  unfolding sync_tasks any
  sync_tasks_lem task_id needed [] cs n {cs'} {n'} known h e = elim h [
    | inl f ↦ absurd (cc)
    | inr settled ↦
        let result = Option.some-injective (cs, n) (cs', n') e in
        subst (Settled task_id needed) (λ i. (result i).0) settled
  ]
  sync_tasks_lem task_id needed (t ∷ ts) cs n known h e =
      let (middle, first_one, others) =
        (Option.bind-eq-some_iff (sync_one machine now db t (cs, n))
            (sync_tasks machine now db ts)).0
          e in
      let proceed = λ (g : ((t.id == task_id) ≡ true) ⊎ Settled task_id needed cs).
        sync_one_lem task_id needed t cs n known g first_one in
      sync_tasks_lem task_id needed ts middle.0 middle.1 known
        (elim h [
          | inl f ↦ elim (Bool-cases (t.id == task_id)) [
            | inl s ↦ inr (proceed (inl s))
            | inr d ↦ inl (ground arith)
          ]
          | inr settled ↦ inr (proceed (inr settled))
        ])
        others

  known_evidence :
      (t : EvidenceTask)
      → any (λ x. x.id == t.id) db.tasks ≡ true
      → (needed : List String) × (required_evidence machine db t.id ≡ some needed)
  unfolding required_evidence
  known_evidence t h =
      let (x, e) = first-some (λ x. x.id == t.id) db.tasks h in
      (required_for_task machine x, rw e refl)

  sync_tasks_returns :
      (ts : List EvidenceTask) (cs : List EvidenceContract) (n : Counts)
      → All (λ t. any (λ x. x.id == t.id) db.tasks ≡ true) ts
      → (result : List EvidenceContract × Counts) × (sync_tasks machine now db ts (cs, n)
          ≡ some result)
  unfolding sync_tasks sync_one Option.bind
  sync_tasks_returns [] cs n h = ((cs, n), refl)
  sync_tasks_returns (t ∷ ts) cs n h =
      let (needed, known) = known_evidence t h.0 in
      let others =
        sync_tasks_returns ts (sync_task now db t.id needed cs) (counted db t.id needed n) h.1 in
      (others.0, rw known others.1)

  pub contracts-Settled :
      (task_id : String) (needed : List String)
      → any (λ t. is_kept t && t.id == task_id) db.tasks ≡ true
      → required_evidence machine db task_id ≡ some needed
      → (result : List EvidenceContract × Counts) × (sync_evidence_contracts machine now db
          ≡ some result)
        × Settled task_id needed result.0
  unfolding sync_evidence_contracts
  contracts-Settled task_id needed live known =
      let (result, e) =
        sync_tasks_returns (filter is_kept db.tasks) db.contracts
          (record { contracts = 0; satisfied = 0; missing = 0 })
          (All-filter_of _ is_kept db.tasks (ids_known db.tasks)) in
      (
        result,
        e,
        sync_tasks_lem task_id needed (filter is_kept db.tasks) db.contracts _ known
            (inl (any-filter (λ t. t.id == task_id) is_kept db.tasks ∙ live)) e,
      )

  -- sync_evidence_contracts returns. Then a task that is not canceled has a required contract for
  -- exactly the kinds that it requires, and it is met exactly if the newest item of that kind, one
  -- with the largest identifier, is there and verified.
  pub contracts_exact :
      (task_id : String) (needed : List String)
      → any (λ t. not (t.state == "CANCELED") && t.id == task_id) db.tasks ≡ true
      → required_evidence machine db task_id ≡ some needed
      → (result : List EvidenceContract × Counts) × (sync_evidence_contracts machine now db
          ≡ some result)
        × ((k : String)
            → (verified : Bool) × Newest
                (λ e. e.task_id == task_id && e.kind == k)
                db.evidence
                verified
              × (is_required (contract_of task_id k result.0) ≡ any (λ j. j == k) needed)
              × (is_met (contract_of task_id k result.0) ≡ (any (λ j. j == k) needed && verified)))
  unfolding is_kept is_in
  contracts_exact task_id needed live known =
      let (result, e, settled) = contracts-Settled task_id needed live known in
      (
        result,
        e,
        λ k. (
          is_satisfied_by db task_id k,
          is_satisfied_by_lem db task_id k,
          (settled k).0,
          (settled k).1,
        ),
      )
