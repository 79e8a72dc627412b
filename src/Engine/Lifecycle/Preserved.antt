-- ===== src/Engine/Lifecycle/Preserved.antt =====
-- Every write of the lifecycle and of the control plane keeps the invariant of the tables.
use qingtian_ai.Engine.Lifecycle.{
  Execution, Handoff, HandoffStatus, ManagedRun, accepted, engine_task_key, execution_key,
  handoff_key, intake_key, managed_run_key, notice_key, offered, rejected, resolved, version_key,
}
use qingtian_ai.Engine.Lifecycle.Change.{
  AllFinished, Change, Changes, Core, Exclusive, NoneInFlight, Responsible, and_then_one,
  execution_added, execution_open, execution_task, execution_written, handoff_added, handoff_open,
  handoff_task, handoff_written, may_become, none_yet, run_added, run_written, task_added,
  task_written, untouched,
}
use qingtian_ai.Engine.Lifecycle.Distinct.{Distinct-insert, Distinct-update}
use qingtian_ai.Engine.Lifecycle.Guards.{is_in_flight, is_resolved, is_unfinished}
use qingtian_ai.Engine.Lifecycle.Settled.{
  Linked-insert, Linked-task_insert, Linked-task_update, Linked-update, Settled-insert,
  Settled-task_insert, Settled-task_update, Settled-update,
}
use qingtian_ai.Prelude.{
  Bool, Bool-cases, List, String, any, ap, arith, eq_self, false, inl, inr, none, not, not-both,
  refl, some, subst, sym, true, ◌&&◌, ◌==◌, ◌∙◌, ◌≡◌, ◌≢◌,
}
use qingtian_ai.Store.Table.{Keyed, any-find, find, insert, insert-cases, update, update-cases}

-- an open handoff stays open only if it was
may_become-open :
    (a b : HandoffStatus)
    → may_become a b ≡ true
    → not (is_resolved b) ≡ true
    → not (is_resolved a) ≡ true
unfolding may_become is_resolved
may_become-open offered b m o = refl
may_become-open accepted b m o = refl
may_become-open rejected b m o = refl
may_become-open resolved b m o = cc

-- a row that a query with no result has not found
pub unmatched :
    {A : Type 0} ⦃e : Keyed A⦄ (task_of : A → String) (p : A → Bool) (k : String) (rows : List A)
    → any (λ r. task_of r == k && p r) rows ≡ false
    → (i : String) (r : A) → find i rows ≡ some r
    → p r ≡ true
    → task_of r ≢ k
unmatched task_of p k rows h i r f o same =
    let q = any-find (λ r. task_of r == k && p r) rows i h f in
    let s : (task_of r == k) ≡ true =
      subst (λ j. (task_of r == j) ≡ true) same (eq_self (task_of r)) in
    ground arith

module _ (c : Core) where
  Exclusive-execution_added :
      (e : Execution)
      → find e.id c.executions ≡ none
      → NoneInFlight e.task_id c
      → Exclusive c
      → Exclusive (record c { executions = insert e c.executions })
  Exclusive-execution_added e free idle x i j d r p o q same =
      elim (insert-cases e c.executions i free p) [
        | inl h ↦ elim (Bool-cases (is_in_flight r.status)) [
          | inl b ↦ absurd (
              unmatched (λ r. r.task_id) (λ r. is_in_flight r.status) e.task_id c.runs idle j r q b
                (same ∙ ap (λ (y : Execution). y.task_id) h.1))
          | inr b ↦ b
        ]
        | inr h ↦ x i j d r h o q same
      ]

  Exclusive-execution_written :
      (k : String) (f : Execution → Execution) (e : Execution)
      → ((x : Execution) → (f x).id ≡ x.id)
      → ((x : Execution) → (f x).task_id ≡ x.task_id)
      → find k c.executions ≡ some e
      → (is_unfinished (f e).status ≡ true → is_unfinished e.status ≡ true)
      → Exclusive c
      → Exclusive (record c { executions = update k f c.executions })
  Exclusive-execution_written k f e same_id same_task here opens x i j d r p o q same =
      elim (update-cases k f c.executions i same_id here p) [
        | inl h ↦
            x k j e r here (opens (subst (λ (y : Execution). is_unfinished y.status ≡ true) h.1 o))
              q (same ∙ ap (λ (y : Execution). y.task_id) h.1 ∙ same_task e)
        | inr h ↦ x i j d r h.1 o q same
      ]

  Exclusive-run_added :
      (r : ManagedRun)
      → find r.id c.runs ≡ none
      → (is_in_flight r.status ≡ true → AllFinished r.task_id c)
      → Exclusive c
      → Exclusive (record c { runs = insert r c.runs })
  Exclusive-run_added r free guard x i j d s p o q same = elim (insert-cases r c.runs j free q) [
    | inl h ↦ elim (Bool-cases (is_in_flight s.status)) [
      | inl b ↦ absurd (
          unmatched execution_task execution_open r.task_id c.executions
            (guard (subst (λ (y : ManagedRun). is_in_flight y.status ≡ true) h.1 b)) i d p o
            (sym same ∙ ap (λ (y : ManagedRun). y.task_id) h.1))
      | inr b ↦ b
    ]
    | inr h ↦ x i j d s p o h same
  ]

  Exclusive-run_written :
      (k : String) (f : ManagedRun → ManagedRun) (r : ManagedRun)
      → ((x : ManagedRun) → (f x).id ≡ x.id)
      → ((x : ManagedRun) → (f x).task_id ≡ x.task_id)
      → find k c.runs ≡ some r
      → (is_in_flight (f r).status ≡ true → is_in_flight r.status ≡ true)
      → Exclusive c
      → Exclusive (record c { runs = update k f c.runs })
  Exclusive-run_written k f r same_id same_task here flies x i j d s p o q same =
      elim (update-cases k f c.runs j same_id here q) [
        | inl h ↦ elim (Bool-cases (is_in_flight s.status)) [
          | inl b ↦ absurd (
              not-both
                (x i k d r p o here
                  (sym (same_task r) ∙ ap (λ (y : ManagedRun). y.task_id) (sym h.1) ∙ same))
                (flies (subst (λ (y : ManagedRun). is_in_flight y.status ≡ true) h.1 b)))
          | inr b ↦ b
        ]
        | inr h ↦ x i j d s p o h.1 same
      ]

pub Change-Responsible : (c c' : Core) → Change c c' → Responsible c → Responsible c'
Change-Responsible c c' (untouched e) v = subst Responsible (sym e) v
Change-Responsible c c' (task_added t free e) v = subst Responsible (sym e) (record {
  executions_linked =
      Linked-task_insert execution_task execution_open c.tasks t free c.executions
        v.executions_linked;
  executions_settled =
      Settled-task_insert execution_task execution_open c.tasks t free c.executions
        v.executions_linked v.executions_settled;
  handoffs_linked =
      Linked-task_insert handoff_task handoff_open c.tasks t free c.handoffs v.handoffs_linked;
  handoffs_settled =
      Settled-task_insert handoff_task handoff_open c.tasks t free c.handoffs v.handoffs_linked
        v.handoffs_settled;
  distinct = v.distinct;
  exclusive = v.exclusive;
})
Change-Responsible c c' (task_written k g t same_id here keeps e) v =
    subst Responsible (sym e) (record {
      executions_linked =
          Linked-task_update execution_task execution_open k g same_id c.tasks t here c.executions
            v.executions_linked;
      executions_settled =
          Settled-task_update execution_task execution_open k g same_id c.tasks t here c.executions
            (elim keeps [
              | inl h ↦ inl (unmatched execution_task execution_open k c.executions h.1)
              | inr h ↦ inr h
            ])
            v.executions_settled;
      handoffs_linked =
          Linked-task_update handoff_task handoff_open k g same_id c.tasks t here c.handoffs
            v.handoffs_linked;
      handoffs_settled =
          Settled-task_update handoff_task handoff_open k g same_id c.tasks t here c.handoffs
            (elim keeps [
              | inl h ↦ inl (unmatched handoff_task handoff_open k c.handoffs h.0)
              | inr h ↦ inr h
            ])
            v.handoffs_settled;
      distinct = v.distinct;
      exclusive = v.exclusive;
    })
Change-Responsible c c' (execution_added d t free here undone idle e) v =
    subst Responsible (sym e) (record {
      distinct = Distinct-insert d c.executions free v.distinct;
      executions_linked =
          Linked-insert execution_task execution_open c.tasks c.executions d t free here
            v.executions_linked;
      executions_settled =
          Settled-insert execution_task execution_open c.tasks c.executions d t free here undone
            v.executions_settled;
      exclusive = Exclusive-execution_added c d free idle v.exclusive;
      handoffs_linked = v.handoffs_linked;
      handoffs_settled = v.handoffs_settled;
    })
Change-Responsible c c' (execution_written k f d same_id same_task here opens e) v =
    subst Responsible (sym e) (record {
      distinct = Distinct-update k f c.executions same_id v.distinct;
      executions_linked =
          Linked-update execution_task execution_open k f same_id same_task c.tasks c.executions d
            here v.executions_linked;
      executions_settled =
          Settled-update execution_task execution_open k f same_id same_task c.tasks c.executions d
            here opens v.executions_settled;
      exclusive = Exclusive-execution_written c k f d same_id same_task here opens v.exclusive;
      handoffs_linked = v.handoffs_linked;
      handoffs_settled = v.handoffs_settled;
    })
Change-Responsible c c' (handoff_added h t free here undone e) v =
    subst Responsible (sym e) (record {
      handoffs_linked =
          Linked-insert handoff_task handoff_open c.tasks c.handoffs h t free here
            v.handoffs_linked;
      handoffs_settled =
          Settled-insert handoff_task handoff_open c.tasks c.handoffs h t free here undone
            v.handoffs_settled;
      distinct = v.distinct;
      executions_linked = v.executions_linked;
      executions_settled = v.executions_settled;
      exclusive = v.exclusive;
    })
Change-Responsible c c' (handoff_written k f h keeps here moves e) v =
    let same_id : (x : Handoff) → (f x).id ≡ x.id = λ x. (keeps x).same_id in
    let same_task : (x : Handoff) → (f x).task_id ≡ x.task_id = λ x. (keeps x).same_task in
    subst Responsible (sym e) (record {
      handoffs_linked =
          Linked-update handoff_task handoff_open k f same_id same_task c.tasks c.handoffs h here
            v.handoffs_linked;
      handoffs_settled =
          Settled-update handoff_task handoff_open k f same_id same_task c.tasks c.handoffs h here
            (may_become-open h.status (f h).status moves) v.handoffs_settled;
      distinct = v.distinct;
      executions_linked = v.executions_linked;
      executions_settled = v.executions_settled;
      exclusive = v.exclusive;
    })
Change-Responsible c c' (run_added r free guard e) v = subst Responsible (sym e) (record {
  exclusive = Exclusive-run_added c r free guard v.exclusive;
  distinct = v.distinct;
  executions_linked = v.executions_linked;
  executions_settled = v.executions_settled;
  handoffs_linked = v.handoffs_linked;
  handoffs_settled = v.handoffs_settled;
})
Change-Responsible c c' (run_written k f r same_id same_task here flies e) v =
    subst Responsible (sym e) (record {
      exclusive = Exclusive-run_written c k f r same_id same_task here flies v.exclusive;
      distinct = v.distinct;
      executions_linked = v.executions_linked;
      executions_settled = v.executions_settled;
      handoffs_linked = v.handoffs_linked;
      handoffs_settled = v.handoffs_settled;
    })

pub Changes-Responsible : (c c' : Core) → Changes c c' → Responsible c → Responsible c'
Changes-Responsible c c' none_yet v = v
Changes-Responsible c c' (and_then_one {b = b} rest change) v =
    Change-Responsible b c' change (Changes-Responsible c b rest v)
