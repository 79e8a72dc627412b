-- ===== src/Engine/Lifecycle/Promises.antt =====
-- What qingtian_engine/lifecycle.py promises over any sequence of calls and writes.
use qingtian_ai.Engine.Lifecycle.{
  Database, EngineTask, Execution, Handoff, Host, ManagedRun, Request, Response, Version,
  engine_task_key, execution_key, handoff_key, intake_key, managed_run_key, notice_key, version_key,
}
use qingtian_ai.Engine.Lifecycle.Accepted.{Applied, Outcome, answered_again, applied, apply_lem}
use qingtian_ai.Engine.Lifecycle.Apply.{
  CallHeader, LifecycleCall, apply, apply_prior, header, prior_request,
}
use qingtian_ai.Engine.Lifecycle.Change.{Changes, KeepsHandoff, core, may_become}
use qingtian_ai.Engine.Lifecycle.Guards.{is_done, is_in_flight, is_resolved, is_unfinished}
use qingtian_ai.Engine.Lifecycle.History.{
  LifecycleStep, Reachable, Reachable-Responsible, apply-Changes, step-Changes,
}
use qingtian_ai.Engine.Lifecycle.Moves.{Changes-handoff}
use qingtian_ai.Engine.Lifecycle.Preserved.{Changes-Responsible}
use qingtian_ai.Engine.Lifecycle.Returned.{some_same}
use qingtian_ai.Exec.{Error, Result, check, err, lift, ok, pure, statement, transaction, ◌>>=◌}
use qingtian_ai.Exec.Reads.{Atomic-raises}
use qingtian_ai.Prelude.{
  Bool-cases, String, ap, arith, eq_self, false, inl, inr, none, not-both, refl, some, subst, sym,
  true, ℕ, ◌==◌, ◌∙◌, ◌≡◌,
}
use qingtian_ai.Store.Table.{find}

ok_same : {A : Type 0} {a b : A} → ok a ≡ ok b → a ≡ b
ok_same h = cc

module _ (host : Host) where
  -- In every database that calls and writes lead to, no handoff of a task in state DONE is
  -- unresolved, and none of its external executions is unfinished.
  pub done_is_settled :
      (db : Database) (k : String) (t : EngineTask)
      → Reachable host db
      → find k db.tasks ≡ some t
      → is_done t ≡ true
      → ((i : String) (h : Handoff)
          → find i db.handoffs ≡ some h
          → h.task_id ≡ k
          → is_resolved h.status ≡ true)
        × ((i : String) (e : Execution)
            → find i db.executions ≡ some e
            → e.task_id ≡ k
            → is_unfinished e.status ≡ false)
  done_is_settled db k t r here finishes =
      let v = Reachable-Responsible host db r in
      (
        λ i h p same. elim (Bool-cases (is_resolved h.status)) [
          | inl b ↦ b
          | inr b ↦ absurd (
              not-both
                (v.handoffs_settled i h t p (rw b refl)
                  (subst (λ j. find j db.tasks ≡ some t) (sym same) here))
                finishes)
        ],
        λ i e p same. elim (Bool-cases (is_unfinished e.status)) [
          | inl b ↦ absurd (
              not-both
                (v.executions_settled i e t p b
                  (subst (λ j. find j db.tasks ≡ some t) (sym same) here))
                finishes)
          | inr b ↦ b
        ],
      )

  -- In every such database, a task with an unfinished external execution has no managed run that is
  -- queued or running.
  pub no_double_execution :
      (db : Database) (i j : String) (e : Execution) (r : ManagedRun)
      → Reachable host db
      → find i db.executions ≡ some e
      → is_unfinished e.status ≡ true
      → find j db.runs ≡ some r
      → r.task_id ≡ e.task_id
      → is_in_flight r.status ≡ false
  no_double_execution db i j e r reached p o q same =
      (Reachable-Responsible host db reached).exclusive i j e r p o q same

  -- A handoff that is there stays there over a call or write, with its task, sender, recipient and
  -- manifest, and its status does not go back: an answer is not taken again, a resolved one stays
  -- resolved.
  pub handoff_moves :
      (db db' : Database) (i : String) (h : Handoff)
      → Reachable host db
      → LifecycleStep host db db'
      → find i db.handoffs ≡ some h
      → (h' : Handoff) × (find i db'.handoffs ≡ some h')
        × KeepsHandoff h h'
        × (may_become h.status h'.status ≡ true)
  handoff_moves db db' i h r s here =
      Changes-handoff (core db) (core db')
        (step-Changes host db db' (Reachable-Responsible host db r).distinct s) i h here

  -- the run of a call whose request is stored
  replay-runs :
      (c : LifecycleCall) (d : CallHeader) (q : Request) (db : Database)
      → header host c ≡ ok d
      → prior_request c.task_id d.idempotency_key db ≡ some q
      → (q.request_json == d.request_hash) ≡ true
      → apply host c db ≡ (ok (record q.response { reused = true }), db)
  unfolding apply apply_prior ◌>>=◌ lift statement transaction check pure
  replay-runs c d q db read stored same = rw (read, stored, same) refl

  -- A reply is stored: repeating a call that returned, with the same task, action and payload and at
  -- any later time, returns its reply again, marked as reused, and changes nothing.
  pub apply_replayed :
      (c : LifecycleCall) (now : ℕ) (fresh : String) (db : Database) (r : Response) (db' : Database)
      → Reachable host db
      → apply host c db ≡ (ok r, db')
      → apply host (record c { now = now; fresh = fresh }) db'
        ≡ (ok (record r { reused = true }), db')
  unfolding header
  apply_replayed c now fresh db r db' reached ran =
      let (d, read, o) =
        (apply_lem host c db (Reachable-Responsible host db reached).distinct).returned r db' ran in
      elim o [
        | applied a ↦
            subst
              (λ (x : Response).
                apply host (record c { now = now; fresh = fresh }) db'
                ≡ (ok (record x { reused = true }), db'))
              a.same_reply
              (replay-runs (record c { now = now; fresh = fresh }) d a.stored db' read a.recorded
                (rw a.same_hash (eq_self d.request_hash)))
        | answered_again q h s e same ↦
            let again = record c { now = now; fresh = fresh } in
            subst (λ y. apply host again y ≡ (ok (record r { reused = true }), y)) (sym same)
              (subst (λ (x : Response). apply host again db ≡ (ok (record x { reused = true }), db))
                (sym e) (replay-runs again d q db read h (rw s (eq_self d.request_hash))))
      ]

  -- a new call has found the revision that it expects
  revision_found :
      (c : LifecycleCall) (d : CallHeader) (db : Database) (r : Response) (db' : Database)
      → header host c ≡ ok d
      → prior_request c.task_id d.idempotency_key db ≡ none
      → (d' : CallHeader) × (header host c ≡ ok d') × Outcome host c d' db r db'
      → Applied host c d db r db'
  revision_found c d db r db' read unseen (d', read', o) =
      elim (subst (λ x. Outcome host c x db r db') (ok_same (sym read' ∙ read)) o) [
        | applied a ↦ a
        | answered_again q h s e same ↦ absurd (cc (sym unseen ∙ h))
      ]

  -- Two calls that expect the same revision of a task, under two idempotency keys that have no
  -- stored reply: when the first one has returned, the second raises and changes nothing.
  pub second_writer_stale :
      (c second : LifecycleCall) (d e : CallHeader) (db : Database) (r : Response) (db' : Database)
      → Reachable host db
      → header host c ≡ ok d
      → header host second ≡ ok e
      → second.task_id ≡ c.task_id
      → e.expected ≡ d.expected
      → prior_request c.task_id d.idempotency_key db ≡ none
      → prior_request second.task_id e.idempotency_key db' ≡ none
      → apply host c db ≡ (ok r, db')
      → (x : Error) × (apply host second db' ≡ (err x, db'))
  second_writer_stale c second d e db r db' reached hc hs same expects fresh1 fresh2 ran =
      let v = Reachable-Responsible host db reached in
      let k' =
        (Changes-Responsible (core db) (core db')
          (subst (λ (x : Result Response × Database). Changes (core db) (core x.1)) ran
            (apply-Changes host c db v.distinct))
          v).distinct in
      let a =
        revision_found c d db r db' hc fresh1
          ((apply_lem host c db v.distinct).returned r db' ran) in
      Atomic-raises (apply host second db') refl (apply_lem host second db' k') λ r2 db2 o.
        let b = revision_found second e db' r2 db2 hs fresh2 o in
        let one_row : b.before ≡ a.after =
          some_same
            (sym b.had ∙ subst (λ j. find j db'.versions ≡ some a.after) (sym same) a.has) in
        let rows_agree = ap (λ (x : Version). x.revision) one_row in
        omega (arith, b.was_current, a.advanced, expects, rows_agree)
