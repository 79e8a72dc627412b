-- ===== src/Engine/Lifecycle/History.antt =====
-- Any sequence of calls of qingtian_engine/lifecycle.py, between writes of the control plane that
-- pass its triggers. A call that raises is a call too.
use qingtian_ai.Engine.Lifecycle.{
  Database, EngineTask, Event, EvidenceRow, Host, Intake, ManagedRun, engine_task_key,
  execution_key, handoff_key, intake_key, managed_run_key, notice_key, version_key,
}
use qingtian_ai.Engine.Lifecycle.Accepted.{apply_lem, outcome-Changes}
use qingtian_ai.Engine.Lifecycle.Apply.{LifecycleCall, apply}
use qingtian_ai.Engine.Lifecycle.Beats.{heartbeat-Changes}
use qingtian_ai.Engine.Lifecycle.Change.{
  AllFinished, AllResolved, Changes, Responsible, core, none_yet, run_added, run_written,
  task_added, task_written,
}
use qingtian_ai.Engine.Lifecycle.Distinct.{Distinct}
use qingtian_ai.Engine.Lifecycle.Guards.{
  has_unfinished_execution, has_unresolved_handoff, insert_engine_task, insert_managed_run,
  insert_version, is_done, is_in_flight, may_complete, update_engine_task, update_state, with_state,
}
use qingtian_ai.Engine.Lifecycle.Handlers.{one}
use qingtian_ai.Engine.Lifecycle.Heartbeat.{Beat, record_legacy_heartbeat}
use qingtian_ai.Engine.Lifecycle.Preserved.{Changes-Responsible}
use qingtian_ai.Exec.Reads.{Atomic-after, Atomic-modify_last, Atomic-mono, free_key}
use qingtian_ai.Exec.Rules.Rollback.{Atomic-check, Atomic-fetch}
use qingtian_ai.Prelude.{
  &&-left, &&-right, Bool, Bool-cases, List, String, [], arith, false, inl, inr, is_some, not,
  not-true, opt_eq, refl, some, subst, true, ◌&&◌, ◌==◌, ◌||◌, ◌≡◌, ◌⊎◌,
}
use qingtian_ai.Store.Table.{find, find-empty, key-find, update}

abbrev pub empty_database : Database
empty_database = record {
  tasks = [];
  versions = [];
  handoffs = [];
  executions = [];
  outbox = [];
  requests = [];
  runs = [];
  evidence = [];
  intakes = [];
  events = [];
}

idle_state :
    (finishing was may : Bool)
    → was ≡ false
    → may ≡ false
    → (not (finishing && not was) || may) ≡ true
    → finishing ≡ false
idle_state finishing was may p q h = ground arith

free_flight :
    (flies unfinished_one unresolved_one : Bool)
    → flies ≡ true
    → (not flies || not (unfinished_one || unresolved_one)) ≡ true
    → unfinished_one ≡ false
free_flight flies unfinished_one unresolved_one p h = ground arith

module _ (host : Host) where
  -- One call or write. The control plane ends or starts a run that is in flight, and edits the other
  -- columns of a task, with the trigger of an update.
  pub data LifecycleStep (db : Database) : Database → Type 0 where
    called : (c : LifecycleCall) → LifecycleStep db (apply host c db).1
    task_inserted : (t : EngineTask) → LifecycleStep db (insert_engine_task t db).1
    state_written : (task_id state : String) → LifecycleStep db (update_state task_id state db).1
    task_edited :
        (g : EngineTask → EngineTask) (t : EngineTask)
        → ((x : EngineTask) → (g x).id ≡ x.id)
        → (is_done t ≡ false → is_done (g t) ≡ false)
        → find t.id db.tasks ≡ some t
        → LifecycleStep db (update_engine_task t.id g db)
    run_inserted : (r : ManagedRun) → LifecycleStep db (insert_managed_run r db).1
    run_moved :
        (r : ManagedRun) (status : String)
        → find r.id db.runs ≡ some r
        → is_in_flight r.status ≡ true
        → LifecycleStep db
            (record db { runs = update r.id (λ x. record x { status = status }) db.runs })
    beat : (b : Beat) → LifecycleStep db (record_legacy_heartbeat host b db).1
    noted :
        (evidence : List EvidenceRow) (intakes : List Intake) (events : List Event)
        → LifecycleStep db (record db { evidence = evidence; intakes = intakes; events = events })

  pub data Reachable : Database → Type 0 where
    start : Reachable empty_database
    step : {db db' : Database} → Reachable db → LifecycleStep db db' → Reachable db'

  abbrev Changed : Database → Database → Type 0
  Changed db db' = Changes (core db) (core db')

  pub apply-Changes :
      (c : LifecycleCall) (db : Database)
      → Distinct db.executions
      → Changes (core db) (core (apply host c db).1)
  apply-Changes c db k =
      Atomic-after (apply host c) (Changed db)
        (Atomic-mono (apply_lem host c db k) λ r db' o. outcome-Changes o.2) none_yet

  insert_version-core : (k : String) (db : Database) → core (insert_version k db) ≡ core db
  unfolding insert_version
  insert_version-core k db = elim (Bool-cases (is_some (find k db.versions))) [
    | inl b ↦ rw b refl
    | inr b ↦ rw b refl
  ]

  pub insert_engine_task-Changes :
      (t : EngineTask) (db : Database) → Changes (core db) (core (insert_engine_task t db).1)
  unfolding insert_engine_task
  insert_engine_task-Changes t db =
      Atomic-after (insert_engine_task t) (Changed db)
        (Atomic-check _ _ _ λ free.
          Atomic-modify_last _ (one (task_added t (free_key _ free) (insert_version-core t.id _))))
        none_yet

  -- lifecycle_completion_guard
  completes :
      (k state : String) (t : EngineTask) (db : Database)
      → t.id ≡ k
      → (not (state == "DONE" && not (is_done t)) || may_complete t db) ≡ true
      → (AllResolved k (core db) × AllFinished k (core db))
        ⊎ (is_done t ≡ false → is_done (with_state state t) ≡ false)
  unfolding is_done may_complete has_unresolved_handoff has_unfinished_execution opt_eq
  completes k state t db same guard = elim (Bool-cases (may_complete t db)) [
    | inl b ↦ inl (
      subst (λ j. AllResolved j (core db)) same (not-true _ (&&-left _ _ (&&-left _ _ b))),
      subst (λ j. AllFinished j (core db)) same (not-true _ (&&-right _ _ (&&-left _ _ b))),
    )
    | inr b ↦ inr λ undone. idle_state (state == "DONE") _ _ undone b guard
  ]

  -- lifecycle_managed_enqueue_guard
  may_fly :
      (r : ManagedRun) (db : Database)
      → (not (is_in_flight r.status)
          || not (has_unfinished_execution r.task_id db || has_unresolved_handoff r.task_id db))
        ≡ true
      → is_in_flight r.status ≡ true
      → AllFinished r.task_id (core db)
  unfolding has_unfinished_execution
  may_fly r db guard flies = free_flight _ _ (has_unresolved_handoff r.task_id db) flies guard

  pub update_state-Changes :
      (task_id state : String) (db : Database)
      → Changes (core db) (core (update_state task_id state db).1)
  unfolding update_state update_engine_task
  update_state-Changes task_id state db =
      Atomic-after (update_state task_id state) (Changed db)
        (Atomic-fetch _ _ _ λ t here. Atomic-check _ _ _ λ guard. Atomic-modify_last _ (
          one (
            task_written task_id (with_state state) t (λ x. refl) here
              (completes task_id state t db (key-find db.tasks task_id here) guard) refl)))
        none_yet

  pub insert_managed_run-Changes :
      (r : ManagedRun) (db : Database) → Changes (core db) (core (insert_managed_run r db).1)
  unfolding insert_managed_run has_unfinished_execution
  insert_managed_run-Changes r db =
      Atomic-after (insert_managed_run r) (Changed db)
        (Atomic-check _ _ _ λ free. Atomic-check _ _ _ λ guard.
          Atomic-modify_last _
            (one (run_added r (free_key _ free) (λ flies. may_fly r db guard flies) refl)))
        none_yet

  pub step-Changes :
      (db db' : Database)
      → Distinct db.executions
      → LifecycleStep db db'
      → Changes (core db) (core db')
  unfolding update_engine_task
  step-Changes db db' k (called c) = apply-Changes c db k
  step-Changes db db' k (task_inserted t) = insert_engine_task-Changes t db
  step-Changes db db' k (state_written id state) = update_state-Changes id state db
  step-Changes db db' k (task_edited g t same keeps here) =
      one (task_written t.id g t same here (inr keeps) refl)
  step-Changes db db' k (run_inserted r) = insert_managed_run-Changes r db
  step-Changes db db' k (run_moved r status here flying) =
      one (run_written r.id _ r (λ x. refl) (λ x. refl) here (λ _. flying) refl)
  step-Changes db db' k (beat b) = heartbeat-Changes host b db
  step-Changes db db' k (noted evidence intakes events) = none_yet

  -- the empty database has an owner for nothing
  empty-Responsible : Responsible (core empty_database)
  empty-Responsible = record {
    distinct = tt;
    executions_linked = λ i e h. absurd (find-empty i h);
    executions_settled = λ i e t h. absurd (find-empty i h);
    handoffs_linked = λ i e h. absurd (find-empty i h);
    handoffs_settled = λ i e t h. absurd (find-empty i h);
    exclusive = λ i j e r h. absurd (find-empty i h);
  }

  pub Reachable-Responsible : (db : Database) → Reachable db → Responsible (core db)
  Reachable-Responsible db start = empty-Responsible
  Reachable-Responsible db (step {db = old} r s) =
      let v = Reachable-Responsible old r in
      Changes-Responsible (core old) (core db) (step-Changes old db v.distinct s) v
