-- ===== src/Engine/Lifecycle/Guards.antt =====
-- qingtian_engine/lifecycle.py: the queries over the lifecycle's rows, the triggers that guard the
-- control plane's writes, `_executable`, `_no_managed_run` and `_notify`.
use qingtian_ai.Engine.Lifecycle.{
  Database, EngineTask, ExecutionStatus, HandoffStatus, Host, Intake, ManagedRun, Notice, Version,
  active_execution, engine_task_key, execution_key, handoff_key, intake_key, lost_execution,
  managed_run_key, notice_key, pending, resolved, version_key,
}
use qingtian_ai.Engine.Policy.{execution_forbidden}
use qingtian_ai.Engine.Texts.{text_or}
use qingtian_ai.Engine.Waiting.{is_paused_by_user}
use qingtian_ai.Exec.{
  Exec, check, fetch, integrity_error, lifecycle_error, modify, not_found, ◌>>=◌, ◌>>◌,
}
use qingtian_ai.Prelude.{
  Bool, List, Option, String, any, false, if◌then◌else◌, is_some, none, not, opt_eq, some, true, ℕ,
  ◌&&◌, ◌+◌, ◌==◌, ◌||◌, ◌∷◌,
}
use qingtian_ai.Store.Table.{find, insert, update}

unfoldable pub is_resolved : HandoffStatus → Bool
is_resolved resolved = true
is_resolved _ = false

-- status IN ('active','lost')
unfoldable pub is_unfinished : ExecutionStatus → Bool
is_unfinished active_execution = true
is_unfinished lost_execution = true
is_unfinished _ = false

-- status IN ('QUEUED','RUNNING')
unfoldable pub is_in_flight : String → Bool
is_in_flight status = status == "QUEUED" || status == "RUNNING"

unfoldable pub has_unresolved_handoff : String → Database → Bool
has_unresolved_handoff task_id db =
    any (λ h. h.task_id == task_id && not (is_resolved h.status)) db.handoffs

unfoldable pub has_unfinished_execution : String → Database → Bool
has_unfinished_execution task_id db =
    any (λ e. e.task_id == task_id && is_unfinished e.status) db.executions

unfoldable pub has_managed_run : String → Database → Bool
has_managed_run task_id db = any (λ r. r.task_id == task_id && is_in_flight r.status) db.runs

unfoldable pub has_verified : String → String → Database → Bool
has_verified kind task_id db =
    any (λ e. e.task_id == task_id && e.kind == kind && e.verified) db.evidence

unfoldable pub is_done : EngineTask → Bool
is_done t = opt_eq t.row.state (some "DONE")

-- revision=revision+1
abbrev pub bumped : Version → Version
bumped v = record v { revision = v.revision + 1 }

-- UPDATE tasks, with the trigger lifecycle_task_update
unfoldable pub update_engine_task : String → (EngineTask → EngineTask) → Database → Database
update_engine_task task_id f db = record db {
  tasks = update task_id f db.tasks;
  versions = update task_id bumped db.versions;
}

-- the trigger lifecycle_task_insert
unfoldable pub insert_version : String → Database → Database
insert_version task_id db = if is_some (find task_id db.versions) then db else record db {
  versions = insert (record { task_id = task_id; revision = 0; stage = "unassigned" }) db.versions;
}

-- INSERT INTO tasks, with that trigger
unfoldable pub insert_engine_task : EngineTask → Exec Database (Unit {0})
insert_engine_task t = do
  check (λ db. not (is_some (find t.id db.tasks))) integrity_error
  modify (λ db. insert_version t.id (record db { tasks = insert t db.tasks }))

-- the trigger lifecycle_completion_guard
unfoldable pub may_complete : EngineTask → Database → Bool
may_complete t db =
    not (has_unresolved_handoff t.id db)
    && not (has_unfinished_execution t.id db)
    && (not t.requires_deploy || has_verified "deploy" t.id db && has_verified "smoke" t.id db)

abbrev pub with_state : String → EngineTask → EngineTask
with_state state t = record t { row = record t.row { state = some state } }

-- UPDATE tasks SET state=? WHERE id=?, with the two triggers
unfoldable pub update_state : String → String → Exec Database (Unit {0})
update_state task_id state = do
  t ← fetch (λ db. find task_id db.tasks) not_found
  check (λ db. not (state == "DONE" && not (is_done t)) || may_complete t db) integrity_error
  modify (update_engine_task task_id (with_state state))

-- INSERT INTO runs, with the trigger lifecycle_managed_enqueue_guard
unfoldable pub insert_managed_run : ManagedRun → Exec Database (Unit {0})
insert_managed_run r = do
  check (λ db. not (is_some (find r.id db.runs))) integrity_error
  check
      (λ db.
        not (is_in_flight r.status)
        || not (has_unfinished_execution r.task_id db || has_unresolved_handoff r.task_id db))
      integrity_error
  modify (λ db. record db { runs = insert r db.runs })

-- `SELECT * FROM lifecycle_handoffs WHERE task_id=? AND id=?`, and so for the other tables
unfoldable pub owned : {A : Type 0} → (A → String) → String → Option A → Option A
owned task_of task_id none = none
owned task_of task_id (some r) = if task_of r == task_id then some r else none

abbrev pub intent_column : Option Intake → Option String
intent_column none = none
intent_column (some intake) = intake.intent

-- the intent of the intake that the task names
unfoldable pub intake_intent : EngineTask → Database → Option String
intake_intent t db = intent_column (find (text_or t.row.source_request_id "") db.intakes)

-- task["state"] in {"DONE", "CANCELED", "FAILED", "PAUSED"}
unfoldable pub is_halted : Option String → Bool
is_halted state =
    opt_eq state (some "DONE")
    || opt_eq state (some "CANCELED")
    || opt_eq state (some "FAILED")
    || opt_eq state (some "PAUSED")

module _ (host : Host) where
  -- `_executable`
  unfoldable pub executable : EngineTask → Exec Database (Unit {0})
  executable t = do
    check (λ db. not (is_paused_by_user host.lower host.upper t.row)) (lifecycle_error "forbidden")
    check
        (λ db. not (
          is_halted t.row.state
          || is_paused_by_user host.lower host.upper t.row
          || execution_forbidden host.lower host.upper t.row (intake_intent t db)))
        (lifecycle_error "forbidden")

  -- INSERT OR IGNORE INTO lifecycle_outbox: a row with one of the unique keys stays
  unfoldable pub is_known_notice : Notice → Notice → Bool
  is_known_notice n m =
      m.id == n.id
      || is_some m.dedupe_key && opt_eq m.dedupe_key n.dedupe_key
      || is_some m.handoff_id
        && opt_eq m.handoff_id n.handoff_id
        && m.kind == n.kind
        && m.recipient == n.recipient

  unfoldable pub insert_or_ignore : Notice → Database → Database
  insert_or_ignore n db =
      if any (is_known_notice n) db.outbox then db else record db { outbox = insert n db.outbox }

  -- `_notify`; `subject` is subject_id or handoff_id
  unfoldable pub notify :
      String → List String → Option String → String → String → ℕ → Exec Database (Unit {0})
  notify task_id subject handoff_id recipient kind now =
      let dedupe = host.dedupe_key (task_id ∷ recipient ∷ kind ∷ subject) in
      do
        modify (
            insert_or_ignore (record {
              id = host.notice_id dedupe;
              task_id = task_id;
              handoff_id = handoff_id;
              recipient = recipient;
              kind = kind;
              status = pending;
              attempts = 0;
              available_at = now;
              claimed_by = "";
              claim_token = "";
              lease_until = none;
              delivered_at = none;
              delivery_ref = "";
              created_at = now;
              dedupe_key = some dedupe;
            }))
        check (λ db. any (λ n. opt_eq n.dedupe_key (some dedupe)) db.outbox)
            (lifecycle_error "audit_failed")

-- `_no_managed_run`
unfoldable pub no_managed_run : String → Exec Database (Unit {0})
no_managed_run task_id = check (λ db. not (has_managed_run task_id db)) (lifecycle_error "conflict")
