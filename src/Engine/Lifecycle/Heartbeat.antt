-- ===== src/Engine/Lifecycle/Heartbeat.antt =====
-- qingtian_engine/lifecycle.py: `record_legacy_heartbeat`, an explicit heartbeat of a task that has
-- nothing in the lifecycle.
use Prim.Native.String.{◌++◌ as text_append}
use qingtian_ai.Engine.Lifecycle.{
  Database, EngineTask, Event, Host, ManagedRun, engine_task_key, execution_key, handoff_key,
  intake_key, managed_run_key, notice_key, version_key,
}
use qingtian_ai.Engine.Lifecycle.Audit.{insert_event}
use qingtian_ai.Engine.Lifecycle.Checks.{text}
use qingtian_ai.Engine.Lifecycle.Executions.{field, null_or}
use qingtian_ai.Engine.Lifecycle.Guards.{executable, is_in_flight, update_engine_task}
use qingtian_ai.Engine.Lifecycle.Snapshots.{snapshot}
use qingtian_ai.Exec.{
  Exec, check, fetch, key_error, lifecycle_error, lift, modify, statement, transaction, when, ◌>>=◌,
  ◌>>◌,
}
use qingtian_ai.Json.{Value, dict, end, str}
use qingtian_ai.Prelude.{
  Bool, List, Option, String, false, filter, first, if◌then◌else◌, is_empty, is_some, ltb, none,
  not, opt_eq, order_by, some, true, ℕ, ◌&&◌, ◌==◌, ◌||◌,
}
use qingtian_ai.Store.Table.{find}

-- The arguments, with the time, the test of a process, and the three identifiers that are drawn.
pub record Beat : Type 0 where
  pub task_id : String
  pub producer : String
  pub execution_mode : String
  pub model : Option String
  pub reasoning : Option String
  pub speed : Option String
  pub process_alive : Option ℕ → Bool
  pub now : ℕ
  pub fresh : ℕ → String

-- ORDER BY attempt DESC LIMIT 1
unfoldable pub latest_run : List ManagedRun → Option ManagedRun
latest_run runs = first (λ r. true) (order_by (λ r q. ltb q.attempt r.attempt) runs)

unfoldable pub managed_in_flight : String → Database → Option ManagedRun
managed_in_flight task_id db =
    latest_run (filter (λ r. r.task_id == task_id && is_in_flight r.status) db.runs)

unfoldable pub is_alive : Beat → Option ManagedRun → Bool
is_alive b none = false
is_alive b (some r) = b.process_alive r.pid

unfoldable pub is_in_state : String → EngineTask → Bool
is_in_state state t = opt_eq t.row.state (some state)

-- "managed" if alive else execution_mode
abbrev pub beat_mode : Beat → Bool → String
beat_mode b alive = if alive then "managed" else b.execution_mode

abbrev pub or_time : Option ℕ → ℕ → Option ℕ
or_time none now = some now
or_time (some at) now = some at

-- the columns that are written if the task was not RUNNING, and if a model is given
abbrev pub started_by_beat : Beat → EngineTask → EngineTask
started_by_beat b t =
    if is_in_state "RUNNING" t
    then t
    else record t { progress = 55; started_at = or_time t.started_at b.now }

abbrev pub relabelled : Beat → EngineTask → EngineTask
relabelled b t =
    if is_some b.model
    then record t {
      model = b.model;
      reasoning = b.reasoning;
      speed = if is_some b.speed then b.speed else t.speed;
    }
    else t

unfoldable pub beaten : Beat → Bool → EngineTask → EngineTask
beaten b alive t = record (relabelled b (started_by_beat b t)) {
  execution_mode = beat_mode b alive;
  heartbeat_at = if alive then none else some b.now;
  row = record t.row { blocking_reason = some ""; state = some "RUNNING" };
  updated_at = b.now;
}

-- `event`
abbrev pub beat_event : Beat → ℕ → String → String → Value → Event
beat_event b n kind summary payload = record {
  task_id = b.task_id;
  event_type = kind;
  producer = b.producer;
  summary = summary;
  payload = payload;
  dedupe_key =
      text_append kind (text_append ":" (text_append b.task_id (text_append ":" (b.fresh n))));
  occurred_at = b.now;
}

unfoldable pub beat_events : Beat → EngineTask → Bool → Exec Database (Unit {0})
beat_events b t alive = do
  when (is_some b.model) (
      insert_event (
        beat_event b 0 "task.execution_model_registered" "已登记本次外部执行配置；历史 Run 保持原记录" (
          dict (
            field "previous_model" (null_or t.model) (
              field "previous_reasoning" (null_or t.reasoning) (
                field "model" (null_or b.model) (
                  field "reasoning" (null_or b.reasoning) (
                    field "speed" (null_or b.speed) (
                      field "source" (str "external-owner") (
                        field "assurance"
                          (str "declared_execution_parameters_not_independent_host_verification")
                          end))))))))))
  when (not (is_in_state "RUNNING" t)) (
      insert_event (
        beat_event b 1 "task.state_changed" "显式执行心跳已登记" (dict (field "state" (str "RUNNING") end))))
  insert_event (
      beat_event b 2 "task.external_heartbeat" "外部执行心跳已更新" (
        dict
          (field "state" (str "RUNNING") (field "execution_mode" (str (beat_mode b alive)) end))))

-- `record_legacy_heartbeat`
unfoldable pub record_legacy_heartbeat : Host → Beat → Exec Database (Unit {0})
record_legacy_heartbeat host b = do
  lift (text host 120 false (some (str b.producer)))
  transaction (do
    t ← fetch (λ db. find b.task_id db.tasks) key_error
    executable host t
    lifecycle ← snapshot host b.now b.task_id
    check (λ db. is_empty lifecycle.completion_blockers && is_empty lifecycle.external_executions)
        (lifecycle_error "conflict")
    run ← statement (managed_in_flight b.task_id) (λ db. db)
    check (λ db. not (is_some b.model && is_some run)) (lifecycle_error "conflict")
    check (λ db. not (is_some run) || is_alive b run) (lifecycle_error "conflict")
    modify (update_engine_task b.task_id (beaten b (is_alive b run)))
    beat_events b t (is_alive b run))
