-- ===== src/Store/Tasks.antt =====
-- The task methods of QingtianStore (qingtian_core/store.py). `now` is what `utc_now` returns and
-- `fresh` what `_new_id` would return. Keyword arguments keep their order.
use qingtian_ai.Exec.{
  Exec, Result, check, conflict, err, fetch, found, lift, not_found, ok, statement, transaction,
  transition_error, value_error, when, ◌>>=◌, ◌>>◌,
}
use qingtian_ai.Json.{Codec, Value, canonical_json, list, text_items}
use qingtian_ai.Prelude.{
  Bool, List, Option, String, any, count, if◌then◌else◌, is_blank, is_empty, nat_eq, not, or_else,
  some, ℕ, ◌&&◌, ◌++◌, ◌+◌, ◌==◌, ◌||◌,
}
use qingtian_ai.Providers.{provider_key}
use qingtian_ai.States.{
  TaskState, draft, is_open, is_review, is_unresolved, parse_task_state, task_transition,
}
use qingtian_ai.Store.Rows.{
  Db, Task, checkpoint_key, evidence_key, indexed_key, knowledge_key, run_key, session_key,
  task_key,
}
use qingtian_ai.Store.Statements.{insert_task, validated_id}
use qingtian_ai.Store.Table.{find, update}

-- what `_decode` and `_versioned` make of a row of tasks
pub record TaskView : Type 0 where
  pub row : Task
  pub scope : Value
  pub acceptance : Value

abbrev pub decoded : Task → Option Value → Option Value → Result TaskView
decoded r (some s) (some a) = ok (record { row = r; scope = s; acceptance = a })
decoded r _ _ = err value_error

unfoldable pub decode_task : Codec → Task → Result TaskView
decode_task c r = decoded r (c.loads r.scope_json) (c.loads r.acceptance_json)

unfoldable pub get_task : Codec → String → Exec Db TaskView
get_task c task_id = do
  row ← fetch (λ db. find task_id db.tasks) not_found
  lift (decode_task c row)

-- the row that `create_task` inserts
abbrev pub new_task : String → String → String → String → String → String → ℕ → Task
new_task id project_id title objective scope_json acceptance_json now = record {
  task_id = id;
  project_id = project_id;
  title = title;
  objective = objective;
  scope_json = scope_json;
  acceptance_json = acceptance_json;
  state = draft;
  revision = 1;
  created_at = now;
  updated_at = now;
}

unfoldable pub create_task :
    Codec
    → String
    → String
    → String
    → List String
    → List String
    → Option String
    → ℕ
    → String
    → Exec Db TaskView
create_task c project_id title objective scope acceptance task_id now fresh = do
  check (λ _. not (is_blank project_id || is_blank title || is_blank objective)) value_error
  check (λ _. not (is_empty scope || is_empty acceptance || any is_blank (scope ++ acceptance)))
      value_error
  let id = or_else task_id fresh
  validated_id "task" id
  transaction do
    scope_json ← lift (canonical_json c (list (text_items scope)))
    acceptance_json ← lift (canonical_json c (list (text_items acceptance)))
    insert_task (new_task id project_id title objective scope_json acceptance_json now)
  get_task c id

-- the two queries of `transition_task`, which name any row that stands in the way
unfoldable pub has_unresolved_run : String → Db → Bool
has_unresolved_run task_id db = any (λ r. r.task_id == task_id && is_unresolved r.state) db.runs

unfoldable pub has_open_session : String → Db → Bool
has_open_session task_id db = any (λ s. s.task_id == task_id && is_open s.state) db.sessions

unfoldable pub no_unfinished_work : String → Exec Db (Unit {0})
no_unfinished_work task_id = do
  check (λ db. not (has_unresolved_run task_id db)) transition_error
  check (λ db. not (has_open_session task_id db)) transition_error

unfoldable pub move_task : TaskState → ℕ → ℕ → Task → Task
move_task target expected_revision now r =
    if nat_eq r.revision expected_revision
    then record r { state = target; revision = r.revision + 1; updated_at = now }
    else r

-- UPDATE tasks SET state, revision + 1, updated_at WHERE task_id AND revision, and its rowcount
unfoldable pub update_task : String → TaskState → ℕ → ℕ → Exec Db ℕ
unfolding move_task
update_task task_id target expected_revision now =
    statement
      (λ db. count (λ r. r.task_id == task_id && nat_eq r.revision expected_revision) db.tasks)
      (λ db. record db { tasks = update task_id (move_task target expected_revision now) db.tasks })

unfoldable pub transition_task : Codec → String → String → ℕ → ℕ → Exec Db TaskView
transition_task c task_id target expected_revision now = do
  target_state ← lift (found value_error (parse_task_state target))
  transaction do
    row ← fetch (λ db. find task_id db.tasks) not_found
    check (λ _. nat_eq row.revision expected_revision) conflict
    check (λ _. task_transition row.state target_state) transition_error
    when (is_review target_state) (no_unfinished_work task_id)
    rowcount ← update_task task_id target_state expected_revision now
    check (λ _. nat_eq rowcount 1) conflict
  get_task c task_id
