-- ===== src/Store/Runs.antt =====
-- The run methods of QingtianStore (qingtian_core/store.py). A request is the Python object whose
-- hash the idempotency key is bound to; None stands for no request.
use qingtian_ai.Exec.{
  Exec, Result, check, conflict, err, fetch, found, lift, modify, not_found, ok, pure, statement,
  transaction, transition_error, value_error, when, ◌>>=◌, ◌>>◌,
}
use qingtian_ai.Json.{Codec, Value, content_hash}
use qingtian_ai.Prelude.{
  Bool, Option, String, any, false, first, if◌then◌else◌, is_blank, nat_eq, none, not, opt_eq,
  or_else, some, true, truthy, ℕ, ◌&&◌, ◌==◌, ◌||◌,
}
use qingtian_ai.States.{
  RunState, in_flight, is_active, is_running, is_unknown, parse_run_state, planned, run_transition,
}
use qingtian_ai.Store.Rows.{
  Db, Run, Session, Task, checkpoint_key, evidence_key, indexed_key, knowledge_key, run_key,
  session_key, task_key,
}
use qingtian_ai.Store.Statements.{absent, insert_run, validated_id}
use qingtian_ai.Store.Table.{find, update}

unfoldable pub get_run : String → Exec Db Run
get_run run_id = fetch (λ db. find run_id db.runs) not_found

-- content_hash(request) if request is not None else None
unfoldable pub request_digest : Codec → Option Value → Result (Option String)
request_digest c none = ok none
request_digest c (some request) = hashed (content_hash c request)
  where
    hashed : Result String → Result (Option String)
    hashed (ok text) = ok (some text)
    hashed (err e) = err e

-- the run that a non-empty idempotency key already names
unfoldable pub keyed_run : String → String → Option String → Db → Option Run
keyed_run task_id executor key db =
    if truthy key
    then first (λ r. r.task_id == task_id && r.executor == executor && opt_eq r.idempotency_key key)
        db.runs
    else none

unfoldable pub has_unknown_run : String → Db → Bool
has_unknown_run task_id db = any (λ r. r.task_id == task_id && is_unknown r.state) db.runs

unfoldable pub has_foreign_run : String → String → Db → Bool
has_foreign_run task_id session_id db =
    any (λ r. r.task_id == task_id && not (r.session_id == session_id) && in_flight r.state) db.runs

-- `none` goes on to `get_run`; `some` is the early return of the run that has the key
unfoldable pub reuse_or_insert : Option Run → Run → Task → Session → Exec Db (Option Run)
reuse_or_insert (some existing) new task session = do
  check (λ _. opt_eq existing.request_hash new.request_hash) conflict
  pure (some existing)
reuse_or_insert none new task session = do
  check (λ _. is_running task.state) transition_error
  check (λ _. is_active session.state) transition_error
  check (λ _. nat_eq session.context_revision task.revision) conflict
  check (λ db. not (has_unknown_run new.task_id db)) transition_error
  check (λ db. not (has_foreign_run new.task_id new.session_id db)) transition_error
  insert_run new
  pure none

unfoldable pub returned_run : String → Option Run → Exec Db Run
returned_run id none = get_run id
returned_run id (some existing) = pure existing

-- the row that `create_run` inserts
abbrev pub new_run : String → String → String → ℕ → String → Option String → Option String → ℕ → Run
new_run id task_id session_id revision executor idempotency_key request_hash now = record {
  run_id = id;
  task_id = task_id;
  session_id = session_id;
  input_revision = revision;
  executor = executor;
  state = planned;
  external_operation_id = none;
  idempotency_key = idempotency_key;
  request_hash = request_hash;
  created_at = now;
  updated_at = now;
}

unfoldable pub create_run :
    Codec
    → String
    → String
    → String
    → Option String
    → Option Value
    → Option String
    → ℕ
    → String
    → Exec Db Run
create_run c task_id session_id executor idempotency_key request run_id now fresh = do
  check (λ _. not (is_blank executor)) value_error
  check (λ _. absent idempotency_key || not (is_blank (or_else idempotency_key ""))) value_error
  request_hash ← lift (request_digest c request)
  let id = or_else run_id fresh
  validated_id "run" id
  early ← transaction do
    task ← fetch (λ db. find task_id db.tasks) not_found
    session ← fetch (λ db. find session_id db.sessions) not_found
    check (λ _. session.task_id == task_id) conflict
    existing ← statement (keyed_run task_id executor idempotency_key) (λ db. db)
    reuse_or_insert existing
        (new_run id task_id session_id task.revision executor idempotency_key request_hash now) task
        session
  returned_run id early

-- runs JOIN tasks JOIN sessions, by the run
pub joined : Run → Option Task → Option Session → Option (Run × Task × Session)
joined r (some t) (some s) = some (r, t, s)
joined r _ _ = none

unfoldable pub run_with_context : String → Db → Option (Run × Task × Session)
unfolding joined
run_with_context run_id db = elim (find run_id db.runs) [
  | none ↦ none
  | some r ↦ joined r (find r.task_id db.tasks) (find r.session_id db.sessions)
]

unfoldable pub has_other_unknown_run : String → String → Db → Bool
has_other_unknown_run task_id run_id db =
    any (λ r. r.task_id == task_id && not (r.run_id == run_id) && is_unknown r.state) db.runs

-- the block of `transition_run` for PLANNED to RUNNING
unfoldable pub start_run : String → Run → Task → Session → Exec Db (Unit {0})
start_run run_id r t s = do
  check (λ _. is_running t.state) transition_error
  check (λ _. is_active s.state) transition_error
  check (λ _. nat_eq s.context_revision t.revision) conflict
  check (λ db. not (has_other_unknown_run r.task_id run_id db)) transition_error
  check (λ db. not (has_foreign_run r.task_id r.session_id db)) transition_error

unfoldable pub starts : RunState → RunState → Bool
starts planned RunState.running = true
starts _ _ = false

-- `a or b`, over texts that may be None; COALESCE(a, b)
unfoldable pub either : Option String → Option String → Option String
either a b = if truthy a then a else b

unfoldable pub coalesce : Option String → Option String → Option String
coalesce none b = b
coalesce (some a) b = some a

unfoldable pub transition_run : String → String → Option String → ℕ → Exec Db Run
transition_run run_id target operation now = do
  check (λ _. absent operation || not (is_blank (or_else operation ""))) value_error
  target_state ← lift (found value_error (parse_run_state target))
  transaction do
    (r, t, s) ← fetch (run_with_context run_id) not_found
    check (λ _. run_transition r.state target_state) transition_error
    when (starts r.state target_state) (start_run run_id r t s)
    check
        (λ _. not (
          truthy r.external_operation_id
          && truthy operation
          && not (opt_eq r.external_operation_id operation)))
        conflict
    check (λ _. not (is_unknown target_state) || truthy (either operation r.external_operation_id))
        transition_error
    modify (λ db. record db {
      runs =
          update run_id
            (λ x. record x {
              state = target_state;
              external_operation_id = coalesce operation x.external_operation_id;
              updated_at = now;
            })
            db.runs;
    })
  get_run run_id
