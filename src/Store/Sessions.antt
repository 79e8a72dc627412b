-- ===== src/Store/Sessions.antt =====
-- The session methods of QingtianStore (qingtian_core/store.py).
use qingtian_ai.Exec.{
  Exec, check, conflict, fetch, found, lift, modify, not_found, pure, transaction, transition_error,
  value_error, when, ◌>>=◌, ◌>>◌,
}
use qingtian_ai.Json.{Codec}
use qingtian_ai.Prelude.{
  Bool, Option, String, any, is_blank, is_some, nat_eq, none, not, or_else, some, ℕ, ◌&&◌, ◌==◌,
  ◌||◌,
}
use qingtian_ai.States.{
  created, in_flight, is_active, is_closing, is_open, is_running, parse_session_state,
  session_transition,
}
use qingtian_ai.Store.Recovery.{require_recovery_checkpoint}
use qingtian_ai.Store.Rows.{
  Db, Session, Task, checkpoint_key, evidence_key, indexed_key, knowledge_key, run_key, session_key,
  task_key,
}
use qingtian_ai.Store.Statements.{insert_session, validated_id}
use qingtian_ai.Store.Table.{find, update}
use qingtian_ai.Store.Tasks.{has_open_session}

unfoldable pub get_session : String → Exec Db Session
get_session session_id = fetch (λ db. find session_id db.sessions) not_found

unfoldable pub has_session : String → Db → Bool
has_session task_id db = any (λ s. s.task_id == task_id) db.sessions

unfoldable pub has_run_in_flight : String → Db → Bool
has_run_in_flight task_id db = any (λ r. r.task_id == task_id && in_flight r.state) db.runs

-- the block of `create_session` under `if source_checkpoint_id is not None`
unfoldable pub recover : Codec → Option String → String → ℕ → Exec Db (Unit {0})
recover c none task_id revision = pure tt
recover c (some checkpoint_id) task_id revision = do
  require_recovery_checkpoint c checkpoint_id task_id revision
  check (λ db. not (has_open_session task_id db)) transition_error
  check (λ db. not (has_run_in_flight task_id db)) transition_error

-- the row that `create_session` inserts
abbrev pub new_session : String → String → String → ℕ → Option String → ℕ → Session
new_session id task_id host_alias revision source_checkpoint_id now = record {
  session_id = id;
  task_id = task_id;
  host_alias = host_alias;
  context_revision = revision;
  state = created;
  source_checkpoint_id = source_checkpoint_id;
  created_at = now;
  updated_at = now;
}

unfoldable pub create_session :
    Codec → String → String → Option String → Option String → ℕ → String → Exec Db Session
create_session c task_id host_alias source_checkpoint_id session_id now fresh = do
  check (λ _. not (is_blank host_alias)) value_error
  let id = or_else session_id fresh
  validated_id "session" id
  transaction do
    task ← fetch (λ db. find task_id db.tasks) not_found
    check (λ _. is_running task.state) transition_error
    check (λ db. not (has_session task_id db) || is_some source_checkpoint_id) transition_error
    recover c source_checkpoint_id task_id task.revision
    insert_session (new_session id task_id host_alias task.revision source_checkpoint_id now)
  get_session id

-- sessions JOIN tasks, by the session
unfoldable pub session_with_task : String → Db → Option (Session × Task)
session_with_task session_id db = elim (find session_id db.sessions) [
  | none ↦ none
  | some s ↦ elim (find s.task_id db.tasks) [ none ↦ none | some t ↦ some (s, t) ]
]

unfoldable pub has_other_session : String → String → Db → Bool
has_other_session task_id session_id db =
    any (λ s. s.task_id == task_id && not (s.session_id == session_id)) db.sessions

unfoldable pub has_other_open_session : String → String → Db → Bool
has_other_open_session task_id session_id db =
    any (λ s. s.task_id == task_id && not (s.session_id == session_id) && is_open s.state)
      db.sessions

unfoldable pub session_in_flight : String → Db → Bool
session_in_flight session_id db = any (λ r. r.session_id == session_id && in_flight r.state) db.runs

unfoldable pub source_valid : Codec → Option String → String → ℕ → Exec Db (Unit {0})
source_valid c none task_id revision = pure tt
source_valid c (some checkpoint_id) task_id revision = do
  require_recovery_checkpoint c checkpoint_id task_id revision
  pure tt

-- the block of `transition_session` under `if target_state is SessionState.ACTIVE`
unfoldable pub activate : Codec → String → Session → Task → Exec Db (Unit {0})
unfolding source_valid
activate c session_id s t = do
  check (λ _. is_running t.state) transition_error
  check (λ _. nat_eq s.context_revision t.revision) conflict
  check (λ db. not (has_other_session s.task_id session_id db) || is_some s.source_checkpoint_id)
      transition_error
  source_valid c s.source_checkpoint_id s.task_id t.revision
  check (λ db. not (has_other_open_session s.task_id session_id db)) transition_error

unfoldable pub transition_session : Codec → String → String → ℕ → Exec Db Session
transition_session c session_id target now = do
  target_state ← lift (found value_error (parse_session_state target))
  transaction do
    (s, t) ← fetch (session_with_task session_id) not_found
    check (λ _. session_transition s.state target_state) transition_error
    when (is_active target_state) (activate c session_id s t)
    when (is_closing target_state)
        (check (λ db. not (session_in_flight session_id db)) transition_error)
    modify (λ db. record db {
      sessions =
          update session_id (λ r. record r { state = target_state; updated_at = now }) db.sessions;
    })
  get_session session_id
