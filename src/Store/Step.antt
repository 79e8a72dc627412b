-- ===== src/Store/Step.antt =====
-- The abstract behaviour of the store (qingtian_core/store.py): each way in which a method may
-- change the database, with the facts that its guards have established. A method that raises
-- changes nothing.
use qingtian_ai.Exec.{ok}
use qingtian_ai.Json.{Codec}
use qingtian_ai.Prelude.{
  Option, String, any, false, is_some, none, opt_eq, some, true, truthy, ℕ, ◌≡◌,
}
use qingtian_ai.States.{
  RunState, SessionState, TaskState, created, draft, is_active, is_closing, is_review, is_running,
  is_unknown, planned, run_transition, session_transition, task_transition,
}
use qingtian_ai.Store.Knowledge.{index_knowledge, unindex_knowledge}
use qingtian_ai.Store.Recovery.{CheckpointView, checkpoint_from_row, is_superseded}
use qingtian_ai.Store.Rows.{
  Checkpoint, Db, Evidence, Knowledge, Run, Session, Task, checkpoint_key, evidence_key,
  indexed_key, knowledge_key, run_key, session_key, task_key,
}
use qingtian_ai.Store.Runs.{coalesce, has_foreign_run, has_unknown_run, starts}
use qingtian_ai.Store.Sessions.{has_session, session_in_flight}
use qingtian_ai.Store.Statements.{clashes}
use qingtian_ai.Store.Table.{delete, find, insert, update}
use qingtian_ai.Store.Tasks.{TaskView, decode_task, has_open_session, has_unresolved_run, move_task}

-- What `create_task` adds.
pub record TaskCreated (c : Codec) (db : Db) (r : Task) : Type 0 where
  pub fresh : find r.task_id db.tasks ≡ none
  pub is_draft : r.state ≡ draft
  pub first_revision : r.revision ≡ 1
  pub view : TaskView
  pub readable : decode_task c r ≡ ok view

-- What `transition_task` requires of the row that it moves.
pub record TaskMoved (db : Db) (r : Task) (target : TaskState) : Type 0 where
  pub present : find r.task_id db.tasks ≡ some r
  pub legal : task_transition r.state target ≡ true
  pub runs_settled : is_review target ≡ true → has_unresolved_run r.task_id db ≡ false
  pub sessions_settled : is_review target ≡ true → has_open_session r.task_id db ≡ false

pub record SessionCreated (db : Db) (r : Session) : Type 0 where
  pub fresh : find r.session_id db.sessions ≡ none
  pub task : Task
  pub has_task : find r.task_id db.tasks ≡ some task
  pub task_running : is_running task.state ≡ true
  pub is_created : r.state ≡ created
  pub current : r.context_revision ≡ task.revision
  pub alone : has_open_session r.task_id db ≡ false
  pub sourced : has_session r.task_id db ≡ true → is_some r.source_checkpoint_id ≡ true

pub record SessionMoved (db : Db) (s : Session) (target : SessionState) : Type 0 where
  pub present : find s.session_id db.sessions ≡ some s
  pub task : Task
  pub has_task : find s.task_id db.tasks ≡ some task
  pub legal : session_transition s.state target ≡ true
  pub task_running : is_active target ≡ true → is_running task.state ≡ true
  pub current : is_active target ≡ true → s.context_revision ≡ task.revision
  pub idle : is_closing target ≡ true → session_in_flight s.session_id db ≡ false

pub record RunCreated (db : Db) (r : Run) : Type 0 where
  pub fresh : find r.run_id db.runs ≡ none
  pub task : Task
  pub has_task : find r.task_id db.tasks ≡ some task
  pub session : Session
  pub in_session : find r.session_id db.sessions ≡ some session
  pub same_task : session.task_id ≡ r.task_id
  pub task_running : is_running task.state ≡ true
  pub session_active : is_active session.state ≡ true
  pub current : session.context_revision ≡ task.revision
  pub is_planned : r.state ≡ planned
  pub input_current : r.input_revision ≡ task.revision
  pub no_operation : r.external_operation_id ≡ none
  pub no_unknown : has_unknown_run r.task_id db ≡ false
  pub no_foreign : has_foreign_run r.task_id r.session_id db ≡ false
  pub unclaimed : any (clashes r) db.runs ≡ false

pub record RunMoved (db : Db) (r : Run) (target : RunState) (operation : Option String)
    : Type 0 where
  pub present : find r.run_id db.runs ≡ some r
  pub task : Task
  pub has_task : find r.task_id db.tasks ≡ some task
  pub session : Session
  pub in_session : find r.session_id db.sessions ≡ some session
  pub legal : run_transition r.state target ≡ true
  pub task_running : starts r.state target ≡ true → is_running task.state ≡ true
  pub session_active : starts r.state target ≡ true → is_active session.state ≡ true
  pub current : starts r.state target ≡ true → session.context_revision ≡ task.revision
  pub immutable :
      truthy r.external_operation_id ≡ true
      → truthy operation ≡ true
      → opt_eq r.external_operation_id operation ≡ true
  pub traceable :
      is_unknown target ≡ true → truthy (coalesce operation r.external_operation_id) ≡ true

-- What `create_checkpoint` adds: it can be read back, and it supersedes at most what nothing has
-- superseded yet.
pub record CheckpointCreated (c : Codec) (db : Db) (r : Checkpoint) : Type 0 where
  pub fresh : find r.checkpoint_id db.checkpoints ≡ none
  pub task : Task
  pub has_task : find r.task_id db.tasks ≡ some task
  pub current : r.task_revision ≡ task.revision
  pub view : CheckpointView
  pub readable : checkpoint_from_row c r ≡ ok view
  pub unforked :
      (old : String)
      → r.supersedes ≡ some old
      → truthy (some old) ≡ true
      → (is_superseded old db ≡ false) × is_some (find old db.checkpoints) ≡ true

-- The rows after a transition.
abbrev pub moved_session : SessionState → ℕ → Session → Session
moved_session target now r = record r { state = target; updated_at = now }

abbrev pub moved_run : RunState → Option String → ℕ → Run → Run
moved_run target operation now x = record x {
  state = target;
  external_operation_id = coalesce operation x.external_operation_id;
  updated_at = now;
}

pub data Step (c : Codec) (db db' : Db) : Type 0 where
  unchanged : db' ≡ db → Step c db db'
  task_created :
      (r : Task)
      → TaskCreated c db r
      → db' ≡ record db { tasks = insert r db.tasks }
      → Step c db db'
  task_moved :
      (r : Task) (target : TaskState) (now : ℕ)
      → TaskMoved db r target
      → db' ≡ record db { tasks = update r.task_id (move_task target r.revision now) db.tasks }
      → Step c db db'
  session_created :
      (r : Session)
      → SessionCreated db r
      → db' ≡ record db { sessions = insert r db.sessions }
      → Step c db db'
  session_moved :
      (s : Session) (target : SessionState) (now : ℕ)
      → SessionMoved db s target
      → db' ≡ record db { sessions = update s.session_id (moved_session target now) db.sessions }
      → Step c db db'
  run_created :
      (r : Run) → RunCreated db r → db' ≡ record db { runs = insert r db.runs } → Step c db db'
  run_moved :
      (r : Run) (target : RunState) (operation : Option String) (now : ℕ)
      → RunMoved db r target operation
      → db' ≡ record db { runs = update r.run_id (moved_run target operation now) db.runs }
      → Step c db db'
  checkpoint_created :
      (r : Checkpoint)
      → CheckpointCreated c db r
      → db' ≡ record db { checkpoints = insert r db.checkpoints }
      → Step c db db'
  evidence_added :
      (r : Evidence) → db' ≡ record db { evidence = insert r db.evidence } → Step c db db'
  knowledge_added :
      (r : Knowledge)
      → find r.knowledge_id db.knowledge ≡ none
      → db' ≡ index_knowledge r (record db { knowledge = insert r db.knowledge })
      → Step c db db'
  knowledge_forgotten :
      (id : String)
      → db' ≡ unindex_knowledge id (record db { knowledge = delete id db.knowledge })
      → Step c db db'
