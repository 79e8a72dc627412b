-- ===== src/Store/Rows.antt =====
-- The rows of the tables that `QingtianStore.initialize` of qingtian_core/store.py creates, column
-- by column. A column that may be NULL is an Option; a state is its enumeration's member; a
-- timestamp of `utc_now` is its number of milliseconds.
use qingtian_ai.Prelude.{ℕ, String, Bool, Option, List, []}
use qingtian_ai.States.{TaskState, SessionState, RunState}
use qingtian_ai.Store.Table.{Keyed}

pub record Task : Type 0 where
  pub task_id : String
  pub project_id : String
  pub title : String
  pub objective : String
  pub scope_json : String
  pub acceptance_json : String
  pub state : TaskState
  pub revision : ℕ
  pub created_at : ℕ
  pub updated_at : ℕ

pub record Session : Type 0 where
  pub session_id : String
  pub task_id : String
  pub host_alias : String
  pub context_revision : ℕ
  pub state : SessionState
  pub source_checkpoint_id : Option String
  pub created_at : ℕ
  pub updated_at : ℕ

pub record Run : Type 0 where
  pub run_id : String
  pub task_id : String
  pub session_id : String
  pub input_revision : ℕ
  pub executor : String
  pub state : RunState
  pub external_operation_id : Option String
  pub idempotency_key : Option String
  pub request_hash : Option String
  pub created_at : ℕ
  pub updated_at : ℕ

pub record Evidence : Type 0 where
  pub evidence_id : String
  pub subject_type : String
  pub subject_id : String
  pub result : String
  pub artifact_hash : Option String
  pub metadata_json : String
  pub observed_at : ℕ

pub record Checkpoint : Type 0 where
  pub checkpoint_id : String
  pub task_id : String
  pub task_revision : ℕ
  pub snapshot_json : String
  pub content_hash : String
  pub supersedes : Option String
  pub created_at : ℕ

pub record Knowledge : Type 0 where
  pub knowledge_id : String
  pub project_id : String
  pub scope : String
  pub classification : String
  pub kind : String
  pub title : String
  pub content : String
  pub source : String
  pub source_revision : Option String
  pub evidence_label : String
  pub review_state : String
  pub valid_until : Option String
  pub content_hash : String
  pub created_at : ℕ
  pub updated_at : ℕ

-- A row of the full-text index. The index has no key of its own: `knowledge_id` is a column.
pub record Indexed : Type 0 where
  pub knowledge_id : String
  pub title : String
  pub content : String

instance abbrev pub task_key : Keyed Task
task_key = record { key = λ r. r.task_id }

instance abbrev pub session_key : Keyed Session
session_key = record { key = λ r. r.session_id }

instance abbrev pub run_key : Keyed Run
run_key = record { key = λ r. r.run_id }

instance abbrev pub evidence_key : Keyed Evidence
evidence_key = record { key = λ r. r.evidence_id }

instance abbrev pub checkpoint_key : Keyed Checkpoint
checkpoint_key = record { key = λ r. r.checkpoint_id }

instance abbrev pub knowledge_key : Keyed Knowledge
knowledge_key = record { key = λ r. r.knowledge_id }

instance abbrev pub indexed_key : Keyed Indexed
indexed_key = record { key = λ r. r.knowledge_id }

-- The database that a connection sees, with the store's `fts_enabled`.
pub record Db : Type 0 where
  pub tasks : List Task
  pub sessions : List Session
  pub runs : List Run
  pub evidence : List Evidence
  pub checkpoints : List Checkpoint
  pub knowledge : List Knowledge
  pub knowledge_fts : List Indexed
  pub fts_enabled : Bool

-- A file that `initialize` has just created.
abbrev pub empty_db : Bool → Db
empty_db fts = record {
  tasks = [];
  sessions = [];
  runs = [];
  evidence = [];
  checkpoints = [];
  knowledge = [];
  knowledge_fts = [];
  fts_enabled = fts;
}
