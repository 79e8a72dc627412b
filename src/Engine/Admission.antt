-- ===== src/Engine/Admission.antt =====
-- qingtian_engine/admission.py: the tables of the dispatch receipts, and what is read of a task to
-- decide on a dispatch. Of operations_clarity.py: `native_basis` and `_version_for`. A receipt and a
-- run's target are rows that their JSON reads back; the assurance, which is one text, is left out.
pub mod Columns
pub mod Reading
pub mod Receipts
pub mod Projections
pub mod Orders
pub mod Bindings
pub mod Dispatch
pub mod Targets
pub mod Reads
pub mod Decisions
pub mod Reserve
pub mod Confirm
pub mod Once
pub mod Retry
pub mod History
pub mod InFlight
use qingtian_ai.Engine.Lifecycle.{Database, EngineTask, ManagedRun}
use qingtian_ai.Json.{Value}
use qingtian_ai.Prelude.{Bool, List, Option, String, ℕ}

-- a row of task_dependencies
pub record Dependency : Type 0 where
  pub task_id : String
  pub depends_on_id : String
  pub relation : String

-- a row of operations_task_versions; `native` is what json.loads reads, none if it raises
pub record TaskVersion : Type 0 where
  pub task_id : String
  pub revision : ℕ
  pub basis_revision : ℕ
  pub present : ℕ
  pub native : Option Value

-- rows of admission_run_targets and admission_requests
pub record RunTarget : Type 0 where
  pub run_id : String
  pub task_id : String
  pub target : Value

pub record AdmissionRequest : Type 0 where
  pub id : String
  pub task_id : String
  pub idempotency_key : String
  pub payload_hash : String
  pub intent_hash : String
  pub source_revision : Option ℕ
  pub created_at : ℕ

-- host_id and person_id are None
pub record Executor : Type 0 where
  pub run_id : String
  pub adapter : String
  pub attempt : ℕ

-- a row of admission_receipts
pub record Receipt : Type 0 where
  pub id : String
  pub sequence : ℕ
  pub request_id : String
  pub task_id : String
  pub idempotency_key : String
  pub source_revision : Option ℕ
  pub request_hash : String
  pub intent_hash : String
  pub recorded_revision : Option ℕ
  pub received_at : ℕ
  pub state : String
  pub reason_code : String
  pub owner_kind : String
  pub declared_owner : Option String
  pub next_action : String
  pub recovery_condition : String
  pub basis : String
  pub scope_hash : String
  pub execution_target_hash : String
  pub run_id : Option String
  pub executor : Option Executor
  pub original_receipt_id : String

-- The database, as far as admissions read and write it. Only `requests` and `receipts` are written
-- here; the triggers forbid every update and deletion of their rows.
pub record Desk : Type 0 where
  pub life : Database
  pub dependencies : List Dependency
  pub versions : List TaskVersion
  pub targets : List RunTarget
  pub requests : List AdmissionRequest
  pub receipts : List Receipt

-- what `_facts` returns, and an item of its dependencies
pub record DependencyFact : Type 0 where
  pub id : String
  pub state : Option String
  pub relation : String

pub record Facts : Type 0 where
  pub task : EngineTask
  pub revision : Option ℕ
  pub basis : String
  pub scope_hash : String
  pub execution_target_hash : String
  pub run_targets : List RunTarget
  pub dependencies : List DependencyFact
  pub runs : List ManagedRun
  pub lifecycle_blockers : List String
  pub forbidden : Bool

-- what `_project` returns, and its current state; `receipt` has the other items of the latest one
pub record Current : Type 0 where
  pub receipt : Option Receipt
  pub state : String
  pub reason_code : String
  pub owner_kind : String
  pub declared_owner : Option String
  pub next_action : String
  pub recovery_condition : String
  pub reason_valid : Bool
  pub source_revision : Option ℕ
  pub run_id : Option String
  pub executor : Option Executor
  pub session_id : Option String
  pub run_status : Option String

pub record Projection : Type 0 where
  pub task_id : String
  pub revision : Option ℕ
  pub current : Current
  pub receipt : Option Receipt
  pub original_receipt : Option Receipt
  pub history : List Receipt
  pub reused : Bool
  pub basis_stale : Bool
  pub dependencies : List DependencyFact
  pub dispatch_allowed : Bool
