-- ===== src/Engine/Lifecycle.antt =====
-- qingtian_engine/lifecycle.py: the rows of the lifecycle's tables, those of the control plane's
-- tables that it reads or writes, and the replies. Times are numbers of microseconds.
pub mod Checks
pub mod Guards
pub mod Executions
pub mod Handoffs
pub mod Outbox
pub mod Amend
pub mod Snapshots
pub mod Audit
pub mod Apply
pub mod Heartbeat
pub mod Watchdog
pub mod Distinct
pub mod Settled
pub mod Change
pub mod Preserved
pub mod Handlers
pub mod Work
pub mod Calls
pub mod Handled
pub mod Returned
pub mod Accepted
pub mod Beats
pub mod History
pub mod Watched
pub mod Moves
pub mod Promises
pub mod Blockers
pub mod Claims
use qingtian_ai.Engine.Waiting.{TaskRow}
use qingtian_ai.Json.{Entries, Value}
use qingtian_ai.Prelude.{Bool, List, Option, String, ℕ}
use qingtian_ai.Store.Table.{Keyed}

-- lifecycle_handoffs.status, lifecycle_external_executions.status and lifecycle_outbox.status
pub data HandoffStatus : Type 0 where
  offered accepted rejected resolved : HandoffStatus

pub data ExecutionStatus : Type 0 where
  active_execution lost_execution : ExecutionStatus
  finished_execution failed_execution canceled_execution : ExecutionStatus

pub data NoticeStatus : Type 0 where
  pending claimed delivered : NoticeStatus

-- an item of artifacts_json
pub record Artifact : Type 0 where
  pub ref : String
  pub sha256 : String

pub record Version : Type 0 where
  pub task_id : String
  pub revision : ℕ
  pub stage : String

pub record Execution : Type 0 where
  pub id : String
  pub task_id : String
  pub executor : String
  pub model : String
  pub reasoning : String
  pub speed : String
  pub source_thread : String
  pub source_turn : String
  pub status : ExecutionStatus
  pub last_activity_at : ℕ
  pub activity_ref : String
  pub finished_at : Option ℕ
  pub artifacts : List Artifact
  pub created_at : ℕ
  pub handoff_id : Option String

pub record Handoff : Type 0 where
  pub id : String
  pub task_id : String
  pub sender : String
  pub recipient : String
  pub deadline : ℕ
  pub stage : String
  pub next_action : String
  pub artifacts : List Artifact
  pub manifest_sha256 : String
  pub status : HandoffStatus
  pub accepted_at : Option ℕ
  pub rejected_at : Option ℕ
  pub rejection_reason : String
  pub missing_items : List String
  pub resolved_at : Option ℕ
  pub resolution_ref : String
  pub resolution : String
  pub created_at : ℕ

pub record Notice : Type 0 where
  pub id : String
  pub task_id : String
  pub handoff_id : Option String
  pub recipient : String
  pub kind : String
  pub status : NoticeStatus
  pub attempts : ℕ
  pub available_at : ℕ
  pub claimed_by : String
  pub claim_token : String
  pub lease_until : Option ℕ
  pub delivered_at : Option ℕ
  pub delivery_ref : String
  pub created_at : ℕ
  pub dedupe_key : Option String

-- A row of the control plane's tasks, with the columns of `TaskRow` in `row`, and the columns that
-- the lifecycle neither reads nor writes in `others`.
pub record EngineTask : Type 0 where
  pub id : String
  pub row : TaskRow
  pub environment : String
  pub requires_deploy : Bool
  pub owner_session : String
  pub action_due : Option String
  pub execution_mode : String
  pub heartbeat_at : Option ℕ
  pub progress : ℕ
  pub started_at : Option ℕ
  pub model : Option String
  pub reasoning : Option String
  pub speed : Option String
  pub updated_at : ℕ
  pub others : Entries

-- A row of the control plane's runs, evidence, intakes and events.
pub record ManagedRun : Type 0 where
  pub id : String
  pub task_id : String
  pub status : String
  pub attempt : ℕ
  pub pid : Option ℕ
  pub adapter : String
  pub session_id : String

pub record EvidenceRow : Type 0 where
  pub task_id : String
  pub kind : String
  pub verified : Bool

pub record Intake : Type 0 where
  pub id : String
  pub intent : Option String

pub record Event : Type 0 where
  pub task_id : String
  pub event_type : String
  pub producer : String
  pub summary : String
  pub payload : Value
  pub dedupe_key : String
  pub occurred_at : ℕ

-- What `snapshot` returns: the next action, the rows with what is computed of them, and the whole.
pub record NextAction : Type 0 where
  pub owner_kind : Option String
  pub owner : Option String
  pub text : Option String
  pub due : Option String

pub record ExecutionView : Type 0 where
  pub execution : Execution
  pub overdue : Bool
  pub display_status : ExecutionStatus

pub record HandoffView : Type 0 where
  pub handoff : Handoff
  pub execution_ids : List String
  pub execution_started : Bool
  pub start_overdue : Bool
  pub overdue : Bool

pub record Snapshot : Type 0 where
  pub revision : ℕ
  pub stage : String
  pub status : String
  pub next_action : NextAction
  pub external_executions : List ExecutionView
  pub handoffs : List HandoffView
  pub outbox : List Notice
  pub completion_blockers : List String

-- What `apply` returns, and the row of lifecycle_requests that it writes.
pub record Response : Type 0 where
  pub task_id : String
  pub action : String
  pub revision : ℕ
  pub reused : Bool
  pub outcome : Value
  pub lifecycle : Snapshot

pub record Request : Type 0 where
  pub task_id : String
  pub idempotency_key : String
  pub request_json : String
  pub response : Response
  pub created_at : ℕ

-- The database, as far as the lifecycle reads and writes it.
pub record Database : Type 0 where
  pub tasks : List EngineTask
  pub versions : List Version
  pub handoffs : List Handoff
  pub executions : List Execution
  pub outbox : List Notice
  pub requests : List Request
  pub runs : List ManagedRun
  pub evidence : List EvidenceRow
  pub intakes : List Intake
  pub events : List Event

instance abbrev pub engine_task_key : Keyed EngineTask
engine_task_key = record { key = λ r. r.id }

instance abbrev pub version_key : Keyed Version
version_key = record { key = λ r. r.task_id }

instance abbrev pub handoff_key : Keyed Handoff
handoff_key = record { key = λ r. r.id }

instance abbrev pub execution_key : Keyed Execution
execution_key = record { key = λ r. r.id }

instance abbrev pub notice_key : Keyed Notice
notice_key = record { key = λ r. r.id }

instance abbrev pub managed_run_key : Keyed ManagedRun
managed_run_key = record { key = λ r. r.id }

instance abbrev pub intake_key : Keyed Intake
intake_key = record { key = λ r. r.id }

-- What the code takes from elsewhere: str.lower and str.upper, `contains_secret` and `redact_text` of redaction.py,
-- datetime.fromisoformat of a text with Z replaced (an aware time, in UTC), isoformat, json.dumps
-- and the length in UTF-8, hashlib's SHA-256 of a text and of the artifacts' JSON, and the
-- notification's key and fresh identifier.
pub record Host : Type 0 where
  pub lower : String → String
  pub upper : String → String
  pub contains_secret : String → Bool
  pub redact_text : String → String
  pub parse_time : String → Option ℕ
  pub isoformat : ℕ → String
  pub dumps : Value → String
  pub byte_length : String → ℕ
  pub hash : String → String
  pub manifest_hash : List Artifact → String
  pub dedupe_key : List String → String
  pub notice_id : String → String
