-- ===== src/Scenarios/Dispatching.antt =====
-- A small run of the admissions: a task is dispatched, its run is queued, and the call is repeated.
use qingtian_ai.Engine.Admission.{Desk, TaskVersion}
use qingtian_ai.Engine.Admission.Columns.{native_basis, task_dict}
use qingtian_ai.Engine.Admission.Dispatch.{AdmissionCall, Dispatcher, Validation, dispatch}
use qingtian_ai.Engine.Admission.Targets.{queue_run}
use qingtian_ai.Engine.Lifecycle.{ManagedRun}
use qingtian_ai.Engine.Lifecycle.Executions.{field}
use qingtian_ai.Exec.{ok, pure, ◌>>=◌}
use qingtian_ai.Json.{dict, end, int, str}
use qingtian_ai.Prelude.{[], none, some, ◌∷◌}
use qingtian_ai.Prelude.Int.{pos}
use qingtian_ai.Scenarios.Handover.{handed_task, inserted_db, toy_host}

abbrev pub queued_run : ManagedRun
queued_run = record {
  id = "r1";
  task_id = "t1";
  status = "QUEUED";
  attempt = 1;
  pid = none;
  adapter = "codex";
  session_id = "";
}

abbrev pub task_version : TaskVersion
task_version = record {
  task_id = "t1";
  revision = 1;
  basis_revision = 1;
  present = 1;
  native = some (dict (native_basis (task_dict toy_host handed_task)));
}

abbrev pub start_desk : Desk
start_desk = record {
  life = inserted_db;
  dependencies = [];
  versions = task_version ∷ [];
  targets = [];
  requests = [];
  receipts = [];
}

-- a dispatcher that queues the run
abbrev pub queueing : Dispatcher
queueing task_id instruction again = queue_run toy_host queued_run >>= λ _. pure (some "r1")

abbrev pub all_valid : Validation
all_valid t again = ok tt

abbrev pub go_call : AdmissionCall
go_call = record {
  task_id = "t1";
  payload =
      field "instruction" (str "go")
        (field "idempotency_key" (str "k1") (field "expected_revision" (int (pos 1)) end));
  now = 10;
  fresh_request = "q1";
  fresh_receipt = "a1";
  confirmed_at = 20;
  fresh_confirmation = "a2";
}

abbrev pub dispatched_desk : Desk
dispatched_desk = (dispatch toy_host go_call queueing all_valid start_desk).1
