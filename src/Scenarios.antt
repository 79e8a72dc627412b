-- ===== src/Scenarios.antt =====
-- Small concrete runs of the store, with a codec and engines that are functions by clauses.
pub mod Handover
pub mod Documents
pub mod Dispatching
use qingtian_ai.Contracts.Validate.{matches}
use qingtian_ai.Engine.Lease.{Acquire}
use qingtian_ai.Engine.Lifecycle.Checks.{text}
use qingtian_ai.Engine.Texts.{contains}
use qingtian_ai.Exec.{
  check, fetch, lift, modify, ok, pure, statement, transaction, transition_error, when, ◌>>=◌,
}
use qingtian_ai.Json.{
  Codec, IsFaithful, Items, Value, canonical_json, content_hash, dict, end, entry, is_dict, item,
  nil, null, require_strict_json, str, text_items,
}
use qingtian_ai.Prelude.{
  Bool, List, String, [], any, ap, count, false, first, if◌then◌else◌, is_blank, is_empty, is_id,
  is_sha256, is_some, map, none, opt_eq, refl, some, true, ℕ, ◌++◌, ◌==◌, ◌∷◌, ◌≡◌,
}
use qingtian_ai.Providers.{provider_key}
use qingtian_ai.States.{
  TaskState, active, blocked, in_flight, is_active, is_closing, is_open, is_review, is_running,
  is_unknown, is_unresolved, parse_run_state, parse_session_state, parse_task_state, review_pending,
  run_transition, session_transition, task_transition, unknown,
}
use qingtian_ai.Store.Export.{Export}
use qingtian_ai.Store.Failures.{failure}
use qingtian_ai.Store.Guarantees.{history}
use qingtian_ai.Store.History.{Call, perform, perform_all}
use qingtian_ai.Store.Knowledge.{Engines}
use qingtian_ai.Store.Records.{create_checkpoint, get_checkpoint, new_checkpoint, supersede}
use qingtian_ai.Store.Recovery.{checkpoint_from_row, is_superseded}
use qingtian_ai.Store.Rows.{
  Checkpoint, Db, Evidence, Run, Session, Task, checkpoint_key, empty_db, evidence_key, indexed_key,
  knowledge_key, run_key, session_key, task_key,
}
use qingtian_ai.Store.Runs.{
  coalesce, create_run, either, get_run, has_foreign_run, has_other_unknown_run, has_unknown_run,
  keyed_run, new_run, request_digest, returned_run, reuse_or_insert, run_with_context, start_run,
  starts, transition_run,
}
use qingtian_ai.Store.Sessions.{
  activate, create_session, get_session, has_other_open_session, has_other_session, has_session,
  new_session, recover, session_in_flight, session_with_task, source_valid, transition_session,
}
use qingtian_ai.Store.Statements.{
  absent, insert_checkpoint, insert_run, insert_session, insert_task, validated_id,
}
use qingtian_ai.Store.Table.{find, insert, update}
use qingtian_ai.Store.Tasks.{
  TaskView, create_task, decode_task, get_task, has_open_session, has_unresolved_run, move_task,
  new_task, no_unfinished_work, transition_task, update_task,
}

-- A codec that keeps of a value only whether it is a dict.
abbrev text_of : Bool → String
text_of b = if b then "{}" else "0"

abbrev value_of : Bool → Value
value_of b = if b then dict end else null

abbrev pub toy : Codec
toy = record {
  dumps = λ v. text_of (is_dict v);
  loads = λ s. some (value_of (s == "{}"));
  sha256 = λ s. "0123456789abcdef0123456789abcdef0123456789abcdef0123456789abcdef";
}

toy_reload : (b : Bool) → some (value_of (text_of b == "{}")) ≡ some (value_of b)
toy_reload true = refl
toy_reload false = refl

toy_dict : (b : Bool) → is_dict (value_of b) ≡ b
unfolding is_dict
toy_dict true = refl
toy_dict false = refl

toy_strict : (b : Bool) → require_strict_json (value_of b) ≡ ok tt
unfolding require_strict_json
toy_strict true = refl
toy_strict false = refl

pub toy-IsFaithful : IsFaithful toy
unfolding is_sha256
toy-IsFaithful = record {
  reread = λ v. value_of (is_dict v);
  reloads = λ v _. toy_reload (is_dict v);
  same_text = λ v _. ap text_of (toy_dict (is_dict v));
  still_strict = λ v _. toy_strict (is_dict v);
  still_dict = λ v _. toy_dict (is_dict v);
  hex_digest = λ s. refl;
}

abbrev pub toy_engines : Engines
toy_engines = record {
  matches = λ query rows. some (map (λ r. (r, 0)) rows);
  contains = λ query text. true;
  fromisoformat = λ text. some true;
}

-- a running task with an active session
abbrev pub started : List Call
started =
    Call.create_task "p" "t" "o" ("s" ∷ []) ("a" ∷ []) (some "task_1") 10 "task_x"
    ∷ Call.transition_task "task_1" "READY" 1 11
    ∷ Call.transition_task "task_1" "RUNNING" 2 12
    ∷ Call.create_session "task_1" "host" none (some "session_1") 13 "session_x"
    ∷ Call.transition_session "session_1" "ACTIVE" 14
    ∷ []

-- its run is unknown, and it has two checkpoints
abbrev pub busy : List Call
busy =
    started
    ++ (Call.create_run "task_1" "session_1" "codex" (some "key") none (some "run_1") 15 "run_x"
        ∷ Call.transition_run "run_1" "RUNNING" none 16
        ∷ Call.transition_run "run_1" "UNKNOWN" (some "op") 17
        ∷ Call.create_checkpoint "task_1" (dict end) none (some "checkpoint_1") 18 "checkpoint_x"
        ∷ Call.create_checkpoint "task_1" (dict end) (some "checkpoint_1") (some "checkpoint_2") 19
            "checkpoint_x"
        ∷ [])

-- the run is reconciled, another one planned
abbrev pub working : List Call
working =
    busy
    ++ (Call.transition_run "run_1" "SUCCEEDED" none 20
        ∷ Call.create_run "task_1" "session_1" "codex" none none (some "run_2") 21 "run_x"
        ∷ [])

-- the work is over and the task under review
abbrev pub reviewed : List Call
reviewed =
    working
    ++ (Call.transition_run "run_2" "INTERRUPTED" none 22
        ∷ Call.transition_session "session_1" "QUIESCING" 23
        ∷ Call.transition_session "session_1" "CHECKPOINTED" 24
        ∷ Call.transition_task "task_1" "REVIEW_PENDING" 3 25
        ∷ [])

abbrev pub session_1 : Session
session_1 = record (new_session "session_1" "task_1" "host" 3 none 13) {
  state = active;
  updated_at = 14;
}

abbrev pub run_1 : Run
run_1 = record (new_run "run_1" "task_1" "session_1" 3 "codex" (some "key") none 15) {
  state = unknown;
  external_operation_id = some "op";
  updated_at = 17;
}

abbrev pub run_2 : Run
run_2 = new_run "run_2" "task_1" "session_1" 3 "codex" none none 21

abbrev pub checkpoint_2 : Checkpoint
checkpoint_2 =
    new_checkpoint "checkpoint_2" "task_1" 3 "{}" (toy.sha256 "{}") (some "checkpoint_1") 19

abbrev pub task_1 : Task
task_1 = record (new_task "task_1" "p" "t" "o" "0" "0" 10) {
  state = review_pending;
  revision = 4;
  updated_at = 25;
}

abbrev pub blocked_1 : TaskView
blocked_1 = record {
  row = record task_1 { state = blocked; updated_at = 30 };
  scope = null;
  acceptance = null;
}

abbrev pub noted : Db
noted = record (empty_db true) {
  knowledge =
      record {
        knowledge_id = "knowledge_1";
        project_id = "p";
        scope = "docs";
        classification = "internal";
        kind = "decision";
        title = "cache";
        content = "text";
        source = "adr";
        source_revision = none;
        evidence_label = "SOURCE";
        review_state = "reviewed";
        valid_until = none;
        content_hash = toy.sha256 "{}";
        created_at = 1;
        updated_at = 1;
      }
      ∷ [];
  knowledge_fts = record { knowledge_id = "knowledge_1"; title = "cache"; content = "text" } ∷ [];
}

-- The rows that the runs above lead to, and the first outcome of two calls that meet.
pub scenario_rows :
    (find "session_1" (history toy toy_engines true busy).sessions ≡ some session_1)
    × (find "run_1" (history toy toy_engines true busy).runs ≡ some run_1)
    × (find "checkpoint_2" (history toy toy_engines true busy).checkpoints ≡ some checkpoint_2)
    × (find "run_2" (history toy toy_engines true working).runs ≡ some run_2)
    × (find "task_1" (history toy toy_engines true reviewed).tasks ≡ some task_1)
    × (transition_task toy "task_1" "BLOCKED" 3 30 (history toy toy_engines true started) ≡ (
      ok blocked_1,
      (transition_task toy "task_1" "BLOCKED" 3 30 (history toy toy_engines true started)).1,
    ))
    × (create_run toy "task_1" "session_1" "codex"
          (some "key")
          none
          (some "run_1")
          15
          "run_x"
          (history toy toy_engines true started)
        ≡ (
          ok (new_run "run_1" "task_1" "session_1" 3 "codex" (some "key") none 15),
          (create_run toy "task_1" "session_1" "codex"
              (some "key")
              none
              (some "run_1")
              15
              "run_x"
              (history toy toy_engines true started)).1,
        ))
    × (failure toy toy_engines
          (Call.transition_task "task_1" "DONE" 3 20)
          (history toy toy_engines true started)
        ≡ some transition_error)
unfolding failure perform_all perform ◌>>=◌ pure lift fetch check modify statement when transaction
    find insert update any first count is_empty opt_eq is_some is_blank is_id is_sha256 is_dict
    require_strict_json canonical_json content_hash text_items create_task get_task decode_task
    transition_task update_task no_unfinished_work has_unresolved_run has_open_session move_task
    task_transition parse_task_state is_review is_running create_session get_session recover
    has_session transition_session session_with_task activate has_other_session source_valid
    has_other_open_session session_in_flight is_closing is_open is_active session_transition
    parse_session_state in_flight is_unresolved is_unknown run_transition parse_run_state create_run
    request_digest keyed_run reuse_or_insert returned_run get_run has_unknown_run has_foreign_run
    transition_run run_with_context has_other_unknown_run start_run starts either coalesce
    insert_task insert_session insert_run insert_checkpoint validated_id absent create_checkpoint
    supersede get_checkpoint checkpoint_from_row is_superseded
scenario_rows = (refl, refl, refl, refl, refl, refl, refl, refl)

abbrev pub hello : Items
hello = item (dict (entry (str "role") (str "user") (entry (str "content") (str "hello") end))) nil

abbrev pub acquired_at : String → ℕ → Acquire
acquired_at holder now = record { holder_id = holder; lease_seconds = 45; now = now }

-- a running task, then with its active session, then with an unknown run
abbrev pub desk : Db
desk = record (empty_db true) {
  tasks = record task_1 { state = TaskState.running; revision = 3 } ∷ [];
}

abbrev pub manned : Db
manned = record desk { sessions = session_1 ∷ [] }

abbrev pub waiting : Db
waiting = record manned { runs = run_1 ∷ [] }

abbrev pub evidence_1 : Evidence
evidence_1 = record {
  evidence_id = "evidence_1";
  subject_type = "session";
  subject_id = "session_1";
  result = "passed";
  artifact_hash = none;
  metadata_json = "{}";
  observed_at = 14;
}

abbrev pub observed : Db
observed = record manned { evidence = evidence_1 ∷ [] }

abbrev pub observed_export : Export
observed_export = record {
  task = record {
    row = record task_1 { state = TaskState.running; revision = 3 };
    scope = null;
    acceptance = null;
  };
  sessions = session_1 ∷ [];
  runs = [];
  checkpoints = [];
  evidence = record { row = evidence_1; metadata = dict end } ∷ [];
}
