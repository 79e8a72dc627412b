-- ===== src/Witnesses.antt =====
-- The properties at concrete inputs: a toy codec, and the short runs of Scenarios.antt.
pub mod Engine
pub mod Lifecycle
pub mod Contracts
pub mod Coordinator
pub mod Admission
use qingtian_ai.Exec.{
  check, conflict, err, fetch, lift, modify, ok, pure, statement, transaction, transition_error,
  ◌>>=◌,
}
use qingtian_ai.Json.{item, list, nil, require_strict_json, str}
use qingtian_ai.Json.Strict.{IsJson, strict_iff}
use qingtian_ai.Prelude.{
  All, List, String, [], any, arith, count, false, filter, first, if◌then◌else◌, is_blank, is_id,
  is_some, length, none, order_by, refl, some, true, truthy, ◌&&◌, ◌==◌, ◌↔◌, ◌∷◌, ◌≡◌, ◌≤◌,
}
use qingtian_ai.Prelude.Int.{pos}
use qingtian_ai.Providers.{provider_key}
use qingtian_ai.Scenarios.{
  blocked_1, busy, checkpoint_2, desk, manned, noted, observed, observed_export, reviewed, run_1,
  run_2, scenario_rows, session_1, started, task_1, toy, toy-IsFaithful, toy_engines, waiting,
  working,
}
use qingtian_ai.States.{
  TaskState, created, in_flight, is_active, is_open, is_review, is_running, is_unknown,
  is_unresolved, parse_run_state, parse_task_state, planned, run_transition, succeeded,
}
use qingtian_ai.States.Laws.{is_executing}
use qingtian_ai.Store.Acceptance.{create_run_accepts, create_session_accepts, unknown_resolves}
use qingtian_ai.Store.Consistent.{Consistent}
use qingtian_ai.Store.Export.{Exported, concerns, decode_rows, export_task, export_task_exact}
use qingtian_ai.Store.Failures.{failure_unchanged}
use qingtian_ai.Store.Guarantees.{
  checkpoints_linear, checkpoints_readable, history, history-Consistent, one_open_session,
  review_settled, runs_in_one_session, unknown_traceable,
}
use qingtian_ai.Store.History.{Call, perform, perform-Step}
use qingtian_ai.Store.Knowledge.{
  classification_rank, forget_knowledge, search_knowledge, unindex_knowledge,
}
use qingtian_ai.Store.Races.{create_run_idempotent, second_writer_conflicts}
use qingtian_ai.Store.Records.{decode_evidence, get_checkpoint}
use qingtian_ai.Store.Recovery.{CheckpointView, checkpoint_from_row}
use qingtian_ai.Store.Rows.{
  Knowledge, Run, Session, checkpoint_key, evidence_key, indexed_key, knowledge_key, run_key,
  session_key, task_key,
}
use qingtian_ai.Store.Runs.{
  coalesce, create_run, has_foreign_run, has_unknown_run, keyed_run, new_run, request_digest,
  run_with_context, transition_run,
}
use qingtian_ai.Store.Search.{Allowed, forget_exact, search_within}
use qingtian_ai.Store.Sessions.{create_session, has_session}
use qingtian_ai.Store.Statements.{absent}
use qingtian_ai.Store.Step.{Step}
use qingtian_ai.Store.Table.{find, insert, update}
use qingtian_ai.Store.Tasks.{decode_task, transition_task}

one_open_session_example : ◌≡◌ {A = String} "session_1" "session_1"
unfolding is_open
one_open_session_example =
    one_open_session toy toy_engines toy-IsFaithful true busy "session_1" "session_1" session_1
      session_1 scenario_rows.0 scenario_rows.0 refl refl refl

runs_in_one_session_example :
    (run_2.session_id ≡ run_2.session_id)
    × ((s : Session) × (find run_2.session_id (history toy toy_engines true working).sessions
          ≡ some s)
        × (s.task_id ≡ run_2.task_id)
        × (is_executing s.state ≡ true))
unfolding in_flight
runs_in_one_session_example =
    runs_in_one_session toy toy_engines toy-IsFaithful true working "run_2" "run_2" run_2 run_2
      scenario_rows.3 scenario_rows.3 refl refl refl

review_settled_example :
    ((j : String) (s : Session)
      → find j (history toy toy_engines true reviewed).sessions ≡ some s
      → s.task_id ≡ "task_1"
      → is_open s.state ≡ false)
    × ((j : String) (r : Run)
        → find j (history toy toy_engines true reviewed).runs ≡ some r
        → r.task_id ≡ "task_1"
        → is_unresolved r.state ≡ false)
unfolding is_review
review_settled_example =
    review_settled toy toy_engines toy-IsFaithful true reviewed "task_1" task_1 scenario_rows.4 refl

unknown_traceable_example : truthy run_1.external_operation_id ≡ true
unfolding is_unknown
unknown_traceable_example =
    unknown_traceable toy toy_engines toy-IsFaithful true busy "run_1" run_1 scenario_rows.1 refl

checkpoints_readable_example :
    (v : CheckpointView) × (checkpoint_from_row toy checkpoint_2 ≡ ok v)
    × (get_checkpoint toy "checkpoint_2" (history toy toy_engines true busy)
        ≡ (ok v, history toy toy_engines true busy))
unfolding is_id
checkpoints_readable_example =
    checkpoints_readable toy toy_engines toy-IsFaithful true busy "checkpoint_2" checkpoint_2
      scenario_rows.2 refl

checkpoints_linear_example :
    (◌≡◌ {A = String} "checkpoint_2" "checkpoint_2")
    × (is_some (find "checkpoint_1" (history toy toy_engines true busy).checkpoints) ≡ true)
checkpoints_linear_example =
    checkpoints_linear toy toy_engines toy-IsFaithful true busy "checkpoint_2" "checkpoint_2"
      checkpoint_2 checkpoint_2 "checkpoint_1" scenario_rows.2 scenario_rows.2 refl refl refl

perform-Step_example : Step toy (history toy toy_engines true busy) (
    perform toy toy_engines
      (Call.transition_session "session_1" "QUIESCING" 20)
      (history toy toy_engines true busy))
perform-Step_example =
    perform-Step toy toy_engines toy-IsFaithful (Call.transition_session "session_1" "QUIESCING" 20)
      (history toy toy_engines true busy)
      (history-Consistent toy toy_engines toy-IsFaithful true busy)

second_writer_conflicts_example :
    transition_task toy "task_1" "CANCELLED" 3 40
      (transition_task toy "task_1" "BLOCKED" 3 30 (history toy toy_engines true started)).1
    ≡ (
      err conflict,
      (transition_task toy "task_1" "BLOCKED" 3 30 (history toy toy_engines true started)).1,
    )
unfolding parse_task_state
second_writer_conflicts_example =
    second_writer_conflicts toy "task_1" "BLOCKED" "CANCELLED" 3 30 40
      (history toy toy_engines true started)
      (transition_task toy "task_1" "BLOCKED" 3 30 (history toy toy_engines true started)).1
      blocked_1 (history-Consistent toy toy_engines toy-IsFaithful true started).readable
      scenario_rows.5 refl

create_run_idempotent_example :
    create_run toy "task_1" "session_1" "codex"
      (some "key")
      none
      none
      50
      "run_9"
      (create_run toy "task_1" "session_1" "codex"
        (some "key")
        none
        (some "run_1")
        15
        "run_x"
        (history toy toy_engines true started)).1
    ≡ (
      ok (new_run "run_1" "task_1" "session_1" 3 "codex" (some "key") none 15),
      (create_run toy "task_1" "session_1" "codex"
          (some "key")
          none
          (some "run_1")
          15
          "run_x"
          (history toy toy_engines true started)).1,
    )
unfolding is_id
create_run_idempotent_example =
    create_run_idempotent toy "task_1" "session_1" "codex" (some "key") none (some "run_1") none 15
      50 "run_x" "run_9" (history toy toy_engines true started)
      (create_run toy "task_1" "session_1" "codex" (some "key") none (some "run_1") 15 "run_x"
        (history toy toy_engines true started)).1
      (new_run "run_1" "task_1" "session_1" 3 "codex" (some "key") none 15) refl refl
      scenario_rows.6

search_within_example :
    (answer : List Knowledge) × (search_knowledge toy_engines "p" "cache"
        ("docs" ∷ [])
        "internal"
        (pos 5)
        noted
      ≡ (ok answer, noted))
    × All (Allowed "p" ("docs" ∷ []) 1) answer
    × (length answer ≤ 5)
unfolding classification_rank
search_within_example =
    search_within toy_engines "p" "cache" ("docs" ∷ []) 1 5 "internal" noted refl (omega arith)
      (omega arith)

forget_exact_example :
    (find "knowledge_1" (forget_knowledge "knowledge_1" noted).1.knowledge
      ≡ (if "knowledge_1" == "knowledge_1" then none else find "knowledge_1" noted.knowledge))
    × (find "knowledge_1" (forget_knowledge "knowledge_1" noted).1.knowledge_fts ≡ (
        if noted.fts_enabled && "knowledge_1" == "knowledge_1"
        then none
        else find "knowledge_1" noted.knowledge_fts))
unfolding forget_knowledge ◌>>=◌ transaction statement check modify count unindex_knowledge
forget_exact_example =
    forget_exact "knowledge_1" "knowledge_1" noted (forget_knowledge "knowledge_1" noted).1 refl

failure_unchanged_example :
    perform toy toy_engines
      (Call.transition_task "task_1" "DONE" 3 20)
      (history toy toy_engines true started)
    ≡ history toy toy_engines true started
failure_unchanged_example =
    failure_unchanged toy toy_engines toy-IsFaithful (Call.transition_task "task_1" "DONE" 3 20)
      (history toy toy_engines true started) {error = transition_error}
      (history-Consistent toy toy_engines toy-IsFaithful true started) scenario_rows.7

strict_iff_example :
    (require_strict_json (list (item (str "a") nil)) ≡ ok tt) ↔ IsJson (list (item (str "a") nil))
strict_iff_example = strict_iff (list (item (str "a") nil))

history-Consistent_example : Consistent toy (history toy toy_engines true busy)
history-Consistent_example = history-Consistent toy toy_engines toy-IsFaithful true busy

create_session_accepts_example :
    create_session toy "task_1" "host" none (some "session_1") 13 "session_x" desk ≡ (
      ok (record {
        session_id = "session_1";
        task_id = "task_1";
        host_alias = "host";
        context_revision = 3;
        state = created;
        source_checkpoint_id = none;
        created_at = 13;
        updated_at = 13;
      }),
      record desk {
        sessions =
            insert
              (record {
                session_id = "session_1";
                task_id = "task_1";
                host_alias = "host";
                context_revision = 3;
                state = created;
                source_checkpoint_id = none;
                created_at = 13;
                updated_at = 13;
              })
              [];
      },
    )
unfolding is_blank is_id find is_running has_session any
create_session_accepts_example =
    create_session_accepts toy "task_1" "host" (some "session_1") 13 "session_x" desk
      (record task_1 { state = TaskState.running; revision = 3 }) refl refl refl refl refl refl

create_run_accepts_example :
    create_run toy "task_1" "session_1" "codex" (some "key") none (some "run_2") 21 "run_x" manned
    ≡ (
      ok (record {
        run_id = "run_2";
        task_id = "task_1";
        session_id = "session_1";
        input_revision = 3;
        executor = "codex";
        state = planned;
        external_operation_id = none;
        idempotency_key = some "key";
        request_hash = none;
        created_at = 21;
        updated_at = 21;
      }),
      record manned {
        runs =
            insert
              (record {
                run_id = "run_2";
                task_id = "task_1";
                session_id = "session_1";
                input_revision = 3;
                executor = "codex";
                state = planned;
                external_operation_id = none;
                idempotency_key = some "key";
                request_hash = none;
                created_at = 21;
                updated_at = 21;
              })
              [];
      },
    )
unfolding is_blank is_id find is_running is_active absent request_digest keyed_run first any
    has_unknown_run has_foreign_run
create_run_accepts_example =
    create_run_accepts toy "task_1" "session_1" "codex" (some "key") none (some "run_2") 21 "run_x"
      manned {digest = none} {t = record task_1 { state = TaskState.running; revision = 3 }}
      {s = session_1} refl refl refl refl refl refl refl refl refl refl refl refl refl refl

unknown_resolves_example : transition_run "run_1" "SUCCEEDED" none 30 waiting ≡ (
  ok (record run_1 { state = succeeded; updated_at = 30 }),
  record waiting {
    runs =
        update "run_1"
          (λ x. record x {
            state = succeeded;
            external_operation_id = coalesce none x.external_operation_id;
            updated_at = 30;
          })
          (run_1 ∷ []);
  },
)
unfolding parse_run_state run_with_context find run_transition
unknown_resolves_example =
    unknown_resolves "run_1" "SUCCEEDED" 30 waiting {r = run_1}
      {t = record task_1 { state = TaskState.running; revision = 3 }} {s = session_1} refl refl refl
      refl refl

export_task_exact_example : Exported "task_1" observed observed_export × (observed ≡ observed)
unfolding export_task ◌>>=◌ fetch lift statement pure find decode_task order_by filter decode_rows
    concerns decode_evidence any
export_task_exact_example = export_task_exact toy "task_1" observed observed observed_export refl
