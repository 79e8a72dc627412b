-- ===== src/Scenarios/Handover.antt =====
-- A small run of the lifecycle: a task is handed over, the handoff is accepted and resolved, and the
-- task is done; and a host that is functions by clauses.
use Prim.Native.String.{◌++◌ as text_append}
use qingtian_ai.Engine.Lifecycle.{Database, EngineTask, Host, ManagedRun}
use qingtian_ai.Engine.Lifecycle.Apply.{LifecycleCall, apply}
use qingtian_ai.Engine.Lifecycle.Executions.{field}
use qingtian_ai.Engine.Lifecycle.Guards.{insert_engine_task, insert_managed_run, update_state}
use qingtian_ai.Engine.Lifecycle.History.{
  Reachable, called, empty_database, run_inserted, start, state_written, step, task_inserted,
}
use qingtian_ai.Engine.Lifecycle.Outbox.{outbox_claim}
use qingtian_ai.Engine.Waiting.{TaskRow}
use qingtian_ai.Json.{Entries, dict, end, int, item, list, nil, str}
use qingtian_ai.Prelude.{List, String, [], false, if◌then◌else◌, none, some, ℕ, ◌==◌, ◌∷◌}
use qingtian_ai.Prelude.Int.{pos}

abbrev digest_text : String
digest_text = "0123456789abcdef0123456789abcdef0123456789abcdef0123456789abcdef"

abbrev joined : List String → String
joined [] = ""
joined (s ∷ rest) = text_append s (text_append "-" (joined rest))

-- a time is written T, or later_T for the 1000th microsecond
abbrev pub toy_host : Host
toy_host = record {
  lower = λ s. s;
  upper = λ s. s;
  contains_secret = λ s. false;
  redact_text = λ s. s;
  parse_time = λ s. some (if s == "later_T" then 1000 else 0);
  isoformat = λ n. "T";
  dumps = λ v. "{}";
  byte_length = λ s. 2;
  hash = λ s. digest_text;
  manifest_hash = λ xs. digest_text;
  dedupe_key = joined;
  notice_id = λ s. s;
}

abbrev pub new_row : TaskRow
new_row = record {
  state = some "PLANNED";
  title = some "release";
  scope_summary = none;
  blocking_reason = none;
  action_owner = none;
  action_owner_kind = some "none";
  action_text = none;
  authorization_policy = none;
  imported_from = none;
  source_request_id = none;
}

abbrev pub handed_task : EngineTask
handed_task = record {
  id = "t1";
  row = new_row;
  environment = "local";
  requires_deploy = false;
  owner_session = "owner";
  action_due = none;
  execution_mode = "manual";
  heartbeat_at = none;
  progress = 20;
  started_at = none;
  model = none;
  reasoning = none;
  speed = none;
  updated_at = 0;
  others = end;
}

abbrev common_fields : ℕ → String → String → Entries → Entries
common_fields revision idempotency_key actor rest = field "expected_revision" (int (pos revision)) (
    field "idempotency_key" (str idempotency_key)
      (field "actor" (str actor) (field "source_ref" (str "chat") rest)))

abbrev pub offer_call : LifecycleCall
offer_call = record {
  task_id = "t1";
  action = "handoff-offer";
  payload = common_fields 0 "k1" "alice" (
      field "recipient" (str "bob") (
        field "deadline" (str "later_T") (
          field "stage" (str "review") (
            field "next_action" (str "check it") (
              field "artifacts"
                (list (
                  item (dict (field "ref" (str "notes") (field "sha256" (str digest_text) end)))
                    nil))
                end)))));
  now = 10;
  fresh = "h1";
}

abbrev pub accept_call : LifecycleCall
accept_call = record {
  task_id = "t1";
  action = "handoff-accept";
  payload =
      common_fields 1 "k2" "bob"
        (field "handoff_id" (str "h1") (field "manifest_sha256" (str digest_text) end));
  now = 20;
  fresh = "";
}

abbrev pub resolve_call : LifecycleCall
resolve_call = record {
  task_id = "t1";
  action = "handoff-resolve";
  payload = common_fields 2 "k3" "alice" (
      field "handoff_id" (str "h1")
        (field "resolution" (str "completed") (field "resolution_ref" (str "notes") end)));
  now = 30;
  fresh = "";
}

abbrev pub inserted_db : Database
inserted_db = (insert_engine_task handed_task empty_database).1

abbrev pub offered_db : Database
offered_db = (apply toy_host offer_call inserted_db).1

abbrev pub accepted_db : Database
accepted_db = (apply toy_host accept_call offered_db).1

abbrev pub resolved_db : Database
resolved_db = (apply toy_host resolve_call accepted_db).1

abbrev pub done_db : Database
done_db = (update_state "t1" "DONE" resolved_db).1

abbrev pub inserted_Reachable : Reachable toy_host inserted_db
inserted_Reachable = step start (task_inserted handed_task)

abbrev pub offered_Reachable : Reachable toy_host offered_db
offered_Reachable = step inserted_Reachable (called offer_call)

abbrev pub done_Reachable : Reachable toy_host done_db
done_Reachable =
    step (step (step offered_Reachable (called accept_call)) (called resolve_call))
      (state_written "t1" "DONE")

-- two more offers, the second of which expects a revision that is gone
abbrev pub second_offer : LifecycleCall
second_offer = record {
  task_id = "t1";
  action = "handoff-offer";
  payload = common_fields 0 "k9" "carol" (
      field "recipient" (str "bob") (
        field "deadline" (str "later_T") (
          field "stage" (str "review") (
            field "next_action" (str "check it") (
              field "artifacts"
                (list (
                  item (dict (field "ref" (str "notes") (field "sha256" (str digest_text) end)))
                    nil))
                end)))));
  now = 10;
  fresh = "h2";
}

abbrev register_call : LifecycleCall
register_call = record {
  task_id = "t1";
  action = "external-register";
  payload = common_fields 0 "k5" "worker" (
      field "executor" (str "worker") (
        field "model" (str "gpt-6-astra") (
          field "reasoning" (str "high") (
            field "speed" (str "fast") (
              field "source_thread" (str "thread") (
                field "source_turn" (str "turn") (
                  field "last_activity_at" (str "early_T")
                    (field "activity_ref" (str "log") end))))))));
  now = 10;
  fresh = "e1";
}

abbrev ended_run : ManagedRun
ended_run = record {
  id = "r1";
  task_id = "t1";
  status = "SUCCEEDED";
  attempt = 1;
  pid = none;
  adapter = "codex";
  session_id = "";
}

abbrev pub busy_db : Database
busy_db = (insert_managed_run ended_run (apply toy_host register_call inserted_db).1).1

abbrev pub busy_Reachable : Reachable toy_host busy_db
busy_Reachable = step (step inserted_Reachable (called register_call)) (run_inserted ended_run)

abbrev pub claim_fields : Entries
claim_fields = common_fields 1 "k6" "courier" (
    field "outbox_id" (str "t1-bob-handoff.offered-h1-") (field "lease_seconds" (int (pos 60)) end))

abbrev pub claimed_db : Database
claimed_db = (outbox_claim toy_host "token" handed_task claim_fields 20 offered_db).1
