-- ===== src/Witnesses/Lifecycle.antt =====
-- The properties of the lifecycle at the run of Scenarios/Handover.antt.
use qingtian_ai.Engine.Lifecycle.{
  EngineTask, Execution, Handoff, ManagedRun, Response, Snapshot, engine_task_key, execution_key,
  handoff_key, intake_key, managed_run_key, notice_key, version_key,
}
use qingtian_ai.Engine.Lifecycle.Accepted.{Outcome, apply_lem}
use qingtian_ai.Engine.Lifecycle.Amend.{
  amend, check_changes, column, columns, due_of, is_owned_action, merged, update_stage,
}
use qingtian_ai.Engine.Lifecycle.Apply.{
  CallHeader, apply, apply_new, apply_prior, bump, has_request, header, insert_request,
  prior_request,
}
use qingtian_ai.Engine.Lifecycle.Audit.{insert_event}
use qingtian_ai.Engine.Lifecycle.Blockers.{blockers_decide}
use qingtian_ai.Engine.Lifecycle.Change.{KeepsHandoff, may_become}
use qingtian_ai.Engine.Lifecycle.Checks.{
  artifact_of, artifacts_of, choice, distinct_refs, each_artifact, each_text, has_dot_part,
  identifier, integer_within, is_alphanumeric, is_identifier_rest, reference, sha, shape, text,
  time_of, timestamp, ◌and_then◌,
}
use qingtian_ai.Engine.Lifecycle.Claims.{claim_exclusive}
use qingtian_ai.Engine.Lifecycle.Executions.{
  artifact_items, bound_handoff, execution_of, external_activity, external_finish,
  external_register, handoff_of, insert_execution, is_accepted, is_registered, merge_artifacts,
  predates, terminal_status, update_execution,
}
use qingtian_ai.Engine.Lifecycle.Guards.{
  executable, has_managed_run, has_unfinished_execution, has_unresolved_handoff, has_verified,
  insert_engine_task, insert_managed_run, insert_or_ignore, insert_version, intake_intent, is_done,
  is_halted, is_in_flight, is_known_notice, is_resolved, is_unfinished, may_complete,
  no_managed_run, notify, owned, update_engine_task, update_state,
}
use qingtian_ai.Engine.Lifecycle.Handoffs.{
  handoff_accept, handoff_offer, handoff_reject, handoff_resolve, insert_handoff, is_offered,
  receipt, rejection, update_handoff,
}
use qingtian_ai.Engine.Lifecycle.History.{Reachable-Responsible, called}
use qingtian_ai.Engine.Lifecycle.Outbox.{
  is_active_execution, is_claimed, is_delivered, is_leased, is_stale, is_started, lose_if,
  lose_stale, notice_of, outbox_ack, outbox_claim, reconcile, report_if, report_overdue,
  update_notice,
}
use qingtian_ai.Engine.Lifecycle.Promises.{
  apply_replayed, done_is_settled, handoff_moves, no_double_execution, second_writer_stale,
}
use qingtian_ai.Engine.Lifecycle.Snapshots.{
  blockers, bound_ids, executions_of, handoff_action, handoffs_of, is_lost_now, is_lost_view,
  is_start_overdue, last, lex_lt, outbox_of, precedes, responsible, snapshot, stalest, status_of,
  unfinished, unresolved, view_handoff,
}
use qingtian_ai.Engine.Policy.{dashed, execution_forbidden, intent_of, normalized_policy}
use qingtian_ai.Engine.Texts.{any_in, contains, lstrip, rstrip, spaced, starts_with, strip, text_or}
use qingtian_ai.Engine.Waiting.{clean, is_paused_by_user, is_plan_only, lookup, pick}
use qingtian_ai.Exec.{
  Error, check, err, fetch, integrity_error, lift, modify, ok, pure, statement, transaction, when,
  ◌>>=◌,
}
use qingtian_ai.Exec.Rules.Rollback.{Atomic}
use qingtian_ai.Json.{Value, null}
use qingtian_ai.Json.Dicts.{count_items, get, has_names, is_this_text, only_names}
use qingtian_ai.Prelude.{
  String, all, any, arith, false, filter, first, if◌then◌else◌, is_blank, is_digit, is_empty,
  is_sha256, is_some, is_space, none, not, opt_eq, order_by, place, refl, some, take, true, ◌&&◌,
  ◌==◌, ◌||◌, ◌≡◌,
}
use qingtian_ai.Scenarios.Handover.{
  accept_call, accepted_db, busy_Reachable, busy_db, claim_fields, claimed_db, done_Reachable,
  done_db, handed_task, inserted_Reachable, inserted_db, offer_call, offered_Reachable, offered_db,
  second_offer, toy_host,
}
use qingtian_ai.Store.Table.{find, insert, update}

-- what the calls of the scenario return and store
record HandoverRun : Type 0 where
  reply : Response
  offer_runs : apply toy_host offer_call inserted_db ≡ (ok reply, offered_db)
  first_header : CallHeader
  first_read : header toy_host offer_call ≡ ok first_header
  second_header : CallHeader
  second_read : header toy_host second_offer ≡ ok second_header
  same_revision : second_header.expected ≡ first_header.expected
  first_unseen : prior_request "t1" first_header.idempotency_key inserted_db ≡ none
  second_unseen : prior_request "t1" second_header.idempotency_key offered_db ≡ none
  handoff : Handoff
  has_handoff : find "h1" offered_db.handoffs ≡ some handoff
  done_task : EngineTask
  has_done_task : find "t1" done_db.tasks ≡ some done_task
  task_done : is_done done_task ≡ true
  execution : Execution
  has_execution : find "e1" busy_db.executions ≡ some execution
  is_working : is_unfinished execution.status ≡ true
  run : ManagedRun
  has_run : find "r1" busy_db.runs ≡ some run
  of_same_task : run.task_id ≡ execution.task_id
  view : Snapshot
  viewed : snapshot toy_host 40 "t1" offered_db ≡ (ok view, offered_db)
  task : EngineTask
  has_task : find "t1" offered_db.tasks ≡ some task
  task_undone : is_done task ≡ false
  grant : Value
  granted :
      outbox_claim toy_host "token" handed_task claim_fields 20 offered_db ≡ (ok grant, claimed_db)
  lease_given : integer_within 1 300 (get "lease_seconds" claim_fields) ≡ ok 60

handover : HandoverRun
unfolding get is_this_text ◌and_then◌ is_alphanumeric is_identifier_rest has_dot_part text
    identifier reference time_of timestamp sha choice only_names has_names shape count_items
    artifact_of each_artifact distinct_refs artifacts_of each_text integer_within is_resolved
    is_unfinished is_in_flight has_unresolved_handoff has_unfinished_execution has_managed_run
    has_verified is_done update_engine_task insert_version insert_engine_task may_complete
    update_state insert_managed_run owned intake_intent is_halted executable is_known_notice
    insert_or_ignore notify no_managed_run handoff_of execution_of is_accepted predates
    bound_handoff is_registered insert_execution external_register update_execution
    external_activity terminal_status merge_artifacts artifact_items external_finish insert_handoff
    update_handoff handoff_offer is_offered rejection receipt handoff_accept handoff_reject
    handoff_resolve is_claimed is_delivered is_leased notice_of update_notice outbox_claim
    outbox_ack is_stale is_active_execution lose_if lose_stale report_if report_overdue is_started
    reconcile due_of merged is_owned_action check_changes update_stage column columns amend lex_lt
    precedes executions_of handoffs_of outbox_of is_lost_now bound_ids is_start_overdue view_handoff
    unresolved unfinished last is_lost_view stalest responsible handoff_action status_of blockers
    snapshot has_request prior_request bump insert_event insert_request header apply_new apply_prior
    apply starts_with contains any_in spaced lstrip rstrip strip text_or lookup pick clean
    is_paused_by_user is_plan_only dashed normalized_policy execution_forbidden intent_of ◌>>=◌ pure
    lift fetch check modify statement when transaction is_some any all filter first is_empty opt_eq
    is_space is_blank is_digit is_sha256 take place order_by find insert update
handover = record {
  reply = _;
  offer_runs = refl;
  first_header = _;
  first_read = refl;
  second_header = _;
  second_read = refl;
  same_revision = refl;
  first_unseen = refl;
  second_unseen = refl;
  handoff = _;
  has_handoff = refl;
  done_task = _;
  has_done_task = refl;
  task_done = refl;
  execution = _;
  has_execution = refl;
  is_working = refl;
  run = _;
  has_run = refl;
  of_same_task = refl;
  view = _;
  viewed = refl;
  task = _;
  has_task = refl;
  task_undone = refl;
  grant = _;
  granted = refl;
  lease_given = refl;
}

done_is_settled_example :
    ((i : String) (h : Handoff)
      → find i done_db.handoffs ≡ some h
      → h.task_id ≡ "t1"
      → is_resolved h.status ≡ true)
    × ((i : String) (e : Execution)
        → find i done_db.executions ≡ some e
        → e.task_id ≡ "t1"
        → is_unfinished e.status ≡ false)
done_is_settled_example =
    done_is_settled toy_host done_db "t1" handover.done_task done_Reachable handover.has_done_task
      handover.task_done

no_double_execution_example : is_in_flight handover.run.status ≡ false
no_double_execution_example =
    no_double_execution toy_host busy_db "e1" "r1" handover.execution handover.run busy_Reachable
      handover.has_execution handover.is_working handover.has_run handover.of_same_task

handoff_moves_example :
    (h' : Handoff) × (find "h1" accepted_db.handoffs ≡ some h')
    × KeepsHandoff handover.handoff h'
    × (may_become handover.handoff.status h'.status ≡ true)
handoff_moves_example =
    handoff_moves toy_host offered_db accepted_db "h1" handover.handoff offered_Reachable
      (called accept_call) handover.has_handoff

apply_replayed_example :
    apply toy_host (record offer_call { now = 99; fresh = "h9" }) offered_db
    ≡ (ok (record handover.reply { reused = true }), offered_db)
apply_replayed_example =
    apply_replayed toy_host offer_call 99 "h9" inserted_db handover.reply offered_db
      inserted_Reachable handover.offer_runs

second_writer_stale_example :
    (x : Error) × (apply toy_host second_offer offered_db ≡ (err x, offered_db))
second_writer_stale_example =
    second_writer_stale toy_host offer_call second_offer handover.first_header
      handover.second_header inserted_db handover.reply offered_db inserted_Reachable
      handover.first_read handover.second_read refl handover.same_revision handover.first_unseen
      handover.second_unseen handover.offer_runs

apply_lem_example : Atomic (apply toy_host offer_call) inserted_db (λ r db'.
    (d : CallHeader) × (header toy_host offer_call ≡ ok d)
    × Outcome toy_host offer_call d inserted_db r db')
apply_lem_example =
    apply_lem toy_host offer_call inserted_db
      (Reachable-Responsible toy_host inserted_db inserted_Reachable).distinct

blockers_decide_example : (update_state "t1" "DONE" offered_db).0 ≡ (
    if is_empty handover.view.completion_blockers
      && (not handover.task.requires_deploy
          || any (λ e. e.task_id == "t1" && e.kind == "deploy" && e.verified) offered_db.evidence
            && any (λ e. e.task_id == "t1" && e.kind == "smoke" && e.verified) offered_db.evidence)
    then ok tt
    else err integrity_error)
blockers_decide_example =
    blockers_decide toy_host 40 "t1" handover.task offered_db handover.view offered_db
      handover.has_task handover.task_undone handover.viewed

claim_exclusive_example : ¬ (
    outbox_claim toy_host "token2" handed_task claim_fields 1000 claimed_db ≡ (ok null, claimed_db))
claim_exclusive_example =
    claim_exclusive toy_host "token" "token2" handed_task handed_task claim_fields claim_fields 20
      1000 60 offered_db claimed_db claimed_db handover.grant null handover.granted refl
      handover.lease_given (omega arith)
