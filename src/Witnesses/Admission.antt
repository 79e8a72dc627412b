-- ===== src/Witnesses/Admission.antt =====
-- The properties of the admissions at the run of Scenarios/Dispatching.antt.
use qingtian_ai.Contracts.Equality.{
  count_entries, dict_entries, entries_equal, eq_float, eq_number, eq_ℤ, is_infinite, items_equal,
  json_equal, list_items, lt_number, number_of, python_equal, same_size, scaled, tuple_items,
}
use qingtian_ai.Engine.Admission.{AdmissionRequest, Receipt}
use qingtian_ai.Engine.Admission.Bindings.{
  binding, binding_of, bound_to, fresh_run, knows_target, queued_or_ambiguous,
}
use qingtian_ai.Engine.Admission.Columns.{
  is_positive, matches_basis, native_basis, picked, task_dict, version_for,
}
use qingtian_ai.Engine.Admission.Confirm.{Confirmed, confirm_lem}
use qingtian_ai.Engine.Admission.Dispatch.{
  coalesced, confirm, decide, decision_for, dispatch, insert_admission_request, is_matching,
  is_prior, is_revision, replay, reserve, reserve_new, reserve_or_replay, run_reserved,
}
use qingtian_ai.Engine.Admission.History.{elsewhere, here, next, reserving}
use qingtian_ai.Engine.Admission.InFlight.{is_in_dispatch, one_dispatch_in_flight}
use qingtian_ai.Engine.Admission.Once.{Dispatches, NeverDispatches, dispatch_cases}
use qingtian_ai.Engine.Admission.Orders.{
  Order, bounded_text, order_of, resume_of, revision_from, with_entry,
}
use qingtian_ai.Engine.Admission.Projections.{
  active_runs, bound_run, executor_shown, has_target, is_accepted_state, is_stale_receipt,
  or_latest, original_in, project, reason_shown, session_of, shown_state, status_shown,
}
use qingtian_ai.Engine.Admission.Reading.{
  dependencies_of, dependency_items, facts, first_true, guard, intent_for, is_release_scope, is_set,
  joined_dependencies, lowered, on_life, run_items, runs_of,
}
use qingtian_ai.Engine.Admission.Receipts.{
  append, in_sequence, insert_receipt, is_latest, is_unconfirmed, max_sequence, original_of,
  receipts_of, unconfirmed,
}
use qingtian_ai.Engine.Admission.Reserve.{Replay}
use qingtian_ai.Engine.Admission.Retry.{retry_replayed}
use qingtian_ai.Engine.Admission.Targets.{capture_target, insert_target, queue_run}
use qingtian_ai.Engine.Lifecycle.{
  engine_task_key, execution_key, handoff_key, intake_key, managed_run_key, notice_key, version_key,
}
use qingtian_ai.Engine.Lifecycle.Checks.{◌and_then◌}
use qingtian_ai.Engine.Lifecycle.Executions.{
  execution_of, handoff_of, insert_execution, is_accepted, is_registered, terminal_status,
  update_execution,
}
use qingtian_ai.Engine.Lifecycle.Guards.{
  has_managed_run, has_unfinished_execution, has_unresolved_handoff, insert_engine_task,
  insert_managed_run, insert_version, is_done, is_in_flight, is_resolved, is_unfinished,
  may_complete, owned, update_engine_task, update_state,
}
use qingtian_ai.Engine.Lifecycle.Handoffs.{insert_handoff, is_offered, update_handoff}
use qingtian_ai.Engine.Lifecycle.Outbox.{
  is_active_execution, is_claimed, is_delivered, is_leased, is_stale, is_started, notice_of,
  update_notice,
}
use qingtian_ai.Engine.Lifecycle.Snapshots.{
  blockers, bound_ids, executions_of, handoff_action, handoffs_of, is_lost_now, is_lost_view,
  is_start_overdue, last, lex_lt, outbox_of, precedes, responsible, snapshot, stalest, status_of,
  unfinished, unresolved, view_handoff,
}
use qingtian_ai.Engine.Policy.{dashed, execution_forbidden, intent_of, normalized_policy}
use qingtian_ai.Engine.Texts.{any_in, contains, lstrip, rstrip, spaced, starts_with, strip, text_or}
use qingtian_ai.Engine.Waiting.{clean, is_paused_by_user, is_plan_only, lookup, pick}
use qingtian_ai.Exec.{
  attempt, check, fetch, is_ok, lift, modify, ok, pure, statement, transaction, when, ◌>>=◌,
}
use qingtian_ai.Exec.Rules.Rollback.{Atomic}
use qingtian_ai.Json.Dicts.{count_items, get, get_at, has_names, is_this_text, only_names}
use qingtian_ai.Prelude.{
  [], all, any, count, filter, first, is_blank, is_digit, is_empty, is_sha256, is_some, is_space,
  map, opt_eq, order_by, place, refl, some, take, ◌∷◌, ◌≡◌, ◌≤◌, ◌⊎◌,
}
use qingtian_ai.Scenarios.Dispatching.{
  all_valid, dispatched_desk, go_call, queueing, start_desk, task_version,
}
use qingtian_ai.Scenarios.Handover.{inserted_db, toy_host}
use qingtian_ai.Store.Table.{find, insert, update}

-- what the call reads and writes
record DispatchRun : Type 0 where
  order : Order
  ordered : order_of toy_host go_call.payload ≡ ok order
  states : map (λ a. a.state) dispatched_desk.receipts ≡ "pending" ∷ "queued" ∷ []
  prior : AdmissionRequest
  known : first (is_prior "t1" order.idempotency_key) dispatched_desk.requests ≡ some prior
  latest : Receipt
  is_last : last dispatched_desk.receipts ≡ some latest

dispatching : DispatchRun
unfolding is_this_text get get_at only_names has_names count_items scaled eq_ℤ number_of eq_number
    lt_number is_infinite eq_float list_items tuple_items dict_entries count_entries same_size
    json_equal python_equal items_equal entries_equal is_resolved is_unfinished is_in_flight
    has_unresolved_handoff has_unfinished_execution has_managed_run is_done update_engine_task
    insert_version insert_engine_task may_complete update_state insert_managed_run owned handoff_of
    execution_of is_accepted is_registered insert_execution update_execution terminal_status
    insert_handoff update_handoff is_offered is_claimed is_delivered is_leased notice_of
    update_notice is_stale is_active_execution is_started lex_lt precedes executions_of handoffs_of
    outbox_of is_lost_now bound_ids is_start_overdue view_handoff unresolved unfinished last
    is_lost_view stalest responsible handoff_action status_of blockers snapshot task_dict picked
    native_basis is_positive matches_basis version_for joined_dependencies dependencies_of runs_of
    dependency_items run_items intent_for on_life facts is_set lowered is_release_scope first_true
    guard max_sequence in_sequence receipts_of original_of insert_receipt append is_latest
    is_unconfirmed unconfirmed active_runs has_target is_accepted_state bound_run is_stale_receipt
    shown_state executor_shown session_of status_shown or_latest original_in reason_shown project
    with_entry bounded_text resume_of revision_from order_of is_prior insert_admission_request
    is_matching is_revision coalesced decision_for replay decide reserve_new reserve_or_replay
    reserve fresh_run knows_target queued_or_ambiguous bound_to binding_of binding confirm
    run_reserved dispatch insert_target capture_target queue_run starts_with contains any_in spaced
    lstrip rstrip strip text_or lookup pick clean is_paused_by_user is_plan_only dashed
    normalized_policy execution_forbidden intent_of ◌and_then◌ ◌>>=◌ pure lift fetch check modify
    statement when transaction is_ok attempt is_some any all filter first is_empty opt_eq is_space
    is_blank is_digit is_sha256 take place order_by find insert update
dispatching = record {
  order = _;
  ordered = refl;
  states = refl;
  prior = _;
  known = refl;
  latest = _;
  is_last = refl;
}

dispatch_cases_example :
    NeverDispatches toy_host all_valid go_call start_desk
    ⊎ ((o : Order) × (order_of toy_host go_call.payload ≡ ok o)
        × Dispatches toy_host all_valid go_call start_desk o)
dispatch_cases_example = dispatch_cases toy_host all_valid go_call start_desk

retry_replayed_example :
    Atomic (dispatch toy_host go_call queueing all_valid) dispatched_desk (λ p db'.
      (db' ≡ dispatched_desk)
      × Replay toy_host all_valid go_call dispatching.order dispatched_desk p)
retry_replayed_example =
    retry_replayed toy_host all_valid go_call queueing dispatched_desk dispatching.order
      dispatching.prior dispatching.ordered dispatching.known

confirm_lem_example :
    Atomic
      (confirm toy_host go_call dispatching.prior dispatching.latest.scope_hash [] (ok (some "r1")))
      dispatched_desk
      (λ p db'.
        Confirmed toy_host go_call dispatching.prior dispatching.latest.scope_hash []
          (ok (some "r1"))
          dispatched_desk
          db')
confirm_lem_example =
    confirm_lem toy_host go_call dispatching.prior dispatching.latest.scope_hash [] (ok (some "r1"))
      dispatched_desk

one_dispatch_in_flight_example :
    count
      (is_in_dispatch "t1"
        (reserve toy_host all_valid go_call dispatching.order start_desk).1.receipts)
      (reserve toy_host all_valid go_call dispatching.order start_desk).1.receipts
    ≤ 1
one_dispatch_in_flight_example =
    one_dispatch_in_flight toy_host
      (next (next here (elsewhere inserted_db [] (task_version ∷ []) []))
        (reserving all_valid go_call dispatching.order))
      "t1"
