-- ===== src/Engine/Admission/Projections.antt =====
-- qingtian_engine/admission.py: `_project` and `get`.
use qingtian_ai.Engine.Admission.{Desk, Executor, Facts, Projection, Receipt}
use qingtian_ai.Engine.Admission.Columns.{digest_of}
use qingtian_ai.Engine.Admission.Reading.{facts, guard}
use qingtian_ai.Engine.Admission.Receipts.{or_none, reasons, receipts_of, run_id_of, unconfirmed}
use qingtian_ai.Engine.Lifecycle.{Host, ManagedRun}
use qingtian_ai.Engine.Lifecycle.Guards.{is_in_flight}
use qingtian_ai.Engine.Lifecycle.Handoffs.{receipt}
use qingtian_ai.Engine.Lifecycle.Snapshots.{last}
use qingtian_ai.Engine.Waiting.{lookup}
use qingtian_ai.Exec.{Exec, fetch, key_error, statement, ◌>>=◌}
use qingtian_ai.Prelude.{
  Bool, List, Option, String, false, filter, first, if◌then◌else◌, is_empty, is_some, none, not,
  some, true, ℕ, ◌&&◌, ◌==◌, ◌||◌,
}
use qingtian_ai.Providers.{latest}
use qingtian_ai.Store.Guarantees.{history}

-- status in {"QUEUED", "RUNNING"}
unfoldable pub active_runs : List ManagedRun → List ManagedRun
active_runs runs = filter (λ r. is_in_flight r.status) runs

-- the run's target was recorded, and is the one that the facts ask for
unfoldable pub has_target : Host → Facts → String → Bool
has_target host f run_id = elim (first (λ x. x.run_id == run_id) f.run_targets) [
  | none ↦ false
  | some x ↦ digest_of host x.target == f.execution_target_hash
]

unfoldable pub is_accepted_state : String → Bool
is_accepted_state state = state == "queued" || state == "coalesced"

-- the run among the facts that the latest receipt is bound to
unfoldable pub bound_run : Facts → Option Receipt → Option ManagedRun
bound_run f none = none
bound_run f (some a) = elim a.run_id [ none ↦ none | some id ↦ first (λ r. r.id == id) f.runs ]

-- `stale` of `_project`
unfoldable pub is_stale_receipt : Host → Facts → Option Receipt → Bool
is_stale_receipt host f none = false
is_stale_receipt host f (some a) =
    if is_accepted_state a.state
    then (elim (bound_run f (some a)) [
      | none ↦ true
      | some r ↦
          not (a.scope_hash == f.scope_hash)
          || not (a.execution_target_hash == f.execution_target_hash)
          || not (has_target host f r.id)
    ])
    else not (a.basis == f.basis)

-- the state and the reason that are shown: of the guard, else of the latest receipt
unfoldable pub shown_state : Option (String × String) → Bool → Option Receipt → String × String
shown_state (some stop) stale latest = stop
shown_state none true latest = ("uncertain", "receipt_basis_stale")
shown_state none false none = ("saved", "task_saved_no_dispatch_receipt")
shown_state none false (some a) = (a.state, a.reason_code)

unfoldable pub executor_shown : Option ManagedRun → Option Receipt → Option Executor
executor_shown none latest = none
executor_shown (some r) none = none
executor_shown (some r) (some a) = a.executor

unfoldable pub session_of : Option ManagedRun → Option String
session_of none = none
session_of (some r) = or_none (some r.session_id)

unfoldable pub status_shown : Option ManagedRun → Option String
status_shown none = none
status_shown (some r) = some r.status

-- receipt or latest
unfoldable pub or_latest : Option Receipt → Option Receipt → Option Receipt
or_latest none latest = latest
or_latest (some a) latest = some a

unfoldable pub original_in : List Receipt → Option Receipt → Option Receipt
original_in history none = none
original_in history (some a) = first (λ b. b.id == a.original_receipt_id) history

abbrev pub projection :
    Host → Facts → Option Receipt → Bool → String × String × String → Desk → Projection
projection host f receipt reused (owner, action, recovery) db =
    let history = receipts_of f.task.id db in
    let latest = last history in
    let stale = is_stale_receipt host f latest in
    let (state, reason) = shown_state (guard host f) stale latest in
    let bound = bound_run f latest in
    record {
      task_id = f.task.id;
      revision = f.revision;
      current = record {
        receipt = latest;
        state = state;
        reason_code = reason;
        owner_kind = owner;
        declared_owner = or_none f.task.row.action_owner;
        next_action = action;
        recovery_condition = recovery;
        reason_valid = not stale;
        source_revision = f.revision;
        run_id = run_id_of bound;
        executor = executor_shown bound latest;
        session_id = session_of bound;
        run_status = status_shown bound;
      };
      receipt = or_latest receipt latest;
      original_receipt = original_in history (or_latest receipt latest);
      history = history;
      reused = reused;
      basis_stale = stale;
      dependencies = f.dependencies;
      dispatch_allowed =
          is_some f.revision
          && not (is_some (guard host f))
          && not (unconfirmed f.task.id db)
          && is_empty (active_runs f.runs);
    }

unfoldable pub reason_shown : Host → Facts → Desk → String
reason_shown host f db =
    let latest = last (receipts_of f.task.id db) in
    (shown_state (guard host f) (is_stale_receipt host f latest) latest).1

-- `_project`
unfoldable pub project : Host → Facts → Option Receipt → Bool → Exec Desk Projection
project host f receipt reused = do
  words ← fetch (λ db. lookup (reason_shown host f db) reasons) key_error
  statement (projection host f receipt reused words) (λ db. db)

-- `get`
unfoldable pub get_admission : Host → ℕ → String → Exec Desk Projection
get_admission host now task_id = do f ← facts host now task_id; project host f none false
