-- ===== src/Engine/Admission/Dispatch.antt =====
-- qingtian_engine/admission.py: `dispatch`. The dispatcher and the check of the execution's
-- parameters are arguments, as in the code; what other clients write while the dispatcher runs is
-- among what it does.
use qingtian_ai.Contracts.Validate.{validate}
use qingtian_ai.Engine.Admission.{AdmissionRequest, Desk, Facts, Projection, Receipt}
use qingtian_ai.Engine.Admission.Bindings.{binding}
use qingtian_ai.Engine.Admission.Orders.{Order, order_of}
use qingtian_ai.Engine.Admission.Projections.{active_runs, has_target, is_accepted_state, project}
use qingtian_ai.Engine.Admission.Reading.{facts, guard}
use qingtian_ai.Engine.Admission.Receipts.{Draft, append, receipts_of, unconfirmed}
use qingtian_ai.Engine.Lifecycle.{EngineTask, Host, ManagedRun}
use qingtian_ai.Engine.Lifecycle.Snapshots.{last}
use qingtian_ai.Exec.{
  Exec, Result, admission_error, attempt, check, fetch, index_error, integrity_error, lift, modify,
  pure, statement, transaction, ◌>>=◌, ◌>>◌,
}
use qingtian_ai.Json.{Entries}
use qingtian_ai.Prelude.{
  Bool, List, Option, String, [], any, false, filter, first, if◌then◌else◌, map, nat_eq, none, not,
  opt_eq, some, true, ℕ, ◌&&◌, ◌++◌, ◌==◌, ◌||◌, ◌∷◌,
}
use qingtian_ai.States.{is_open}

-- the arguments of `dispatch`, with the times and the identifiers that are drawn
pub record AdmissionCall : Type 0 where
  pub task_id : String
  pub payload : Entries
  pub now : ℕ
  pub fresh_request : String
  pub fresh_receipt : String
  pub confirmed_at : ℕ
  pub fresh_confirmation : String

-- A dispatcher's result: the `id` of a dict that has one, which is not empty.
abbrev pub Dispatcher : Type 0
Dispatcher = String → String → Bool → Exec Desk (Option String)

-- None is the one that always returns.
abbrev pub Validation : Type 0
Validation = EngineTask → Bool → Result (Unit {0})

unfoldable pub is_prior : String → String → AdmissionRequest → Bool
is_prior task_id idempotency_key r = r.task_id == task_id && r.idempotency_key == idempotency_key

abbrev pub new_request : AdmissionCall → Order → Facts → AdmissionRequest
new_request c o f = record {
  id = c.fresh_request;
  task_id = c.task_id;
  idempotency_key = o.idempotency_key;
  payload_hash = o.payload_hash;
  intent_hash = o.intent_hash;
  source_revision = f.revision;
  created_at = c.now;
}

-- INSERT INTO admission_requests, with its keys and the trigger admission_requests_no_replace
unfoldable pub insert_admission_request : AdmissionRequest → Exec Desk (Unit {0})
insert_admission_request r = do
  check (λ db. not (any (λ q. q.id == r.id || is_prior r.task_id r.idempotency_key q) db.requests))
      integrity_error
  modify (λ db. record db { requests = db.requests ++ r ∷ [] })

-- an earlier receipt that was accepted for the same intent, scope and target, and bound to the run
unfoldable pub is_matching : Host → Order → Facts → ManagedRun → Desk → Receipt → Bool
is_matching host o f run db a =
    a.task_id == f.task.id
    && is_accepted_state a.state
    && any (λ r. r.id == a.request_id && r.intent_hash == o.intent_hash) db.requests
    && a.scope_hash == f.scope_hash
    && a.execution_target_hash == f.execution_target_hash
    && opt_eq a.run_id (some run.id)
    && has_target host f run.id

-- facts["revision"] == expected_revision
unfoldable pub is_revision : Option ℕ → ℕ → Bool
is_revision none n = false
is_revision (some m) n = nat_eq m n

-- the state, the reason and the run of a new request for a task with active runs
unfoldable pub coalesced :
    Host → Order → Facts → Desk → List ManagedRun → Option (String × String × Option ManagedRun)
coalesced host o f db [] = none
coalesced host o f db (run ∷ []) =
    if any (is_matching host o f run db) db.receipts
    then some ("coalesced", "active_run_reused", some run)
    else some ("uncertain", "run_binding_ambiguous", none)
coalesced host o f db (run ∷ another ∷ rest) = some ("uncertain", "run_binding_ambiguous", none)

-- the same of any new request, with what stops it; none if it is to be dispatched
unfoldable pub decision_for :
    Host
    → Order
    → Facts
    → Bool
    → Desk
    → Option (String × String)
    → Option (String × String × Option ManagedRun)
decision_for host o f is_open db (some (state, reason)) = some (state, reason, none)
decision_for host o f true db none = some ("uncertain", "dispatch_already_unconfirmed", none)
decision_for host o f false db none = coalesced host o f db (active_runs f.runs)

abbrev pub decision :
    Host → Order → Facts → Bool → Desk → Option (String × String × Option ManagedRun)
decision host o f is_open db = decision_for host o f is_open db (guard host f)

-- What the first transaction leaves to do: nothing, or the dispatch of the request, with the scope
-- and the runs that it has seen.
pub data Reservation : Type 0 where
  replied : Projection → Reservation
  granted : AdmissionRequest → String → List String → Reservation

abbrev pub entry_of :
    AdmissionCall → AdmissionRequest → Facts → String → String → Option ManagedRun → Draft
entry_of c r f state reason run = record {
  request = r;
  known = f;
  state = state;
  reason = reason;
  run = run;
  now = c.now;
  fresh = c.fresh_receipt;
}

module _ (host : Host) (validate : Validation) (c : AdmissionCall) (o : Order) where
  -- the key is known: its last receipt again, if it is the same payload
  unfoldable pub replay : Facts → AdmissionRequest → Exec Desk Reservation
  replay f prior = do
    check (λ db. prior.payload_hash == o.payload_hash) (admission_error "idempotency")
    a ←
        fetch (λ db. last (filter (λ a. a.request_id == prior.id) (receipts_of c.task_id db)))
          index_error
    p ← project host f (some a) true
    pure (replied p)

  unfoldable pub decide :
      Facts → Option (String × String × Option ManagedRun) → Exec Desk Reservation
  decide f (some (state, reason, run)) = do
    a ← append (entry_of c (new_request c o f) f state reason run)
    p ← project host f (some a) false
    pure (replied p)
  decide f none = do
    lift (validate f.task o.resume)
    append (entry_of c (new_request c o f) f "pending" "dispatch_confirmation_pending" none)
    pure (granted (new_request c o f) f.scope_hash (map (λ r. r.id) f.runs))

  unfoldable pub reserve_new : Facts → Exec Desk Reservation
  reserve_new f = do
    check (λ db. is_revision f.revision o.expected_revision) (admission_error "stale")
    is_open ← statement (unconfirmed c.task_id) (λ db. db)
    insert_admission_request (new_request c o f)
    d ← statement (decision host o f is_open) (λ db. db)
    decide f d

  unfoldable pub reserve_or_replay : Facts → Option AdmissionRequest → Exec Desk Reservation
  reserve_or_replay f (some prior) = replay f prior
  reserve_or_replay f none = reserve_new f

  -- the first transaction
  unfoldable pub reserve : Exec Desk Reservation
  reserve = transaction (do
    f ← facts host c.now c.task_id
    prior ← statement (λ db. first (is_prior c.task_id o.idempotency_key) db.requests) (λ db. db)
    reserve_or_replay f prior)

abbrev pub confirmation_of :
    AdmissionCall → AdmissionRequest → Facts → String × String × Option ManagedRun → Draft
confirmation_of c r f (state, reason, run) = record {
  request = r;
  known = f;
  state = state;
  reason = reason;
  run = run;
  now = c.confirmed_at;
  fresh = c.fresh_confirmation;
}

module _ (host : Host) (c : AdmissionCall) where
  -- the second transaction
  unfoldable pub confirm :
      AdmissionRequest → String → List String → Result (Option String) → Exec Desk Projection
  confirm r scope seen result = transaction (do
    f ← facts host c.confirmed_at c.task_id
    a ← append (confirmation_of c r f (binding host f c.task_id scope seen result))
    project host f (some a) false)

  unfoldable pub run_reserved : Dispatcher → Order → Reservation → Exec Desk Projection
  run_reserved dispatcher o (replied p) = pure p
  run_reserved dispatcher o (granted r scope seen) =
      attempt (dispatcher c.task_id o.instruction o.resume) (confirm r scope seen)

  -- `dispatch`
  unfoldable pub dispatch : Dispatcher → Validation → Exec Desk Projection
  dispatch dispatcher validate = do
    o ← lift (order_of host c.payload)
    r ← reserve host validate c o
    run_reserved dispatcher o r
