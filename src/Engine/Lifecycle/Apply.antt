-- ===== src/Engine/Lifecycle/Apply.antt =====
-- qingtian_engine/lifecycle.py: `apply`, one call of the lifecycle in one transaction, and the
-- audit event that it records.
use qingtian_ai.Engine.Lifecycle.{
  Database, EngineTask, Host, Request, Response, Version, engine_task_key, execution_key,
  handoff_key, intake_key, managed_run_key, notice_key, version_key,
}
use qingtian_ai.Engine.Lifecycle.Amend.{amend}
use qingtian_ai.Engine.Lifecycle.Audit.{audit, insert_event}
use qingtian_ai.Engine.Lifecycle.Checks.{
  common, identifier, integer_within, reference, require, ◌and_then◌,
}
use qingtian_ai.Engine.Lifecycle.Executions.{
  external_activity, external_finish, external_register, field,
}
use qingtian_ai.Engine.Lifecycle.Guards.{bumped}
use qingtian_ai.Engine.Lifecycle.Handoffs.{
  handoff_accept, handoff_offer, handoff_reject, handoff_resolve,
}
use qingtian_ai.Engine.Lifecycle.Outbox.{outbox_ack, outbox_claim, reconcile}
use qingtian_ai.Engine.Lifecycle.Snapshots.{snapshot}
use qingtian_ai.Engine.Waiting.{lookup}
use qingtian_ai.Exec.{
  Exec, Result, check, fetch, found, integrity_error, lifecycle_error, lift, modify, ok, pure,
  statement, transaction, type_error, ◌>>=◌, ◌>>◌,
}
use qingtian_ai.Json.{Entries, Value, dict, end, str}
use qingtian_ai.Json.Dicts.{get, has_names}
use qingtian_ai.Prelude.{
  Bool, List, Option, String, [], after, any, false, first, if◌then◌else◌, leb, nat_eq, none, not,
  some, true, ℕ, ◌&&◌, ◌++◌, ◌==◌, ◌∷◌,
}
use qingtian_ai.Store.Table.{find, update}

abbrev pub Handler : Type 0
Handler = Host → String → EngineTask → Entries → ℕ → Exec Database Value

abbrev pub actions : List (String × Handler)
actions =
    ("amend", amend)
    ∷ ("external-register", external_register)
    ∷ ("external-activity", external_activity)
    ∷ ("external-finish", external_finish)
    ∷ ("handoff-offer", handoff_offer)
    ∷ ("handoff-accept", handoff_accept)
    ∷ ("handoff-reject", handoff_reject)
    ∷ ("handoff-resolve", handoff_resolve)
    ∷ ("outbox-claim", outbox_claim)
    ∷ ("outbox-ack", outbox_ack)
    ∷ ("reconcile", reconcile)
    ∷ []

-- A call of `apply`, with the time and the identifier or token that it draws.
pub record LifecycleCall : Type 0 where
  pub task_id : String
  pub action : String
  pub payload : Entries
  pub now : ℕ
  pub fresh : String

-- What `apply` has read of a payload before the transaction.
pub record CallHeader : Type 0 where
  pub handler : Handler
  pub expected : ℕ
  pub idempotency_key : String
  pub actor : String
  pub source_ref : String
  pub request_hash : String

unfoldable pub has_request : String → String → Request → Bool
has_request task_id idempotency_key r = r.task_id == task_id && r.idempotency_key == idempotency_key

unfoldable pub prior_request : String → String → Database → Option Request
prior_request task_id idempotency_key db = first (has_request task_id idempotency_key) db.requests

-- UPDATE lifecycle_versions SET revision=revision+1 WHERE task_id=? AND revision=?
abbrev pub bumped_from : ℕ → Version → Version
bumped_from revision v = if nat_eq v.revision revision then bumped v else v

unfoldable pub bump : String → ℕ → Database → Database
bump task_id revision db = record db {
  versions = update task_id (bumped_from revision) db.versions;
}

unfoldable pub insert_request : Request → Exec Database (Unit {0})
insert_request r = do
  check (λ db. not (any (has_request r.task_id r.idempotency_key) db.requests)) integrity_error
  modify (λ db. record db { requests = db.requests ++ r ∷ [] })

-- the encoded request
abbrev pub request_value : LifecycleCall → Value
request_value c = dict (field "action" (str c.action) (field "payload" (dict c.payload) end))

module _ (host : Host) where
  -- the checks of `apply` before the transaction; 2 ** 63 - 1 is the largest revision
  unfoldable pub header : LifecycleCall → Result CallHeader
  header c = identifier host (some (str c.task_id)) and_then λ _.
      found (lifecycle_error "missing") (lookup c.action actions) and_then λ handler.
      require (has_names common c.payload) and_then λ _.
      integer_within 0 9223372036854775807 (get "expected_revision" c.payload) and_then λ expected.
      identifier host (get "idempotency_key" c.payload) and_then λ idempotency_key.
      identifier host (get "actor" c.payload) and_then λ actor.
      reference host (get "source_ref" c.payload) and_then λ source_ref.
      require (leb (host.byte_length (host.dumps (request_value c))) 65536) and_then λ _.
      ok (record {
        handler = handler;
        expected = expected;
        idempotency_key = idempotency_key;
        actor = actor;
        source_ref = source_ref;
        request_hash = host.hash (host.dumps (request_value c));
      })

  -- the request is new: the handler, the revision, the audit event and the stored reply
  unfoldable pub apply_new : LifecycleCall → CallHeader → Exec Database Response
  apply_new c d = do
    t ← fetch (λ db. find c.task_id db.tasks) (lifecycle_error "missing")
    current ← fetch (λ db. find c.task_id db.versions) type_error
    check (λ db. nat_eq current.revision d.expected) (lifecycle_error "stale_revision")
    before ← snapshot host c.now c.task_id
    outcome ← d.handler host c.fresh t c.payload c.now
    modify (bump c.task_id d.expected)
    after ← snapshot host c.now c.task_id
    let response : Response = record {
      task_id = c.task_id;
      action = c.action;
      revision = after.revision;
      reused = false;
      outcome = outcome;
      lifecycle = after;
    }
    insert_event (
        audit host c.task_id c.action d.actor d.source_ref d.idempotency_key c.now before.revision
          after.revision outcome)
    insert_request (record {
      task_id = c.task_id;
      idempotency_key = d.idempotency_key;
      request_json = d.request_hash;
      response = response;
      created_at = c.now;
    })
    pure response

  -- the request is known: its reply again, if it is the same
  unfoldable pub apply_prior : LifecycleCall → CallHeader → Option Request → Exec Database Response
  apply_prior c d none = apply_new c d
  apply_prior c d (some prior) = do
    check (λ db. prior.request_json == d.request_hash) (lifecycle_error "idempotency_conflict")
    pure (record prior.response { reused = true })

  -- `apply`
  unfoldable pub apply : LifecycleCall → Exec Database Response
  apply c = do
    d ← lift (header c)
    transaction (do
      prior ← statement (prior_request c.task_id d.idempotency_key) (λ db. db)
      apply_prior c d prior)
