-- ===== src/Engine/Lifecycle/Executions.antt =====
-- qingtian_engine/lifecycle.py: the handlers of the external executions, `_external_register`,
-- `_external_activity`, `_external_finish`, and `_reconcile`.
use qingtian_ai.Engine.Lifecycle.{
  Artifact, Database, EngineTask, Execution, ExecutionStatus, Handoff, HandoffStatus, Host,
  accepted, active_execution, canceled_execution, engine_task_key, execution_key, failed_execution,
  finished_execution, handoff_key, intake_key, managed_run_key, notice_key, version_key,
}
use qingtian_ai.Engine.Lifecycle.Checks.{
  artifacts_of, choice, common, identifier, invalid, reference, shape, string_of, timestamp,
}
use qingtian_ai.Engine.Lifecycle.Guards.{executable, is_unfinished, no_managed_run, owned}
use qingtian_ai.Exec.{
  Exec, Result, check, err, fetch, integrity_error, lifecycle_error, lift, modify, ok, pure, ◌>>=◌,
  ◌>>◌,
}
use qingtian_ai.Json.{Entries, Items, Value, bool, dict, end, entry, item, list, nil, null, str}
use qingtian_ai.Json.Dicts.{get}
use qingtian_ai.Prelude.{
  Bool, List, Option, String, [], any, false, if◌then◌else◌, is_some, leb, ltb, none, not, some,
  true, ℕ, ◌&&◌, ◌++◌, ◌==◌, ◌||◌, ◌∷◌,
}
use qingtian_ai.Store.Table.{find, insert, update}

-- `_handoff`
unfoldable pub handoff_of : Host → EngineTask → Entries → Exec Database Handoff
handoff_of host t p = do
  handoff_id ← lift (identifier host (get "handoff_id" p))
  fetch (λ db. owned (λ h. h.task_id) t.id (find handoff_id db.handoffs))
      (lifecycle_error "missing")

-- `_execution`
unfoldable pub execution_of : Host → EngineTask → Entries → Exec Database Execution
execution_of host t p = do
  execution_id ← lift (identifier host (get "execution_id" p))
  e ←
      fetch (λ db. owned (λ e. e.task_id) t.id (find execution_id db.executions))
        (lifecycle_error "missing")
  check (λ db. is_unfinished e.status) (lifecycle_error "conflict")
  pure e

unfoldable pub is_accepted : HandoffStatus → Bool
is_accepted accepted = true
is_accepted _ = false

-- the time is before that of the acceptance; NULL is refused by `_time`
unfoldable pub predates : ℕ → Option ℕ → Bool
predates seen_at none = true
predates seen_at (some accepted_at) = ltb seen_at accepted_at

-- the block of `_external_register` under `if "handoff_id" in p`, with that test
unfoldable pub bound_handoff :
    Host → EngineTask → Entries → String → ℕ → Bool → Exec Database (Option String)
bound_handoff host t p executor seen_at false = pure none
bound_handoff host t p executor seen_at true = do
  h ← handoff_of host t p
  check (λ db. is_accepted h.status && h.recipient == executor)
      (lifecycle_error "identity_mismatch")
  check (λ db. not (predates seen_at h.accepted_at)) invalid
  pure (some h.id)

abbrev pub artifacts_or_empty : Host → Option Value → Result (List Artifact)
artifacts_or_empty host none = ok []
artifacts_or_empty host (some v) = artifacts_of host false (some v)

unfoldable pub is_registered : String → String → String → String → Database → Bool
is_registered task_id executor thread turn db =
    any
      (λ e.
        e.task_id == task_id
        && e.executor == executor
        && e.source_thread == thread
        && e.source_turn == turn)
      db.executions

unfoldable pub insert_execution : Execution → Exec Database (Unit {0})
insert_execution e = do
  check (λ db. not (is_some (find e.id db.executions))) integrity_error
  modify (λ db. record db { executions = insert e db.executions })

abbrev pub field : String → Value → Entries → Entries
field name v rest = entry (str name) v rest

abbrev pub null_or : Option String → Value
null_or none = null
null_or (some s) = str s

-- `_external_register`; `fresh` is the new identifier
unfoldable pub external_register : Host → String → EngineTask → Entries → ℕ → Exec Database Value
external_register host fresh t p now = do
  lift (
      shape
        (common
          ++ "executor" ∷ "model" ∷ "reasoning" ∷ "speed" ∷ "source_thread" ∷ "source_turn"
            ∷ "last_activity_at" ∷ "activity_ref" ∷ [])
        ("artifacts" ∷ "handoff_id" ∷ []) p)
  executable host t
  no_managed_run t.id
  executor ← lift (identifier host (get "executor" p))
  thread ← lift (identifier host (get "source_thread" p))
  turn ← lift (identifier host (get "source_turn" p))
  model ← lift (choice ("gpt-5.6-sol" ∷ "gpt-6-astra" ∷ []) (get "model" p))
  reasoning ←
      lift (choice ("low" ∷ "medium" ∷ "high" ∷ "xhigh" ∷ "max" ∷ "ultra" ∷ []) (get "reasoning" p))
  speed ← lift (choice ("standard" ∷ "fast" ∷ "priority" ∷ "unknown" ∷ []) (get "speed" p))
  seen_at ← lift (timestamp host (get "last_activity_at" p))
  check (λ db. leb seen_at now) invalid
  activity_ref ← lift (reference host (get "activity_ref" p))
  artifacts ← lift (artifacts_or_empty host (get "artifacts" p))
  handoff_id ← bound_handoff host t p executor seen_at (is_some (get "handoff_id" p))
  check (λ db. not (is_registered t.id executor thread turn db)) (lifecycle_error "conflict")
  insert_execution (record {
    id = fresh;
    task_id = t.id;
    executor = executor;
    model = model;
    reasoning = reasoning;
    speed = speed;
    source_thread = thread;
    source_turn = turn;
    status = active_execution;
    last_activity_at = seen_at;
    activity_ref = activity_ref;
    finished_at = none;
    artifacts = artifacts;
    created_at = now;
    handoff_id = handoff_id;
  })
  pure (
      dict (
        field "execution_id" (str fresh) (
          field "handoff_id" (null_or handoff_id) (
            field "executor" (str executor) (
              field "model" (str model) (
                field "reasoning" (str reasoning) (
                  field "speed" (str speed) (
                    field "source_thread" (str thread) (
                      field "source_turn" (str turn) (
                        field "last_activity_at" (str (host.isoformat seen_at))
                          (field "task_state_changed" (bool false) end)))))))))))

unfoldable pub update_execution : String → (Execution → Execution) → Database → Database
update_execution id f db = record db { executions = update id f db.executions }

abbrev pub observed_execution : ℕ → String → Execution → Execution
observed_execution seen_at activity_ref e = record e {
  status = active_execution;
  last_activity_at = seen_at;
  activity_ref = activity_ref;
}

-- `_external_activity`
unfoldable pub external_activity : Host → String → EngineTask → Entries → ℕ → Exec Database Value
external_activity host fresh t p now = do
  lift (shape (common ++ "execution_id" ∷ "last_activity_at" ∷ "activity_ref" ∷ []) [] p)
  executable host t
  e ← execution_of host t p
  actor ← lift (identifier host (get "actor" p))
  check (λ db. actor == e.executor) (lifecycle_error "identity_mismatch")
  seen_at ← lift (timestamp host (get "last_activity_at" p))
  activity_ref ← lift (reference host (get "activity_ref" p))
  check
      (λ db.
        not (leb seen_at e.last_activity_at || ltb now seen_at || activity_ref == e.activity_ref))
      invalid
  modify (update_execution e.id (observed_execution seen_at activity_ref))
  pure (
      dict (
        field "execution_id" (str e.id) (
          field "before_last_activity_at" (str (host.isoformat e.last_activity_at)) (
            field "last_activity_at" (str (host.isoformat seen_at)) (
              field "activity_ref" (str activity_ref)
                (field "task_state_changed" (bool false) end))))))

unfoldable pub terminal_status : String → Result ExecutionStatus
terminal_status s =
    if s == "finished"
    then ok finished_execution
    else if s == "failed"
    then ok failed_execution
    else if s == "canceled"
    then ok canceled_execution
    else err invalid

-- the artifacts of `_external_finish`: those of the row, and each new one
unfoldable pub merge_artifacts : List Artifact → List Artifact → List Artifact
merge_artifacts old [] = old
merge_artifacts old (a ∷ rest) =
    merge_artifacts
      (if any (λ b. b.ref == a.ref && b.sha256 == a.sha256) old then old else old ++ a ∷ []) rest

abbrev pub finished : ExecutionStatus → ℕ → List Artifact → Execution → Execution
finished status at artifacts e = record e {
  status = status;
  finished_at = some at;
  artifacts = artifacts;
}

unfoldable pub artifact_items : List Artifact → Items
artifact_items [] = nil
artifact_items (a ∷ rest) =
    item (dict (field "ref" (str a.ref) (field "sha256" (str a.sha256) end))) (artifact_items rest)

-- `_external_finish`
unfoldable pub external_finish : Host → String → EngineTask → Entries → ℕ → Exec Database Value
external_finish host fresh t p now = do
  lift (shape (common ++ "execution_id" ∷ "status" ∷ "finished_at" ∷ "artifacts" ∷ []) [] p)
  e ← execution_of host t p
  actor ← lift (identifier host (get "actor" p))
  check (λ db. actor == e.executor || actor == t.owner_session)
      (lifecycle_error "identity_mismatch")
  name ← lift (string_of (get "status" p))
  status ← lift (terminal_status name)
  at ← lift (timestamp host (get "finished_at" p))
  check (λ db. not (ltb at e.last_activity_at || ltb now at)) invalid
  given ← lift (artifacts_of host false (get "artifacts" p))
  modify (update_execution e.id (finished status at (merge_artifacts e.artifacts given)))
  pure (
      dict (
        field "execution_id" (str e.id) (
          field "status" (str name) (
            field "finished_at" (str (host.isoformat at)) (
              field "artifacts" (list (artifact_items (merge_artifacts e.artifacts given))) (
                field "task_state_changed" (bool false)
                  (field "completion_granted" (bool false) end)))))))
