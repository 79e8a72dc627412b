-- ===== src/Engine/Lifecycle/Outbox.antt =====
-- qingtian_engine/lifecycle.py: the outbox, `_outbox_claim` and `_outbox_ack`, and `_reconcile`.
use qingtian_ai.Engine.Lifecycle.{
  Database, EngineTask, Execution, ExecutionStatus, Handoff, Host, Notice, NoticeStatus,
  active_execution, claimed, delivered, engine_task_key, execution_key, handoff_key, intake_key,
  lost_execution, managed_run_key, notice_key, version_key,
}
use qingtian_ai.Engine.Lifecycle.Checks.{common, identifier, integer_within, reference, shape}
use qingtian_ai.Engine.Lifecycle.Executions.{field, is_accepted, null_or, update_execution}
use qingtian_ai.Engine.Lifecycle.Guards.{notify, owned}
use qingtian_ai.Engine.Lifecycle.Handoffs.{is_offered}
use qingtian_ai.Exec.{
  Exec, check, fetch, lifecycle_error, lift, modify, pure, statement, ◌>>=◌, ◌>>◌,
}
use qingtian_ai.Json.{Entries, Items, Value, bool, dict, end, int, item, list, nil, str}
use qingtian_ai.Json.Dicts.{get}
use qingtian_ai.Prelude.{
  Bool, List, Option, String, [], any, false, filter, if◌then◌else◌, ltb, none, not, opt_eq, some,
  true, ℕ, ◌&&◌, ◌*◌, ◌++◌, ◌+◌, ◌==◌, ◌||◌, ◌∷◌,
}
use qingtian_ai.Prelude.Int.{pos}
use qingtian_ai.Store.Table.{find, update}

unfoldable pub is_claimed : NoticeStatus → Bool
is_claimed claimed = true
is_claimed _ = false

unfoldable pub is_delivered : NoticeStatus → Bool
is_delivered delivered = true
is_delivered _ = false

-- _time(item["lease_until"]) > now; a claimed row has a lease
unfoldable pub is_leased : ℕ → Option ℕ → Bool
is_leased now none = false
is_leased now (some until) = ltb now until

unfoldable pub notice_of : Host → EngineTask → Entries → Exec Database Notice
notice_of host t p = do
  outbox_id ← lift (identifier host (get "outbox_id" p))
  fetch (λ db. owned (λ n. n.task_id) t.id (find outbox_id db.outbox)) (lifecycle_error "missing")

unfoldable pub update_notice : String → (Notice → Notice) → Database → Database
update_notice id f db = record db { outbox = update id f db.outbox }

-- the columns of a claim; a lease is in microseconds
abbrev pub claimed_by_actor : String → String → ℕ → Notice → Notice
claimed_by_actor actor token until n = record n {
  status = claimed;
  claimed_by = actor;
  claim_token = token;
  lease_until = some until;
  attempts = n.attempts + 1;
}

-- `_outbox_claim`; `fresh` is the token
unfoldable pub outbox_claim : Host → String → EngineTask → Entries → ℕ → Exec Database Value
outbox_claim host fresh t p now = do
  lift (shape (common ++ "outbox_id" ∷ "lease_seconds" ∷ []) [] p)
  lift (identifier host (get "outbox_id" p))
  seconds ← lift (integer_within 1 300 (get "lease_seconds" p))
  n ← notice_of host t p
  check (λ db. not (is_delivered n.status || is_claimed n.status && is_leased now n.lease_until))
      (lifecycle_error "conflict")
  actor ← lift (identifier host (get "actor" p))
  modify (update_notice n.id (claimed_by_actor actor fresh (now + seconds * 1000000)))
  pure (
      dict (
        field "outbox_id" (str n.id) (
          field "claim_token" (str fresh) (
            field "lease_until" (str (host.isoformat (now + seconds * 1000000))) (
              field "recipient" (str n.recipient) (
                field "kind" (str n.kind) (
                  field "handoff_id" (null_or n.handoff_id)
                    (field "native_delivery" (bool false) end))))))))

abbrev pub delivered_notice : ℕ → String → Notice → Notice
delivered_notice now delivery_ref n = record n {
  status = delivered;
  delivered_at = some now;
  delivery_ref = delivery_ref;
}

-- `_outbox_ack`
unfoldable pub outbox_ack : Host → String → EngineTask → Entries → ℕ → Exec Database Value
outbox_ack host fresh t p now = do
  lift (shape (common ++ "outbox_id" ∷ "claim_token" ∷ "delivery_ref" ∷ []) [] p)
  lift (identifier host (get "outbox_id" p))
  token ← lift (identifier host (get "claim_token" p))
  delivery_ref ← lift (reference host (get "delivery_ref" p))
  n ← notice_of host t p
  actor ← lift (identifier host (get "actor" p))
  check
      (λ db.
        is_claimed n.status
        && actor == n.claimed_by
        && token == n.claim_token
        && is_leased now n.lease_until)
      (lifecycle_error "stale_ack")
  modify (update_notice n.id (delivered_notice now delivery_ref))
  pure (
      dict (
        field "outbox_id" (str n.id) (
          field "delivered" (bool true)
            (field "recipient_accepted" (bool false) (field "native_delivery" (bool false) end)))))

-- _time(item["last_activity_at"]) + timedelta(minutes=15) < now
unfoldable pub is_stale : ℕ → ℕ → Bool
is_stale now last_activity_at = ltb (last_activity_at + 900000000) now

unfoldable pub is_active_execution : ExecutionStatus → Bool
is_active_execution active_execution = true
is_active_execution _ = false

abbrev pub lost : Execution → Execution
lost e = record e { status = lost_execution }

abbrev pub owner_or : String → String → String
owner_or owner executor = if owner == "" then executor else owner

-- the loops of `_reconcile`, each over the rows that its query has returned: the body under its
-- `if`, in front of the later rows, and the loop
unfoldable pub lose_if :
    Host → EngineTask → ℕ → Execution → Exec Database Items → Bool → Exec Database Items
lose_if host t now e later false = later
lose_if host t now e later true = do
  modify (update_execution e.id lost)
  notify host t.id (e.id ∷ host.isoformat e.last_activity_at ∷ []) none
      (owner_or t.owner_session e.executor) "execution.lost" now
  ids ← later
  pure (item (str e.id) ids)

unfoldable pub lose_stale : Host → EngineTask → ℕ → List Execution → Exec Database Items
lose_stale host t now [] = pure nil
lose_stale host t now (e ∷ rest) =
    lose_if host t now e (lose_stale host t now rest) (is_stale now e.last_activity_at)

unfoldable pub report_if :
    Host
    → EngineTask
    → ℕ
    → String
    → String
    → Handoff
    → Exec Database Items
    → Bool
    → Exec Database Items
report_if host t now kind recipient h later false = later
report_if host t now kind recipient h later true = do
  notify host t.id (h.id ∷ []) (some h.id) recipient kind now
  ids ← later
  pure (item (str h.id) ids)

unfoldable pub report_overdue :
    Host → EngineTask → ℕ → String → (Handoff → String) → List Handoff → Exec Database Items
report_overdue host t now kind recipient [] = pure nil
report_overdue host t now kind recipient (h ∷ rest) =
    report_if host t now kind (recipient h) h (report_overdue host t now kind recipient rest)
      (ltb h.deadline now)

unfoldable pub is_started : Database → Handoff → Bool
is_started db h = any (λ e. opt_eq e.handoff_id (some h.id)) db.executions

-- `_reconcile`
unfoldable pub reconcile : Host → String → EngineTask → Entries → ℕ → Exec Database Value
reconcile host fresh t p now = do
  lift (shape common [] p)
  stale ←
      statement
        (λ db. filter (λ e. e.task_id == t.id && is_active_execution e.status) db.executions)
        (λ db. db)
  lost_ids ← lose_stale host t now stale
  waiting ←
      statement (λ db. filter (λ h. h.task_id == t.id && is_offered h.status) db.handoffs)
        (λ db. db)
  overdue ← report_overdue host t now "handoff.overdue" (λ h. h.sender) waiting
  idle ←
      statement
        (λ db.
          filter (λ h. h.task_id == t.id && is_accepted h.status && not (is_started db h))
            db.handoffs)
        (λ db. db)
  start_overdue ← report_overdue host t now "handoff.start_overdue" (λ h. h.recipient) idle
  pure (
      dict (
        field "lost_executions" (list lost_ids) (
          field "overdue_handoffs" (list overdue) (
            field "start_overdue_handoffs" (list start_overdue) (
              field "dispatches" (int (pos 0)) (
                field "resumed_tasks" (int (pos 0)) (field "native_delivery" (bool false) end)))))))
