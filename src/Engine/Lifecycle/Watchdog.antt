-- ===== src/Engine/Lifecycle/Watchdog.antt =====
-- qingtian_engine/lifecycle.py: `reconcile_due`, which reconciles each task that has something due.
use Prim.Native.String.{◌++◌ as text_append}
use qingtian_ai.Engine.Lifecycle.{Database, Handoff, Host, Response}
use qingtian_ai.Engine.Lifecycle.Apply.{LifecycleCall, apply}
use qingtian_ai.Engine.Lifecycle.Executions.{field, is_accepted}
use qingtian_ai.Engine.Lifecycle.Handoffs.{is_offered}
use qingtian_ai.Engine.Lifecycle.Outbox.{is_active_execution, is_stale, is_started}
use qingtian_ai.Engine.Lifecycle.Snapshots.{lex_lt, snapshot}
use qingtian_ai.Exec.{
  Error, Exec, Result, attempt, err, lifecycle_error, lift, ok, pure, statement, ◌>>=◌,
}
use qingtian_ai.Json.{Items, Value, dict, end, int, item, list, nil, str}
use qingtian_ai.Json.Dicts.{count_items, get}
use qingtian_ai.Prelude.{
  Bool, List, Option, String, [], any, codes, false, filter, if◌then◌else◌, ltb, map, not, opt_eq,
  order_by, some, true, ℕ, ◌&&◌, ◌++◌, ◌+◌, ◌==◌, ◌||◌, ◌∷◌,
}
use qingtian_ai.Prelude.Int.{pos}

-- subjects.setdefault(task_id, []).append(due)
unfoldable pub add_due :
    String → List String → List (String × List (List String)) → List (String × List (List String))
add_due task_id due [] = (task_id, due ∷ []) ∷ []
add_due task_id due ((j, ds) ∷ rest) =
    let later = add_due task_id due rest in
    if j == task_id then (j, ds ++ due ∷ []) ∷ rest else (j, ds) ∷ later

unfoldable pub add_all :
    List (String × List String)
    → List (String × List (List String))
    → List (String × List (List String))
add_all [] subjects = subjects
add_all ((task_id, due) ∷ rest) subjects = add_all rest (add_due task_id due subjects)

unfoldable pub has_notice : Database → Handoff → String → String → Bool
has_notice db h kind recipient =
    any (λ n. opt_eq n.handoff_id (some h.id) && n.kind == kind && n.recipient == recipient)
      db.outbox

module _ (host : Host) (now : ℕ) where
  -- the rows of the three queries that are due
  unfoldable pub stale_rows : Database → List (String × List String)
  stale_rows db =
      map (λ e. (e.task_id, e.id ∷ host.isoformat e.last_activity_at ∷ []))
        (filter (λ e. is_active_execution e.status && is_stale now e.last_activity_at)
          db.executions)

  unfoldable pub overdue_rows : Database → List (String × List String)
  overdue_rows db =
      map (λ h. (h.task_id, h.id ∷ host.isoformat h.deadline ∷ []))
        (filter
          (λ h.
            is_offered h.status
            && not (has_notice db h "handoff.overdue" h.sender)
            && ltb h.deadline now)
          db.handoffs)

  unfoldable pub start_overdue_rows : Database → List (String × List String)
  start_overdue_rows db =
      map (λ h. (h.task_id, h.id ∷ "accepted" ∷ host.isoformat h.deadline ∷ []))
        (filter
          (λ h.
            is_accepted h.status
            && not (is_started db h)
            && not (has_notice db h "handoff.start_overdue" h.recipient)
            && ltb h.deadline now)
          db.handoffs)

  unfoldable pub subjects : Database → List (String × List (List String))
  subjects db =
      add_all (start_overdue_rows db) (add_all (overdue_rows db) (add_all (stale_rows db) []))

-- sorted(due), and its JSON
unfoldable pub lists_lt : List String → List String → Bool
lists_lt xs [] = false
lists_lt [] (y ∷ ys) = true
lists_lt (x ∷ xs) (y ∷ ys) = lex_lt (codes x) (codes y) || x == y && lists_lt xs ys

unfoldable pub text_list : List String → Items
text_list [] = nil
text_list (s ∷ rest) = item (str s) (text_list rest)

unfoldable pub due_list : List (List String) → Items
due_list [] = nil
due_list (ds ∷ rest) = item (list (text_list ds)) (due_list rest)

-- the counters of the result
pub record Tally : Type 0 where
  pub tasks_reconciled : ℕ
  pub lost_executions : ℕ
  pub overdue_handoffs : ℕ
  pub start_overdue_handoffs : ℕ
  pub deferred_races : ℕ

unfoldable pub length_at : String → Value → ℕ
length_at name (dict es) = items_at (get name es)
  where
    items_at : Option Value → ℕ
    items_at (some (list xs)) = count_items xs
    items_at _ = 0
length_at name _ = 0

-- exc.code in {"stale_revision", "idempotency_conflict"}
unfoldable pub is_race : Error → Bool
is_race (lifecycle_error code) = code == "stale_revision" || code == "idempotency_conflict"
is_race _ = false

unfoldable pub tally : Tally → Result Response → Exec Database Tally
tally counts (ok r) = pure (record counts {
  tasks_reconciled = counts.tasks_reconciled + 1;
  lost_executions = counts.lost_executions + length_at "lost_executions" r.outcome;
  overdue_handoffs = counts.overdue_handoffs + length_at "overdue_handoffs" r.outcome;
  start_overdue_handoffs =
      counts.start_overdue_handoffs + length_at "start_overdue_handoffs" r.outcome;
})
tally counts (err e) =
    if is_race e
    then pure (record counts { deferred_races = counts.deferred_races + 1 })
    else lift (err e)

-- the call of `apply` for a task
abbrev pub watchdog_call : Host → ℕ → String → List (List String) → ℕ → LifecycleCall
watchdog_call host now task_id due revision = record {
  task_id = task_id;
  action = "reconcile";
  payload = field "expected_revision" (int (pos revision)) (
      field "idempotency_key"
        (str (
          text_append "watchdog-"
            (host.hash (host.dumps (list (due_list (order_by lists_lt due)))))))
        (field "actor" (str "lifecycle-watchdog")
          (field "source_ref" (str "engine:non-executing-housekeeping") end)));
  now = now;
  fresh = "";
}

unfoldable pub visit : Host → ℕ → List (String × List (List String)) → Tally → Exec Database Tally
visit host now [] counts = pure counts
visit host now ((task_id, due) ∷ rest) counts = do
  lifecycle ← snapshot host now task_id
  counts' ←
      attempt (apply host (watchdog_call host now task_id due lifecycle.revision)) (tally counts)
  visit host now rest counts'

abbrev pub no_counts : Tally
no_counts = record {
  tasks_reconciled = 0;
  lost_executions = 0;
  overdue_handoffs = 0;
  start_overdue_handoffs = 0;
  deferred_races = 0;
}

-- `reconcile_due`; no other writer comes between its snapshots and its calls
unfoldable pub reconcile_due : Host → ℕ → Exec Database Tally
reconcile_due host now = do
  due ← statement (subjects host now) (λ db. db)
  visit host now due no_counts
