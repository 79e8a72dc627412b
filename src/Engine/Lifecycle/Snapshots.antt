-- ===== src/Engine/Lifecycle/Snapshots.antt =====
-- qingtian_engine/lifecycle.py: `snapshot`, what is read of a task's lifecycle.
use Prim.Native.String.{◌++◌ as text_append}
use qingtian_ai.Engine.Lifecycle.{
  Database, EngineTask, Execution, ExecutionView, Handoff, HandoffView, Host, NextAction, Notice,
  Snapshot, Version, engine_task_key, execution_key, handoff_key, intake_key, lost_execution,
  managed_run_key, notice_key, offered, rejected, version_key,
}
use qingtian_ai.Engine.Lifecycle.Executions.{is_accepted}
use qingtian_ai.Engine.Lifecycle.Guards.{is_resolved, is_unfinished}
use qingtian_ai.Engine.Lifecycle.Handoffs.{is_offered}
use qingtian_ai.Engine.Lifecycle.Outbox.{is_active_execution, is_stale}
use qingtian_ai.Exec.{Exec, fetch, lifecycle_error, statement, type_error, ◌>>=◌}
use qingtian_ai.Prelude.{
  Bool, List, Option, String, [], codes, false, filter, if◌then◌else◌, is_empty, ltb, map, nat_eq,
  none, not, opt_eq, order_by, some, true, ℕ, ◌&&◌, ◌++◌, ◌==◌, ◌||◌, ◌∷◌,
}
use qingtian_ai.Store.Table.{find}

-- the order of texts, by their code points
unfoldable pub lex_lt : List ℕ → List ℕ → Bool
lex_lt s [] = false
lex_lt [] (d ∷ ds) = true
lex_lt (c ∷ cs) (d ∷ ds) = ltb c d || nat_eq c d && lex_lt cs ds

-- ORDER BY created_at,id
unfoldable pub precedes : ℕ → String → ℕ → String → Bool
precedes at id at' id' = ltb at at' || nat_eq at at' && lex_lt (codes id) (codes id')

unfoldable pub executions_of : String → Database → List Execution
executions_of task_id db =
    order_by (λ e d. precedes e.created_at e.id d.created_at d.id)
      (filter (λ e. e.task_id == task_id) db.executions)

unfoldable pub handoffs_of : String → Database → List Handoff
handoffs_of task_id db =
    order_by (λ h g. precedes h.created_at h.id g.created_at g.id)
      (filter (λ h. h.task_id == task_id) db.handoffs)

unfoldable pub outbox_of : String → Database → List Notice
outbox_of task_id db =
    order_by (λ n m. precedes n.created_at n.id m.created_at m.id)
      (filter (λ n. n.task_id == task_id) db.outbox)

unfoldable pub is_lost_now : ℕ → Execution → Bool
is_lost_now now e = is_unfinished e.status && is_stale now e.last_activity_at

abbrev pub view_execution : ℕ → Execution → ExecutionView
view_execution now e = record {
  execution = e;
  overdue = is_lost_now now e;
  display_status = if is_lost_now now e then lost_execution else e.status;
}

unfoldable pub bound_ids : List Execution → Handoff → List String
bound_ids executions h = map (λ e. e.id) (filter (λ e. opt_eq e.handoff_id (some h.id)) executions)

unfoldable pub is_start_overdue : ℕ → List String → Handoff → Bool
is_start_overdue now ids h = is_accepted h.status && is_empty ids && ltb h.deadline now

unfoldable pub view_handoff : ℕ → List Execution → Handoff → HandoffView
view_handoff now executions h =
    let ids = bound_ids executions h in
    record {
      handoff = h;
      execution_ids = ids;
      execution_started = not (is_empty ids);
      start_overdue = is_start_overdue now ids h;
      overdue = is_offered h.status && ltb h.deadline now || is_start_overdue now ids h;
    }

-- item.pop("claim_token", None)
abbrev pub hide_token : Notice → Notice
hide_token n = record n { claim_token = "" }

unfoldable pub unresolved : List Handoff → List Handoff
unresolved handoffs = filter (λ h. not (is_resolved h.status)) handoffs

unfoldable pub unfinished : List Execution → List Execution
unfinished executions = filter (λ e. is_unfinished e.status) executions

-- unresolved[-1] and unfinished[-1]
unfoldable pub last : {A : Type 0} → List A → Option A
last [] = none
last (x ∷ []) = some x
last (x ∷ y ∷ rest) = last (y ∷ rest)

unfoldable pub is_lost_view : ℕ → Execution → Bool
is_lost_view now e = is_lost_now now e || not (is_active_execution e.status)

-- min(lost, key=lambda e: (_time(e["last_activity_at"]), e["id"]))
unfoldable pub stalest : Execution → List Execution → Execution
stalest e [] = e
stalest e (d ∷ rest) =
    stalest (if precedes d.last_activity_at d.id e.last_activity_at e.id then d else e) rest

unfoldable pub responsible : List Execution → List Execution → Option Execution
responsible (e ∷ rest) executions = some (stalest e rest)
responsible [] executions = last executions

abbrev pub agent_action : String → String → Option String → NextAction
agent_action owner words due = record {
  owner_kind = some "agent";
  owner = some owner;
  text = some words;
  due = due;
}

abbrev pub own_action : EngineTask → NextAction
own_action t = record {
  owner_kind = t.row.action_owner_kind;
  owner = t.row.action_owner;
  text = t.row.action_text;
  due = t.action_due;
}

unfoldable pub handoff_action : Host → Handoff → String × NextAction
handoff_action host h = elim h.status [
  | offered ↦ (
    "awaiting_acceptance",
    agent_action h.recipient h.next_action (some (host.isoformat h.deadline)),
  )
  | rejected ↦ (
    "rejected",
    agent_action h.sender (text_append "补齐拒收缺项：" h.rejection_reason)
        (some (host.isoformat h.deadline)),
  )
  | _ ↦ ("accepted", agent_action h.recipient h.next_action (some (host.isoformat h.deadline)))
]

-- the status and the next action: of the unfinished executions, else of the last unresolved
-- handoff, else of the task
unfoldable pub status_of :
    Host → EngineTask → Bool → Option Execution → Option Handoff → String × NextAction
status_of host t true (some e) h =
    ("execution_lost", agent_action e.executor "确认外部执行活动并登记实际结果" none)
status_of host t false (some e) h =
    ("execution_active", agent_action e.executor "完成已登记执行并交付产物" none)
status_of host t any_lost none (some h) = handoff_action host h
status_of host t any_lost none none = ("idle", own_action t)

unfoldable pub blockers : List Handoff → List Execution → List String
blockers handoffs executions =
    map (λ h. text_append "unresolved_handoff:" h.id) (unresolved handoffs)
    ++ map (λ e. text_append "unfinished_external_execution:" e.id) (unfinished executions)

abbrev pub snapshot_of : Host → ℕ → EngineTask → Version → Database → Snapshot
snapshot_of host now t v db =
    let executions = executions_of t.id db in
    let handoffs = handoffs_of t.id db in
    let lost_ones = filter (is_lost_view now) (unfinished executions) in
    let (status, action) =
      status_of host t (not (is_empty lost_ones)) (responsible lost_ones (unfinished executions))
        (last (unresolved handoffs)) in
    record {
      revision = v.revision;
      stage = v.stage;
      status = status;
      next_action = action;
      external_executions = map (view_execution now) executions;
      handoffs = map (view_handoff now executions) handoffs;
      outbox = map hide_token (outbox_of t.id db);
      completion_blockers = blockers handoffs executions;
    }

-- `snapshot`; the row of lifecycle_versions is there for every task (dict(None) is a TypeError)
unfoldable pub snapshot : Host → ℕ → String → Exec Database Snapshot
snapshot host now task_id = do
  t ← fetch (λ db. find task_id db.tasks) (lifecycle_error "missing")
  v ← fetch (λ db. find task_id db.versions) type_error
  statement (snapshot_of host now t v) (λ db. db)
