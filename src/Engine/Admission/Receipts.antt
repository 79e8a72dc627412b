-- ===== src/Engine/Admission/Receipts.antt =====
-- qingtian_engine/admission.py: `_receipts`, `_append` and `_unconfirmed`.
use qingtian_ai.Engine.Admission.{AdmissionRequest, Desk, Executor, Facts, Receipt}
use qingtian_ai.Engine.Lifecycle.{ManagedRun}
use qingtian_ai.Engine.Waiting.{lookup}
use qingtian_ai.Exec.{
  Exec, check, fetch, integrity_error, key_error, modify, pure, statement, ◌>>=◌, ◌>>◌,
}
use qingtian_ai.Prelude.{
  Bool, List, Option, String, [], all, any, filter, first, if◌then◌else◌, leb, ltb, nat_eq, none,
  not, order_by, some, true, ℕ, ◌&&◌, ◌++◌, ◌+◌, ◌==◌, ◌||◌, ◌∷◌,
}

-- REASONS: the responsible party, the next action and the condition of recovery
abbrev pub reasons : List (String × (String × String × String))
reasons =
    ("lifecycle_unresolved", ("manager", "先核对并结束外部执行或解决交接责任；不得重复派发", "生命周期责任已显式解决"))
    ∷ ("task_saved_no_dispatch_receipt", ("manager", "审阅范围；需要执行时显式派发", "明确执行授权和当前版本"))
    ∷ ("dispatch_confirmation_pending", ("operator", "核查原请求及真实运行；不要重复启动", "原请求确认或人工核对运行记录"))
    ∷ ("local_run_recorded", ("local_runtime", "查看已绑定运行的真实事件", "运行提供实质事件；心跳不算进展"))
    ∷ ("active_run_reused", ("local_runtime", "查看同范围已存在运行；未重复派发", "原运行产生结果"))
    ∷ ("dependency_unresolved", ("dependency_owner", "查看列出的依赖任务；本入口不代为完成", "依赖完成后刷新并重新审阅；不会自动恢复"))
    ∷ ("user_action_pending", ("user", "按当前任务原处理渠道完成事项", "当前用户事项已按原渠道解决并重新审阅"))
    ∷ ("external_action_pending", ("external", "联系当前登记的外部责任人", "外部事项有新事实后刷新审阅"))
    ∷ ("user_paused", ("user", "保持暂停；需用户另行决定", "另行明确恢复授权；本入口不恢复暂停"))
    ∷ ("task_terminal", ("manager", "查看终态历史；不重新启动", "另行创建获授权的新任务"))
    ∷ ("execution_forbidden", ("manager", "仅查看；如需实施另建获授权任务", "新的独立执行授权"))
    ∷ ("sensitive_approval_required", ("authorized_approver", "使用原范围的敏感审批渠道", "正式审批事实；本回执不是审批"))
    ∷ ("release_scope_forbidden", ("release_owner", "转交正式发布控制面", "独立发布授权与既有门禁"))
    ∷ (
      "dispatch_result_unknown",
      ("operator", "按原key核查运行/派发日志；勿更换key重启", "确认原请求是否产生真实运行；不得凭异常推定未执行"),
    )
    ∷ ("external_ack_not_integrated", ("host_owner", "核查外部宿主接单；当前未接入宿主ack", "带任务、原请求和真实运行绑定的接单证据"))
    ∷ ("dispatch_already_unconfirmed", ("operator", "核查另一个未确认原请求；不要重复派发", "原请求得到明确人工核对；当前不提供自动重派"))
    ∷ ("run_binding_ambiguous", ("operator", "核对既有运行与精确执行意图；不猜合并", "唯一同范围运行及其原接纳回执"))
    ∷ ("task_changed_during_dispatch", ("operator", "任务约束已变化；核对可能产生的运行", "人工协调运行与新约束；不自动恢复/取消"))
    ∷ ("receipt_basis_stale", ("manager", "旧等待理由已失效；刷新事实并重新审阅", "基于当前依赖/状态重新作出明确决定"))
    ∷ []

-- COALESCE(MAX(sequence),0)
unfoldable pub max_sequence : List Receipt → ℕ
max_sequence [] = 0
max_sequence (a ∷ rest) = let m = max_sequence rest in if ltb m a.sequence then a.sequence else m

-- ORDER BY sequence
unfoldable pub in_sequence : List Receipt → List Receipt
in_sequence receipts = order_by (λ a b. ltb a.sequence b.sequence) receipts

-- `_receipts`
unfoldable pub receipts_of : String → Desk → List Receipt
receipts_of task_id db = in_sequence (filter (λ a. a.task_id == task_id) db.receipts)

-- the first receipt of the request, or the new one
unfoldable pub original_of : String → String → List Receipt → String
original_of request_id receipt_id receipts =
    elim (first (λ a. true) (in_sequence (filter (λ a. a.request_id == request_id) receipts))) [
      | none ↦ receipt_id
      | some a ↦ a.id
    ]

abbrev pub run_id_of : Option ManagedRun → Option String
run_id_of none = none
run_id_of (some r) = some r.id

abbrev pub executor_of : Option ManagedRun → Option Executor
executor_of none = none
executor_of (some r) = some (record { run_id = r.id; adapter = r.adapter; attempt = r.attempt })

-- `x or None`, for a text
abbrev pub or_none : Option String → Option String
or_none none = none
or_none (some s) = if s == "" then none else some s

-- What `_append` is given: the request, the facts, the state, the reason, the run, and the time and
-- the identifier that it draws.
pub record Draft : Type 0 where
  pub request : AdmissionRequest
  pub known : Facts
  pub state : String
  pub reason : String
  pub run : Option ManagedRun
  pub now : ℕ
  pub fresh : String

abbrev pub new_receipt : Draft → String × String × String → Desk → Receipt
new_receipt e (owner, action, recovery) db = record {
  id = e.fresh;
  sequence = max_sequence db.receipts + 1;
  request_id = e.request.id;
  task_id = e.request.task_id;
  idempotency_key = e.request.idempotency_key;
  source_revision = e.request.source_revision;
  request_hash = e.request.payload_hash;
  intent_hash = e.request.intent_hash;
  recorded_revision = e.known.revision;
  received_at = e.now;
  state = e.state;
  reason_code = e.reason;
  owner_kind = owner;
  declared_owner = or_none e.known.task.row.action_owner;
  next_action = action;
  recovery_condition = recovery;
  basis = e.known.basis;
  scope_hash = e.known.scope_hash;
  execution_target_hash = e.known.execution_target_hash;
  run_id = run_id_of e.run;
  executor = executor_of e.run;
  original_receipt_id = original_of e.request.id e.fresh db.receipts;
}

-- INSERT INTO admission_receipts, with its keys and the trigger admission_receipts_no_replace
unfoldable pub insert_receipt : Receipt → Exec Desk (Unit {0})
insert_receipt a = do
  check (λ db. not (any (λ b. b.id == a.id || nat_eq b.sequence a.sequence) db.receipts))
      integrity_error
  modify (λ db. record db { receipts = db.receipts ++ a ∷ [] })

-- `_append`
unfoldable pub append : Draft → Exec Desk Receipt
append e = do
  words ← fetch (λ db. lookup e.reason reasons) key_error
  a ← statement (new_receipt e words) (λ db. db)
  insert_receipt a
  pure a

-- the receipt with the greatest sequence of its request
unfoldable pub is_latest : Receipt → List Receipt → Bool
is_latest a receipts =
    all (λ b. not (b.request_id == a.request_id) || leb b.sequence a.sequence) receipts

-- a.state IN ('pending','uncertain')
unfoldable pub is_unconfirmed : String → Bool
is_unconfirmed state = state == "pending" || state == "uncertain"

-- `_unconfirmed`, as a test
unfoldable pub unconfirmed : String → Desk → Bool
unconfirmed task_id db =
    any
      (λ r.
        r.task_id == task_id
        && any (λ a. a.request_id == r.id && is_latest a db.receipts && is_unconfirmed a.state)
            db.receipts)
      db.requests
