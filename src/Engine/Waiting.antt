-- ===== src/Engine/Waiting.antt =====
-- qingtian_engine/service.py: the states of a control-plane task, the transitions between them, and
-- the reading of a task's row that waits. `lower` and `upper` are str.lower and str.upper.
pub mod Labels
use mathlib.Core.Option
use qingtian_ai.Engine.Texts.{any_in, spaced, starts_with, strip, text_or}
use qingtian_ai.Prelude.{
  Bool, List, Option, String, [], false, if◌then◌else◌, none, not, opt_eq, some, true, ℕ, ◌==◌,
  ◌||◌, ◌∷◌,
}
use qingtian_ai.Providers.{provider_key}
use qingtian_ai.Store.Rows.{
  checkpoint_key, evidence_key, indexed_key, knowledge_key, run_key, session_key, task_key,
}

-- The columns of a task's row that are read here; each may be missing or NULL.
pub record TaskRow : Type 0 where
  pub state : Option String
  pub title : Option String
  pub scope_summary : Option String
  pub blocking_reason : Option String
  pub action_owner : Option String
  pub action_owner_kind : Option String
  pub action_text : Option String
  pub authorization_policy : Option String
  pub imported_from : Option String
  pub source_request_id : Option String

-- dict.get over the items of a dict, and with an empty set for a missing key
unfoldable pub lookup : {A : Type 0} → String → List (String × A) → Option A
lookup k [] = none
lookup k ((j, v) ∷ rest) = if j == k then some v else lookup k rest

abbrev pub or_empty : Option (List String) → List String
or_empty none = []
or_empty (some xs) = xs

-- STATE_PROGRESS.get(state)
abbrev pub state_progress_table : List (String × ℕ)
state_progress_table =
    ("INBOX", 10)
    ∷ ("PLANNED", 20)
    ∷ ("QUEUED", 30)
    ∷ ("RUNNING", 55)
    ∷ ("WAITING", 55)
    ∷ ("VERIFYING", 85)
    ∷ ("DONE", 100)
    ∷ ("FAILED", 65)
    ∷ ("CANCELED", 0)
    ∷ []

unfoldable pub state_progress : String → Option ℕ
state_progress s = lookup s state_progress_table

-- ALLOWED_TRANSITIONS.get(state, set())
abbrev pub allowed_transitions_table : List (String × List String)
allowed_transitions_table =
    ("INBOX", "PLANNED" ∷ "WAITING" ∷ "CANCELED" ∷ [])
    ∷ ("PLANNED", "QUEUED" ∷ "WAITING" ∷ "CANCELED" ∷ [])
    ∷ ("QUEUED", "RUNNING" ∷ "WAITING" ∷ "FAILED" ∷ "CANCELED" ∷ [])
    ∷ ("RUNNING", "VERIFYING" ∷ "WAITING" ∷ "FAILED" ∷ "CANCELED" ∷ [])
    ∷ ("WAITING", "PLANNED" ∷ "QUEUED" ∷ "RUNNING" ∷ "CANCELED" ∷ [])
    ∷ ("VERIFYING", "DONE" ∷ "RUNNING" ∷ "WAITING" ∷ "FAILED" ∷ "CANCELED" ∷ [])
    ∷ ("FAILED", "QUEUED" ∷ "CANCELED" ∷ [])
    ∷ ("CANCELED", "PLANNED" ∷ [])
    ∷ ("DONE", "PLANNED" ∷ [])
    ∷ []

unfoldable pub allowed_transitions : String → List String
allowed_transitions s = or_empty (lookup s allowed_transitions_table)

-- WAITING_CATEGORY_LABELS
abbrev pub waiting_category_label_table : List (String × String)
waiting_category_label_table =
    ("paused", "已暂停")
    ∷ ("external", "外部等待")
    ∷ ("user", "需用户")
    ∷ ("internal_qa", "内部 QA")
    ∷ ("internal_release", "内部发布")
    ∷ ("dependency", "依赖等待")
    ∷ ("execution_recovery", "执行恢复")
    ∷ ("internal", "内部等待")
    ∷ []

unfoldable pub waiting_category_label : String → Option String
waiting_category_label s = lookup s waiting_category_label_table

-- a chain of if and elif that picks a text, with that of its else
unfoldable pub pick : List (Bool × String) → String → String
pick [] otherwise = otherwise
pick ((test, text) ∷ rest) otherwise = if test then text else pick rest otherwise

module _ (lower upper : String → String) where
  -- str(task.get(key) or "").strip().lower()
  unfoldable pub clean : Option String → String
  clean value = lower (strip (text_or value ""))

  unfoldable pub is_paused_by_user : TaskRow → Bool
  is_paused_by_user task =
      let state = upper (text_or task.state "") in
      let searchable =
        spaced
          (clean task.blocking_reason ∷ clean task.action_owner ∷ clean task.action_text ∷ []) in
      if state == "PAUSED"
      then true
      else if not (state == "WAITING")
      then false
      else starts_with "paused_by_user" searchable
        || any_in ("用户明确暂停" ∷ "用户确认暂缓" ∷ "用户暂停" ∷ "暂缓执行" ∷ "擎天暂停池" ∷ "暂停池" ∷ []) searchable

  unfoldable pub is_plan_only : TaskRow → Bool
  is_plan_only task =
      let state = upper (text_or task.state "") in
      let policy = lower (text_or task.authorization_policy "normal") in
      let searchable = spaced (
        clean task.title
        ∷ clean task.scope_summary
        ∷ clean task.blocking_reason
        ∷ clean task.action_text
        ∷ []) in
      if opt_eq task.imported_from (some "demo")
      then false
      else if policy == "analysis-only" || policy == "reference-only"
      then true
      else if state == "DONE" || state == "CANCELED"
      then false
      else if starts_with "[plan-only]" (clean task.scope_summary)
      then true
      else if not (state == "INBOX" || state == "PLANNED")
      then false
      else any_in
          ("plan-only" ∷ "plan only" ∷ "仅方案评审" ∷ "只分析" ∷ "不进入 coding" ∷ "不进入coding" ∷ "不进入自动执行"
            ∷ "go/no-go 后另拆" ∷ [])
          searchable

  -- the key of `classify_waiting`; `code` is the code of the runtime, if there is one
  unfoldable pub waiting_key : TaskRow → Option String → String
  waiting_key task code =
      let owner_kind = lower (text_or task.action_owner_kind "none") in
      let reason = clean task.blocking_reason in
      let runtime_code = upper (text_or code "") in
      let searchable = spaced (reason ∷ clean task.action_text ∷ []) in
      pick
        ((is_paused_by_user task, "paused")
          ∷ (owner_kind == "user", "user")
          ∷ (
            starts_with "waiting_independent_qa" reason
                || runtime_code == "INDEPENDENT_QA"
                || any_in ("内部 qa" ∷ "内部qa" ∷ "内部验收" ∷ "真实设备" ∷ []) searchable,
            "internal_qa",
          )
          ∷ (
            starts_with "stale_execution:" reason
                || runtime_code == "RECOVERY_REQUIRED"
                || runtime_code == "FAILED_STAGE"
                || runtime_code == "PROCESS_LOST"
                || runtime_code == "EVENT_STALE"
                || any_in ("执行器" ∷ "进程已丢失" ∷ "执行中断" ∷ "失联" ∷ "安全恢复" ∷ []) searchable,
            "execution_recovery",
          )
          ∷ (owner_kind == "external", "external")
          ∷ (
            any_in
                ("内部发布" ∷ "等待发布" ∷ "等待部署" ∷ "待部署" ∷ "待上线" ∷ "待推送" ∷ "release" ∷ "deploy"
                  ∷ "git push" ∷ [])
                searchable,
            "internal_release",
          )
          ∷ (any_in ("依赖" ∷ "前置任务" ∷ "上游任务" ∷ "下游任务" ∷ []) searchable, "dependency")
          ∷ (any_in ("外部" ∷ "第三方" ∷ "渠道" ∷ "回调" ∷ "供应商" ∷ "外部授权" ∷ []) searchable, "external")
          ∷ [])
        "internal"

  -- the key and its label; none stands for the KeyError of a key without a label
  unfoldable pub classify_waiting : TaskRow → Option String → Option (String × String)
  classify_waiting task code =
      let key = waiting_key task code in
      Option.map (λ label. (key, label)) (waiting_category_label key)
