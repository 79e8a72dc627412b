-- ===== src/Engine/Policy.antt =====
-- qingtian_engine/execution_policy.py: which tasks are never executed. The database is the query
-- that finds the intent of an intake; `lower` and `upper` are str.lower and str.upper.
use Prim.Native.String.{◌++◌ as text_append}
use Prim.Native.Char.{code}
use qingtian_ai.Engine.Texts.{any_in, spaced, strip, text_or}
use qingtian_ai.Engine.Waiting.{TaskRow, clean, is_plan_only}
use qingtian_ai.Prelude.{
  Bool, Bool-cases, Option, String, [], arith, false, if◌then◌else◌, inl, inr, nat_eq, none, not,
  refl, some, true, ◌&&◌, ◌==◌, ◌||◌, ◌∷◌, ◌≡◌,
}

-- text.replace("_", "-")
unfoldable pub dashed : String → String
dashed String.[] = String.[]
dashed (String.◌∷◌ c s) =
    let rest = dashed s in if nat_eq (code c) b'_' then text_append "-" rest else String.◌∷◌ c rest

module _ (lower upper : String → String) where
  unfoldable pub normalized_policy : Option String → String
  normalized_policy value = dashed (lower (strip (text_or value "normal")))

  unfoldable pub execution_forbidden : TaskRow → Option String → Bool
  execution_forbidden task intake_intent =
      let policy = normalized_policy task.authorization_policy in
      if policy == "analysis-only" || policy == "reference-only"
      then true
      else if not (strip (text_or task.imported_from "") == "")
      then true
      else if clean lower upper intake_intent == "analyze"
      then true
      else if any_in
          ("plan-only" ∷ "plan only" ∷ "仅方案评审" ∷ "只分析" ∷ "不进入 coding" ∷ "不进入coding" ∷ "不进入自动执行"
            ∷ "go/no-go 后另拆" ∷ [])
          (spaced (
            clean lower upper task.title
            ∷ clean lower upper task.scope_summary
            ∷ clean lower upper task.blocking_reason
            ∷ clean lower upper task.action_text
            ∷ []))
      then true
      else is_plan_only lower upper task

  -- the intent of the row that the query finds; none if it finds no row
  unfoldable pub intent_of : Option (Option String) → Option String
  intent_of none = none
  intent_of (some intent) = some (text_or intent "")

  unfoldable pub execution_forbidden_in_database :
      (String → Option (Option String)) → TaskRow → Bool
  execution_forbidden_in_database intakes task =
      let source_request_id = strip (text_or task.source_request_id "") in
      if execution_forbidden task none
      then true
      else if source_request_id == ""
      then false
      else execution_forbidden task (intent_of (intakes source_request_id))

  allowed_clean :
      (task : TaskRow) (intent : Option String)
      → execution_forbidden task intent ≡ false
      → (is_plan_only lower upper task ≡ false)
        × ((strip (text_or task.imported_from "") == "") ≡ true)
        × ((normalized_policy task.authorization_policy == "analysis-only") ≡ false)
        × ((normalized_policy task.authorization_policy == "reference-only") ≡ false)
        × ((clean lower upper intent == "analyze") ≡ false)
  unfolding execution_forbidden
  allowed_clean task intent h =
      (ground arith, ground arith, ground arith, ground arith, ground arith)

  -- A task that the database allows to be executed is not plan-only, is not imported, has neither
  -- of the policies that forbid it, and the intake that it names did not ask for an analysis.
  pub executable_clean :
      (intakes : String → Option (Option String)) (task : TaskRow)
      → execution_forbidden_in_database intakes task ≡ false
      → (is_plan_only lower upper task ≡ false)
        × ((strip (text_or task.imported_from "") == "") ≡ true)
        × ((normalized_policy task.authorization_policy == "analysis-only") ≡ false)
        × ((normalized_policy task.authorization_policy == "reference-only") ≡ false)
        × ((not (strip (text_or task.source_request_id "") == "")
              && clean lower upper (intent_of (intakes (strip (text_or task.source_request_id ""))))
                == "analyze")
            ≡ false)
  unfolding execution_forbidden_in_database
  executable_clean intakes task h =
      let first_pass : execution_forbidden task none ≡ false = ground arith in
      let (a, b, p, q, _) = allowed_clean task none first_pass in
      (
        a,
        b,
        p,
        q,
        elim (Bool-cases (strip (text_or task.source_request_id "") == "")) [
          | inl e ↦ rw e refl
          | inr e ↦
              let second_pass : execution_forbidden task
                    (intent_of (intakes (strip (text_or task.source_request_id ""))))
                  ≡ false =
                ground arith in
              let (_, _, _, _, analysed) = allowed_clean task _ second_pass in rw e analysed
        ],
      )
