-- ===== src/Engine/Lifecycle/Amend.antt =====
-- qingtian_engine/lifecycle.py: `_amend`, which writes the task's own columns and the stage.
use qingtian_ai.Engine.Lifecycle.{
  Database, EngineTask, Host, Version, engine_task_key, execution_key, handoff_key, intake_key,
  managed_run_key, notice_key, version_key,
}
use qingtian_ai.Engine.Lifecycle.Checks.{
  choice, common, entries_of, invalid, shape, stages, text, timestamp, ◌and_then◌,
}
use qingtian_ai.Engine.Lifecycle.Executions.{field, null_or}
use qingtian_ai.Engine.Lifecycle.Guards.{executable, no_managed_run, update_engine_task}
use qingtian_ai.Exec.{
  Exec, Result, check, err, lifecycle_error, lift, modify, ok, pure, statement, when, ◌>>=◌, ◌>>◌,
}
use qingtian_ai.Json.{Entries, Value, bool, dict, end, entry, null, str}
use qingtian_ai.Json.Dicts.{get}
use qingtian_ai.Prelude.{
  Bool, List, Option, String, [], any, false, if◌then◌else◌, is_some, none, not, opt_eq, some, true,
  truthy, ℕ, ◌&&◌, ◌++◌, ◌==◌, ◌||◌, ◌∷◌,
}
use qingtian_ai.Store.Table.{find, update}

-- "name" in changes, and set(changes) & {...}
abbrev pub is_given : String → Entries → Bool
is_given name changes = is_some (get name changes)

abbrev pub native_names : List String
native_names =
    "environment" ∷ "requires_deploy" ∷ "owner_session" ∷ "action_owner_kind" ∷ "action_owner"
    ∷ "action_text" ∷ "action_due" ∷ []

abbrev pub is_empty_dict : Entries → Bool
is_empty_dict end = true
is_empty_dict (entry k v rest) = false

-- a check of the value under a name, if the name is given
abbrev pub when_given : {A : Type 0} → Option Value → (Option Value → Result A) → Result (Unit {0})
when_given none f = ok tt
when_given (some v) f = f (some v) and_then λ _. ok tt

-- the value of a column after the amendment: texts, NULL, and JSON booleans
abbrev pub overlay : Option Value → Option String → Option String
overlay none old = old
overlay (some (str s)) old = some s
overlay (some v) old = none

abbrev pub overlay_text : Option Value → String → String
overlay_text (some (str s)) old = s
overlay_text value old = old

abbrev pub overlay_bool : Option Value → Bool → Bool
overlay_bool (some (bool b)) old = b
overlay_bool value old = old

abbrev pub is_bool : Option Value → Result Bool
is_bool (some (bool b)) = ok b
is_bool value = err invalid

-- _time of a value that may be null
unfoldable pub due_of : Host → Option Value → Result (Unit {0})
due_of host (some null) = ok tt
due_of host value = timestamp host value and_then λ _. ok tt

-- {**task, **changes}, of the columns that `_amend` may change
unfoldable pub merged : Entries → EngineTask → EngineTask
merged changes t = record t {
  row = record t.row {
    action_owner_kind = overlay (get "action_owner_kind" changes) t.row.action_owner_kind;
    action_owner = overlay (get "action_owner" changes) t.row.action_owner;
    action_text = overlay (get "action_text" changes) t.row.action_text;
  };
  environment = overlay_text (get "environment" changes) t.environment;
  requires_deploy = overlay_bool (get "requires_deploy" changes) t.requires_deploy;
  owner_session = overlay_text (get "owner_session" changes) t.owner_session;
  action_due = overlay (get "action_due" changes) t.action_due;
}

abbrev pub amended : Entries → ℕ → EngineTask → EngineTask
amended changes now t = record (merged changes t) { updated_at = now }

-- the two tests of the merged row
unfoldable pub is_owned_action : EngineTask → Bool
is_owned_action m =
    if opt_eq m.row.action_owner_kind (some "none")
    then not (truthy m.row.action_owner || truthy m.row.action_text || truthy m.action_due)
    else truthy m.row.action_owner && truthy m.row.action_text

-- the checks of the values, in the order of the source
unfoldable pub check_changes : Host → EngineTask → Entries → Exec Database (Unit {0})
check_changes host t changes = do
  lift (
      when_given (get "environment" changes)
        (choice ("local" ∷ "dev" ∷ "test" ∷ "staging" ∷ "prod" ∷ "production" ∷ [])))
  lift (when_given (get "requires_deploy" changes) is_bool)
  check (λ db. not (t.requires_deploy && not (overlay_bool (get "requires_deploy" changes) true)))
      (lifecycle_error "forbidden")
  lift (when_given (get "owner_session" changes) (text host 120 true))
  lift (when_given (get "action_owner" changes) (text host 120 true))
  lift (when_given (get "action_text" changes) (text host 500 true))
  lift (when_given (get "action_due" changes) (due_of host))
  lift (
      when_given (get "action_owner_kind" changes)
        (choice ("none" ∷ "user" ∷ "external" ∷ "agent" ∷ [])))
  lift (when_given (get "stage" changes) (choice stages))
  check (λ db. is_owned_action (merged changes t)) invalid

abbrev pub staged : Option Value → Version → Version
staged value v = record v { stage = overlay_text value v.stage }

unfoldable pub update_stage : String → Option Value → Database → Database
update_stage task_id value db = record db { versions = update task_id (staged value) db.versions }

abbrev pub stage_column : Option Version → Option String
stage_column none = none
stage_column (some v) = some v.stage

-- the columns of the task before the amendment, as `before` of the reply has them
unfoldable pub column : EngineTask → Option Version → String → Value
column t version name =
    if name == "environment"
    then str t.environment
    else if name == "requires_deploy"
    then bool t.requires_deploy
    else if name == "owner_session"
    then str t.owner_session
    else if name == "action_owner_kind"
    then null_or t.row.action_owner_kind
    else if name == "action_owner"
    then null_or t.row.action_owner
    else if name == "action_text"
    then null_or t.row.action_text
    else if name == "action_due"
    then null_or t.action_due
    else null_or (stage_column version)

unfoldable pub columns : EngineTask → Option Version → Entries → Entries
columns t version end = end
columns t version (entry (str k) v rest) =
    entry (str k) (column t version k) (columns t version rest)
columns t version (entry k v rest) = columns t version rest

-- `_amend`
unfoldable pub amend : Host → String → EngineTask → Entries → ℕ → Exec Database Value
amend host fresh t p now = do
  lift (shape (common ++ "changes" ∷ []) [] p)
  executable host t
  changes ← lift (entries_of (get "changes" p))
  lift (shape [] (native_names ++ "stage" ∷ []) changes)
  version ← statement (λ db. find t.id db.versions) (λ db. db)
  check (λ db. not (is_empty_dict changes)) invalid
  when (is_given "environment" changes || is_given "owner_session" changes) (no_managed_run t.id)
  check_changes host t changes
  modify (λ db.
      if any (λ name. is_given name changes) native_names
      then update_engine_task t.id (amended changes now) db
      else db)
  modify (λ db. if is_given "stage" changes then update_stage t.id (get "stage" changes) db else db)
  pure (
      dict (
        field "before" (dict (columns t version changes)) (
          field "after" (dict changes)
            (field "authorization" (str "source_reference_recorded_not_permission_grant") end))))
