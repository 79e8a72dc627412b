-- ===== src/Engine/Admission/Columns.antt =====
-- qingtian_engine/admission.py: the row of a task as a dict, and `digest`. Of operations_clarity.py:
-- `native_basis` and `_version_for`.
use qingtian_ai.Contracts.Equality.{or_null, python_equal}
use qingtian_ai.Engine.Admission.{TaskVersion}
use qingtian_ai.Engine.Lifecycle.{
  EngineTask, Host, engine_task_key, execution_key, handoff_key, intake_key, managed_run_key,
  notice_key, version_key,
}
use qingtian_ai.Engine.Lifecycle.Executions.{field, null_or}
use qingtian_ai.Json.{Entries, Value, dict, end, entry, int, null, str}
use qingtian_ai.Json.Dicts.{get, is_this_text}
use qingtian_ai.Prelude.{
  Bool, List, Option, String, [], any, false, if◌then◌else◌, leb, ltb, nat_eq, none, not, some, ℕ,
  ◌&&◌, ◌∷◌,
}
use qingtian_ai.Prelude.Int.{pos}

abbrev pub flag : Bool → Value
flag b = int (pos (if b then 1 else 0))

abbrev pub time_or_null : Host → Option ℕ → Value
time_or_null host none = null
time_or_null host (some n) = str (host.isoformat n)

-- dict(row), for a row of tasks
unfoldable pub task_dict : Host → EngineTask → Entries
task_dict host t = field "id" (str t.id) (
    field "state" (null_or t.row.state) (
      field "title" (null_or t.row.title) (
        field "scope_summary" (null_or t.row.scope_summary) (
          field "blocking_reason" (null_or t.row.blocking_reason) (
            field "action_owner" (null_or t.row.action_owner) (
              field "action_owner_kind" (null_or t.row.action_owner_kind) (
                field "action_text" (null_or t.row.action_text) (
                  field "authorization_policy" (null_or t.row.authorization_policy) (
                    field "imported_from" (null_or t.row.imported_from) (
                      field "source_request_id" (null_or t.row.source_request_id) (
                        field "environment" (str t.environment) (
                          field "requires_deploy" (flag t.requires_deploy) (
                            field "owner_session" (str t.owner_session) (
                              field "action_due" (null_or t.action_due) (
                                field "execution_mode" (str t.execution_mode) (
                                  field "heartbeat_at" (time_or_null host t.heartbeat_at) (
                                    field "progress" (int (pos t.progress)) (
                                      field "started_at" (time_or_null host t.started_at) (
                                        field "model" (null_or t.model) (
                                          field "reasoning" (null_or t.reasoning) (
                                            field "speed" (null_or t.speed) (
                                              field "updated_at" (str (host.isoformat t.updated_at))
                                                t.others))))))))))))))))))))))

-- task.get(key), for a key of a dict
abbrev pub cell : String → Entries → Value
cell key es = or_null (get key es)

-- {key: task.get(key) for key in keys}
unfoldable pub picked : List String → Entries → Entries
picked [] es = end
picked (key ∷ keys) es = entry (str key) (cell key es) (picked keys es)

-- `native_basis` of operations_clarity.py
unfoldable pub native_basis : Entries → Entries
native_basis end = end
native_basis (entry k v rest) =
    let others = native_basis rest in
    if any (λ name. is_this_text name k) ("updated_at" ∷ "heartbeat_at" ∷ "action_revision" ∷ [])
    then others
    else entry k v others

-- `_positive` of operations_clarity.py
unfoldable pub is_positive : ℕ → Bool
is_positive n = not (ltb n 1) && ltb n 9223372036854775808

unfoldable pub matches_basis : Host → EngineTask → TaskVersion → Bool
matches_basis host t v =
    nat_eq v.present 1
    && is_positive v.basis_revision
    && is_positive v.revision
    && leb v.basis_revision v.revision
    && (elim v.native [
      | none ↦ false
      | some native ↦ python_equal native (dict (native_basis (task_dict host t)))
    ])

-- `_version_for` of operations_clarity.py, of the versions of the task
unfoldable pub version_for : Host → EngineTask → List TaskVersion → Option TaskVersion
version_for host t (v ∷ []) = if matches_basis host t v then some v else none
version_for host t _ = none

-- `canonical` and `digest`
abbrev pub digest_of : Host → Value → String
digest_of host v = host.hash (host.dumps v)

-- TARGET_FIELDS, and the names of the scope
abbrev pub target_fields : List String
target_fields =
    "model" ∷ "reasoning" ∷ "speed" ∷ "worker_type" ∷ "owner_session" ∷ "branch" ∷ "worktree" ∷ []

abbrev pub scope_fields : List String
scope_fields =
    "title" ∷ "scope_summary" ∷ "repository" ∷ "base_branch" ∷ "environment"
    ∷ "authorization_policy" ∷ "imported_from" ∷ "execution_mode" ∷ "requires_deploy"
    ∷ "evidence_profile" ∷ []
