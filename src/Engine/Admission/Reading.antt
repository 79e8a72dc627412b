-- ===== src/Engine/Admission/Reading.antt =====
-- qingtian_engine/admission.py: `_facts` and `_guard`.
use Prim.Native.String.{◌++◌ as text_append}
use qingtian_ai.Engine.Admission.{Dependency, DependencyFact, Desk, Facts, TaskVersion}
use qingtian_ai.Engine.Admission.Columns.{
  cell, digest_of, native_basis, picked, scope_fields, target_fields, task_dict, version_for,
}
use qingtian_ai.Engine.Lifecycle.{
  Database, EngineTask, Host, ManagedRun, Snapshot, engine_task_key, execution_key, handoff_key,
  intake_key, managed_run_key, notice_key, version_key,
}
use qingtian_ai.Engine.Lifecycle.Executions.{field, null_or}
use qingtian_ai.Engine.Lifecycle.Snapshots.{lex_lt, precedes, snapshot}
use qingtian_ai.Engine.Policy.{execution_forbidden}
use qingtian_ai.Engine.Waiting.{is_paused_by_user}
use qingtian_ai.Exec.{Exec, admission_error, fetch, statement, ◌>>=◌}
use qingtian_ai.Json.{Entries, Items, Value, dict, end, int, item, list, nil, null, str}
use qingtian_ai.Prelude.{
  Bool, List, Option, String, [], any, codes, false, filter, if◌then◌else◌, is_empty, none, not,
  opt_eq, or_else, order_by, some, true, zero, ℕ, ◌==◌, ◌||◌, ◌∷◌,
}
use qingtian_ai.Prelude.Int.{pos}
use qingtian_ai.Store.Table.{find}

-- the join of a dependency with its task
unfoldable pub joined_dependencies : List EngineTask → List Dependency → List DependencyFact
joined_dependencies tasks [] = []
joined_dependencies tasks (d ∷ rest) =
    let later = joined_dependencies tasks rest in
    elim (find d.depends_on_id tasks) [
      | none ↦ later
      | some t ↦ record { id = t.id; state = t.row.state; relation = d.relation } ∷ later
    ]

unfoldable pub dependencies_of : String → Desk → List DependencyFact
dependencies_of task_id db =
    order_by (λ a b. lex_lt (codes a.id) (codes b.id))
      (joined_dependencies db.life.tasks (filter (λ d. d.task_id == task_id) db.dependencies))

-- ORDER BY attempt,id
unfoldable pub runs_of : String → Database → List ManagedRun
runs_of task_id life =
    order_by (λ r q. precedes r.attempt r.id q.attempt q.id)
      (filter (λ r. r.task_id == task_id) life.runs)

unfoldable pub dependency_items : List DependencyFact → Items
dependency_items [] = nil
dependency_items (d ∷ rest) =
    item
      (dict (
        field "id" (str d.id)
          (field "state" (null_or d.state) (field "relation" (str d.relation) end))))
      (dependency_items rest)

unfoldable pub run_items : List ManagedRun → Items
run_items [] = nil
run_items (r ∷ rest) =
    item
      (dict (
        field "id" (str r.id) (
          field "task_id" (str r.task_id) (
            field "attempt" (int (pos r.attempt)) (
              field "adapter" (str r.adapter)
                (field "status" (str r.status) (field "session_id" (str r.session_id) end)))))))
      (run_items rest)

-- the intent of the intake that the task names, if it names one
unfoldable pub intent_for : EngineTask → Database → Option String
intent_for t life = elim t.row.source_request_id [
  | none ↦ none
  | some id ↦
      if id == "" then none else elim (find id life.intakes) [ none ↦ none | some i ↦ i.intent ]
]

abbrev pub scope_of : Host → EngineTask → Value
scope_of host t = dict (picked scope_fields (task_dict host t))

abbrev pub basis_of : Host → EngineTask → Desk → Value
basis_of host t db = dict (
    field "task" (dict (native_basis (task_dict host t))) (
      field "scope" (scope_of host t) (
        field "dependencies" (list (dependency_items (dependencies_of t.id db))) (
          field "runs" (list (run_items (runs_of t.id db.life)))
            (field "intake_intent" (null_or (intent_for t db.life)) end)))))

abbrev pub revision_of : Option TaskVersion → Option ℕ
revision_of none = none
revision_of (some v) = some v.revision

abbrev pub facts_of : Host → EngineTask → Snapshot → Desk → Facts
facts_of host t lifecycle db = record {
  task = t;
  revision = revision_of (version_for host t (filter (λ v. v.task_id == t.id) db.versions));
  basis = digest_of host (basis_of host t db);
  scope_hash = digest_of host (scope_of host t);
  execution_target_hash = digest_of host (dict (picked target_fields (task_dict host t)));
  run_targets = filter (λ x. x.task_id == t.id) db.targets;
  dependencies = dependencies_of t.id db;
  runs = runs_of t.id db.life;
  lifecycle_blockers = lifecycle.completion_blockers;
  forbidden = execution_forbidden host.lower host.upper t.row (intent_for t db.life);
}

-- a call on the same connection
unfoldable pub on_life : {A : Type 0} → Exec Database A → Exec Desk A
on_life m db = let (r, life) = m db.life in (r, record db { life = life })

-- `_facts`
unfoldable pub facts : Host → ℕ → String → Exec Desk Facts
facts host now task_id = do
  t ← fetch (λ db. find task_id db.life.tasks) (admission_error "missing")
  lifecycle ← on_life (snapshot host now task_id)
  statement (facts_of host t lifecycle) (λ db. db)

-- a value that is true in Python, for a column of integers
unfoldable pub is_set : Value → Bool
is_set null = false
is_set (int (pos zero)) = false
is_set v = true

-- task.get(key, "").lower(), for a column of texts
unfoldable pub lowered : Host → String → Entries → String
lowered host key es = elim (cell key es) [ str s ↦ host.lower s | _ ↦ host.lower "" ]

unfoldable pub is_release_scope : Host → EngineTask → Bool
is_release_scope host t =
    any (λ name. lowered host "environment" (task_dict host t) == name)
      ("prod" ∷ "pro" ∷ "production" ∷ [])
    || any (λ name. lowered host "base_branch" (task_dict host t) == name)
        ("main" ∷ "master" ∷ "origin/main" ∷ "origin/master" ∷ [])

-- the first early return whose test holds
unfoldable pub first_true : {A : Type 0} → List (Bool × A) → Option A
first_true [] = none
first_true ((test, a) ∷ rest) = if test then some a else first_true rest

abbrev pub stops : Host → Facts → List (Bool × (String × String))
stops host f =
    let t = f.task in
    let owner_kind = or_else t.row.action_owner_kind "" in
    (is_paused_by_user host.lower host.upper t.row, ("rejected", "user_paused"))
    ∷ (
      any (λ s. opt_eq t.row.state (some s)) ("DONE" ∷ "CANCELED" ∷ "FAILED" ∷ []),
      ("rejected", "task_terminal"),
    )
    ∷ (f.forbidden, ("rejected", "execution_forbidden"))
    ∷ (not (is_empty f.lifecycle_blockers), ("deferred", "lifecycle_unresolved"))
    ∷ (
      is_set (cell "action_sensitive" (task_dict host t)),
      ("rejected", "sensitive_approval_required"),
    )
    ∷ (is_release_scope host t, ("rejected", "release_scope_forbidden"))
    ∷ (
      owner_kind == "user" || owner_kind == "external",
      ("deferred", text_append owner_kind "_action_pending"),
    )
    ∷ (
      any (λ d. not (opt_eq d.state (some "DONE"))) f.dependencies,
      ("deferred", "dependency_unresolved"),
    )
    ∷ []

-- `_guard`: the state and the reason that stop a dispatch
unfoldable pub guard : Host → Facts → Option (String × String)
guard host f = first_true (stops host f)
