-- ===== src/Engine/Lease/Evidence.antt =====
-- qingtian_engine/coordinator.py: `sync_evidence_contracts`. Of service.py: `required_evidence` and
-- `missing_completion_evidence`. `lower` is str.lower, and `exists` and `has_git` are what the file
-- system says of a repository's path and of `.git` in it. The loop over the set of the required
-- kinds takes them in the order of the list, which has each of them once. What else `get_task` shows
-- of a task is not read here, and is taken to be readable. An exception rolls the writes back.
use mathlib.Core.Option
use qingtian_ai.Prelude.{
  Bool, List, Option, String, [], any, count, false, filter, first, if◌then◌else◌, length, ltb, map,
  none, not, order_by, some, true, ℕ, ◌&&◌, ◌++◌, ◌+◌, ◌==◌, ◌||◌, ◌∷◌,
}

-- the columns of a row of tasks that say which evidence it requires
pub record EvidenceTask : Type 0 where
  pub id : String
  pub state : String
  pub evidence_profile : String
  pub worker_type : String
  pub repository : String
  pub requires_deploy : Bool

-- a row of evidence; `verified` is stored as 0 or 1
pub record EvidenceItem : Type 0 where
  pub id : ℕ
  pub task_id : String
  pub kind : String
  pub verified : Bool

-- a row of evidence_contracts; `satisfied` is the status SATISFIED, else it is MISSING
pub record EvidenceContract : Type 0 where
  pub task_id : String
  pub kind : String
  pub required : Bool
  pub satisfied : Bool
  pub evidence_id : Option ℕ
  pub updated_at : ℕ

pub record Machine : Type 0 where
  pub lower : String → String
  pub exists : String → Bool
  pub has_git : String → Bool

pub record Ledger : Type 0 where
  pub tasks : List EvidenceTask
  pub evidence : List EvidenceItem
  pub contracts : List EvidenceContract

pub record Counts : Type 0 where
  pub contracts : ℕ
  pub satisfied : ℕ
  pub missing : ℕ

unfoldable pub is_in : String → List String → Bool
is_in k ks = any (λ j. j == k) ks

module _ (machine : Machine) where
  unfoldable pub profile_of : EvidenceTask → String
  profile_of task =
      machine.lower (if task.evidence_profile == "" then "auto" else task.evidence_profile)

  unfoldable pub is_local_artifact : EvidenceTask → Bool
  is_local_artifact task =
      profile_of task == "auto"
      && not (task.repository == "")
      && machine.exists task.repository
      && not (machine.has_git task.repository)

  unfoldable pub required_by_profile : EvidenceTask → List String
  required_by_profile task =
      let profile = profile_of task in
      let worker_type = machine.lower task.worker_type in
      if profile == "legacy"
      then "migration_metadata" ∷ []
      else if profile == "browser" || (profile == "auto" && worker_type == "browser")
      then "browser" ∷ []
      else if profile == "qa" || (profile == "auto" && worker_type == "qa")
      then "test" ∷ []
      else if profile == "code"
          || (profile == "auto" && not (task.repository == "") && not (is_local_artifact task))
      then "commit" ∷ "test" ∷ []
      else "artifact" ∷ []

  unfoldable pub required_for_task : EvidenceTask → List String
  required_for_task task =
      if task.requires_deploy
      then required_by_profile task ++ "deploy" ∷ "smoke" ∷ []
      else required_by_profile task

  -- none is the KeyError of an unknown task
  unfoldable pub required_evidence : Ledger → String → Option (List String)
  required_evidence db task_id =
      Option.map required_for_task (first (λ t. t.id == task_id) db.tasks)

  unfoldable pub missing_completion_evidence : Ledger → String → Option (List String)
  missing_completion_evidence db task_id =
      Option.map
        (filter λ k. not (any (λ e. e.task_id == task_id && e.verified && e.kind == k) db.evidence))
        (required_evidence db task_id)

-- ORDER BY id DESC, and the first item of a kind that `setdefault` keeps
unfoldable pub newest_first : Ledger → String → List EvidenceItem
newest_first db task_id =
    order_by (λ a b. ltb b.id a.id) (filter (λ e. e.task_id == task_id) db.evidence)

unfoldable pub item_of_kind : Ledger → String → String → Option EvidenceItem
item_of_kind db task_id k = first (λ e. e.kind == k) (newest_first db task_id)

unfoldable pub is_verified : Option EvidenceItem → Bool
is_verified none = false
is_verified (some e) = e.verified

-- status = "SATISFIED"
unfoldable pub is_satisfied_by : Ledger → String → String → Bool
is_satisfied_by db task_id k = is_verified (item_of_kind db task_id k)

unfoldable pub contract_for : ℕ → Ledger → String → String → EvidenceContract
contract_for now db task_id k = record {
  task_id = task_id;
  kind = k;
  required = true;
  satisfied = is_satisfied_by db task_id k;
  evidence_id = Option.map (λ e. e.id) (item_of_kind db task_id k);
  updated_at = now;
}

unfoldable pub is_of : String → String → EvidenceContract → Bool
is_of task_id k c = c.task_id == task_id && c.kind == k

-- INSERT, or the update of the row with its primary key; all columns but `policy`, which is
-- constant, are written
unfoldable pub put_contract : EvidenceContract → List EvidenceContract → List EvidenceContract
put_contract c [] = c ∷ []
put_contract c (old ∷ rest) =
    let others = put_contract c rest in
    if is_of c.task_id c.kind old then c ∷ rest else old ∷ others

unfoldable pub put_contracts :
    ℕ → Ledger → String → List String → List EvidenceContract → List EvidenceContract
put_contracts now db task_id [] cs = cs
put_contracts now db task_id (k ∷ ks) cs =
    put_contracts now db task_id ks (put_contract (contract_for now db task_id k) cs)

-- SET required=0 for the kinds that are not required; with none required, it is for all of them
unfoldable pub relax : ℕ → String → List String → EvidenceContract → EvidenceContract
relax now task_id required c =
    if c.task_id == task_id && not (is_in c.kind required)
    then record c { required = false; updated_at = now }
    else c

unfoldable pub counted : Ledger → String → List String → Counts → Counts
counted db task_id required n = record {
  contracts = n.contracts + length required;
  satisfied = n.satisfied + count (is_satisfied_by db task_id) required;
  missing = n.missing + count (λ k. not (is_satisfied_by db task_id k)) required;
}

unfoldable pub sync_task :
    ℕ → Ledger → String → List String → List EvidenceContract → List EvidenceContract
sync_task now db task_id required cs =
    map (relax now task_id required) (put_contracts now db task_id required cs)

-- state NOT IN ('CANCELED')
unfoldable pub is_kept : EvidenceTask → Bool
is_kept t = not (t.state == "CANCELED")

module _ (machine : Machine) (now : ℕ) (db : Ledger) where
  unfoldable pub sync_one :
      EvidenceTask → List EvidenceContract × Counts → Option (List EvidenceContract × Counts)
  sync_one t (cs, n) =
      Option.map (λ required. (sync_task now db t.id required cs, counted db t.id required n))
        (required_evidence machine db t.id)

  unfoldable pub sync_tasks :
      List EvidenceTask → List EvidenceContract × Counts → Option (List EvidenceContract × Counts)
  sync_tasks [] result = some result
  sync_tasks (t ∷ ts) result = Option.bind (sync_one t result) (sync_tasks ts)

  unfoldable pub sync_evidence_contracts : Option (List EvidenceContract × Counts)
  sync_evidence_contracts =
      sync_tasks (filter is_kept db.tasks)
        (db.contracts, record { contracts = 0; satisfied = 0; missing = 0 })

-- the row with a primary key
unfoldable pub contract_of : String → String → List EvidenceContract → Option EvidenceContract
contract_of task_id k cs = first (is_of task_id k) cs

unfoldable pub is_required : Option EvidenceContract → Bool
is_required none = false
is_required (some c) = c.required

unfoldable pub is_met : Option EvidenceContract → Bool
is_met none = false
is_met (some c) = c.required && c.satisfied
