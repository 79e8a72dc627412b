-- ===== src/Store/Records.antt =====
-- Evidence and checkpoints: `add_evidence`, `create_checkpoint` and `get_checkpoint` of
-- QingtianStore (qingtian_core/store.py).
use qingtian_ai.Exec.{
  Exec, Result, check, conflict, err, fetch, lift, not_found, ok, transaction, value_error, when,
  ◌>>=◌, ◌>>◌,
}
use qingtian_ai.Json.{Codec, Value, canonical_json, content_hash, dict, end, is_dict}
use qingtian_ai.Prelude.{
  Bool, Option, String, if◌then◌else◌, is_sha256, is_some, none, not, or_else, some, true, truthy,
  ℕ, ◌==◌, ◌||◌,
}
use qingtian_ai.Store.Recovery.{CheckpointView, checkpoint_from_row, is_superseded}
use qingtian_ai.Store.Rows.{
  Checkpoint, Db, Evidence, checkpoint_key, evidence_key, indexed_key, knowledge_key, run_key,
  session_key, task_key,
}
use qingtian_ai.Store.Statements.{absent, insert_checkpoint, insert_evidence, validated_id}
use qingtian_ai.Store.Table.{find}

unfoldable pub is_subject_type : String → Bool
is_subject_type s = s == "task" || s == "session" || s == "run" || s == "release" || s == "artifact"

unfoldable pub is_evidence_result : String → Bool
is_evidence_result s =
    s == "passed" || s == "failed" || s == "blocked" || s == "unknown" || s == "observed"

-- releases and artifacts have no table, and are not looked up
unfoldable pub subject_exists : String → String → Db → Bool
subject_exists subject_type id db =
    if subject_type == "task"
    then is_some (find id db.tasks)
    else if subject_type == "session"
    then is_some (find id db.sessions)
    else if subject_type == "run"
    then is_some (find id db.runs)
    else true

-- metadata or {}; isinstance(metadata, dict)
pub metadata_or_empty : Option Value → Value
metadata_or_empty none = dict end
metadata_or_empty (some v) = v

pub record EvidenceView : Type 0 where
  pub row : Evidence
  pub metadata : Value

unfoldable pub decode_evidence : Codec → Evidence → Result EvidenceView
decode_evidence c r = elim (c.loads r.metadata_json) [
  | none ↦ err value_error
  | some v ↦ ok (record { row = r; metadata = v })
]

-- the row that `add_evidence` inserts
abbrev pub new_evidence : String → String → String → String → Option String → String → ℕ → Evidence
new_evidence id subject_type subject_id result artifact_hash metadata_json now = record {
  evidence_id = id;
  subject_type = subject_type;
  subject_id = subject_id;
  result = result;
  artifact_hash = artifact_hash;
  metadata_json = metadata_json;
  observed_at = now;
}

unfoldable pub add_evidence :
    Codec
    → String
    → String
    → String
    → Option Value
    → Option String
    → Option String
    → ℕ
    → String
    → Exec Db EvidenceView
unfolding metadata_or_empty decode_evidence
add_evidence c subject_type subject_id result metadata artifact_hash evidence_id now fresh = do
  check (λ _. is_subject_type subject_type) value_error
  check (λ _. is_evidence_result result) value_error
  validated_id subject_type subject_id
  check (λ _. absent artifact_hash || is_sha256 (or_else artifact_hash "")) value_error
  check (λ _. is_dict (metadata_or_empty metadata)) value_error
  let id = or_else evidence_id fresh
  validated_id "evidence" id
  transaction do
    check (subject_exists subject_type subject_id) not_found
    metadata_json ← lift (canonical_json c (metadata_or_empty metadata))
    insert_evidence (new_evidence id subject_type subject_id result artifact_hash metadata_json now)
  row ← fetch (λ db. find id db.evidence) not_found
  lift (decode_evidence c row)

unfoldable pub get_checkpoint : Codec → String → Exec Db CheckpointView
get_checkpoint c checkpoint_id = do
  validated_id "checkpoint" checkpoint_id
  row ← fetch (λ db. find checkpoint_id db.checkpoints) not_found
  lift (checkpoint_from_row c row)

-- the block of `create_checkpoint` under `if supersedes`
unfoldable pub supersede : Codec → String → String → Exec Db (Unit {0})
supersede c old task_id = do
  validated_id "checkpoint" old
  row ← fetch (λ db. find old db.checkpoints) not_found
  previous ← lift (checkpoint_from_row c row)
  check (λ _. row.task_id == task_id) conflict
  check (λ db. not (is_superseded old db)) conflict

-- the row that `create_checkpoint` inserts
abbrev pub new_checkpoint : String → String → ℕ → String → String → Option String → ℕ → Checkpoint
new_checkpoint id task_id revision encoded digest supersedes now = record {
  checkpoint_id = id;
  task_id = task_id;
  task_revision = revision;
  snapshot_json = encoded;
  content_hash = digest;
  supersedes = supersedes;
  created_at = now;
}

unfoldable pub create_checkpoint :
    Codec → String → Value → Option String → Option String → ℕ → String → Exec Db CheckpointView
create_checkpoint c task_id snapshot supersedes checkpoint_id now fresh = do
  check (λ _. is_dict snapshot) value_error
  let id = or_else checkpoint_id fresh
  validated_id "checkpoint" id
  encoded ← lift (canonical_json c snapshot)
  digest ← lift (content_hash c snapshot)
  transaction do
    task ← fetch (λ db. find task_id db.tasks) not_found
    when (truthy supersedes) (supersede c (or_else supersedes "") task_id)
    insert_checkpoint (new_checkpoint id task_id task.revision encoded digest supersedes now)
  get_checkpoint c id
