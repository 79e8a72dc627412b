-- ===== src/Store/Recovery.antt =====
-- Checkpoints as QingtianStore (qingtian_core/store.py) reads them back: the integrity check of a
-- row, and the conditions under which a session may start from one.
use qingtian_ai.Exec.{
  Exec, Result, check, conflict, err, fetch, lift, not_found, ok, pure, storage_contract, ◌>>=◌,
  ◌>>◌,
}
use qingtian_ai.Json.{Codec, Value, content_hash, is_dict}
use qingtian_ai.Prelude.{
  Bool, Option, String, any, if◌then◌else◌, is_sha256, nat_eq, none, not, opt_eq, some, ℕ, ◌==◌,
  ◌||◌,
}
use qingtian_ai.Store.Rows.{
  Checkpoint, Db, checkpoint_key, evidence_key, indexed_key, knowledge_key, run_key, session_key,
  task_key,
}
use qingtian_ai.Store.Statements.{validated_id}
use qingtian_ai.Store.Table.{find}

pub record CheckpointView : Type 0 where
  pub row : Checkpoint
  pub snapshot : Value

-- json.JSONDecodeError, TypeError and ValueError become StorageContractError
contract : {A : Type 0} → Result A → Result A
contract (ok a) = ok a
contract (err e) = err storage_contract

intact : Checkpoint → Value → String → Result CheckpointView
intact r snapshot digest =
    if not (is_dict snapshot)
    then err storage_contract
    else if not (is_sha256 r.content_hash) || not (r.content_hash == digest)
    then err storage_contract
    else ok (record { row = r; snapshot = snapshot })

hashed : Checkpoint → Value → Result String → Result CheckpointView
unfolding intact
hashed r snapshot (ok digest) = intact r snapshot digest
hashed r snapshot (err e) = err e

loaded : Codec → Checkpoint → Option Value → Result CheckpointView
unfolding hashed contract
loaded c r none = err storage_contract
loaded c r (some snapshot) = hashed r snapshot (contract (content_hash c snapshot))

-- QingtianStore._checkpoint_from_row, on a row
unfoldable pub checkpoint_from_row : Codec → Checkpoint → Result CheckpointView
unfolding loaded
checkpoint_from_row c r = loaded c r (c.loads r.snapshot_json)

unfoldable pub is_superseded : String → Db → Bool
is_superseded checkpoint_id db = any (λ x. opt_eq x.supersedes (some checkpoint_id)) db.checkpoints

-- QingtianStore._require_recovery_checkpoint
unfoldable pub require_recovery_checkpoint : Codec → String → String → ℕ → Exec Db CheckpointView
require_recovery_checkpoint c checkpoint_id task_id task_revision = do
  validated_id "checkpoint" checkpoint_id
  row ← fetch (λ db. find checkpoint_id db.checkpoints) not_found
  checkpoint ← lift (checkpoint_from_row c row)
  check (λ _. row.task_id == task_id) conflict
  check (λ _. nat_eq row.task_revision task_revision) conflict
  check (λ db. not (is_superseded checkpoint_id db)) conflict
  pure checkpoint
