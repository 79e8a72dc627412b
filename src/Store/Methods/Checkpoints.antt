-- ===== src/Store/Methods/Checkpoints.antt =====
-- `create_checkpoint` does one abstract step, changes nothing when it raises, and what it stores
-- passes the integrity check of `_checkpoint_from_row`.
use qingtian_ai.Exec.{ok}
use qingtian_ai.Exec.Rules.{Post, Post-check, Post-check_last, Post-fetch, Post-lift, Post-when}
use qingtian_ai.Exec.Rules.Ends.{Ends, Ends-bind, Ends-check, Ends-fetch, Ends-lift}
use qingtian_ai.Exec.Rules.Rollback.{Atomic, Atomic-check, Atomic-lift, Atomic-transaction}
use qingtian_ai.Json.{
  Codec, IsFaithful, Value, canonical_json, canonical_json-ok, content_hash, is_dict,
  require_strict_json,
}
use qingtian_ai.Prelude.{
  Option, String, ap, arith, eq_self, false, is_id, is_some, not-true, or_else, refl, some, subst,
  sym, true, truthy, ℕ, ◌∙◌, ◌≡◌,
}
use qingtian_ai.Store.Records.{create_checkpoint, get_checkpoint, new_checkpoint, supersede}
use qingtian_ai.Store.Recovery.{CheckpointView, checkpoint_from_row, is_superseded}
use qingtian_ai.Store.Rows.{
  Checkpoint, Db, checkpoint_key, evidence_key, indexed_key, knowledge_key, run_key, session_key,
  task_key,
}
use qingtian_ai.Store.Statements.{Post-insert_checkpoint, validated_id}
use qingtian_ai.Store.Step.{CheckpointCreated}
use qingtian_ai.Store.Table.{find, find-insert_self, insert}

pub content_hash_lem :
    (c : Codec) (v : Value)
    → require_strict_json v ≡ ok tt
    → content_hash c v ≡ ok (c.sha256 (c.dumps v))
unfolding content_hash canonical_json
content_hash_lem c v h = rw h

-- a row that the encoder and the digest have made is intact
checkpoint_from_row-made :
    (c : Codec) (f : IsFaithful c) (r : Checkpoint) (v : Value)
    → require_strict_json v ≡ ok tt
    → is_dict v ≡ true
    → r.snapshot_json ≡ c.dumps v
    → r.content_hash ≡ c.sha256 (c.dumps v)
    → checkpoint_from_row c r ≡ ok (record { row = r; snapshot = f.reread v })
unfolding checkpoint_from_row
checkpoint_from_row-made c f r v strict is_snapshot text hash = ground (
  arith,
  f.reloads v strict,
  f.still_dict v strict,
  f.same_text v strict,
  content_hash_lem c (f.reread v) (f.still_strict v strict),
  f.hex_digest (c.dumps v),
  eq_self (c.sha256 (c.dumps v)),
)

or_else-truthy : (s : String) → truthy (some s) ≡ true → or_else (some s) "" ≡ s
or_else-truthy s h = ground arith

unforked_lem :
    (supersedes : Option String) (db : Db)
    → (truthy supersedes ≡ true
        → (is_superseded (or_else supersedes "") db ≡ false)
          × (is_some (find (or_else supersedes "") db.checkpoints) ≡ true))
    → (old : String) → supersedes ≡ some old
    → truthy (some old) ≡ true
    → (is_superseded old db ≡ false) × (is_some (find old db.checkpoints) ≡ true)
unforked_lem supersedes db settled old p t =
    subst (λ (k : String). (is_superseded k db ≡ false) × (is_some (find k db.checkpoints) ≡ true))
      (ap (λ (o : Option String). or_else o "") p ∙ or_else-truthy old t)
      (settled (subst (λ o. truthy o ≡ true) (sym p) t))

Post-supersede :
    (c : Codec) (old task_id : String) (db : Db)
    → Post (supersede c old task_id) db (λ _ db'.
      (db' ≡ db) × ((is_superseded old db ≡ false) × (is_some (find old db.checkpoints) ≡ true)))
unfolding supersede validated_id is_some
Post-supersede c old task_id db = Post-check _ _ _ λ _. Post-fetch _ _ _ λ row here.
    Post-lift _ _
      λ _ _. Post-check _ _ _ λ _. Post-check_last _ _ λ p. (refl, (not-true _ p, rw here))

-- `create_checkpoint` returns the snapshot that it was given, as it reads back, in the row that it
-- has added for the task's current revision; a call that raises leaves the database as it was.
pub create_checkpoint_lem :
    (c : Codec)
    → IsFaithful c
    → (task_id : String) (snapshot : Value) (supersedes checkpoint_id : Option String) (now : ℕ)
      (fresh : String) (db : Db)
    → Atomic (create_checkpoint c task_id snapshot supersedes checkpoint_id now fresh) db (λ v db'.
      CheckpointCreated c db v.row
      × (db' ≡ record db { checkpoints = insert v.row db.checkpoints })
      × (v.row.supersedes ≡ supersedes)
      × (c.dumps v.snapshot ≡ c.dumps snapshot))
unfolding create_checkpoint validated_id get_checkpoint
create_checkpoint_lem c f task_id snapshot supersedes checkpoint_id now fresh db =
    Atomic-check _ _ _ λ is_snapshot. Atomic-check _ _ _ λ valid. Atomic-lift _ _ λ encoded he.
      Atomic-lift _ _ λ digest hd. Atomic-transaction _ _ (
        Post-fetch _ _ _ λ task has_task.
          Post-when _ _ _ _ (Post-supersede c (or_else supersedes "") task_id db) λ settled.
            let id = or_else checkpoint_id fresh in
            let r = new_checkpoint id task_id task.revision encoded digest supersedes now in
            let (strict, text) = canonical_json-ok c snapshot he in
            let hash : digest ≡ c.sha256 (c.dumps snapshot) =
              cc (content_hash_lem c snapshot strict, hd) in
            let readable = checkpoint_from_row-made c f r snapshot strict is_snapshot text hash in
            Post-insert_checkpoint r λ free. Ends-check _ _ _ valid (
              Ends-bind _ _ (
                Ends-fetch _ _ r (find-insert_self r db.checkpoints free) (
                  Ends-lift _ readable (
                    record {
                      fresh = free;
                      task = task;
                      has_task = has_task;
                      current = refl;
                      view = record { row = r; snapshot = f.reread snapshot };
                      readable = readable;
                      unforked = unforked_lem supersedes db settled;
                    },
                    refl,
                    refl,
                    f.same_text snapshot strict,
                  )))))

pub get_checkpoint_lem :
    (c : Codec) (id : String) (db : Db) {r : Checkpoint} {v : CheckpointView}
    → find id db.checkpoints ≡ some r
    → is_id "checkpoint" id ≡ true
    → checkpoint_from_row c r ≡ ok v
    → get_checkpoint c id db ≡ (ok v, db)
unfolding get_checkpoint validated_id
get_checkpoint_lem c id db {r} {v} here valid intact =
    let done : Ends (get_checkpoint c id) db (λ x _. x ≡ v) =
      Ends-check _ _ _ valid (Ends-bind _ _ (Ends-fetch _ _ r here (Ends-lift _ intact refl))) in
    done.runs ∙ ap (λ (x : CheckpointView). (ok x, db)) done.good
