-- ===== src/Store/Methods/Knowledge.antt =====
-- `add_knowledge`, `forget_knowledge` and `add_evidence` do one abstract step, and change nothing
-- when they raise; what `search_knowledge` returns.
use qingtian_ai.Exec.{ok}
use qingtian_ai.Exec.Rules.{Post-bind, Post-check, Post-lift, Post-modify_last, Post-statement}
use qingtian_ai.Exec.Rules.Ends.{Ends-bind, Ends-fetch, Ends-lift}
use qingtian_ai.Exec.Rules.Rollback.{
  Atomic, Atomic-check, Atomic-lift, Atomic-transaction, Atomic-transaction_last,
}
use qingtian_ai.Json.{Codec, IsFaithful, Value, canonical_json-ok}
use qingtian_ai.Prelude.{
  Option, String, arith, count, is_some, nat_eq→≡, none, or_else, refl, some, true, ℕ, ◌==◌, ◌≡◌,
}
use qingtian_ai.Store.Knowledge.{
  Engines, Entry, add_knowledge, classification_rank, forget_knowledge, get_knowledge,
  index_knowledge, new_knowledge, unindex_knowledge,
}
use qingtian_ai.Store.Records.{
  add_evidence, decode_evidence, metadata_or_empty, new_evidence, subject_exists,
}
use qingtian_ai.Store.Rows.{
  Db, Evidence, Knowledge, checkpoint_key, evidence_key, indexed_key, knowledge_key, run_key,
  session_key, task_key,
}
use qingtian_ai.Store.Statements.{
  Post-insert_evidence, Post-insert_knowledge, insert_knowledge, validated_id,
}
use qingtian_ai.Store.Table.{delete, find, find-insert_self, insert}

-- writing to the index leaves the table alone
find-indexed :
    (r : Knowledge) (db : Db) {x : Knowledge}
    → find r.knowledge_id db.knowledge ≡ some x
    → find r.knowledge_id (index_knowledge r db).knowledge ≡ some x
unfolding index_knowledge
find-indexed r db h = ground arith

decode_evidence_lem :
    (c : Codec) (r : Evidence) {v : Value}
    → c.loads r.metadata_json ≡ some v
    → decode_evidence c r ≡ ok (record { row = r; metadata = v })
unfolding decode_evidence
decode_evidence_lem c r h = rw (h, decode_evidence)

-- `add_knowledge` returns the row that it has added, to the table and, where it is enabled, to the
-- index; a call that raises leaves the database as it was.
pub add_knowledge_lem :
    (c : Codec) (e : Engines) (a : Entry) (knowledge_id : Option String) (now : ℕ) (fresh : String)
    (db : Db)
    → Atomic (add_knowledge c e a knowledge_id now fresh) db (λ r db'.
      (find r.knowledge_id db.knowledge ≡ none)
      × (is_some (classification_rank r.classification) ≡ true)
      × (db' ≡ index_knowledge r (record db { knowledge = insert r db.knowledge })))
unfolding add_knowledge validated_id get_knowledge insert_knowledge
add_knowledge_lem c e a knowledge_id now fresh db = Atomic-check _ _ _ λ ranked.
    Atomic-check _ _ _ λ _. Atomic-check _ _ _ λ _. Atomic-check _ _ _ λ _. Atomic-check _ _ _ λ _.
      Atomic-check _ _ _ λ _. Atomic-check _ _ _ λ _. Atomic-lift _ _ λ digest _.
        Atomic-transaction _ _ (
          Post-bind _ _ (
            let r = new_knowledge (or_else knowledge_id fresh) a digest now in
            Post-insert_knowledge r λ free. Post-modify_last _ (
              Ends-fetch _ _ r
                (find-indexed r (record db { knowledge = insert r db.knowledge })
                  (find-insert_self r db.knowledge free))
                (free, ranked, refl))))

-- `forget_knowledge` removes the row, from the table and, where it is enabled, from the index; a
-- call that raises leaves the database as it was.
pub forget_knowledge_lem :
    (id : String) (db : Db)
    → Atomic (forget_knowledge id) db (λ _ db'.
      (count (λ r. r.knowledge_id == id) db.knowledge ≡ 1)
      × (db' ≡ unindex_knowledge id (record db { knowledge = delete id db.knowledge })))
unfolding forget_knowledge
forget_knowledge_lem id db =
    Atomic-transaction_last _
      (Post-statement _ _ _ (Post-check _ _ _ λ one. Post-modify_last _ (nat_eq→≡ _ _ one, refl)))

-- `add_evidence` returns the row that it has added, with the metadata as it reads back, and only
-- about a task, session or run that is there; a call that raises leaves the database as it was.
pub add_evidence_lem :
    (c : Codec) (f : IsFaithful c) (subject_type subject_id result : String)
    (metadata : Option Value) (artifact_hash evidence_id : Option String) (now : ℕ) (fresh : String)
    (db : Db)
    → Atomic
        (add_evidence c subject_type subject_id result metadata artifact_hash evidence_id now fresh)
        db
        (λ v db'.
          (db' ≡ record db { evidence = insert v.row db.evidence })
          × (subject_exists subject_type subject_id db ≡ true)
          × (v.row.subject_id ≡ subject_id)
          × (c.dumps v.metadata ≡ c.dumps (metadata_or_empty metadata)))
unfolding add_evidence validated_id
add_evidence_lem c f subject_type subject_id result metadata artifact_hash evidence_id now fresh
      db =
    Atomic-check _ _ _ λ _. Atomic-check _ _ _ λ _. Atomic-check _ _ _ λ _. Atomic-check _ _ _ λ _.
      Atomic-check _ _ _ λ _. Atomic-check _ _ _ λ _. Atomic-transaction _ _ (
        Post-check _ _ _ λ present. Post-lift _ _ λ text ht.
          let (strict, e) = canonical_json-ok c (metadata_or_empty metadata) ht in
          let r =
            new_evidence (or_else evidence_id fresh) subject_type subject_id result artifact_hash
              text now in
          Post-insert_evidence r λ free. Ends-bind _ _ (
            Ends-fetch _ _ r (find-insert_self r db.evidence free) (
              Ends-lift _ (decode_evidence_lem c r (rw e (f.reloads _ strict)))
                (refl, present, refl, f.same_text _ strict))))
