-- ===== src/Store/Export.antt =====
-- `export_task` of QingtianStore (qingtian_core/store.py): what it collects about a task. The time
-- of the export and the digest of the payload are left out.
use qingtian_ai.Exec.{
  Exec, Result, err, fetch, lift, not_found, ok, pure, statement, value_error, ◌>>=◌,
}
use qingtian_ai.Exec.Rules.{Post, Post-fetch, Post-lift, Post-pure, Post-statement}
use qingtian_ai.Json.{Codec, Value}
use qingtian_ai.Prelude.{
  Bool, List, Option, String, [], any, ap, ap₂, filter, ltb, map, none, order_by, query_exact, refl,
  some, ◌&&◌, ◌==◌, ◌||◌, ◌∙◌, ◌∷◌, ◌≡◌,
}
use qingtian_ai.Providers.{provider_key}
use qingtian_ai.Store.Records.{EvidenceView, decode_evidence}
use qingtian_ai.Store.Recovery.{CheckpointView, checkpoint_from_row}
use qingtian_ai.Store.Rows.{
  Checkpoint, Db, Evidence, Run, Session, checkpoint_key, evidence_key, indexed_key, knowledge_key,
  run_key, session_key, task_key,
}
use qingtian_ai.Store.Table.{find}
use qingtian_ai.Store.Tasks.{TaskView, decode_task}

pub record Export : Type 0 where
  pub task : TaskView
  pub sessions : List Session
  pub runs : List Run
  pub checkpoints : List CheckpointView
  pub evidence : List EvidenceView

-- ORDER BY created_at, and ORDER BY observed_at
older_session : Session → Session → Bool
older_session a b = ltb a.created_at b.created_at

older_run : Run → Run → Bool
older_run a b = ltb a.created_at b.created_at

older_checkpoint : Checkpoint → Checkpoint → Bool
older_checkpoint a b = ltb a.created_at b.created_at

older_evidence : Evidence → Evidence → Bool
older_evidence a b = ltb a.observed_at b.observed_at

-- the clauses of the query for evidence, over the sessions and the runs of the task
unfoldable pub concerns : String → List Session → List Run → Evidence → Bool
concerns task_id sessions runs e =
    e.subject_type == "task" && e.subject_id == task_id
    || e.subject_type == "session" && any (λ s. s.session_id == e.subject_id) sessions
    || e.subject_type == "run" && any (λ r. r.run_id == e.subject_id) runs

module _ {A B : Type 0} (decode : A → Result B) where
  abbrev cons_item : Result B → Result (List B) → Result (List B)
  cons_item (ok v) (ok vs) = ok (v ∷ vs)
  cons_item (ok v) (err e) = err e
  cons_item (err e) rest = err e

  -- [decode(row) for row in rows]
  unfoldable pub decode_rows : List A → Result (List B)
  decode_rows [] = ok []
  decode_rows (r ∷ rs) = cons_item (decode r) (decode_rows rs)

  cons_item-ok :
      (v : Result B) (rest : Result (List B)) {vs : List B}
      → cons_item v rest ≡ ok vs
      → (x : B) × (xs : List B) × (v ≡ ok x) × (rest ≡ ok xs) × (vs ≡ x ∷ xs)
  cons_item-ok (ok v) (ok rest) h = (v, rest, refl, refl, cc)
  cons_item-ok (ok v) (err e) h = cc
  cons_item-ok (err e) rest h = cc

  decode_rows-map :
      (row : B → A) (rs : List A) {vs : List B}
      → ((r : A) (v : B) → decode r ≡ ok v → row v ≡ r)
      → decode_rows rs ≡ ok vs
      → map row vs ≡ rs
  unfolding decode_rows
  decode_rows-map row [] {vs} f h = let e : vs ≡ [] = cc h in ap (map row) e
  decode_rows-map row (r ∷ rs) f h =
      let (x, xs, p, q, e) = cons_item-ok _ _ h in
      ap (map row) e ∙ ap₂ (λ y ys. y ∷ ys) (f r x p) (decode_rows-map row rs f q)

unfoldable pub export_task : Codec → String → Exec Db Export
unfolding older_session older_run older_checkpoint older_evidence
export_task c task_id = do
  task_row ← fetch (λ db. find task_id db.tasks) not_found
  task ← lift (decode_task c task_row)
  sessions ←
      statement (λ db. order_by older_session (filter (λ s. s.task_id == task_id) db.sessions))
        (λ db. db)
  runs ←
      statement (λ db. order_by older_run (filter (λ r. r.task_id == task_id) db.runs)) (λ db. db)
  checkpoint_rows ←
      statement
        (λ db. order_by older_checkpoint (filter (λ k. k.task_id == task_id) db.checkpoints))
        (λ db. db)
  checkpoints ← lift (decode_rows (checkpoint_from_row c) checkpoint_rows)
  evidence_rows ←
      statement
        (λ db. order_by older_evidence (filter (concerns task_id sessions runs) db.evidence))
        (λ db. db)
  evidence ← lift (decode_rows (decode_evidence c) evidence_rows)
  pure (record {
    task = task;
    sessions = sessions;
    runs = runs;
    checkpoints = checkpoints;
    evidence = evidence;
  })

row-decode_evidence :
    (c : Codec) (r : Evidence) (v : EvidenceView) → decode_evidence c r ≡ ok v → v.row ≡ r
unfolding decode_evidence
row-decode_evidence c r v h = go (c.loads r.metadata_json) h
  where
    go :
        (o : Option Value)
        → elim o [ none ↦ err value_error | some m ↦ ok (record { row = r; metadata = m }) ] ≡ ok v
        → v.row ≡ r
    go none h = cc
    go (some m) h = cc

-- The sessions, the runs and the evidence of an export, read as sets by a test of their rows.
pub record Exported (task_id : String) (db : Db) (x : Export) : Type 0 where
  pub sessions_exact :
      (p : Session → Bool) → any p x.sessions ≡ any (λ s. s.task_id == task_id && p s) db.sessions
  pub runs_exact : (p : Run → Bool) → any p x.runs ≡ any (λ r. r.task_id == task_id && p r) db.runs
  pub evidence_exact :
      (p : Evidence → Bool)
      → any p (map (λ v. v.row) x.evidence)
        ≡ any
            (λ e.
              (e.subject_type == "task" && e.subject_id == task_id
                || e.subject_type == "session"
                  && any (λ s. s.task_id == task_id && s.session_id == e.subject_id) db.sessions
                || e.subject_type == "run"
                  && any (λ r. r.task_id == task_id && r.run_id == e.subject_id) db.runs)
              && p e)
            db.evidence

concerns_lem :
    (task_id : String) (older : Session → Session → Bool) (older_of : Run → Run → Bool) (db : Db)
    (e : Evidence)
    → concerns task_id
        (order_by older (filter (λ s. s.task_id == task_id) db.sessions))
        (order_by older_of (filter (λ r. r.task_id == task_id) db.runs))
        e
      ≡ (e.subject_type == "task" && e.subject_id == task_id
          || e.subject_type == "session"
            && any (λ s. s.task_id == task_id && s.session_id == e.subject_id) db.sessions
          || e.subject_type == "run"
            && any (λ r. r.task_id == task_id && r.run_id == e.subject_id) db.runs)
unfolding concerns
concerns_lem task_id older older_of db e =
    ap₂
      (λ a b.
        e.subject_type == "task" && e.subject_id == task_id
        || e.subject_type == "session" && a
        || e.subject_type == "run" && b)
      (query_exact older (λ s. s.task_id == task_id) (λ s. s.session_id == e.subject_id)
        db.sessions)
      (query_exact older_of (λ r. r.task_id == task_id) (λ r. r.run_id == e.subject_id) db.runs)

exported :
    (c : Codec) (task_id : String) (db : Db)
    → Post (export_task c task_id) db (λ x db'. Exported task_id db x × (db' ≡ db))
unfolding export_task
exported c task_id db = Post-fetch _ _ _ λ _ _. Post-lift _ _ λ task _. Post-statement _ _ _ (
    Post-statement _ _ _ (
      Post-statement _ _ _ (
        Post-lift _ _ λ checkpoints _. Post-statement _ _ _ (
          Post-lift _ _ λ evidence decoded_rows. Post-pure _ _ (
            record {
              sessions_exact = λ p. query_exact _ _ p db.sessions;
              runs_exact = λ p. query_exact _ _ p db.runs;
              evidence_exact = λ p.
                  ap (any p) (
                    decode_rows-map (decode_evidence c) (λ v. v.row) _ (row-decode_evidence c)
                      decoded_rows)
                  ∙ query_exact _ _ p db.evidence
                  ∙ (λ i.
                      any (λ e. concerns_lem task_id older_session older_run db e i && p e)
                        db.evidence);
            },
            refl,
          )))))

-- A test holds of a session, a run or a piece of evidence that `export_task` returns exactly if it
-- holds of one of the task: of evidence, one of the task itself, of such a session or of such a
-- run. The database stays as it is.
pub export_task_exact :
    (c : Codec) (task_id : String) (db db' : Db) (x : Export)
    → export_task c task_id db ≡ (ok x, db')
    → Exported task_id db x × (db' ≡ db)
export_task_exact c task_id db db' x = (exported c task_id db).at x db'
