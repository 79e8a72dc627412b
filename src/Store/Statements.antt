-- ===== src/Store/Statements.antt =====
-- The statements of qingtian_core/store.py that write, with the constraints of the schema: a
-- primary key that is taken, a missing referenced row and a repeated UNIQUE key raise
-- sqlite3.IntegrityError. Foreign keys are on (PRAGMA foreign_keys).
use qingtian_ai.Exec.{Exec, check, integrity_error, modify, value_error, ◌>>◌}
use qingtian_ai.Exec.Rules.{Post, Post-check, Post-modify_last}
use qingtian_ai.Prelude.{
  Bool, List, Option, String, any, false, is_id, is_some, none, not, opt_eq, refl, some, true, ◌&&◌,
  ◌==◌, ◌≡◌,
}
use qingtian_ai.Store.Rows.{
  Checkpoint, Db, Evidence, Knowledge, Run, Session, Task, checkpoint_key, evidence_key,
  indexed_key, knowledge_key, run_key, session_key, task_key,
}
use qingtian_ai.Store.Table.{find, insert}

unfoldable pub absent {ℓ} : {A : Type ℓ} → Option A → Bool
absent none = true
absent (some a) = false

pub absent-none {ℓ} : {A : Type ℓ} (o : Option A) → absent o ≡ true → o ≡ none
unfolding absent
absent-none none h = refl
absent-none (some a) h = cc

unfoldable pub insert_task : Task → Exec Db (Unit {0})
unfolding absent
insert_task r = do
  check (λ db. absent (find r.task_id db.tasks)) integrity_error
  modify (λ db. record db { tasks = insert r db.tasks })

unfoldable pub insert_session : Session → Exec Db (Unit {0})
unfolding absent
insert_session r = do
  check (λ db. absent (find r.session_id db.sessions)) integrity_error
  check (λ db. is_some (find r.task_id db.tasks)) integrity_error
  modify (λ db. record db { sessions = insert r db.sessions })

-- UNIQUE(task_id, executor, idempotency_key): rows with a NULL key never clash.
same_key : Option String → Option String → Bool
same_key (some a) (some b) = a == b
same_key _ _ = false

pub clashes : Run → Run → Bool
unfolding same_key
clashes r x =
    x.task_id == r.task_id
    && x.executor == r.executor
    && same_key x.idempotency_key r.idempotency_key

same_key_lem : (o key : Option String) → same_key o key ≡ (is_some key && opt_eq o key)
unfolding same_key opt_eq is_some
same_key_lem (some a) (some b) = refl
same_key_lem none (some b) = refl
same_key_lem (some a) none = refl
same_key_lem none none = refl

pub clashes-any :
    (r : Run) (rows : List Run)
    → any (clashes r) rows
      ≡ any
          (λ x.
            x.task_id == r.task_id
            && x.executor == r.executor
            && (is_some r.idempotency_key && opt_eq x.idempotency_key r.idempotency_key))
          rows
unfolding clashes
clashes-any r rows i =
    any
      (λ x.
        x.task_id == r.task_id
        && x.executor == r.executor
        && same_key_lem x.idempotency_key r.idempotency_key i)
      rows

unfoldable pub insert_run : Run → Exec Db (Unit {0})
unfolding absent clashes
insert_run r = do
  check (λ db. absent (find r.run_id db.runs)) integrity_error
  check (λ db. is_some (find r.task_id db.tasks)) integrity_error
  check (λ db. is_some (find r.session_id db.sessions)) integrity_error
  check (λ db. not (any (clashes r) db.runs)) integrity_error
  modify (λ db. record db { runs = insert r db.runs })

unfoldable pub insert_evidence : Evidence → Exec Db (Unit {0})
unfolding absent
insert_evidence r = do
  check (λ db. absent (find r.evidence_id db.evidence)) integrity_error
  modify (λ db. record db { evidence = insert r db.evidence })

unfoldable pub insert_checkpoint : Checkpoint → Exec Db (Unit {0})
unfolding absent
insert_checkpoint r = do
  check (λ db. absent (find r.checkpoint_id db.checkpoints)) integrity_error
  check (λ db. is_some (find r.task_id db.tasks)) integrity_error
  modify (λ db. record db { checkpoints = insert r db.checkpoints })

unfoldable pub insert_knowledge : Knowledge → Exec Db (Unit {0})
unfolding absent
insert_knowledge r = do
  check (λ db. absent (find r.knowledge_id db.knowledge)) integrity_error
  modify (λ db. record db { knowledge = insert r db.knowledge })

-- QingtianStore._validated_id
unfoldable pub validated_id : String → String → Exec Db (Unit {0})
validated_id kind value = check (λ _. is_id kind value) value_error

module _ {db : Db} {Q : Unit {0} → Db → Type 0} where
  pub Post-insert_task :
      (r : Task)
      → (find r.task_id db.tasks ≡ none → Q tt (record db { tasks = insert r db.tasks }))
      → Post (insert_task r) db Q
  unfolding insert_task
  Post-insert_task r h = Post-check _ _ _ λ p. Post-modify_last _ (h (absent-none _ p))

  pub Post-insert_session :
      (r : Session)
      → (find r.session_id db.sessions ≡ none
          → is_some (find r.task_id db.tasks) ≡ true
          → Q tt (record db { sessions = insert r db.sessions }))
      → Post (insert_session r) db Q
  unfolding insert_session
  Post-insert_session r h =
      Post-check _ _ _ λ p. Post-check _ _ _ λ q. Post-modify_last _ (h (absent-none _ p) q)

  pub Post-insert_run :
      (r : Run)
      → (find r.run_id db.runs ≡ none
          → not (any (clashes r) db.runs) ≡ true
          → Q tt (record db { runs = insert r db.runs }))
      → Post (insert_run r) db Q
  unfolding insert_run
  Post-insert_run r h = Post-check _ _ _ λ p.
      Post-check _ _ _
        λ _. Post-check _ _ _ λ _. Post-check _ _ _ λ u. Post-modify_last _ (h (absent-none _ p) u)

  pub Post-insert_evidence :
      (r : Evidence)
      → (find r.evidence_id db.evidence ≡ none
          → Q tt (record db { evidence = insert r db.evidence }))
      → Post (insert_evidence r) db Q
  unfolding insert_evidence
  Post-insert_evidence r h = Post-check _ _ _ λ p. Post-modify_last _ (h (absent-none _ p))

  pub Post-insert_checkpoint :
      (r : Checkpoint)
      → (find r.checkpoint_id db.checkpoints ≡ none
          → Q tt (record db { checkpoints = insert r db.checkpoints }))
      → Post (insert_checkpoint r) db Q
  unfolding insert_checkpoint
  Post-insert_checkpoint r h =
      Post-check _ _ _ λ p. Post-check _ _ _ λ _. Post-modify_last _ (h (absent-none _ p))

  pub Post-insert_knowledge :
      (r : Knowledge)
      → (find r.knowledge_id db.knowledge ≡ none
          → Q tt (record db { knowledge = insert r db.knowledge }))
      → Post (insert_knowledge r) db Q
  unfolding insert_knowledge
  Post-insert_knowledge r h = Post-check _ _ _ λ p. Post-modify_last _ (h (absent-none _ p))
