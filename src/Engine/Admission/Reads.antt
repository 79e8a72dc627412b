-- ===== src/Engine/Admission/Reads.antt =====
-- What the parts of `dispatch` in qingtian_engine/admission.py read and write: `_facts` and
-- `_project` write nothing, `_append` adds one receipt.
use qingtian_ai.Engine.Admission.{Desk, Facts, Receipt}
use qingtian_ai.Engine.Admission.Projections.{or_latest, project}
use qingtian_ai.Engine.Admission.Reading.{facts, facts_of, on_life}
use qingtian_ai.Engine.Admission.Receipts.{
  Draft, append, insert_receipt, max_sequence, receipts_of, run_id_of,
}
use qingtian_ai.Engine.Lifecycle.{
  Database, EngineTask, Host, Snapshot, engine_task_key, execution_key, handoff_key, intake_key,
  managed_run_key, notice_key, version_key,
}
use qingtian_ai.Engine.Lifecycle.Accepted.{Post-snapshot}
use qingtian_ai.Engine.Lifecycle.Snapshots.{last}
use qingtian_ai.Exec.{Exec}
use qingtian_ai.Exec.Reads.{Post-reads, Post-statement_last}
use qingtian_ai.Exec.Rules.{
  Post, Post-bind, Post-check, Post-fetch, Post-modify_last, Post-mono, Post-pure, Post-statement,
}
use qingtian_ai.Prelude.{Bool, Option, String, [], ap, refl, some, sym, ℕ, ◌++◌, ◌+◌, ◌∙◌, ◌∷◌, ◌≡◌}
use qingtian_ai.Store.Table.{find}

Post-on_life :
    {A : Type 0} (m : Exec Database A) {db : Desk} {G : A → Type 0}
    → Post m db.life (λ a life. (life ≡ db.life) × G a)
    → Post (on_life m) db (λ a db'. (db' ≡ db) × G a)
unfolding on_life
Post-on_life m {db} {G} h = record {
  at = λ a db' e.
      let (same, g) = h.at a (m db.life).1 (λ i. ((e i).0, (m db.life).1)) in
      (sym (λ i. (e i).1) ∙ ap (λ l. record db { life = l }) same, g);
}

module _ (host : Host) (now : ℕ) (task_id : String) where
  -- the facts are those of the task's row and of a reading of its lifecycle
  abbrev pub FactsOf : Desk → Facts → Type 0
  FactsOf db f =
      (t : EngineTask) × (s : Snapshot) × (find task_id db.life.tasks ≡ some t)
      × (f ≡ facts_of host t s db)

  pub Post-facts :
      {db : Desk} → Post (facts host now task_id) db (λ f db'. (db' ≡ db) × FactsOf db f)
  unfolding facts
  Post-facts {db} = Post-fetch _ _ _ λ t row.
      Post-reads _ _
        (Post-on_life _ (Post-mono (Post-snapshot host now task_id) λ s life p. (p.0, tt)))
        λ s _. Post-statement_last _ _ (refl, (t, s, row, refl))

module _ (host : Host) where
  pub Post-project :
      (f : Facts) (a : Option Receipt) (reused : Bool) {db : Desk}
      → Post (project host f a reused) db (λ p db'.
        (db' ≡ db)
        × ((p.receipt ≡ or_latest a (last (receipts_of f.task.id db))) × (p.reused ≡ reused)))
  unfolding project
  Post-project f a reused = Post-fetch _ _ _ λ words _. Post-statement_last _ _ (refl, (refl, refl))

-- the receipt that `_append` has added
pub record Added (e : Draft) (db : Desk) (a : Receipt) (db' : Desk) : Type 0 where
  pub after : db' ≡ record db { receipts = db.receipts ++ a ∷ [] }
  pub request : a.request_id ≡ e.request.id
  pub task : a.task_id ≡ e.request.task_id
  pub next : a.sequence ≡ max_sequence db.receipts + 1
  pub state : a.state ≡ e.state
  pub run : a.run_id ≡ run_id_of e.run

pub Post-append : (e : Draft) {db : Desk} → Post (append e) db (Added e db)
unfolding append insert_receipt
Post-append e = Post-fetch _ _ _ λ words _. Post-statement _ _ _ (
    Post-bind _ _ (
      Post-check _ _ _ λ _. Post-modify_last _ (
        Post-pure _ _ (record {
          after = refl;
          request = refl;
          task = refl;
          next = refl;
          state = refl;
          run = refl;
        }))))
