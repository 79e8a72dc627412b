-- ===== src/Store/History.antt =====
-- Any sequence of calls of the store's methods, by one connection after the other, each with the
-- time and the identifier that the environment supplies. A call that raises is a call too.
use qingtian_ai.Store.Tasks
use qingtian_ai.Store.Sessions
use qingtian_ai.Store.Runs
use qingtian_ai.Store.Records
use qingtian_ai.Store.Knowledge
use qingtian_ai.Exec.{Exec, Result, err, ok}
use qingtian_ai.Exec.Rules.Rollback.{Atomic}
use qingtian_ai.Json.{Codec, IsFaithful, Value}
use qingtian_ai.Prelude.{List, Option, String, [], refl, ℕ, ◌∷◌, ◌≡◌}
use qingtian_ai.Store.Consistent.{Consistent, Step-Consistent}
use qingtian_ai.Store.Knowledge.{Engines, Entry}
use qingtian_ai.Store.Methods.Checkpoints.{create_checkpoint_lem}
use qingtian_ai.Store.Methods.Knowledge.{add_evidence_lem, add_knowledge_lem, forget_knowledge_lem}
use qingtian_ai.Store.Methods.Runs.{RunOutcome, added, create_run_lem, replayed, transition_run_lem}
use qingtian_ai.Store.Methods.Sessions.{create_session_lem, transition_session_lem}
use qingtian_ai.Store.Methods.Tasks.{create_task_lem, transition_task_lem}
use qingtian_ai.Store.Rows.{
  Db, Run, checkpoint_key, evidence_key, indexed_key, knowledge_key, run_key, session_key, task_key,
}
use qingtian_ai.Store.Step.{
  Step, checkpoint_created, evidence_added, knowledge_added, knowledge_forgotten, run_created,
  run_moved, session_created, session_moved, task_created, task_moved, unchanged,
}

pub data Call : Type 0 where
  create_task :
      String → String → String → List String → List String → Option String → ℕ → String → Call
  transition_task : String → String → ℕ → ℕ → Call
  create_session : String → String → Option String → Option String → ℕ → String → Call
  transition_session : String → String → ℕ → Call
  create_run :
      String → String → String → Option String → Option Value → Option String → ℕ → String → Call
  transition_run : String → String → Option String → ℕ → Call
  add_evidence :
      String → String → String → Option Value → Option String → Option String → ℕ → String → Call
  create_checkpoint : String → Value → Option String → Option String → ℕ → String → Call
  add_knowledge : Entry → Option String → ℕ → String → Call
  forget_knowledge : String → Call

module _ (c : Codec) (e : Engines) where
  -- the database after a call
  unfoldable pub perform : Call → Db → Db
  perform (create_task project title objective scope acceptance id now fresh) db =
      (Tasks.create_task c project title objective scope acceptance id now fresh db).1
  perform (transition_task id target expected now) db =
      (Tasks.transition_task c id target expected now db).1
  perform (create_session task host source id now fresh) db =
      (Sessions.create_session c task host source id now fresh db).1
  perform (transition_session id target now) db = (Sessions.transition_session c id target now db).1
  perform (create_run task session executor key request id now fresh) db =
      (Runs.create_run c task session executor key request id now fresh db).1
  perform (transition_run id target operation now) db =
      (Runs.transition_run id target operation now db).1
  perform (add_evidence kind subject result metadata hash id now fresh) db =
      (Records.add_evidence c kind subject result metadata hash id now fresh db).1
  perform (create_checkpoint task snapshot supersedes id now fresh) db =
      (Records.create_checkpoint c task snapshot supersedes id now fresh db).1
  perform (add_knowledge a id now fresh) db = (Knowledge.add_knowledge c e a id now fresh db).1
  perform (forget_knowledge id) db = (Knowledge.forget_knowledge id db).1

  unfoldable pub perform_all : List Call → Db → Db
  perform_all [] db = db
  perform_all (x ∷ xs) db = perform_all xs (perform x db)

-- An atomic action takes the database along an abstract step, if each run that returns does.
Atomic-Step :
    {A : Type 0} {c : Codec} {m : Exec Db A} {db : Db} {Q : A → Db → Type 0}
    → Atomic m db Q
    → ((a : A) (db' : Db) → Q a db' → Step c db db')
    → Step c db (m db).1
Atomic-Step {A} {c} {m} {db} {Q} h f = go (m db) refl
  where
    go : (x : Result A × Db) → m db ≡ x → Step c db x.1
    go (ok a, db') p = f a db' (h.returned a db' p)
    go (err x, db') p = unchanged (h.raised x db' p)

-- With a faithful codec and from a database in which the invariant holds, every method of the
-- store, whatever its arguments, does one step of the abstract behaviour: the guards of that step
-- hold, or the database is unchanged.
pub perform-Step :
    (c : Codec) (e : Engines) (f : IsFaithful c) (x : Call) (db : Db)
    → Consistent c db
    → Step c db (perform c e x db)
unfolding perform
perform-Step c e f (create_task project title objective scope acceptance id now fresh) db h =
    Atomic-Step (create_task_lem c f project title objective scope acceptance id now fresh db)
      λ v db' q. task_created v.row q.0 q.1
perform-Step c e f (transition_task id target expected now) db h =
    Atomic-Step (transition_task_lem c id target expected now db h.readable)
      λ v db' q. let (r, state, moved, _, _, _, _, e) = q in task_moved r state now moved e
perform-Step c e f (create_session task host source id now fresh) db h =
    Atomic-Step (create_session_lem c task host source id now fresh db)
      λ r db' q. session_created r q.0 q.1
perform-Step c e f (transition_session id target now) db h =
    Atomic-Step (transition_session_lem c id target now db)
      λ r db' q. let (s, state, moved, _, _, _, e) = q in session_moved s state now moved e
perform-Step c e f (create_run task session executor key request id now fresh) db h =
    Atomic-Step (create_run_lem c task session executor key request id now fresh db)
      λ r db' q. run_outcome q.outcome
  where
    run_outcome :
        {digest : Option String} {r : Run} {db' : Db}
        → RunOutcome task session executor key digest db r db'
        → Step c db db'
    run_outcome {digest} {r} (added made _ _ _ _ _ _ p) = run_created r made p
    run_outcome (replayed _ _ p) = unchanged p
perform-Step c e f (transition_run id target operation now) db h =
    Atomic-Step (transition_run_lem id target operation now db)
      λ x db' q. let (r, state, moved, _, _, _, e) = q in run_moved r state operation now moved e
perform-Step c e f (add_evidence kind subject result metadata hash id now fresh) db h =
    Atomic-Step (add_evidence_lem c f kind subject result metadata hash id now fresh db)
      λ v db' q. evidence_added v.row q.0
perform-Step c e f (create_checkpoint task snapshot supersedes id now fresh) db h =
    Atomic-Step (create_checkpoint_lem c f task snapshot supersedes id now fresh db)
      λ v db' q. checkpoint_created v.row q.0 q.1
perform-Step c e f (add_knowledge a id now fresh) db h =
    Atomic-Step (add_knowledge_lem c e a id now fresh db) λ r db' q. knowledge_added r q.0 q.2
perform-Step c e f (forget_knowledge id) db h =
    Atomic-Step (forget_knowledge_lem id db) λ _ db' q. knowledge_forgotten id q.1

-- The invariant holds after any sequence of calls, of calls that raise too, from a database in
-- which it holds.
pub perform_all-Consistent :
    (c : Codec) (e : Engines) (f : IsFaithful c) (xs : List Call) (db : Db)
    → Consistent c db
    → Consistent c (perform_all c e xs db)
unfolding perform_all
perform_all-Consistent c e f [] db h = h
perform_all-Consistent c e f (x ∷ xs) db h =
    perform_all-Consistent c e f xs (perform c e x db)
      (Step-Consistent (perform-Step c e f x db h) h)
