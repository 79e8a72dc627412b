-- ===== src/Store/Methods/Runs.antt =====
-- `create_run` and `transition_run` do one abstract step, and change nothing when they raise.
use qingtian_ai.Exec.{ok}
use qingtian_ai.Exec.Rules.{
  Post, Post-bind, Post-check, Post-check_last, Post-fetch, Post-modify_last, Post-mono, Post-pure,
  Post-statement, Post-when, found-ok,
}
use qingtian_ai.Exec.Rules.Ends.{Ends, Ends-fetch, Ends-mono, Ends-pure}
use qingtian_ai.Exec.Rules.Rollback.{Atomic, Atomic-check, Atomic-lift, Atomic-transaction}
use qingtian_ai.Json.{Codec, Value}
use qingtian_ai.Prelude.{
  Bool-cases, Option, String, arith, eq→≡, if◌then◌else◌, inl, inr, is_blank, nat_eq→≡, none, not,
  not-true, opt_eq, or_else, refl, some, subst, sym, true, truthy, ℕ, ◌==◌, ◌||◌, ◌≡◌,
}
use qingtian_ai.States.{RunState, is_active, is_running, parse_run_state, planned}
use qingtian_ai.Store.Rows.{
  Db, Run, Session, Task, checkpoint_key, evidence_key, indexed_key, knowledge_key, run_key,
  session_key, task_key,
}
use qingtian_ai.Store.Runs.{
  coalesce, create_run, either, get_run, keyed_run, new_run, request_digest, returned_run,
  reuse_or_insert, run_with_context, start_run, transition_run,
}
use qingtian_ai.Store.Statements.{Post-insert_run, absent, validated_id}
use qingtian_ai.Store.Step.{RunCreated, RunMoved, moved_run}
use qingtian_ai.Store.Table.{find, find-insert_self, find-update_self, insert, key-find, update}

-- What `create_run` may do: add a row, or return the run that already has the idempotency key.
pub data RunOutcome (task_id session_id executor : String) (key digest : Option String) (db : Db)
    (r : Run) (db' : Db) : Type 0 where
  added :
      RunCreated db r
      → keyed_run task_id executor key db ≡ none
      → r.task_id ≡ task_id
      → r.session_id ≡ session_id
      → r.executor ≡ executor
      → r.idempotency_key ≡ key
      → r.request_hash ≡ digest
      → db' ≡ record db { runs = insert r db.runs }
      → RunOutcome task_id session_id executor key digest db r db'
  replayed :
      keyed_run task_id executor key db ≡ some r
      → opt_eq r.request_hash digest ≡ true
      → db' ≡ db
      → RunOutcome task_id session_id executor key digest db r db'

-- A request for a run that `create_run` has accepted.
pub record RunAccepted (c : Codec) (task_id session_id executor : String) (key : Option String)
    (request : Option Value) (db : Db) (r : Run) (db' : Db) : Type 0 where
  pub executor_given : not (is_blank executor) ≡ true
  pub key_given : (absent key || not (is_blank (or_else key ""))) ≡ true
  pub digest : Option String
  pub hashed : request_digest c request ≡ ok digest
  pub task : Task
  pub has_task : find task_id db.tasks ≡ some task
  pub session : Session
  pub in_session : find session_id db.sessions ≡ some session
  pub same_task : (session.task_id == task_id) ≡ true
  pub outcome : RunOutcome task_id session_id executor key digest db r db'

Post-reuse_or_insert :
    (o : Option Run) (r : Run) (t : Task) (s : Session) (db : Db)
    → keyed_run r.task_id r.executor r.idempotency_key db ≡ o
    → find r.task_id db.tasks ≡ some t
    → find r.session_id db.sessions ≡ some s
    → s.task_id ≡ r.task_id
    → r.state ≡ planned
    → r.input_revision ≡ t.revision
    → r.external_operation_id ≡ none
    → Post (reuse_or_insert o r t s) db (λ early db'.
      Ends
        (returned_run r.run_id early)
        db'
        (RunOutcome r.task_id r.session_id r.executor r.idempotency_key r.request_hash db))
unfolding reuse_or_insert returned_run get_run
Post-reuse_or_insert (some x) r t s db by_key ht hs st pl ir op =
    Post-check _ _ _ λ same. Post-pure _ _ (Ends-pure x (replayed by_key same refl))
Post-reuse_or_insert none r t s db by_key ht hs st pl ir op = Post-check _ _ _ λ running.
    Post-check _ _ _ λ active. Post-check _ _ _ λ current. Post-check _ _ _ λ unknown.
      Post-check _ _ _ λ foreign. Post-bind _ _ (
        Post-insert_run r λ free unclaimed. Post-pure _ _ (
          Ends-fetch _ _ r (find-insert_self r db.runs free) (
            added
              (record {
                fresh = free;
                task = t;
                has_task = ht;
                session = s;
                in_session = hs;
                same_task = st;
                task_running = running;
                session_active = active;
                current = nat_eq→≡ _ _ current;
                is_planned = pl;
                input_current = ir;
                no_operation = op;
                no_unknown = not-true _ unknown;
                no_foreign = not-true _ foreign;
                unclaimed = not-true _ unclaimed;
              })
              by_key refl refl refl refl refl refl)))

-- `create_run` either adds the planned run that its guards allow and returns it, or returns the run
-- that has the idempotency key and the same request hash, and changes nothing; a call that raises
-- leaves the database as it was.
pub create_run_lem :
    (c : Codec) (task_id session_id executor : String) (key : Option String)
    (request : Option Value) (run_id : Option String) (now : ℕ) (fresh : String) (db : Db)
    → Atomic
        (create_run c task_id session_id executor key request run_id now fresh)
        db
        (RunAccepted c task_id session_id executor key request db)
unfolding create_run validated_id
create_run_lem c task_id session_id executor key request run_id now fresh db =
    Atomic-check _ _ _ λ named. Atomic-check _ _ _ λ valid. Atomic-lift _ _ λ digest hashed.
      Atomic-check _ _ _ λ _. Atomic-transaction _ _ (
        Post-fetch _ _ _ λ t ht. Post-fetch _ _ _ λ s hs. Post-check _ _ _ λ same_task.
          Post-statement _ _ _ (
            Post-mono
              (Post-reuse_or_insert (keyed_run task_id executor key db)
                (new_run (or_else run_id fresh) task_id session_id t.revision executor key digest
                  now)
                t s db refl ht hs (eq→≡ _ _ same_task) refl refl refl)
              λ early db' ends. Ends-mono ends λ r o. record {
                executor_given = named;
                key_given = valid;
                digest = digest;
                hashed = hashed;
                task = t;
                has_task = ht;
                session = s;
                in_session = hs;
                same_task = same_task;
                outcome = o;
              }))

run_with_context-found :
    (id : String) (db : Db) {r : Run} {t : Task} {s : Session}
    → run_with_context id db ≡ some (r, t, s)
    → (find id db.runs ≡ some r)
      × (find r.task_id db.tasks ≡ some t)
      × (find r.session_id db.sessions ≡ some s)
unfolding run_with_context
run_with_context-found id db h = ground arith

Post-start_run :
    (id : String) (r : Run) (t : Task) (s : Session) (db : Db)
    → Post (start_run id r t s) db (λ _ db'.
      (db' ≡ db)
      × ((is_running t.state ≡ true)
          × (is_active s.state ≡ true)
          × (s.context_revision ≡ t.revision)))
unfolding start_run
Post-start_run id r t s db = Post-check _ _ _ λ running. Post-check _ _ _ λ active.
    Post-check _ _ _ λ current.
      Post-check _ _ _ λ _. Post-check_last _ _ λ _. (refl, (running, active, nat_eq→≡ _ _ current))

-- the check on the argument: a text that is not blank, if there is one
given-truthy :
    (a : String)
    → (absent (some a) || not (is_blank (or_else (some a) ""))) ≡ true
    → truthy (some a) ≡ true
unfolding is_blank absent
given-truthy a h = elim (Bool-cases (a == "")) [
  | inl e ↦ absurd (cc (subst (λ b. not (is_blank (if b then "" else a)) ≡ true) e h))
  | inr e ↦ rw e
]

-- the operation that the guards looked at is the one that is stored
operation_stored :
    (old operation : Option String)
    → (absent operation || not (is_blank (or_else operation ""))) ≡ true
    → truthy (either operation old) ≡ true
    → truthy (coalesce operation old) ≡ true
unfolding either coalesce
operation_stored old none g h = h
operation_stored old (some a) g h = given-truthy a g

-- `transition_run` moves the one row that it names along a legal transition and returns it; a call
-- that raises leaves the database as it was.
pub transition_run_lem :
    (id target : String) (operation : Option String) (now : ℕ) (db : Db)
    → Atomic (transition_run id target operation now) db (λ x db'.
      (r : Run) × (state : RunState) × RunMoved db r state operation
      × (parse_run_state target ≡ some state)
      × (r.run_id ≡ id)
      × (x ≡ moved_run state operation now r)
      × (db' ≡ record db { runs = update r.run_id (moved_run state operation now) db.runs }))
unfolding transition_run get_run
transition_run_lem id target operation now db = Atomic-check _ _ _ λ given.
    Atomic-lift _ _ λ state parsed. Atomic-transaction _ _ (
      Post-fetch _ _ _ λ p found_all.
        let (r, t, s) = p in
        let (here, has_task, in_session) = run_with_context-found id db found_all in
        let e = key-find db.runs id here in
        Post-check _ _ _ λ legal. Post-when _ _ _ _ (Post-start_run id r t s db) λ ready.
          Post-check _ _ _ λ immutable. Post-check _ _ _ λ traceable. Post-modify_last _ (
            Ends-fetch _ _ (moved_run state operation now r)
              (find-update_self id (moved_run state operation now) db.runs (λ x. refl) here)
              (
                r,
                state,
                record {
                  present = subst (λ k. find k db.runs ≡ some r) (sym e) here;
                  task = t;
                  has_task = has_task;
                  session = s;
                  in_session = in_session;
                  legal = legal;
                  task_running = λ a. (ready a).0;
                  session_active = λ a. (ready a).1;
                  current = λ a. (ready a).2;
                  immutable = λ a b. ground arith;
                  traceable = λ a. operation_stored _ operation given (ground arith);
                },
                found-ok _ _ parsed,
                e,
                refl,
                subst
                    (λ k.
                      record db { runs = update id (moved_run state operation now) db.runs }
                      ≡ record db { runs = update k (moved_run state operation now) db.runs })
                    (sym e) refl,
              )))
