-- ===== src/Store/Races.antt =====
-- Two calls that meet: the compare-and-swap of `transition_task`, and the idempotency key of
-- `create_run` (qingtian_core/store.py).
use qingtian_ai.Exec.{check, conflict, err, fetch, lift, ok, pure, statement, transaction, ◌>>=◌}
use qingtian_ai.Json.{Codec, Value}
use qingtian_ai.Prelude.{
  Option, String, arith, eq_self, false, is_blank, is_id, nat_eq, none, not, opt_eq, or_else, refl,
  some, subst, sym, true, truthy, ℕ, ◌&&◌, ◌+◌, ◌==◌, ◌||◌, ◌≡◌,
}
use qingtian_ai.States.{TaskState, parse_task_state}
use qingtian_ai.Store.Methods.Runs.{RunAccepted, RunOutcome, added, create_run_lem, replayed}
use qingtian_ai.Store.Methods.Tasks.{
  TasksReadable, revision-move_task, task_id-move_task, transition_task_lem,
}
use qingtian_ai.Store.Rows.{
  Db, Run, Session, Task, checkpoint_key, evidence_key, indexed_key, knowledge_key, run_key,
  session_key, task_key,
}
use qingtian_ai.Store.Runs.{create_run, keyed_run, request_digest, returned_run, reuse_or_insert}
use qingtian_ai.Store.Statements.{absent, validated_id}
use qingtian_ai.Store.Table.{find, find-update_self, first-insert, insert, update}
use qingtian_ai.Store.Tasks.{TaskView, move_task, transition_task}

-- the second writer finds the next revision
stale_conflict :
    (c : Codec) (id target : String) (expected now : ℕ) (db : Db) {t : Task} {state : TaskState}
    → parse_task_state target ≡ some state
    → find id db.tasks ≡ some t
    → nat_eq t.revision expected ≡ false
    → transition_task c id target expected now db ≡ (err conflict, db)
unfolding transition_task ◌>>=◌ lift transaction fetch check
stale_conflict c id target expected now db parsed here stale = ground arith

revision_stale : (m n expected : ℕ) → m ≡ n + 1 → n ≡ expected → nat_eq m expected ≡ false
revision_stale m n expected p q = ground arith

-- Of two transitions of a task at the same expected revision, the second raises ConflictError and
-- changes nothing, whatever its target state and its time, once the first has returned, in a
-- database whose tasks decode.
pub second_writer_conflicts :
    (c : Codec) (id target second : String) (expected now later : ℕ) (db db' : Db) (v : TaskView)
    {state : TaskState}
    → TasksReadable c db.tasks
    → transition_task c id target expected now db ≡ (ok v, db')
    → parse_task_state second ≡ some state
    → transition_task c id second expected later db' ≡ (err conflict, db')
second_writer_conflicts c id target second expected now later db db' v readable won parsed =
    let (r, state, moved, _, same, n, _, e) =
      (transition_task_lem c id target expected now db readable).returned v db' won in
    let f = move_task state r.revision now in
    let there =
      find-update_self r.task_id f db.tasks (task_id-move_task state r.revision now)
        moved.present in
    subst (λ d. transition_task c id second expected later d ≡ (err conflict, d)) (sym e)
      (stale_conflict c id second expected later (record db { tasks = update r.task_id f db.tasks })
        parsed (subst (λ k. find k (update r.task_id f db.tasks) ≡ some (f r)) same there)
        (revision_stale (f r).revision r.revision expected (revision-move_task state r now) n))

-- a request that is accepted, and whose key names a run with the same request
replay_lem :
    (c : Codec) (task_id session_id executor : String) (key : Option String)
    (request : Option Value) (run_id : Option String) (now : ℕ) (fresh : String) (db : Db)
    {digest : Option String} {t : Task} {s : Session} {r : Run}
    → is_id "run" (or_else run_id fresh) ≡ true
    → not (is_blank executor) ≡ true
    → (absent key || not (is_blank (or_else key ""))) ≡ true
    → request_digest c request ≡ ok digest
    → find task_id db.tasks ≡ some t
    → find session_id db.sessions ≡ some s
    → (s.task_id == task_id) ≡ true
    → keyed_run task_id executor key db ≡ some r
    → opt_eq r.request_hash digest ≡ true
    → create_run c task_id session_id executor key request run_id now fresh db ≡ (ok r, db)
unfolding create_run ◌>>=◌ lift transaction fetch check statement reuse_or_insert returned_run pure
    validated_id
replay_lem c task_id session_id executor key request run_id now fresh db valid named given hashed ht
      hs same by_key eq =
    ground arith

opt_eq_refl : (o : Option String) → opt_eq o o ≡ true
unfolding opt_eq
opt_eq_refl none = refl
opt_eq_refl (some s) = eq_self s

-- the key of a run that has just been added names it
keyed_run-insert :
    (task_id executor : String) (key : Option String) (r : Run) (db : Db)
    → truthy key ≡ true
    → keyed_run task_id executor key db ≡ none
    → r.task_id ≡ task_id
    → r.executor ≡ executor
    → r.idempotency_key ≡ key
    → keyed_run task_id executor key (record db { runs = insert r db.runs }) ≡ some r
unfolding keyed_run
keyed_run-insert task_id executor key r db given free et ee ek = ground (
  arith,
  first-insert (λ x. x.task_id == task_id && x.executor == executor && opt_eq x.idempotency_key key)
      r db.runs,
  subst (λ k. (r.task_id == k) ≡ true) et (eq_self r.task_id),
  subst (λ k. (r.executor == k) ≡ true) ee (eq_self r.executor),
  subst (λ k. opt_eq r.idempotency_key k ≡ true) ek (opt_eq_refl r.idempotency_key),
)

-- Repeating an accepted `create_run` with a non-empty idempotency key, at any later time and with
-- any well-formed run id of its own, returns the run of the first call and changes nothing.
pub create_run_idempotent :
    (c : Codec) (task_id session_id executor : String) (key : Option String)
    (request : Option Value) (run_id again : Option String) (now later : ℕ) (fresh spare : String)
    (db db' : Db) (r : Run)
    → truthy key ≡ true
    → is_id "run" (or_else again spare) ≡ true
    → create_run c task_id session_id executor key request run_id now fresh db ≡ (ok r, db')
    → create_run c task_id session_id executor key request again later spare db' ≡ (ok r, db')
create_run_idempotent c task_id session_id executor key request run_id again now later fresh spare
      db db' r given valid returned =
    let a =
      (create_run_lem c task_id session_id executor key request run_id now fresh db).returned r db'
        returned in
    go a a.outcome
  where
    go :
        (a : RunAccepted c task_id session_id executor key request db r db')
        → RunOutcome task_id session_id executor key a.digest db r db'
        → create_run c task_id session_id executor key request again later spare db' ≡ (ok r, db')
    go a (replayed by_key eq e) =
        subst
          (λ d.
            create_run c task_id session_id executor key request again later spare d ≡ (ok r, d))
          (sym e)
          (replay_lem c task_id session_id executor key request again later spare db valid
            a.executor_given a.key_given a.hashed a.has_task a.in_session a.same_task by_key eq)
    go a (added made free et es ee ek eh e) =
        subst
          (λ d.
            create_run c task_id session_id executor key request again later spare d ≡ (ok r, d))
          (sym e)
          (replay_lem c task_id session_id executor key request again later spare
            (record db { runs = insert r db.runs }) valid a.executor_given a.key_given a.hashed
            a.has_task a.in_session a.same_task
            (keyed_run-insert task_id executor key r db given free et ee ek)
            (subst (λ d. opt_eq r.request_hash d ≡ true) eh (opt_eq_refl r.request_hash)))
