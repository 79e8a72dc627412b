-- ===== src/Store/Methods/Tasks.antt =====
-- `create_task` and `transition_task` do one abstract step, and change nothing when they raise.
use qingtian_ai.Exec.{ok}
use qingtian_ai.Exec.Rules.{
  Post, Post-check, Post-check_last, Post-fetch, Post-lift, Post-statement, Post-when, found-ok,
}
use qingtian_ai.Exec.Rules.Ends.{Ends-bind, Ends-fetch, Ends-lift}
use qingtian_ai.Exec.Rules.Rollback.{Atomic, Atomic-check, Atomic-lift, Atomic-transaction}
use qingtian_ai.Json.{Codec, IsFaithful, Value, canonical_json-ok, list, text_items}
use qingtian_ai.Prelude.{
  Bool, List, Option, String, arith, false, if◌then◌else◌, nat_eq→≡, not-true, or_else, refl, some,
  subst, subst₂, sym, ℕ, ◌+◌, ◌≡◌, ◌≤◌,
}
use qingtian_ai.States.{TaskState, parse_task_state}
use qingtian_ai.Store.Rows.{
  Db, Task, checkpoint_key, evidence_key, indexed_key, knowledge_key, run_key, session_key,
  task_key,
}
use qingtian_ai.Store.Statements.{Post-insert_task, validated_id}
use qingtian_ai.Store.Step.{TaskCreated, TaskMoved}
use qingtian_ai.Store.Table.{find, find-insert_self, find-update_self, insert, key-find, update}
use qingtian_ai.Store.Tasks.{
  TaskView, create_task, decode_task, get_task, has_open_session, has_unresolved_run, move_task,
  new_task, no_unfinished_work, transition_task, update_task,
}

-- Every row of tasks can be decoded.
pub record TasksReadable (c : Codec) (tasks : List Task) : Type 0 where
  pub view :
      (k : String) (r : Task) → find k tasks ≡ some r → (v : TaskView) × (decode_task c r ≡ ok v)

decode_task_lem :
    (c : Codec) (r : Task) {s a : Value}
    → c.loads r.scope_json ≡ some s
    → c.loads r.acceptance_json ≡ some a
    → decode_task c r ≡ ok (record { row = r; scope = s; acceptance = a })
unfolding decode_task
decode_task_lem c r p q = ground arith

pub task_id-move_task :
    (state : TaskState) (n now : ℕ) (r : Task) → (move_task state n now r).task_id ≡ r.task_id
unfolding move_task
task_id-move_task state n now r = ground arith

pub state-move_task :
    (state : TaskState) (r : Task) (now : ℕ) → (move_task state r.revision now r).state ≡ state
unfolding move_task
state-move_task state r now = ground arith

pub revision-move_task :
    (state : TaskState) (r : Task) (now : ℕ)
    → (move_task state r.revision now r).revision ≡ r.revision + 1
unfolding move_task
revision-move_task state r now = ground arith

-- no move takes a revision back
pub revision-grows :
    (state : TaskState) (n now : ℕ) (b : Bool) (t : Task) (m : ℕ)
    → m ≤ t.revision
    → m ≤ (if b then move_task state n now t else t).revision
unfolding move_task
revision-grows state n now b t m h = ground arith

-- what a row decodes to stands in its JSON columns alone
pub decode_task-move :
    (c : Codec) (target : TaskState) (n now : ℕ) (r : Task)
    → (v : TaskView) × (decode_task c r ≡ ok v)
    → (w : TaskView) × (decode_task c (move_task target n now r) ≡ ok w)
      × (w.row ≡ move_task target n now r)
unfolding decode_task move_task
decode_task-move c target n now r (v, h) = (
  record { row = move_task target n now r; scope = v.scope; acceptance = v.acceptance },
  ground arith,
  refl,
)

-- `create_task` returns the row that it has added, with the scope and the acceptance that it was
-- given as they read back; a call that raises leaves the database as it was.
pub create_task_lem :
    (c : Codec)
    → IsFaithful c
    → (project_id title objective : String) (scope acceptance : List String)
      (task_id : Option String) (now : ℕ) (fresh : String) (db : Db)
    → Atomic
        (create_task c project_id title objective scope acceptance task_id now fresh)
        db
        (λ v db'.
          TaskCreated c db v.row
          × (db' ≡ record db { tasks = insert v.row db.tasks })
          × (c.dumps v.scope ≡ c.dumps (list (text_items scope)))
          × (c.dumps v.acceptance ≡ c.dumps (list (text_items acceptance))))
unfolding create_task validated_id get_task
create_task_lem c f project_id title objective scope acceptance task_id now fresh db =
    Atomic-check _ _ _ λ _. Atomic-check _ _ _ λ _. Atomic-check _ _ _ λ _. Atomic-transaction _ _ (
      Post-lift _ _ λ scope_json hs. Post-lift _ _ λ acceptance_json ha.
        let (strict_s, text_s) = canonical_json-ok c (list (text_items scope)) hs in
        let (strict_a, text_a) = canonical_json-ok c (list (text_items acceptance)) ha in
        let r =
          new_task (or_else task_id fresh) project_id title objective scope_json acceptance_json
            now in
        let view : TaskView = record {
          row = r;
          scope = f.reread (list (text_items scope));
          acceptance = f.reread (list (text_items acceptance));
        } in
        let p =
          decode_task_lem c r (rw text_s (f.reloads _ strict_s))
            (rw text_a (f.reloads _ strict_a)) in
        Post-insert_task r λ free. Ends-bind _ _ (
          Ends-fetch _ _ r (find-insert_self r db.tasks free) (
            Ends-lift _ p (
              record {
                fresh = free;
                is_draft = refl;
                first_revision = refl;
                view = view;
                readable = p;
              },
              refl,
              f.same_text _ strict_s,
              f.same_text _ strict_a,
            ))))

Post-no_unfinished_work :
    (task_id : String) (db : Db)
    → Post (no_unfinished_work task_id) db (λ _ db'.
      (db' ≡ db)
      × ((has_unresolved_run task_id db ≡ false) × (has_open_session task_id db ≡ false)))
unfolding no_unfinished_work
Post-no_unfinished_work task_id db =
    Post-check _ _ _ λ p. Post-check_last _ _ λ q. (refl, (not-true _ p, not-true _ q))

-- `transition_task` returns the row that it has moved along a legal transition, and only at the
-- expected revision; a call that raises leaves the database as it was.
pub transition_task_lem :
    (c : Codec) (id target : String) (expected now : ℕ) (db : Db)
    → TasksReadable c db.tasks
    → Atomic (transition_task c id target expected now) db (λ v db'.
      (r : Task) × (state : TaskState) × TaskMoved db r state
      × (parse_task_state target ≡ some state)
      × (r.task_id ≡ id)
      × (r.revision ≡ expected)
      × (v.row ≡ move_task state r.revision now r)
      × (db' ≡ record db { tasks = update r.task_id (move_task state r.revision now) db.tasks }))
unfolding transition_task get_task update_task
transition_task_lem c id target expected now db readable = Atomic-lift _ _ λ state parsed.
    Atomic-transaction _ _ (
      Post-fetch _ _ _ λ r here. Post-check _ _ _ λ revision. Post-check _ _ _ λ legal.
        Post-when _ _ _ _ (Post-no_unfinished_work id db) λ settled. Post-statement _ _ _ (
          Post-check_last _ _ λ _.
            let e = key-find db.tasks id here in
            let n = nat_eq→≡ _ _ revision in
            let (w, decodes, row) =
              decode_task-move c state expected now r (readable.view id r here) in
            Ends-bind _ _ (
              Ends-fetch _ _ (move_task state expected now r)
                (find-update_self id (move_task state expected now) db.tasks
                  (task_id-move_task state expected now) here)
                (Ends-lift _ decodes (
                  r,
                  state,
                  record {
                    present = subst (λ k. find k db.tasks ≡ some r) (sym e) here;
                    legal = legal;
                    runs_settled =
                        λ a. subst (λ k. has_unresolved_run k db ≡ false) (sym e) (settled a).0;
                    sessions_settled =
                        λ a. subst (λ k. has_open_session k db ≡ false) (sym e) (settled a).1;
                  },
                  found-ok _ _ parsed,
                  e,
                  n,
                  subst (λ (k : ℕ). w.row ≡ move_task state k now r) (sym n) row,
                  subst₂
                      (λ (k : String) (m : ℕ).
                        record db { tasks = update id (move_task state expected now) db.tasks }
                        ≡ record db { tasks = update k (move_task state m now) db.tasks })
                      (sym e) (sym n) refl,
                )))))
