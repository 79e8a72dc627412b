-- ===== src/Store/Invariant/Tasks.antt =====
-- Tasks: every row can be decoded, and its revision is at least 1.
use qingtian_ai.Exec.{ok}
use qingtian_ai.Json.{Codec}
use qingtian_ai.Prelude.{List, String, arith, inl, inr, some, subst, sym, true, ℕ, ◌≡◌, ◌≤◌}
use qingtian_ai.States.{TaskState}
use qingtian_ai.Store.Methods.Tasks.{
  TasksReadable, decode_task-move, revision-grows, task_id-move_task,
}
use qingtian_ai.Store.Rows.{
  Db, Task, checkpoint_key, evidence_key, indexed_key, knowledge_key, run_key, session_key,
  task_key,
}
use qingtian_ai.Store.Step.{TaskCreated, TaskMoved}
use qingtian_ai.Store.Table.{find, insert, insert-cases, update, update-cases}
use qingtian_ai.Store.Tasks.{TaskView, decode_task, move_task}

pub record Revisions (tasks : List Task) : Type 0 where
  pub at : (k : String) (t : Task) → find k tasks ≡ some t → 1 ≤ t.revision

module _ {c : Codec} {db : Db} {r : Task} (made : TaskCreated c db r) where
  pub TasksReadable-insert : TasksReadable c db.tasks → TasksReadable c (insert r db.tasks)
  TasksReadable-insert h = record {
    view = λ k x f. elim (insert-cases r db.tasks k made.fresh f) [
      | inl (_, e) ↦
          subst (λ y. (v : TaskView) × (decode_task c y ≡ ok v)) (sym e) (made.view, made.readable)
      | inr old ↦ h.view k x old
    ];
  }

  pub Revisions-insert : Revisions db.tasks → Revisions (insert r db.tasks)
  Revisions-insert h = record {
    at = λ k x f. elim (insert-cases r db.tasks k made.fresh f) [
      | inl (_, e) ↦ subst (λ y. 1 ≤ y.revision) (sym e) (omega (arith, made.first_revision))
      | inr old ↦ h.at k x old
    ];
  }

module _ {db : Db} {r : Task} {target : TaskState} (now : ℕ) (moved : TaskMoved db r target) where
  abbrev tasks_after : List Task
  tasks_after = update r.task_id (move_task target r.revision now) db.tasks

  pub TasksReadable-update : (c : Codec) → TasksReadable c db.tasks → TasksReadable c tasks_after
  TasksReadable-update c h = record {
    view = λ k x f.
        elim (update-cases r.task_id _ db.tasks k (task_id-move_task target r.revision now)
          moved.present f) [
            | inl (_, e) ↦
                let (w, p, _) =
                  decode_task-move c target r.revision now r (h.view r.task_id r moved.present) in
                subst (λ y. (v : TaskView) × (decode_task c y ≡ ok v)) (sym e) (w, p)
            | inr (_, old) ↦ h.view k x old
          ];
  }

  pub Revisions-update : Revisions db.tasks → Revisions tasks_after
  Revisions-update h = record {
    at = λ k x f.
        elim (update-cases r.task_id _ db.tasks k (task_id-move_task target r.revision now)
          moved.present f) [
            | inl (_, e) ↦
                subst (λ y. 1 ≤ y.revision) (sym e)
                  (revision-grows target r.revision now true r 1 (h.at r.task_id r moved.present))
            | inr (_, old) ↦ h.at k x old
          ];
  }
