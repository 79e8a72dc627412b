-- ===== src/Store/Invariant/Checkpoints.antt =====
-- Checkpoints: every row passes the integrity check, belongs to a task at a revision that the task
-- has reached, and supersedes a row that is there and that no other row supersedes.
use qingtian_ai.Exec.{ok}
use qingtian_ai.Json.{Codec}
use qingtian_ai.Prelude.{
  List, Option, String, ap, arith, eq_self, false, inl, inr, is_some, none, not-both, opt_eq, refl,
  some, subst, sym, true, truthy, ℕ, ◌==◌, ◌∙◌, ◌≡◌, ◌≢◌, ◌≤◌,
}
use qingtian_ai.States.{TaskState}
use qingtian_ai.Store.Methods.Tasks.{revision-grows, task_id-move_task}
use qingtian_ai.Store.Recovery.{CheckpointView, checkpoint_from_row, is_superseded}
use qingtian_ai.Store.Rows.{
  Checkpoint, Db, Task, checkpoint_key, evidence_key, indexed_key, knowledge_key, run_key,
  session_key, task_key,
}
use qingtian_ai.Store.Step.{CheckpointCreated, TaskCreated, TaskMoved}
use qingtian_ai.Store.Table.{
  any-find, find, find-insert_old, find-update_old, insert, insert-cases, update,
}
use qingtian_ai.Store.Tasks.{move_task}

abbrev Intact : Codec → Checkpoint → Type 0
Intact c r = (v : CheckpointView) × (checkpoint_from_row c r ≡ ok v)

pub record AllIntact (c : Codec) (checkpoints : List Checkpoint) : Type 0 where
  pub at : (k : String) (r : Checkpoint) → find k checkpoints ≡ some r → Intact c r

abbrev Taken : List Task → Checkpoint → Type 0
Taken tasks r = (t : Task) × (find r.task_id tasks ≡ some t) × (r.task_revision ≤ t.revision)

pub record CheckpointTasks (tasks : List Task) (checkpoints : List Checkpoint) : Type 0 where
  pub at : (k : String) (r : Checkpoint) → find k checkpoints ≡ some r → Taken tasks r

-- The chain of checkpoints does not fork.
pub record Linear (checkpoints : List Checkpoint) : Type 0 where
  pub at :
      (j k : String) (a b : Checkpoint) (old : String)
      → find j checkpoints ≡ some a
      → find k checkpoints ≡ some b
      → a.supersedes ≡ some old
      → b.supersedes ≡ some old
      → truthy (some old) ≡ true
      → j ≡ k

pub record Anchored (checkpoints : List Checkpoint) : Type 0 where
  pub at :
      (k : String) (r : Checkpoint) (old : String)
      → find k checkpoints ≡ some r
      → r.supersedes ≡ some old
      → truthy (some old) ≡ true
      → is_some (find old checkpoints) ≡ true

is_superseded-none :
    (old : String) (db : Db) (j : String) {r : Checkpoint}
    → is_superseded old db ≡ false
    → find j db.checkpoints ≡ some r
    → r.supersedes ≢ some old
unfolding is_superseded opt_eq
is_superseded-none old db j {r} free here same =
    not-both
      (subst (λ o. opt_eq o (some old) ≡ false) same
        (any-find (λ x. opt_eq x.supersedes (some old)) db.checkpoints j free here))
      (eq_self old)

is_some-insert :
    (r : Checkpoint) (t : List Checkpoint) (k : String)
    → is_some (find k t) ≡ true
    → is_some (find k (insert r t)) ≡ true
is_some-insert r t k h = go (find k t) refl h
  where
    go :
        (o : Option Checkpoint)
        → find k t ≡ o
        → is_some o ≡ true
        → is_some (find k (insert r t)) ≡ true
    go none e p = unfold is_some in cc p
    go (some x) e p = rw (find-insert_old r t k e) (unfold is_some in refl)

abbrev old_of : Checkpoint → Option String
old_of r = r.supersedes

module _ {c : Codec} {db : Db} {r : Checkpoint} (made : CheckpointCreated c db r) where
  pub AllIntact-insert : AllIntact c db.checkpoints → AllIntact c (insert r db.checkpoints)
  AllIntact-insert h = record {
    at = λ k x f. elim (insert-cases r db.checkpoints k made.fresh f) [
      | inl (_, e) ↦ subst (Intact c) (sym e) (made.view, made.readable)
      | inr old ↦ h.at k x old
    ];
  }

  pub CheckpointTasks-insert :
      CheckpointTasks db.tasks db.checkpoints → CheckpointTasks db.tasks (insert r db.checkpoints)
  CheckpointTasks-insert h = record {
    at = λ k x f. elim (insert-cases r db.checkpoints k made.fresh f) [
      | inl (_, e) ↦
          subst (Taken db.tasks) (sym e) (made.task, made.has_task, omega (arith, made.current))
      | inr old ↦ h.at k x old
    ];
  }

  pub Linear-insert : Linear db.checkpoints → Linear (insert r db.checkpoints)
  Linear-insert h = record {
    at = λ j k a b old fa fb sa sb t. elim (insert-cases r db.checkpoints j made.fresh fa) [
      | inl (ja, ea) ↦ elim (insert-cases r db.checkpoints k made.fresh fb) [
        | inl (kb, eb) ↦ ja ∙ sym kb
        | inr oldb ↦
            absurd (
              is_superseded-none old db k (made.unforked old (sym (ap old_of ea) ∙ sa) t).0 oldb sb)
      ]
      | inr olda ↦ elim (insert-cases r db.checkpoints k made.fresh fb) [
        | inl (kb, eb) ↦
            absurd (
              is_superseded-none old db j (made.unforked old (sym (ap old_of eb) ∙ sb) t).0 olda sa)
        | inr oldb ↦ h.at j k a b old olda oldb sa sb t
      ]
    ];
  }

  pub Anchored-insert : Anchored db.checkpoints → Anchored (insert r db.checkpoints)
  Anchored-insert h = record {
    at = λ k x old f s t.
        is_some-insert r db.checkpoints old (elim (insert-cases r db.checkpoints k made.fresh f) [
          | inl (_, e) ↦ (made.unforked old (sym (ap old_of e) ∙ s) t).1
          | inr there ↦ h.at k x old there s t
        ]);
  }

module _ {c : Codec} {db : Db} {r : Task} (made : TaskCreated c db r) where
  pub CheckpointTasks-new_task :
      CheckpointTasks db.tasks db.checkpoints → CheckpointTasks (insert r db.tasks) db.checkpoints
  CheckpointTasks-new_task h = record {
    at = λ k x f. let (t, ft, le) = h.at k x f in (t, find-insert_old r db.tasks x.task_id ft, le);
  }

module _ {db : Db} {r : Task} {target : TaskState} (now : ℕ) (moved : TaskMoved db r target) where
  pub CheckpointTasks-moved_task :
      CheckpointTasks db.tasks db.checkpoints
      → CheckpointTasks (update r.task_id (move_task target r.revision now) db.tasks) db.checkpoints
  CheckpointTasks-moved_task h = record {
    at = λ k x f.
        let (t, ft, le) = h.at k x f in
        (
          _,
          find-update_old r.task_id (move_task target r.revision now) db.tasks x.task_id
              (task_id-move_task target r.revision now) ft,
          revision-grows target r.revision now (r.task_id == x.task_id) t x.task_revision le,
        );
  }
