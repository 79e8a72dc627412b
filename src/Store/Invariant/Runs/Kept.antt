-- ===== src/Store/Invariant/Runs/Kept.antt =====
-- What the changes of sessions and tasks keep of the facts about runs.
use qingtian_ai.Json.{Codec}
use qingtian_ai.Prelude.{
  Bool-cases, List, String, ap, arith, eq_iff, eq→≡, false, if◌then◌else◌, inl, inr, not-both, refl,
  some, subst, sym, true, ℕ, ◌&&◌, ◌==◌, ◌∙◌, ◌≡◌,
}
use qingtian_ai.States.{SessionState, TaskState, in_flight, is_closing, is_review, is_unresolved}
use qingtian_ai.States.Laws.{draft_unsettled, executes_on, is_executing}
use qingtian_ai.Store.Methods.Tasks.{revision-grows, state-move_task, task_id-move_task}
use qingtian_ai.Store.Rows.{
  Db, Run, Session, Task, checkpoint_key, evidence_key, indexed_key, knowledge_key, run_key,
  session_key, task_key,
}
use qingtian_ai.Store.Sessions.{session_in_flight}
use qingtian_ai.Store.Step.{SessionCreated, SessionMoved, TaskCreated, TaskMoved, moved_session}
use qingtian_ai.Store.Table.{
  any-find, find, find-insert_old, find-update_old, insert, insert-cases, update, update-cases,
}
use qingtian_ai.Store.Tasks.{has_unresolved_run, move_task}
use qingtian_ai.Store.Invariant.Runs.{RunTasks, RunSessions, RunsSettled}

module _ {db : Db} {s : Session} (made : SessionCreated db s) where
  pub RunSessions-new_session :
      RunSessions db.sessions db.runs → RunSessions (insert s db.sessions) db.runs
  RunSessions-new_session h = record {
    at = λ k r f.
        let (x, fx, same, executes) = h.at k r f in
        (x, find-insert_old s db.sessions r.session_id fx, same, executes);
  }

session_in_flight-none :
    (id : String) (db : Db) (j : String) {r : Run}
    → session_in_flight id db ≡ false
    → find j db.runs ≡ some r
    → r.session_id ≡ id
    → in_flight r.state ≡ false
unfolding session_in_flight
session_in_flight-none id db j {r} idle here same =
    let p = any-find (λ x. x.session_id == id && in_flight x.state) db.runs j idle here in
    ground (arith, p, eq_iff r.session_id id)

module _ {db : Db} {s : Session} {target : SessionState} (now : ℕ)
    (moved : SessionMoved db s target) where
  moved_executes :
      (r : Run) (k : String)
      → find k db.runs ≡ some r
      → r.session_id ≡ s.session_id
      → is_executing s.state ≡ true
      → in_flight r.state ≡ true
      → is_executing target ≡ true
  moved_executes r k f same before flies = elim (Bool-cases (is_closing target)) [
    | inl closing ↦
        absurd
          (not-both (session_in_flight-none s.session_id db k (moved.idle closing) f same) flies)
    | inr on ↦ executes_on s.state target moved.legal before on
  ]

  pub RunSessions-moved_session :
      RunSessions db.sessions db.runs
      → RunSessions (update s.session_id (moved_session target now) db.sessions) db.runs
  RunSessions-moved_session h = record {
    at = λ k r f.
        let (x, fx, same, executes) = h.at k r f in
        let after =
          find-update_old s.session_id (moved_session target now) db.sessions r.session_id
            (λ y. refl) fx in
        elim (Bool-cases (s.session_id == r.session_id)) [
          | inl b ↦
              let here : s ≡ x = cc (
                sym moved.present
                ∙ subst (λ i. find i db.sessions ≡ some x) (sym (eq→≡ _ _ b)) fx) in
              (
                moved_session target now x,
                subst
                    (λ b.
                      find r.session_id (update s.session_id (moved_session target now) db.sessions)
                      ≡ some (if b then moved_session target now x else x))
                    b after,
                same,
                λ flies.
                    moved_executes r k f (sym (eq→≡ _ _ b))
                      (subst (λ y. is_executing y.state ≡ true) (sym here) (executes flies)) flies,
              )
          | inr b ↦ (
            x,
            subst
                (λ b.
                  find r.session_id (update s.session_id (moved_session target now) db.sessions)
                  ≡ some (if b then moved_session target now x else x))
                b after,
            same,
            executes,
          )
        ];
  }

module _ {c : Codec} {db : Db} {t : Task} (made : TaskCreated c db t) where
  pub RunTasks-new_task : RunTasks db.tasks db.runs → RunTasks (insert t db.tasks) db.runs
  RunTasks-new_task h = record {
    at = λ k r f. let (x, fx, le) = h.at k r f in (x, find-insert_old t db.tasks r.task_id fx, le);
  }

  pub RunsSettled-new_task : RunsSettled db.tasks db.runs → RunsSettled (insert t db.tasks) db.runs
  RunsSettled-new_task h = record {
    at = λ k x j r fx review fr same. elim (insert-cases t db.tasks k made.fresh fx) [
      | inl (_, e) ↦ absurd (
          not-both draft_unsettled
            (subst (λ s. is_review s ≡ true) (ap (λ (x : Task). x.state) e ∙ made.is_draft) review))
      | inr old ↦ h.at k x j r old review fr same
    ];
  }

has_unresolved_run-none :
    (task_id : String) (db : Db) (j : String) {r : Run}
    → has_unresolved_run task_id db ≡ false
    → find j db.runs ≡ some r
    → r.task_id ≡ task_id
    → is_unresolved r.state ≡ false
unfolding has_unresolved_run
has_unresolved_run-none task_id db j {r} settled here same =
    let p = any-find (λ x. x.task_id == task_id && is_unresolved x.state) db.runs j settled here in
    ground (arith, p, eq_iff r.task_id task_id)

module _ {db : Db} {t : Task} {target : TaskState} (now : ℕ) (moved : TaskMoved db t target) where
  abbrev tasks_after : List Task
  tasks_after = update t.task_id (move_task target t.revision now) db.tasks

  pub RunTasks-moved_task : RunTasks db.tasks db.runs → RunTasks tasks_after db.runs
  RunTasks-moved_task h = record {
    at = λ k r f.
        let (x, fx, le) = h.at k r f in
        (
          _,
          find-update_old t.task_id (move_task target t.revision now) db.tasks r.task_id
              (task_id-move_task target t.revision now) fx,
          revision-grows target t.revision now (t.task_id == r.task_id) x r.input_revision le,
        );
  }

  pub RunsSettled-moved_task : RunsSettled db.tasks db.runs → RunsSettled tasks_after db.runs
  RunsSettled-moved_task h = record {
    at = λ k x j r fx review fr same.
        elim (update-cases t.task_id _ db.tasks k (task_id-move_task target t.revision now)
          moved.present fx) [
            | inl (here, e) ↦
                has_unresolved_run-none t.task_id db j
                  (moved.runs_settled (
                    subst (λ x. is_review x ≡ true)
                      (ap (λ (x : Task). x.state) e ∙ state-move_task target t now) review))
                  fr (same ∙ here)
            | inr (_, old) ↦ h.at k x j r old review fr same
          ];
  }
