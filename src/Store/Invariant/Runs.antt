-- ===== src/Store/Invariant/Runs.antt =====
-- Runs: each belongs to a task and to a session of that task; while it is in flight its session
-- executes; an UNKNOWN run names the external operation that can settle it.
pub mod Kept
use qingtian_ai.Json.{Codec}
use qingtian_ai.Prelude.{
  Bool-cases, List, Option, String, ap, arith, eq_iff, eq→≡, false, if◌then◌else◌, inl, inr,
  not-both, refl, some, subst, sym, true, truthy, ℕ, ◌&&◌, ◌==◌, ◌∙◌, ◌≡◌, ◌≤◌,
}
use qingtian_ai.States.{
  RunState, SessionState, TaskState, in_flight, is_closing, is_review, is_running, is_unknown,
  is_unresolved,
}
use qingtian_ai.States.Laws.{
  active_executes, draft_unsettled, executes_on, is_executing, planned_known, run_in_flight,
  run_unresolves, running_unsettled,
}
use qingtian_ai.Store.Methods.Tasks.{revision-grows, state-move_task, task_id-move_task}
use qingtian_ai.Store.Rows.{
  Db, Run, Session, Task, checkpoint_key, evidence_key, indexed_key, knowledge_key, run_key,
  session_key, task_key,
}
use qingtian_ai.Store.Sessions.{session_in_flight}
use qingtian_ai.Store.Step.{
  RunCreated, RunMoved, SessionCreated, SessionMoved, TaskCreated, TaskMoved, moved_run,
  moved_session,
}
use qingtian_ai.Store.Table.{
  any-find, find, find-insert_old, find-update_old, insert, insert-cases, update, update-cases,
}
use qingtian_ai.Store.Tasks.{has_unresolved_run, move_task}

pub record RunTasks (tasks : List Task) (runs : List Run) : Type 0 where
  pub at :
      (k : String) (r : Run)
      → find k runs ≡ some r
      → (t : Task) × (find r.task_id tasks ≡ some t) × (r.input_revision ≤ t.revision)

abbrev Executed : List Session → Run → Type 0
Executed sessions r =
    (s : Session) × (find r.session_id sessions ≡ some s)
    × (s.task_id ≡ r.task_id)
    × (in_flight r.state ≡ true → is_executing s.state ≡ true)

pub record RunSessions (sessions : List Session) (runs : List Run) : Type 0 where
  pub at : (k : String) (r : Run) → find k runs ≡ some r → Executed sessions r

pub record Traceable (runs : List Run) : Type 0 where
  pub at :
      (k : String) (r : Run)
      → find k runs ≡ some r
      → is_unknown r.state ≡ true
      → truthy r.external_operation_id ≡ true

-- no planned, running or unknown run of a task that is under review or done
pub record RunsSettled (tasks : List Task) (runs : List Run) : Type 0 where
  pub at :
      (k : String) (t : Task) (j : String) (r : Run)
      → find k tasks ≡ some t
      → is_review t.state ≡ true
      → find j runs ≡ some r
      → r.task_id ≡ k
      → is_unresolved r.state ≡ false

abbrev task_of : Run → String
task_of r = r.task_id

module _ {db : Db} {r : Run} (made : RunCreated db r) where
  pub RunTasks-insert : RunTasks db.tasks db.runs → RunTasks db.tasks (insert r db.runs)
  RunTasks-insert h = record {
    at = λ k x f. elim (insert-cases r db.runs k made.fresh f) [
      | inl (_, e) ↦
          subst
            (λ x. (t : Task) × (find x.task_id db.tasks ≡ some t) × (x.input_revision ≤ t.revision))
            (sym e) (made.task, made.has_task, omega (arith, made.input_current))
      | inr old ↦ h.at k x old
    ];
  }

  pub RunSessions-insert :
      RunSessions db.sessions db.runs → RunSessions db.sessions (insert r db.runs)
  RunSessions-insert h = record {
    at = λ k x f. elim (insert-cases r db.runs k made.fresh f) [
      | inl (_, e) ↦ subst (Executed db.sessions) (sym e) (
        made.session,
        made.in_session,
        made.same_task,
        λ _. active_executes _ made.session_active,
      )
      | inr old ↦ h.at k x old
    ];
  }

  pub Traceable-insert : Traceable db.runs → Traceable (insert r db.runs)
  Traceable-insert h = record {
    at = λ k x f u. elim (insert-cases r db.runs k made.fresh f) [
      | inl (_, e) ↦ absurd (
          not-both planned_known
            (subst (λ s. is_unknown s ≡ true) (ap (λ (x : Run). x.state) e ∙ made.is_planned) u))
      | inr old ↦ h.at k x old u
    ];
  }

  pub RunsSettled-insert : RunsSettled db.tasks db.runs → RunsSettled db.tasks (insert r db.runs)
  RunsSettled-insert h = record {
    at = λ k t j x ft review fx same. elim (insert-cases r db.runs j made.fresh fx) [
      | inl (_, e) ↦
          let there = subst (λ i. find i db.tasks ≡ some t) (sym same ∙ ap task_of e) ft in
          let one : made.task ≡ t = cc made.has_task in
          absurd (
            not-both
              (running_unsettled t.state
                (subst (λ x. is_running x.state ≡ true) one made.task_running))
              review)
      | inr old ↦ h.at k t j x ft review old same
    ];
  }

module _ {db : Db} {r : Run} {target : RunState} {operation : Option String} (now : ℕ)
    (moved : RunMoved db r target operation) where
  abbrev runs_after : List Run
  runs_after = update r.run_id (moved_run target operation now) db.runs

  pub RunTasks-update : RunTasks db.tasks db.runs → RunTasks db.tasks runs_after
  RunTasks-update h = record {
    at = λ k x f. elim (update-cases r.run_id _ db.runs k (λ y. refl) moved.present f) [
      | inl (_, e) ↦
          subst
            (λ x. (t : Task) × (find x.task_id db.tasks ≡ some t) × (x.input_revision ≤ t.revision))
            (sym e) (h.at r.run_id r moved.present)
      | inr (_, old) ↦ h.at k x old
    ];
  }

  pub RunSessions-update : RunSessions db.sessions db.runs → RunSessions db.sessions runs_after
  RunSessions-update h = record {
    at = λ k x f. elim (update-cases r.run_id _ db.runs k (λ y. refl) moved.present f) [
      | inl (_, e) ↦
          let (s, fs, same, executes) = h.at r.run_id r moved.present in
          subst (Executed db.sessions) (sym e)
            (s, fs, same, λ flies. executes (run_in_flight r.state target moved.legal flies))
      | inr (_, old) ↦ h.at k x old
    ];
  }

  pub Traceable-update : Traceable db.runs → Traceable runs_after
  Traceable-update h = record {
    at = λ k x f u. elim (update-cases r.run_id _ db.runs k (λ y. refl) moved.present f) [
      | inl (_, e) ↦
          subst (λ x. truthy x.external_operation_id ≡ true) (sym e)
            (moved.traceable (subst (λ s. is_unknown s ≡ true) (ap (λ (x : Run). x.state) e) u))
      | inr (_, old) ↦ h.at k x old u
    ];
  }

  pub RunsSettled-update : RunsSettled db.tasks db.runs → RunsSettled db.tasks runs_after
  RunsSettled-update h = record {
    at = λ k t j x ft review fx same.
        elim (update-cases r.run_id _ db.runs j (λ y. refl) moved.present fx) [
          | inl (_, e) ↦ absurd (
              not-both (h.at k t r.run_id r ft review moved.present (sym (ap task_of e) ∙ same))
                (run_unresolves r.state target moved.legal))
          | inr (_, old) ↦ h.at k t j x ft review old same
        ];
  }
