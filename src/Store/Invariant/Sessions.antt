-- ===== src/Store/Invariant/Sessions.antt =====
-- Sessions: two open sessions of one task are the same session, and each session belongs to a task
-- whose revision it has not passed.
use qingtian_ai.Json.{Codec}
use qingtian_ai.Prelude.{
  Bool-cases, List, String, ap, arith, eq_iff, false, inl, inr, not-both, refl, some, subst, sym,
  true, ℕ, ◌&&◌, ◌==◌, ◌∙◌, ◌≡◌, ◌≤◌,
}
use qingtian_ai.States.{SessionState, TaskState, is_open, is_review, is_running}
use qingtian_ai.States.Laws.{draft_unsettled, running_unsettled, session_opens}
use qingtian_ai.Store.Methods.Tasks.{revision-grows, state-move_task, task_id-move_task}
use qingtian_ai.Store.Rows.{
  Db, Session, Task, checkpoint_key, evidence_key, indexed_key, knowledge_key, run_key, session_key,
  task_key,
}
use qingtian_ai.Store.Step.{SessionCreated, SessionMoved, TaskCreated, TaskMoved, moved_session}
use qingtian_ai.Store.Table.{
  any-find, find, find-insert_old, find-update_old, insert, insert-cases, update, update-cases,
}
use qingtian_ai.Store.Tasks.{has_open_session, move_task}

pub record OpenUnique (sessions : List Session) : Type 0 where
  pub at :
      (j k : String) (a b : Session)
      → find j sessions ≡ some a
      → find k sessions ≡ some b
      → a.task_id ≡ b.task_id
      → is_open a.state ≡ true
      → is_open b.state ≡ true
      → j ≡ k

pub record SessionTasks (tasks : List Task) (sessions : List Session) : Type 0 where
  pub at :
      (k : String) (s : Session)
      → find k sessions ≡ some s
      → (t : Task) × (find s.task_id tasks ≡ some t) × (s.context_revision ≤ t.revision)

-- no open session of a task that is under review or done
pub record SessionsSettled (tasks : List Task) (sessions : List Session) : Type 0 where
  pub at :
      (k : String) (t : Task) (j : String) (s : Session)
      → find k tasks ≡ some t
      → is_review t.state ≡ true
      → find j sessions ≡ some s
      → s.task_id ≡ k
      → is_open s.state ≡ false

has_open_session-none :
    (task_id : String) (db : Db) (j : String) {s : Session}
    → has_open_session task_id db ≡ false
    → find j db.sessions ≡ some s
    → s.task_id ≡ task_id
    → is_open s.state ≡ false
unfolding has_open_session
has_open_session-none task_id db j {s} none_open here same =
    let p = any-find (λ x. x.task_id == task_id && is_open x.state) db.sessions j none_open here in
    ground (arith, p, eq_iff s.task_id task_id)

abbrev task_of : Session → String
task_of s = s.task_id

module _ {db : Db} {r : Session} (made : SessionCreated db r) where
  pub OpenUnique-insert : OpenUnique db.sessions → OpenUnique (insert r db.sessions)
  OpenUnique-insert h = record {
    at = λ j k a b fa fb same oa ob. elim (insert-cases r db.sessions j made.fresh fa) [
      | inl (ja, ea) ↦ elim (insert-cases r db.sessions k made.fresh fb) [
        | inl (kb, eb) ↦ ja ∙ sym kb
        | inr old ↦ absurd (
            not-both
              (has_open_session-none r.task_id db k made.alone old (sym same ∙ ap task_of ea)) ob)
      ]
      | inr olda ↦ elim (insert-cases r db.sessions k made.fresh fb) [
        | inl (kb, eb) ↦ absurd (
            not-both (has_open_session-none r.task_id db j made.alone olda (same ∙ ap task_of eb))
              oa)
        | inr oldb ↦ h.at j k a b olda oldb same oa ob
      ]
    ];
  }

  pub SessionTasks-insert :
      SessionTasks db.tasks db.sessions → SessionTasks db.tasks (insert r db.sessions)
  SessionTasks-insert h = record {
    at = λ k s f. elim (insert-cases r db.sessions k made.fresh f) [
      | inl (_, e) ↦
          subst
            (λ x.
              (t : Task) × (find x.task_id db.tasks ≡ some t) × (x.context_revision ≤ t.revision))
            (sym e) (made.task, made.has_task, omega (arith, made.current))
      | inr old ↦ h.at k s old
    ];
  }

  pub SessionsSettled-insert :
      SessionsSettled db.tasks db.sessions → SessionsSettled db.tasks (insert r db.sessions)
  SessionsSettled-insert h = record {
    at = λ k t j s ft review fs same. elim (insert-cases r db.sessions j made.fresh fs) [
      | inl (_, e) ↦
          let there = subst (λ i. find i db.tasks ≡ some t) (sym same ∙ ap task_of e) ft in
          let one : made.task ≡ t = cc made.has_task in
          absurd (
            not-both
              (running_unsettled t.state
                (subst (λ x. is_running x.state ≡ true) one made.task_running))
              review)
      | inr old ↦ h.at k t j s ft review old same
    ];
  }

module _ {db : Db} {s : Session} {target : SessionState} (now : ℕ)
    (moved : SessionMoved db s target) where
  abbrev after_move : List Session
  after_move = update s.session_id (moved_session target now) db.sessions

  -- a session that is open after the move was open before it, in the same task
  was_open :
      (j : String) {a : Session}
      → find j after_move ≡ some a
      → is_open a.state ≡ true
      → (b : Session) × (find j db.sessions ≡ some b)
        × (b.task_id ≡ a.task_id)
        × (is_open b.state ≡ true)
  was_open j {a} f o =
      elim (update-cases s.session_id _ db.sessions j (λ y. refl) moved.present f) [
        | inl (same, e) ↦ (
          s,
          subst (λ i. find i db.sessions ≡ some s) (sym same) moved.present,
          sym (ap task_of e),
          session_opens s.state target moved.legal (subst (λ x. is_open x.state ≡ true) e o),
        )
        | inr (_, old) ↦ (a, old, refl, o)
      ]

  pub OpenUnique-update : OpenUnique db.sessions → OpenUnique after_move
  OpenUnique-update h = record {
    at = λ j k a b fa fb same oa ob.
        let (a', fa', ta, oa') = was_open j fa oa in
        let (b', fb', tb, ob') = was_open k fb ob in
        h.at j k a' b' fa' fb' (ta ∙ same ∙ sym tb) oa' ob';
  }

  pub SessionTasks-update : SessionTasks db.tasks db.sessions → SessionTasks db.tasks after_move
  SessionTasks-update h = record {
    at = λ k x f. elim (update-cases s.session_id _ db.sessions k (λ y. refl) moved.present f) [
      | inl (_, e) ↦
          subst
            (λ x.
              (t : Task) × (find x.task_id db.tasks ≡ some t) × (x.context_revision ≤ t.revision))
            (sym e) (h.at s.session_id s moved.present)
      | inr (_, old) ↦ h.at k x old
    ];
  }

  pub SessionsSettled-update :
      SessionsSettled db.tasks db.sessions → SessionsSettled db.tasks after_move
  SessionsSettled-update h = record {
    at = λ k t j x ft review fx same. elim (Bool-cases (is_open x.state)) [
      | inl o ↦
          let (b, fb, tb, ob) = was_open j fx o in
          absurd (not-both (h.at k t j b ft review fb (tb ∙ same)) ob)
      | inr e ↦ e
    ];
  }

module _ {c : Codec} {db : Db} {r : Task} (made : TaskCreated c db r) where
  pub SessionTasks-new_task :
      SessionTasks db.tasks db.sessions → SessionTasks (insert r db.tasks) db.sessions
  SessionTasks-new_task h = record {
    at = λ k s f. let (t, ft, le) = h.at k s f in (t, find-insert_old r db.tasks s.task_id ft, le);
  }

  pub SessionsSettled-new_task :
      SessionsSettled db.tasks db.sessions → SessionsSettled (insert r db.tasks) db.sessions
  SessionsSettled-new_task h = record {
    at = λ k t j s ft review fs same. elim (insert-cases r db.tasks k made.fresh ft) [
      | inl (_, e) ↦ absurd (
          not-both draft_unsettled
            (subst (λ x. is_review x ≡ true) (ap (λ (x : Task). x.state) e ∙ made.is_draft) review))
      | inr old ↦ h.at k t j s old review fs same
    ];
  }

module _ {db : Db} {r : Task} {target : TaskState} (now : ℕ) (moved : TaskMoved db r target) where
  abbrev tasks_after : List Task
  tasks_after = update r.task_id (move_task target r.revision now) db.tasks

  pub SessionTasks-moved_task :
      SessionTasks db.tasks db.sessions → SessionTasks tasks_after db.sessions
  SessionTasks-moved_task h = record {
    at = λ k s f.
        let (t, ft, le) = h.at k s f in
        (
          _,
          find-update_old r.task_id (move_task target r.revision now) db.tasks s.task_id
              (task_id-move_task target r.revision now) ft,
          revision-grows target r.revision now (r.task_id == s.task_id) t s.context_revision le,
        );
  }

  pub SessionsSettled-moved_task :
      SessionsSettled db.tasks db.sessions → SessionsSettled tasks_after db.sessions
  SessionsSettled-moved_task h = record {
    at = λ k t j s ft review fs same.
        elim (update-cases r.task_id _ db.tasks k (task_id-move_task target r.revision now)
          moved.present ft) [
            | inl (here, e) ↦
                has_open_session-none r.task_id db j
                  (moved.sessions_settled (
                    subst (λ x. is_review x ≡ true)
                      (ap (λ (x : Task). x.state) e ∙ state-move_task target r now) review))
                  fs (same ∙ here)
            | inr (_, old) ↦ h.at k t j s old review fs same
          ];
  }
