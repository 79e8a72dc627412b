-- ===== src/Engine/Lifecycle/Beats.antt =====
-- What `record_legacy_heartbeat` of qingtian_engine/lifecycle.py writes.
use qingtian_ai.Engine.Lifecycle.{Database, EngineTask, Event, Host}
use qingtian_ai.Engine.Lifecycle.Accepted.{Post-snapshot}
use qingtian_ai.Engine.Lifecycle.Audit.{insert_event}
use qingtian_ai.Engine.Lifecycle.Change.{Changes, Core, core, none_yet, task_written}
use qingtian_ai.Engine.Lifecycle.Guards.{is_done, update_engine_task}
use qingtian_ai.Engine.Lifecycle.Handlers.{Post-executable, one}
use qingtian_ai.Engine.Lifecycle.Heartbeat.{
  Beat, beat_events, beaten, is_alive, is_in_state, managed_in_flight, record_legacy_heartbeat,
}
use qingtian_ai.Exec.{pure, when}
use qingtian_ai.Exec.Reads.{Atomic-after, Post-reads}
use qingtian_ai.Exec.Rules.{
  Post, Post-bind, Post-check, Post-fetch, Post-modify, Post-modify_last, Post-mono, Post-pure,
  Post-statement,
}
use qingtian_ai.Exec.Rules.Rollback.{Atomic, Atomic-lift, Atomic-transaction_last}
use qingtian_ai.Prelude.{
  Bool, Bool-cases, false, inl, inr, is_some, opt_eq, refl, subst, sym, true, ◌≡◌,
}

-- an event changes none of the core tables
Post-insert_event :
    (event : Event) {c : Core} {db : Database}
    → core db ≡ c
    → Post (insert_event event) db (λ _ db'. core db' ≡ c)
unfolding insert_event
Post-insert_event event same = Post-check _ _ _ λ _. Post-modify_last _ same

Post-event_when :
    (b : Bool) (event : Event) {c : Core} {db : Database}
    → core db ≡ c
    → Post (when b (insert_event event)) db (λ _ db'. core db' ≡ c)
unfolding when pure
Post-event_when true event same = Post-insert_event event same
Post-event_when false event same = Post-pure tt _ same

Post-beat_events :
    (b : Beat) (t : EngineTask) (alive : Bool) {c : Core} {db : Database}
    → core db ≡ c
    → Post (beat_events b t alive) db (λ _ db'. core db' ≡ c)
unfolding beat_events
Post-beat_events b t alive same = Post-bind _ _ (
    Post-mono (Post-event_when _ _ same) λ _ db1 kept.
      Post-bind _ _ (Post-mono (Post-event_when _ _ kept) λ _ db2 still. Post-insert_event _ still))

beaten_id : (b : Beat) (alive : Bool) (t : EngineTask) → (beaten b alive t).id ≡ t.id
unfolding beaten
beaten_id b alive t = elim (Bool-cases (is_in_state "RUNNING" t)) [
  | inl p ↦ elim (Bool-cases (is_some b.model)) [ inl q ↦ rw (p, q) refl | inr q ↦ rw (p, q) refl ]
  | inr p ↦ elim (Bool-cases (is_some b.model)) [ inl q ↦ rw (p, q) refl | inr q ↦ rw (p, q) refl ]
]

beaten_undone :
    (b : Beat) (alive : Bool) (t : EngineTask)
    → is_done t ≡ false
    → is_done (beaten b alive t) ≡ false
unfolding beaten is_done opt_eq
beaten_undone b alive t h = refl

module _ (host : Host) where
  heartbeat-Atomic :
      (b : Beat) (db : Database)
      → Atomic (record_legacy_heartbeat host b) db (λ _ db'. Changes (core db) (core db'))
  unfolding record_legacy_heartbeat update_engine_task
  heartbeat-Atomic b db = Atomic-lift _ _ λ _ _. Atomic-transaction_last _ (
      Post-fetch _ _ _ λ t here. Post-reads _ _ (Post-executable host t) λ _ _.
        Post-reads _ _ (Post-snapshot host b.now b.task_id) λ _ _. Post-check _ _ _ λ _.
          Post-statement _ _ _ (
            Post-check _ _ _ λ _. Post-check _ _ _ λ _. Post-modify _ _ (
              Post-mono (Post-beat_events b t _ refl) λ _ db' same.
                subst (Changes (core db)) (sym same) (
                  one (
                    task_written b.task_id (beaten b (is_alive b (managed_in_flight b.task_id db)))
                      t (beaten_id b _) here (inr (beaten_undone b _ t)) refl)))))

  pub heartbeat-Changes :
      (b : Beat) (db : Database) → Changes (core db) (core (record_legacy_heartbeat host b db).1)
  heartbeat-Changes b db =
      Atomic-after (record_legacy_heartbeat host b) (λ x. Changes (core db) (core x))
        (heartbeat-Atomic b db) none_yet
