-- ===== src/Engine/Lifecycle/Work.antt =====
-- What the handlers of qingtian_engine/lifecycle.py write: the executions, `_reconcile`, `_amend`,
-- and `apply` as a whole.
use qingtian_ai.Engine.Lifecycle.{
  Database, EngineTask, Host, engine_task_key, execution_key, handoff_key, intake_key,
  managed_run_key, notice_key, version_key,
}
use qingtian_ai.Engine.Lifecycle.Change.{execution_added, execution_task, execution_written}
use qingtian_ai.Engine.Lifecycle.Executions.{
  bound_handoff, execution_of, external_activity, external_finish, external_register, finished,
  insert_execution, merge_artifacts, observed_execution, update_execution,
}
use qingtian_ai.Engine.Lifecycle.Guards.{has_managed_run, is_unfinished, no_managed_run}
use qingtian_ai.Engine.Lifecycle.Handlers.{
  Post-executable, Post-handoff_of, Writes, one, owned-found, unrevised,
}
use qingtian_ai.Exec.Reads.{Post-reads, Post-then_pure, free_key}
use qingtian_ai.Exec.Rules.{
  Post, Post-check, Post-fetch, Post-lift, Post-modify, Post-modify_last, Post-pure,
}
use qingtian_ai.Json.{Entries}
use qingtian_ai.Prelude.{Bool, String, false, not-true, refl, some, subst, sym, true, ℕ, ◌≡◌}
use qingtian_ai.Store.Table.{find, key-find}

module _ (host : Host) where
  Post-execution_of :
      (t : EngineTask) (p : Entries) {db : Database}
      → Post (execution_of host t p) db (λ e db'.
        (db' ≡ db) × ((find e.id db.executions ≡ some e) × (is_unfinished e.status ≡ true)))
  unfolding execution_of
  Post-execution_of t p {db} = Post-lift _ _ λ id _. Post-fetch _ _ _ λ e q. Post-check _ _ _ λ u.
      Post-pure _ _ (
        let (here, same) = owned-found execution_task t.id (find id db.executions) q in
        (
          refl,
          (
            subst (λ k. find k db.executions ≡ some e) (sym (key-find db.executions id here)) here,
            u,
          ),
        ))

  Post-bound_handoff :
      (t : EngineTask) (p : Entries) (executor : String) (seen_at : ℕ) (b : Bool) {db : Database}
      → Post (bound_handoff host t p executor seen_at b) db (λ _ db'. (db' ≡ db) × Unit {0})
  unfolding bound_handoff
  Post-bound_handoff t p executor seen_at true =
      Post-reads _ _ (Post-handoff_of host t p)
        λ h _. Post-check _ _ _ λ _. Post-check _ _ _ λ _. Post-pure _ _ (refl, tt)
  Post-bound_handoff t p executor seen_at false = Post-pure _ _ (refl, tt)

  -- `_external_register`
  pub external_register-Writes :
      (fresh : String) (t : EngineTask) (p : Entries) (now : ℕ) (db : Database)
      → find t.id db.tasks ≡ some t
      → Writes (external_register host fresh t p now) db
  unfolding external_register insert_execution no_managed_run has_managed_run
  external_register-Writes fresh t p now db here = Post-lift _ _ λ _ _.
      Post-reads _ _ (Post-executable host t) λ _ undone. Post-check _ _ _ λ idle.
        Post-lift _ _ λ executor _. Post-lift _ _ λ thread _. Post-lift _ _ λ turn _.
          Post-lift _ _ λ model _. Post-lift _ _ λ reasoning _. Post-lift _ _ λ speed _.
            Post-lift _ _ λ seen_at _. Post-check _ _ _ λ _. Post-lift _ _ λ activity_ref _.
              Post-lift _ _ λ artifacts _.
                Post-reads _ _ (Post-bound_handoff t p executor seen_at _) λ handoff_id _.
                  Post-check _ _ _ λ _. Post-then_pure _ _ (
                    Post-check _ _ _ λ free. Post-modify_last _ (
                      one (
                          execution_added _ t (free_key _ free) here undone (not-true _ idle) refl),
                      unrevised _ _ refl,
                    ))

  -- `_external_activity`
  pub external_activity-Writes :
      (fresh : String) (t : EngineTask) (p : Entries) (now : ℕ) (db : Database)
      → Writes (external_activity host fresh t p now) db
  unfolding external_activity update_execution
  external_activity-Writes fresh t p now db = Post-lift _ _ λ _ _.
      Post-reads _ _ (Post-executable host t) λ _ _.
        Post-reads _ _ (Post-execution_of t p) λ e there. Post-lift _ _ λ actor _.
          Post-check _ _ _ λ _. Post-lift _ _ λ seen_at _. Post-lift _ _ λ activity_ref _.
            Post-check _ _ _ λ _. Post-modify _ _ (
              Post-pure _ _ (
                (
                  one (
                      execution_written e.id (observed_execution seen_at activity_ref) e (λ x. refl)
                        (λ x. refl) there.0 (λ _. there.1) refl),
                  unrevised _ _ refl,
                )))

  -- `_external_finish`
  pub external_finish-Writes :
      (fresh : String) (t : EngineTask) (p : Entries) (now : ℕ) (db : Database)
      → Writes (external_finish host fresh t p now) db
  unfolding external_finish update_execution
  external_finish-Writes fresh t p now db = Post-lift _ _ λ _ _.
      Post-reads _ _ (Post-execution_of t p) λ e there. Post-lift _ _ λ actor _.
        Post-check _ _ _ λ _. Post-lift _ _ λ name _. Post-lift _ _ λ status _.
          Post-lift _ _ λ at _. Post-check _ _ _ λ _. Post-lift _ _ λ given _. Post-modify _ _ (
            Post-pure _ _ (
              (
                one (
                    execution_written e.id (finished status at (merge_artifacts e.artifacts given))
                      e (λ x. refl) (λ x. refl) there.0 (λ _. there.1) refl),
                unrevised _ _ refl,
              )))
