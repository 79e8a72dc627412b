-- ===== src/Engine/Lifecycle/Blockers.antt =====
-- The completion blockers of `snapshot` in qingtian_engine/lifecycle.py, and the trigger that guards
-- the state DONE.
use Prim.Native.String.{◌++◌ as text_append}
use qingtian_ai.Engine.Lifecycle.{
  Database, EngineTask, Host, Snapshot, engine_task_key, execution_key, handoff_key, intake_key,
  managed_run_key, notice_key, version_key,
}
use qingtian_ai.Engine.Lifecycle.Guards.{
  has_unfinished_execution, has_unresolved_handoff, has_verified, is_done, is_resolved,
  is_unfinished, may_complete, update_state,
}
use qingtian_ai.Engine.Lifecycle.Snapshots.{
  blockers, executions_of, handoffs_of, snapshot, unfinished, unresolved,
}
use qingtian_ai.Exec.{check, err, fetch, integrity_error, modify, ok, ◌>>=◌}
use qingtian_ai.Exec.Reads.{Post-statement_last}
use qingtian_ai.Exec.Rules.{Post, Post-fetch}
use qingtian_ai.Prelude.{
  Bool, Bool-cases, List, String, any, any-filter, any-order_by, ap, ap₂, false, filter,
  if◌then◌else◌, inl, inr, is_empty, is_empty-append, is_empty-filter, is_empty-map, map, not,
  order_by, refl, some, sym, ℕ, ◌&&◌, ◌==◌, ◌||◌, ◌∙◌, ◌≡◌,
}
use qingtian_ai.Store.Table.{find, key-find}

-- the rows of a task that are open, in any order
none_open :
    {A B : Type 0} (f : A → B) (p q : A → Bool) (before : A → A → Bool) (xs : List A)
    → is_empty (map f (filter p (order_by before (filter q xs)))) ≡ not (any (λ x. q x && p x) xs)
none_open f p q before xs =
    is_empty-map f (filter p (order_by before (filter q xs)))
    ∙ is_empty-filter p (order_by before (filter q xs))
    ∙ ap not (any-order_by p before (filter q xs) ∙ any-filter p q xs)

blockers-empty :
    (k : String) (db : Database)
    → is_empty (blockers (handoffs_of k db) (executions_of k db))
      ≡ (not (has_unresolved_handoff k db) && not (has_unfinished_execution k db))
unfolding blockers handoffs_of executions_of unresolved unfinished has_unresolved_handoff
    has_unfinished_execution
blockers-empty k db =
    is_empty-append
      (map (λ h. text_append "unresolved_handoff:" h.id) (unresolved (handoffs_of k db)))
      (map (λ e. text_append "unfinished_external_execution:" e.id)
        (unfinished (executions_of k db)))
    ∙ ap₂ (λ a b. a && b)
        (none_open _ (λ h. not (is_resolved h.status)) (λ h. h.task_id == k) _ db.handoffs)
        (none_open _ (λ e. is_unfinished e.status) (λ e. e.task_id == k) _ db.executions)

-- the run of the write of DONE
complete-runs :
    (k : String) (t : EngineTask) (db : Database)
    → find k db.tasks ≡ some t
    → is_done t ≡ false
    → (update_state k "DONE" db).0 ≡ (if may_complete t db then ok tt else err integrity_error)
unfolding update_state ◌>>=◌ fetch check modify
complete-runs k t db here undone =
    rw (here, undone)
      (elim (Bool-cases (may_complete t db)) [ inl b ↦ rw b refl | inr b ↦ rw b refl ])

Post-blockers :
    (host : Host) (now : ℕ) (k : String) (db : Database)
    → Post
        (snapshot host now k)
        db
        (λ s _. s.completion_blockers ≡ blockers (handoffs_of k db) (executions_of k db))
unfolding snapshot
Post-blockers host now k db = Post-fetch _ _ _ λ t here. Post-fetch _ _ _ λ v _.
    Post-statement_last _ _
      (ap (λ i. blockers (handoffs_of i db) (executions_of i db)) (key-find db.tasks k here))

-- Writing the state DONE to a task that is not done succeeds if the snapshot of the task names no
-- completion blocker and, if the task requires deployment, there is verified evidence of the deploy
-- and of the smoke test; otherwise the trigger aborts it.
pub blockers_decide :
    (host : Host) (now : ℕ) (k : String) (t : EngineTask) (db : Database) (s : Snapshot)
    (db' : Database)
    → find k db.tasks ≡ some t
    → is_done t ≡ false
    → snapshot host now k db ≡ (ok s, db')
    → (update_state k "DONE" db).0 ≡ (
        if is_empty s.completion_blockers
          && (not t.requires_deploy
              || any (λ e. e.task_id == k && e.kind == "deploy" && e.verified) db.evidence
                && any (λ e. e.task_id == k && e.kind == "smoke" && e.verified) db.evidence)
        then ok tt
        else err integrity_error)
unfolding may_complete has_verified
blockers_decide host now k t db s db' here undone ran =
    complete-runs k t db here undone
    ∙ ap
        (λ j.
          if not (has_unresolved_handoff j db)
            && not (has_unfinished_execution j db)
            && (not t.requires_deploy
                || any (λ e. e.task_id == j && e.kind == "deploy" && e.verified) db.evidence
                  && any (λ e. e.task_id == j && e.kind == "smoke" && e.verified) db.evidence)
          then ok tt
          else err integrity_error)
        (key-find db.tasks k here)
    ∙ ap
        (λ b.
          if b
            && (not t.requires_deploy
                || any (λ e. e.task_id == k && e.kind == "deploy" && e.verified) db.evidence
                  && any (λ e. e.task_id == k && e.kind == "smoke" && e.verified) db.evidence)
          then ok tt
          else err integrity_error)
        (sym (blockers-empty k db) ∙ ap is_empty (sym ((Post-blockers host now k db).at s db' ran)))
