-- ===== src/Engine/Lifecycle/Calls.antt =====
-- What `_reconcile`, `_amend` and `apply` of qingtian_engine/lifecycle.py write.
use qingtian_ai.Engine.Lifecycle.{
  Database, EngineTask, Execution, ExecutionStatus, Handoff, Host, Version, active_execution,
  canceled_execution, engine_task_key, execution_key, failed_execution, finished_execution,
  handoff_key, intake_key, lost_execution, managed_run_key, notice_key, version_key,
}
use qingtian_ai.Engine.Lifecycle.Amend.{amend, amended, check_changes, merged, staged, update_stage}
use qingtian_ai.Engine.Lifecycle.Change.{
  Changes, Core, and_then_one, core, execution_written, none_yet, task_written,
}
use qingtian_ai.Engine.Lifecycle.Distinct.{
  Distinct, Distinct-Stored, Distinct-filter, Stored, Stored-update,
}
use qingtian_ai.Engine.Lifecycle.Executions.{update_execution}
use qingtian_ai.Engine.Lifecycle.Guards.{
  bumped, is_done, is_unfinished, no_managed_run, update_engine_task,
}
use qingtian_ai.Engine.Lifecycle.Handlers.{
  Kept, Post-executable, Post-notify, Writes, Wrote, one, unrevised,
}
use qingtian_ai.Engine.Lifecycle.Outbox.{
  is_active_execution, is_stale, lose_if, lose_stale, lost, reconcile, report_if, report_overdue,
}
use qingtian_ai.Exec.{Exec}
use qingtian_ai.Exec.Reads.{Post-reads, Post-then_pure}
use qingtian_ai.Exec.Rules.{
  Post, Post-bind, Post-check, Post-check_last, Post-lift, Post-modify, Post-mono, Post-pure,
  Post-statement, Post-when,
}
use qingtian_ai.Json.{Entries, Items, Value}
use qingtian_ai.Json.Dicts.{get}
use qingtian_ai.Prelude.{
  &&-right, All, All-filter, All-filter_of, Bool, Bool-cases, List, Option, String, [], false,
  filter, if◌then◌else◌, inl, inr, none, refl, some, subst, sym, true, ℕ, ◌&&◌, ◌==◌, ◌∙◌, ◌∷◌, ◌≡◌,
}
use qingtian_ai.Store.Table.{find, find-update}

module _ (host : Host) where
  Post-report_if :
      (t : EngineTask) (now : ℕ) (kind recipient : String) (h : Handoff)
      (later : Exec Database Items) (b : Bool) {c : Core} {vs : List Version} (db : Database)
      → Kept c vs db
      → ((db1 : Database) → Kept c vs db1 → Post later db1 (λ _ db'. Kept c vs db'))
      → Post (report_if host t now kind recipient h later b) db (λ _ db'. Kept c vs db')
  unfolding report_if
  Post-report_if t now kind recipient h later false db same rest = rest db same
  Post-report_if t now kind recipient h later true db same rest = Post-bind _ _ (
      Post-mono (Post-notify host t.id _ _ recipient kind now)
        λ _ db1 kept. Post-then_pure _ _ (rest db1 (kept.0 ∙ same.0, kept.1 ∙ same.1)))

  Post-report_overdue :
      (t : EngineTask) (now : ℕ) (kind : String) (recipient : Handoff → String) (hs : List Handoff)
      {c : Core} {vs : List Version} (db : Database)
      → Kept c vs db
      → Post (report_overdue host t now kind recipient hs) db (λ _ db'. Kept c vs db')
  unfolding report_overdue
  Post-report_overdue t now kind recipient [] db same = Post-pure _ _ same
  Post-report_overdue t now kind recipient (h ∷ rest) db same =
      Post-report_if t now kind (recipient h) h _ _ db same
        (Post-report_overdue t now kind recipient rest)

  -- a row that the query of `_reconcile` has returned
  abbrev Active : Execution → Type 0
  Active e = is_active_execution e.status ≡ true

  active-unfinished : (s : ExecutionStatus) → is_active_execution s ≡ true → is_unfinished s ≡ true
  unfolding is_active_execution is_unfinished
  active-unfinished active_execution h = refl
  active-unfinished lost_execution h = refl
  active-unfinished finished_execution h = cc
  active-unfinished failed_execution h = cc
  active-unfinished canceled_execution h = cc

  pub lose_stale-Writes :
      (t : EngineTask) (now : ℕ) (es : List Execution) (a : Core) (db : Database)
      → Changes a (core db)
      → Distinct es
      → Stored db.executions es
      → All Active es
      → {vs : List Version} → db.versions ≡ vs
      → Post (lose_stale host t now es) db (λ _ db'. Changes a (core db') × (db'.versions ≡ vs))
  unfolding lose_stale lose_if update_execution
  lose_stale-Writes t now [] a db before d s u vs = Post-pure _ _ (before, vs)
  lose_stale-Writes t now (e ∷ es) a db before d s u vs =
      elim (Bool-cases (is_stale now e.last_activity_at)) [
        | inl b ↦ rw b (
            Post-modify _ _ (
              Post-bind _ _ (
                Post-mono (Post-notify host t.id _ none _ "execution.lost" now) λ _ db1 kept.
                  Post-then_pure _ _ (
                    lose_stale-Writes t now es a db1
                      (subst (Changes a) (sym kept.0) (
                        and_then_one before (
                          execution_written e.id lost e (λ x. refl) (λ x. refl) s.0
                            (λ _. active-unfinished e.status u.0) refl)))
                      d.1
                      (subst (λ c. Stored c.executions es) (sym kept.0)
                        (Stored-update e lost db.executions es (λ x. refl) d.0 s.1))
                      u.1 (kept.1 ∙ vs)))))
        | inr b ↦ rw b (lose_stale-Writes t now es a db before d.1 s.1 u.1 vs)
      ]

  -- `_reconcile`
  pub reconcile-Writes :
      (fresh : String) (t : EngineTask) (p : Entries) (now : ℕ) (db : Database)
      → Distinct db.executions
      → Writes (reconcile host fresh t p now) db
  unfolding reconcile
  reconcile-Writes fresh t p now db d = Post-lift _ _ λ _ _. Post-statement _ _ _ (
      Post-bind _ _ (
        Post-mono
          (lose_stale-Writes t now
            (filter (λ e. e.task_id == t.id && is_active_execution e.status) db.executions)
            (core db) db none_yet (Distinct-filter _ db.executions d)
            (All-filter_of _ _ db.executions (Distinct-Stored db.executions d))
            (All-filter Active _ db.executions λ e h. &&-right (e.task_id == t.id) _ h) refl)
          λ _ db1 made. Post-statement _ _ _ (
            Post-bind _ _ (
              Post-mono (Post-report_overdue t now "handoff.overdue" _ _ db1 (refl, made.1))
                λ _ db2 kept. Post-statement _ _ _ (
                  Post-then_pure _ _ (
                    Post-mono (Post-report_overdue t now "handoff.start_overdue" _ _ db2 kept)
                      λ _ db3 still. (
                        subst (Changes (core db)) (sym still.0) made.0,
                        unrevised _ _ still.1,
                      )))))))

  Post-check_changes :
      (t : EngineTask) (changes : Entries) {db : Database}
      → Post (check_changes host t changes) db (λ _ db'. (db' ≡ db) × Unit {0})
  unfolding check_changes
  Post-check_changes t changes = Post-lift _ _ λ _ _. Post-lift _ _ λ _ _. Post-check _ _ _ λ _.
      Post-lift _ _ λ _ _. Post-lift _ _ λ _ _. Post-lift _ _ λ _ _.
        Post-lift _ _
          λ _ _. Post-lift _ _ λ _ _. Post-lift _ _ λ _ _. Post-check_last _ _ λ _. (refl, tt)

  -- the two statements of `_amend`
  amended-Changes :
      (k : String) (g : EngineTask → EngineTask) (t : EngineTask) (b : Bool) (db : Database)
      → find k db.tasks ≡ some t
      → ((x : EngineTask) → (g x).id ≡ x.id)
      → (is_done t ≡ false → is_done (g t) ≡ false)
      → Wrote db (if b then update_engine_task k g db else db)
  unfolding update_engine_task
  amended-Changes k g t true db here same keeps = (
    one (task_written k g t same here (inr keeps) refl),
    λ j v h. elim (Bool-cases (k == j)) [
      | inl b ↦ (bumped v, rw (find-update k bumped db.versions j (λ x. refl), b, h) refl, inr refl)
      | inr b ↦ (v, rw (find-update k bumped db.versions j (λ x. refl), b, h) refl, inl refl)
    ],
  )
  amended-Changes k g t false db here same keeps = (none_yet, unrevised _ _ refl)

  staged-Wrote :
      (k : String) (o : Option Value) (b : Bool) (db db1 : Database)
      → Wrote db db1
      → Wrote db (if b then update_stage k o db1 else db1)
  unfolding update_stage
  staged-Wrote k o true db db1 made = (
    made.0,
    λ j v h.
        let (w, q, r) = made.1 j v h in
        elim (Bool-cases (k == j)) [
          | inl b ↦
              (staged o w, rw (find-update k (staged o) db1.versions j (λ x. refl), b, q) refl, r)
          | inr b ↦ (w, rw (find-update k (staged o) db1.versions j (λ x. refl), b, q) refl, r)
        ],
  )
  staged-Wrote k o false db db1 made = made

  -- `_amend`
  pub amend-Writes :
      (fresh : String) (t : EngineTask) (p : Entries) (now : ℕ) (db : Database)
      → find t.id db.tasks ≡ some t
      → Writes (amend host fresh t p now) db
  unfolding amend merged is_done no_managed_run
  amend-Writes fresh t p now db here = Post-lift _ _ λ _ _.
      Post-reads _ _ (Post-executable host t) λ _ _. Post-lift _ _ λ changes _. Post-lift _ _ λ _ _.
        Post-statement _ _ _ (
          Post-check _ _ _ λ _.
            Post-when _ _ _ (Unit {0}) (Post-check_last _ _ λ _. (refl, tt)) λ _.
              Post-reads _ _ (Post-check_changes t changes) λ _ _. Post-modify _ _ (
                Post-modify _ _ (
                  Post-pure _ _ (
                    staged-Wrote t.id (get "stage" changes) _ db _ (
                      amended-Changes t.id (amended changes now) t _ db here (λ x. refl)
                        (λ h. h))))))
