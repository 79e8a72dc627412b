-- ===== src/Engine/Admission/Targets.antt =====
-- qingtian_engine/admission.py: the trigger that records the target of a run when it is queued.
use qingtian_ai.Engine.Admission.{Desk, RunTarget}
use qingtian_ai.Engine.Admission.Columns.{picked, target_fields, task_dict}
use qingtian_ai.Engine.Admission.Reading.{on_life}
use qingtian_ai.Engine.Lifecycle.{
  EngineTask, Host, ManagedRun, engine_task_key, execution_key, handoff_key, intake_key,
  managed_run_key, notice_key, version_key,
}
use qingtian_ai.Engine.Lifecycle.Guards.{insert_managed_run}
use qingtian_ai.Exec.{
  Exec, check, integrity_error, modify, pure, statement, transaction, ◌>>=◌, ◌>>◌,
}
use qingtian_ai.Json.{dict}
use qingtian_ai.Prelude.{Option, [], any, none, not, some, ◌++◌, ◌==◌, ◌∷◌}
use qingtian_ai.Store.Table.{find}

unfoldable pub insert_target : RunTarget → Exec Desk (Unit {0})
insert_target x = do
  check (λ db. not (any (λ y. y.run_id == x.run_id) db.targets)) integrity_error
  modify (λ db. record db { targets = db.targets ++ x ∷ [] })

unfoldable pub capture_target : Host → ManagedRun → Option EngineTask → Exec Desk (Unit {0})
capture_target host r none = pure tt
capture_target host r (some t) = insert_target (record {
  run_id = r.id;
  task_id = r.task_id;
  target = dict (picked target_fields (task_dict host t));
})

-- INSERT INTO runs, with the triggers admission_capture_run_target and
-- admission_run_targets_no_replace
unfoldable pub queue_run : Host → ManagedRun → Exec Desk (Unit {0})
queue_run host r = transaction (do
  on_life (insert_managed_run r)
  t ← statement (λ db. find r.task_id db.life.tasks) (λ db. db)
  capture_target host r t)
