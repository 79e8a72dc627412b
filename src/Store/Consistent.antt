-- ===== src/Store/Consistent.antt =====
-- The invariant of the database, and that every abstract step keeps it.
use qingtian_ai.Json.{Codec}
use qingtian_ai.Prelude.{Bool, List, String, arith, subst, subst₂, sym, ◌≡◌}
use qingtian_ai.Store.Invariant.Checkpoints.{
  AllIntact, AllIntact-insert, Anchored, Anchored-insert, CheckpointTasks, CheckpointTasks-insert,
  CheckpointTasks-moved_task, CheckpointTasks-new_task, Linear, Linear-insert,
}
use qingtian_ai.Store.Invariant.Knowledge.{
  IndexAgrees, IndexAgrees-add, IndexAgrees-empty, IndexAgrees-forget,
}
use qingtian_ai.Store.Invariant.Runs.{
  RunSessions, RunSessions-insert, RunSessions-update, RunTasks, RunTasks-insert, RunTasks-update,
  RunsSettled, RunsSettled-insert, RunsSettled-update, Traceable, Traceable-insert,
  Traceable-update,
}
use qingtian_ai.Store.Invariant.Runs.Kept.{
  RunSessions-moved_session, RunSessions-new_session, RunTasks-moved_task, RunTasks-new_task,
  RunsSettled-moved_task, RunsSettled-new_task,
}
use qingtian_ai.Store.Invariant.Sessions.{
  OpenUnique, OpenUnique-insert, OpenUnique-update, SessionTasks, SessionTasks-insert,
  SessionTasks-moved_task, SessionTasks-new_task, SessionTasks-update, SessionsSettled,
  SessionsSettled-insert, SessionsSettled-moved_task, SessionsSettled-new_task,
  SessionsSettled-update,
}
use qingtian_ai.Store.Invariant.Tasks.{
  Revisions, Revisions-insert, Revisions-update, TasksReadable-insert, TasksReadable-update,
}
use qingtian_ai.Store.Knowledge.{index_knowledge, unindex_knowledge}
use qingtian_ai.Store.Methods.Tasks.{TasksReadable}
use qingtian_ai.Store.Rows.{
  Db, Knowledge, checkpoint_key, empty_db, evidence_key, indexed_key, knowledge_key, run_key,
  session_key, task_key,
}
use qingtian_ai.Store.Step.{
  Step, checkpoint_created, evidence_added, knowledge_added, knowledge_forgotten, run_created,
  run_moved, session_created, session_moved, task_created, task_moved, unchanged,
}
use qingtian_ai.Store.Table.{find-empty}

pub record Consistent (c : Codec) (db : Db) : Type 0 where
  pub readable : TasksReadable c db.tasks
  pub revisions : Revisions db.tasks
  pub open_unique : OpenUnique db.sessions
  pub session_tasks : SessionTasks db.tasks db.sessions
  pub sessions_settled : SessionsSettled db.tasks db.sessions
  pub run_tasks : RunTasks db.tasks db.runs
  pub run_sessions : RunSessions db.sessions db.runs
  pub traceable : Traceable db.runs
  pub runs_settled : RunsSettled db.tasks db.runs
  pub intact : AllIntact c db.checkpoints
  pub checkpoint_tasks : CheckpointTasks db.tasks db.checkpoints
  pub linear : Linear db.checkpoints
  pub anchored : Anchored db.checkpoints
  pub indexed : IndexAgrees db

-- the tables that the invariant speaks of, but for those of the knowledge base
record Frame (db db' : Db) : Type 0 where
  tasks : db'.tasks ≡ db.tasks
  sessions : db'.sessions ≡ db.sessions
  runs : db'.runs ≡ db.runs
  checkpoints : db'.checkpoints ≡ db.checkpoints

index_knowledge-Frame :
    (r : Knowledge) (rows : List Knowledge) (db : Db)
    → Frame db (index_knowledge r (record db { knowledge = rows }))
unfolding index_knowledge
index_knowledge-Frame r rows db = ground arith

unindex_knowledge-Frame :
    (id : String) (rows : List Knowledge) (db : Db)
    → Frame db (unindex_knowledge id (record db { knowledge = rows }))
unfolding unindex_knowledge
unindex_knowledge-Frame id rows db = ground arith

keeps :
    {c : Codec} {db db' : Db} → Consistent c db → Frame db db' → IndexAgrees db' → Consistent c db'
keeps {c} h f indexed = record {
  readable = subst (TasksReadable c) (sym f.tasks) h.readable;
  revisions = subst Revisions (sym f.tasks) h.revisions;
  open_unique = subst OpenUnique (sym f.sessions) h.open_unique;
  session_tasks = subst₂ SessionTasks (sym f.tasks) (sym f.sessions) h.session_tasks;
  sessions_settled = subst₂ SessionsSettled (sym f.tasks) (sym f.sessions) h.sessions_settled;
  run_tasks = subst₂ RunTasks (sym f.tasks) (sym f.runs) h.run_tasks;
  run_sessions = subst₂ RunSessions (sym f.sessions) (sym f.runs) h.run_sessions;
  traceable = subst Traceable (sym f.runs) h.traceable;
  runs_settled = subst₂ RunsSettled (sym f.tasks) (sym f.runs) h.runs_settled;
  intact = subst (AllIntact c) (sym f.checkpoints) h.intact;
  checkpoint_tasks = subst₂ CheckpointTasks (sym f.tasks) (sym f.checkpoints) h.checkpoint_tasks;
  linear = subst Linear (sym f.checkpoints) h.linear;
  anchored = subst Anchored (sym f.checkpoints) h.anchored;
  indexed = indexed;
}

pub Step-Consistent : {c : Codec} {db db' : Db} → Step c db db' → Consistent c db → Consistent c db'
Step-Consistent {c} (unchanged e) h = subst (Consistent c) (sym e) h
Step-Consistent {c} (task_created r made e) h = subst (Consistent c) (sym e) (record {
  readable = TasksReadable-insert made h.readable;
  revisions = Revisions-insert made h.revisions;
  open_unique = h.open_unique;
  session_tasks = SessionTasks-new_task made h.session_tasks;
  sessions_settled = SessionsSettled-new_task made h.sessions_settled;
  run_tasks = RunTasks-new_task made h.run_tasks;
  run_sessions = h.run_sessions;
  traceable = h.traceable;
  runs_settled = RunsSettled-new_task made h.runs_settled;
  intact = h.intact;
  checkpoint_tasks = CheckpointTasks-new_task made h.checkpoint_tasks;
  linear = h.linear;
  anchored = h.anchored;
  indexed = record { on = h.indexed.on };
})
Step-Consistent {c} (task_moved r target now moved e) h = subst (Consistent c) (sym e) (record {
  readable = TasksReadable-update now moved c h.readable;
  revisions = Revisions-update now moved h.revisions;
  open_unique = h.open_unique;
  session_tasks = SessionTasks-moved_task now moved h.session_tasks;
  sessions_settled = SessionsSettled-moved_task now moved h.sessions_settled;
  run_tasks = RunTasks-moved_task now moved h.run_tasks;
  run_sessions = h.run_sessions;
  traceable = h.traceable;
  runs_settled = RunsSettled-moved_task now moved h.runs_settled;
  intact = h.intact;
  checkpoint_tasks = CheckpointTasks-moved_task now moved h.checkpoint_tasks;
  linear = h.linear;
  anchored = h.anchored;
  indexed = record { on = h.indexed.on };
})
Step-Consistent {c} (session_created s made e) h = subst (Consistent c) (sym e) (record {
  readable = h.readable;
  revisions = h.revisions;
  open_unique = OpenUnique-insert made h.open_unique;
  session_tasks = SessionTasks-insert made h.session_tasks;
  sessions_settled = SessionsSettled-insert made h.sessions_settled;
  run_tasks = h.run_tasks;
  run_sessions = RunSessions-new_session made h.run_sessions;
  traceable = h.traceable;
  runs_settled = h.runs_settled;
  intact = h.intact;
  checkpoint_tasks = h.checkpoint_tasks;
  linear = h.linear;
  anchored = h.anchored;
  indexed = record { on = h.indexed.on };
})
Step-Consistent {c} (session_moved s target now moved e) h = subst (Consistent c) (sym e) (record {
  readable = h.readable;
  revisions = h.revisions;
  open_unique = OpenUnique-update now moved h.open_unique;
  session_tasks = SessionTasks-update now moved h.session_tasks;
  sessions_settled = SessionsSettled-update now moved h.sessions_settled;
  run_tasks = h.run_tasks;
  run_sessions = RunSessions-moved_session now moved h.run_sessions;
  traceable = h.traceable;
  runs_settled = h.runs_settled;
  intact = h.intact;
  checkpoint_tasks = h.checkpoint_tasks;
  linear = h.linear;
  anchored = h.anchored;
  indexed = record { on = h.indexed.on };
})
Step-Consistent {c} (run_created r made e) h = subst (Consistent c) (sym e) (record {
  readable = h.readable;
  revisions = h.revisions;
  open_unique = h.open_unique;
  session_tasks = h.session_tasks;
  sessions_settled = h.sessions_settled;
  run_tasks = RunTasks-insert made h.run_tasks;
  run_sessions = RunSessions-insert made h.run_sessions;
  traceable = Traceable-insert made h.traceable;
  runs_settled = RunsSettled-insert made h.runs_settled;
  intact = h.intact;
  checkpoint_tasks = h.checkpoint_tasks;
  linear = h.linear;
  anchored = h.anchored;
  indexed = record { on = h.indexed.on };
})
Step-Consistent {c} (run_moved r target operation now moved e) h =
    subst (Consistent c) (sym e) (record {
      readable = h.readable;
      revisions = h.revisions;
      open_unique = h.open_unique;
      session_tasks = h.session_tasks;
      sessions_settled = h.sessions_settled;
      run_tasks = RunTasks-update now moved h.run_tasks;
      run_sessions = RunSessions-update now moved h.run_sessions;
      traceable = Traceable-update now moved h.traceable;
      runs_settled = RunsSettled-update now moved h.runs_settled;
      intact = h.intact;
      checkpoint_tasks = h.checkpoint_tasks;
      linear = h.linear;
      anchored = h.anchored;
      indexed = record { on = h.indexed.on };
    })
Step-Consistent {c} (checkpoint_created r made e) h = subst (Consistent c) (sym e) (record {
  readable = h.readable;
  revisions = h.revisions;
  open_unique = h.open_unique;
  session_tasks = h.session_tasks;
  sessions_settled = h.sessions_settled;
  run_tasks = h.run_tasks;
  run_sessions = h.run_sessions;
  traceable = h.traceable;
  runs_settled = h.runs_settled;
  intact = AllIntact-insert made h.intact;
  checkpoint_tasks = CheckpointTasks-insert made h.checkpoint_tasks;
  linear = Linear-insert made h.linear;
  anchored = Anchored-insert made h.anchored;
  indexed = record { on = h.indexed.on };
})
Step-Consistent {c} (evidence_added r e) h = subst (Consistent c) (sym e) (record {
  readable = h.readable;
  revisions = h.revisions;
  open_unique = h.open_unique;
  session_tasks = h.session_tasks;
  sessions_settled = h.sessions_settled;
  run_tasks = h.run_tasks;
  run_sessions = h.run_sessions;
  traceable = h.traceable;
  runs_settled = h.runs_settled;
  intact = h.intact;
  checkpoint_tasks = h.checkpoint_tasks;
  linear = h.linear;
  anchored = h.anchored;
  indexed = record { on = h.indexed.on };
})
Step-Consistent {c} {db} (knowledge_added r fresh e) h =
    subst (Consistent c) (sym e)
      (keeps h (index_knowledge-Frame r _ db) (IndexAgrees-add r fresh h.indexed))
Step-Consistent {c} {db} (knowledge_forgotten id e) h =
    subst (Consistent c) (sym e)
      (keeps h (unindex_knowledge-Frame id _ db) (IndexAgrees-forget id h.indexed))

-- The file that `initialize` has just created meets the invariant.
pub empty_db-Consistent : (c : Codec) (fts : Bool) → Consistent c (empty_db fts)
empty_db-Consistent c fts = record {
  readable = record { view = λ k r f. absurd (find-empty k f) };
  revisions = record { at = λ k t f. absurd (find-empty k f) };
  open_unique = record { at = λ j k a b f _ _ _ _. absurd (find-empty j f) };
  session_tasks = record { at = λ k s f. absurd (find-empty k f) };
  sessions_settled = record { at = λ k t j s f _ _ _. absurd (find-empty k f) };
  run_tasks = record { at = λ k r f. absurd (find-empty k f) };
  run_sessions = record { at = λ k r f. absurd (find-empty k f) };
  traceable = record { at = λ k r f _. absurd (find-empty k f) };
  runs_settled = record { at = λ k t j r f _ _ _. absurd (find-empty k f) };
  intact = record { at = λ k r f. absurd (find-empty k f) };
  checkpoint_tasks = record { at = λ k r f. absurd (find-empty k f) };
  linear = record { at = λ j k a b old f _ _ _ _. absurd (find-empty j f) };
  anchored = record { at = λ k r old f _ _. absurd (find-empty k f) };
  indexed = IndexAgrees-empty fts;
}
