-- ===== src/Store/Guarantees.antt =====
-- What the store guarantees after any sequence of calls on a new file, of calls that raise too.
use qingtian_ai.Exec.{ok}
use qingtian_ai.Json.{Codec, IsFaithful}
use qingtian_ai.Prelude.{
  Bool, List, String, false, is_id, is_some, some, sym, true, truthy, ◌∙◌, ◌≡◌,
}
use qingtian_ai.States.{in_flight, is_open, is_review, is_unknown, is_unresolved}
use qingtian_ai.States.Laws.{active_opens, is_executing}
use qingtian_ai.Store.Consistent.{Consistent, empty_db-Consistent}
use qingtian_ai.Store.History.{Call, perform_all, perform_all-Consistent}
use qingtian_ai.Store.Knowledge.{Engines}
use qingtian_ai.Store.Methods.Checkpoints.{get_checkpoint_lem}
use qingtian_ai.Store.Records.{get_checkpoint}
use qingtian_ai.Store.Recovery.{CheckpointView, checkpoint_from_row}
use qingtian_ai.Store.Rows.{
  Checkpoint, Db, Run, Session, Task, checkpoint_key, empty_db, evidence_key, indexed_key,
  knowledge_key, run_key, session_key, task_key,
}
use qingtian_ai.Store.Table.{find}

abbrev pub history : Codec → Engines → Bool → List Call → Db
history c e fts xs = perform_all c e xs (empty_db fts)

module _ (c : Codec) (e : Engines) (f : IsFaithful c) (fts : Bool) (xs : List Call) where
  -- With a faithful codec, after any sequence of calls on a new file, the whole invariant holds.
  pub history-Consistent : Consistent c (history c e fts xs)
  history-Consistent = perform_all-Consistent c e f xs (empty_db fts) (empty_db-Consistent c fts)

  -- With a faithful codec, after any sequence of calls on a new file, two sessions of one task
  -- that are both created, active or quiescing are the same session.
  pub one_open_session :
      (j k : String) (a b : Session)
      → find j (history c e fts xs).sessions ≡ some a
      → find k (history c e fts xs).sessions ≡ some b
      → a.task_id ≡ b.task_id
      → is_open a.state ≡ true
      → is_open b.state ≡ true
      → j ≡ k
  one_open_session = history-Consistent.open_unique.at

  -- With a faithful codec, after any sequence of calls on a new file, two planned or running
  -- runs of one task belong to the same session, which is active or quiescing and a session of
  -- that task.
  pub runs_in_one_session :
      (j k : String) (a b : Run)
      → find j (history c e fts xs).runs ≡ some a
      → find k (history c e fts xs).runs ≡ some b
      → a.task_id ≡ b.task_id
      → in_flight a.state ≡ true
      → in_flight b.state ≡ true
      → (a.session_id ≡ b.session_id)
        × ((s : Session) × (find a.session_id (history c e fts xs).sessions ≡ some s)
            × (s.task_id ≡ a.task_id)
            × (is_executing s.state ≡ true))
  runs_in_one_session j k a b fa fb same ia ib =
      let (s, fs, ts, es) = history-Consistent.run_sessions.at j a fa in
      let (t, ft, tt', et) = history-Consistent.run_sessions.at k b fb in
      (
        history-Consistent.open_unique.at a.session_id b.session_id s t fs ft (ts ∙ same ∙ sym tt')
            (active_opens s.state (es ia)) (active_opens t.state (et ib)),
        (s, fs, ts, es ia),
      )

  -- With a faithful codec, after any sequence of calls on a new file, a task that is under
  -- review or done has no session that is created, active or quiescing, and no run that is
  -- planned, running or unknown.
  pub review_settled :
      (k : String) (t : Task)
      → find k (history c e fts xs).tasks ≡ some t
      → is_review t.state ≡ true
      → ((j : String) (s : Session)
          → find j (history c e fts xs).sessions ≡ some s
          → s.task_id ≡ k
          → is_open s.state ≡ false)
        × ((j : String) (r : Run)
            → find j (history c e fts xs).runs ≡ some r
            → r.task_id ≡ k
            → is_unresolved r.state ≡ false)
  review_settled k t ft review = (
    λ j s fs same. history-Consistent.sessions_settled.at k t j s ft review fs same,
    λ j r fr same. history-Consistent.runs_settled.at k t j r ft review fr same,
  )

  -- With a faithful codec, after any sequence of calls on a new file, every run that is unknown
  -- has a non-empty external operation to reconcile it by.
  pub unknown_traceable :
      (k : String) (r : Run)
      → find k (history c e fts xs).runs ≡ some r
      → is_unknown r.state ≡ true
      → truthy r.external_operation_id ≡ true
  unknown_traceable = history-Consistent.traceable.at

  -- With a faithful codec, after any sequence of calls on a new file, every stored checkpoint is
  -- returned by `get_checkpoint` if its identifier has the form of one, with its integrity check
  -- passed, and the database stays as it is.
  pub checkpoints_readable :
      (k : String) (r : Checkpoint)
      → find k (history c e fts xs).checkpoints ≡ some r
      → is_id "checkpoint" k ≡ true
      → (v : CheckpointView) × (checkpoint_from_row c r ≡ ok v)
        × (get_checkpoint c k (history c e fts xs) ≡ (ok v, history c e fts xs))
  checkpoints_readable k r here valid =
      let (v, p) = history-Consistent.intact.at k r here in
      (v, p, get_checkpoint_lem c k (history c e fts xs) here valid p)

  -- With a faithful codec, after any sequence of calls on a new file, no two checkpoints
  -- supersede the same one, given by an identifier that is not empty, and what a checkpoint so
  -- supersedes is there.
  pub checkpoints_linear :
      (j k : String) (a b : Checkpoint) (old : String)
      → find j (history c e fts xs).checkpoints ≡ some a
      → find k (history c e fts xs).checkpoints ≡ some b
      → a.supersedes ≡ some old
      → b.supersedes ≡ some old
      → truthy (some old) ≡ true
      → (j ≡ k) × (is_some (find old (history c e fts xs).checkpoints) ≡ true)
  checkpoints_linear j k a b old fa fb sa sb t = (
    history-Consistent.linear.at j k a b old fa fb sa sb t,
    history-Consistent.anchored.at j a old fa sa t,
  )
