-- ===== src/Store/Failures.antt =====
-- Rollback: a call of the store that raises leaves the database as it was (qingtian_core/store.py).
use qingtian_ai.Store.Tasks
use qingtian_ai.Store.Sessions
use qingtian_ai.Store.Runs
use qingtian_ai.Store.Records
use qingtian_ai.Store.Knowledge
use qingtian_ai.Exec.{Error, Exec, Result, err, ok}
use qingtian_ai.Exec.Rules.Rollback.{Atomic}
use qingtian_ai.Json.{Codec, IsFaithful}
use qingtian_ai.Prelude.{Option, none, refl, some, ◌≡◌}
use qingtian_ai.Store.Consistent.{Consistent}
use qingtian_ai.Store.History.{Call, perform}
use qingtian_ai.Store.Knowledge.{Engines}
use qingtian_ai.Store.Methods.Checkpoints.{create_checkpoint_lem}
use qingtian_ai.Store.Methods.Knowledge.{add_evidence_lem, add_knowledge_lem, forget_knowledge_lem}
use qingtian_ai.Store.Methods.Runs.{create_run_lem, transition_run_lem}
use qingtian_ai.Store.Methods.Sessions.{create_session_lem, transition_session_lem}
use qingtian_ai.Store.Methods.Tasks.{create_task_lem, transition_task_lem}
use qingtian_ai.Store.Rows.{
  Db, checkpoint_key, evidence_key, indexed_key, knowledge_key, run_key, session_key, task_key,
}

abbrev raised : {A : Type 0} → Result A × Db → Option Error
raised (ok a, db) = none
raised (err e, db) = some e

module _ (c : Codec) (e : Engines) where
  -- the exception that a call raises, if it raises one
  unfoldable pub failure : Call → Db → Option Error
  failure (Call.create_task project title objective scope acceptance id now fresh) db =
      raised (Tasks.create_task c project title objective scope acceptance id now fresh db)
  failure (Call.transition_task id target expected now) db =
      raised (Tasks.transition_task c id target expected now db)
  failure (Call.create_session task host source id now fresh) db =
      raised (Sessions.create_session c task host source id now fresh db)
  failure (Call.transition_session id target now) db =
      raised (Sessions.transition_session c id target now db)
  failure (Call.create_run task session executor key request id now fresh) db =
      raised (Runs.create_run c task session executor key request id now fresh db)
  failure (Call.transition_run id target operation now) db =
      raised (Runs.transition_run id target operation now db)
  failure (Call.add_evidence kind subject result metadata hash id now fresh) db =
      raised (Records.add_evidence c kind subject result metadata hash id now fresh db)
  failure (Call.create_checkpoint task snapshot supersedes id now fresh) db =
      raised (Records.create_checkpoint c task snapshot supersedes id now fresh db)
  failure (Call.add_knowledge a id now fresh) db =
      raised (Knowledge.add_knowledge c e a id now fresh db)
  failure (Call.forget_knowledge id) db = raised (Knowledge.forget_knowledge id db)

Atomic-unchanged :
    {A : Type 0} {m : Exec Db A} {db : Db} {Q : A → Db → Type 0} {error : Error}
    → Atomic m db Q
    → raised (m db) ≡ some error
    → (m db).1 ≡ db
Atomic-unchanged {A} {m} {db} {Q} {error} h = go (m db) refl
  where
    go : (x : Result A × Db) → m db ≡ x → raised x ≡ some error → x.1 ≡ db
    go (ok a, db') p r = cc
    go (err e, db') p r = h.raised e db' p

-- With a faithful codec, a call that raises, at whatever point, leaves every table as it was, from
-- any database in which the invariant holds.
pub failure_unchanged :
    (c : Codec) (e : Engines) (f : IsFaithful c) (x : Call) (db : Db) {error : Error}
    → Consistent c db
    → failure c e x db ≡ some error
    → perform c e x db ≡ db
unfolding perform failure
failure_unchanged c e f (Call.create_task project title objective scope acceptance id now fresh) db
      h r =
    Atomic-unchanged (create_task_lem c f project title objective scope acceptance id now fresh db)
      r
failure_unchanged c e f (Call.transition_task id target expected now) db h r =
    Atomic-unchanged (transition_task_lem c id target expected now db h.readable) r
failure_unchanged c e f (Call.create_session task host source id now fresh) db h r =
    Atomic-unchanged (create_session_lem c task host source id now fresh db) r
failure_unchanged c e f (Call.transition_session id target now) db h r =
    Atomic-unchanged (transition_session_lem c id target now db) r
failure_unchanged c e f (Call.create_run task session executor key request id now fresh) db h r =
    Atomic-unchanged (create_run_lem c task session executor key request id now fresh db) r
failure_unchanged c e f (Call.transition_run id target operation now) db h r =
    Atomic-unchanged (transition_run_lem id target operation now db) r
failure_unchanged c e f (Call.add_evidence kind subject result metadata hash id now fresh) db h r =
    Atomic-unchanged (add_evidence_lem c f kind subject result metadata hash id now fresh db) r
failure_unchanged c e f (Call.create_checkpoint task snapshot supersedes id now fresh) db h r =
    Atomic-unchanged (create_checkpoint_lem c f task snapshot supersedes id now fresh db) r
failure_unchanged c e f (Call.add_knowledge a id now fresh) db h r =
    Atomic-unchanged (add_knowledge_lem c e a id now fresh db) r
failure_unchanged c e f (Call.forget_knowledge id) db h r =
    Atomic-unchanged (forget_knowledge_lem id db) r
