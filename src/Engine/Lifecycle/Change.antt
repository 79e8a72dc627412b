-- ===== src/Engine/Lifecycle/Change.antt =====
-- The writes of qingtian_engine/lifecycle.py and of the control plane to the tables that decide who
-- is responsible for a task, and the invariant of these tables.
use qingtian_ai.Engine.Lifecycle.{
  Database, EngineTask, Execution, Handoff, HandoffStatus, ManagedRun, accepted, engine_task_key,
  execution_key, handoff_key, intake_key, managed_run_key, notice_key, offered, rejected, resolved,
  version_key,
}
use qingtian_ai.Engine.Lifecycle.Distinct.{Distinct}
use qingtian_ai.Engine.Lifecycle.Executions.{is_accepted}
use qingtian_ai.Engine.Lifecycle.Guards.{is_done, is_in_flight, is_resolved, is_unfinished}
use qingtian_ai.Engine.Lifecycle.Handoffs.{is_offered}
use qingtian_ai.Engine.Lifecycle.Settled.{Linked, Settled}
use qingtian_ai.Prelude.{
  Bool, List, String, any, false, none, not, some, true, ◌&&◌, ◌==◌, ◌||◌, ◌≡◌, ◌⊎◌,
}
use qingtian_ai.Store.Table.{find, insert, update}

pub record Core : Type 0 where
  pub tasks : List EngineTask
  pub handoffs : List Handoff
  pub executions : List Execution
  pub runs : List ManagedRun

abbrev pub core : Database → Core
core db = record {
  tasks = db.tasks;
  handoffs = db.handoffs;
  executions = db.executions;
  runs = db.runs;
}

abbrev pub execution_task : Execution → String
execution_task e = e.task_id

abbrev pub execution_open : Execution → Bool
execution_open e = is_unfinished e.status

abbrev pub handoff_task : Handoff → String
handoff_task h = h.task_id

abbrev pub handoff_open : Handoff → Bool
handoff_open h = not (is_resolved h.status)

-- what `lifecycle_completion_guard` and the other guards read
abbrev pub AllResolved : String → Core → Type 0
AllResolved k c = any (λ h. h.task_id == k && not (is_resolved h.status)) c.handoffs ≡ false

abbrev pub AllFinished : String → Core → Type 0
AllFinished k c = any (λ e. e.task_id == k && is_unfinished e.status) c.executions ≡ false

abbrev pub NoneInFlight : String → Core → Type 0
NoneInFlight k c = any (λ r. r.task_id == k && is_in_flight r.status) c.runs ≡ false

-- the transitions of a handoff's status
unfoldable pub may_become : HandoffStatus → HandoffStatus → Bool
may_become offered s = true
may_become accepted s = is_accepted s || is_resolved s
may_become rejected s = not (is_offered s || is_accepted s)
may_become resolved s = is_resolved s

-- what a write to a handoff's row keeps
pub record KeepsHandoff (h h' : Handoff) : Type 0 where
  pub same_id : h'.id ≡ h.id
  pub same_task : h'.task_id ≡ h.task_id
  pub same_sender : h'.sender ≡ h.sender
  pub same_recipient : h'.recipient ≡ h.recipient
  pub same_manifest : h'.manifest_sha256 ≡ h.manifest_sha256

pub data Change (c c' : Core) : Type 0 where
  untouched : c' ≡ c → Change c c'
  task_added :
      (t : EngineTask)
      → find t.id c.tasks ≡ none
      → c' ≡ record c { tasks = insert t c.tasks }
      → Change c c'
  task_written :
      (k : String) (g : EngineTask → EngineTask) (t : EngineTask)
      → ((x : EngineTask) → (g x).id ≡ x.id)
      → find k c.tasks ≡ some t
      → (AllResolved k c × AllFinished k c) ⊎ (is_done t ≡ false → is_done (g t) ≡ false)
      → c' ≡ record c { tasks = update k g c.tasks }
      → Change c c'
  execution_added :
      (e : Execution) (t : EngineTask)
      → find e.id c.executions ≡ none
      → find e.task_id c.tasks ≡ some t
      → is_done t ≡ false
      → NoneInFlight e.task_id c
      → c' ≡ record c { executions = insert e c.executions }
      → Change c c'
  execution_written :
      (k : String) (f : Execution → Execution) (e : Execution)
      → ((x : Execution) → (f x).id ≡ x.id)
      → ((x : Execution) → (f x).task_id ≡ x.task_id)
      → find k c.executions ≡ some e
      → (is_unfinished (f e).status ≡ true → is_unfinished e.status ≡ true)
      → c' ≡ record c { executions = update k f c.executions }
      → Change c c'
  handoff_added :
      (h : Handoff) (t : EngineTask)
      → find h.id c.handoffs ≡ none
      → find h.task_id c.tasks ≡ some t
      → is_done t ≡ false
      → c' ≡ record c { handoffs = insert h c.handoffs }
      → Change c c'
  handoff_written :
      (k : String) (f : Handoff → Handoff) (h : Handoff)
      → ((x : Handoff) → KeepsHandoff x (f x))
      → find k c.handoffs ≡ some h
      → may_become h.status (f h).status ≡ true
      → c' ≡ record c { handoffs = update k f c.handoffs }
      → Change c c'
  run_added :
      (r : ManagedRun)
      → find r.id c.runs ≡ none
      → (is_in_flight r.status ≡ true → AllFinished r.task_id c)
      → c' ≡ record c { runs = insert r c.runs }
      → Change c c'
  run_written :
      (k : String) (f : ManagedRun → ManagedRun) (r : ManagedRun)
      → ((x : ManagedRun) → (f x).id ≡ x.id)
      → ((x : ManagedRun) → (f x).task_id ≡ x.task_id)
      → find k c.runs ≡ some r
      → (is_in_flight (f r).status ≡ true → is_in_flight r.status ≡ true)
      → c' ≡ record c { runs = update k f c.runs }
      → Change c c'

-- any number of writes
pub data Changes : Core → Core → Type 0 where
  none_yet : {c : Core} → Changes c c
  and_then_one : {a b c : Core} → Changes a b → Change b c → Changes a c

-- no managed run is in flight for a task with an unfinished external execution
abbrev pub Exclusive : Core → Type 0
Exclusive c =
    (i j : String) (e : Execution) (r : ManagedRun)
    → find i c.executions ≡ some e
    → is_unfinished e.status ≡ true
    → find j c.runs ≡ some r
    → r.task_id ≡ e.task_id
    → is_in_flight r.status ≡ false

pub record Responsible (c : Core) : Type 0 where
  pub distinct : Distinct c.executions
  pub executions_linked : Linked execution_task execution_open c.tasks c.executions
  pub executions_settled : Settled execution_task execution_open c.tasks c.executions
  pub handoffs_linked : Linked handoff_task handoff_open c.tasks c.handoffs
  pub handoffs_settled : Settled handoff_task handoff_open c.tasks c.handoffs
  pub exclusive : Exclusive c
