-- ===== src/States.antt =====
-- qingtian_core/models.py: the states of tasks, sessions and runs, and the tables of the
-- transitions between them.
pub mod Laws
use qingtian_ai.Prelude.{String, Bool, true, false, Option, none, some, ◌==◌, if◌then◌else◌}

pub data TaskState : Type 0 where
  draft ready running blocked review_pending done cancelled : TaskState

pub data SessionState : Type 0 where
  created active quiescing checkpointed closed : SessionState

pub data RunState : Type 0 where
  planned running succeeded failed interrupted unknown : RunState

-- target in TASK_TRANSITIONS[current]
unfoldable pub task_transition : TaskState → TaskState → Bool
task_transition draft ready = true
task_transition draft cancelled = true
task_transition ready running = true
task_transition ready cancelled = true
task_transition running blocked = true
task_transition running review_pending = true
task_transition running cancelled = true
task_transition blocked ready = true
task_transition blocked cancelled = true
task_transition review_pending done = true
task_transition review_pending ready = true
task_transition review_pending cancelled = true
task_transition _ _ = false

-- target in SESSION_TRANSITIONS[current]
unfoldable pub session_transition : SessionState → SessionState → Bool
session_transition created active = true
session_transition created closed = true
session_transition active quiescing = true
session_transition quiescing checkpointed = true
session_transition checkpointed closed = true
session_transition _ _ = false

-- target in RUN_TRANSITIONS[current]
unfoldable pub run_transition : RunState → RunState → Bool
run_transition planned running = true
run_transition planned interrupted = true
run_transition running succeeded = true
run_transition running failed = true
run_transition running interrupted = true
run_transition running unknown = true
run_transition unknown succeeded = true
run_transition unknown failed = true
run_transition _ _ = false

-- the sets of states that the queries of qingtian_core/store.py name
unfoldable pub is_open : SessionState → Bool
is_open created = true
is_open active = true
is_open quiescing = true
is_open _ = false

unfoldable pub is_closing : SessionState → Bool
is_closing checkpointed = true
is_closing closed = true
is_closing _ = false

unfoldable pub in_flight : RunState → Bool
in_flight planned = true
in_flight running = true
in_flight _ = false

unfoldable pub is_unresolved : RunState → Bool
is_unresolved planned = true
is_unresolved running = true
is_unresolved unknown = true
is_unresolved _ = false

unfoldable pub is_review : TaskState → Bool
is_review review_pending = true
is_review done = true
is_review _ = false

unfoldable pub is_running : TaskState → Bool
is_running running = true
is_running _ = false

unfoldable pub is_active : SessionState → Bool
is_active active = true
is_active _ = false

unfoldable pub is_unknown : RunState → Bool
is_unknown unknown = true
is_unknown _ = false

-- TaskState(value), SessionState(value) and RunState(value); a ValueError on any other text.
unfoldable pub parse_task_state : String → Option TaskState
parse_task_state s =
    if s == "DRAFT"
    then some draft
    else if s == "READY"
    then some ready
    else if s == "RUNNING"
    then some TaskState.running
    else if s == "BLOCKED"
    then some blocked
    else if s == "REVIEW_PENDING"
    then some review_pending
    else if s == "DONE"
    then some done
    else if s == "CANCELLED"
    then some cancelled
    else none

unfoldable pub parse_session_state : String → Option SessionState
parse_session_state s =
    if s == "CREATED"
    then some created
    else if s == "ACTIVE"
    then some active
    else if s == "QUIESCING"
    then some quiescing
    else if s == "CHECKPOINTED"
    then some checkpointed
    else if s == "CLOSED"
    then some closed
    else none

unfoldable pub parse_run_state : String → Option RunState
parse_run_state s =
    if s == "PLANNED"
    then some planned
    else if s == "RUNNING"
    then some RunState.running
    else if s == "SUCCEEDED"
    then some succeeded
    else if s == "FAILED"
    then some failed
    else if s == "INTERRUPTED"
    then some interrupted
    else if s == "UNKNOWN"
    then some unknown
    else none
