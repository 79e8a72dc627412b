-- ===== src/States/Laws.antt =====
-- What the tables of transitions of qingtian_core/models.py imply.
use qingtian_ai.Prelude.{Bool, arith, false, refl, true, ◌≡◌}
use qingtian_ai.States.{
  RunState, SessionState, TaskState, active, draft, in_flight, is_active, is_closing, is_open,
  is_review, is_running, is_unknown, is_unresolved, planned, quiescing, run_transition,
  session_transition,
}

-- a session that executes, or may execute again
unfoldable pub is_executing : SessionState → Bool
is_executing active = true
is_executing quiescing = true
is_executing _ = false

pub session_opens :
    (a b : SessionState) → session_transition a b ≡ true → is_open b ≡ true → is_open a ≡ true
unfolding session_transition is_open
session_opens a b h o = ground arith

pub run_unresolves : (a b : RunState) → run_transition a b ≡ true → is_unresolved a ≡ true
unfolding run_transition is_unresolved
run_unresolves a b h = ground arith

pub run_in_flight :
    (a b : RunState) → run_transition a b ≡ true → in_flight b ≡ true → in_flight a ≡ true
unfolding run_transition in_flight
run_in_flight a b h f = ground arith

pub active_executes : (a : SessionState) → is_active a ≡ true → is_executing a ≡ true
unfolding is_active is_executing
active_executes a h = ground arith

pub active_opens : (a : SessionState) → is_executing a ≡ true → is_open a ≡ true
unfolding is_executing is_open
active_opens a h = ground arith

pub running_unsettled : (a : TaskState) → is_running a ≡ true → is_review a ≡ false
unfolding is_running is_review
running_unsettled a h = ground arith

pub draft_unsettled : is_review draft ≡ false
unfolding is_review
draft_unsettled = refl

-- a session that executes goes on until it is closed or checkpointed
pub executes_on :
    (a b : SessionState)
    → session_transition a b ≡ true
    → is_executing a ≡ true
    → is_closing b ≡ false
    → is_executing b ≡ true
unfolding session_transition is_executing is_closing
executes_on a b h e n = ground arith

pub planned_known : is_unknown planned ≡ false
unfolding is_unknown
planned_known = refl
