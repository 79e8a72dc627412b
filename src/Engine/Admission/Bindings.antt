-- ===== src/Engine/Admission/Bindings.antt =====
-- qingtian_engine/admission.py: which run the confirmation of `dispatch` is bound to.
use qingtian_ai.Engine.Admission.{Facts}
use qingtian_ai.Engine.Admission.Projections.{active_runs, has_target}
use qingtian_ai.Engine.Admission.Reading.{guard}
use qingtian_ai.Engine.Lifecycle.{Host, ManagedRun}
use qingtian_ai.Exec.{Result, err, ok}
use qingtian_ai.Prelude.{
  Bool, List, Option, String, [], any, filter, if◌then◌else◌, is_some, leb, length, none, not, some,
  ◌&&◌, ◌==◌, ◌||◌, ◌∷◌,
}

-- the run with the id among the task's, if it is the only one, new and of a right status
unfoldable pub fresh_run : List String → List ManagedRun → Option ManagedRun
fresh_run seen (r ∷ []) =
    if not (any (λ id. id == r.id) seen)
      && (r.status == "QUEUED" || r.status == "RUNNING" || r.status == "DONE")
    then some r
    else none
fresh_run seen _ = none

unfoldable pub knows_target : Facts → String → Bool
knows_target f run_id = any (λ x. x.run_id == run_id) f.run_targets

-- the state, the reason and the run of the confirmation: of the run that was found
unfoldable pub queued_or_ambiguous : Option ManagedRun → String × String × Option ManagedRun
queued_or_ambiguous none = ("uncertain", "run_binding_ambiguous", none)
queued_or_ambiguous (some r) = ("queued", "local_run_recorded", some r)

-- of a dispatcher's `id`
unfoldable pub bound_to :
    Host → Facts → String → List String → String → String × String × Option ManagedRun
bound_to host f task_id seen id =
    if knows_target f id && not (has_target host f id)
    then ("uncertain", "task_changed_during_dispatch", none)
    else if knows_target f id && leb (length (active_runs f.runs)) 1
    then queued_or_ambiguous
        (fresh_run seen (filter (λ r. r.id == id && r.task_id == task_id) f.runs))
    else ("uncertain", "run_binding_ambiguous", none)

-- of what the dispatcher has returned or raised
unfoldable pub binding_of :
    Host
    → Facts
    → String
    → List String
    → Result (Option String)
    → String × String × Option ManagedRun
binding_of host f task_id seen (ok (some id)) = bound_to host f task_id seen id
binding_of host f task_id seen (ok none) = ("uncertain", "external_ack_not_integrated", none)
binding_of host f task_id seen (err e) = ("uncertain", "dispatch_result_unknown", none)

unfoldable pub binding :
    Host
    → Facts
    → String
    → String
    → List String
    → Result (Option String)
    → String × String × Option ManagedRun
binding host f task_id scope seen result =
    if is_some (guard host f) || not (f.scope_hash == scope)
    then ("uncertain", "task_changed_during_dispatch", none)
    else binding_of host f task_id seen result
