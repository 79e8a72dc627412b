-- ===== src/Witnesses/Engine.antt =====
-- The properties of the gateway and of the engine at concrete inputs.
use qingtian_ai.Engine.Lease.{acquire_lease, at_least_15, is_held, next_token}
use qingtian_ai.Engine.Lease.Fencing.{after_calls, lease_exclusive, tokens_fence}
use qingtian_ai.Engine.Router.{
  explicit_owner_role, is_role, matching_routes, route_task, routes, search_role,
}
use qingtian_ai.Engine.Router.Owners.{NoRepeats, matching_routes-owner, route_task-IsRole}
use qingtian_ai.Engine.Texts.{any_in, spaced}
use qingtian_ai.Prelude.{
  String, [], any, arith, is_blank, is_space, none, refl, true, ℕ, ◌&&◌, ◌<◌, ◌==◌, ◌∷◌, ◌≡◌, ◌⊎◌,
}
use qingtian_ai.Prelude.Int.{pos}
use qingtian_ai.Providers.{
  are_messages, echo_provider, echo_response, is_message, is_named, is_text, no_items, provider_key,
  result_of,
}
use qingtian_ai.Providers.Lineage.{Answered, echo_answers, generate_lineage}
use qingtian_ai.Scenarios.{acquired_at, hello}
use qingtian_ai.Store.Rows.{
  checkpoint_key, evidence_key, indexed_key, knowledge_key, run_key, session_key, task_key,
}
use qingtian_ai.Store.Table.{find}

route_task-IsRole_example :
    is_role (route_task (λ s. s) "fix the browser test" "Owner = docs.team x" "").owner_session
    ≡ true
route_task-IsRole_example =
    route_task-IsRole (λ s. s) "fix the browser test" "Owner = docs.team x" ""

matching_routes-owner_example :
    NoRepeats (λ s. s) (matching_routes (λ s. s) "browser test" "verify" "")
    × (any (λ r. r.owner_session == "qa") (matching_routes (λ s. s) "browser test" "verify" "")
        ≡ any
            (λ x.
              any_in x.0 (spaced ("browser test" ∷ "verify" ∷ "" ∷ []))
              && x.1.owner_session == "qa")
            routes)
unfolding explicit_owner_role search_role is_space
matching_routes-owner_example = matching_routes-owner (λ s. s) "browser test" "verify" "" "qa" refl

generate_lineage_example :
    Answered "chat" "offline-echo" "m" hello none
      (pos 3)
      (echo_provider ∷ [])
      (result_of "chat" "offline-echo" "m" (echo_response "m" hello) (pos 3))
    × ((echo_provider ∷ []) ≡ (echo_provider ∷ []))
unfolding is_blank no_items are_messages is_message is_named is_text find echo_provider
generate_lineage_example =
    generate_lineage "chat" "offline-echo" "m" hello none (pos 3) (echo_provider ∷ [])
      (echo_provider ∷ []) (result_of "chat" "offline-echo" "m" (echo_response "m" hello) (pos 3))
      (echo_answers "chat" "m" hello (pos 3) (echo_provider ∷ []) refl refl refl refl refl)

tokens_fence_example : (1 < 2) ⊎ ((◌≡◌ {A = ℕ} 2 1) × (◌≡◌ {A = String} "b" "a"))
unfolding after_calls acquire_lease is_held next_token at_least_15
tokens_fence_example =
    tokens_fence (acquired_at "a" 0) (acquired_at "b" 100) (acquired_at "a" 10 ∷ []) none 1 2 refl
      refl

lease_exclusive_example :
    acquire_lease (acquired_at "b" 14) (acquire_lease (acquired_at "a" 0) none).1
    ≡ (none, (acquire_lease (acquired_at "a" 0) none).1)
unfolding acquire_lease is_held next_token at_least_15
lease_exclusive_example =
    lease_exclusive (acquired_at "a" 0) (acquired_at "b" 14) none 1 refl refl (omega arith)
