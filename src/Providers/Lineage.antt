-- ===== src/Providers/Lineage.antt =====
-- What qingtian_core/providers.py says of the model that has answered.
use qingtian_ai.Exec.{check, err, fetch, lift, modify, ok, pure, value_error, ◌>>=◌}
use qingtian_ai.Exec.Rules.{Post, Post-check, Post-fetch, Post-lift, Post-pure}
use qingtian_ai.Json.{
  Items, Value, dict, end, entry, is_dict, item, nil, require_strict_items, require_strict_json,
  str,
}
use qingtian_ai.Prelude.{
  Bool-cases, Option, String, [], ap, arith, eq→≡, false, if◌then◌else◌, inl, inr, is_blank, none,
  not, not-both, or_else, refl, some, subst, true, ◌==◌, ◌∷◌, ◌≡◌,
}
use qingtian_ai.Prelude.Int.{ℤ}
use qingtian_ai.Providers.{
  Gateway, ModelProvider, ProviderResponse, ProviderResult, are_messages, echo_provider,
  echo_response, generate, is_message, is_named, is_text, max_zero, no_items, options_or_empty,
  provider_key, register, result_of,
}
use qingtian_ai.Store.Rows.{
  checkpoint_key, evidence_key, indexed_key, knowledge_key, run_key, session_key, task_key,
}
use qingtian_ai.Store.Statements.{absent}
use qingtian_ai.Store.Table.{find, find-insert, find-insert_self, insert, key-find}

-- The facts behind a result of `generate`.
pub record Answered (route_name provider_name model : String) (messages : Items)
    (options : Option Value) (elapsed : ℤ) (providers : Gateway) (r : ProviderResult) : Type 0 where
  pub provider : ModelProvider
  pub response : ProviderResponse
  pub registered : find provider_name providers ≡ some provider
  pub answer : provider.generate model messages (options_or_empty options) ≡ ok response
  pub strict : require_strict_json response.output ≡ ok tt
  pub lineage : r ≡ record {
    requested_model = model;
    resolved_route = route_name;
    effective_model = response.reported_model;
    output = response.output;
    attempts =
        record {
          provider = provider_name;
          requested_model = model;
          reported_model = response.reported_model;
          status = "succeeded";
          latency_ms = max_zero elapsed;
        }
        ∷ [];
  }

generated :
    (route_name provider_name model : String) (messages : Items) (options : Option Value)
    (elapsed : ℤ) (providers : Gateway)
    → Post
        (generate route_name provider_name model messages options elapsed)
        providers
        (λ r after_call.
          Answered route_name provider_name model messages options elapsed providers r
          × (after_call ≡ providers))
unfolding generate
generated route_name provider_name model messages options elapsed providers = Post-check _ _ _ λ _.
    Post-check _ _ _ λ _. Post-check _ _ _ λ _. Post-check _ _ _ λ _. Post-check _ _ _ λ _.
      Post-check _ _ _ λ _. Post-lift _ _ λ _ _. Post-lift _ _ λ _ _. Post-fetch _ _ _ λ p hp.
        Post-lift _ _ λ response answer. Post-check _ _ _ λ _. Post-lift _ _ λ _ strict.
          Post-pure _ _ (
            record {
              provider = p;
              response = response;
              registered = hp;
              answer = answer;
              strict = strict;
              lineage =
                  ap (λ n. result_of route_name n model response elapsed)
                    (key-find providers provider_name hp);
            },
            refl,
          )

-- A result of `generate` comes from one call of the provider that is registered under the requested
-- name, has a strict JSON output, names the requested model and route and the model that the
-- provider reported, and leaves the gateway as it is.
pub generate_lineage :
    (route_name provider_name model : String) (messages : Items) (options : Option Value)
    (elapsed : ℤ) (providers after_call : Gateway) (r : ProviderResult)
    → generate route_name provider_name model messages options elapsed providers
      ≡ (ok r, after_call)
    → Answered route_name provider_name model messages options elapsed providers r
      × (after_call ≡ providers)
generate_lineage route_name provider_name model messages options elapsed providers after_call r =
    (generated route_name provider_name model messages options elapsed providers).at r after_call

-- `register` of a provider with a free name that is not blank returns; the new name then finds the
-- new provider and every other name what it found before, and registering it again is refused.
pub register_lookup :
    (p : ModelProvider) (name : String) (providers : Gateway)
    → not (is_blank p.name) ≡ true
    → find p.name providers ≡ none
    → (register p providers ≡ (ok tt, insert p providers))
      × (find name (insert p providers) ≡ (if p.name == name then some p else find name providers))
      × (register p (insert p providers) ≡ (err value_error, insert p providers))
unfolding register ◌>>=◌ check modify absent
register_lookup p name providers named fresh = (
  ground arith,
  find-insert p providers name fresh,
  ground (arith, find-insert_self p providers fresh),
)

message_strict : (v : Value) → is_message v ≡ true → require_strict_json v ≡ ok tt
unfolding is_message require_strict_json is_named is_text
message_strict (dict (entry (str a) (str x) (entry (str b) (str y) end))) h = refl
message_strict _ h = ground arith

messages_strict : (ms : Items) → are_messages ms ≡ true → require_strict_items ms ≡ ok tt
unfolding are_messages require_strict_items
messages_strict nil h = refl
messages_strict (item v ms) h = ground (arith, message_strict v, messages_strict ms)

named_echo : not (is_blank "offline-echo") ≡ true
unfolding is_blank
named_echo = refl

reported_given :
    (model : String) → not (is_blank model) ≡ true → not (is_blank (or_else (some model) "")) ≡ true
reported_given model modelled = elim (Bool-cases (model == "")) [
  | inl b ↦ rw b (subst (λ m. not (is_blank m) ≡ true) (eq→≡ model "" b) modelled)
  | inr b ↦ rw b modelled
]

echo_finish :
    (model : String) (r : ProviderResult) (providers : Gateway)
    → not (is_blank model) ≡ true
    → (check (λ _. not (is_blank (or_else (some model) ""))) value_error >>= λ _. pure r) providers
      ≡ (ok r, providers)
unfolding ◌>>=◌ check pure
echo_finish model r providers modelled =
    elim (Bool-cases (not (is_blank (or_else (some model) "")))) [
      | inl b ↦ rw b refl
      | inr b ↦ absurd (not-both b (reported_given model modelled))
    ]

-- The offline provider, once it is registered, answers every well-formed request, with the text of
-- the last message of a user, and reports the requested model.
pub echo_answers :
    (route_name model : String) (messages : Items) (elapsed : ℤ) (providers : Gateway)
    → not (is_blank route_name) ≡ true
    → not (is_blank model) ≡ true
    → no_items messages ≡ false
    → are_messages messages ≡ true
    → find "offline-echo" providers ≡ some echo_provider
    → generate route_name "offline-echo" model messages none elapsed providers ≡ (
      ok (result_of route_name "offline-echo" model (echo_response model messages) elapsed),
      providers,
    )
unfolding generate ◌>>=◌ check lift fetch pure require_strict_json options_or_empty is_dict
    echo_provider absent
echo_answers route_name model messages elapsed providers routed modelled given formed there =
    rw (routed, named_echo, modelled, given, formed, messages_strict messages formed, there)
      (echo_finish model _ _ modelled)
