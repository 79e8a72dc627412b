-- ===== src/Providers.antt =====
-- qingtian_core/providers.py: the gateway between a request and the model providers. A provider is
-- its name and its function; the time that a call took is an argument, in rounded milliseconds.
pub mod Lineage
use qingtian_ai.Exec.{
  Exec, Result, check, fetch, key_error, lift, modify, ok, pure, value_error, ◌>>=◌, ◌>>◌,
}
use qingtian_ai.Json.{
  Items, Value, dict, end, entry, is_dict, item, list, nil, require_strict_json, str,
}
use qingtian_ai.Prelude.{
  Bool, List, Option, String, [], false, if◌then◌else◌, is_blank, none, not, or_else, some, true,
  ◌&&◌, ◌==◌, ◌||◌, ◌∷◌,
}
use qingtian_ai.Prelude.Int.{negsuc, pos, ℤ}
use qingtian_ai.Store.Rows.{
  checkpoint_key, evidence_key, indexed_key, knowledge_key, run_key, session_key, task_key,
}
use qingtian_ai.Store.Statements.{absent}
use qingtian_ai.Store.Table.{Keyed, find, insert}

pub record ProviderResponse : Type 0 where
  pub output : Value
  pub reported_model : Option String

pub record ModelProvider : Type 0 where
  pub name : String
  pub generate : String → Items → Value → Result ProviderResponse

instance abbrev pub provider_key : Keyed ModelProvider
provider_key = record { key = λ p. p.name }

pub record ProviderAttempt : Type 0 where
  pub provider : String
  pub requested_model : String
  pub reported_model : Option String
  pub status : String
  pub latency_ms : ℤ

pub record ProviderResult : Type 0 where
  pub requested_model : String
  pub resolved_route : String
  pub effective_model : Option String
  pub output : Value
  pub attempts : List ProviderAttempt

-- the gateway's providers, in the order of registration
abbrev pub Gateway : Type 0
Gateway = List ModelProvider

unfoldable pub register : ModelProvider → Exec Gateway (Unit {0})
register provider = do
  check (λ _. not (is_blank provider.name)) value_error
  check (λ providers. absent (find provider.name providers)) value_error
  modify (λ providers. insert provider providers)

-- isinstance(value, str), and the test of a role on top
unfoldable pub is_text : Value → Bool
is_text (str s) = true
is_text _ = false

unfoldable pub is_named : Value → Bool
is_named (str s) = not (is_blank s)
is_named _ = false

-- a dict whose keys are exactly role and content, with a role that is not blank
unfoldable pub is_message : Value → Bool
is_message (dict (entry (str a) x (entry (str b) y end))) =
    a == "role" && b == "content" && is_named x && is_text y
    || a == "content" && b == "role" && is_named y && is_text x
is_message _ = false

unfoldable pub are_messages : Items → Bool
are_messages nil = true
are_messages (item v rest) = is_message v && are_messages rest

unfoldable pub no_items : Items → Bool
no_items nil = true
no_items (item v rest) = false

-- options or {}
unfoldable pub options_or_empty : Option Value → Value
options_or_empty none = dict end
options_or_empty (some v) = v

-- max(0, milliseconds)
unfoldable pub max_zero : ℤ → ℤ
max_zero (pos n) = pos n
max_zero (negsuc n) = pos 0

-- the result of one successful attempt
abbrev pub result_of : String → String → String → ProviderResponse → ℤ → ProviderResult
result_of resolved_route provider model response elapsed = record {
  requested_model = model;
  resolved_route = resolved_route;
  effective_model = response.reported_model;
  output = response.output;
  attempts =
      record {
        provider = provider;
        requested_model = model;
        reported_model = response.reported_model;
        status = "succeeded";
        latency_ms = max_zero elapsed;
      }
      ∷ [];
}

unfoldable pub generate :
    String → String → String → Items → Option Value → ℤ → Exec Gateway ProviderResult
generate route_name provider_name model messages options elapsed = do
  check (λ _. not (is_blank route_name)) value_error
  check (λ _. not (is_blank provider_name)) value_error
  check (λ _. not (is_blank model)) value_error
  check (λ _. not (no_items messages)) value_error
  check (λ _. are_messages messages) value_error
  check (λ _. is_dict (options_or_empty options)) value_error
  lift (require_strict_json (list messages))
  lift (require_strict_json (options_or_empty options))
  provider ← fetch (find provider_name) key_error
  response ← lift (provider.generate model messages (options_or_empty options))
  check (λ _. absent response.reported_model || not (is_blank (or_else response.reported_model "")))
      value_error
  lift (require_strict_json response.output)
  pure (result_of route_name provider.name model response elapsed)

-- the text of item["content"] if item["role"] is "user"
unfoldable pub user_content : Value → Option String
user_content (dict (entry (str a) (str x) (entry (str b) (str y) end))) =
    if a == "role"
    then if x == "user" then some y else none
    else if y == "user"
    then some x
    else none
user_content _ = none

-- next((... for item in reversed(messages) if ...), "")
unfoldable pub latest : Items → Option String
latest nil = none
latest (item v rest) = later (latest rest)
  where
    later : Option String → Option String
    later (some s) = some s
    later none = user_content v

abbrev pub echo_response : String → Items → ProviderResponse
echo_response model messages = record {
  output = dict (
      entry (str "text") (str (or_else (latest messages) ""))
        (entry (str "provider") (str "offline-echo") (entry (str "model") (str model) end)));
  reported_model = some model;
}

unfoldable pub echo_provider : ModelProvider
echo_provider = record {
  name = "offline-echo";
  generate = λ model messages options. ok (echo_response model messages);
}
