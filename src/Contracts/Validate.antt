-- ===== src/Contracts/Validate.antt =====
-- qingtian_core/contracts.py: `validate` and `_validate_semantics`. The walk over the document is
-- Boolean, since every failure is a ContractValidationError.
use qingtian_ai.Contracts.{Patterns, demand, has_type, is_datetime, strict, supported_keywords}
use qingtian_ai.Contracts.Equality.{json_equal, lt_number, number_of, or_null}
use qingtian_ai.Contracts.Lint.{are_types, declared_types, if_given, lint_schema, required_names}
use qingtian_ai.Engine.Lifecycle.Checks.{choice}
use qingtian_ai.Exec.{Result, ok}
use qingtian_ai.Json.{
  Codec, Entries, Items, Value, bool, both, content_hash, dict, end, entry, float, int, item, list,
  nil, null, str,
}
use qingtian_ai.Json.Dicts.{count_items, get, get_at, has_names, is_this_text, only_names}
use qingtian_ai.Prelude.{
  Bool, List, Option, String, [], any, codes, false, if◌then◌else◌, is_id, is_some, leb, length,
  none, not, some, true, ℕ, ◌&&◌, ◌||◌,
}
use qingtian_ai.Prelude.Int.{pos}

-- schema.get(keyword, {}), for a dict, and int(schema.get(keyword, 0)), for a count
unfoldable pub dict_or_empty : Option Value → Entries
dict_or_empty (some (dict es)) = es
dict_or_empty _ = end

unfoldable pub count_or_zero : Option Value → ℕ
count_or_zero (some (int (pos n))) = n
count_or_zero _ = 0

unfoldable pub texts_or_none : Option (List String) → List String
texts_or_none none = []
texts_or_none (some names) = names

abbrev pub required_of : Option Value → List String
required_of none = []
required_of (some v) = texts_or_none (required_names v)

-- the declared types: an error if they are not supported
unfoldable pub has_declared_type : Value → Value → Bool
has_declared_type v null = true
has_declared_type v declared =
    are_types (declared_types declared)
    && any (has_type v) (texts_or_none (declared_types declared))

-- any(_json_equal(instance, choice) for choice in choices)
unfoldable pub chosen : Value → Items → Bool
chosen v nil = false
chosen v (item choice rest) = json_equal v choice || chosen v rest

unfoldable pub is_choice : Value → Value → Bool
is_choice v (list choices) = chosen v choices
is_choice v _ = false

unfoldable pub matches : Patterns → String → Value → Bool
matches e s (str pattern) = e.searches pattern s
matches e s _ = false

unfoldable pub valid_text : Patterns → Value → Entries → Bool
valid_text e (str s) schema =
    leb (count_or_zero (get "minLength" schema)) (length (codes s))
    && if_given (get "pattern" schema) (matches e s)
    && if_given (get "format" schema) (λ f. is_this_text "date-time" f && is_datetime e s)
valid_text e _ schema = true

-- isinstance(instance, (int, float)) and not isinstance(instance, bool)
unfoldable pub is_numeric : Value → Bool
is_numeric (int n) = true
is_numeric (float x) = true
is_numeric _ = false

unfoldable pub valid_number : Value → Entries → Bool
valid_number v schema =
    not (is_numeric v)
    || if_given (get "minimum" schema) (λ least. not (lt_number (number_of v) (number_of least)))

unfoldable pub valid_size : Value → Entries → Bool
valid_size (list xs) schema = leb (count_or_zero (get "minItems" schema)) (count_items xs)
valid_size _ schema = true

unfoldable pub is_false : Value → Bool
is_false (bool b) = not b
is_false _ = false

-- not set(instance) - set(properties)
unfoldable pub only_keys_of : Entries → Entries → Bool
only_keys_of properties end = true
only_keys_of properties (entry k v rest) =
    is_some (get_at k properties) && only_keys_of properties rest

unfoldable pub valid_names : Value → Entries → Bool
valid_names (dict es) schema =
    has_names (required_of (get "required" schema)) es
    && if_given (get "additionalProperties" schema) (λ allowed.
      not (is_false allowed) || only_keys_of (dict_or_empty (get "properties" schema)) es)
valid_names _ schema = true

-- the checks of `validate` on the instance itself
unfoldable pub valid_here : Patterns → Value → Entries → Bool
valid_here e v schema =
    only_names supported_keywords schema
    && if_given (get "type" schema) (has_declared_type v)
    && if_given (get "const" schema) (json_equal v)
    && if_given (get "enum" schema) (is_choice v)
    && valid_text e v schema
    && valid_number v schema
    && valid_size v schema
    && valid_names v schema

unfoldable mutual
  unfolding valid_here dict_or_empty

  -- `validate` below the root
  pub valid : Patterns → Value → Entries → Bool
  valid e (list xs) schema = valid_here e (list xs) schema && valid_items e xs (get "items" schema)
  valid e (dict es) schema =
      valid_here e (dict es) schema && valid_entries e es (dict_or_empty (get "properties" schema))
  valid e v schema = valid_here e v schema

  pub valid_items : Patterns → Items → Option Value → Bool
  valid_items e nil sub = true
  valid_items e (item v rest) sub =
      (not (is_some sub) || valid e v (dict_or_empty sub)) && valid_items e rest sub

  pub valid_entries : Patterns → Entries → Entries → Bool
  valid_entries e end properties = true
  valid_entries e (entry k v rest) properties =
      (not (is_some (get_at k properties)) || valid e v (dict_or_empty (get_at k properties)))
      && valid_entries e rest properties

-- {key: value for key, value in instance.items() if key != name}
unfoldable pub without : String → Entries → Entries
without name end = end
without name (entry k v rest) =
    let others = without name rest in if is_this_text name k then others else entry k v others

-- content_hash(value) == instance[name]
unfoldable pub is_hash_of : Result String → Option Value → Bool
is_hash_of (ok h) (some v) = is_this_text h v
is_hash_of _ _ = false

unfoldable pub is_bound_id : Option Value → Option Value → Bool
is_bound_id (some (str subject_type)) (some (str subject_id)) = is_id subject_type subject_id
is_bound_id _ _ = true

-- the three branches of `_validate_semantics`, by the schema's $id
unfoldable pub semantics_of : Codec → Value → Entries → Bool
semantics_of codec id es =
    if is_this_text "urn:qingtian-ai:schema:checkpoint:v1" id
    then is_hash_of (content_hash codec (or_null (get "snapshot" es))) (get "content_hash" es)
      && is_some (get "snapshot" es)
    else if is_this_text "urn:qingtian-ai:schema:verification-receipt:v1" id
    then is_hash_of (content_hash codec (dict (without "receipt_hash" es))) (get "receipt_hash" es)
    else if is_this_text "urn:qingtian-ai:schema:evidence:v1" id
    then is_bound_id (get "subject_type" es) (get "subject_id" es)
    else true

-- `_validate_semantics`
unfoldable pub validate_semantics : Codec → Value → Entries → Bool
validate_semantics codec (dict es) schema = semantics_of codec (or_null (get "$id" schema)) es
validate_semantics codec _ schema = true

-- `validate`
unfoldable pub validate : Patterns → Codec → Value → Value → Result (Unit {0})
validate e codec document schema =
    let keywords = dict_or_empty (some schema) in
    both (lint_schema e schema) (
      both (strict document)
        (demand (valid e document keywords && validate_semantics codec document keywords)))
