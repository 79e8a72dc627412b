-- ===== src/Contracts/Lint.antt =====
-- qingtian_core/contracts.py: `_lint_schema`. Every failure is a ContractValidationError, so the
-- checks are Boolean tests; a dict has each key once, so the checks of the subschemas under
-- "properties" and "items" are made where the walk over the entries meets these keys.
use qingtian_ai.Contracts.{
  Patterns, demand, is_boolean, is_number, strict, supported_keywords, type_names,
}
use qingtian_ai.Contracts.Equality.{json_equal}
use qingtian_ai.Exec.{Result}
use qingtian_ai.Json.{
  Entries, Items, Value, both, dict, end, entry, int, item, list, nil, null, str,
}
use qingtian_ai.Json.Dicts.{count_items, get, is_this_text, only_names}
use qingtian_ai.Prelude.{
  Bool, List, Option, String, [], all, any, false, is_empty, nat_eq, none, not, some, true, ◌&&◌,
  ◌==◌, ◌||◌, ◌∷◌,
}
use qingtian_ai.Prelude.Int.{pos}

-- schema[keyword] passes a test, if the keyword is given
abbrev pub if_given : Option Value → (Value → Bool) → Bool
if_given none test = true
if_given (some v) test = test v

unfoldable pub is_dialect : Value → Bool
is_dialect null = true
is_dialect v = is_this_text "https://json-schema.org/draft/2020-12/schema" v

unfoldable pub is_nonempty_text : Value → Bool
is_nonempty_text (str s) = not (s == "")
is_nonempty_text _ = false

-- the texts of a list of texts
abbrev cons_text : String → Option (List String) → Option (List String)
cons_text s none = none
cons_text s (some rest) = some (s ∷ rest)

unfoldable pub texts_of : Items → Option (List String)
texts_of nil = some []
texts_of (item (str s) rest) = cons_text s (texts_of rest)
texts_of (item v rest) = none

unfoldable pub distinct_texts : List String → Bool
distinct_texts [] = true
distinct_texts (s ∷ rest) = not (any (λ t. t == s) rest) && distinct_texts rest

-- [declared] if isinstance(declared, str) else declared
unfoldable pub declared_types : Value → Option (List String)
declared_types (str s) = some (s ∷ [])
declared_types (list xs) = texts_of xs
declared_types _ = none

unfoldable pub are_types : Option (List String) → Bool
are_types none = false
are_types (some names) =
    not (is_empty names)
    && all (λ name. any (λ t. t == name) type_names) names
    && distinct_texts names

unfoldable pub any_equal : Value → Items → Bool
any_equal v nil = false
any_equal v (item w rest) = json_equal w v || any_equal v rest

unfoldable pub distinct_values : Items → Bool
distinct_values nil = true
distinct_values (item v rest) = not (any_equal v rest) && distinct_values rest

unfoldable pub is_enum : Value → Bool
is_enum (list xs) = not (nat_eq (count_items xs) 0) && distinct_values xs
is_enum _ = false

unfoldable pub are_required : Option (List String) → Bool
are_required none = false
are_required (some names) = all (λ name. not (name == "")) names && distinct_texts names

unfoldable pub required_names : Value → Option (List String)
required_names (list xs) = texts_of xs
required_names _ = none

unfoldable pub is_count : Value → Bool
is_count (int (pos n)) = true
is_count _ = false

unfoldable pub is_pattern : Patterns → Value → Bool
is_pattern e (str s) = e.compiles s
is_pattern e _ = false

unfoldable pub is_name : Value → Bool
is_name v = is_nonempty_text v

-- the checks of `_lint_schema` on the schema's own keywords
unfoldable pub lint_keywords : Patterns → Entries → Bool
lint_keywords e es =
    only_names supported_keywords es
    && if_given (get "$schema" es) is_dialect
    && all (λ keyword. if_given (get keyword es) is_nonempty_text)
        ("$id" ∷ "title" ∷ "description" ∷ [])
    && if_given (get "type" es) (λ v. are_types (declared_types v))
    && if_given (get "enum" es) is_enum
    && if_given (get "required" es) (λ v. are_required (required_names v))
    && if_given (get "additionalProperties" es) is_boolean
    && all (λ keyword. if_given (get keyword es) is_count) ("minItems" ∷ "minLength" ∷ [])
    && if_given (get "minimum" es) is_number
    && if_given (get "pattern" es) (is_pattern e)
    && if_given (get "format" es) (is_this_text "date-time")

unfoldable mutual
  unfolding lint_keywords is_name is_this_text

  pub lint : Patterns → Value → Bool
  lint e (dict es) = lint_keywords e es && lint_subschemas e es
  lint e _ = false

  -- the subschemas under "properties" and "items"
  pub lint_subschemas : Patterns → Entries → Bool
  lint_subschemas e end = true
  lint_subschemas e (entry k v rest) =
      (not (is_this_text "properties" k) || lint_properties e v)
      && (not (is_this_text "items" k) || lint e v)
      && lint_subschemas e rest

  pub lint_properties : Patterns → Value → Bool
  lint_properties e (dict ps) = lint_each e ps
  lint_properties e _ = false

  pub lint_each : Patterns → Entries → Bool
  lint_each e end = true
  lint_each e (entry k v rest) = is_name k && lint e v && lint_each e rest

-- `_lint_schema` of a whole schema
unfoldable pub lint_schema : Patterns → Value → Result (Unit {0})
lint_schema e schema = both (strict schema) (demand (lint e schema))
