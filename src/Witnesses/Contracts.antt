-- ===== src/Witnesses/Contracts.antt =====
-- The properties of the contracts at a small schema and document.
use qingtian_ai.Contracts.{
  clock_behind, date_shape, follows, has_type, is_array, is_boolean, is_clock, is_datetime,
  is_fraction, is_fraction_or_zone, is_hour, is_integer, is_null, is_number, is_string, is_zone,
  supported_keywords,
}
use qingtian_ai.Contracts.Closed.{under_property, unknown_fails_closed, whole}
use qingtian_ai.Contracts.Equality.{
  count_entries, dict_entries, entries_equal, eq_float, eq_number, eq_ℤ, is_infinite, items_equal,
  json_equal, list_items, lt_number, number_of, python_equal, same_size, tuple_items,
}
use qingtian_ai.Contracts.Lint.{
  any_equal, are_required, are_types, declared_types, distinct_texts, distinct_values, is_count,
  is_dialect, is_enum, is_name, is_nonempty_text, is_pattern, lint, lint_each, lint_keywords,
  lint_properties, lint_schema, lint_subschemas, required_names, texts_of,
}
use qingtian_ai.Contracts.Validate.{
  chosen, count_or_zero, dict_or_empty, has_declared_type, is_bound_id, is_choice, is_false,
  is_hash_of, is_numeric, matches, only_keys_of, semantics_of, texts_or_none, valid, valid_entries,
  valid_here, valid_items, valid_names, valid_number, valid_size, valid_text, validate,
  validate_semantics, without,
}
use qingtian_ai.Exec.{is_ok, ok}
use qingtian_ai.Json.{
  canonical_json, content_hash, dict, is_dict, require_strict_entries, require_strict_items,
  require_strict_json, text_items,
}
use qingtian_ai.Json.Dicts.{count_items, get, get_at, has_names, is_this_text, only_names}
use qingtian_ai.Prelude.{all, any, is_digit, is_empty, is_some, refl, true, ◌≡◌}
use qingtian_ai.Scenarios.{toy}
use qingtian_ai.Scenarios.Documents.{lenient, name_schema, person, person_schema}

accepts_person : validate lenient toy person (dict person_schema) ≡ ok tt
unfolding is_this_text get get_at only_names has_names count_items is_integer is_number is_string
    is_array is_boolean is_null has_type follows is_hour is_zone is_fraction is_fraction_or_zone
    is_clock date_shape clock_behind is_datetime eq_ℤ number_of eq_number lt_number is_infinite
    eq_float list_items tuple_items dict_entries count_entries same_size json_equal is_dialect
    is_nonempty_text texts_of distinct_texts declared_types are_types any_equal distinct_values
    is_enum are_required required_names is_count is_pattern is_name lint_keywords lint_schema
    dict_or_empty count_or_zero texts_or_none has_declared_type chosen is_choice matches valid_text
    is_numeric valid_number valid_size is_false only_keys_of valid_names valid_here without
    is_hash_of is_bound_id semantics_of validate_semantics validate is_dict canonical_json
    content_hash text_items lint lint_subschemas lint_properties lint_each valid valid_items
    valid_entries require_strict_json require_strict_items require_strict_entries any all is_empty
    is_some is_ok is_digit python_equal items_equal entries_equal
accepts_person = refl

unknown_fails_closed_example : only_names supported_keywords name_schema ≡ true
unfolding get is_this_text
unknown_fails_closed_example =
    unknown_fails_closed lenient toy person person_schema name_schema accepts_person
      (under_property "name" whole refl refl)
