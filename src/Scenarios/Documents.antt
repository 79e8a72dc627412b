-- ===== src/Scenarios/Documents.antt =====
-- A small schema, a document that it accepts, and a host of regular expressions that refuses none.
use qingtian_ai.Contracts.{Patterns}
use qingtian_ai.Json.{Entries, Value, bool, dict, end, entry, int, item, list, nil, str}
use qingtian_ai.Prelude.{String, false, true}
use qingtian_ai.Prelude.Int.{pos}

abbrev pub lenient : Patterns
lenient = record {
  searches = λ pattern s. true;
  compiles = λ pattern. true;
  parses_aware = λ s. true;
}

abbrev keyed : String → Value → Entries → Entries
keyed name v rest = entry (str name) v rest

abbrev pub name_schema : Entries
name_schema = keyed "type" (str "string") (keyed "minLength" (int (pos 1)) end)

abbrev pub person_schema : Entries
person_schema = keyed "type" (str "object") (
    keyed "properties" (dict (keyed "name" (dict name_schema) end)) (
      keyed "required" (list (item (str "name") nil))
        (keyed "additionalProperties" (bool false) end)))

abbrev pub person : Value
person = dict (keyed "name" (str "Ada") end)
