-- ===== src/Contracts.antt =====
-- qingtian_core/contracts.py: what the checks of a schema and of a document share. `json_equal` is
-- `_json_equal`, over Python's `==`.
pub mod Equality
pub mod Lint
pub mod Validate
pub mod Closed
pub mod Keywords
pub mod Meets
pub mod Semantics
pub mod Meaning
use qingtian_ai.Exec.{Result, contract_validation_error, err, is_ok, ok}
use qingtian_ai.Json.{
  Value, bool, finite, float, int, is_dict, list, null, require_strict_json, str,
}
use qingtian_ai.Prelude.{
  Bool, List, Option, String, [], codes, false, if◌then◌else◌, is_digit, leb, nat_eq, none, some,
  true, ℕ, ◌&&◌, ◌==◌, ◌||◌, ◌∷◌,
}

-- What the code takes from elsewhere: re.search and re.compile, and datetime.fromisoformat with the
-- test of a time zone.
pub record Patterns : Type 0 where
  pub searches : String → String → Bool
  pub compiles : String → Bool
  pub parses_aware : String → Bool

-- `_fail`
abbrev pub demand : Bool → Result (Unit {0})
demand true = ok tt
demand false = err contract_validation_error

-- an exception of require_strict_json, as ContractValidationError
abbrev pub strict : Value → Result (Unit {0})
strict v = demand (is_ok (require_strict_json v))

abbrev pub type_names : List String
type_names = "null" ∷ "boolean" ∷ "integer" ∷ "number" ∷ "string" ∷ "array" ∷ "object" ∷ []

unfoldable pub is_integer : Value → Bool
is_integer (int n) = true
is_integer _ = false

unfoldable pub is_number : Value → Bool
is_number (int n) = true
is_number (float (finite m k)) = true
is_number _ = false

unfoldable pub is_string : Value → Bool
is_string (str s) = true
is_string _ = false

unfoldable pub is_array : Value → Bool
is_array (list xs) = true
is_array _ = false

unfoldable pub is_boolean : Value → Bool
is_boolean (bool b) = true
is_boolean _ = false

unfoldable pub is_null : Value → Bool
is_null null = true
is_null _ = false

-- TYPE_CHECKS[name](value)
unfoldable pub has_type : Value → String → Bool
has_type v name =
    name == "null" && is_null v
    || name == "boolean" && is_boolean v
    || name == "integer" && is_integer v
    || name == "number" && is_number v
    || name == "string" && is_string v
    || name == "array" && is_array v
    || name == "object" && is_dict v

abbrev pub supported_keywords : List String
supported_keywords =
    "$schema" ∷ "$id" ∷ "title" ∷ "description" ∷ "type" ∷ "const" ∷ "enum" ∷ "required"
    ∷ "properties" ∷ "additionalProperties" ∷ "items" ∷ "minItems" ∷ "minLength" ∷ "minimum"
    ∷ "pattern" ∷ "format" ∷ "default" ∷ []

-- RFC3339_DATETIME, by the classes of its characters
abbrev pub within : ℕ → ℕ → ℕ → Bool
within lo hi c = leb lo c && leb c hi

unfoldable pub follows : List (ℕ → Bool) → List ℕ → Option (List ℕ)
follows [] cs = some cs
follows (p ∷ ps) [] = none
follows (p ∷ ps) (c ∷ cs) = let rest = follows ps cs in if p c then rest else none

-- (?:[01][0-9]|2[0-3])
unfoldable pub is_hour : ℕ → ℕ → Bool
is_hour c d = within b'0' b'1' c && is_digit d || nat_eq c b'2' && within b'0' b'3' d

-- (?:Z|[+-](?:[01][0-9]|2[0-3]):[0-5][0-9])$
unfoldable pub is_zone : List ℕ → Bool
is_zone (c ∷ []) = nat_eq c b'Z'
is_zone (c ∷ h ∷ h' ∷ colon ∷ m ∷ m' ∷ []) =
    (nat_eq c b'+' || nat_eq c b'-')
    && is_hour h h'
    && nat_eq colon b':'
    && within b'0' b'5' m
    && is_digit m'
is_zone _ = false

-- [0-9]*, and the zone behind it
unfoldable pub is_fraction : List ℕ → Bool
is_fraction [] = false
is_fraction (c ∷ cs) = is_zone (c ∷ cs) || is_digit c && is_fraction cs

-- (?:\.[0-9]+)? and the zone
unfoldable pub is_fraction_or_zone : List ℕ → Bool
is_fraction_or_zone (point ∷ c ∷ cs) =
    is_zone (point ∷ c ∷ cs) || nat_eq point b'.' && is_digit c && is_fraction cs
is_fraction_or_zone cs = is_zone cs

unfoldable pub is_clock : List ℕ → Bool
is_clock (h ∷ h' ∷ c ∷ m ∷ m' ∷ c' ∷ s ∷ s' ∷ rest) =
    is_hour h h'
    && nat_eq c b':'
    && within b'0' b'5' m
    && is_digit m'
    && nat_eq c' b':'
    && within b'0' b'5' s
    && is_digit s'
    && is_fraction_or_zone rest
is_clock _ = false

abbrev is_dash : ℕ → Bool
is_dash c = nat_eq c b'-'

unfoldable pub date_shape : List (ℕ → Bool)
date_shape =
    is_digit
    ∷ is_digit
    ∷ is_digit
    ∷ is_digit
    ∷ is_dash
    ∷ is_digit
    ∷ is_digit
    ∷ is_dash
    ∷ is_digit
    ∷ is_digit
    ∷ (nat_eq b'T')
    ∷ []

unfoldable pub clock_behind : Option (List ℕ) → Bool
clock_behind none = false
clock_behind (some cs) = is_clock cs

-- `_is_datetime`
unfoldable pub is_datetime : Patterns → String → Bool
is_datetime e s = clock_behind (follows date_shape (codes s)) && e.parses_aware s
