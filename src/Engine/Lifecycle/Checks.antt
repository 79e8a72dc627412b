-- ===== src/Engine/Lifecycle/Checks.antt =====
-- qingtian_engine/lifecycle.py: the checks of a payload's values, `_text`, `_id`, `_ref`, `_shape`,
-- `_time`, `_sha` and `_artifacts`. Each returns what the code reads of the value.
use qingtian_ai.Engine.Lifecycle.{Artifact, Host}
use qingtian_ai.Engine.Texts.{contains}
use qingtian_ai.Exec.{Error, Result, err, found, lifecycle_error, ok}
use qingtian_ai.Json.{Entries, Items, Value, dict, int, item, list, nil, str}
use qingtian_ai.Json.Dicts.{count_items, get, has_names, only_names}
use qingtian_ai.Prelude.{
  Bool, List, Option, String, [], all, any, codes, false, if◌then◌else◌, is_blank, is_sha256, leb,
  length, ltb, nat_eq, not, some, suc, true, ℕ, ◌&&◌, ◌++◌, ◌==◌, ◌||◌, ◌∷◌,
}
use qingtian_ai.Prelude.Int.{pos}

abbrev pub invalid : Error
invalid = lifecycle_error "invalid"

abbrev pub require : Bool → Result (Unit {0})
require true = ok tt
require false = err invalid

-- the bind of results
infixl 10 ◌and_then◌
unfoldable pub ◌and_then◌ : {A B : Type 0} → Result A → (A → Result B) → Result B
ok a and_then k = k a
err e and_then k = err e

abbrev pub string_of : Option Value → Result String
string_of (some (str s)) = ok s
string_of _ = err invalid

abbrev pub is_printable : ℕ → Bool
is_printable c = leb 32 c

-- re.fullmatch of [A-Za-z0-9][A-Za-z0-9._:@-]{0,127}
unfoldable pub is_alphanumeric : ℕ → Bool
is_alphanumeric c =
    (leb b'A' c && leb c b'Z') || (leb b'a' c && leb c b'z') || (leb b'0' c && leb c b'9')

unfoldable pub is_identifier_rest : ℕ → Bool
is_identifier_rest c =
    is_alphanumeric c
    || nat_eq c b'.'
    || nat_eq c b'_'
    || nat_eq c b':'
    || nat_eq c b'@'
    || nat_eq c b'-'

abbrev pub matches_identifier : List ℕ → Bool
matches_identifier [] = false
matches_identifier (c ∷ rest) =
    is_alphanumeric c && all is_identifier_rest rest && leb (length rest) 127

abbrev pub next_dots : ℕ → ℕ → ℕ
next_dots dots c = if nat_eq c b'/' then 0 else if nat_eq c b'.' && ltb dots 3 then suc dots else 3

-- any(p in {".", ".."} for p in value.split("/")): `dots` is the number of the dots of the part
-- that is read, or 3 for a part with another character
unfoldable pub has_dot_part : ℕ → List ℕ → Bool
has_dot_part dots [] = nat_eq dots 1 || nat_eq dots 2
has_dot_part dots (c ∷ rest) =
    nat_eq c b'/' && (nat_eq dots 1 || nat_eq dots 2) || has_dot_part (next_dots dots c) rest

module _ (host : Host) where
  -- _text(value, limit, empty)
  unfoldable pub text : ℕ → Bool → Option Value → Result String
  text limit empty value = string_of value and_then λ s.
      require (
        leb (length (codes s)) limit
        && (empty || not (is_blank s))
        && all is_printable (codes s)
        && not (host.contains_secret s))
      and_then λ _. ok s

  unfoldable pub identifier : Option Value → Result String
  identifier value = string_of value and_then λ s.
      require (matches_identifier (codes s)) and_then λ _. text 128 false value

  unfoldable pub reference : Option Value → Result String
  reference value = text 1000 false value and_then λ s.
      require (not (any (nat_eq 92) (codes s)) && not (has_dot_part 0 (codes s))) and_then λ _. ok s

  unfoldable pub time_of : String → Result ℕ
  time_of s = if contains "T" s then found invalid (host.parse_time s) else err invalid

  unfoldable pub timestamp : Option Value → Result ℕ
  timestamp value = text 80 false value and_then λ s. time_of s

-- _sha(value)
unfoldable pub sha : Option Value → Result String
sha value = string_of value and_then λ s. require (is_sha256 s) and_then λ _. ok s

-- _choice(value, options)
unfoldable pub choice : List String → Option Value → Result String
choice options value =
    string_of value and_then λ s. require (any (λ option. option == s) options) and_then λ _. ok s

-- _shape(value, required, optional)
unfoldable pub shape : List String → List String → Entries → Result (Unit {0})
shape required optional es = require (has_names required es && only_names (required ++ optional) es)

abbrev pub entries_of : Option Value → Result Entries
entries_of (some (dict es)) = ok es
entries_of _ = err invalid

abbrev pub items_of : Option Value → Result Items
items_of (some (list xs)) = ok xs
items_of _ = err invalid

-- the loop of `_artifacts`, and its test for a reference that occurs twice
unfoldable pub artifact_of : Host → Value → Result Artifact
artifact_of host value = entries_of (some value) and_then λ es.
    shape ("ref" ∷ "sha256" ∷ []) [] es and_then λ _. reference host (get "ref" es) and_then λ r.
    sha (get "sha256" es) and_then λ s. ok (record { ref = r; sha256 = s })

unfoldable pub each_artifact : Host → Items → Result (List Artifact)
each_artifact host nil = ok []
each_artifact host (item v rest) =
    artifact_of host v and_then λ a. each_artifact host rest and_then λ others. ok (a ∷ others)

unfoldable pub distinct_refs : List Artifact → Bool
distinct_refs [] = true
distinct_refs (a ∷ rest) = not (any (λ b. b.ref == a.ref) rest) && distinct_refs rest

unfoldable pub artifacts_of : Host → Bool → Option Value → Result (List Artifact)
artifacts_of host required value = items_of value and_then λ xs.
    require (leb (count_items xs) 50 && not (required && nat_eq (count_items xs) 0)) and_then λ _.
    each_artifact host xs and_then λ artifacts.
    require (distinct_refs artifacts) and_then λ _. ok artifacts

-- the loop over missing_items
unfoldable pub each_text : Host → Items → Result (List String)
each_text host nil = ok []
each_text host (item v rest) = text host 300 false (some v) and_then λ s.
    each_text host rest and_then λ others. ok (s ∷ others)

-- type(value) is int and lo <= value <= hi
unfoldable pub integer_within : ℕ → ℕ → Option Value → Result ℕ
integer_within lo hi (some (int (pos n))) = if leb lo n && leb n hi then ok n else err invalid
integer_within lo hi _ = err invalid

abbrev pub stages : List String
stages =
    "unassigned" ∷ "planning" ∷ "implementation" ∷ "review" ∷ "qa" ∷ "handoff" ∷ "release"
    ∷ "deploy" ∷ "smoke" ∷ "closure" ∷ []

abbrev pub common : List String
common = "expected_revision" ∷ "idempotency_key" ∷ "actor" ∷ "source_ref" ∷ []
