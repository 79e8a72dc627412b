-- ===== src/Json/Dicts.antt =====
-- Python's dicts with texts as keys, and the length of a list.
use qingtian_ai.Json.{Entries, Items, Value, end, entry, item, nil, str}
use qingtian_ai.Prelude.{
  Bool, List, Option, String, all, any, false, if◌then◌else◌, is_some, none, some, suc, true, ℕ,
  ◌&&◌, ◌==◌,
}

-- value == s, for a text s
unfoldable pub is_this_text : String → Value → Bool
is_this_text s (str t) = s == t
is_this_text s _ = false

-- value[name], or value.get(name)
unfoldable pub get : String → Entries → Option Value
get name end = none
get name (entry k v rest) =
    let later = get name rest in if is_this_text name k then some v else later

-- the same, for a key that may be any object
unfoldable pub get_at : Value → Entries → Option Value
get_at (str name) es = get name es
get_at _ es = none

-- no name but these
unfoldable pub only_names : List String → Entries → Bool
only_names names end = true
only_names names (entry k v rest) = any (λ name. is_this_text name k) names && only_names names rest

unfoldable pub has_names : List String → Entries → Bool
has_names names es = all (λ name. is_some (get name es)) names

unfoldable pub count_items : Items → ℕ
count_items nil = 0
count_items (item v rest) = suc (count_items rest)
