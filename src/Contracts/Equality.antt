-- ===== src/Contracts/Equality.antt =====
-- Python's `==` on the objects of JSON, and `_json_equal` of qingtian_core/contracts.py.
use qingtian_ai.Contracts.{is_null}
use qingtian_ai.Json.{
  Entries, Float, Items, Value, bool, dict, end, entry, finite, float, infinite, int, item, list,
  nan, nil, null, other, str, tuple,
}
use qingtian_ai.Json.Dicts.{get_at, is_this_text}
use qingtian_ai.Prelude.{
  Bool, Option, false, if◌then◌else◌, is_some, nat_eq, none, not, some, suc, true, ℕ, ◌&&◌, ◌*◌,
  ◌+◌, ◌-◌, ◌^◌,
}
use qingtian_ai.Prelude.Int.{lt_ℤ, negsuc, pos, ℤ}

-- m * n
unfoldable pub scaled : ℤ → ℕ → ℤ
scaled (pos m) n = pos (m * n)
scaled (negsuc m) n = if nat_eq n 0 then pos 0 else negsuc ((m + 1) * n - 1)

unfoldable pub eq_ℤ : ℤ → ℤ → Bool
eq_ℤ (pos a) (pos b) = nat_eq a b
eq_ℤ (negsuc a) (negsuc b) = nat_eq a b
eq_ℤ _ _ = false

-- the number that an object is, as m / 2 ^ k
unfoldable pub number_of : Value → Option (ℤ × ℕ)
number_of (bool true) = some (pos 1, 0)
number_of (bool false) = some (pos 0, 0)
number_of (int n) = some (n, 0)
number_of (float (finite m k)) = some (m, k)
number_of _ = none

unfoldable pub eq_number : Option (ℤ × ℕ) → Option (ℤ × ℕ) → Bool
eq_number (some (m, k)) (some (n, j)) = eq_ℤ (scaled m (2 ^ j)) (scaled n (2 ^ k))
eq_number _ _ = false

-- instance < minimum
unfoldable pub lt_number : Option (ℤ × ℕ) → Option (ℤ × ℕ) → Bool
lt_number (some (m, k)) (some (n, j)) = lt_ℤ (scaled m (2 ^ j)) (scaled n (2 ^ k))
lt_number _ _ = false

unfoldable pub is_infinite : Bool → Value → Bool
is_infinite true (float (infinite b)) = b
is_infinite false (float (infinite b)) = not b
is_infinite _ _ = false

unfoldable pub eq_float : Float → Value → Bool
eq_float (finite m k) w = eq_number (some (m, k)) (number_of w)
eq_float (infinite b) w = is_infinite b w
eq_float nan w = false

unfoldable pub list_items : Value → Option Items
list_items (list xs) = some xs
list_items _ = none

unfoldable pub tuple_items : Value → Option Items
tuple_items (tuple xs) = some xs
tuple_items _ = none

unfoldable pub dict_entries : Value → Option Entries
dict_entries (dict es) = some es
dict_entries _ = none

unfoldable pub count_entries : Entries → ℕ
count_entries end = 0
count_entries (entry k v rest) = suc (count_entries rest)

unfoldable pub same_size : Entries → Option Entries → Bool
same_size es none = false
same_size es (some ds) = nat_eq (count_entries es) (count_entries ds)

abbrev pub or_end : Option Entries → Entries
or_end none = end
or_end (some es) = es

abbrev pub or_null : Option Value → Value
or_null none = null
or_null (some v) = v

unfoldable mutual
  unfolding is_null is_this_text eq_number number_of eq_float

  pub python_equal : Value → Value → Bool
  python_equal null w = is_null w
  python_equal (bool b) w = eq_number (number_of (bool b)) (number_of w)
  python_equal (int n) w = eq_number (some (n, 0)) (number_of w)
  python_equal (float x) w = eq_float x w
  python_equal (str s) w = is_this_text s w
  python_equal (list xs) w = items_equal xs (list_items w)
  python_equal (tuple xs) w = items_equal xs (tuple_items w)
  python_equal (dict es) w =
      same_size es (dict_entries w) && entries_equal es (or_end (dict_entries w))
  python_equal other w = false

  pub items_equal : Items → Option Items → Bool
  items_equal nil (some nil) = true
  items_equal (item v xs) (some (item w ys)) = python_equal v w && items_equal xs (some ys)
  items_equal _ _ = false

  pub entries_equal : Entries → Entries → Bool
  entries_equal end ds = true
  entries_equal (entry k v es) ds =
      is_some (get_at k ds) && python_equal v (or_null (get_at k ds)) && entries_equal es ds

-- `_json_equal`
unfoldable pub json_equal : Value → Value → Bool
json_equal (bool true) (bool b) = b
json_equal (bool false) (bool b) = not b
json_equal (bool a) w = false
json_equal v (bool b) = false
json_equal v w = python_equal v w
