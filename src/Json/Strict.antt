-- ===== src/Json/Strict.antt =====
-- What `require_strict_json` of qingtian_core/models.py accepts.
use qingtian_ai.Prelude.{String, ◌≡◌, refl, ◌↔◌, Bool, List, [], ◌∷◌, ℕ}
use qingtian_ai.Prelude.Int.{ℤ}
use qingtian_ai.Exec.{Result, ok, err}
use qingtian_ai.Json.{
  Value, Items, Entries, null, bool, int, float, str, list, tuple, dict, other, nil, item, end,
  entry, finite, infinite, nan, both, require_strict_json, require_strict_items,
  require_strict_entries, strict_key, text_items,
}

-- JSON values: finite numbers, and text keys, at every depth.
mutual
  pub data IsJson : Value → Type 0 where
    is_null : IsJson null
    is_bool : (b : Bool) → IsJson (bool b)
    is_int : (n : ℤ) → IsJson (int n)
    is_float : (m : ℤ) (k : ℕ) → IsJson (float (finite m k))
    is_str : (s : String) → IsJson (str s)
    is_list : {xs : Items} → AreJson xs → IsJson (list xs)
    is_tuple : {xs : Items} → AreJson xs → IsJson (tuple xs)
    is_object : {es : Entries} → IsObject es → IsJson (dict es)

  pub data AreJson : Items → Type 0 where
    none_left : AreJson nil
    one_more : {v : Value} {xs : Items} → IsJson v → AreJson xs → AreJson (item v xs)

  pub data IsObject : Entries → Type 0 where
    closed : IsObject end
    keyed :
        (s : String) {v : Value} {es : Entries}
        → IsJson v
        → IsObject es
        → IsObject (entry (str s) v es)

both-ok : (r t : Result (Unit {0})) → both r t ≡ ok tt → (r ≡ ok tt) × (t ≡ ok tt)
both-ok (ok u) t h = (refl, h)
both-ok (err e) t h = cc

str_key : (k : Value) → strict_key k ≡ ok tt → (s : String) × (k ≡ str s)
unfolding strict_key
str_key (str s) h = (s, refl)
str_key (null) h = cc
str_key _ h = cc

mutual
  unfolding require_strict_json

  strict-IsJson : (v : Value) → require_strict_json v ≡ ok tt → IsJson v
  strict-IsJson null h = is_null
  strict-IsJson (bool b) h = is_bool b
  strict-IsJson (int n) h = is_int n
  strict-IsJson (str s) h = is_str s
  strict-IsJson (float (finite m k)) h = is_float m k
  strict-IsJson (float (infinite b)) h = cc
  strict-IsJson (float nan) h = cc
  strict-IsJson (list xs) h = is_list (strict-AreJson xs h)
  strict-IsJson (tuple xs) h = is_tuple (strict-AreJson xs h)
  strict-IsJson (dict es) h = is_object (strict-IsObject es h)
  strict-IsJson other h = cc

  strict-AreJson : (xs : Items) → require_strict_items xs ≡ ok tt → AreJson xs
  strict-AreJson nil h = none_left
  strict-AreJson (item v xs) h =
      let (p, q) = both-ok (require_strict_json v) (require_strict_items xs) h in
      one_more (strict-IsJson v p) (strict-AreJson xs q)

  strict-IsObject : (es : Entries) → require_strict_entries es ≡ ok tt → IsObject es
  strict-IsObject end h = closed
  strict-IsObject (entry k v es) h =
      let (p, q) =
        both-ok (strict_key k) (both (require_strict_json v) (require_strict_entries es)) h in
      let (q', r) = both-ok (require_strict_json v) (require_strict_entries es) q in
      let (s, e) = str_key k p in rw e (keyed s (strict-IsJson v q') (strict-IsObject es r))

mutual
  unfolding require_strict_json

  IsJson-strict : {v : Value} → IsJson v → require_strict_json v ≡ ok tt
  IsJson-strict is_null = refl
  IsJson-strict (is_bool b) = refl
  IsJson-strict (is_int n) = refl
  IsJson-strict (is_float m k) = refl
  IsJson-strict (is_str s) = refl
  IsJson-strict (is_list h) = AreJson-strict h
  IsJson-strict (is_tuple h) = AreJson-strict h
  IsJson-strict (is_object h) = IsObject-strict h

  AreJson-strict : {xs : Items} → AreJson xs → require_strict_items xs ≡ ok tt
  AreJson-strict none_left = refl
  AreJson-strict (one_more h t) = rw (IsJson-strict h) (AreJson-strict t)

  IsObject-strict : {es : Entries} → IsObject es → require_strict_entries es ≡ ok tt
  IsObject-strict closed = refl
  IsObject-strict (keyed s h t) = rw (IsJson-strict h) (IsObject-strict t)

-- `require_strict_json` returns exactly on the JSON values: no number that is not finite, no key
-- that is not a text and no object of another type, at any depth.
pub strict_iff : (v : Value) → (require_strict_json v ≡ ok tt) ↔ IsJson v
strict_iff v = (strict-IsJson v, IsJson-strict)

-- A sequence of texts is JSON.
pub strict-text_items : (ss : List String) → require_strict_items (text_items ss) ≡ ok tt
unfolding require_strict_json text_items
strict-text_items [] = refl
strict-text_items (s ∷ ss) = strict-text_items ss
