-- ===== src/Json.antt =====
-- qingtian_core/models.py, the JSON boundary: `require_strict_json`, `canonical_json` and
-- `content_hash` over Python objects. The encoder, the decoder and the digest are those of
-- Python's json and hashlib modules, taken as a record of functions.
mod Objects
pub mod Strict
pub mod Dicts
pub use Objects.{
  Float, finite, infinite, nan, Value, Items, Entries, null, bool, int, float, str, list, tuple,
  dict, other, nil, item, end, entry,
}
use qingtian_ai.Exec.{Result, err, ok, type_error, value_error}
use qingtian_ai.Prelude.{
  Bool, List, Option, String, [], false, is_sha256, refl, some, true, ◌∷◌, ◌≡◌,
}

-- Python's `a; b`, for statements that may raise.
abbrev pub both : Result (Unit {0}) → Result (Unit {0}) → Result (Unit {0})
both (ok tt) r = r
both (err e) r = err e

strict_float : Float → Result (Unit {0})
strict_float (finite m k) = ok tt
strict_float _ = err value_error

strict_key : Value → Result (Unit {0})
strict_key (str s) = ok tt
strict_key _ = err type_error

unfoldable mutual
  unfolding strict_float strict_key

  pub require_strict_json : Value → Result (Unit {0})
  require_strict_json null = ok tt
  require_strict_json (bool b) = ok tt
  require_strict_json (int n) = ok tt
  require_strict_json (str s) = ok tt
  require_strict_json (float x) = strict_float x
  require_strict_json (list xs) = require_strict_items xs
  require_strict_json (tuple xs) = require_strict_items xs
  require_strict_json (dict es) = require_strict_entries es
  require_strict_json other = err type_error

  pub require_strict_items : Items → Result (Unit {0})
  require_strict_items nil = ok tt
  require_strict_items (item v xs) = both (require_strict_json v) (require_strict_items xs)

  pub require_strict_entries : Entries → Result (Unit {0})
  require_strict_entries end = ok tt
  require_strict_entries (entry k v es) =
      both (strict_key k) (both (require_strict_json v) (require_strict_entries es))

unfoldable pub is_dict : Value → Bool
is_dict (dict es) = true
is_dict _ = false

-- json.dumps with sorted keys and no spaces, json.loads, and the hex SHA-256 of the UTF-8 text.
pub record Codec : Type 0 where
  pub dumps : Value → String
  pub loads : String → Option Value
  pub sha256 : String → String

-- What the source relies on: the decoder reads back what the encoder wrote, as a value with the
-- same text, and a digest is 64 lowercase hexadecimal digits.
pub record IsFaithful (c : Codec) : Type 0 where
  pub reread : Value → Value
  pub reloads : (v : Value) → require_strict_json v ≡ ok tt → c.loads (c.dumps v) ≡ some (reread v)
  pub same_text : (v : Value) → require_strict_json v ≡ ok tt → c.dumps (reread v) ≡ c.dumps v
  pub still_strict :
      (v : Value) → require_strict_json v ≡ ok tt → require_strict_json (reread v) ≡ ok tt
  pub still_dict : (v : Value) → require_strict_json v ≡ ok tt → is_dict (reread v) ≡ is_dict v
  pub hex_digest : (s : String) → is_sha256 (c.sha256 s) ≡ true

abbrev pub returning {ℓ} : {A : Type ℓ} → Result (Unit {0}) → A → Result A
returning (ok tt) a = ok a
returning (err e) a = err e

unfoldable pub canonical_json : Codec → Value → Result String
canonical_json c v = returning (require_strict_json v) (c.dumps v)

abbrev digest : Codec → Result String → Result String
digest c (ok text) = ok (c.sha256 text)
digest c (err e) = err e

unfoldable pub content_hash : Codec → Value → Result String
content_hash c v = digest c (canonical_json c v)

-- list(values), for a sequence of texts
unfoldable pub text_items : List String → Items
text_items [] = nil
text_items (s ∷ ss) = item (str s) (text_items ss)

pub canonical_json-ok :
    (c : Codec) (v : Value) {text : String}
    → canonical_json c v ≡ ok text
    → (require_strict_json v ≡ ok tt) × (text ≡ c.dumps v)
unfolding canonical_json
canonical_json-ok c v h = returning-ok (require_strict_json v) (c.dumps v) h
  where
    returning-ok :
        (r : Result (Unit {0})) (a : String) {b : String}
        → returning r a ≡ ok b
        → (r ≡ ok tt) × (b ≡ a)
    returning-ok (ok u) a e = (refl, cc)
    returning-ok (err x) a e = cc
