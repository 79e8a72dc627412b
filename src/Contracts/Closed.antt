-- ===== src/Contracts/Closed.antt =====
-- qingtian_core/contracts.py: a keyword that is not supported, in any part of a schema.
use qingtian_ai.Contracts.{Patterns, demand, strict, supported_keywords}
use qingtian_ai.Contracts.Lint.{
  lint, lint_each, lint_keywords, lint_properties, lint_schema, lint_subschemas,
}
use qingtian_ai.Contracts.Validate.{validate}
use qingtian_ai.Exec.{Result, err, ok}
use qingtian_ai.Json.{Codec, Entries, Value, both, dict, end, entry}
use qingtian_ai.Json.Dicts.{get, is_this_text, only_names}
use qingtian_ai.Prelude.{
  &&-left, &&-right, Bool, Bool-cases, String, arith, false, if◌then◌else◌, inl, inr, not, refl,
  some, subst, true, ◌&&◌, ◌||◌, ◌≡◌, ◌⊎◌,
}

-- A part of a schema: the schema, and the subschemas of its parts under "items" and "properties".
pub data Part (root : Entries) : Entries → Type 0 where
  whole : Part root root
  under_items : {es s : Entries} → Part root es → get "items" es ≡ some (dict s) → Part root s
  under_property :
      {es ps s : Entries} (name : String)
      → Part root es
      → get "properties" es ≡ some (dict ps)
      → get name ps ≡ some (dict s)
      → Part root s

pub both-ok : (m n : Result (Unit {0})) → both m n ≡ ok tt → (m ≡ ok tt) × (n ≡ ok tt)
both-ok (ok tt) n h = (refl, h)
both-ok (err e) n h = cc

pub demand-ok : (b : Bool) → demand b ≡ ok tt → b ≡ true
demand-ok true h = refl
demand-ok false h = cc

-- what the walk over the entries has checked under a key
guarded : (a b c d : Bool) → a ≡ true → ((not a || b) && c && d) ≡ true → b ≡ true
guarded a b c d p h = ground arith

guarded_next : (a b c d : Bool) → b ≡ true → (c && (not b || a) && d) ≡ true → a ≡ true
guarded_next a b c d p h = ground arith

some_same : {A : Type 0} {a b : A} → some a ≡ some b → a ≡ b
some_same h = cc

-- an entry that get has found is the first with its key, or stands behind it
get_cases :
    (name : String) (k v : Value) (rest : Entries) {w : Value}
    → get name (entry k v rest) ≡ some w
    → ((is_this_text name k ≡ true) × (v ≡ w)) ⊎ (get name rest ≡ some w)
unfolding get
get_cases name k v rest {w} g = elim (Bool-cases (is_this_text name k)) [
  | inl b ↦ inl (b, some_same (subst (λ c. (if c then some v else get name rest) ≡ some w) b g))
  | inr b ↦ inr (subst (λ c. (if c then some v else get name rest) ≡ some w) b g)
]

module _ (e : Patterns) where
  lint-items :
      (es : Entries) (v : Value)
      → lint_subschemas e es ≡ true
      → get "items" es ≡ some v
      → lint e v ≡ true
  unfolding lint_subschemas get
  lint-items end v h g = cc
  lint-items (entry k w rest) v h g = elim (get_cases "items" k w rest g) [
    | inl (b, same) ↦
        subst (λ x. lint e x ≡ true) same (guarded_next (lint e w) (is_this_text "items" k) _ _ b h)
    | inr later ↦ lint-items rest v (&&-right _ _ h) later
  ]

  lint-properties :
      (es : Entries) (v : Value)
      → lint_subschemas e es ≡ true
      → get "properties" es ≡ some v
      → lint_properties e v ≡ true
  unfolding lint_subschemas get
  lint-properties end v h g = cc
  lint-properties (entry k w rest) v h g = elim (get_cases "properties" k w rest g) [
    | inl (b, same) ↦
        subst (λ x. lint_properties e x ≡ true) same
          (guarded (is_this_text "properties" k) (lint_properties e w) _ _ b h)
    | inr later ↦ lint-properties rest v (&&-right _ _ h) later
  ]

  lint-each :
      (name : String) (ps : Entries) (v : Value)
      → lint_each e ps ≡ true
      → get name ps ≡ some v
      → lint e v ≡ true
  unfolding lint_each get
  lint-each name end v h g = cc
  lint-each name (entry k w rest) v h g = elim (get_cases name k w rest g) [
    | inl (b, same) ↦ subst (λ x. lint e x ≡ true) same (&&-right _ _ (&&-left _ _ h))
    | inr later ↦ lint-each name rest v (&&-right _ _ h) later
  ]

  Part-lint :
      (root es : Entries) → lint e (dict root) ≡ true → Part root es → lint e (dict es) ≡ true
  unfolding lint lint_properties
  Part-lint root es h whole = h
  Part-lint root es h (under_items {es = up} p g) =
      lint-items up (dict es) (&&-right _ _ (Part-lint root up h p)) g
  Part-lint root es h (under_property {es = up} {ps = ps} name p g q) =
      lint-each name ps (dict es)
        (lint-properties up (dict ps) (&&-right _ _ (Part-lint root up h p)) g) q

  keywords_supported :
      (es : Entries) → lint_keywords e es ≡ true → only_names supported_keywords es ≡ true
  unfolding lint_keywords
  keywords_supported es h = ground arith

  -- A schema that `validate` accepts for some document has no unsupported keyword in any of its
  -- parts, the subschemas under "items" and "properties", and theirs in turn: an unknown keyword
  -- makes `validate` raise.
  pub unknown_fails_closed :
      (c : Codec) (document : Value) (root es : Entries)
      → validate e c document (dict root) ≡ ok tt
      → Part root es
      → only_names supported_keywords es ≡ true
  unfolding validate lint_schema lint
  unknown_fails_closed c document root es accepts part =
      let (linted, _) = both-ok (lint_schema e (dict root)) _ accepts in
      let (_, checked) = both-ok (strict (dict root)) _ linted in
      keywords_supported es
        (&&-left _ _ (Part-lint root es (demand-ok (lint e (dict root)) checked) part))
