-- ===== src/Contracts/Meets.antt =====
-- What the keywords of a schema ask together of a value, for `validate` of
-- qingtian_core/contracts.py.
-- what the keywords of texts ask of a text
use qingtian_ai.Contracts.{Patterns, has_type, is_datetime, supported_keywords}
use qingtian_ai.Contracts.Equality.{json_equal, lt_number, number_of}
use qingtian_ai.Contracts.Keywords.{
  InEntries, IsChoice, IsChoice-iff, and_iff, count_iff, entry_here, entry_later, format_iff,
  given_iff, has_type_lem, kinds, matches_iff, three_iff,
}
use qingtian_ai.Contracts.Lint.{are_types, declared_types, if_given}
use qingtian_ai.Contracts.Validate.{
  dict_or_empty, has_declared_type, is_choice, is_false, is_numeric, matches, only_keys_of,
  required_of, texts_or_none, valid_here, valid_names, valid_number, valid_size, valid_text,
}
use qingtian_ai.Json.{
  Entries, Value, bool, dict, end, entry, float, int, list, null, other, str, tuple,
}
use qingtian_ai.Json.Dicts.{count_items, get, get_at, has_names, is_this_text, only_names}
use qingtian_ai.Prelude.{
  &&-left, &&-right, Bool, Bool-cases, List, String, [], all, any, arith, codes, eq_self, eq→≡,
  false, inl, inr, is_some, length, not, refl, some, subst, sym, true, ℕ, ◌&&◌, ◌==◌, ◌||◌, ◌↔◌,
  ◌∙◌, ◌∷◌, ◌≡◌, ◌≤◌,
}
use qingtian_ai.Prelude.Int.{pos}

abbrev pub TextMeets : Patterns → Value → Entries → Type 0
TextMeets e (str t) s =
    ((n : ℕ) → get "minLength" s ≡ some (int (pos n)) → n ≤ length (codes t))
    × ((w : Value)
        → get "pattern" s ≡ some w
        → (p : String) × (w ≡ str p) × (e.searches p t ≡ true))
    × ((w : Value) → get "format" s ≡ some w → (w ≡ str "date-time") × (is_datetime e t ≡ true))
TextMeets e _ s = Unit

-- "minItems"
abbrev pub SizeMeets : Value → Entries → Type 0
SizeMeets (list xs) s = (n : ℕ) → get "minItems" s ≡ some (int (pos n)) → n ≤ count_items xs
SizeMeets _ s = Unit

-- "required", and "additionalProperties" that is false
abbrev pub NamesMeet : Value → Entries → Type 0
NamesMeet (dict es) s =
    ((name : String)
      → any (λ n. n == name) (required_of (get "required" s)) ≡ true
      → is_some (get name es) ≡ true)
    × ((w : Value)
        → get "additionalProperties" s ≡ some w
        → w ≡ bool false
        → (k u : Value) → InEntries k u es
        → is_some (get_at k (dict_or_empty (get "properties" s))) ≡ true)
NamesMeet _ s = Unit

-- "type"
abbrev pub TypeMeets : Value → Value → Type 0
TypeMeets v null = Unit
TypeMeets v d =
    (are_types (declared_types d) ≡ true)
    × (any (λ name. any (λ k. name == k) (kinds v)) (texts_or_none (declared_types d)) ≡ true)

trivially : (true ≡ true) ↔ Unit {0}
trivially = (λ _. tt, λ _. refl)

some_type_iff :
    (v d : Value)
    → ((are_types (declared_types d) && any (has_type v) (texts_or_none (declared_types d))) ≡ true)
      ↔ ((are_types (declared_types d) ≡ true)
          × (any (λ name. any (λ k. name == k) (kinds v)) (texts_or_none (declared_types d))
              ≡ true))
some_type_iff v d =
    and_iff _ _ (λ h. h, λ h. h)
      (
        λ h. sym (by_kinds (texts_or_none (declared_types d))) ∙ h,
        λ h. by_kinds (texts_or_none (declared_types d)) ∙ h,
      )
  where
    by_kinds :
        (names : List String)
        → any (has_type v) names ≡ any (λ name. any (λ k. name == k) (kinds v)) names
    by_kinds names i = any (λ name. has_type_lem v name i) names

type_iff : (v d : Value) → (has_declared_type v d ≡ true) ↔ TypeMeets v d
unfolding has_declared_type
type_iff v null = trivially
type_iff v (bool b) = some_type_iff v (bool b)
type_iff v (int n) = some_type_iff v (int n)
type_iff v (float x) = some_type_iff v (float x)
type_iff v (str s) = some_type_iff v (str s)
type_iff v (list xs) = some_type_iff v (list xs)
type_iff v (tuple xs) = some_type_iff v (tuple xs)
type_iff v (dict es) = some_type_iff v (dict es)
type_iff v other = some_type_iff v other

TextMeets-iff :
    (e : Patterns) (v : Value) (s : Entries) → (valid_text e v s ≡ true) ↔ TextMeets e v s
unfolding valid_text
TextMeets-iff e (str t) s =
    three_iff _ _ _ (count_iff (get "minLength" s) (length (codes t)))
      (given_iff (get "pattern" s) (matches e t) (matches_iff e t))
      (given_iff (get "format" s) (λ f. is_this_text "date-time" f && is_datetime e t)
        (format_iff e t))
TextMeets-iff e null s = trivially
TextMeets-iff e (bool b) s = trivially
TextMeets-iff e (int n) s = trivially
TextMeets-iff e (float x) s = trivially
TextMeets-iff e (list xs) s = trivially
TextMeets-iff e (tuple xs) s = trivially
TextMeets-iff e (dict es) s = trivially
TextMeets-iff e other s = trivially

size_iff : (v : Value) (s : Entries) → (valid_size v s ≡ true) ↔ SizeMeets v s
unfolding valid_size
size_iff (list xs) s = count_iff (get "minItems" s) (count_items xs)
size_iff null s = trivially
size_iff (bool b) s = trivially
size_iff (int n) s = trivially
size_iff (float x) s = trivially
size_iff (str t) s = trivially
size_iff (tuple xs) s = trivially
size_iff (dict es) s = trivially
size_iff other s = trivially

-- "minimum"
abbrev pub NumberMeets : Value → Entries → Type 0
NumberMeets v s =
    is_numeric v ≡ true
    → (w : Value) → get "minimum" s ≡ some w
    → lt_number (number_of v) (number_of w) ≡ false

not_iff : (b : Bool) → (not b ≡ true) ↔ (b ≡ false)
not_iff b = (λ h. ground (arith, h), λ h. ground (arith, h))

unless_iff : {P : Type 0} (a b : Bool) → (b ≡ true) ↔ P → ((not a || b) ≡ true) ↔ (a ≡ true → P)
unless_iff true b f = (λ h _. f.0 h, λ g. f.1 (g refl))
unless_iff false b f = (λ _ h. absurd (cc), λ _. refl)

number_iff : (v : Value) (s : Entries) → (valid_number v s ≡ true) ↔ NumberMeets v s
unfolding valid_number
number_iff v s = unless_iff (is_numeric v) _ (
    given_iff (get "minimum" s) (λ least. not (lt_number (number_of v) (number_of least)))
      (λ w. not_iff (lt_number (number_of v) (number_of w))))

all-holds :
    (p : String → Bool) (names : List String)
    → all p names ≡ true
    → (name : String) → any (λ n. n == name) names ≡ true
    → p name ≡ true
unfolding all any
all-holds p [] h name m = absurd (cc)
all-holds p (n ∷ names) h name m = elim (Bool-cases (n == name)) [
  | inl e ↦ subst (λ x. p x ≡ true) (eq→≡ n name e) (&&-left _ _ h)
  | inr e ↦ all-holds p names (&&-right _ _ h) name (ground (arith, m, e))
]

holds-all :
    (p : String → Bool) (names : List String)
    → ((name : String) → any (λ n. n == name) names ≡ true → p name ≡ true)
    → all p names ≡ true
unfolding all any
holds-all p [] h = refl
holds-all p (n ∷ names) h =
    rw (h n (rw (eq_self n) refl)) (holds-all p names (λ name m. h name (rw m (ground arith))))

only_keys-has :
    (ps es : Entries) (k u : Value)
    → only_keys_of ps es ≡ true
    → InEntries k u es
    → is_some (get_at k ps) ≡ true
unfolding only_keys_of
only_keys-has ps end k u h m = elim m [ ]
only_keys-has ps (entry j w es) k u h entry_here = &&-left _ _ h
only_keys-has ps (entry j w es) k u h (entry_later m) = only_keys-has ps es k u (&&-right _ _ h) m

has-only_keys :
    (ps es : Entries)
    → ((k u : Value) → InEntries k u es → is_some (get_at k ps) ≡ true)
    → only_keys_of ps es ≡ true
unfolding only_keys_of
has-only_keys ps end h = refl
has-only_keys ps (entry j w es) h =
    rw (h j w entry_here) (has-only_keys ps es (λ k u m. h k u (entry_later m)))

closed_iff :
    (ps es : Entries) (w : Value)
    → ((not (is_false w) || only_keys_of ps es) ≡ true)
      ↔ (w ≡ bool false → (k u : Value) → InEntries k u es → is_some (get_at k ps) ≡ true)
unfolding is_false
closed_iff ps es w = (
  λ h e k u m.
      only_keys-has ps es k u (subst (λ x. (not (is_false x) || only_keys_of ps es) ≡ true) e h) m,
  λ g. back w g,
)
  where
    back :
        (x : Value)
        → (x ≡ bool false → (k u : Value) → InEntries k u es → is_some (get_at k ps) ≡ true)
        → (not (is_false x) || only_keys_of ps es) ≡ true
    back (bool false) g = has-only_keys ps es (g refl)
    back _ g = refl

names_iff : (v : Value) (s : Entries) → (valid_names v s ≡ true) ↔ NamesMeet v s
unfolding valid_names has_names
names_iff (dict es) s =
    and_iff _ _
      (
        all-holds (λ name. is_some (get name es)) (required_of (get "required" s)),
        holds-all (λ name. is_some (get name es)) (required_of (get "required" s)),
      )
      (given_iff (get "additionalProperties" s) _
        (closed_iff (dict_or_empty (get "properties" s)) es))
names_iff null s = trivially
names_iff (bool b) s = trivially
names_iff (int n) s = trivially
names_iff (float x) s = trivially
names_iff (str t) s = trivially
names_iff (list xs) s = trivially
names_iff (tuple xs) s = trivially
names_iff other s = trivially

-- A value meets the keywords of a schema, none of which is unknown.
pub record Meets (e : Patterns) (v : Value) (s : Entries) : Type 0 where
  pub known : only_names supported_keywords s ≡ true
  pub of_type : (d : Value) → get "type" s ≡ some d → TypeMeets v d
  pub constant : (w : Value) → get "const" s ≡ some w → json_equal v w ≡ true
  pub chooses : (w : Value) → get "enum" s ≡ some w → IsChoice v w
  pub as_text : TextMeets e v s
  pub as_number : NumberMeets v s
  pub as_list : SizeMeets v s
  pub as_object : NamesMeet v s

pub Meets-iff : (e : Patterns) (v : Value) (s : Entries) → (valid_here e v s ≡ true) ↔ Meets e v s
unfolding valid_here
Meets-iff e v s =
    let parts =
      and_iff _ _
        (and_iff _ _
          (and_iff _ _
            (and_iff _ _
              (and_iff _ _
                (three_iff (only_names supported_keywords s)
                  (if_given (get "type" s) (has_declared_type v))
                  (if_given (get "const" s) (json_equal v)) (λ h. h, λ h. h)
                  (given_iff (get "type" s) (has_declared_type v) (type_iff v))
                  (given_iff (get "const" s) (json_equal v) (λ w. (λ h. h, λ h. h))))
                (given_iff (get "enum" s) (is_choice v) (IsChoice-iff v)))
              (TextMeets-iff e v s))
            (number_iff v s))
          (size_iff v s))
        (names_iff v s) in
    (
      λ h.
          let (((((head, chosen_one), texts), numbers), sizes), names) = parts.0 h in
          record {
            known = head.0;
            of_type = head.1;
            constant = head.2;
            chooses = chosen_one;
            as_text = texts;
            as_number = numbers;
            as_list = sizes;
            as_object = names;
          },
      λ m. parts.1 (
        ((((((m.known, m.of_type, m.constant), m.chooses), m.as_text), m.as_number)), m.as_list),
        m.as_object,
      ),
    )
