-- ===== src/Contracts/Keywords.antt =====
-- What each keyword of a schema asks of a value, said without `validate` of
-- qingtian_core/contracts.py; two values are equal as its `_json_equal` has it.
use qingtian_ai.Contracts.{
  Patterns, has_type, is_array, is_boolean, is_datetime, is_integer, is_null, is_number, is_string,
}
use qingtian_ai.Contracts.Equality.{json_equal}
use qingtian_ai.Contracts.Lint.{if_given}
use qingtian_ai.Contracts.Validate.{chosen, count_or_zero, is_choice, matches}
use qingtian_ai.Json.{
  Entries, Items, Value, bool, dict, entry, finite, float, infinite, int, is_dict, item, list, nan,
  nil, null, other, str, tuple,
}
use qingtian_ai.Json.Dicts.{is_this_text}
use qingtian_ai.Prelude.{
  &&-left, &&-right, Bool, Bool-cases, List, Option, String, [], any, ap, arith, eq→≡, false, inl,
  inr, leb, none, not-both, refl, some, subst, sym, true, ℕ, ◌&&◌, ◌==◌, ◌↔◌, ◌∙◌, ◌∷◌, ◌≡◌, ◌≤◌,
  ◌⊎◌,
}
use qingtian_ai.Prelude.Int.{negsuc, pos}

-- membership in a list and in a dict
pub data InItems (v : Value) : Items → Type 0 where
  item_here : {xs : Items} → InItems v (item v xs)
  item_later : {w : Value} {xs : Items} → InItems v xs → InItems v (item w xs)

pub data InEntries (k v : Value) : Entries → Type 0 where
  entry_here : {es : Entries} → InEntries k v (entry k v es)
  entry_later : {j w : Value} {es : Entries} → InEntries k v es → InEntries k v (entry j w es)

-- the names of the JSON types of a value
abbrev pub kinds : Value → List String
kinds null = "null" ∷ []
kinds (bool b) = "boolean" ∷ []
kinds (int n) = "integer" ∷ "number" ∷ []
kinds (float (finite m k)) = "number" ∷ []
kinds (str s) = "string" ∷ []
kinds (list xs) = "array" ∷ []
kinds (dict es) = "object" ∷ []
kinds _ = []

pub has_type_lem : (v : Value) (name : String) → has_type v name ≡ any (λ k. name == k) (kinds v)
unfolding has_type any is_null is_boolean is_integer is_number is_string is_array is_dict
has_type_lem null name = ground arith
has_type_lem (bool b) name = ground arith
has_type_lem (int n) name = ground arith
has_type_lem (float (finite m k)) name = ground arith
has_type_lem (float (infinite b)) name = ground arith
has_type_lem (float nan) name = ground arith
has_type_lem (str s) name = ground arith
has_type_lem (list xs) name = ground arith
has_type_lem (tuple xs) name = ground arith
has_type_lem (dict es) name = ground arith
has_type_lem other name = ground arith

pub and_iff :
    {P Q : Type 0} (a b : Bool) → (a ≡ true) ↔ P → (b ≡ true) ↔ Q → ((a && b) ≡ true) ↔ (P × Q)
and_iff a b f g =
    (λ h. (f.0 (&&-left a b h), g.0 (&&-right a b h)), λ h. both_so a b (f.1 h.0) (g.1 h.1))
  where
    both_so : (c d : Bool) → c ≡ true → d ≡ true → (c && d) ≡ true
    both_so c d p q = ground arith

pub three_iff :
    {P Q R : Type 0} (a b c : Bool)
    → (a ≡ true) ↔ P
    → (b ≡ true) ↔ Q
    → (c ≡ true) ↔ R
    → ((a && b && c) ≡ true) ↔ (P × Q × R)
three_iff a b c f g h = (
  λ x.
      let both = &&-left (a && b) c x in
      (f.0 (&&-left a b both), g.0 (&&-right a b both), h.0 (&&-right (a && b) c x)),
  λ x. all_so a b c (f.1 x.0) (g.1 x.1) (h.1 x.2),
)
  where
    all_so : (d k l : Bool) → d ≡ true → k ≡ true → l ≡ true → (d && k && l) ≡ true
    all_so d k l p q r = ground arith

-- a test of a keyword, if the schema has it
pub given_iff :
    {P : Value → Type 0} (o : Option Value) (f : Value → Bool)
    → ((w : Value) → (f w ≡ true) ↔ P w)
    → (if_given o f ≡ true) ↔ ((w : Value) → o ≡ some w → P w)
given_iff none f h = (λ _ w e. absurd (cc), λ _. refl)
given_iff {P} (some x) f h =
    (λ t w e. subst P (some_value x w e) ((h x).0 t), λ g. (h x).1 (g x refl))
  where
    some_value : (x w : Value) → some x ≡ some w → x ≡ w
    some_value x w e = cc

leb_iff : (a b : ℕ) → (leb a b ≡ true) ↔ (a ≤ b)
leb_iff a b = (λ h. ground (arith, h), λ h. ground (arith, h))

-- a bound of a count that the schema gives, zero if it gives none
pub count_iff :
    (o : Option Value) (m : ℕ)
    → (leb (count_or_zero o) m ≡ true) ↔ ((n : ℕ) → o ≡ some (int (pos n)) → n ≤ m)
unfolding count_or_zero
count_iff none m = (λ _ n e. absurd (cc), λ _. ground arith)
count_iff (some null) m = (λ _ n e. absurd (cc), λ _. ground arith)
count_iff (some (bool b)) m = (λ _ n e. absurd (cc), λ _. ground arith)
count_iff (some (int (pos k))) m = (
  λ h n e. let same : k ≡ n = cc e in subst (λ x. x ≤ m) same ((leb_iff k m).0 h),
  λ g. (leb_iff k m).1 (g k refl),
)
count_iff (some (int (negsuc k))) m = (λ _ n e. absurd (cc), λ _. ground arith)
count_iff (some (float x)) m = (λ _ n e. absurd (cc), λ _. ground arith)
count_iff (some (str s)) m = (λ _ n e. absurd (cc), λ _. ground arith)
count_iff (some (list xs)) m = (λ _ n e. absurd (cc), λ _. ground arith)
count_iff (some (tuple xs)) m = (λ _ n e. absurd (cc), λ _. ground arith)
count_iff (some (dict es)) m = (λ _ n e. absurd (cc), λ _. ground arith)
count_iff (some other) m = (λ _ n e. absurd (cc), λ _. ground arith)

chosen-has :
    (v : Value) (xs : Items)
    → chosen v xs ≡ true
    → (c : Value) × InItems c xs × (json_equal v c ≡ true)
unfolding chosen
chosen-has v nil h = absurd (cc)
chosen-has v (item w xs) h = elim (Bool-cases (json_equal v w)) [
  | inl e ↦ (w, item_here, e)
  | inr e ↦ let (c, m, same) = chosen-has v xs (ground (arith, h, e)) in (c, item_later m, same)
]

has-chosen : (v c : Value) (xs : Items) → InItems c xs → json_equal v c ≡ true → chosen v xs ≡ true
unfolding chosen
has-chosen v c nil m e = elim m [ ]
has-chosen v c (item w xs) item_here e = rw e refl
has-chosen v c (item w xs) (item_later m) e =
    let rest = has-chosen v c xs m e in ground (arith, rest)

-- "enum": the value is equal to one of a list of choices
abbrev pub IsChoice : Value → Value → Type 0
IsChoice v w =
    (choices : Items) × (w ≡ list choices)
    × (c : Value) × InItems c choices
    × (json_equal v c ≡ true)

pub IsChoice-iff : (v w : Value) → (is_choice v w ≡ true) ↔ IsChoice v w
unfolding is_choice
IsChoice-iff v (list xs) = (
  λ h. let (c, m, same) = chosen-has v xs h in (xs, refl, c, m, same),
  λ x.
      let same : x.0 ≡ xs = cc (x.1) in
      subst (λ ys. chosen v ys ≡ true) same (has-chosen v x.2 x.0 x.3 x.4),
)
IsChoice-iff v null = (λ h. absurd (cc), λ x. absurd (cc (x.1)))
IsChoice-iff v (bool b) = (λ h. absurd (cc), λ x. absurd (cc (x.1)))
IsChoice-iff v (int n) = (λ h. absurd (cc), λ x. absurd (cc (x.1)))
IsChoice-iff v (float y) = (λ h. absurd (cc), λ x. absurd (cc (x.1)))
IsChoice-iff v (str s) = (λ h. absurd (cc), λ x. absurd (cc (x.1)))
IsChoice-iff v (tuple xs) = (λ h. absurd (cc), λ x. absurd (cc (x.1)))
IsChoice-iff v (dict es) = (λ h. absurd (cc), λ x. absurd (cc (x.1)))
IsChoice-iff v other = (λ h. absurd (cc), λ x. absurd (cc (x.1)))

-- "pattern" and "format" speak of a text
text_iff :
    (p : String → Bool) (f : Value → Bool) (w : Value)
    → ((s : String) → f (str s) ≡ p s)
    → ((s : String) → w ≡ str s → ⊥) ⊎ ((s : String) × (w ≡ str s))
    → (((s : String) → w ≡ str s → ⊥) → f w ≡ false)
    → (f w ≡ true) ↔ ((s : String) × (w ≡ str s) × (p s ≡ true))
text_iff p f w on_text (inl no_text) off =
    (λ h. absurd (not-both (off no_text) h), λ x. absurd (no_text x.0 x.1))
text_iff p f w on_text (inr (s, e)) off = (
  λ h. (s, e, sym (on_text s) ∙ subst (λ x. f x ≡ true) e h),
  λ x. subst (λ y. f y ≡ true) (sym x.1) (on_text x.0 ∙ x.2),
)

-- a value is a text, or it is none
is_text_or : (w : Value) → ((s : String) → w ≡ str s → ⊥) ⊎ ((s : String) × (w ≡ str s))
is_text_or (str s) = inr (s, refl)
is_text_or null = inl (λ s e. cc e)
is_text_or (bool b) = inl (λ s e. cc e)
is_text_or (int n) = inl (λ s e. cc e)
is_text_or (float x) = inl (λ s e. cc e)
is_text_or (list xs) = inl (λ s e. cc e)
is_text_or (tuple xs) = inl (λ s e. cc e)
is_text_or (dict es) = inl (λ s e. cc e)
is_text_or other = inl (λ s e. cc e)

pub matches_iff :
    (e : Patterns) (t : String) (w : Value)
    → (matches e t w ≡ true) ↔ ((s : String) × (w ≡ str s) × (e.searches s t ≡ true))
unfolding matches
matches_iff e t w =
    text_iff (λ s. e.searches s t) (matches e t) w (λ s. refl) (is_text_or w) (off w)
  where
    off : (x : Value) → ((s : String) → x ≡ str s → ⊥) → matches e t x ≡ false
    off (str s) h = absurd (h s refl)
    off _ h = refl

date_name : (x : Value) → is_this_text "date-time" x ≡ true → x ≡ str "date-time"
unfolding is_this_text
date_name (str s) h = ap str (sym (eq→≡ "date-time" s h))
date_name _ h = absurd (cc)

pub format_iff :
    (e : Patterns) (t : String) (w : Value)
    → ((is_this_text "date-time" w && is_datetime e t) ≡ true)
      ↔ ((w ≡ str "date-time") × (is_datetime e t ≡ true))
unfolding is_this_text
format_iff e t w = (
  λ h. (
    date_name w (&&-left (is_this_text "date-time" w) (is_datetime e t) h),
    &&-right (is_this_text "date-time" w) (is_datetime e t) h,
  ),
  λ x. subst (λ y. (is_this_text "date-time" y && is_datetime e t) ≡ true) (sym x.0) (rw x.1 refl),
)
