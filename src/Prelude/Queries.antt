-- ===== src/Prelude/Queries.antt =====
-- What holds of the rows of a query: some row passes a test, or there is no row.
use mathlib.Core.Bool.{Bool, true, false, not, ◌&&◌, ◌||◌}
use mathlib.Core.List.{List, [], ◌∷◌, ◌++◌, map}
use mathlib.Core.Logic.{inl, inr}
use mathlib.Core.Option.{none, some}
use mathlib.Core.Path.{◌≡◌, refl, ap, ◌∙◌}
use Prim.Native.Nat.{◌+◌, ◌≤◌}
use native.Mathlib.Omega.{arith}
use qingtian_ai.Prelude.Lists.{All, place, order_by}
use qingtian_ai.Prelude.Tests.{
  any, all, count, filter, first, is_empty, Bool-cases, if◌then◌else◌, &&-left, &&-right,
}

module _ {A : Type 0} (p : A → Bool) where
  pub any-place :
      (before : A → A → Bool) (x : A) (ys : List A) → any p (place before x ys) ≡ any p (x ∷ ys)
  unfolding any place
  any-place before x [] = refl
  any-place before x (y ∷ ys) = ground (arith, any-place before x ys)

  pub any-order_by : (before : A → A → Bool) (xs : List A) → any p (order_by before xs) ≡ any p xs
  unfolding any order_by
  any-order_by before [] = refl
  any-order_by before (x ∷ xs) =
      any-place before x (order_by before xs) ∙ ap (λ b. p x || b) (any-order_by before xs)

  pub any-filter : (q : A → Bool) (xs : List A) → any p (filter q xs) ≡ any (λ x. q x && p x) xs
  unfolding any filter
  any-filter q [] = refl
  any-filter q (x ∷ xs) = ground (arith, any-filter q xs)

  pub is_empty-filter : (xs : List A) → is_empty (filter p xs) ≡ not (any p xs)
  unfolding is_empty filter any
  is_empty-filter [] = refl
  is_empty-filter (x ∷ xs) = elim (Bool-cases (p x)) [
    | inl b ↦ rw b refl
    | inr b ↦ rw b (is_empty-filter xs)
  ]

pub is_empty-map : {A B : Type 0} (f : A → B) (xs : List A) → is_empty (map f xs) ≡ is_empty xs
unfolding is_empty
is_empty-map f [] = refl
is_empty-map f (x ∷ xs) = refl

pub is_empty-append :
    {A : Type 0} (xs ys : List A) → is_empty (xs ++ ys) ≡ (is_empty xs && is_empty ys)
unfolding is_empty
is_empty-append [] ys = refl
is_empty-append (x ∷ xs) ys = refl

module _ {A : Type 0} where
  pub any_mono :
      (p q : A → Bool) (xs : List A)
      → ((x : A) → p x ≡ true → q x ≡ true)
      → any p xs ≡ true
      → any q xs ≡ true
  unfolding any
  any_mono p q [] h e = absurd (cc)
  any_mono p q (x ∷ xs) h e = elim (Bool-cases (p x)) [
    | inl a ↦ rw (h x a) refl
    | inr a ↦ let rest = any_mono p q xs h (ground arith) in ground arith
  ]

  pub any-append : (p : A → Bool) (xs ys : List A) → any p (xs ++ ys) ≡ (any p xs || any p ys)
  unfolding any
  any-append p [] ys = refl
  any-append p (x ∷ xs) ys = ground (arith, any-append p xs ys)

  pub all-append : (p : A → Bool) (xs ys : List A) → all p (xs ++ ys) ≡ (all p xs && all p ys)
  unfolding all
  all-append p [] ys = refl
  all-append p (x ∷ xs) ys = ground (arith, all-append p xs ys)

  pub count-append_one :
      (p : A → Bool) (xs : List A) (x : A)
      → count p (xs ++ x ∷ []) ≡ count p xs + (if p x then 1 else 0)
  unfolding count
  count-append_one p [] x = ground arith
  count-append_one p (y ∷ xs) x = ground (arith, count-append_one p xs x)

  pub count_mono :
      (p q : A → Bool) (xs : List A) → ((x : A) → p x ≡ true → q x ≡ true) → count p xs ≤ count q xs
  unfolding count
  count_mono p q [] h = omega arith
  count_mono p q (x ∷ xs) h = ground (arith, count_mono p q xs h, h x)

  pub count_none : (p : A → Bool) (xs : List A) → All (λ x. p x ≡ false) xs → count p xs ≡ 0
  unfolding count
  count_none p [] h = refl
  count_none p (x ∷ xs) h = rw h.0 (count_none p xs h.1)

pub first-some :
    {A : Type 0} (p : A → Bool) (xs : List A) → any p xs ≡ true → (x : A) × (first p xs ≡ some x)
unfolding any first
first-some p [] h = absurd (cc)
first-some p (x ∷ xs) h = elim (Bool-cases (p x)) [
  | inl e ↦ (x, rw e refl)
  | inr e ↦ let (y, f) = first-some p xs (ground arith) in (y, rw e f)
]

pub All-weaken :
    {A : Type 0} {P Q : A → Type 0} (xs : List A) → ((x : A) → P x → Q x) → All P xs → All Q xs
All-weaken [] f h = tt
All-weaken (x ∷ xs) f h = (f x h.0, All-weaken xs f h.1)

pub filter_none :
    {A : Type 0} (p q : A → Bool) (xs : List A)
    → ((x : A) → p x ≡ true → q x ≡ false)
    → all p xs ≡ true
    → filter q xs ≡ []
unfolding all filter
filter_none p q [] h e = refl
filter_none p q (x ∷ xs) h e =
    rw (h x (&&-left (p x) (all p xs) e)) (filter_none p q xs h (&&-right (p x) (all p xs) e))

-- a query's rows, in any order, pass a test exactly if a row of the table does
pub query_exact :
    {A : Type 0} (before : A → A → Bool) (q p : A → Bool) (rows : List A)
    → any p (order_by before (filter q rows)) ≡ any (λ x. q x && p x) rows
query_exact before q p rows = any-order_by p before (filter q rows) ∙ any-filter p q rows

pub first-none : {A : Type 0} (p : A → Bool) (xs : List A) → any p xs ≡ false → first p xs ≡ none
unfolding any first
first-none p [] h = refl
first-none p (x ∷ xs) h = elim (Bool-cases (p x)) [
  | inl e ↦ absurd (cc (rw e at h))
  | inr e ↦ rw e (first-none p xs (ground (arith, h)))
]
