-- ===== src/Store/Table.antt =====
-- A table of SQLite with a text primary key: its rows in the order of insertion. INSERT refuses a
-- key that is taken, UPDATE and DELETE act on every row with the key, SELECT reads by the key.
use mathlib.Core.Option
use qingtian_ai.Prelude.{
  String, ◌≡◌, refl, Bool, false, true, Option, none, some, List, [], ◌∷◌, ◌++◌, arith, eq_iff,
  eq_self, eq→≡, any, first, ◌==◌, ◌⊎◌, ◌≢◌, inl, inr, sym, ◌∙◌, subst, Bool-cases, if◌then◌else◌,
}

pub record Keyed (A : Type 0) : Type 0 where
  pub key : A → String

module _ {A : Type 0} ⦃e : Keyed A⦄ where
  unfoldable pub find : String → List A → Option A
  find k [] = none
  find k (r ∷ t) = if e.key r == k then some r else find k t

  unfoldable pub insert : A → List A → List A
  insert r t = t ++ r ∷ []

  unfoldable pub update : String → (A → A) → List A → List A
  update k f [] = []
  update k f (r ∷ t) = (if e.key r == k then f r else r) ∷ update k f t

  unfoldable pub delete : String → List A → List A
  delete k [] = []
  delete k (r ∷ t) = let rest = delete k t in if e.key r == k then rest else r ∷ rest

  pub find-insert :
      (r : A) (t : List A) (j : String)
      → find (e.key r) t ≡ none
      → find j (insert r t) ≡ (if e.key r == j then some r else find j t)
  unfolding find insert
  find-insert r [] j h = refl
  find-insert r (x ∷ t) j h =
      ground (
        arith,
        find-insert r t j,
        eq_iff (e.key x) (e.key r),
        eq_iff (e.key x) j,
        eq_iff (e.key r) j,
      )

  pub find-insert_self :
      (r : A) (t : List A) → find (e.key r) t ≡ none → find (e.key r) (insert r t) ≡ some r
  find-insert_self r t h =
      rw (find-insert r t (e.key r) h) (ground (arith, eq_iff (e.key r) (e.key r)))

  pub find-update :
      (k : String) (f : A → A) (t : List A) (j : String)
      → ((r : A) → e.key (f r) ≡ e.key r)
      → find j (update k f t) ≡ (if k == j then Option.map f (find j t) else find j t)
  unfolding find update
  find-update k f [] j h = ground arith
  find-update k f (x ∷ t) j h =
      ground (arith, find-update k f t j, h x, eq_iff (e.key x) k, eq_iff (e.key x) j, eq_iff k j)

  pub find-update_self :
      (k : String) (f : A → A) (t : List A) {r : A}
      → ((x : A) → e.key (f x) ≡ e.key x)
      → find k t ≡ some r
      → find k (update k f t) ≡ some (f r)
  find-update_self k f t {r} h p = rw (find-update k f t k h, p) (ground (arith, eq_iff k k))

  pub find-delete :
      (k : String) (t : List A) (j : String)
      → find j (delete k t) ≡ (if k == j then none else find j t)
  unfolding find delete
  find-delete k [] j = ground arith
  find-delete k (x ∷ t) j =
      ground (arith, find-delete k t j, eq_iff (e.key x) k, eq_iff (e.key x) j, eq_iff k j)

  -- a query with LIMIT 1 that returns no row
  pub any-find :
      (p : A → Bool) (t : List A) (j : String) {r : A}
      → any p t ≡ false
      → find j t ≡ some r
      → p r ≡ false
  unfolding find any
  any-find p [] j h f = cc
  any-find p (x ∷ t) j {r} h f = ground (arith, any-find p t j {r = r})

  pub key-find : (t : List A) (j : String) {r : A} → find j t ≡ some r → e.key r ≡ j
  unfolding find
  key-find [] j f = cc
  key-find (x ∷ t) j {r} f = ground (arith, key-find t j {r = r}, eq_iff (e.key x) j)

  -- what a lookup after a write can have found
  pub insert-cases :
      (r : A) (t : List A) (j : String) {x : A}
      → find (e.key r) t ≡ none
      → find j (insert r t) ≡ some x
      → ((j ≡ e.key r) × (x ≡ r)) ⊎ (find j t ≡ some x)
  insert-cases r t j {x} h p =
      let q = sym (find-insert r t j h) ∙ p in
      elim (Bool-cases (e.key r == j)) [
        | inl b ↦
            inl (sym (eq→≡ _ _ b), cc (subst (λ b. (if b then some r else find j t) ≡ some x) b q))
        | inr b ↦ inr (subst (λ b. (if b then some r else find j t) ≡ some x) b q)
      ]

  pub update-cases :
      (k : String) (f : A → A) (t : List A) (j : String) {r x : A}
      → ((y : A) → e.key (f y) ≡ e.key y)
      → find k t ≡ some r
      → find j (update k f t) ≡ some x
      → ((j ≡ k) × (x ≡ f r)) ⊎ ((j ≢ k) × (find j t ≡ some x))
  update-cases k f t j {r} {x} h here p = elim (Bool-cases (k == j)) [
    | inl b ↦
        let same : k ≡ j = eq→≡ k j b in
        inl (
          sym same,
          cc (
              sym (find-update_self k f t h here)
              ∙ subst (λ i. find i (update k f t) ≡ some x) (sym same) p),
        )
    | inr b ↦ inr (
      λ same. absurd (cc (sym b ∙ subst (λ i. (k == i) ≡ true) (sym same) (eq_self k))),
      subst (λ b. (if b then Option.map f (find j t) else find j t) ≡ some x) b
          (sym (find-update k f t j h) ∙ p),
    )
  ]

  pub find-insert_old :
      (r : A) (t : List A) (j : String) {x : A} → find j t ≡ some x → find j (insert r t) ≡ some x
  unfolding find insert
  find-insert_old r [] j h = cc
  find-insert_old r (y ∷ t) j {x} h = ground (arith, find-insert_old r t j {x = x})

  pub find-update_old :
      (k : String) (f : A → A) (t : List A) (j : String) {x : A}
      → ((y : A) → e.key (f y) ≡ e.key y)
      → find j t ≡ some x
      → find j (update k f t) ≡ some (if k == j then f x else x)
  find-update_old k f t j {x} h p = rw (find-update k f t j h, p) (ground arith)

  pub find-empty : (k : String) {x : A} → find k [] ≢ some x
  unfolding find
  find-empty k h = cc

  pub find-nil : (k : String) → find k [] ≡ none
  unfolding find
  find-nil k = refl

  pub first-insert :
      (p : A → Bool) (r : A) (t : List A)
      → first p t ≡ none
      → p r ≡ true
      → first p (insert r t) ≡ some r
  unfolding first insert
  first-insert p r [] h q = ground arith
  first-insert p r (x ∷ t) h q = ground (arith, first-insert p r t)
