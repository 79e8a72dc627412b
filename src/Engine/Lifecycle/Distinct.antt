-- ===== src/Engine/Lifecycle/Distinct.antt =====
-- Tables whose rows have distinct keys: the primary keys of the lifecycle's tables.
use qingtian_ai.Engine.Lifecycle.{
  engine_task_key, execution_key, handoff_key, intake_key, managed_run_key, notice_key, version_key,
}
use qingtian_ai.Prelude.{
  All, Bool, Bool-cases, List, String, [], arith, eq_iff, eq_self, eq→≡, false, filter,
  if◌then◌else◌, inl, inr, none, refl, some, subst, sym, ◌==◌, ◌∙◌, ◌∷◌, ◌≡◌,
}
use qingtian_ai.Store.Table.{Keyed, find, find-insert, find-update, insert, update}

module _ {A : Type 0} ⦃e : Keyed A⦄ where
  abbrev pub Distinct : List A → Type 0
  Distinct [] = Unit
  Distinct (r ∷ t) = (find (e.key r) t ≡ none) × Distinct t

  absent-update :
      (k : String) (f : A → A) (t : List A) (j : String)
      → ((r : A) → e.key (f r) ≡ e.key r)
      → find j t ≡ none
      → find j (update k f t) ≡ none
  absent-update k f t j h p = rw (find-update k f t j h, p) (ground arith)

  pub Distinct-update :
      (k : String) (f : A → A) (t : List A)
      → ((r : A) → e.key (f r) ≡ e.key r)
      → Distinct t
      → Distinct (update k f t)
  unfolding update
  Distinct-update k f [] h d = tt
  Distinct-update k f (r ∷ t) h d =
      let rest = Distinct-update k f t h d.1 in
      let free = absent-update k f t (e.key r) h d.0 in
      elim (Bool-cases (e.key r == k)) [
        | inl b ↦ rw b (subst (λ j. find j (update k f t) ≡ none) (sym (h r)) free, rest)
        | inr b ↦ rw b (free, rest)
      ]

  absent-insert :
      (r : A) (t : List A) (j : String)
      → (j == e.key r) ≡ false
      → find (e.key r) t ≡ none
      → find j t ≡ none
      → find j (insert r t) ≡ none
  absent-insert r t j apart free h =
      rw (find-insert r t j free) (ground (arith, eq_iff (e.key r) j, eq_iff j (e.key r)))

  pub Distinct-insert :
      (r : A) (t : List A) → find (e.key r) t ≡ none → Distinct t → Distinct (insert r t)
  unfolding insert find
  Distinct-insert r [] p d = (refl, tt)
  Distinct-insert r (x ∷ t) p d = elim (Bool-cases (e.key x == e.key r)) [
    | inl b ↦ absurd (cc (subst (λ c. (if c then some x else find (e.key r) t) ≡ none) b p))
    | inr b ↦
        let free : find (e.key r) t ≡ none =
          subst (λ c. (if c then some x else find (e.key r) t) ≡ none) b p in
        (absent-insert r t (e.key x) b free d.0, Distinct-insert r t free d.1)
  ]

  absent-filter :
      (p : A → Bool) (t : List A) (j : String) → find j t ≡ none → find j (filter p t) ≡ none
  unfolding find filter
  absent-filter p [] j h = refl
  absent-filter p (r ∷ t) j h = ground (arith, absent-filter p t j)

  pub Distinct-filter : (p : A → Bool) (t : List A) → Distinct t → Distinct (filter p t)
  unfolding filter
  Distinct-filter p [] d = tt
  Distinct-filter p (r ∷ t) d = elim (Bool-cases (p r)) [
    | inl b ↦ rw b (absent-filter p t (e.key r) d.0, Distinct-filter p t d.1)
    | inr b ↦ rw b (Distinct-filter p t d.1)
  ]

  -- every row is the one that its key finds
  abbrev pub Stored : List A → List A → Type 0
  Stored t = All (λ r. find (e.key r) t ≡ some r)

  Stored-cons : (r : A) (t xs : List A) → find (e.key r) t ≡ none → Stored t xs → Stored (r ∷ t) xs
  unfolding find
  Stored-cons r t [] h s = tt
  Stored-cons r t (x ∷ xs) h s = elim (Bool-cases (e.key r == e.key x)) [
    | inl b ↦ absurd (cc (sym (subst (λ j. find j t ≡ none) (eq→≡ _ _ b) h) ∙ s.0))
    | inr b ↦ (rw b s.0, Stored-cons r t xs h s.1)
  ]

  pub Distinct-Stored : (t : List A) → Distinct t → Stored t t
  unfolding find
  Distinct-Stored [] d = tt
  Distinct-Stored (r ∷ t) d =
      (rw (eq_self (e.key r)) refl, Stored-cons r t t d.0 (Distinct-Stored t d.1))

  find-update_other :
      (k : String) (f : A → A) (t : List A) (j : String) {x : A}
      → ((x : A) → e.key (f x) ≡ e.key x)
      → (j == k) ≡ false
      → find j t ≡ some x
      → find j (update k f t) ≡ some x
  find-update_other k f t j h apart p =
      rw (find-update k f t j h, p) (ground (arith, eq_iff k j, eq_iff j k))

  -- a write by the key of another row
  pub Stored-update :
      (r : A) (f : A → A) (t xs : List A)
      → ((x : A) → e.key (f x) ≡ e.key x)
      → find (e.key r) xs ≡ none
      → Stored t xs
      → Stored (update (e.key r) f t) xs
  unfolding find
  Stored-update r f t [] h p s = tt
  Stored-update r f t (x ∷ xs) h p s = elim (Bool-cases (e.key x == e.key r)) [
    | inl b ↦ absurd (cc (subst (λ c. (if c then some x else find (e.key r) xs) ≡ none) b p))
    | inr b ↦ (
      find-update_other (e.key r) f t (e.key x) h b s.0,
      Stored-update r f t xs h (subst (λ c. (if c then some x else find (e.key r) xs) ≡ none) b p)
          s.1,
    )
  ]
