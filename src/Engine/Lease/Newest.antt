-- ===== src/Engine/Lease/Newest.antt =====
-- The newest item of a kind of evidence: what `ORDER BY id DESC` and `setdefault` in
-- qingtian_engine/coordinator.py find.
use qingtian_ai.Engine.Lease.Evidence.{
  EvidenceItem, Ledger, is_satisfied_by, is_verified, item_of_kind, newest_first,
}
use qingtian_ai.Prelude.{
  &&-right, All, All-weaken, Bool, Bool-cases, List, String, [], any, any_mono, arith, false,
  filter, first, inl, inr, ltb, not, not-both, order_by, place, query_exact, refl, sym, true, ℕ,
  ◌&&◌, ◌==◌, ◌||◌, ◌∙◌, ◌∷◌, ◌≡◌, ◌⊎◌,
}

-- There is no row that passes the test, or one that passes it and that no row that passes it has a
-- larger id than; and whether that one is verified.
pub data Newest (p : EvidenceItem → Bool) (rows : List EvidenceItem) : Bool → Type 0 where
  no_item : any p rows ≡ false → Newest p rows false
  newest_item :
      (e : EvidenceItem)
      → p e ≡ true
      → ((q : EvidenceItem → Bool) → q e ≡ true → any q rows ≡ true)
      → any (λ x. p x && ltb e.id x.id) rows ≡ false
      → Newest p rows e.verified

abbrev descends : EvidenceItem → EvidenceItem → Bool
descends a b = ltb b.id a.id

abbrev Descending : List EvidenceItem → Type 0
Descending [] = Unit
Descending (x ∷ xs) = All (λ y. ltb x.id y.id ≡ false) xs × Descending xs

All-place :
    (P : EvidenceItem → Type 0) (x : EvidenceItem) (ys : List EvidenceItem)
    → P x
    → All P ys
    → All P (place descends x ys)
unfolding place
All-place P x [] h k = (h, tt)
All-place P x (y ∷ ys) h k = elim (Bool-cases (ltb x.id y.id)) [
  | inl e ↦ rw e (k.0, All-place P x ys h k.1)
  | inr e ↦ rw e (h, k)
]

ltb_asym : (a b : ℕ) → ltb a b ≡ true → ltb b a ≡ false
ltb_asym a b h = ground (arith, h)

ltb_trans : (a b c : ℕ) → ltb a b ≡ false → ltb b c ≡ false → ltb a c ≡ false
ltb_trans a b c h k = ground (arith, h, k)

place-Descending :
    (x : EvidenceItem) (ys : List EvidenceItem) → Descending ys → Descending (place descends x ys)
unfolding place
place-Descending x [] h = (tt, tt)
place-Descending x (y ∷ ys) h = elim (Bool-cases (ltb x.id y.id)) [
  | inl e ↦ rw e (All-place _ x ys (ltb_asym x.id y.id e) h.0, place-Descending x ys h.1)
  | inr e ↦ rw e ((e, All-weaken ys (λ z k. ltb_trans x.id y.id z.id e k) h.0), h)
]

order_by-Descending : (xs : List EvidenceItem) → Descending (order_by descends xs)
unfolding order_by
order_by-Descending [] = tt
order_by-Descending (x ∷ xs) = place-Descending x (order_by descends xs) (order_by-Descending xs)

any_none :
    (p : EvidenceItem → Bool) (xs : List EvidenceItem)
    → All (λ x. p x ≡ false) xs
    → any p xs ≡ false
unfolding any
any_none p [] h = refl
any_none p (x ∷ xs) h = rw h.0 (any_none p xs h.1)

and_false : (a b : Bool) → b ≡ false → (a && b) ≡ false
and_false a b h = ground arith

both_false : (a b : Bool) → a ≡ false → b ≡ false → (a || b) ≡ false
both_false a b h k = ground arith

or_true : (a b : Bool) → b ≡ true → (a || b) ≡ true
or_true a b h = ground arith

and_of_false : (a b : Bool) → a ≡ false → (a && b) ≡ false
and_of_false a b h = ground arith

ltb_irrefl : (a : ℕ) → ltb a a ≡ false
ltb_irrefl a = ground arith

Newest-later :
    (p : EvidenceItem → Bool) (x : EvidenceItem) (xs : List EvidenceItem) {v : Bool}
    → p x ≡ false
    → Newest p xs v
    → Newest p (x ∷ xs) v
unfolding any
Newest-later p x xs h (no_item none_here) = no_item (both_false _ _ h none_here)
Newest-later p x xs h (newest_item e passes stored largest) =
    newest_item e passes (λ q k. or_true _ _ (stored q k))
      (both_false _ _ (and_of_false _ _ h) largest)

first-Newest :
    (p : EvidenceItem → Bool) (xs : List EvidenceItem)
    → Descending xs
    → Newest p xs (is_verified (first p xs))
unfolding first is_verified any
first-Newest p [] h = no_item refl
first-Newest p (x ∷ xs) h = elim (Bool-cases (p x)) [
  | inl e ↦ rw e (
      newest_item x e (λ q k. rw k refl)
        (both_false _ _ (and_false _ _ (ltb_irrefl x.id))
          (any_none _ xs (All-weaken xs (λ z k. and_false (p z) _ k) h.0))))
  | inr e ↦ rw e (Newest-later p x xs e (first-Newest p xs h.1))
]

both_hold : (a b : Bool) → a ≡ true → b ≡ true → (a && b) ≡ true
both_hold a b h k = ground arith

and_assoc : (a b c : Bool) → (a && b && c) ≡ (a && (b && c))
and_assoc a b c = ground arith

never_both :
    (q : EvidenceItem → Bool) (xs : List EvidenceItem) → All (λ x. (q x && not (q x)) ≡ false) xs
never_both q [] = tt
never_both q (x ∷ xs) = (ground arith, never_both q xs)

-- from the rows of a query in descending order back to the table
Newest-query :
    (q p : EvidenceItem → Bool) (rows : List EvidenceItem) {v : Bool}
    → Newest p (order_by descends (filter q rows)) v
    → Newest (λ e. q e && p e) rows v
Newest-query q p rows (no_item none_here) =
    no_item (sym (query_exact descends q p rows) ∙ none_here)
Newest-query q p rows (newest_item e passes stored largest) =
    newest_item e (both_hold _ _ (of_query (Bool-cases (q e))) passes)
      (λ r k.
        any_mono _ r rows (λ x b. &&-right (q x) (r x) b)
          (sym (query_exact descends q r rows) ∙ stored r k))
      ((λ i. any (λ x. and_assoc (q x) (p x) (ltb e.id x.id) i) rows)
        ∙ sym (query_exact descends q (λ x. p x && ltb e.id x.id) rows)
        ∙ largest)
  where
    of_query : (q e ≡ true) ⊎ (q e ≡ false) → q e ≡ true
    of_query (inl h) = h
    of_query (inr h) = absurd (
        not-both (any_none (λ x. q x && not (q x)) rows (never_both q rows)) (
          sym (query_exact descends q (λ x. not (q x)) rows) ∙ stored (λ x. not (q x)) (rw h refl)))

-- the status of a contract is that of the newest item of its task and kind
pub is_satisfied_by_lem :
    (db : Ledger) (task_id k : String)
    → Newest (λ e. e.task_id == task_id && e.kind == k) db.evidence (is_satisfied_by db task_id k)
unfolding is_satisfied_by item_of_kind newest_first
is_satisfied_by_lem db task_id k =
    Newest-query (λ e. e.task_id == task_id) (λ e. e.kind == k) db.evidence
      (first-Newest (λ e. e.kind == k) _ (order_by-Descending _))
