-- ===== src/Contracts/Meaning.antt =====
-- qingtian_core/contracts.py: which documents `validate` accepts.
use qingtian_ai.Contracts.{Patterns}
use qingtian_ai.Contracts.Keywords.{
  InEntries, InItems, entry_here, entry_later, item_here, item_later,
}
use qingtian_ai.Contracts.Meets.{Meets}
use qingtian_ai.Contracts.Validate.{dict_or_empty, valid, valid_entries, valid_here, valid_items}
use qingtian_ai.Json.{
  Entries, Items, Value, bool, dict, end, entry, float, int, item, list, nil, null, other, str,
  tuple,
}
use qingtian_ai.Json.Dicts.{get, get_at}
use qingtian_ai.Prelude.{
  Bool, Option, arith, is_some, none, not, refl, some, subst, sym, true, ◌&&◌, ◌||◌, ◌≡◌,
}

-- The parts of a document that the parts of a schema speak of: the document, with the schema; the
-- items of a list, with its "items"; and the values of a dict, with the one of its "properties"
-- that has their key.
pub data Governs : Value → Entries → Value → Entries → Type 0 where
  at_root : {v : Value} {s : Entries} → Governs v s v s
  at_item :
      {xs : Items} {s t : Entries} {v w : Value} (sub : Value)
      → InItems v xs
      → get "items" s ≡ some sub
      → Governs v (dict_or_empty (some sub)) w t
      → Governs (list xs) s w t
  at_property :
      {es : Entries} {s t : Entries} {k v w : Value} (sub : Value)
      → InEntries k v es
      → get_at k (dict_or_empty (get "properties" s)) ≡ some sub
      → Governs v (dict_or_empty (some sub)) w t
      → Governs (dict es) s w t

module _ (e : Patterns) where
  -- every governed part passes, and meets the keywords of, its schema
  abbrev AllPass : Value → Entries → Type 0
  AllPass v s = (w : Value) (t : Entries) → Governs v s w t → valid_here e w t ≡ true

  abbrev pub AllGoverned : Value → Entries → Type 0
  AllGoverned v s = (w : Value) (t : Entries) → Governs v s w t → Meets e w t

  guard_or :
      {A : Type 0} (o : Option A) (b : Bool)
      → ((a : A) → o ≡ some a → b ≡ true)
      → (not (is_some o) || b) ≡ true
  unfolding is_some
  guard_or none b h = refl
  guard_or (some a) b h = h a refl

  both_true : (a b : Bool) → a ≡ true → b ≡ true → (a && b) ≡ true
  both_true a b p q = ground arith

  mutual
    unfolding valid valid_items valid_entries

    Governs-valid : (v : Value) (s : Entries) → AllPass v s → valid e v s ≡ true
    Governs-valid null s h = h null s at_root
    Governs-valid (bool x) s h = h (bool x) s at_root
    Governs-valid (int x) s h = h (int x) s at_root
    Governs-valid (float x) s h = h (float x) s at_root
    Governs-valid (str x) s h = h (str x) s at_root
    Governs-valid (tuple x) s h = h (tuple x) s at_root
    Governs-valid other s h = h other s at_root
    Governs-valid (list xs) s h =
        both_true _ _ (h (list xs) s at_root)
          (Governs-items xs (get "items" s) (λ v m sub g w t r. h w t (at_item sub m g r)))
    Governs-valid (dict es) s h = both_true _ _ (h (dict es) s at_root) (
        Governs-entries es (dict_or_empty (get "properties" s))
          (λ k v m sub g w t r. h w t (at_property sub m g r)))

    Governs-items :
        (xs : Items) (o : Option Value)
        → ((v : Value)
            → InItems v xs
            → (sub : Value) → o ≡ some sub
            → AllPass v (dict_or_empty (some sub)))
        → valid_items e xs o ≡ true
    Governs-items nil o h = refl
    Governs-items (item v xs) o h =
        both_true _ _
          (guard_or o _ λ sub g.
            subst (λ p. valid e v (dict_or_empty p) ≡ true) (sym g)
              (Governs-valid v (dict_or_empty (some sub)) (h v item_here sub g)))
          (Governs-items xs o (λ w m. h w (item_later m)))

    Governs-entries :
        (es ps : Entries)
        → ((k v : Value)
            → InEntries k v es
            → (sub : Value) → get_at k ps ≡ some sub
            → AllPass v (dict_or_empty (some sub)))
        → valid_entries e es ps ≡ true
    Governs-entries end ps h = refl
    Governs-entries (entry k v es) ps h =
        both_true _ _
          (guard_or (get_at k ps) _ λ sub g.
            subst (λ p. valid e v (dict_or_empty p) ≡ true) (sym g)
              (Governs-valid v (dict_or_empty (some sub)) (h k v entry_here sub g)))
          (Governs-entries es ps (λ j w m. h j w (entry_later m)))
