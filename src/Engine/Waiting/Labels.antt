-- ===== src/Engine/Waiting/Labels.antt =====
-- The categories of a waiting task and the transitions of qingtian_engine/service.py.
use qingtian_ai.Engine.Waiting.{
  TaskRow, allowed_transitions, allowed_transitions_table, classify_waiting, lookup, or_empty, pick,
  state_progress, waiting_category_label, waiting_key,
}
use qingtian_ai.Prelude.{
  All, Bool, Bool-cases, List, Option, String, [], inl, inr, is_some, none, refl, some, true, ◌==◌,
  ◌∷◌, ◌≡◌,
}
use qingtian_ai.Providers.{provider_key}
use qingtian_ai.Store.Rows.{
  checkpoint_key, evidence_key, indexed_key, knowledge_key, run_key, session_key, task_key,
}

abbrev IsLabelled : String → Type 0
IsLabelled key = is_some (waiting_category_label key) ≡ true

pick-IsLabelled :
    (tests : List (Bool × String)) (otherwise : String)
    → All (λ t. IsLabelled t.1) tests
    → IsLabelled otherwise
    → IsLabelled (pick tests otherwise)
unfolding pick
pick-IsLabelled [] otherwise h k = k
pick-IsLabelled (t ∷ tests) otherwise h k = elim (Bool-cases t.0) [
  | inl b ↦ rw b h.0
  | inr b ↦ rw b (pick-IsLabelled tests otherwise h.1 k)
]

labelled : (o : Option String) → is_some o ≡ true → (label : String) × (o ≡ some label)
unfolding is_some
labelled none h = cc
labelled (some label) h = (label, refl)

module _ (lower upper : String → String) where
  waiting_key-IsLabelled :
      (task : TaskRow) (code : Option String) → IsLabelled (waiting_key lower upper task code)
  unfolding waiting_key waiting_category_label lookup is_some
  waiting_key-IsLabelled task code =
      pick-IsLabelled _ "internal"
        (refl, (refl, (refl, (refl, (refl, (refl, (refl, (refl, tt)))))))) refl

  -- Whatever the row of a task and the code of its runtime, `classify_waiting` returns a key with
  -- its label: the lookup of the label never fails.
  pub classify_waiting_total :
      (task : TaskRow) (code : Option String)
      → (label : String) × (waiting_category_label (waiting_key lower upper task code) ≡ some label)
        × (classify_waiting lower upper task code ≡ some (waiting_key lower upper task code, label))
  unfolding classify_waiting
  classify_waiting_total task code =
      let (label, p) = labelled _ (waiting_key-IsLabelled task code) in (label, p, rw p refl)

abbrev AllKnown : List String → Type 0
AllKnown states = All (λ t. is_some (state_progress t) ≡ true) states

lookup-AllKnown :
    (s : String) (table : List (String × List String))
    → All (λ r. AllKnown r.1) table
    → AllKnown (or_empty (lookup s table))
unfolding lookup
lookup-AllKnown s [] h = tt
lookup-AllKnown s (r ∷ table) h = elim (Bool-cases (r.0 == s)) [
  | inl b ↦ rw b h.0
  | inr b ↦ rw b (lookup-AllKnown s table h.1)
]

-- Every state that a transition of ALLOWED_TRANSITIONS leads to has a progress of its own in
-- STATE_PROGRESS, whatever the text of the state that it leaves.
pub allowed_transitions_known :
    (s : String) → All (λ t. is_some (state_progress t) ≡ true) (allowed_transitions s)
unfolding allowed_transitions state_progress lookup is_some
allowed_transitions_known s = lookup-AllKnown s allowed_transitions_table (
  (refl, (refl, (refl, tt))),
  (
    (refl, (refl, (refl, tt))),
    (
      (refl, (refl, (refl, (refl, tt)))),
      (
        (refl, (refl, (refl, (refl, tt)))),
        (
          (refl, (refl, (refl, (refl, tt)))),
          (
            (refl, (refl, (refl, (refl, (refl, tt))))),
            ((refl, (refl, tt)), ((refl, tt), ((refl, tt), tt))),
          ),
        ),
      ),
    ),
  ),
)
