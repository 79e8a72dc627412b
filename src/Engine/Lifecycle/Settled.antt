-- ===== src/Engine/Lifecycle/Settled.antt =====
-- Rows that name a task: each names a task that is there, and while it is open that task is not
-- done. The two statements are kept by the writes of qingtian_engine/lifecycle.py.
use qingtian_ai.Engine.Lifecycle.{
  EngineTask, engine_task_key, execution_key, handoff_key, intake_key, managed_run_key, notice_key,
  version_key,
}
use qingtian_ai.Engine.Lifecycle.Guards.{is_done}
use qingtian_ai.Prelude.{
  Bool, List, String, ap, false, inl, inr, none, some, subst, sym, true, ◌∙◌, ◌≡◌, ◌≢◌, ◌⊎◌,
}
use qingtian_ai.Store.Table.{
  Keyed, find, find-insert_old, find-update_old, insert, insert-cases, update, update-cases,
}

module _ {A : Type 0} ⦃e : Keyed A⦄ (task_of : A → String) (is_open : A → Bool) where
  abbrev pub Linked : List EngineTask → List A → Type 0
  Linked tasks rows =
      (i : String) (r : A)
      → find i rows ≡ some r
      → (t : EngineTask) × (find (task_of r) tasks ≡ some t)

  abbrev pub Settled : List EngineTask → List A → Type 0
  Settled tasks rows =
      (i : String) (r : A) (t : EngineTask)
      → find i rows ≡ some r
      → is_open r ≡ true
      → find (task_of r) tasks ≡ some t
      → is_done t ≡ false

  pub Linked-insert :
      (tasks : List EngineTask) (rows : List A) (r : A) (t : EngineTask)
      → find (e.key r) rows ≡ none
      → find (task_of r) tasks ≡ some t
      → Linked tasks rows
      → Linked tasks (insert r rows)
  Linked-insert tasks rows r t free here l i x p = elim (insert-cases r rows i free p) [
    | inl q ↦ subst (λ y. (t : EngineTask) × (find (task_of y) tasks ≡ some t)) (sym q.1) (t, here)
    | inr q ↦ l i x q
  ]

  pub Settled-insert :
      (tasks : List EngineTask) (rows : List A) (r : A) (t : EngineTask)
      → find (e.key r) rows ≡ none
      → find (task_of r) tasks ≡ some t
      → is_done t ≡ false
      → Settled tasks rows
      → Settled tasks (insert r rows)
  Settled-insert tasks rows r t free here undone s i x u p o q =
      elim (insert-cases r rows i free p) [
        | inl c ↦
            let same : t ≡ u = cc (sym here ∙ subst (λ y. find (task_of y) tasks ≡ some u) c.1 q) in
            subst (λ v. is_done v ≡ false) same undone
        | inr c ↦ s i x u c o q
      ]

  module _ (k : String) (f : A → A) (same_key : (x : A) → e.key (f x) ≡ e.key x)
      (same_task : (x : A) → task_of (f x) ≡ task_of x) where
    pub Linked-update :
        (tasks : List EngineTask) (rows : List A) (r : A)
        → find k rows ≡ some r
        → Linked tasks rows
        → Linked tasks (update k f rows)
    Linked-update tasks rows r here l i x p = elim (update-cases k f rows i same_key here p) [
      | inl c ↦
          subst (λ j. (t : EngineTask) × (find j tasks ≡ some t))
            (sym (same_task r) ∙ ap task_of (sym c.1)) (l k r here)
      | inr c ↦ l i x c.1
    ]

    pub Settled-update :
        (tasks : List EngineTask) (rows : List A) (r : A)
        → find k rows ≡ some r
        → (is_open (f r) ≡ true → is_open r ≡ true)
        → Settled tasks rows
        → Settled tasks (update k f rows)
    Settled-update tasks rows r here opens s i x u p o q =
        elim (update-cases k f rows i same_key here p) [
          | inl c ↦
              s k r u here (opens (subst (λ y. is_open y ≡ true) c.1 o))
                (subst (λ j. find j tasks ≡ some u) (ap task_of c.1 ∙ same_task r) q)
          | inr c ↦ s i x u c.1 o q
        ]

  -- a task's row is written
  module _ (k : String) (g : EngineTask → EngineTask) (same_id : (t : EngineTask) → (g t).id ≡ t.id)
      (tasks : List EngineTask) (t : EngineTask) (has_task : find k tasks ≡ some t) where
    pub Linked-task_update : (rows : List A) → Linked tasks rows → Linked (update k g tasks) rows
    Linked-task_update rows l i r p =
        let (u, q) = l i r p in (_, find-update_old k g tasks (task_of r) same_id q)

    pub Settled-task_update :
        (rows : List A)
        → (((i : String) (r : A) → find i rows ≡ some r → is_open r ≡ true → task_of r ≢ k)
            ⊎ (is_done t ≡ false → is_done (g t) ≡ false))
        → Settled tasks rows
        → Settled (update k g tasks) rows
    Settled-task_update rows keeps s i r u p o q =
        elim (update-cases k g tasks (task_of r) same_id has_task q) [
          | inl c ↦ elim keeps [
            | inl apart ↦ absurd (apart i r p o c.0)
            | inr still ↦
                subst (λ v. is_done v ≡ false) (sym c.1)
                  (still (s i r t p o (subst (λ j. find j tasks ≡ some t) (sym c.0) has_task)))
          ]
          | inr c ↦ s i r u p o c.1
        ]

  -- a task is added
  module _ (tasks : List EngineTask) (t : EngineTask) (free : find t.id tasks ≡ none) where
    pub Linked-task_insert : (rows : List A) → Linked tasks rows → Linked (insert t tasks) rows
    Linked-task_insert rows l i r p =
        let (u, q) = l i r p in (u, find-insert_old t tasks (task_of r) q)

    pub Settled-task_insert :
        (rows : List A) → Linked tasks rows → Settled tasks rows → Settled (insert t tasks) rows
    Settled-task_insert rows l s i r u p o q =
        let (v, here) = l i r p in
        elim (insert-cases t tasks (task_of r) free q) [
          | inl c ↦ absurd (cc (sym (subst (λ j. find j tasks ≡ some v) c.0 here) ∙ free))
          | inr c ↦ s i r u p o c
        ]
