-- ===== src/Store/Search.antt =====
-- What `search_knowledge` may return and what `forget_knowledge` takes away
-- (qingtian_core/store.py).
use qingtian_ai.Exec.{check, lift, ok, statement, ◌>>=◌}
use qingtian_ai.Prelude.{
  &&-left, &&-right, All, All-filter, All-order_by, All-take, Bool, Bool-cases, List, Option,
  String, [], any, arith, eq→≡, if◌then◌else◌, inl, inr, is_blank, is_empty, length, length-take,
  map, none, not, refl, some, subst, sym, true, ℕ, ◌&&◌, ◌++◌, ◌<◌, ◌==◌, ◌^◌, ◌∷◌, ◌≡◌, ◌≤◌,
}
use qingtian_ai.Prelude.Int.{lt_ℤ, negsuc, pos, ℤ}
use qingtian_ai.Store.Knowledge.{
  Engines, by_match, classification_rank, forget_knowledge, is_allowed, is_within, joined_rows,
  limited, query_knowledge, search_knowledge, unindex_knowledge,
}
use qingtian_ai.Store.Methods.Knowledge.{forget_knowledge_lem}
use qingtian_ai.Store.Rows.{
  Db, Indexed, Knowledge, checkpoint_key, evidence_key, indexed_key, knowledge_key, run_key,
  session_key, task_key,
}
use qingtian_ai.Store.Table.{delete, find, find-delete}

-- a stored row of the project, of an allowed scope and of no higher classification
pub record Allowed (project_id : String) (scopes : List String) (max_rank : ℕ) (r : Knowledge)
    : Type 0 where
  pub in_project : r.project_id ≡ project_id
  pub in_scope : any (λ s. s == r.scope) scopes ≡ true
  pub rank : ℕ
  pub has_rank : classification_rank r.classification ≡ some rank
  pub no_higher : rank ≤ max_rank

within_rank :
    (max_rank : ℕ) (o : Option ℕ)
    → is_within max_rank o ≡ true
    → (rank : ℕ) × (o ≡ some rank) × (rank ≤ max_rank)
unfolding is_within
within_rank max_rank none h = absurd (cc)
within_rank max_rank (some rank) h = (rank, refl, ground (arith, h))

Allowed-row :
    (project_id : String) (scopes : List String) (max_rank : ℕ) (r : Knowledge)
    → is_allowed project_id scopes max_rank r ≡ true
    → Allowed project_id scopes max_rank r
unfolding is_allowed
Allowed-row project_id scopes max_rank r h =
    let here = &&-left (r.project_id == project_id && any (λ s. s == r.scope) scopes) _ h in
    let (rank, has_rank, no_higher) =
      within_rank max_rank (classification_rank r.classification) (&&-right _ _ h) in
    record {
      in_project = eq→≡ _ _ (&&-left _ _ here);
      in_scope = &&-right (r.project_id == project_id) _ here;
      rank = rank;
      has_rank = has_rank;
      no_higher = no_higher;
    }

module _ (P : Knowledge → Type 0) where
  abbrev Ranked : Knowledge × ℕ → Type 0
  Ranked x = P x.0

  All-Ranked :
      (rank : ℕ) (rows : List Knowledge) → All P rows → All Ranked (map (λ r. (r, rank)) rows)
  All-Ranked rank [] h = tt
  All-Ranked rank (r ∷ rows) h = (h.0, All-Ranked rank rows h.1)

  All-rows : (xs : List (Knowledge × ℕ)) → All Ranked xs → All P (map (λ p. p.0) xs)
  All-rows [] h = tt
  All-rows (x ∷ xs) h = (h.0, All-rows xs h.1)

  All-append :
      (xs ys : List (Knowledge × ℕ)) → All Ranked xs → All Ranked ys → All Ranked (xs ++ ys)
  All-append [] ys h k = k
  All-append (x ∷ xs) ys h k = (h.0, All-append xs ys h.1 k)

  All-limited : (limit : ℤ) (rows : List Knowledge) → All P rows → All P (limited limit rows)
  unfolding limited
  All-limited (pos n) rows h = All-take P n rows h
  All-limited (negsuc n) rows h = h

  All-joined_rows :
      (test : Knowledge → Bool) (rows : List Knowledge) (hits : List (Indexed × ℕ))
      → ((r : Knowledge) → test r ≡ true → P r)
      → All Ranked (joined_rows test rows hits)
  unfolding joined_rows
  All-joined_rows test rows [] h = tt
  All-joined_rows test rows ((f, rank) ∷ rest) h =
      All-append _ _ (All-Ranked rank _ (All-filter P _ rows λ r e. h r (&&-right _ _ e)))
        (All-joined_rows test rows rest h)

  All-by_match :
      (test : Knowledge → Bool) (limit : ℤ) (rows : List Knowledge)
      (hits : Option (List (Indexed × ℕ)))
      → ((r : Knowledge) → test r ≡ true → P r)
      → All P (by_match test limit rows hits)
  unfolding by_match
  All-by_match test limit rows none h = tt
  All-by_match test limit rows (some hits) h =
      All-limited limit _ (All-rows _ (All-order_by Ranked _ _ (All-joined_rows test rows hits h)))

length-limited : (n : ℕ) (rows : List Knowledge) → length (limited (pos n) rows) ≤ n
unfolding limited
length-limited n rows = length-take n rows

length-by_match :
    (test : Knowledge → Bool) (n : ℕ) (rows : List Knowledge) (hits : Option (List (Indexed × ℕ)))
    → length (by_match test (pos n) rows hits) ≤ n
unfolding by_match
length-by_match test n rows none = omega arith
length-by_match test n rows (some hits) = length-limited n _

module _ (e : Engines) (project_id query : String) (scopes : List String) (max_rank : ℕ) where
  query-Allowed :
      (limit : ℤ) (db : Db)
      → All
          (Allowed project_id scopes max_rank)
          (query_knowledge e project_id query scopes max_rank limit db)
  unfolding query_knowledge
  query-Allowed limit db = elim (Bool-cases (not (is_blank query) && db.fts_enabled)) [
    | inl b ↦ rw b (All-by_match _ _ limit db.knowledge _ (Allowed-row project_id scopes max_rank))
    | inr b ↦ rw b (
        All-limited _ limit _ (
          All-order_by _ _ _ (
            All-filter _ _ db.knowledge
              λ r h. Allowed-row project_id scopes max_rank r (&&-left _ _ h))))
  ]

  length-query :
      (n : ℕ) (db : Db) → length (query_knowledge e project_id query scopes max_rank (pos n) db) ≤ n
  unfolding query_knowledge
  length-query n db = elim (Bool-cases (not (is_blank query) && db.fts_enabled)) [
    | inl b ↦ rw b (length-by_match _ n db.knowledge _)
    | inr b ↦ rw b (length-limited n _)
  ]

  -- A search with a known classification and a limit from 1 to 2 ^ 63 - 1 returns, whatever its query
  -- and what the full-text engine does; it changes nothing, every row is of the project, of an
  -- allowed scope and of no higher classification, and there are no more rows than the limit.
  pub search_within :
      (n : ℕ) (max_classification : String) (db : Db)
      → classification_rank max_classification ≡ some max_rank
      → 1 ≤ n
      → n < 2 ^ 63
      → (rows : List Knowledge) × (search_knowledge e project_id query scopes max_classification
            (pos n)
            db
          ≡ (ok rows, db))
        × All (Allowed project_id scopes max_rank) rows
        × (length rows ≤ n)
  unfolding search_knowledge ◌>>=◌ lift check statement lt_ℤ
  search_within n max_classification db known positive bounded =
      elim (Bool-cases (is_empty scopes)) [
        | inl b ↦ ([], ground (arith), tt, omega arith)
        | inr b ↦ (
          query_knowledge e project_id query scopes max_rank (pos n) db,
          ground (arith),
          query-Allowed (pos n) db,
          length-query n db,
        )
      ]

forget_rows :
    (id j : String) (db : Db)
    → (find j (unindex_knowledge id (record db { knowledge = delete id db.knowledge })).knowledge
        ≡ (if id == j then none else find j db.knowledge))
      × (find j
            (unindex_knowledge id (record db { knowledge = delete id db.knowledge })).knowledge_fts
          ≡ (if db.fts_enabled && id == j then none else find j db.knowledge_fts))
unfolding unindex_knowledge
forget_rows id j db = elim (Bool-cases db.fts_enabled) [
  | inl b ↦ rw b (find-delete id db.knowledge j, find-delete id db.knowledge_fts j)
  | inr b ↦ rw b (find-delete id db.knowledge j, refl)
]

-- After a `forget_knowledge` that returns, exactly the forgotten identifier is gone: from the
-- table, and, if the index is enabled, from the index.
pub forget_exact :
    (id j : String) (db db' : Db)
    → forget_knowledge id db ≡ (ok tt, db')
    → (find j db'.knowledge ≡ (if id == j then none else find j db.knowledge))
      × (find j db'.knowledge_fts
          ≡ (if db.fts_enabled && id == j then none else find j db.knowledge_fts))
forget_exact id j db db' returned =
    let (_, e) = (forget_knowledge_lem id db).returned tt db' returned in
    subst
      (λ d.
        (find j d.knowledge ≡ (if id == j then none else find j db.knowledge))
        × (find j d.knowledge_fts
            ≡ (if db.fts_enabled && id == j then none else find j db.knowledge_fts)))
      (sym e) (forget_rows id j db)
