-- ===== src/Store/Invariant/Knowledge.antt =====
-- Knowledge: where the full-text index is enabled it holds, for each row of the table, the title
-- and the content that the row has, and nothing else.
use mathlib.Core.Option
use qingtian_ai.Prelude.{
  Bool, List, Option, String, ap, false, if◌then◌else◌, none, not-both, refl, some, sym, true, ◌==◌,
  ◌∙◌, ◌≡◌,
}
use qingtian_ai.Store.Knowledge.{index_knowledge, index_of, unindex_knowledge}
use qingtian_ai.Store.Rows.{
  Db, Indexed, Knowledge, checkpoint_key, empty_db, evidence_key, indexed_key, knowledge_key,
  run_key, session_key, task_key,
}
use qingtian_ai.Store.Table.{delete, find, find-delete, find-insert, find-nil, insert}

pub record Mirrors (knowledge : List Knowledge) (fts : List Indexed) : Type 0 where
  pub at : (k : String) → find k fts ≡ Option.map index_of (find k knowledge)

pub record IndexAgrees (db : Db) : Type 0 where
  pub on : db.fts_enabled ≡ true → Mirrors db.knowledge db.knowledge_fts

map-if :
    (b : Bool) (f : Knowledge → Indexed) (r : Knowledge) (o : Option Knowledge)
    → (if b then some (f r) else Option.map f o) ≡ Option.map f (if b then some r else o)
map-if true f r o = refl
map-if false f r o = refl

map-if_none :
    (b : Bool) (f : Knowledge → Indexed) (o : Option Knowledge)
    → (if b then none else Option.map f o) ≡ Option.map f (if b then none else o)
map-if_none true f o = refl
map-if_none false f o = refl

Mirrors-insert :
    (r : Knowledge) {knowledge : List Knowledge} {fts : List Indexed}
    → find r.knowledge_id knowledge ≡ none
    → Mirrors knowledge fts
    → Mirrors (insert r knowledge) (insert (index_of r) fts)
Mirrors-insert r {knowledge} {fts} fresh h = record {
  at = λ k.
      find-insert (index_of r) fts k (h.at r.knowledge_id ∙ ap (Option.map index_of) fresh)
      ∙ ap (λ (o : Option Indexed). if r.knowledge_id == k then some (index_of r) else o) (h.at k)
      ∙ map-if (r.knowledge_id == k) index_of r (find k knowledge)
      ∙ ap (Option.map index_of) (sym (find-insert r knowledge k fresh));
}

Mirrors-delete :
    (id : String) {knowledge : List Knowledge} {fts : List Indexed}
    → Mirrors knowledge fts
    → Mirrors (delete id knowledge) (delete id fts)
Mirrors-delete id {knowledge} {fts} h = record {
  at = λ k.
      find-delete id fts k
      ∙ ap (λ (o : Option Indexed). if id == k then none else o) (h.at k)
      ∙ map-if_none (id == k) index_of (find k knowledge)
      ∙ ap (Option.map index_of) (sym (find-delete id knowledge k));
}

-- a write to the index that is made only where the index is enabled
when_on :
    (b : Bool) (db db' : Db)
    → db.fts_enabled ≡ b
    → db'.fts_enabled ≡ b
    → (b ≡ true → IndexAgrees db')
    → IndexAgrees (if b then db' else db)
when_on true db db' p q h = h refl
when_on false db db' p q h = record { on = λ e. absurd (not-both p e) }

pub IndexAgrees-add :
    {db : Db} (r : Knowledge)
    → find r.knowledge_id db.knowledge ≡ none
    → IndexAgrees db
    → IndexAgrees (index_knowledge r (record db { knowledge = insert r db.knowledge }))
unfolding index_knowledge
IndexAgrees-add {db} r fresh h =
    when_on db.fts_enabled _ _ refl refl λ e. record { on = λ _. Mirrors-insert r fresh (h.on e) }

pub IndexAgrees-forget :
    {db : Db} (id : String)
    → IndexAgrees db
    → IndexAgrees (unindex_knowledge id (record db { knowledge = delete id db.knowledge }))
unfolding unindex_knowledge
IndexAgrees-forget {db} id h =
    when_on db.fts_enabled _ _ refl refl λ e. record { on = λ _. Mirrors-delete id (h.on e) }

pub IndexAgrees-empty : (fts : Bool) → IndexAgrees (empty_db fts)
IndexAgrees-empty fts = record {
  on = λ _. record { at = λ k. find-nil k ∙ ap (Option.map index_of) (sym (find-nil k)) };
}
