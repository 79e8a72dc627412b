-- ===== src/Store/Knowledge.antt =====
-- The knowledge methods of QingtianStore (qingtian_core/store.py). SQLite's full-text index, its
-- LIKE operator and Python's datetime.fromisoformat are taken as a record of functions.
use Prim.Native.Char.{code}
use Prim.Native.String.{◌++◌ as text_append}
use qingtian_ai.Exec.{
  Exec, check, fetch, found, lift, modify, not_found, overflow_error, statement, transaction,
  value_error, ◌>>=◌, ◌>>◌,
}
use qingtian_ai.Json.{Codec, Value, content_hash, dict, end, entry, null, str}
use qingtian_ai.Prelude.{
  Bool, List, Option, String, [], any, count, false, filter, if◌then◌else◌, is_blank, is_empty,
  is_some, leb, ltb, map, nat_eq, none, not, or_else, order_by, some, take, true, ℕ, ◌&&◌, ◌++◌,
  ◌==◌, ◌^◌, ◌||◌, ◌∷◌,
}
use qingtian_ai.Prelude.Int.{lt_ℤ, negsuc, pos, ℤ}
use qingtian_ai.Store.Rows.{
  Db, Indexed, Knowledge, checkpoint_key, evidence_key, indexed_key, knowledge_key, run_key,
  session_key, task_key,
}
use qingtian_ai.Store.Statements.{insert_knowledge, validated_id}
use qingtian_ai.Store.Table.{delete, find, insert}

pub record Engines : Type 0 where
  -- knowledge_fts MATCH query: the rows of the index that match with their bm25 rank, lower first;
  -- none stands for sqlite3.OperationalError, on a query that FTS5 cannot parse
  pub matches : String → List Indexed → Option (List (Indexed × ℕ))
  -- text LIKE '%query%', of a query and a text
  pub contains : String → String → Bool
  -- datetime.fromisoformat, and whether the result has a time zone; none stands for ValueError
  pub fromisoformat : String → Option Bool

-- CLASSIFICATION_RANK
unfoldable pub classification_rank : String → Option ℕ
classification_rank s =
    if s == "public"
    then some 0
    else if s == "internal"
    then some 1
    else if s == "confidential"
    then some 2
    else if s == "restricted"
    then some 3
    else none

unfoldable pub is_knowledge_kind : String → Bool
is_knowledge_kind s =
    s == "source"
    || s == "decision"
    || s == "observation"
    || s == "procedure"
    || s == "incident"
    || s == "constraint"

unfoldable pub is_evidence_label : String → Bool
is_evidence_label s =
    s == "SOURCE" || s == "OBSERVED" || s == "REPORTED" || s == "INFERRED" || s == "MISSING"

unfoldable pub is_review_state : String → Bool
is_review_state s = s == "unreviewed" || s == "reviewed" || s == "rejected" || s == "superseded"

-- value.replace("Z", "+00:00")
unfoldable pub replace_z : String → String
replace_z String.[] = String.[]
replace_z (String.◌∷◌ c s) =
    let rest = replace_z s in
    if nat_eq (code c) b'Z' then text_append "+00:00" rest else String.◌∷◌ c rest

unfoldable pub is_aware : Engines → Option String → Bool
is_aware e none = true
is_aware e (some text) = aware (e.fromisoformat (replace_z text))
  where
    aware : Option Bool → Bool
    aware none = false
    aware (some zone) = zone

-- the arguments of `add_knowledge`
pub record Entry : Type 0 where
  pub project_id : String
  pub scope : String
  pub classification : String
  pub kind : String
  pub title : String
  pub content : String
  pub source : String
  pub evidence_label : String
  pub source_revision : Option String
  pub review_state : String
  pub valid_until : Option String

nullable : Option String → Value
nullable none = null
nullable (some s) = str s

-- the object whose hash identifies the content
abbrev identity : Entry → Value
identity a = dict (
    entry (str "project_id") (str a.project_id) (
      entry (str "scope") (str a.scope) (
        entry (str "classification") (str a.classification) (
          entry (str "kind") (str a.kind) (
            entry (str "title") (str a.title) (
              entry (str "content") (str a.content) (
                entry (str "source") (str a.source)
                  (entry (str "source_revision") (nullable a.source_revision) end))))))))

-- the row that `add_knowledge` inserts
abbrev pub new_knowledge : String → Entry → String → ℕ → Knowledge
new_knowledge id a digest now = record {
  knowledge_id = id;
  project_id = a.project_id;
  scope = a.scope;
  classification = a.classification;
  kind = a.kind;
  title = a.title;
  content = a.content;
  source = a.source;
  source_revision = a.source_revision;
  evidence_label = a.evidence_label;
  review_state = a.review_state;
  valid_until = a.valid_until;
  content_hash = digest;
  created_at = now;
  updated_at = now;
}

abbrev pub index_of : Knowledge → Indexed
index_of r = record { knowledge_id = r.knowledge_id; title = r.title; content = r.content }

unfoldable pub get_knowledge : String → Exec Db Knowledge
get_knowledge knowledge_id = fetch (λ db. find knowledge_id db.knowledge) not_found

-- the write to the index under `if self.fts_enabled`
unfoldable pub index_knowledge : Knowledge → Db → Db
index_knowledge r db =
    if db.fts_enabled
    then record db { knowledge_fts = insert (index_of r) db.knowledge_fts }
    else db

unfoldable pub add_knowledge :
    Codec → Engines → Entry → Option String → ℕ → String → Exec Db Knowledge
unfolding nullable
add_knowledge c e a knowledge_id now fresh = do
  check (λ _. is_some (classification_rank a.classification)) value_error
  check (λ _. is_knowledge_kind a.kind) value_error
  check (λ _. is_evidence_label a.evidence_label) value_error
  check (λ _. is_review_state a.review_state) value_error
  check
      (λ _. not (
        is_blank a.project_id
        || is_blank a.scope
        || is_blank a.title
        || is_blank a.content
        || is_blank a.source))
      value_error
  check (λ _. is_aware e a.valid_until) value_error
  let id = or_else knowledge_id fresh
  validated_id "knowledge" id
  digest ← lift (content_hash c (identity a))
  transaction do
    insert_knowledge (new_knowledge id a digest now)
    modify (index_knowledge (new_knowledge id a digest now))
  get_knowledge id

-- the write to the index under `if self.fts_enabled`
unfoldable pub unindex_knowledge : String → Db → Db
unindex_knowledge id db =
    if db.fts_enabled then record db { knowledge_fts = delete id db.knowledge_fts } else db

-- DELETE, the test of its rowcount, and the index
unfoldable pub forget_knowledge : String → Exec Db (Unit {0})
forget_knowledge knowledge_id = transaction do
  rowcount ←
      statement (λ db. count (λ r. r.knowledge_id == knowledge_id) db.knowledge)
        (λ db. record db { knowledge = delete knowledge_id db.knowledge })
  check (λ _. nat_eq rowcount 1) not_found
  modify (unindex_knowledge knowledge_id)

-- k.classification IN (the names whose rank is at most the given one)
unfoldable pub is_within : ℕ → Option ℕ → Bool
is_within max_rank none = false
is_within max_rank (some rank) = leb rank max_rank

-- the WHERE clause that both queries share
unfoldable pub is_allowed : String → List String → ℕ → Knowledge → Bool
is_allowed project_id scopes max_rank r =
    r.project_id == project_id
    && any (λ s. s == r.scope) scopes
    && is_within max_rank (classification_rank r.classification)

-- ORDER BY updated_at DESC
newer : Knowledge → Knowledge → Bool
newer a b = ltb b.updated_at a.updated_at

-- ORDER BY bm25(knowledge_fts), k.updated_at DESC
better : Knowledge × ℕ → Knowledge × ℕ → Bool
better (a, m) (b, n) = ltb m n || nat_eq m n && ltb b.updated_at a.updated_at

-- knowledge JOIN knowledge_fts, over the index rows that match
unfoldable pub joined_rows :
    (Knowledge → Bool) → List Knowledge → List (Indexed × ℕ) → List (Knowledge × ℕ)
joined_rows test rows [] = []
joined_rows test rows ((f, rank) ∷ rest) =
    map (λ r. (r, rank)) (filter (λ r. r.knowledge_id == f.knowledge_id && test r) rows)
    ++ joined_rows test rows rest

-- LIMIT ?, of an integer that sqlite3 binds; `search_knowledge` refuses the others
unfoldable pub limited : ℤ → List Knowledge → List Knowledge
limited (pos n) rows = take n rows
limited (negsuc n) rows = rows

unfoldable pub by_match :
    (Knowledge → Bool) → ℤ → List Knowledge → Option (List (Indexed × ℕ)) → List Knowledge
unfolding better
by_match test limit rows none = []
by_match test limit rows (some hits) =
    limited limit (map (λ p. p.0) (order_by better (joined_rows test rows hits)))

unfoldable pub query_knowledge :
    Engines → String → String → List String → ℕ → ℤ → Db → List Knowledge
unfolding by_match newer
query_knowledge e project_id query scopes max_rank limit db =
    if not (is_blank query) && db.fts_enabled
    then by_match (is_allowed project_id scopes max_rank) limit db.knowledge
        (e.matches query db.knowledge_fts)
    else limited limit (
        order_by newer (
          filter
            (λ r.
              is_allowed project_id scopes max_rank r
              && (e.contains query r.title || e.contains query r.content))
            db.knowledge))

-- sqlite3 cannot bind an integer from 2 ^ 63 on to LIMIT ?, and raises OverflowError
unfoldable pub search_knowledge :
    Engines → String → String → List String → String → ℤ → Exec Db (List Knowledge)
search_knowledge e project_id query allowed_scopes max_classification limit = do
  max_rank ← lift (found value_error (classification_rank max_classification))
  check (λ _. not (lt_ℤ limit (pos 1))) value_error
  check (λ _. is_empty allowed_scopes || lt_ℤ limit (pos (2 ^ 63))) overflow_error
  statement
      (λ db.
        if is_empty allowed_scopes
        then []
        else query_knowledge e project_id query allowed_scopes max_rank limit db)
      (λ db. db)
