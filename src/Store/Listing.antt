-- ===== src/Store/Listing.antt =====
-- `list_tasks` of QingtianStore (qingtian_core/store.py).
use qingtian_ai.Exec.{Exec, Result, err, lift, ok, statement, ◌>>=◌}
use qingtian_ai.Json.{Codec, Value}
use qingtian_ai.Prelude.{
  All, All-filter_of, All-order_by, Bool, List, Option, String, [], any, any-filter, any-order_by,
  ap, ap₂, filter, if◌then◌else◌, ltb, map, none, or_else, order_by, refl, some, true, truthy, ◌&&◌,
  ◌==◌, ◌∙◌, ◌∷◌, ◌≡◌,
}
use qingtian_ai.Store.Rows.{Db, Task}
use qingtian_ai.Store.Tasks.{TaskView, decode_task, decoded}

-- the WHERE clause, which a project that is None or empty leaves out
unfoldable pub in_project : Option String → Task → Bool
in_project project_id r = if truthy project_id then r.project_id == or_else project_id "" else true

-- ORDER BY updated_at DESC
recent : Task → Task → Bool
recent a b = ltb b.updated_at a.updated_at

cons_view : Result TaskView → Result (List TaskView) → Result (List TaskView)
cons_view (ok v) (ok vs) = ok (v ∷ vs)
cons_view (ok v) (err e) = err e
cons_view (err e) rest = err e

-- the list of the decoded rows; the first row that does not decode raises
unfoldable pub decode_tasks : Codec → List Task → Result (List TaskView)
unfolding cons_view
decode_tasks c [] = ok []
decode_tasks c (r ∷ rs) = cons_view (decode_task c r) (decode_tasks c rs)

unfoldable pub list_tasks : Codec → Option String → Exec Db (List TaskView)
unfolding recent
list_tasks c project_id = do
  rows ← statement (λ db. order_by recent (filter (in_project project_id) db.tasks)) (λ db. db)
  lift (decode_tasks c rows)

row-decode_task : (c : Codec) (r : Task) {v : TaskView} → decode_task c r ≡ ok v → v.row ≡ r
unfolding decode_task
row-decode_task c r h = go (c.loads r.scope_json) (c.loads r.acceptance_json) h
  where
    go : (s a : Option Value) {v : TaskView} → decoded r s a ≡ ok v → v.row ≡ r
    go (some s) (some a) h = cc
    go none a h = cc
    go (some s) none h = cc

abbrev pub Readable : Codec → Task → Type 0
Readable c r = (v : TaskView) × (decode_task c r ≡ ok v)

decode_tasks_lem :
    (c : Codec) (rs : List Task)
    → All (Readable c) rs
    → (vs : List TaskView) × (decode_tasks c rs ≡ ok vs) × (map (λ v. v.row) vs ≡ rs)
unfolding decode_tasks cons_view
decode_tasks_lem c [] h = ([], refl, refl)
decode_tasks_lem c (r ∷ rs) h =
    let (v, p) = h.0 in
    let (vs, q, e) = decode_tasks_lem c rs h.1 in
    (v ∷ vs, rw (p, q) refl, ap₂ (λ x xs. x ∷ xs) (row-decode_task c r p) e)

-- If every task's row decodes, `list_tasks` returns and changes nothing, and a test holds of a row
-- that it returns exactly if it holds of a task of the project (of any task, without a project).
pub list_tasks_exact :
    (c : Codec) (project_id : Option String) (p : Task → Bool) (db : Db)
    → All (Readable c) db.tasks
    → (views : List TaskView) × (list_tasks c project_id db ≡ (ok views, db))
      × (any p (map (λ v. v.row) views) ≡ any (λ r. in_project project_id r && p r) db.tasks)
unfolding list_tasks ◌>>=◌ statement lift
list_tasks_exact c project_id p db readable =
    let (views, q, e) =
      decode_tasks_lem c (order_by recent (filter (in_project project_id) db.tasks))
        (All-order_by (Readable c) recent _ (All-filter_of (Readable c) _ db.tasks readable)) in
    (
      views,
      rw q refl,
      ap (any p) e ∙ any-order_by p recent _ ∙ any-filter p (in_project project_id) db.tasks,
    )
