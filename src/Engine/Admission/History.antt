-- ===== src/Engine/Admission/History.antt =====
-- Any sequence of the transactions of `dispatch` in qingtian_engine/admission.py, by any clients,
-- between writes of the other tables. A client that stops before it confirms takes no further step.
use qingtian_ai.Engine.Admission.{
  AdmissionRequest, Dependency, Desk, Receipt, RunTarget, TaskVersion,
}
use qingtian_ai.Engine.Admission.Confirm.{Confirmed, confirm_lem}
use qingtian_ai.Engine.Admission.Dispatch.{AdmissionCall, Reservation, Validation, confirm, reserve}
use qingtian_ai.Engine.Admission.Orders.{Order}
use qingtian_ai.Engine.Admission.Receipts.{unconfirmed}
use qingtian_ai.Engine.Admission.Reserve.{
  Noted, Reserved, declined, reserve_lem, reserved, shown_again,
}
use qingtian_ai.Engine.Lifecycle.{
  Database, Host, engine_task_key, execution_key, handoff_key, intake_key, managed_run_key,
  notice_key, version_key,
}
use qingtian_ai.Engine.Lifecycle.History.{empty_database}
use qingtian_ai.Exec.{Result}
use qingtian_ai.Exec.Reads.{Atomic-after, Atomic-mono}
use qingtian_ai.Prelude.{
  Bool, List, Option, String, [], any, any-append, ap, arith, eq_self, false, inl, inr, refl, subst,
  sym, true, ◌&&◌, ◌++◌, ◌==◌, ◌∷◌, ◌≡◌,
}

-- the request is there
unfoldable pub has_row : List AdmissionRequest → String → String → Bool
has_row requests id task_id = any (λ q. q.id == id && q.task_id == task_id) requests

module _ (host : Host) where
  pub data AdmissionStep (db : Desk) : Desk → Type 0 where
    reserving :
        (validation : Validation) (c : AdmissionCall) (o : Order)
        → AdmissionStep db (reserve host validation c o db).1
    confirming :
        (c : AdmissionCall) (r : AdmissionRequest) (scope : String) (seen : List String)
        (result : Result (Option String))
        → has_row db.requests r.id r.task_id ≡ true
        → AdmissionStep db (confirm host c r scope seen result db).1
    elsewhere :
        (life : Database) (dependencies : List Dependency) (versions : List TaskVersion)
        (targets : List RunTarget)
        → AdmissionStep db (record db {
          life = life;
          dependencies = dependencies;
          versions = versions;
          targets = targets;
        })

  pub data AdmissionSteps (db : Desk) : Desk → Type 0 where
    here : AdmissionSteps db db
    next :
        {db' db'' : Desk} → AdmissionSteps db db' → AdmissionStep db' db'' → AdmissionSteps db db''

-- What a step adds: nothing, a request that is declined or reserved with a receipt, or the receipt of
-- a confirmation.
pub data Adds (db : Desk) : Desk → Type 0 where
  nothing : {db' : Desk} → db'.requests ≡ db.requests → db'.receipts ≡ db.receipts → Adds db db'
  settled_one :
      (a : Receipt) {db' : Desk}
      → db'.receipts ≡ db.receipts ++ a ∷ []
      → ((id task_id : String)
          → has_row db.requests id task_id ≡ true
          → has_row db'.requests id task_id ≡ true)
      → has_row db'.requests a.request_id a.task_id ≡ true
      → (a.state == "pending") ≡ false
      → Adds db db'
  pending_one :
      (a : Receipt) {db' : Desk}
      → db'.receipts ≡ db.receipts ++ a ∷ []
      → ((id task_id : String)
          → has_row db.requests id task_id ≡ true
          → has_row db'.requests id task_id ≡ true)
      → has_row db'.requests a.request_id a.task_id ≡ true
      → unconfirmed a.task_id db ≡ false
      → Adds db db'

abbrev pub empty_desk : Desk
empty_desk = record {
  life = empty_database;
  dependencies = [];
  versions = [];
  targets = [];
  requests = [];
  receipts = [];
}

has_row-insert :
    (requests : List AdmissionRequest) (r : AdmissionRequest) (id task_id : String)
    → has_row requests id task_id ≡ true
    → has_row (requests ++ r ∷ []) id task_id ≡ true
unfolding has_row
has_row-insert requests r id task_id h = rw (any-append _ requests (r ∷ []), h) refl

pub has_row-new :
    (requests : List AdmissionRequest) (r : AdmissionRequest)
    → has_row (requests ++ r ∷ []) r.id r.task_id ≡ true
unfolding has_row any
has_row-new requests r =
    rw (any-append (λ q. q.id == r.id && q.task_id == r.task_id) requests (r ∷ []))
      (ground (arith, eq_self r.id, eq_self r.task_id))

pub Noted-rows :
    {db db' : Desk} {r : AdmissionRequest} {a : Receipt}
    → Noted r a db db'
    → (((id task_id : String)
          → has_row db.requests id task_id ≡ true
          → has_row db'.requests id task_id ≡ true)
        × (has_row db'.requests a.request_id a.task_id ≡ true)
        × (db'.receipts ≡ db.receipts ++ a ∷ []))
Noted-rows {db} {db'} {r} {a} n = (
  λ id task_id h.
      subst (λ (x : Desk). has_row x.requests id task_id ≡ true) (sym n.after)
        (has_row-insert db.requests r id task_id h),
  subst (λ (x : Desk). has_row x.requests a.request_id a.task_id ≡ true) (sym n.after)
      (rw (n.request, n.task) (has_row-new db.requests r)),
  ap (λ (x : Desk). x.receipts) n.after,
)

module _ (host : Host) where
  Reserved-Adds :
      {validation : Validation} {c : AdmissionCall} {o : Order} {db db' : Desk} {x : Reservation}
      → Reserved host validation c o db x db'
      → Adds db db'
  Reserved-Adds (shown_again p r) = nothing refl refl
  Reserved-Adds (declined p r a new n answered_it) =
      let (kept, known, more) = Noted-rows n in settled_one a more kept known answered_it
  Reserved-Adds {db = db} (reserved f a clear n is_pending) =
      let (kept, known, more) = Noted-rows n in
      pending_one a more kept known
        (subst (λ t. unconfirmed t db ≡ false) (sym n.task) clear.confirmed)

  Confirmed-Adds :
      {c : AdmissionCall} {r : AdmissionRequest} {scope : String} {seen : List String}
      {result : Result (Option String)} {db db' : Desk}
      → has_row db.requests r.id r.task_id ≡ true
      → Confirmed host c r scope seen result db db'
      → Adds db db'
  Confirmed-Adds {db = db} known d =
      settled_one d.receipt (ap (λ (x : Desk). x.receipts) d.after)
        (λ id task_id h. subst (λ (x : Desk). has_row x.requests id task_id ≡ true) (sym d.after) h)
        (subst (λ (x : Desk). has_row x.requests d.receipt.request_id d.receipt.task_id ≡ true)
          (sym d.after) (rw (d.request, d.task) known))
        (elim d.binds [ inl (run, state, _, _) ↦ rw state refl | inr (state, _) ↦ rw state refl ])

  pub AdmissionStep-Adds : {db db' : Desk} → AdmissionStep host db db' → Adds db db'
  AdmissionStep-Adds {db} (reserving validation c o) =
      Atomic-after (reserve host validation c o) (Adds db)
        (Atomic-mono (reserve_lem host validation c o db) λ a s r. Reserved-Adds r)
        (nothing refl refl)
  AdmissionStep-Adds {db} (confirming c r scope seen result known) =
      Atomic-after (confirm host c r scope seen result) (Adds db)
        (Atomic-mono (confirm_lem host c r scope seen result db) λ a s d. Confirmed-Adds known d)
        (nothing refl refl)
  AdmissionStep-Adds (elsewhere life dependencies versions targets) = nothing refl refl
