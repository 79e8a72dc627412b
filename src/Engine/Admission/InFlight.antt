-- ===== src/Engine/Admission/InFlight.antt =====
-- One dispatch at a time: the receipts of qingtian_engine/admission.py, whatever clients call it.
use qingtian_ai.Engine.Admission.{AdmissionRequest, Desk, Receipt}
use qingtian_ai.Engine.Admission.History.{
  Adds, AdmissionStep-Adds, AdmissionSteps, empty_desk, has_row, here, next, nothing, pending_one,
  settled_one,
}
use qingtian_ai.Engine.Admission.Receipts.{is_latest, is_unconfirmed, unconfirmed}
use qingtian_ai.Engine.Lifecycle.{Host}
use qingtian_ai.Prelude.{
  All, Bool, Bool-cases, List, String, [], all-append, any, any_mono, arith, count,
  count-append_one, count_mono, count_none, eq_iff, eq→≡, false, if◌then◌else◌, inl, inr, leb, not,
  refl, subst, sym, true, ◌&&◌, ◌++◌, ◌+◌, ◌==◌, ◌||◌, ◌∙◌, ◌∷◌, ◌≡◌, ◌≤◌,
}

-- the receipt is the last of its request, and the request is being dispatched
unfoldable pub is_in_dispatch : String → List Receipt → Receipt → Bool
is_in_dispatch task_id receipts a =
    a.task_id == task_id && (is_latest a receipts && a.state == "pending")

-- every receipt has its request; of each task at most one request is being dispatched
record Orderly (db : Desk) : Type 0 where
  known : All (λ a. has_row db.requests a.request_id a.task_id ≡ true) db.receipts
  one : (task_id : String) → count (is_in_dispatch task_id db.receipts) db.receipts ≤ 1

All-append_one :
    {A : Type 0} (P : A → Type 0) (xs : List A) {x : A} → All P xs → P x → All P (xs ++ x ∷ [])
All-append_one P [] h p = (p, tt)
All-append_one P (y ∷ xs) h p = (h.0, All-append_one P xs h.1 p)

All-imp :
    {A : Type 0} (P Q : A → Type 0) (xs : List A) → ((x : A) → P x → Q x) → All P xs → All Q xs
All-imp P Q [] f h = tt
All-imp P Q (x ∷ xs) f h = (f x h.0, All-imp P Q xs f h.1)

-- a later receipt of another request leaves it the last one
is_in_dispatch-later :
    (task_id : String) (receipts : List Receipt) (b a : Receipt)
    → is_in_dispatch task_id (receipts ++ b ∷ []) a ≡ true
    → is_in_dispatch task_id receipts a ≡ true
unfolding is_in_dispatch is_latest
is_in_dispatch-later task_id receipts b a h =
    let split =
      all-append (λ x. not (x.request_id == a.request_id) || leb x.sequence a.sequence) receipts
        (b ∷ []) in
    ground (arith, split)

count-open :
    (task_id : String) (receipts : List Receipt) (b : Receipt)
    → count (is_in_dispatch task_id (receipts ++ b ∷ [])) (receipts ++ b ∷ [])
      ≤ count (is_in_dispatch task_id receipts) receipts
        + (if is_in_dispatch task_id (receipts ++ b ∷ []) b then 1 else 0)
count-open task_id receipts b = omega (
  arith,
  count-append_one (is_in_dispatch task_id (receipts ++ b ∷ [])) receipts b,
  count_mono (is_in_dispatch task_id (receipts ++ b ∷ [])) (is_in_dispatch task_id receipts)
      receipts (is_in_dispatch-later task_id receipts b),
)

-- a test of two rows, one of them in a list
any-split :
    {A B : Type 0} (t : A → Bool) (q : A → B → Bool) (x : B) (xs : List B) (rows : List A)
    → any (λ r. t r && any (q r) (x ∷ xs)) rows ≡ false
    → (any (λ r. t r && q r x) rows ≡ false) × (any (λ r. t r && any (q r) xs) rows ≡ false)
unfolding any
any-split t q x xs [] h = (refl, refl)
any-split t q x xs (r ∷ rows) h =
    let (a, b) = any-split t q x xs rows (ground arith) in (ground arith, ground arith)

module _ (task_id : String) (receipts : List Receipt) (requests : List AdmissionRequest) where
  abbrev answers : AdmissionRequest → Receipt → Bool
  answers r a = a.request_id == r.id && is_latest a receipts && is_unconfirmed a.state

  open-answers :
      (a : Receipt)
      → is_in_dispatch task_id receipts a ≡ true
      → (r : AdmissionRequest) → (r.id == a.request_id && r.task_id == a.task_id) ≡ true
      → (r.task_id == task_id && answers r a) ≡ true
  unfolding is_in_dispatch is_unconfirmed
  open-answers a opened r same = ground (
    arith,
    eq_iff r.id a.request_id,
    eq_iff a.request_id r.id,
    eq_iff r.task_id a.task_id,
    eq_iff a.task_id task_id,
    eq_iff r.task_id task_id,
  )

  not_open :
      (a : Receipt)
      → has_row requests a.request_id a.task_id ≡ true
      → any (λ r. r.task_id == task_id && answers r a) requests ≡ false
      → is_in_dispatch task_id receipts a ≡ false
  unfolding has_row
  not_open a known none_of = elim (Bool-cases (is_in_dispatch task_id receipts a)) [
    | inr e ↦ e
    | inl e ↦
        let one : any (λ r. r.task_id == task_id && answers r a) requests ≡ true =
          any_mono (λ q. q.id == a.request_id && q.task_id == a.task_id) _ requests
            (open-answers a e) known in
        absurd (cc (sym one ∙ none_of))
  ]

  none_open :
      (xs : List Receipt)
      → All (λ a. has_row requests a.request_id a.task_id ≡ true) xs
      → any (λ r. r.task_id == task_id && any (answers r) xs) requests ≡ false
      → All (λ a. is_in_dispatch task_id receipts a ≡ false) xs
  none_open [] known h = tt
  none_open (a ∷ xs) known h =
      let (p, q) = any-split (λ r. r.task_id == task_id) answers a xs requests h in
      (not_open a known.0 p, none_open xs known.1 q)

unconfirmed-count :
    (task_id : String) (db : Desk)
    → All (λ a. has_row db.requests a.request_id a.task_id ≡ true) db.receipts
    → unconfirmed task_id db ≡ false
    → count (is_in_dispatch task_id db.receipts) db.receipts ≡ 0
unfolding unconfirmed
unconfirmed-count task_id db known h =
    count_none _ _ (none_open task_id db.receipts db.requests db.receipts known h)

-- the new receipt is not a dispatch of another task, nor one that has been answered
is_in_dispatch-other :
    (task_id : String) (receipts : List Receipt) (a : Receipt)
    → (a.task_id == task_id) ≡ false
    → is_in_dispatch task_id receipts a ≡ false
unfolding is_in_dispatch
is_in_dispatch-other task_id receipts a h = rw h refl

is_in_dispatch-settled :
    (task_id : String) (receipts : List Receipt) (a : Receipt)
    → (a.state == "pending") ≡ false
    → is_in_dispatch task_id receipts a ≡ false
unfolding is_in_dispatch
is_in_dispatch-settled task_id receipts a h = ground arith

Adds-Orderly : {db db' : Desk} → Orderly db → Adds db db' → Orderly db'
Adds-Orderly h (nothing requests receipts) = record {
  known = rw (requests, receipts) h.known;
  one = λ task_id. rw receipts (h.one task_id);
}
Adds-Orderly {db} {db'} h (settled_one a more kept known settled) = record {
  known = subst (All (λ x. has_row db'.requests x.request_id x.task_id ≡ true)) (sym more) (
      All-append_one _ db.receipts
        (All-imp _ _ db.receipts (λ x p. kept x.request_id x.task_id p) h.known) known);
  one = λ task_id.
      let e = is_in_dispatch-settled task_id (db.receipts ++ a ∷ []) a settled in
      rw more (ground (arith, count-open task_id db.receipts a, h.one task_id));
}
Adds-Orderly {db} {db'} h (pending_one a more kept known free) = record {
  known = subst (All (λ x. has_row db'.requests x.request_id x.task_id ≡ true)) (sym more) (
      All-append_one _ db.receipts
        (All-imp _ _ db.receipts (λ x p. kept x.request_id x.task_id p) h.known) known);
  one = λ task_id. rw more (elim (Bool-cases (a.task_id == task_id)) [
    | inr other_task ↦
        let e = is_in_dispatch-other task_id (db.receipts ++ a ∷ []) a other_task in
        ground (arith, count-open task_id db.receipts a, h.one task_id)
    | inl same ↦
        let e =
          unconfirmed-count task_id db h.known
            (subst (λ t. unconfirmed t db ≡ false) (eq→≡ _ _ same) free) in
        ground (arith, count-open task_id db.receipts a)
  ]);
}

-- Whatever clients call `dispatch`, whatever their dispatchers return, wherever one of them stops,
-- and whatever is written to the other tables between their transactions, at most one request of a
-- task is being dispatched: at most one of its receipts is pending and the last of its request.
pub one_dispatch_in_flight :
    (host : Host) {db : Desk}
    → AdmissionSteps host empty_desk db
    → (task_id : String) → count (is_in_dispatch task_id db.receipts) db.receipts ≤ 1
unfolding count
one_dispatch_in_flight host steps task_id = (orderly steps).one task_id
  where
    orderly : {db : Desk} → AdmissionSteps host empty_desk db → Orderly db
    orderly here = record { known = tt; one = λ t. omega arith }
    orderly (next before s) = Adds-Orderly (orderly before) (AdmissionStep-Adds host s)
