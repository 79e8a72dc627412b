-- ===== src/Engine/Admission/Reserve.antt =====
-- What the first transaction of `dispatch` in qingtian_engine/admission.py does, and when it lets
-- the dispatcher be called.
-- a receipt is added with the request that it answers
use qingtian_ai.Engine.Admission.{AdmissionRequest, Desk, Facts, Projection, Receipt}
use qingtian_ai.Engine.Admission.Decisions.{decision-none, decision-state, guard-NotPending}
use qingtian_ai.Engine.Admission.Dispatch.{
  AdmissionCall, Reservation, Validation, decide, decision_for, entry_of, granted,
  insert_admission_request, is_prior, is_revision, new_request, replay, replied, reserve,
  reserve_new, reserve_or_replay,
}
use qingtian_ai.Engine.Admission.Orders.{Order}
use qingtian_ai.Engine.Admission.Projections.{active_runs, or_latest}
use qingtian_ai.Engine.Admission.Reading.{guard}
use qingtian_ai.Engine.Admission.Reads.{Added, FactsOf, Post-append, Post-facts, Post-project}
use qingtian_ai.Engine.Admission.Receipts.{max_sequence, receipts_of, unconfirmed}
use qingtian_ai.Engine.Lifecycle.{Host, ManagedRun}
use qingtian_ai.Engine.Lifecycle.Snapshots.{last}
use qingtian_ai.Exec.{ok}
use qingtian_ai.Exec.Reads.{Post-reads}
use qingtian_ai.Exec.Rules.{
  Post, Post-bind, Post-check, Post-fetch, Post-lift, Post-modify_last, Post-mono, Post-pure,
  Post-statement,
}
use qingtian_ai.Exec.Rules.Rollback.{Atomic, Atomic-transaction_last}
use qingtian_ai.Prelude.{
  Option, String, [], false, filter, first, map, none, refl, some, true, ◌++◌, ◌+◌, ◌==◌, ◌∷◌, ◌≡◌,
}

pub record Noted (r : AdmissionRequest) (a : Receipt) (db db' : Desk) : Type 0 where
  pub after : db' ≡ record db { requests = db.requests ++ r ∷ []; receipts = db.receipts ++ a ∷ [] }
  pub request : a.request_id ≡ r.id
  pub task : a.task_id ≡ r.task_id
  pub next : a.sequence ≡ max_sequence db.receipts + 1

module _ (host : Host) (validate : Validation) (c : AdmissionCall) (o : Order) where
  -- what has been checked when a request is dispatched
  pub record Clear (db : Desk) (f : Facts) : Type 0 where
    pub read : FactsOf host c.now c.task_id db f
    pub new : first (is_prior c.task_id o.idempotency_key) db.requests ≡ none
    pub current : is_revision f.revision o.expected_revision ≡ true
    pub unstopped : guard host f ≡ none
    pub confirmed : unconfirmed c.task_id db ≡ false
    pub idle : active_runs f.runs ≡ []
    pub valid : validate f.task o.resume ≡ ok tt

  -- the reply to a known key: the last receipt of its request
  pub record Replay (db : Desk) (p : Projection) : Type 0 where
    pub prior : AdmissionRequest
    pub known : first (is_prior c.task_id o.idempotency_key) db.requests ≡ some prior
    pub same : (prior.payload_hash == o.payload_hash) ≡ true
    pub receipt : Receipt
    pub latest :
        last (filter (λ a. a.request_id == prior.id) (receipts_of c.task_id db)) ≡ some receipt
    pub shown : p.receipt ≡ some receipt
    pub reused : p.reused ≡ true

  pub data Reserved (db : Desk) : Reservation → Desk → Type 0 where
    shown_again : (p : Projection) → Replay db p → Reserved db (replied p) db
    declined :
        (p : Projection) (r : AdmissionRequest) (a : Receipt) {db' : Desk}
        → first (is_prior c.task_id o.idempotency_key) db.requests ≡ none
        → Noted r a db db'
        → (a.state == "pending") ≡ false
        → Reserved db (replied p) db'
    reserved :
        (f : Facts) (a : Receipt) {db' : Desk}
        → Clear db f
        → Noted (new_request c o f) a db db'
        → a.state ≡ "pending"
        → Reserved db (granted (new_request c o f) f.scope_hash (map (λ r. r.id) f.runs)) db'

  Post-replay :
      (f : Facts) (prior : AdmissionRequest) {db : Desk}
      → first (is_prior c.task_id o.idempotency_key) db.requests ≡ some prior
      → Post (replay host validate c o f prior) db (Reserved db)
  unfolding replay or_latest
  Post-replay f prior known = Post-check _ _ _ λ same. Post-fetch _ _ _ λ a latest.
      Post-reads _ _ (Post-project host f _ _) λ p shown. Post-pure _ _ (
        shown_again p (record {
          prior = prior;
          known = known;
          same = same;
          receipt = a;
          latest = latest;
          shown = shown.0;
          reused = shown.1;
        }))

  Noted-of_draft :
      {f : Facts} {s r : String} {run : Option ManagedRun} {db db' : Desk} {a : Receipt}
      → Added
          (entry_of c (new_request c o f) f s r run)
          (record db { requests = db.requests ++ new_request c o f ∷ [] })
          a
          db'
      → Noted (new_request c o f) a db db'
  Noted-of_draft h = record { after = h.after; request = h.request; task = h.task; next = h.next }

  Post-decide :
      (f : Facts) {db : Desk}
      → FactsOf host c.now c.task_id db f
      → first (is_prior c.task_id o.idempotency_key) db.requests ≡ none
      → is_revision f.revision o.expected_revision ≡ true
      → (d : Option (String × String × Option ManagedRun))
      → decision_for host o f
          (unconfirmed c.task_id db)
          (record db { requests = db.requests ++ new_request c o f ∷ [] })
          (guard host f)
        ≡ d
      → Post
          (decide host validate c o f d)
          (record db { requests = db.requests ++ new_request c o f ∷ [] })
          (Reserved db)
  unfolding decide
  Post-decide f read new current (some (s, r, run)) e = Post-bind _ _ (
      Post-mono (Post-append _) λ a db' added. Post-reads _ _ (Post-project host f _ _) λ p _.
        Post-pure _ _ (
          declined p (new_request c o f) a new (Noted-of_draft added) (
            rw added.state
              (decision-state host o f _ _ (guard host f) (guard-NotPending host f) e))))
  Post-decide f read new current none e = Post-lift _ _ λ u valid. Post-bind _ _ (
      Post-mono (Post-append _) λ a db' added.
        let (unstopped, confirmed, idle) = decision-none host o f _ _ (guard host f) e in
        Post-pure _ _ (
          reserved f a
            (record {
              read = read;
              new = new;
              current = current;
              unstopped = unstopped;
              confirmed = confirmed;
              idle = idle;
              valid = valid;
            })
            (Noted-of_draft added) added.state))

  Post-reserve_new :
      (f : Facts) {db : Desk}
      → FactsOf host c.now c.task_id db f
      → first (is_prior c.task_id o.idempotency_key) db.requests ≡ none
      → Post (reserve_new host validate c o f) db (Reserved db)
  unfolding reserve_new insert_admission_request
  Post-reserve_new f {db} read new = Post-check _ _ _ λ current. Post-statement _ _ _ (
      Post-bind _ _ (
        Post-check _ _ _ λ unused.
          Post-modify_last _ (Post-statement _ _ _ (Post-decide f read new current _ refl))))

  Post-reserve_or_replay :
      (f : Facts) {db : Desk}
      → FactsOf host c.now c.task_id db f
      → (prior : Option AdmissionRequest)
      → first (is_prior c.task_id o.idempotency_key) db.requests ≡ prior
      → Post (reserve_or_replay host validate c o f prior) db (Reserved db)
  unfolding reserve_or_replay
  Post-reserve_or_replay f read (some prior) e = Post-replay f prior e
  Post-reserve_or_replay f read none e = Post-reserve_new f read e

  -- The first transaction replays a known request, notes a request that is not dispatched with its
  -- receipt, or reserves a clear one; if it raises, it has written nothing.
  pub reserve_lem : (db : Desk) → Atomic (reserve host validate c o) db (Reserved db)
  unfolding reserve
  reserve_lem db = Atomic-transaction_last _ (
      Post-reads _ _ (Post-facts host c.now c.task_id)
        λ f read. Post-statement _ _ _ (Post-reserve_or_replay f read _ refl))
