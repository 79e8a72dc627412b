-- ===== src/Engine/Admission/Once.antt =====
-- When `dispatch` of qingtian_engine/admission.py calls its dispatcher, and what a retry does.
use qingtian_ai.Engine.Admission.{AdmissionRequest, Desk, Facts, Receipt}
use qingtian_ai.Engine.Admission.Dispatch.{
  AdmissionCall, Dispatcher, Reservation, Validation, confirm, dispatch, granted, new_request,
  replied, reserve, run_reserved,
}
use qingtian_ai.Engine.Admission.Orders.{Order, order_of}
use qingtian_ai.Engine.Admission.Reserve.{Clear, Noted, Reserved, reserve_lem, reserved}
use qingtian_ai.Engine.Lifecycle.{Host}
use qingtian_ai.Exec.{Result, attempt, err, lift, ok, ◌>>=◌}
use qingtian_ai.Exec.Rules.Rollback.{Atomic}
use qingtian_ai.Prelude.{List, String, inl, inr, map, refl, ◌≡◌, ◌⊎◌}

module _ (host : Host) (validation : Validation) (c : AdmissionCall) where
  -- The request is clear and its pending receipt is committed when the dispatcher is called.
  pub record Dispatches (db : Desk) (o : Order) : Type 0 where
    pub facts_read : Facts
    pub receipt : Receipt
    pub committed : Desk
    pub clear : Clear host validation c o db facts_read
    pub added : Noted (new_request c o facts_read) receipt db committed
    pub is_pending : receipt.state ≡ "pending"
    pub continues :
        (dispatcher : Dispatcher)
        → dispatch host c dispatcher validation db
          ≡ attempt
              (dispatcher c.task_id o.instruction o.resume)
              (confirm host c
                (new_request c o facts_read)
                facts_read.scope_hash
                (map (λ r. r.id) facts_read.runs))
              committed

  -- the call does the same whatever the dispatcher does
  abbrev pub NeverDispatches : Desk → Type 0
  NeverDispatches db =
      (d e : Dispatcher) → dispatch host c d validation db ≡ dispatch host c e validation db

  Reserved-Dispatches :
      {db committed : Desk} {o : Order} {r : AdmissionRequest} {scope : String} {seen : List String}
      → order_of host c.payload ≡ ok o
      → reserve host validation c o db ≡ (ok (granted r scope seen), committed)
      → Reserved host validation c o db (granted r scope seen) committed
      → Dispatches db o
  unfolding dispatch ◌>>=◌ lift run_reserved
  Reserved-Dispatches {db} {committed} {o} p q (reserved f a clear n is_pending) = record {
    facts_read = f;
    receipt = a;
    committed = committed;
    clear = clear;
    added = n;
    is_pending = is_pending;
    continues = λ dispatcher. rw (p, q) refl;
  }

  by_reservation :
      {db : Desk} {o : Order} (x : Result Reservation × Desk)
      → order_of host c.payload ≡ ok o
      → reserve host validation c o db ≡ x
      → Atomic (reserve host validation c o) db (Reserved host validation c o db)
      → NeverDispatches db ⊎ Dispatches db o
  unfolding dispatch ◌>>=◌ lift run_reserved
  by_reservation (err e, s) p q h = inl (λ d d'. rw (p, q) refl)
  by_reservation (ok (replied pr), s) p q h = inl (λ d d'. rw (p, q) refl)
  by_reservation (ok (granted r scope seen), s) p q h =
      inr (Reserved-Dispatches p q (h.returned (granted r scope seen) s q))

  by_order :
      (db : Desk) (x : Result Order)
      → order_of host c.payload ≡ x
      → NeverDispatches db ⊎ ((o : Order) × (order_of host c.payload ≡ ok o) × Dispatches db o)
  unfolding dispatch ◌>>=◌ lift
  by_order db (err e) p = inl (λ d d'. rw p refl)
  by_order db (ok o) p =
      elim (by_reservation (reserve host validation c o db) p refl
        (reserve_lem host validation c o db)) [
          | inl never ↦ inl never
          | inr dispatches ↦ inr (o, p, dispatches)
        ]

  -- A call of `dispatch` either does not depend on its dispatcher, or its payload is well formed,
  -- its key is new, the revision is current, nothing stops the task, no request of it is open, no
  -- run of it is active, the parameters are valid, and then it adds the request with a pending
  -- receipt, commits both, calls the dispatcher once and confirms with its result.
  pub dispatch_cases :
      (db : Desk)
      → NeverDispatches db ⊎ ((o : Order) × (order_of host c.payload ≡ ok o) × Dispatches db o)
  dispatch_cases db = by_order db (order_of host c.payload) refl
