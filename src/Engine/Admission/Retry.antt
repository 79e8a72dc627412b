-- ===== src/Engine/Admission/Retry.antt =====
-- A retry of `dispatch` in qingtian_engine/admission.py.
use qingtian_ai.Engine.Admission.{AdmissionRequest, Desk, Projection}
use qingtian_ai.Engine.Admission.Dispatch.{
  AdmissionCall, Dispatcher, Reservation, Validation, dispatch, is_prior, replied, reserve,
  run_reserved,
}
use qingtian_ai.Engine.Admission.Orders.{Order, order_of}
use qingtian_ai.Engine.Admission.Reserve.{
  Replay, Reserved, declined, reserve_lem, reserved, shown_again,
}
use qingtian_ai.Engine.Lifecycle.{Host}
use qingtian_ai.Exec.{Result, err, lift, ok, pure, ◌>>=◌}
use qingtian_ai.Exec.Rules.Rollback.{Atomic, Atomic-raised, Atomic-returned}
use qingtian_ai.Prelude.{first, refl, some, sym, ◌∙◌, ◌≡◌}

module _ (host : Host) (validation : Validation) (c : AdmissionCall) (dispatcher : Dispatcher) where
  known_reply :
      {db s : Desk} {o : Order} {prior : AdmissionRequest} {a : Reservation}
      → first (is_prior c.task_id o.idempotency_key) db.requests ≡ some prior
      → Reserved host validation c o db a s
      → (p : Projection) × (a ≡ replied p) × (s ≡ db) × Replay host validation c o db p
  known_reply known (shown_again p r) = (p, refl, refl, r)
  known_reply known (declined p r a new n settled) = absurd (cc (sym known ∙ new))
  known_reply known (reserved f a clear n is_pending) = absurd (cc (sym known ∙ clear.new))

  by_reservation :
      {db : Desk} {o : Order} {prior : AdmissionRequest} (x : Result Reservation × Desk)
      → order_of host c.payload ≡ ok o
      → first (is_prior c.task_id o.idempotency_key) db.requests ≡ some prior
      → reserve host validation c o db ≡ x
      → Atomic (reserve host validation c o) db (Reserved host validation c o db)
      → Atomic
          (dispatch host c dispatcher validation)
          db
          (λ p db'. (db' ≡ db) × Replay host validation c o db p)
  unfolding dispatch ◌>>=◌ lift run_reserved pure
  by_reservation (err e, s) p known q h =
      Atomic-raised {t = s} {c = e} (rw (p, q) refl) (h.raised e s q)
  by_reservation (ok a, s) p known q h =
      let (reply, is, same, shown) = known_reply known (h.returned a s q) in
      Atomic-returned {t = s} {a = reply} (rw (p, q, is) refl) (same, shown)

  -- A call of `dispatch` whose key the task has seen raises, or shows the last receipt of the first
  -- call, marked as reused, if the payload is the same. Either way it changes nothing, and its
  -- dispatcher is not called.
  pub retry_replayed :
      (db : Desk) (o : Order) (prior : AdmissionRequest)
      → order_of host c.payload ≡ ok o
      → first (is_prior c.task_id o.idempotency_key) db.requests ≡ some prior
      → Atomic
          (dispatch host c dispatcher validation)
          db
          (λ p db'. (db' ≡ db) × Replay host validation c o db p)
  retry_replayed db o prior p known =
      by_reservation (reserve host validation c o db) p known refl
        (reserve_lem host validation c o db)
