-- ===== src/Engine/Lifecycle/Handled.antt =====
-- The table of the handlers of `apply` in qingtian_engine/lifecycle.py: each writes only what
-- `Change` allows.
use qingtian_ai.Engine.Lifecycle.{
  Database, EngineTask, Host, engine_task_key, execution_key, handoff_key, intake_key,
  managed_run_key, notice_key, version_key,
}
use qingtian_ai.Engine.Lifecycle.Amend.{amend}
use qingtian_ai.Engine.Lifecycle.Apply.{Handler, actions}
use qingtian_ai.Engine.Lifecycle.Calls.{amend-Writes, reconcile-Writes}
use qingtian_ai.Engine.Lifecycle.Distinct.{Distinct}
use qingtian_ai.Engine.Lifecycle.Executions.{external_activity, external_finish, external_register}
use qingtian_ai.Engine.Lifecycle.Handlers.{
  Writes, handoff_offer-Writes, handoff_resolve-Writes, outbox_ack-Writes, outbox_claim-Writes,
  receipt-Writes,
}
use qingtian_ai.Engine.Lifecycle.Handoffs.{
  handoff_accept, handoff_offer, handoff_reject, handoff_resolve,
}
use qingtian_ai.Engine.Lifecycle.Outbox.{outbox_ack, outbox_claim, reconcile}
use qingtian_ai.Engine.Lifecycle.Work.{
  external_activity-Writes, external_finish-Writes, external_register-Writes,
}
use qingtian_ai.Engine.Waiting.{lookup}
use qingtian_ai.Json.{Entries}
use qingtian_ai.Prelude.{
  All, Bool-cases, List, String, [], eq→≡, false, if◌then◌else◌, inl, inr, some, subst, subst₂,
  true, ℕ, ◌==◌, ◌∷◌, ◌≡◌,
}
use qingtian_ai.Store.Table.{find}

-- what holds of every value of a dict holds of the one that is looked up
pub lookup-All :
    {A : Type 0} (P : A → Type 0) (k : String) (xs : List (String × A)) {v : A}
    → lookup k xs ≡ some v
    → All (λ x. P x.1) xs
    → P v
unfolding lookup
lookup-All P k [] h a = cc
lookup-All P k ((j, w) ∷ rest) {v} h a = elim (Bool-cases (j == k)) [
  | inl b ↦
      let q : some w ≡ some v = subst (λ c. (if c then some w else lookup k rest) ≡ some v) b h in
      subst P (cc q) a.0
  | inr b ↦
      lookup-All P k rest (subst (λ c. (if c then some w else lookup k rest) ≡ some v) b h) a.1
]

-- which handler an action names
pub data IsHandlerOf : String → Handler → Type 0 where
  amends : IsHandlerOf "amend" amend
  registers : IsHandlerOf "external-register" external_register
  reports : IsHandlerOf "external-activity" external_activity
  finishes : IsHandlerOf "external-finish" external_finish
  offers : IsHandlerOf "handoff-offer" handoff_offer
  accepts : IsHandlerOf "handoff-accept" handoff_accept
  rejects : IsHandlerOf "handoff-reject" handoff_reject
  resolves : IsHandlerOf "handoff-resolve" handoff_resolve
  claims : IsHandlerOf "outbox-claim" outbox_claim
  acknowledges : IsHandlerOf "outbox-ack" outbox_ack
  reconciles : IsHandlerOf "reconcile" reconcile

-- the same of a key and its value
pub lookup-Named :
    {A : Type 0} (P : String → A → Type 0) (k : String) (xs : List (String × A)) {v : A}
    → lookup k xs ≡ some v
    → All (λ x. P x.0 x.1) xs
    → P k v
unfolding lookup
lookup-Named P k [] h a = cc
lookup-Named P k ((j, w) ∷ rest) {v} h a = elim (Bool-cases (j == k)) [
  | inl b ↦
      let q : some w ≡ some v = subst (λ c. (if c then some w else lookup k rest) ≡ some v) b h in
      subst₂ P (eq→≡ j k b) (cc q) a.0
  | inr b ↦
      lookup-Named P k rest (subst (λ c. (if c then some w else lookup k rest) ≡ some v) b h) a.1
]

pub actions-named : All (λ (x : String × Handler). IsHandlerOf x.0 x.1) actions
actions-named = (
  amends,
  (
    registers,
    (
      reports,
      (
        finishes,
        (offers, (accepts, (rejects, (resolves, (claims, (acknowledges, (reconciles, tt))))))),
      ),
    ),
  ),
)

module _ (host : Host) where
  -- a handler that writes only what `Change` allows
  abbrev pub Lawful : Handler → Type 0
  Lawful f =
      (fresh : String) (t : EngineTask) (p : Entries) (now : ℕ) (db : Database)
      → find t.id db.tasks ≡ some t
      → Distinct db.executions
      → Writes (f host fresh t p now) db

  pub handlers-Lawful : All (λ (x : String × Handler). Lawful x.1) actions
  unfolding handoff_accept handoff_reject
  handlers-Lawful = (
    λ fresh t p now db here d. amend-Writes host fresh t p now db here,
    (
      λ fresh t p now db here d. external_register-Writes host fresh t p now db here,
      (
        λ fresh t p now db here d. external_activity-Writes host fresh t p now db,
        (
          λ fresh t p now db here d. external_finish-Writes host fresh t p now db,
          (
            λ fresh t p now db here d. handoff_offer-Writes host fresh t p now db here,
            (
              λ fresh t p now db here d. receipt-Writes host true t p now db,
              (
                λ fresh t p now db here d. receipt-Writes host false t p now db,
                (
                  λ fresh t p now db here d. handoff_resolve-Writes host fresh t p now db,
                  (
                    λ fresh t p now db here d. outbox_claim-Writes host fresh t p now db,
                    (
                      λ fresh t p now db here d. outbox_ack-Writes host fresh t p now db,
                      (λ fresh t p now db here d. reconcile-Writes host fresh t p now db d, tt),
                    ),
                  ),
                ),
              ),
            ),
          ),
        ),
      ),
    ),
  )
