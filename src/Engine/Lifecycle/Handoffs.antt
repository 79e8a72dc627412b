-- ===== src/Engine/Lifecycle/Handoffs.antt =====
-- qingtian_engine/lifecycle.py: the handlers of the handoffs, `_handoff_offer`, `_receipt` with its
-- two callers, and `_handoff_resolve`.
use qingtian_ai.Engine.Lifecycle.{
  Artifact, Database, EngineTask, Handoff, HandoffStatus, Host, accepted, engine_task_key,
  execution_key, handoff_key, intake_key, managed_run_key, notice_key, offered, rejected, resolved,
  version_key,
}
use qingtian_ai.Engine.Lifecycle.Checks.{
  artifacts_of, choice, common, each_text, identifier, invalid, items_of, reference, require, sha,
  shape, stages, text, timestamp, ◌and_then◌,
}
use qingtian_ai.Engine.Lifecycle.Executions.{field, handoff_of, is_accepted}
use qingtian_ai.Engine.Lifecycle.Guards.{executable, is_resolved, notify}
use qingtian_ai.Exec.{
  Exec, Result, check, integrity_error, lifecycle_error, lift, modify, ok, pure, when, ◌>>=◌, ◌>>◌,
}
use qingtian_ai.Json.{Entries, Value, bool, dict, end, str}
use qingtian_ai.Json.Dicts.{count_items, get}
use qingtian_ai.Prelude.{
  Bool, List, String, [], false, if◌then◌else◌, is_some, leb, ltb, none, not, some, true, ℕ, ◌&&◌,
  ◌++◌, ◌==◌, ◌||◌, ◌∷◌,
}
use qingtian_ai.Store.Table.{find, insert, update}

unfoldable pub insert_handoff : Handoff → Exec Database (Unit {0})
insert_handoff h = do
  check (λ db. not (is_some (find h.id db.handoffs))) integrity_error
  modify (λ db. record db { handoffs = insert h db.handoffs })

unfoldable pub update_handoff : String → (Handoff → Handoff) → Database → Database
update_handoff id f db = record db { handoffs = update id f db.handoffs }

abbrev pub new_handoff :
    Host → String → String → String → String → ℕ → String → String → List Artifact → ℕ → Handoff
new_handoff host fresh task_id sender recipient deadline stage next_action artifacts now = record {
  id = fresh;
  task_id = task_id;
  sender = sender;
  recipient = recipient;
  deadline = deadline;
  stage = stage;
  next_action = next_action;
  artifacts = artifacts;
  manifest_sha256 = host.manifest_hash artifacts;
  status = offered;
  accepted_at = none;
  rejected_at = none;
  rejection_reason = "";
  missing_items = [];
  resolved_at = none;
  resolution_ref = "";
  resolution = "";
  created_at = now;
}

-- `_handoff_offer`; `fresh` is the new identifier
unfoldable pub handoff_offer : Host → String → EngineTask → Entries → ℕ → Exec Database Value
handoff_offer host fresh t p now = do
  lift
      (shape (common ++ "recipient" ∷ "deadline" ∷ "stage" ∷ "next_action" ∷ "artifacts" ∷ []) [] p)
  executable host t
  recipient ← lift (identifier host (get "recipient" p))
  actor ← lift (identifier host (get "actor" p))
  check (λ db. not (recipient == actor)) invalid
  deadline ← lift (timestamp host (get "deadline" p))
  check (λ db. ltb now deadline) invalid
  stage ← lift (choice stages (get "stage" p))
  next_action ← lift (text host 500 false (get "next_action" p))
  artifacts ← lift (artifacts_of host true (get "artifacts" p))
  insert_handoff
      (new_handoff host fresh t.id actor recipient deadline stage next_action artifacts now)
  notify host t.id (fresh ∷ []) (some fresh) recipient "handoff.offered" now
  pure (
      dict (
        field "handoff_id" (str fresh) (
          field "manifest_sha256" (str (host.manifest_hash artifacts))
            (field "accepted" (bool false) (field "native_delivery" (bool false) end)))))

unfoldable pub is_offered : HandoffStatus → Bool
is_offered offered = true
is_offered _ = false

-- the columns that `_receipt` writes
abbrev pub answered : Bool → ℕ → String → List String → Handoff → Handoff
answered true now reason missing h = record h {
  status = accepted;
  accepted_at = some now;
  rejection_reason = reason;
  missing_items = missing;
}
answered false now reason missing h = record h {
  status = rejected;
  rejected_at = some now;
  rejection_reason = reason;
  missing_items = missing;
}

abbrev pub answer_name : Bool → String
answer_name true = "accepted"
answer_name false = "rejected"

-- the reason and the missing items of a rejection
unfoldable pub rejection : Host → Bool → Entries → Result (String × List String)
rejection host true p = ok ("", [])
rejection host false p = text host 500 false (get "reason" p) and_then λ reason.
    items_of (get "missing_items" p) and_then λ xs.
    require (leb 1 (count_items xs) && leb (count_items xs) 50) and_then λ _.
    each_text host xs and_then λ missing. ok (reason, missing)

abbrev pub rejection_names : Bool → List String
rejection_names true = []
rejection_names false = "reason" ∷ "missing_items" ∷ []

-- `_receipt`
unfoldable pub receipt : Host → Bool → EngineTask → Entries → ℕ → Exec Database Value
receipt host is_accepting t p now = do
  lift (shape (common ++ "handoff_id" ∷ "manifest_sha256" ∷ rejection_names is_accepting) [] p)
  h ← handoff_of host t p
  when is_accepting (executable host t)
  actor ← lift (identifier host (get "actor" p))
  check (λ db. actor == h.recipient) (lifecycle_error "identity_mismatch")
  check (λ db. is_offered h.status && ltb now h.deadline) (lifecycle_error "stale_receipt")
  digest ← lift (sha (get "manifest_sha256" p))
  check (λ db. digest == h.manifest_sha256) (lifecycle_error "manifest_mismatch")
  refusal ← lift (rejection host is_accepting p)
  modify (update_handoff h.id (answered is_accepting now refusal.0 refusal.1))
  notify host t.id (h.id ∷ []) (some h.id) h.sender
      (if is_accepting then "handoff.accepted" else "handoff.rejected") now
  pure (
      dict (
        field "handoff_id" (str h.id) (
          field "status" (str (answer_name is_accepting)) (
            field "execution_started" (bool false) (field "completion_granted" (bool false) end)))))

unfoldable pub handoff_accept : Host → String → EngineTask → Entries → ℕ → Exec Database Value
handoff_accept host fresh = receipt host true

unfoldable pub handoff_reject : Host → String → EngineTask → Entries → ℕ → Exec Database Value
handoff_reject host fresh = receipt host false

abbrev pub closed_handoff : ℕ → String → String → Handoff → Handoff
closed_handoff now reference_text resolution h = record h {
  status = resolved;
  resolved_at = some now;
  resolution_ref = reference_text;
  resolution = resolution;
}

-- `_handoff_resolve`
unfoldable pub handoff_resolve : Host → String → EngineTask → Entries → ℕ → Exec Database Value
handoff_resolve host fresh t p now = do
  lift (shape (common ++ "handoff_id" ∷ "resolution" ∷ "resolution_ref" ∷ []) [] p)
  h ← handoff_of host t p
  actor ← lift (identifier host (get "actor" p))
  check (λ db. actor == h.sender) (lifecycle_error "identity_mismatch")
  check (λ db. not (is_resolved h.status)) (lifecycle_error "conflict")
  resolution ← lift (choice ("completed" ∷ "withdrawn" ∷ "superseded" ∷ []) (get "resolution" p))
  check (λ db. not (resolution == "completed") || is_accepted h.status) invalid
  reference_text ← lift (reference host (get "resolution_ref" p))
  modify (update_handoff h.id (closed_handoff now reference_text resolution))
  notify host t.id (h.id ∷ []) (some h.id) h.recipient "handoff.resolved" now
  pure (
      dict (
        field "handoff_id" (str h.id)
          (field "status" (str "resolved") (field "completion_granted" (bool false) end))))
