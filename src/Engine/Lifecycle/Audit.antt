-- ===== src/Engine/Lifecycle/Audit.antt =====
-- qingtian_engine/lifecycle.py: the events table and `_record`, with its redaction.
use Prim.Native.String.{◌++◌ as text_append}
use qingtian_ai.Engine.Lifecycle.{Database, Event, Host}
use qingtian_ai.Engine.Lifecycle.Executions.{field}
use qingtian_ai.Exec.{Exec, check, integrity_error, modify, ◌>>◌}
use qingtian_ai.Json.{Entries, Items, Value, dict, end, entry, int, item, list, nil, str}
use qingtian_ai.Json.Dicts.{is_this_text}
use qingtian_ai.Prelude.{String, after, any, if◌then◌else◌, not, ℕ, ◌==◌, ◌∷◌}
use qingtian_ai.Prelude.Int.{pos}

unfoldable pub insert_event : Event → Exec Database (Unit {0})
insert_event event = do
  check (λ db. not (any (λ e. e.dedupe_key == event.dedupe_key) db.events)) integrity_error
  modify (λ db. record db { events = event ∷ db.events })

-- `safe` of `_record`: texts are redacted, and no claim_token is kept
unfoldable mutual
  pub safe : Host → Value → Value
  safe host (str s) = str (host.redact_text s)
  safe host (list xs) = list (safe_items host xs)
  safe host (dict es) = dict (safe_entries host es)
  safe host v = v

  pub safe_items : Host → Items → Items
  safe_items host nil = nil
  safe_items host (item v rest) = item (safe host v) (safe_items host rest)

  pub safe_entries : Host → Entries → Entries
  safe_entries host end = end
  safe_entries host (entry k v rest) =
      let others = safe_entries host rest in
      if is_this_text "claim_token" k then others else entry k (safe host v) others

-- the event of `_record`
abbrev pub audit : Host → String → String → String → String → String → ℕ → ℕ → ℕ → Value → Event
audit host task_id action actor source_ref idempotency_key now before after outcome = record {
  task_id = task_id;
  event_type = text_append "lifecycle." action;
  producer = actor;
  summary = text_append "Lifecycle " action;
  payload = safe host (
      dict (
        field "source_ref" (str source_ref) (
          field "actor" (str actor) (
            field "before_revision" (int (pos before))
              (field "after_revision" (int (pos after)) (field "result" outcome end))))));
  dedupe_key = text_append "lifecycle:" (text_append task_id (text_append ":" idempotency_key));
  occurred_at = now;
}
