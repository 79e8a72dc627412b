-- ===== src/Engine/Admission/Orders.antt =====
-- qingtian_engine/admission.py: what `dispatch` reads of its payload.
use qingtian_ai.Engine.Admission.Columns.{digest_of, picked}
use qingtian_ai.Engine.Lifecycle.{Host}
use qingtian_ai.Engine.Lifecycle.Checks.{◌and_then◌}
use qingtian_ai.Exec.{Error, Result, admission_error, err, ok, passed}
use qingtian_ai.Json.{Entries, Value, bool, dict, end, entry, int, str}
use qingtian_ai.Json.Dicts.{get, has_names, is_this_text, only_names}
use qingtian_ai.Prelude.{
  Bool, List, Option, String, [], codes, false, if◌then◌else◌, is_blank, length, ltb, none, some, ℕ,
  ◌&&◌, ◌||◌, ◌∷◌,
}
use qingtian_ai.Prelude.Int.{pos}

-- what the call reads of its payload
pub record Order : Type 0 where
  pub instruction : String
  pub idempotency_key : String
  pub expected_revision : ℕ
  pub resume : Bool
  pub payload_hash : String
  pub intent_hash : String

-- dict(payload, name=value)
unfoldable pub with_entry : String → Value → Entries → Entries
with_entry name v end = entry (str name) v end
with_entry name v (entry k w rest) =
    let later = with_entry name v rest in
    if is_this_text name k then entry k v rest else entry k w later

abbrev pub or_false : Option Value → Value
or_false none = bool false
or_false (some v) = v

abbrev pub required : List String
required = "instruction" ∷ "idempotency_key" ∷ "expected_revision" ∷ []

abbrev pub invalid_order : Error
invalid_order = admission_error "invalid"

unfoldable pub bounded_text : ℕ → Option Value → Result String
bounded_text limit (some (str s)) =
    if is_blank s || ltb limit (length (codes s)) then err invalid_order else ok s
bounded_text limit _ = err invalid_order

unfoldable pub resume_of : Option Value → Result Bool
resume_of (some (bool b)) = ok b
resume_of _ = err invalid_order

unfoldable pub revision_from : Option Value → Result ℕ
revision_from (some (int (pos n))) = if ltb n 1 then err invalid_order else ok n
revision_from _ = err invalid_order

-- the checks of `dispatch` before it reads the database
unfoldable pub order_of : Host → Entries → Result Order
order_of host payload =
    let normalized = with_entry "resume" (or_false (get "resume" payload)) payload in
    passed invalid_order (has_names required payload && only_names ("resume" ∷ required) payload)
    and_then λ _. bounded_text 32000 (get "instruction" normalized) and_then λ instruction.
        bounded_text 128 (get "idempotency_key" normalized) and_then λ idempotency_key.
        resume_of (get "resume" normalized) and_then λ resume.
        revision_from (get "expected_revision" normalized) and_then λ expected_revision.
        ok (record {
          instruction = instruction;
          idempotency_key = idempotency_key;
          expected_revision = expected_revision;
          resume = resume;
          payload_hash = digest_of host (dict normalized);
          intent_hash = digest_of host (dict (picked ("instruction" ∷ "resume" ∷ []) normalized));
        })
