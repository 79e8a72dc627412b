-- ===== src/Engine/Lease.antt =====
-- qingtian_engine/coordinator.py: the lease of the recovery coordinator, the one row of
-- orchestrator_leases with its key; the children from Evidence on have its contracts of evidence.
pub mod Fencing
pub mod Evidence
pub mod Synced
pub mod Newest
pub mod Required
pub mod Gate
use qingtian_ai.Prelude.{
  Bool, Option, String, false, if◌then◌else◌, ltb, none, not, some, ℕ, ◌&&◌, ◌+◌, ◌==◌,
}

pub record Lease : Type 0 where
  pub holder_id : String
  pub fencing_token : ℕ
  pub expires_at : ℕ

-- A call of `acquire_lease`: the coordinator, its lease_seconds and the time.
pub record Acquire : Type 0 where
  pub holder_id : String
  pub lease_seconds : ℕ
  pub now : ℕ

-- self.lease_seconds = max(15, int(lease_seconds))
unfoldable pub at_least_15 : ℕ → ℕ
at_least_15 n = if ltb n 15 then 15 else n

-- the token and the row that a call writes over a row
unfoldable pub next_token : String → Option Lease → ℕ
next_token holder none = 1
next_token holder (some l) =
    if not (l.holder_id == holder) then l.fencing_token + 1 else l.fencing_token

unfoldable pub is_held : String → ℕ → Option Lease → Bool
is_held holder now none = false
is_held holder now (some l) = not (l.holder_id == holder) && ltb now l.expires_at

-- the token that is returned, if one is, and the row
unfoldable pub acquire_lease : Acquire → Option Lease → Option ℕ × Option Lease
acquire_lease a row = if is_held a.holder_id a.now row then (none, row) else (
  some (next_token a.holder_id row),
  some (record {
    holder_id = a.holder_id;
    fencing_token = next_token a.holder_id row;
    expires_at = a.now + at_least_15 a.lease_seconds;
  }),
)
