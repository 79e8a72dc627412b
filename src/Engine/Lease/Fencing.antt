-- ===== src/Engine/Lease/Fencing.antt =====
-- The fencing tokens of qingtian_engine/coordinator.py over any sequence of calls.
use qingtian_ai.Engine.Lease.{Acquire, Lease, acquire_lease, at_least_15, is_held, next_token}
use qingtian_ai.Prelude.{
  Bool-cases, List, Option, String, [], arith, eq→≡, false, inl, inr, ltb, none, not, refl, some,
  subst, sym, ℕ, ◌&&◌, ◌+◌, ◌<◌, ◌==◌, ◌∙◌, ◌∷◌, ◌≡◌, ◌⊎◌,
}

-- The row after a sequence of calls, the earliest first.
unfoldable pub after_calls : List Acquire → Option Lease → Option Lease
after_calls [] row = row
after_calls (a ∷ rest) row = after_calls rest (acquire_lease a row).1

-- what is to be shown of a later row: a larger token, or the same token and the same holder
abbrev Follows : ℕ → String → Option Lease → Type 0
Follows token holder none = ⊥
Follows token holder (some l) =
    (token < l.fencing_token) ⊎ ((l.fencing_token ≡ token) × (l.holder_id ≡ holder))

acquire-Follows :
    (token : ℕ) (holder : String) (a : Acquire) (row : Option Lease)
    → Follows token holder row
    → Follows token holder (acquire_lease a row).1
unfolding acquire_lease is_held next_token
acquire-Follows token holder a none h = absurd h
acquire-Follows token holder a (some l) h =
    elim (Bool-cases (not (l.holder_id == a.holder_id) && ltb a.now l.expires_at)) [
      | inl b ↦ rw b h
      | inr b ↦ rw b (elim (Bool-cases (l.holder_id == a.holder_id)) [
        | inl e ↦
            rw e
              (elim h [ inl less ↦ inl less | inr same ↦ inr (same.0, sym (eq→≡ _ _ e) ∙ same.1) ])
        | inr e ↦
            rw e
              (inl (elim h [ inl less ↦ omega (arith, less) | inr same ↦ omega (arith, same.0) ]))
      ])
    ]

after-Follows :
    (token : ℕ) (holder : String) (calls : List Acquire) (row : Option Lease)
    → Follows token holder row
    → Follows token holder (after_calls calls row)
unfolding after_calls
after-Follows token holder [] row h = h
after-Follows token holder (a ∷ calls) row h =
    after-Follows token holder calls (acquire_lease a row).1 (acquire-Follows token holder a row h)

-- the row that an acquisition writes
acquired_row :
    (a : Acquire) (row : Option Lease) (token : ℕ)
    → (acquire_lease a row).0 ≡ some token
    → (acquire_lease a row).1
      ≡ some (record {
        holder_id = a.holder_id;
        fencing_token = token;
        expires_at = a.now + at_least_15 a.lease_seconds;
      })
unfolding acquire_lease
acquired_row a row token h = elim (Bool-cases (is_held a.holder_id a.now row)) [
  | inl b ↦ ground arith
  | inr b ↦ rw b (ground arith)
]

-- Of two calls that return a token, with any calls in between and at any times, the later token is
-- not smaller, and it is larger unless the coordinators are the same.
pub tokens_fence :
    (a b : Acquire) (between : List Acquire) (row : Option Lease) (m n : ℕ)
    → (acquire_lease a row).0 ≡ some m
    → (acquire_lease b (after_calls between (acquire_lease a row).1)).0 ≡ some n
    → (m < n) ⊎ ((n ≡ m) × (b.holder_id ≡ a.holder_id))
tokens_fence a b between row m n first_token second_token =
    let held = acquired_row a row m first_token in
    let later =
      after-Follows m a.holder_id between (acquire_lease a row).1
        (subst (Follows m a.holder_id) (sym held) (inr (refl, refl))) in
    subst (Follows m a.holder_id)
      (acquired_row b (after_calls between (acquire_lease a row).1) n second_token)
      (acquire-Follows m a.holder_id b (after_calls between (acquire_lease a row).1) later)

held_refused :
    (b : Acquire) (l : Lease)
    → (l.holder_id == b.holder_id) ≡ false
    → b.now < l.expires_at
    → acquire_lease b (some l) ≡ (none, some l)
unfolding acquire_lease is_held
held_refused b l distinct soon = ground arith

-- While a lease that was acquired has not expired, no other coordinator acquires it, and the row
-- stays as it is.
pub lease_exclusive :
    (a b : Acquire) (row : Option Lease) (m : ℕ)
    → (acquire_lease a row).0 ≡ some m
    → (a.holder_id == b.holder_id) ≡ false
    → b.now < a.now + at_least_15 a.lease_seconds
    → acquire_lease b (acquire_lease a row).1 ≡ (none, (acquire_lease a row).1)
lease_exclusive a b row m got distinct soon =
    subst (λ r. acquire_lease b r ≡ (none, r)) (sym (acquired_row a row m got))
      (held_refused b _ distinct soon)
