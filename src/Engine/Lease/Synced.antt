-- ===== src/Engine/Lease/Synced.antt =====
-- What the statements of `sync_evidence_contracts` in qingtian_engine/coordinator.py do to a row.
use qingtian_ai.Engine.Lease.Evidence.{
  EvidenceContract, Ledger, contract_for, contract_of, is_in, is_met, is_of, is_required,
  put_contract, put_contracts, relax,
}
use qingtian_ai.Prelude.{
  &&-left, &&-right, Bool-cases, List, String, [], any, ap, arith, eq_self, eq→≡, false, first, inl,
  inr, map, not, not-both, refl, some, subst, sym, true, ℕ, ◌&&◌, ◌==◌, ◌∙◌, ◌∷◌, ◌≡◌,
}

pub eq_false_sym : (s t : String) → (s == t) ≡ false → (t == s) ≡ false
eq_false_sym s t h = elim (Bool-cases (t == s)) [
  | inl e ↦ absurd (not-both (subst (λ x. (x == t) ≡ false) (sym (eq→≡ t s e)) h) (eq_self t))
  | inr e ↦ e
]

is_of_self : (c : EvidenceContract) → is_of c.task_id c.kind c ≡ true
unfolding is_of
is_of_self c = rw (eq_self c.task_id) (eq_self c.kind)

-- a row with a key has its two columns
of_key :
    (task_id k : String) (c : EvidenceContract)
    → is_of task_id k c ≡ true
    → (c.task_id ≡ task_id) × (c.kind ≡ k)
unfolding is_of
of_key task_id k c h = (
  eq→≡ _ _ (&&-left (c.task_id == task_id) (c.kind == k) h),
  eq→≡ _ _ (&&-right (c.task_id == task_id) (c.kind == k) h),
)

contract_of-put_same :
    (c : EvidenceContract) (cs : List EvidenceContract)
    → contract_of c.task_id c.kind (put_contract c cs) ≡ some c
unfolding contract_of put_contract first
contract_of-put_same c [] = rw (is_of_self c) refl
contract_of-put_same c (old ∷ rest) = elim (Bool-cases (is_of c.task_id c.kind old)) [
  | inl e ↦ rw e (rw (is_of_self c) refl)
  | inr e ↦ rw e (rw e (contract_of-put_same c rest))
]

is_of_same :
    (task_id k : String) (c old : EvidenceContract)
    → is_of c.task_id c.kind old ≡ true
    → is_of task_id k old ≡ is_of task_id k c
unfolding is_of
is_of_same task_id k c old e =
    let (same_task, same_kind) = of_key c.task_id c.kind old e in rw same_task (rw same_kind refl)

contract_of-put_other :
    (task_id k : String) (c : EvidenceContract) (cs : List EvidenceContract)
    → is_of task_id k c ≡ false
    → contract_of task_id k (put_contract c cs) ≡ contract_of task_id k cs
unfolding contract_of put_contract first
contract_of-put_other task_id k c [] h = rw h refl
contract_of-put_other task_id k c (old ∷ rest) h = elim (Bool-cases (is_of c.task_id c.kind old)) [
  | inl e ↦ rw e (rw h (rw (is_of_same task_id k c old e ∙ h) refl))
  | inr e ↦ rw e (elim (Bool-cases (is_of task_id k old)) [
    | inl f ↦ rw f refl
    | inr f ↦ rw f (contract_of-put_other task_id k c rest h)
  ])
]

module _ (now : ℕ) (db : Ledger) where
  -- a key that is not among the kinds of a task keeps its row
  pub put_contracts_kept :
      (task_id k t : String) (ks : List String) (cs : List EvidenceContract)
      → (t == task_id && is_in k ks) ≡ false
      → contract_of task_id k (put_contracts now db t ks cs) ≡ contract_of task_id k cs
  unfolding put_contracts is_in any contract_for is_of
  put_contracts_kept task_id k t [] cs h = refl
  put_contracts_kept task_id k t (j ∷ ks) cs h =
      put_contracts_kept task_id k t ks (put_contract (contract_for now db t j) cs) (ground arith)
      ∙ contract_of-put_other task_id k (contract_for now db t j) cs (ground arith)

  pub put_contracts_written :
      (t k : String) (ks : List String) (cs : List EvidenceContract)
      → is_in k ks ≡ true
      → contract_of t k (put_contracts now db t ks cs) ≡ some (contract_for now db t k)
  unfolding put_contracts contract_for is_in any
  put_contracts_written t k [] cs h = absurd (cc)
  put_contracts_written t k (j ∷ ks) cs h = elim (Bool-cases (is_in k ks)) [
    | inl e ↦ put_contracts_written t k ks (put_contract (contract_for now db t j) cs) e
    | inr e ↦
        let same : j ≡ k = eq→≡ j k (ground arith) in
        put_contracts_kept t k t ks (put_contract (contract_for now db t j) cs)
          (rw e (ground arith))
        ∙ subst
            (λ x.
              contract_of t x (put_contract (contract_for now db t j) cs)
              ≡ some (contract_for now db t x))
            same (contract_of-put_same (contract_for now db t j) cs)
  ]

  is_of-relax :
      (a k t : String) (ks : List String) (c : EvidenceContract)
      → is_of a k (relax now t ks c) ≡ is_of a k c
  unfolding relax is_of
  is_of-relax a k t ks c = ground arith

  relax_id :
      (a k t : String) (ks : List String) (c : EvidenceContract)
      → is_of a k c ≡ true
      → (a == t && not (is_in k ks)) ≡ false
      → relax now t ks c ≡ c
  unfolding relax
  relax_id a k t ks c e h =
      let (same_task, same_kind) = of_key a k c e in rw same_task (rw same_kind (rw h refl))

  relax_off :
      (t k : String) (ks : List String) (c : EvidenceContract)
      → is_of t k c ≡ true
      → is_in k ks ≡ false
      → (relax now t ks c).required ≡ false
  unfolding relax
  relax_off t k ks c e h =
      let (same_task, same_kind) = of_key t k c e in
      rw same_task (rw same_kind (rw h (rw (eq_self t) refl)))

  -- the last update of a task leaves the rows of its kinds, and those of other tasks
  pub relax_kept :
      (a k t : String) (ks : List String) (cs : List EvidenceContract)
      → (a == t && not (is_in k ks)) ≡ false
      → contract_of a k (map (relax now t ks) cs) ≡ contract_of a k cs
  unfolding contract_of first
  relax_kept a k t ks [] h = refl
  relax_kept a k t ks (c ∷ cs) h = elim (Bool-cases (is_of a k c)) [
    | inl e ↦ rw (is_of-relax a k t ks c) (rw e (ap some (relax_id a k t ks c e h)))
    | inr e ↦ rw (is_of-relax a k t ks c) (rw e (relax_kept a k t ks cs h))
  ]

  pub relax_cleared :
      (t k : String) (ks : List String) (cs : List EvidenceContract)
      → is_in k ks ≡ false
      → (is_required (contract_of t k (map (relax now t ks) cs)) ≡ false)
        × (is_met (contract_of t k (map (relax now t ks) cs)) ≡ false)
  unfolding contract_of first is_required is_met
  relax_cleared t k ks [] h = (refl, refl)
  relax_cleared t k ks (c ∷ cs) h = elim (Bool-cases (is_of t k c)) [
    | inl e ↦
        rw (is_of-relax t k t ks c) (rw e (let off = relax_off t k ks c e h in (off, rw off refl)))
    | inr e ↦ rw (is_of-relax t k t ks c) (rw e (relax_cleared t k ks cs h))
  ]
