-- ===== src/Exec/Reads.antt =====
-- Rules for actions that only read, in front of the rest of a method.
use qingtian_ai.Exec.{Error, Exec, Result, err, modify, ok, pure, statement, ◌>>=◌}
use qingtian_ai.Exec.Rules.{Post, Post-bind, Post-mono, Post-pure}
use qingtian_ai.Exec.Rules.Rollback.{Atomic}
use qingtian_ai.Prelude.{
  Option, ap, is_some, none, not, refl, some, subst, subst₂, sym, true, ◌∙◌, ◌≡◌,
}

module _ {S A B : Type 0} {s : S} {Q : B → S → Type 0} where
  pub Post-reads :
      (m : Exec S A) (k : A → Exec S B) {F : A → Type 0}
      → Post m s (λ a s'. (s' ≡ s) × F a)
      → ((a : A) → F a → Post (k a) s Q)
      → Post (m >>= k) s Q
  Post-reads m k facts h =
      Post-bind m k (Post-mono facts λ a s' f. subst (λ t. Post (k a) t Q) (sym f.0) (h a f.1))

  -- an action whose writes the rest need not know
  pub Post-then_pure :
      (m : Exec S A) (b : A → B) → Post m s (λ a s'. Q (b a) s') → Post (m >>= λ a. pure (b a)) s Q
  Post-then_pure m b h = Post-bind m _ (Post-mono h λ a s' q. Post-pure (b a) s' q)

module _ {S A : Type 0} where
  pub Post-statement_last :
      (report : S → A) (f : S → S) {s : S} {Q : A → S → Type 0}
      → Q (report s) (f s)
      → Post (statement report f) s Q
  unfolding statement
  Post-statement_last report f {s} {Q} h = record {
    at = λ a s' e. let p : report s ≡ a = cc in subst₂ Q p (ap (λ (x : Result A × S). x.1) e) h;
  }

module _ {S A : Type 0} where
  settled_by :
      {m : Exec S A} {s : S} {Q : S → Type 0} (x : Result A × S)
      → m s ≡ x
      → Atomic m s (λ _ s'. Q s')
      → Q s
      → Q x.1
  settled_by (ok a, s') e h q = h.returned a s' e
  settled_by {Q = Q} (err c, s') e h q = subst Q (sym (h.raised c s' e)) q

  -- the state after a call, whether it returns or raises
  pub Atomic-after :
      (m : Exec S A) {s : S} (Q : S → Type 0) → Atomic m s (λ _ s'. Q s') → Q s → Q (m s).1
  Atomic-after m {s} Q h q = settled_by (m s) refl h q

  -- a call that cannot have returned has raised
  pub Atomic-raises :
      {m : Exec S A} {s : S} {Q : A → S → Type 0} (x : Result A × S)
      → m s ≡ x
      → Atomic m s Q
      → ((a : A) (s' : S) → Q a s' → ⊥)
      → (e : Error) × (m s ≡ (err e, s))
  Atomic-raises (ok a, s') e h refuted = absurd (refuted a s' (h.returned a s' e))
  Atomic-raises (err c, s') e h refuted = (c, e ∙ ap (λ t. (err c, t)) (h.raised c s' e))

  pub Atomic-mono :
      {m : Exec S A} {s : S} {P Q : A → S → Type 0}
      → Atomic m s P
      → ((a : A) (s' : S) → P a s' → Q a s')
      → Atomic m s Q
  Atomic-mono h f = record { returned = λ a s' e. f a s' (h.returned a s' e); raised = h.raised }

module _ {S : Type 0} where
  pub Atomic-modify_last :
      (f : S → S) {s : S} {Q : Unit {0} → S → Type 0} → Q tt (f s) → Atomic (modify f) s Q
  unfolding modify
  Atomic-modify_last f {s} {Q} h = record {
    returned = λ u s' e. subst (Q tt) (ap (λ (x : Result Unit × S). x.1) e) h;
    raised = λ c s' e. absurd (cc (ap (λ (x : Result Unit × S). x.0) e));
  }

-- a key that is not taken
pub free_key : {A : Type 0} (o : Option A) → not (is_some o) ≡ true → o ≡ none
unfolding is_some
free_key none h = refl
free_key (some a) h = cc
