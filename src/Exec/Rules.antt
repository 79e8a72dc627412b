-- ===== src/Exec/Rules.antt =====
-- Rules for the actions of Exec: what holds of the runs that return.
pub mod Ends
pub mod Rollback
use qingtian_ai.Prelude.{
  ◌≡◌, ◌⊎◌, inl, inr, refl, sym, ◌∙◌, ap, subst, subst₂, Bool, true, false, Option, none, some,
}
use qingtian_ai.Exec.{
  Error, Result, ok, err, Exec, resume, found, passed, settle, ◌>>=◌, pure, lift, fetch, check,
  modify, statement, when, transaction,
}

pub found-ok : {A : Type 0} (e : Error) (o : Option A) {a : A} → found e o ≡ ok a → o ≡ some a
found-ok e none h = cc
found-ok e (some x) h = cc

pub passed-ok : (e : Error) (b : Bool) {u : Unit {0}} → passed e b ≡ ok u → b ≡ true
passed-ok e true h = refl
passed-ok e false h = cc

module _ {S A B : Type 0} where
  pub resume-ok :
      (r : Result A) (k : A → Exec S B) (s : S) {b : B} {s' : S}
      → resume r k s ≡ (ok b, s')
      → (a : A) × (r ≡ ok a) × (k a s ≡ (ok b, s'))
  resume-ok (ok a) k s h = (a, refl, h)
  resume-ok (err e) k s h = cc

  pub resume-err :
      (r : Result A) (k : A → Exec S B) (s : S) {e : Error} {s' : S}
      → resume r k s ≡ (err e, s')
      → (s' ≡ s) ⊎ ((a : A) × (r ≡ ok a) × (k a s ≡ (err e, s')))
  resume-err (ok a) k s h = inr (a, refl, h)
  resume-err (err e) k s h = inl (cc)

module _ {S A : Type 0} where
  pub record Post (m : Exec S A) (s : S) (Q : A → S → Type 0) : Type 0 where
    pub at : (a : A) (s' : S) → m s ≡ (ok a, s') → Q a s'

  pub Post-pure : (a : A) (s : S) {Q : A → S → Type 0} → Q a s → Post (pure a) s Q
  unfolding pure
  Post-pure a s {Q} h = record {
    at = λ b s' e. let p : a ≡ b = cc in subst₂ Q p (ap (λ (x : Result A × S). x.1) e) h;
  }

  -- what a run returns may be weakened
  pub Post-mono :
      {m : Exec S A} {s : S} {P Q : A → S → Type 0}
      → Post m s P
      → ((a : A) (s' : S) → P a s' → Q a s')
      → Post m s Q
  Post-mono h f = record { at = λ a s' e. f a s' (h.at a s' e) }

  pub Post-fetch_last :
      (query : S → Option A) (c : Error) {s : S} {Q : A → S → Type 0}
      → ((a : A) → query s ≡ some a → Q a s)
      → Post (fetch query c) s Q
  unfolding fetch
  Post-fetch_last query c {s} {Q} h = record {
    at = λ b s' e.
        subst (Q b) (ap (λ (x : Result A × S). x.1) e)
          (h b (found-ok c (query s) (ap (λ (x : Result A × S). x.0) e)));
  }

module _ {S A B : Type 0} {s : S} {Q : B → S → Type 0} where
  pub Post-bind :
      (m : Exec S A) (k : A → Exec S B) → Post m s (λ a s'. Post (k a) s' Q) → Post (m >>= k) s Q
  unfolding ◌>>=◌
  Post-bind m k h = record {
    at = λ b s' e.
        let (a, p, q) = resume-ok (m s).0 k (m s).1 e in
        (h.at a (m s).1 (λ i. (p i, (m s).1))).at b s' q;
  }

  pub Post-fetch :
      (query : S → Option A) (c : Error) (k : A → Exec S B)
      → ((a : A) → query s ≡ some a → Post (k a) s Q)
      → Post (fetch query c >>= k) s Q
  unfolding ◌>>=◌ fetch
  Post-fetch query c k h = record {
    at = λ b s' e.
        let (a, p, q) = resume-ok (found c (query s)) k s e in
        (h a (found-ok c (query s) p)).at b s' q;
  }

  pub Post-lift :
      (r : Result A) (k : A → Exec S B)
      → ((a : A) → r ≡ ok a → Post (k a) s Q)
      → Post (lift r >>= k) s Q
  unfolding ◌>>=◌ lift
  Post-lift r k h = record { at = λ b s' e. let (a, p, q) = resume-ok r k s e in (h a p).at b s' q }

  pub Post-statement :
      (report : S → A) (f : S → S) (k : A → Exec S B)
      → Post (k (report s)) (f s) Q
      → Post (statement report f >>= k) s Q
  unfolding ◌>>=◌ statement
  Post-statement report f k h = record { at = λ b s' e. h.at b s' e }

module _ {S B : Type 0} {s : S} {Q : B → S → Type 0} where
  pub Post-check :
      (test : S → Bool) (c : Error) (k : Unit {0} → Exec S B)
      → (test s ≡ true → Post (k tt) s Q)
      → Post (check test c >>= k) s Q
  unfolding ◌>>=◌ check
  Post-check test c k h = record {
    at = λ b s' e.
        let (a, p, q) = resume-ok (passed c (test s)) k s e in
        (h (passed-ok c (test s) p)).at b s' q;
  }

  pub Post-modify :
      (f : S → S) (k : Unit {0} → Exec S B) → Post (k tt) (f s) Q → Post (modify f >>= k) s Q
  unfolding ◌>>=◌ modify
  Post-modify f k h = record { at = λ b s' e. h.at b s' e }

  -- a block that only checks
  pub Post-when :
      (b : Bool) (m : Exec S (Unit {0})) (k : Unit {0} → Exec S B) (F : Type 0)
      → Post m s (λ u s'. (s' ≡ s) × F)
      → ((b ≡ true → F) → Post (k tt) s Q)
      → Post (when b m >>= k) s Q
  unfolding ◌>>=◌ when
  Post-when true m k F facts h = record {
    at = λ b s' e.
        let (a, p, q) = resume-ok (m s).0 k (m s).1 e in
        let (same, f) = facts.at a (m s).1 (λ i. (p i, (m s).1)) in
        (h (λ _. f)).at b s' (subst (λ t. k a t ≡ (ok b, s')) same q);
  }
  Post-when false m k F facts h = record { at = (h (λ e. absurd (cc))).at }

module _ {S : Type 0} where
  pub Post-check_last :
      (test : S → Bool) (c : Error) {s : S} {P : Unit {0} → S → Type 0}
      → (test s ≡ true → P tt s)
      → Post (check test c) s P
  unfolding check
  Post-check_last test c {s} {P} h = record {
    at = λ u s' e.
        subst (P tt) (ap (λ (x : Result Unit × S). x.1) e)
          (h (passed-ok c (test s) (ap (λ (x : Result Unit × S). x.0) e)));
  }

  pub Post-modify_last :
      (f : S → S) {s : S} {Q : Unit {0} → S → Type 0} → Q tt (f s) → Post (modify f) s Q
  unfolding modify
  Post-modify_last f {s} {Q} h = record {
    at = λ u s' e. subst (Q tt) (ap (λ (x : Result Unit × S). x.1) e) h;
  }
