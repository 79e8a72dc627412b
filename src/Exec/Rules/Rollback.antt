-- ===== src/Exec/Rules/Rollback.antt =====
-- Rules for all runs of an action: one that raises has left the state as it was.
use qingtian_ai.Prelude.{◌≡◌, ◌⊎◌, inl, inr, refl, sym, ◌∙◌, ap, subst₂, Bool, true, Option, some}
use qingtian_ai.Exec.{
  Error, Result, ok, err, Exec, resume, found, passed, settle, ◌>>=◌, lift, fetch, check,
  transaction,
}
use qingtian_ai.Exec.Rules.{found-ok, passed-ok, resume-ok, resume-err, Post, Post-fetch_last}
use qingtian_ai.Exec.Rules.Ends.{Ends, Ends-returned}

module _ {S A : Type 0} where
  pub record Atomic (m : Exec S A) (s : S) (Q : A → S → Type 0) : Type 0 where
    pub returned : (a : A) (s' : S) → m s ≡ (ok a, s') → Q a s'
    pub raised : (e : Error) (s' : S) → m s ≡ (err e, s') → s' ≡ s

  pub Atomic-fetch_last :
      (query : S → Option A) (c : Error) {s : S} {Q : A → S → Type 0}
      → ((a : A) → query s ≡ some a → Q a s)
      → Atomic (fetch query c) s Q
  unfolding fetch
  Atomic-fetch_last query c h = record {
    returned = (Post-fetch_last query c h).at;
    raised = λ e s' p. sym (ap (λ (x : Result A × S). x.1) p);
  }

module _ {S A B : Type 0} where
  committed :
      (s : S) (x : Result A × S) (k : A → Exec S B) {b : B} {s' : S}
      → resume (settle s x).0 k (settle s x).1 ≡ (ok b, s')
      → (a : A) × (t : S) × (x ≡ (ok a, t)) × (k a t ≡ (ok b, s'))
  committed s (ok a, t) k h = (a, t, refl, h)
  committed s (err e, t) k h = cc

  rolled_back :
      (s : S) (x : Result A × S) (k : A → Exec S B) {e : Error} {s' : S}
      → resume (settle s x).0 k (settle s x).1 ≡ (err e, s')
      → (s' ≡ s) ⊎ ((a : A) × (t : S) × (x ≡ (ok a, t)) × (k a t ≡ (err e, s')))
  rolled_back s (ok a, t) k h = inr (a, t, refl, h)
  rolled_back s (err e, t) k h = inl (sym (ap (λ (x : Result B × S). x.1) h))

module _ {S A B : Type 0} {s : S} {Q : B → S → Type 0} where
  pub Atomic-fetch :
      (query : S → Option A) (c : Error) (k : A → Exec S B)
      → ((a : A) → query s ≡ some a → Atomic (k a) s Q)
      → Atomic (fetch query c >>= k) s Q
  unfolding ◌>>=◌ fetch
  Atomic-fetch query c k h = record {
    returned = λ b s' e.
        let (a, p, q) = resume-ok (found c (query s)) k s e in
        (h a (found-ok c (query s) p)).returned b s' q;
    raised = λ x s' e. elim (resume-err (found c (query s)) k s e) [
      | inl same ↦ same
      | inr (a, p, q) ↦ (h a (found-ok c (query s) p)).raised x s' q
    ];
  }

  pub Atomic-lift :
      (r : Result A) (k : A → Exec S B)
      → ((a : A) → r ≡ ok a → Atomic (k a) s Q)
      → Atomic (lift r >>= k) s Q
  unfolding ◌>>=◌ lift
  Atomic-lift r k h = record {
    returned = λ b s' e. let (a, p, q) = resume-ok r k s e in (h a p).returned b s' q;
    raised = λ x s' e. elim (resume-err r k s e) [
      | inl same ↦ same
      | inr (a, p, q) ↦ (h a p).raised x s' q
    ];
  }

  -- after the commit the rest only reads, and returns
  pub Atomic-transaction :
      (body : Exec S A) (k : A → Exec S B)
      → Post body s (λ a s'. Ends (k a) s' Q)
      → Atomic (transaction body >>= k) s Q
  unfolding ◌>>=◌ transaction
  Atomic-transaction body k h = record {
    returned =
        λ b s' e. let (a, t, p, q) = committed s (body s) k e in Ends-returned (h.at a t p) q;
    raised = λ x s' e. elim (rolled_back s (body s) k e) [
      | inl same ↦ same
      | inr (a, t, p, q) ↦ absurd (cc (sym (h.at a t p).runs ∙ q))
    ];
  }

module _ {S B : Type 0} {s : S} {Q : B → S → Type 0} where
  pub Atomic-check :
      (test : S → Bool) (c : Error) (k : Unit {0} → Exec S B)
      → (test s ≡ true → Atomic (k tt) s Q)
      → Atomic (check test c >>= k) s Q
  unfolding ◌>>=◌ check
  Atomic-check test c k h = record {
    returned = λ b s' e.
        let (a, p, q) = resume-ok (passed c (test s)) k s e in
        (h (passed-ok c (test s) p)).returned b s' q;
    raised = λ x s' e. elim (resume-err (passed c (test s)) k s e) [
      | inl same ↦ same
      | inr (a, p, q) ↦ (h (passed-ok c (test s) p)).raised x s' q
    ];
  }

module _ {S A : Type 0} where
  returned-settle :
      (s : S) (x : Result A × S) {a : A} {s' : S} → settle s x ≡ (ok a, s') → x ≡ (ok a, s')
  returned-settle s (ok b, t) e = e
  returned-settle s (err c, t) e = cc

  raised-settle :
      (s : S) (x : Result A × S) {c : Error} {s' : S} → settle s x ≡ (err c, s') → s' ≡ s
  raised-settle s (ok b, t) e = absurd (cc (ap (λ (x : Result A × S). x.0) e))
  raised-settle s (err c, t) e = sym (ap (λ (x : Result A × S). x.1) e)

module _ {S : Type 0} where
  -- a transaction that is the whole method
  pub Atomic-transaction_last :
      {A : Type 0} (body : Exec S A) {s : S} {Q : A → S → Type 0}
      → Post body s Q
      → Atomic (transaction body) s Q
  unfolding transaction
  Atomic-transaction_last body {s} h = record {
    returned = λ a s' e. h.at a s' (returned-settle s (body s) e);
    raised = λ x s' e. raised-settle s (body s) e;
  }

  -- the rule of a call whose outcome is known
  pub Atomic-returned :
      {A : Type 0} {m : Exec S A} {s t : S} {a : A} {Q : A → S → Type 0}
      → m s ≡ (ok a, t)
      → Q a t
      → Atomic m s Q
  Atomic-returned {A} {m} {s} {t} {a} {Q} e q = record {
    returned = λ b s' e'.
        let p = sym e ∙ e' in
        let same : a ≡ b = cc (ap (λ (x : Result A × S). x.0) p) in
        subst₂ Q same (ap (λ (x : Result A × S). x.1) p) q;
    raised = λ c s' e'. absurd (cc (ap (λ (x : Result A × S). x.0) (sym e ∙ e')));
  }

  pub Atomic-raised :
      {A : Type 0} {m : Exec S A} {s t : S} {c : Error} {Q : A → S → Type 0}
      → m s ≡ (err c, t)
      → t ≡ s
      → Atomic m s Q
  Atomic-raised {A} {m} {s} {t} {c} e same = record {
    returned = λ b s' e'. absurd (cc (ap (λ (x : Result A × S). x.0) (sym e ∙ e')));
    raised = λ d s' e'. sym (ap (λ (x : Result A × S). x.1) (sym e ∙ e')) ∙ same;
  }
