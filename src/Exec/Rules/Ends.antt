-- ===== src/Exec/Rules/Ends.antt =====
-- Rules for the actions of Exec that return and change nothing.
use qingtian_ai.Prelude.{◌≡◌, refl, sym, ◌∙◌, ap, subst₂, Bool, true, Option, some}
use qingtian_ai.Exec.{Error, Result, ok, Exec, resume, ◌>>=◌, pure, lift, fetch, check}

module _ {S A : Type 0} where
  -- an action that returns `value` here and changes nothing
  pub record Ends (m : Exec S A) (s : S) (Q : A → S → Type 0) : Type 0 where
    pub value : A
    pub runs : m s ≡ (ok value, s)
    pub good : Q value s

  pub Ends-lift :
      (r : Result A) {s : S} {Q : A → S → Type 0} {a : A} → r ≡ ok a → Q a s → Ends (lift r) s Q
  unfolding lift
  Ends-lift r {s} {Q} {a} p h = record { value = a; runs = rw p; good = h }

  pub Ends-mono :
      {m : Exec S A} {s : S} {P Q : A → S → Type 0}
      → Ends m s P
      → ((a : A) → P a s → Q a s)
      → Ends m s Q
  Ends-mono h f = record { value = h.value; runs = h.runs; good = f h.value h.good }

  pub Ends-fetch :
      (query : S → Option A) (c : Error) {s : S} {Q : A → S → Type 0} (a : A)
      → query s ≡ some a
      → Q a s
      → Ends (fetch query c) s Q
  unfolding fetch
  Ends-fetch query c {s} a p h = record { value = a; runs = rw p; good = h }

  pub Ends-pure : (a : A) {s : S} {Q : A → S → Type 0} → Q a s → Ends (pure a) s Q
  unfolding pure
  Ends-pure a h = record { value = a; runs = refl; good = h }

  pub Ends-returned :
      {m : Exec S A} {t s' : S} {b : A} {Q : A → S → Type 0}
      → Ends m t Q
      → m t ≡ (ok b, s')
      → Q b s'
  Ends-returned {m} {t} {s'} {b} {Q} d p =
      let e = sym d.runs ∙ p in
      let q : d.value ≡ b = cc (ap (λ (x : Result A × S). x.0) e) in
      subst₂ Q q (ap (λ (x : Result A × S). x.1) e) d.good

module _ {S A B : Type 0} {s : S} {Q : B → S → Type 0} where
  pub Ends-bind :
      (m : Exec S A) (k : A → Exec S B) → Ends m s (λ a s'. Ends (k a) s' Q) → Ends (m >>= k) s Q
  unfolding ◌>>=◌
  Ends-bind m k h = record {
    value = h.good.value;
    runs = ap (λ (x : Result A × S). let (r, t) = x in resume r k t) h.runs ∙ h.good.runs;
    good = h.good.good;
  }

module _ {S B : Type 0} {s : S} {Q : B → S → Type 0} where
  pub Ends-check :
      (test : S → Bool) (c : Error) (k : Unit {0} → Exec S B)
      → test s ≡ true
      → Ends (k tt) s Q
      → Ends (check test c >>= k) s Q
  unfolding ◌>>=◌ check
  Ends-check test c k h e = record { value = e.value; runs = rw h e.runs; good = e.good }
