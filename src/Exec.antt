-- ===== src/Exec.antt =====
-- The store's methods: actions over a state that may raise an exception of the source. What was
-- written before a raise stays written until a transaction rolls it back.
pub mod Rules
pub mod Reads
use qingtian_ai.Prelude.{Bool, true, false, Option, String, none, some, if◌then◌else◌}

-- The exception classes of qingtian_core/models.py, with Python's ValueError, TypeError and
-- KeyError and IndexError, and sqlite3.IntegrityError. Messages are left out; a LifecycleError and
-- an AdmissionError have their code.
pub data Error : Type 0 where
  value_error type_error key_error overflow_error : Error
  conflict not_found transition_error storage_contract : Error
  integrity_error : Error
  index_error : Error
  lifecycle_error admission_error : String → Error
  contract_validation_error : Error

pub data Result {ℓ} (A : Type ℓ) : Type ℓ where
  ok : A → Result A
  err : Error → Result A

abbrev pub Exec {ℓ} : Type ℓ → Type ℓ → Type ℓ
Exec S A = S → Result A × S

module _ {ℓ} {S A B : Type ℓ} where
  abbrev pub resume : Result A → (A → Exec S B) → Exec S B
  resume (ok a) f s = f a s
  resume (err e) f s = (err e, s)

  infixl 10 ◌>>=◌ ◌>>◌
  unfoldable pub ◌>>=◌ : Exec S A → (A → Exec S B) → Exec S B
  ◌>>=◌ m f s = let (r, s') = m s in resume r f s'

  abbrev pub ◌>>◌ : Exec S A → Exec S B → Exec S B
  m >> n = m >>= λ _. n

abbrev pub found {ℓ} : {A : Type ℓ} → Error → Option A → Result A
found e none = err e
found e (some a) = ok a

abbrev pub passed : Error → Bool → Result (Unit {0})
passed e true = ok tt
passed e false = err e

module _ {S : Type 0} where
  unfoldable pub pure : {A : Type 0} → A → Exec S A
  pure a s = (ok a, s)

  unfoldable pub lift : {A : Type 0} → Result A → Exec S A
  lift r s = (r, s)

  -- a query of one row, with the exception for no row
  unfoldable pub fetch : {A : Type 0} → (S → Option A) → Error → Exec S A
  fetch query e s = (found e (query s), s)

  -- raises the exception unless the test holds
  unfoldable pub check : (S → Bool) → Error → Exec S (Unit {0})
  check test e s = (passed e (test s), s)

  unfoldable pub modify : (S → S) → Exec S (Unit {0})
  modify f s = (ok tt, f s)

  -- a statement that writes, and a number or a row that it reports of the state before
  unfoldable pub statement : {A : Type 0} → (S → A) → (S → S) → Exec S A
  statement report f s = (ok (report s), f s)

  -- an `if` with no `else`
  unfoldable pub when : Bool → Exec S (Unit {0}) → Exec S (Unit {0})
  when b m s = if b then m s else (ok tt, s)

  abbrev pub settle : {A : Type 0} → S → Result A × S → Result A × S
  settle s (ok a, s') = (ok a, s')
  settle s (err e, s') = (err e, s)

  -- QingtianStore.transaction: commit on success, rollback and re-raise on an exception
  unfoldable pub transaction : {A : Type 0} → Exec S A → Exec S A
  transaction body s = settle s (body s)

unfoldable pub is_ok {ℓ} : {A : Type ℓ} → Result A → Bool
is_ok (ok a) = true
is_ok (err e) = false

-- a `try` whose handlers and rest are one function of the result
unfoldable pub attempt : {S A B : Type 0} → Exec S A → (Result A → Exec S B) → Exec S B
attempt m k s = let (r, s') = m s in k r s'
