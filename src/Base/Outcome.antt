-- ===== src/Base/Outcome.antt =====
-- Go's `(value, error)` pairs, and computations that may panic or never return.
use Prim.Native.String.{String}
use mathlib.Core.Path.{◌≡◌, refl}
use mathlib.Core.Logic.{◌≢◌, ◌⊎◌, inl, inr}

-- An error value. `gorm.ErrRecordNotFound` and `ethereum.NotFound` are compared by identity.
pub data Error : Type 0 where
  record_not_found : Error
  eth_not_found : Error
  message : String → Error

-- `err.Error()`
unfoldable pub error_text : Error → String
error_text record_not_found = "record not found"
error_text eth_not_found = "not found"
error_text (message s) = s

pub data Result {ℓ} (A : Type ℓ) : Type ℓ where
  ok : A → Result A
  err : Error → Result A

-- `if err != nil { return err }` between the steps.
infixl 5 ◌>>=◌ ◌>>◌
abbrev pub ◌>>=◌ {ℓ κ} : {A : Type ℓ} {B : Type κ} → Result A → (A → Result B) → Result B
ok a >>= f = f a
err e >>= f = err e

pub Result-cases {ℓ} :
    {A : Type ℓ} (r : Result A) → ((a : A) × (r ≡ ok a)) ⊎ ((e : Error) × (r ≡ err e))
Result-cases (ok a) = inl (a, refl)
Result-cases (err e) = inr (e, refl)

-- A call that returns, panics (which ends the process), or has not returned: it is still in a loop
-- when its fuel is spent, or it waits for what never comes.
pub data Run {ℓ} (A : Type ℓ) : Type ℓ where
  done : A → Run A
  panicked : Run A
  spinning : Run A

abbrev pub then_run {ℓ κ} : {A : Type ℓ} {B : Type κ} → Run A → (A → Run B) → Run B
then_run (done a) f = f a
then_run panicked f = panicked
then_run spinning f = spinning

abbrev pub ◌>>◌ {ℓ} : {B : Type ℓ} → Result (Unit {0}) → Result B → Result B
m >> k = m >>= λ _. k

-- Inversion of a sequence that returned.
pub then_run-done {ℓ κ} :
    {A : Type ℓ} {B : Type κ} (m : Run A) (f : A → Run B) {b : B}
    → then_run m f ≡ done b
    → (a : A) × (m ≡ done a) × (f a ≡ done b)
then_run-done (done a) f h = (a, refl, h)
then_run-done panicked f h = cc
then_run-done spinning f h = cc

pub then_run-returns {ℓ κ} :
    {A : Type ℓ} {B : Type κ} (m : Run A) (f : A → Run B)
    → m ≢ spinning
    → ((a : A) → f a ≢ spinning)
    → then_run m f ≢ spinning
then_run-returns (done a) f h g = g a
then_run-returns panicked f h g = λ e. cc
then_run-returns spinning f h g = absurd (h refl)
