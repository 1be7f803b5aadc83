-- ===== src/Values/Holds.antt =====
-- Statements about a result that hold of its value, if it has one, and how they pass through `do`.
use mathlib.Core.Path.{subst}
use signal_hermes_router.Prelude.{◌≡◌, refl, Bool, true, false, Option, none, some}
use signal_hermes_router.Values.{Exception, Result, ok, raises, ◌>>=◌, ◌>>◌, raise_if, or_raise}

-- A result that is a value has the property.
pub record Holds {ℓ κ} {A : Type ℓ} (P : A → Type κ) (m : Result A) : Type (ℓ ⊔ κ) where
  pub of_ok : (a : A) → m ≡ ok a → P a

module _ {ℓ κ} {A : Type ℓ} {P : A → Type κ} where
  pub ok-Holds : {a : A} → P a → Holds P (ok a)
  ok-Holds h = record { of_ok = λ b e. subst P (cc) h }

  pub raises-Holds : {x : Exception} → Holds P (raises x)
  raises-Holds = record { of_ok = λ b e. cc }

  pub >>=-Holds {ℓ' κ'} :
      {B : Type ℓ'} {Q : B → Type κ'} (m : Result A) {f : A → Result B}
      → Holds P m
      → ((a : A) → P a → Holds Q (f a))
      → Holds Q (m >>= f)
  >>=-Holds (ok a) h k = k a (h.of_ok a refl)
  >>=-Holds (raises e) h k = record { of_ok = λ b e. cc }

  pub raise_if-Holds :
      (b : Bool) (x : Exception) {m : Result A}
      → (b ≡ false → Holds P m)
      → Holds P (raise_if b x >> m)
  raise_if-Holds true x k = raises-Holds
  raise_if-Holds false x k = k refl

pub last-Holds {κ} :
    {P : Unit {0} → Type κ} (b : Bool) (x : Exception) → (b ≡ false → P tt) → Holds P (raise_if b x)
last-Holds true x k = raises-Holds
last-Holds false x k = ok-Holds (k refl)

-- A step whose value may be any.
pub any-Holds {ℓ ℓ' κ'} :
    {A : Type ℓ} {B : Type ℓ'} {Q : B → Type κ'} (m : Result A) {f : A → Result B}
    → ((a : A) → m ≡ ok a → Holds Q (f a))
    → Holds Q (m >>= f)
any-Holds (ok a) k = k a refl
any-Holds (raises e) k = raises-Holds

pub or_raise-given {ℓ} :
    {A : Type ℓ} (x : Exception) (o : Option A) {a : A} → or_raise x o ≡ ok a → o ≡ some a
or_raise-given x none e = cc
or_raise-given x (some b) e = cc

-- A result whose value would be impossible is an exception.
pub refuted {ℓ κ} :
    {A : Type ℓ} {P : A → Type κ} (m : Result A)
    → Holds P m
    → ((a : A) → ¬ P a)
    → (x : Exception) × (m ≡ raises x)
refuted (ok a) h absurd = elim (absurd a (h.of_ok a refl)) [ ]
refuted (raises x) h absurd = (x, refl)
