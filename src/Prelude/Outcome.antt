-- ===== src/Prelude/Outcome.antt =====
-- How a call ends: with a value, or with a run-time panic (an index out of range, a nil pointer).
use mathlib.Core.Path.{◌≡◌, refl}
use mathlib.Core.Option.{Option, none, some}

pub data Outcome {ℓ} (A : Type ℓ) : Type ℓ where
  ok : A → Outcome A
  panic : Outcome A

infixl 5 ◌>>=◌
abbrev pub ◌>>=◌ {ℓ κ} : {A : Type ℓ} {B : Type κ} → Outcome A → (A → Outcome B) → Outcome B
ok a >>= f = f a
panic >>= f = panic

abbrev pub or_panic {ℓ} : {A : Type ℓ} → Option A → Outcome A
or_panic (some a) = ok a
or_panic none = panic

-- The call ends with a value that satisfies `P`. It computes, so that the tactics see through it.
abbrev pub Ensures {ℓ} : {A : Type ℓ} → (A → Type 0) → Outcome A → Type 0
Ensures P (ok a) = P a
Ensures P panic = ⊥

module _ {ℓ κ} {A : Type ℓ} {B : Type κ} where
  pub Ensures-bind :
      (P : A → Type 0) (Q : B → Type 0) (r : Outcome A) (f : A → Outcome B)
      → Ensures P r
      → ((a : A) → P a → Ensures Q (f a))
      → Ensures Q (r >>= f)
  Ensures-bind P Q (ok a) f h k = k a h
  Ensures-bind P Q panic f h k = absurd h

module _ {ℓ} {A : Type ℓ} where
  pub Ensures-map :
      (P Q : A → Type 0) (r : Outcome A) → Ensures P r → ((a : A) → P a → Q a) → Ensures Q r
  Ensures-map P Q (ok a) h k = k a h
  Ensures-map P Q panic h k = absurd h

  pub Ensures-inv : (P : A → Type 0) (r : Outcome A) → Ensures P r → (a : A) × (r ≡ ok a) × P a
  Ensures-inv P (ok a) h = (a, refl, h)
  Ensures-inv P panic h = absurd h

-- If the call ends with a value, then that value satisfies `P`.
abbrev pub WhenOk {ℓ κ} : {A : Type ℓ} → (A → Type κ) → Outcome A → Type κ
WhenOk P (ok a) = P a
WhenOk P panic = Unit

module _ {ℓ κ μ ν} {A : Type ℓ} {B : Type κ} where
  pub WhenOk-bind :
      (P : A → Type μ) (Q : B → Type ν) (r : Outcome A) (f : A → Outcome B)
      → WhenOk P r
      → ((a : A) → P a → WhenOk Q (f a))
      → WhenOk Q (r >>= f)
  WhenOk-bind P Q (ok a) f h k = k a h
  WhenOk-bind P Q panic f h k = tt

module _ {ℓ μ ν} {A : Type ℓ} where
  pub WhenOk-map :
      (P : A → Type μ) (Q : A → Type ν) (r : Outcome A)
      → WhenOk P r
      → ((a : A) → P a → Q a)
      → WhenOk Q r
  WhenOk-map P Q (ok a) h k = k a h
  WhenOk-map P Q panic h k = tt
