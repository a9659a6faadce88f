-- ===== src/Base/Result.antt =====
-- What a Go function returns: a value, an error, or a run-time panic.
use mathlib.Core.Path.{◌≡◌, refl}
use mathlib.Core.Logic.{◌⊎◌, inl, inr}
use mathlib.Core.Bool.{Bool, true, false}
use mathlib.Core.Option.{Option, none, some}

pub data Outcome {ℓ κ} (E : Type ℓ) (A : Type κ) : Type (ℓ ⊔ κ) where
  ok : A → Outcome E A
  err : E → Outcome E A
  panic : Outcome E A

-- `err == nil`
abbrev pub is_ok {ℓ κ} : {E : Type ℓ} {A : Type κ} → Outcome E A → Bool
is_ok (ok _) = true
is_ok _ = false

module _ {ℓ κ ι} {E : Type ℓ} {A : Type κ} {B : Type ι} where
  infixl 5 ◌>>=◌
  abbrev pub ◌>>=◌ : Outcome E A → (A → Outcome E B) → Outcome E B
  ok a >>= f = f a
  err e >>= f = err e
  panic >>= f = panic

module _ {ℓ ι} {E : Type ℓ} {B : Type ι} where
  infixl 5 ◌>>◌
  abbrev pub ◌>>◌ : Outcome E (Unit {0}) → Outcome E B → Outcome E B
  m >> k = m >>= λ _. k

module _ {ℓ} {E : Type ℓ} where
  -- `if !test { return e }`
  abbrev pub guard : Bool → E → Outcome E (Unit {0})
  guard true e = ok tt
  guard false e = err e

  -- an index, a slice or a nil pointer that Go checks at run time
  abbrev pub or_panic {κ} : {A : Type κ} → Option A → Outcome E A
  or_panic none = panic
  or_panic (some a) = ok a

  abbrev pub or_fail {κ} : {A : Type κ} → Option A → E → Outcome E A
  or_fail none e = err e
  or_fail (some a) e = ok a

module _ {ℓ κ ι} {E : Type ℓ} {A : Type κ} {B : Type ι} where
  -- A chain that returns a value has passed each of its steps.
  pub bind-eq_ok :
      (m : Outcome E A) (f : A → Outcome E B) {b : B}
      → (m >>= f) ≡ ok b
      → (a : A) × (m ≡ ok a) × (f a ≡ ok b)
  bind-eq_ok (ok a) f h = (a, refl, h)
  bind-eq_ok (err e) f h = cc
  bind-eq_ok panic f h = cc

module _ {ℓ κ} {E : Type ℓ} {A : Type κ} where
  pub or_panic-eq_ok : (o : Option A) {a : A} → or_panic {E = E} o ≡ ok a → o ≡ some a
  or_panic-eq_ok none h = cc
  or_panic-eq_ok (some x) h = cc

module _ {ℓ κ} {E : Type ℓ} {A : Type κ} where
  pub Outcome-cases :
      (o : Outcome E A) → ((a : A) × (o ≡ ok a)) ⊎ (((e : E) × (o ≡ err e)) ⊎ (o ≡ panic))
  Outcome-cases (ok a) = inl (a, refl)
  Outcome-cases (err e) = inr (inl (e, refl))
  Outcome-cases panic = inr (inr refl)
