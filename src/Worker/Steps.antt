-- ===== src/Worker/Steps.antt =====
-- Calls that change the control plane and can fail, one after the other; and what it is that such a
-- sequence returns a value.
use proof_layer.Base.{◌≡◌, refl, Outcome, ok, err, panic}

-- A Go function that returns a value or an error, with the state that it leaves.
abbrev pub Steps : Type 0 → Type 0 → Type 0 → Type 0
Steps S E A = S → S × Outcome E A

abbrev pub return : {S E A : Type 0} → A → Steps S E A
return a s = (s, ok a)

abbrev after_step : {S E A B : Type 0} → (A → Steps S E B) → S × Outcome E A → S × Outcome E B
after_step f (s, ok a) = f a s
after_step f (s, err e) = (s, err e)
after_step f (s, panic) = (s, panic)

infixl 5 ◌>>=◌ ◌>>◌
abbrev pub ◌>>=◌ : {S E A B : Type 0} → Steps S E A → (A → Steps S E B) → Steps S E B
◌>>=◌ m f s = after_step f (m s)

abbrev pub ◌>>◌ : {S E B : Type 0} → Steps S E (Unit {0}) → Steps S E B → Steps S E B
m >> k = m >>= λ _. k

-- `return result, err`
abbrev with_result : {S E A R : Type 0} → R → S × Outcome E A → S × Outcome (R × E) A
with_result result (s, ok a) = (s, ok a)
with_result result (s, err e) = (s, err (result, e))
with_result result (s, panic) = (s, panic)

abbrev pub reporting : {S E A R : Type 0} → R → Steps S E A → Steps S (R × E) A
reporting result m s = with_result result (m s)

-- The sequence returns a value without an error, and leaves what `Q` says.
abbrev pub Total : {S E A : Type 0} → Steps S E A → S → (A → S → Type 0) → Type 0
Total {S} {E} {A} m s Q = (s' : S) × (a : A) × (m s ≡ (s', ok a)) × Q a s'

module _ {S E : Type 0} where
  pub bind-Total :
      {A B : Type 0} (m : Steps S E A) (f : A → Steps S E B) (s : S) (P : A → S → Type 0)
      (Q : B → S → Type 0)
      → Total m s P
      → ((a : A) (s' : S) → P a s' → Total (f a) s' Q)
      → Total (m >>= f) s Q
  bind-Total m f s P Q (s₁, a, e, p) k = let (s₂, b, e', q) = k a s₁ p in (s₂, b, rw e e', q)

  pub reporting-Total :
      {A R : Type 0} (result : R) (m : Steps S E A) (s : S) (Q : A → S → Type 0)
      → Total m s Q
      → Total (reporting result m) s Q
  reporting-Total result m s Q (s', a, e, q) = (s', a, rw e refl, q)

module _ {S E R : Type 0} where
  pub then-Total :
      {B : Type 0} (result : R) (m : Steps S E (Unit {0})) (k : Steps S (R × E) B) (s : S)
      (P : S → Type 0) (Q : B → S → Type 0)
      → Total m s (λ _ s'. P s')
      → ((s' : S) → P s' → Total k s' Q)
      → Total (reporting result m >> k) s Q
  then-Total result m k s P Q t f =
      bind-Total (reporting result m) (λ _. k) s (λ _ s'. P s') Q
        (reporting-Total result m s (λ _ s'. P s') t) (λ _ s' p. f s' p)
