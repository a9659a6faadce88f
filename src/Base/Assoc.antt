-- ===== src/Base/Assoc.antt =====
-- Go's maps as association lists with one entry for each key. `range` visits the entries in an
-- order that Go leaves open; each loop of the program does the same in every order.
use Prim.Native.Nat.{◌+◌, ◌≤◌}
use mathlib.Core.Path.{◌≡◌, refl, subst, ◌∙◌}
use mathlib.Core.Logic.{inl, inr}
use mathlib.Core.Bool.{Bool, true, false}
use mathlib.Core.Option.{Option, none, some}
use mathlib.Core.List.{List, [], ◌∷◌}
use native.Mathlib.Omega.{arith}
use proof_layer.Base.Tests.{if◌then◌else◌, Bool-cases}
use proof_layer.Base.Lists.{length, All}
use proof_layer.Base.Equality.{Eq, ◌==◌, beq_self}

abbrev pub Assoc {ℓ κ} : Type ℓ → Type κ → Type (ℓ ⊔ κ)
Assoc K V = List (K × V)

module _ {ℓ κ} {K : Type ℓ} {V : Type κ} ⦃e : Eq K⦄ where
  -- v, ok := m[k]
  unfoldable pub lookup : K → Assoc K V → Option V
  lookup k [] = none
  lookup k ((j, v) ∷ m) = if j == k then some v else lookup k m

  -- m[k] = v
  unfoldable pub insert : K → V → Assoc K V → Assoc K V
  insert k v [] = (k, v) ∷ []
  insert k v ((j, w) ∷ m) = if j == k then (j, v) ∷ m else (j, w) ∷ insert k v m

  -- delete(m, k)
  unfoldable pub delete : K → Assoc K V → Assoc K V
  delete k [] = []
  delete k ((j, w) ∷ m) = let rest = delete k m in if j == k then rest else (j, w) ∷ rest

  pub lookup-insert :
      (k asked : K) (v : V) (m : Assoc K V)
      → lookup asked (insert k v m) ≡ (if k == asked then some v else lookup asked m)
  unfolding lookup insert
  lookup-insert k asked v [] = refl
  lookup-insert k asked v ((i, w) ∷ m) =
      ground
        (arith, e.reflects k asked, e.reflects i k, e.reflects i asked, lookup-insert k asked v m)

  pub lookup-insert_self : (k : K) (v : V) (m : Assoc K V) → lookup k (insert k v m) ≡ some v
  lookup-insert_self k v m = lookup-insert k k v m ∙ rw (beq_self k)

  pub lookup-delete :
      (k j : K) (m : Assoc K V) → lookup j (delete k m) ≡ (if k == j then none else lookup j m)
  unfolding lookup delete
  lookup-delete k j [] = ground arith
  lookup-delete k j ((i, w) ∷ m) =
      ground (arith, e.reflects k j, e.reflects i k, e.reflects i j, lookup-delete k j m)

  pub length-insert : (k : K) (v : V) (m : Assoc K V) → length (insert k v m) ≤ length m + 1
  unfolding insert
  length-insert k v [] = omega arith
  length-insert k v ((i, w) ∷ m) = ground (arith, length-insert k v m)

module _ {ℓ κ} {K : Type ℓ} {V : Type κ} where
  -- for k, v := range m { m[k] = f(v) }
  unfoldable pub map_values : (V → V) → Assoc K V → Assoc K V
  map_values f [] = []
  map_values f ((j, w) ∷ m) = (j, f w) ∷ map_values f m

  -- for k, v := range m { if !p(v) { delete(m, k) } }
  unfoldable pub keep_values : (V → Bool) → Assoc K V → Assoc K V
  keep_values p [] = []
  keep_values p ((j, w) ∷ m) = let rest = keep_values p m in if p w then (j, w) ∷ rest else rest

  -- What holds of every value in the map.
  abbrev pub Values {ι} : (V → Type ι) → Assoc K V → Type ι
  Values P = All (λ (entry : K × V). P entry.1)

module _ {ℓ κ} {K : Type ℓ} {V : Type κ} ⦃e : Eq K⦄ where
  pub lookup-map_values :
      (k : K) (f : V → V) (m : Assoc K V)
      → lookup k (map_values f m) ≡ elim (lookup k m) [ none ↦ none | some v ↦ some (f v) ]
  unfolding lookup map_values
  lookup-map_values k f [] = refl
  lookup-map_values k f ((j, w) ∷ m) = ground (arith, lookup-map_values k f m)

  pub lookup-keep_values :
      (k : K) (p : V → Bool) (v : V) (m : Assoc K V)
      → lookup k m ≡ some v
      → p v ≡ true
      → lookup k (keep_values p m) ≡ some v
  unfolding lookup keep_values
  lookup-keep_values k p v [] found h = found
  lookup-keep_values k p v ((j, w) ∷ m) found h =
      ground (arith, lookup-keep_values k p v m, e.reflects j k)

  pub Values-insert {ι} :
      (P : V → Type ι) (k : K) (v : V) (m : Assoc K V) → P v → Values P m → Values P (insert k v m)
  unfolding insert
  Values-insert P k v [] p h = (p, tt)
  Values-insert P k v ((j, w) ∷ m) p h =
      elim (j == k) as (λ b. Values P (if b then (j, v) ∷ m else (j, w) ∷ insert k v m)) [
        | true ↦ (p, h.1)
        | false ↦ (h.0, Values-insert P k v m p h.1)
      ]

  pub Values-delete {ι} :
      (P : V → Type ι) (k : K) (m : Assoc K V) → Values P m → Values P (delete k m)
  unfolding delete
  Values-delete P k [] h = tt
  Values-delete P k ((j, w) ∷ m) h =
      elim (j == k) as (λ b. Values P (if b then delete k m else (j, w) ∷ delete k m)) [
        | true ↦ Values-delete P k m h.1
        | false ↦ (h.0, Values-delete P k m h.1)
      ]

  pub Values-lookup {ι} :
      (P : V → Type ι) (k : K) (v : V) (m : Assoc K V) → Values P m → lookup k m ≡ some v → P v
  unfolding lookup
  Values-lookup P k v [] h found = cc
  Values-lookup P k v ((j, w) ∷ m) h found = elim (Bool-cases (j == k)) [
    | inl same ↦ let hit : some w ≡ some v = rw same at found in subst P {x = w} (cc) h.0
    | inr other ↦ Values-lookup P k v m h.1 (rw other at found)
  ]

module _ {ℓ κ} {K : Type ℓ} {V : Type κ} where
  pub Values-map_values {ι} :
      (P : V → Type ι) (f : V → V) (m : Assoc K V)
      → ((v : V) → P v → P (f v))
      → Values P m
      → Values P (map_values f m)
  unfolding map_values
  Values-map_values P f [] g h = tt
  Values-map_values P f ((j, w) ∷ m) g h = (g w h.0, Values-map_values P f m g h.1)

  pub length-keep_values : (p : V → Bool) (m : Assoc K V) → length (keep_values p m) ≤ length m
  unfolding keep_values
  length-keep_values p [] = omega arith
  length-keep_values p ((j, w) ∷ m) = ground (arith, length-keep_values p m)

  pub Values-keep_values {ι} :
      (P : V → Type ι) (p : V → Bool) (m : Assoc K V) → Values P m → Values P (keep_values p m)
  unfolding keep_values
  Values-keep_values P p [] h = tt
  Values-keep_values P p ((j, w) ∷ m) h =
      elim (p w) as (λ b. Values P (if b then (j, w) ∷ keep_values p m else keep_values p m)) [
        | true ↦ (h.0, Values-keep_values P p m h.1)
        | false ↦ Values-keep_values P p m h.1
      ]
