-- ===== src/Runner/Sorting.antt =====
-- fieldvalidator/validator.go: what the sorting of the fields keeps.
use Prim.Native.Char.{code}
use Prim.Native.String.{compare, then}
use Prim.Native.String.compare
use Prim.Native.Nat.{Ordering, compare as compare_ℕ}
use Prim.Native.Nat.compare as compare_ℕ
use mathlib.Core.List.{Perm}
use mathlib.Core.List.Perm
use proof_layer.Base.{ℕ, zero, suc, ◌≡◌, ◌≢◌, refl, sym, ap, ◌∙◌, String, List, [], ◌∷◌, All}
use proof_layer.Runner.Fields.{insert_sorted, sort_strings}

-- Sorting leaves the strings as they are, up to their order.
insert_sorted-Perm : (s : String) (ts : List String) → Perm (insert_sorted s ts) (s ∷ ts)
unfolding insert_sorted
insert_sorted-Perm s [] = Perm.rfl
insert_sorted-Perm s (t ∷ ts) =
    elim (compare s t)
      as (λ c.
        Perm (elim c [ Ordering.gt ↦ t ∷ insert_sorted s ts | _ ↦ s ∷ (t ∷ ts) ]) (s ∷ (t ∷ ts))) [
          | Ordering.lt ↦ Perm.rfl
          | Ordering.eq ↦ Perm.rfl
          | Ordering.gt ↦ Perm.trans (Perm.cons t (insert_sorted-Perm s ts)) (Perm.swap s t ts)
        ]

pub sort_strings-Perm : (ts : List String) → Perm (sort_strings ts) ts
unfolding sort_strings
sort_strings-Perm [] = Perm.rfl
sort_strings-Perm (t ∷ ts) =
    Perm.trans (insert_sorted-Perm t (sort_strings ts)) (Perm.cons t (sort_strings-Perm ts))

insert_sorted-All {κ} :
    (P : String → Type κ) (s : String) (ts : List String)
    → P s
    → All P ts
    → All P (insert_sorted s ts)
unfolding insert_sorted
insert_sorted-All P s [] h hs = (h, hs)
insert_sorted-All P s (t ∷ ts) h hs =
    elim (compare s t)
      as (λ c. All P (elim c [ Ordering.gt ↦ t ∷ insert_sorted s ts | _ ↦ s ∷ (t ∷ ts) ])) [
        | Ordering.lt ↦ (h, hs)
        | Ordering.eq ↦ (h, hs)
        | Ordering.gt ↦ (hs.0, insert_sorted-All P s ts h hs.1)
      ]

pub sort_strings-All {κ} :
    (P : String → Type κ) (ts : List String) → All P ts → All P (sort_strings ts)
unfolding sort_strings
sort_strings-All P [] hs = hs
sort_strings-All P (t ∷ ts) hs =
    insert_sorted-All P t (sort_strings ts) hs.0 (sort_strings-All P ts hs.1)

abbrev flip : Ordering → Ordering
flip Ordering.lt = Ordering.gt
flip Ordering.eq = Ordering.eq
flip Ordering.gt = Ordering.lt

compare_ℕ-flip : (m n : ℕ) → compare_ℕ n m ≡ flip (compare_ℕ m n)
compare_ℕ-flip zero zero = compare_ℕ.zero-zero ∙ sym (ap flip compare_ℕ.zero-zero)
compare_ℕ-flip zero (suc n) = compare_ℕ.suc-zero n ∙ sym (ap flip (compare_ℕ.zero-suc n))
compare_ℕ-flip (suc m) zero = compare_ℕ.zero-suc m ∙ sym (ap flip (compare_ℕ.suc-zero m))
compare_ℕ-flip (suc m) (suc n) =
    compare_ℕ.suc-suc n m ∙ compare_ℕ-flip m n ∙ sym (ap flip (compare_ℕ.suc-suc m n))

then-flip : (o r : Ordering) → then (flip o) (flip r) ≡ flip (then o r)
then-flip Ordering.lt r = refl
then-flip Ordering.eq r = refl
then-flip Ordering.gt r = refl

compare-flip : (s t : String) → compare t s ≡ flip (compare s t)
compare-flip String.[] String.[] = compare.nil-nil ∙ sym (ap flip compare.nil-nil)
compare-flip String.[] (String.◌∷◌ d t) =
    compare.cons-nil d t ∙ sym (ap flip (compare.nil-cons d t))
compare-flip (String.◌∷◌ c s) String.[] =
    compare.nil-cons c s ∙ sym (ap flip (compare.cons-nil c s))
compare-flip (String.◌∷◌ c s) (String.◌∷◌ d t) =
    compare.cons-cons d c t s
    ∙ ap (λ o. then o (compare t s)) (compare_ℕ-flip (code c) (code d))
    ∙ ap (then (flip (compare_ℕ (code c) (code d)))) (compare-flip s t)
    ∙ then-flip (compare_ℕ (code c) (code d)) (compare s t)
    ∙ sym (ap flip (compare.cons-cons c d s t))

-- The strings stand in the order of their bytes.
abbrev Precedes : String → List String → Type 0
Precedes s [] = Unit
Precedes s (t ∷ ts) = compare s t ≢ Ordering.gt

abbrev pub IsSorted : List String → Type 0
IsSorted [] = Unit
IsSorted (s ∷ ts) = Precedes s ts × IsSorted ts

insert_sorted-Precedes :
    (u s : String) (ts : List String)
    → compare u s ≢ Ordering.gt
    → Precedes u ts
    → Precedes u (insert_sorted s ts)
unfolding insert_sorted
insert_sorted-Precedes u s [] h hs = h
insert_sorted-Precedes u s (t ∷ ts) h hs =
    elim (compare s t)
      as (λ c. Precedes u (elim c [ Ordering.gt ↦ t ∷ insert_sorted s ts | _ ↦ s ∷ (t ∷ ts) ])) [
        | Ordering.lt ↦ h
        | Ordering.eq ↦ h
        | Ordering.gt ↦ hs
      ]

insert_sorted-IsSorted :
    (s : String) (ts : List String) → IsSorted ts → IsSorted (insert_sorted s ts)
unfolding insert_sorted
insert_sorted-IsSorted s [] h = (tt, tt)
insert_sorted-IsSorted s (t ∷ ts) h =
    let rest = insert_sorted-IsSorted s ts h.1 in go rest (compare s t) refl
  where
    go :
        IsSorted (insert_sorted s ts)
        → (o : Ordering) → compare s t ≡ o
        → IsSorted (elim o [ Ordering.gt ↦ t ∷ insert_sorted s ts | _ ↦ s ∷ (t ∷ ts) ])
    go rest Ordering.lt e =
        ((λ wrong. let same : Ordering.lt ≡ Ordering.gt = sym e ∙ wrong in cc), h)
    go rest Ordering.eq e =
        ((λ wrong. let same : Ordering.eq ≡ Ordering.gt = sym e ∙ wrong in cc), h)
    go rest Ordering.gt e = (
      insert_sorted-Precedes t s ts
          (λ wrong.
            let same : Ordering.lt ≡ Ordering.gt =
              sym (ap flip e) ∙ sym (compare-flip s t) ∙ wrong in
            cc)
          h.0,
      rest,
    )

-- Sorting puts the strings in order.
pub sort_strings-IsSorted : (ts : List String) → IsSorted (sort_strings ts)
unfolding sort_strings
sort_strings-IsSorted [] = tt
sort_strings-IsSorted (t ∷ ts) =
    insert_sorted-IsSorted t (sort_strings ts) (sort_strings-IsSorted ts)
