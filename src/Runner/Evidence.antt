-- ===== src/Runner/Evidence.antt =====
-- validator.go: the counts of a result, and what its status says.
use proof_layer.Base.{
  ◌+◌, ◌≡◌, refl, ap, subst, ◌∙◌, ◌↔◌, Bool, true, false, not, String, List, [], ◌∷◌, arith, ok,
  length, every, keep, All, All-keep, All-map, ◌++◌, if◌then◌else◌, Bool-cases, inl, inr, nat_eq,
}
use mathlib.Core.List.{Perm, perm_middle}
use mathlib.Core.List.Perm
use proof_layer.Base.Assoc.{Assoc}
use proof_layer.Runner.Sorting.{
  IsSorted, sort_strings-Perm, sort_strings-All, sort_strings-IsSorted,
}
use proof_layer.Runner.Fields.{
  Status, Result, required_fields, is_present, present_of, missing_of, contains, result_of,
  validate, length-sort_strings,
}

keep_split :
    (p : String → Bool) (fields : List String)
    → length (keep p fields) + length (keep (λ f. not (p f)) fields) ≡ length fields
keep_split p [] = refl
keep_split p (f ∷ fields) = ground (arith, keep_split p fields)

keep_none :
    (p : String → Bool) (fields : List String)
    → (nat_eq (length (keep (λ f. not (p f)) fields)) 0 ≡ true) ↔ (every p fields ≡ true)
keep_none p [] = ((λ h. refl), (λ h. refl))
keep_none p (f ∷ fields) =
    let (down, up) = keep_none p fields in
    ((λ h. ground (arith, h, down)), (λ h. ground (arith, h, up)))

status_exact :
    (p : String → Bool) (fields : List String)
    → ((if not (nat_eq (length (keep (λ f. not (p f)) fields)) 0)
          then Status.failed
          else Status.passed)
        ≡ Status.passed)
      ↔ (every p fields ≡ true)
status_exact p fields =
    let (down, up) = keep_none p fields in ((λ h. down (ground (arith, h))), (λ h. rw (up h) refl))

keep-All : (p : String → Bool) (fields : List String) → All (λ f. p f ≡ true) (keep p fields)
keep-All p fields = All-keep (λ f. p f ≡ true) p fields (every_own fields)
  where
    every_own : (fs : List String) → All (λ f. p f ≡ true → p f ≡ true) fs
    every_own [] = tt
    every_own (f ∷ fs) = ((λ h. h), every_own fs)

-- What a test keeps, with what its negation keeps, are the fields.
keep_both :
    (p : String → Bool) (fields : List String)
    → Perm (keep p fields ++ keep (λ f. not (p f)) fields) fields
keep_both p [] = Perm.rfl
keep_both p (f ∷ fields) =
    elim (p f)
      as (λ b.
        Perm
          ((if b then f ∷ keep p fields else keep p fields)
            ++ (if not b then f ∷ keep (λ g. not (p g)) fields else keep (λ g. not (p g)) fields))
          (f ∷ fields)) [
            | true ↦ Perm.cons f (keep_both p fields)
            | false ↦
                Perm.trans (perm_middle (keep p fields) (keep (λ g. not (p g)) fields))
                  (Perm.cons f (keep_both p fields))
          ]

-- What a result says of the presence of the fields: it passed exactly if each required field is
-- present, the present fields are so and the missing ones are not, they are together the required
-- ones, each once, each list is sorted, and the counts are theirs.
pub record IsExact (presence : Assoc String Bool) (r : Result) : Type 0 where
  pub verdict : (r.status ≡ Status.passed) ↔ (every (is_present presence) required_fields ≡ true)
  pub present : All (λ f. is_present presence f ≡ true) r.present_fields
  pub missing : All (λ f. is_present presence f ≡ false) r.missing_fields
  pub complete : Perm (r.present_fields ++ r.missing_fields) required_fields
  pub present_in_order : IsSorted r.present_fields
  pub missing_in_order : IsSorted r.missing_fields
  pub counted : length r.present_fields ≡ r.present_field_count
  pub required : r.present_field_count + length r.missing_fields ≡ r.required_field_count

result_of-IsExact : (presence : Assoc String Bool) → IsExact presence (result_of presence)
result_of-IsExact presence =
    let p = is_present presence in
    let lost : List String = missing_of presence in
    record {
      verdict = status_exact p required_fields;
      present =
          sort_strings-All (λ f. p f ≡ true) (present_of presence) (keep-All p required_fields);
      missing =
          sort_strings-All (λ f. p f ≡ false) lost
            (All-map _ _ lost (λ f h. ground (arith, h))
              (keep-All (λ f. not (p f)) required_fields));
      complete =
          Perm.trans
            (Perm.append (sort_strings-Perm (present_of presence)) (sort_strings-Perm lost))
            (keep_both p required_fields);
      present_in_order = sort_strings-IsSorted (present_of presence);
      missing_in_order = sort_strings-IsSorted lost;
      counted = length-sort_strings (present_of presence);
      required =
          ap (λ k. length (present_of presence) + k) (length-sort_strings lost)
          ∙ keep_split p required_fields;
    }

-- A result of `Validate` says passed exactly if each required field is present; its present fields
-- are present and its missing fields are not, both together are the required fields, each once,
-- each list is sorted, and the counts are theirs.
pub validate-IsExact :
    (presence : Assoc String Bool) (r : Result) → validate presence ≡ ok r → IsExact presence r
unfolding validate
validate-IsExact presence r h =
    elim (Bool-cases
      (every (λ (entry : String × Bool). contains entry.0 required_fields) presence)) [
        | inr unknown ↦ absurd (ground (arith, unknown))
        | inl known ↦
            let same : result_of presence ≡ r = ground (arith, known) in
            subst (IsExact presence) same (result_of-IsExact presence)
      ]
