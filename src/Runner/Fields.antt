-- ===== src/Runner/Fields.antt =====
-- runner/internal/fieldvalidator/validator.go: which of the required fields an event carries.
use Prim.Native.String.{compare}
use Prim.Native.Nat.{Ordering}
use proof_layer.Base.{
  ℕ, Bool, false, not, String, none, some, List, [], ◌∷◌, ◌==◌, String_eq, Outcome, ok, err, length,
  any, every, keep, if◌then◌else◌, nat_eq, ◌≡◌, refl, arith,
}
use proof_layer.Base.Assoc.{Assoc, lookup}

pub data Status : Type 0 where
  passed failed : Status

pub data PresenceError : Type 0 where
  invalid_presence_evidence : PresenceError

pub record Result : Type 0 where
  pub status : Status
  pub required_field_count : ℕ
  pub present_field_count : ℕ
  pub present_fields : List String
  pub missing_fields : List String

abbrev pub required_fields : List String
required_fields = "host.name" ∷ "process.name" ∷ "process.command_line" ∷ "user.name" ∷ []

-- `presence[field]`; a missing key reads as false.
abbrev pub is_present : Assoc String Bool → String → Bool
is_present presence field = elim (lookup field presence) [ none ↦ false | some b ↦ b ]

abbrev pub contains : String → List String → Bool
contains field fields = any (λ f. f == field) fields

-- `sort.Strings`
unfoldable pub insert_sorted : String → List String → List String
insert_sorted s [] = s ∷ []
insert_sorted s (t ∷ ts) =
    let rest = insert_sorted s ts in
    elim (compare s t) [ Ordering.gt ↦ t ∷ rest | _ ↦ s ∷ (t ∷ ts) ]

unfoldable pub sort_strings : List String → List String
unfolding insert_sorted
sort_strings [] = []
sort_strings (s ∷ ss) = insert_sorted s (sort_strings ss)

abbrev pub present_of : Assoc String Bool → List String
present_of presence = keep (is_present presence) required_fields

abbrev pub missing_of : Assoc String Bool → List String
missing_of presence = keep (λ field. not (is_present presence field)) required_fields

abbrev pub result_of : Assoc String Bool → Result
result_of presence = record {
  status = if not (nat_eq (length (missing_of presence)) 0) then Status.failed else Status.passed;
  required_field_count = length required_fields;
  present_field_count = length (present_of presence);
  present_fields = sort_strings (present_of presence);
  missing_fields = sort_strings (missing_of presence);
}

-- `Validate`
unfoldable pub validate : Assoc String Bool → Outcome PresenceError Result
unfolding sort_strings
validate presence =
    if not (every (λ (entry : String × Bool). contains entry.0 required_fields) presence)
    then err invalid_presence_evidence
    else ok (result_of presence)

length-insert_sorted :
    (s : String) (ts : List String) → length (insert_sorted s ts) ≡ length (s ∷ ts)
unfolding insert_sorted
length-insert_sorted s [] = refl
length-insert_sorted s (t ∷ ts) = ground (arith, length-insert_sorted s ts)

-- Sorting keeps the number of fields.
pub length-sort_strings : (ts : List String) → length (sort_strings ts) ≡ length ts
unfolding sort_strings
length-sort_strings [] = refl
length-sort_strings (t ∷ ts) =
    omega (arith, length-insert_sorted t (sort_strings ts), length-sort_strings ts)
