-- ===== src/Runner/Examples.antt =====
-- The small parts of the runner on concrete input: tests, and the theorems at inputs that meet their
-- hypotheses.
use proof_layer.Base.{
  ℕ, ◌+◌, ◌≤◌, ◌≡◌, refl, true, false, Bool, String, some, [], ◌∷◌, arith, Outcome, ok, err, every,
  ltb, if◌then◌else◌, none,
}
use proof_layer.Base.Assoc.{Assoc, lookup}
use proof_layer.Base.Int.{pos_part}
use proof_layer.RunQueue.Queue.{approved_scenarios}
use proof_layer.Runner.Fields.{sort_strings, validate, result_of}
use proof_layer.Runner.Polling.{
  SearchError, event_not_found, approved_polling_policy, valid_policy, poll_exact,
}
use proof_layer.Runner.Limits.{approved_process_marker_limits, validate_limits}
use proof_layer.Runner.Catalog.{built_in_catalog, resolve}
use proof_layer.Runner.Evidence.{IsExact, validate-IsExact}
use proof_layer.Runner.Attempts.{poll_exact-bounds, poll_exact-found}

abbrev presence : Assoc String Bool
presence = ("host.name", true) ∷ ("user.name", true) ∷ ("process.name", false) ∷ []

validate-IsExact_example : IsExact presence (result_of presence)
unfolding validate lookup
validate-IsExact_example = validate-IsExact presence (result_of presence) refl

test_missing : (result_of presence).missing_fields ≡ "process.command_line" ∷ "process.name" ∷ []
unfolding sort_strings lookup
test_missing = refl

-- The event is there at the third attempt.
abbrev search : ℕ → Outcome SearchError ℕ
search k = if ltb k 3 then err event_not_found else ok 7

abbrev never_ends : ℕ → Bool
never_ends k = false

poll_exact-bounds_example :
    (1 ≤ (poll_exact search never_ends approved_polling_policy).0)
    × ((poll_exact search never_ends approved_polling_policy).0
        ≤ pos_part approved_polling_policy.maximum_attempts)
unfolding valid_policy
poll_exact-bounds_example = poll_exact-bounds search never_ends approved_polling_policy refl

poll_exact-found_example : poll_exact search never_ends approved_polling_policy ≡ (1 + 2, ok 7)
unfolding valid_policy
poll_exact-found_example =
    poll_exact-found search never_ends approved_polling_policy 2 7 refl (omega arith)
      (λ j low high. (ground (arith, high), refl)) refl

test_limits : validate_limits approved_process_marker_limits ≡ ok tt
unfolding validate_limits
test_limits = refl

-- The catalog of the runner knows each scenario that the queue approves.
abbrev is_resolved : Assoc String String → Bool
is_resolved scenarios =
    every
      (λ (s : String × String). elim (resolve built_in_catalog s.0 s.1) [
        | none ↦ false
        | some _ ↦ true
      ])
      scenarios

test_catalog : is_resolved approved_scenarios ≡ true
unfolding approved_scenarios resolve
test_catalog = refl
