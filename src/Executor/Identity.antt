-- ===== src/Executor/Identity.antt =====
-- runner/internal/identity/identity.go and runner/internal/correlation/id.go.
use proof_layer.Base.{
  ◌+◌, Bool, true, not, ◌&&◌, ◌||◌, String, ◌∷◌, ◌==◌, String_eq, Time, minute, after, is_zero_time,
  Outcome, ◌>>◌, guard, codes, ◌≡◌, ◌↔◌, arith, eq_iff, str_eq, Eq, false,
}
use proof_layer.Base.Patterns.{
  Class, is_any_hex, is_upper_hex, is_upper, is_lower, is_digit, is_char, times, matches, within,
  uuid_classes,
}

-- `State` is a string type: `other` is a value that is none of its constants.
pub data State : Type 0 where
  active revoked : State
  other : String → State

abbrev pub state_eq : State → State → Bool
state_eq State.active State.active = true
state_eq State.revoked State.revoked = true
state_eq (State.other s) (State.other t) = str_eq s t
state_eq _ _ = false

pub state_eq_iff : (a b : State) → (state_eq a b ≡ true) ↔ (a ≡ b)
state_eq_iff (State.other s) (State.other t) = ground (arith, eq_iff s t)
state_eq_iff _ _ = ground arith

instance abbrev pub State_eq : Eq State
State_eq = record { equal = state_eq; reflects = state_eq_iff }

pub record RunnerIdentity : Type 0 where
  pub schema_version : String
  pub runner_id : String
  pub environment_id : String
  pub host_id : String
  pub identity_key_id : String
  pub registered_at : Time
  pub state : State

pub data IdentityError : Type 0 where
  invalid_identity : String → IdentityError

-- `uuidPattern`
abbrev pub is_variant : Class
is_variant c =
    is_char b'8' c
    || is_char b'9' c
    || is_char b'a' c
    || is_char b'A' c
    || is_char b'b' c
    || is_char b'B' c

unfoldable pub matches_uuid : String → Bool
unfolding matches
matches_uuid value = matches (uuid_classes is_any_hex is_variant) (codes value)

abbrev is_key_id : Class
is_key_id c =
    is_upper c || is_lower c || is_digit c || is_char b'.' c || is_char b'_' c || is_char b'-' c

-- `keyIDPattern`
unfoldable pub matches_key_id : String → Bool
matches_key_id value = within 1 80 is_key_id value

-- `Validate`. Go ranges over the three identifiers in an open order; here it is that of the source.
unfoldable pub validate_identity : RunnerIdentity → Time → Outcome IdentityError (Unit {0})
validate_identity r now = do
  guard (r.schema_version == "1.0") (invalid_identity "schema_version")
  guard (matches_uuid r.runner_id) (invalid_identity "runner_id")
  guard (matches_uuid r.environment_id) (invalid_identity "environment_id")
  guard (matches_uuid r.host_id) (invalid_identity "host_id")
  guard (matches_key_id r.identity_key_id) (invalid_identity "identity_key_id")
  guard (not (is_zero_time r.registered_at || after r.registered_at (now + minute)))
      (invalid_identity "registered_at")
  guard (r.state == State.active || r.state == State.revoked) (invalid_identity "state")

-- `Authorizes`
abbrev pub authorizes : RunnerIdentity → String → String → Bool
authorizes r environment host =
    r.state == State.active && r.environment_id == environment && r.host_id == host

-- `correlation.Valid`
unfoldable pub valid_correlation : String → Bool
unfolding matches
valid_correlation value =
    matches (is_char b'P' ∷ is_char b'L' ∷ is_char b'-' ∷ times 32 is_upper_hex) (codes value)
