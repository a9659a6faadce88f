-- ===== src/Executor/Audit.antt =====
-- runner/internal/audit/file.go: the events and their validation. The file is a parameter: whether
-- an event that is valid can be appended.
use proof_layer.Base.{
  Bool, false, not, ◌&&◌, ◌||◌, String, List, ◌==◌, String_eq, Time, is_zero_time, ltb, leb, length,
  every, codes, byte_len, [], ◌∷◌,
}
use proof_layer.Base.Patterns.{Class, is_lower, is_digit, is_char}
use proof_layer.Executor.Identity.{valid_correlation}

pub record Event : Type 0 where
  pub schema_version : String
  pub timestamp : Time
  pub event_type : String
  pub outcome : String
  pub runner_id : String
  pub correlation_id : String
  pub error_code : String

abbrev is_type_code : Class
is_type_code c = is_lower c || is_digit c || is_char b'_' c || is_char b'.' c

-- `eventTypePattern`
unfoldable pub matches_event_type : String → Bool
matches_event_type value = elim (codes value) [
  | [] ↦ false
  | c ∷ cs ↦ is_lower c && leb 2 (length cs) && leb (length cs) 79 && every is_type_code cs
]

-- `Event.Validate`
unfoldable pub valid_event : Event → Bool
unfolding matches_event_type
valid_event e =
    e.schema_version == "1.0"
    && not (is_zero_time e.timestamp)
    && matches_event_type e.event_type
    && (e.outcome == "passed" || e.outcome == "failed" || e.outcome == "denied")
    && not (e.runner_id == "")
    && (e.correlation_id == "" || valid_correlation e.correlation_id)
    && not (ltb 80 (byte_len e.error_code))

-- `FileRecorder.Append`, with what the file does with a valid event after those before it.
abbrev pub append_event : (List Event → Event → Bool) → List Event → Event → Bool
append_event writes log e = valid_event e && writes log e
