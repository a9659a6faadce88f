-- ===== src/Runner/Limits.antt =====
-- runner/internal/policy/limits.go: the limits of an execution.
use proof_layer.Base.{◌*◌, not, ◌||◌, String, ◌==◌, String_eq, Outcome, ok, ◌>>◌, guard, second}
use proof_layer.Base.Int.{ℤ, pos, ltb_ℤ, Int_eq}

pub data LimitsError : Type 0 where
  invalid_limits : String → LimitsError

pub record ExecutionLimits : Type 0 where
  pub runtime : ℤ
  pub cleanup_runtime : ℤ
  pub maximum_output_bytes : ℤ
  pub maximum_children : ℤ
  pub network_access : String

abbrev pub approved_process_marker_limits : ExecutionLimits
approved_process_marker_limits = record {
  runtime = pos (30 * second);
  cleanup_runtime = pos (10 * second);
  maximum_output_bytes = pos 4096;
  maximum_children = pos 1;
  network_access = "none";
}

-- `Validate`
unfoldable pub validate_limits : ExecutionLimits → Outcome LimitsError (Unit {0})
validate_limits l = do
  guard (not (not (ltb_ℤ (pos 0) l.runtime) || ltb_ℤ (pos (30 * second)) l.runtime))
      (invalid_limits "runtime")
  guard (not (not (ltb_ℤ (pos 0) l.cleanup_runtime) || ltb_ℤ (pos (10 * second)) l.cleanup_runtime))
      (invalid_limits "cleanup_runtime")
  guard (not (ltb_ℤ l.maximum_output_bytes (pos 0) || ltb_ℤ (pos 4096) l.maximum_output_bytes))
      (invalid_limits "maximum_output_bytes")
  guard (l.maximum_children == pos 1) (invalid_limits "maximum_children")
  guard (l.network_access == "none") (invalid_limits "network_access")

-- `ExecutionContext` and `CleanupContext`: the deadline after the call's time, for valid limits; the
-- cleanup's does not depend on its parent.
unfoldable pub execution_timeout : ExecutionLimits → Outcome LimitsError ℤ
unfolding validate_limits
execution_timeout l = validate_limits l >> ok l.runtime

unfoldable pub cleanup_timeout : ExecutionLimits → Outcome LimitsError ℤ
unfolding validate_limits
cleanup_timeout l = validate_limits l >> ok l.cleanup_runtime
