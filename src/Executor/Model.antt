-- ===== src/Executor/Model.antt =====
-- The data of runner/internal/executor/executor.go.
use proof_layer.Base.{
  ℕ, zero, suc, String, Option, Time, sub_time, milliseconds, leb, if◌then◌else◌,
}
use proof_layer.Base.Int.{ℤ, pos, negsuc}
use proof_layer.Base.Assoc.{Assoc}
use proof_layer.Runner.Catalog.{Definition}
use proof_layer.Runner.Limits.{ExecutionLimits}
use proof_layer.Executor.Identity.{RunnerIdentity}

pub data Status : Type 0 where
  passed failed : Status

pub record Result : Type 0 where
  pub schema_version : String
  pub status : Status
  pub correlation_id : String
  pub scenario_id : String
  pub scenario_version : String
  pub started_at : Time
  pub completed_at : Time
  pub latency_ms : ℤ
  pub cleanup_status : Status
  pub error_code : String

-- The errors of a handler that the executor tells apart.
pub data HandlerError : Type 0 where
  deadline_exceeded unsupported_platform artifact_present other_failure : HandlerError

-- What a handler answers for a correlation ID; `none` is a nil error.
pub record ScenarioHandler : Type 0 where
  pub execute : String → Option HandlerError
  pub cleanup : String → Option HandlerError
  pub verify_absent : String → Option HandlerError

pub record Executor : Type 0 where
  pub identity : RunnerIdentity
  pub catalog : Assoc String Definition
  pub limits : ExecutionLimits
  pub handlers : Assoc String ScenarioHandler

abbrev opposite : ℕ → ℤ
opposite zero = pos 0
opposite (suc n) = negsuc n

-- `end.Sub(start).Milliseconds()`
abbrev pub elapsed_ms : Time → Time → ℤ
elapsed_ms start end =
    if leb start end
    then pos (milliseconds (sub_time end start))
    else opposite (milliseconds (sub_time start end))
