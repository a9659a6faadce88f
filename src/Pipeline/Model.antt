-- ===== src/Pipeline/Model.antt =====
-- The data of runner/internal/pipeline/machine.go.
use proof_layer.Base.{
  ℕ, ◌≡◌, ◌↔◌, Bool, true, false, String, Option, List, arith, Time, Eq, eq_iff, str_eq,
}

-- `StageStatus` is a string type: `other` is a value that is none of its constants.
pub data StageStatus : Type 0 where
  pending running passed failed degraded not_tested : StageStatus
  other : String → StageStatus

abbrev pub status_eq : StageStatus → StageStatus → Bool
status_eq StageStatus.pending StageStatus.pending = true
status_eq StageStatus.running StageStatus.running = true
status_eq StageStatus.passed StageStatus.passed = true
status_eq StageStatus.failed StageStatus.failed = true
status_eq StageStatus.degraded StageStatus.degraded = true
status_eq StageStatus.not_tested StageStatus.not_tested = true
status_eq (StageStatus.other s) (StageStatus.other t) = str_eq s t
status_eq _ _ = false

pub status_eq_iff : (a b : StageStatus) → (status_eq a b ≡ true) ↔ (a ≡ b)
status_eq_iff (StageStatus.other s) (StageStatus.other t) = ground (arith, eq_iff s t)
status_eq_iff _ _ = ground arith

instance abbrev pub Status_eq : Eq StageStatus
Status_eq = record { equal = status_eq; reflects = status_eq_iff }

pub data OverallStatus : Type 0 where
  pending running passed failed degraded : OverallStatus

-- The errors, with the stage and the reason that their text carries.
pub data PipelineError : Type 0 where
  invalid_transition : String → String → PipelineError
  invalid_timestamp : PipelineError
  required_stage : String → PipelineError

pub record Options : Type 0 where
  pub detection_required : Bool
  pub alert_required : Bool

pub record StageResult : Type 0 where
  pub stage : String
  pub status : StageStatus
  pub required : Bool
  pub started_at : Option Time
  pub completed_at : Option Time
  pub latency_ms : Option ℕ
  pub error_code : String

pub record Snapshot : Type 0 where
  pub overall_status : OverallStatus
  pub started_at : Time
  pub completed_at : Option Time
  pub stages : List StageResult

pub record Machine : Type 0 where
  pub started_at : Time
  pub stages : List StageResult
