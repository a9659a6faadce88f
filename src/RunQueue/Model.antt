-- ===== src/RunQueue/Model.antt =====
-- The data of control-plane/internal/runqueue: queue.go, lifecycle.go and history.go.
use proof_layer.Base.{
  ℕ, ◌≡◌, ◌↔◌, Bool, true, false, String, Option, List, arith, Time, Bytes, Eq, nat_eq, eq_iff,
  str_eq,
}
use proof_layer.Base.Int.{ℤ}

-- The error values of the package. A wrapped error carries the text behind the colon.
pub data QueueError : Type 0 where
  invalid_idempotency idempotency_conflict queue_full : QueueError
  job_not_found invalid_transition invalid_history_query : QueueError
  invalid_request : String → QueueError
  invalid_config : String → QueueError
  encode_failed random_failed : QueueError

pub data JobStatus : Type 0 where
  queued leased acknowledged running completed failed rejected expired : JobStatus

-- `StageStatus` is a string type: `other` is a value that is none of its constants.
pub data StageStatus : Type 0 where
  pending running passed failed not_tested : StageStatus
  other : String → StageStatus

abbrev pub job_code : JobStatus → ℕ
job_code JobStatus.queued = 0
job_code JobStatus.leased = 1
job_code JobStatus.acknowledged = 2
job_code JobStatus.running = 3
job_code JobStatus.completed = 4
job_code JobStatus.failed = 5
job_code JobStatus.rejected = 6
job_code JobStatus.expired = 7

abbrev pub job_status_eq : JobStatus → JobStatus → Bool
job_status_eq a b = nat_eq (job_code a) (job_code b)

pub job_status_eq_iff : (a b : JobStatus) → (job_status_eq a b ≡ true) ↔ (a ≡ b)
job_status_eq_iff a b = ground arith

instance abbrev pub JobStatus_eq : Eq JobStatus
JobStatus_eq = record { equal = job_status_eq; reflects = job_status_eq_iff }

abbrev pub stage_status_eq : StageStatus → StageStatus → Bool
stage_status_eq StageStatus.pending StageStatus.pending = true
stage_status_eq StageStatus.running StageStatus.running = true
stage_status_eq StageStatus.passed StageStatus.passed = true
stage_status_eq StageStatus.failed StageStatus.failed = true
stage_status_eq StageStatus.not_tested StageStatus.not_tested = true
stage_status_eq (StageStatus.other s) (StageStatus.other t) = str_eq s t
stage_status_eq _ _ = false

pub stage_status_eq_iff : (a b : StageStatus) → (stage_status_eq a b ≡ true) ↔ (a ≡ b)
stage_status_eq_iff (StageStatus.other s) (StageStatus.other t) = ground (arith, eq_iff s t)
stage_status_eq_iff _ _ = ground arith

instance abbrev pub StageStatus_eq : Eq StageStatus
StageStatus_eq = record { equal = stage_status_eq; reflects = stage_status_eq_iff }

pub record CreateRequest : Type 0 where
  pub schema_version : String
  pub environment_id : String
  pub host_id : String
  pub scenario_id : String
  pub scenario_version : String

pub record Signature : Type 0 where
  pub algorithm : String
  pub key_id : String
  pub value : String

-- What is signed: a job without its signature. `parameters` is the empty map in every job.
pub record UnsignedJob : Type 0 where
  pub schema_version : String
  pub job_id : String
  pub correlation_id : String
  pub environment_id : String
  pub host_id : String
  pub scenario_id : String
  pub scenario_version : String
  pub requested_by : String
  pub requested_at : Time
  pub expires_at : Time
  pub nonce : String
  pub parameters : List (String × String)

pub record Job : Type 0 where
  pub body : UnsignedJob
  pub open body use *
  pub signature : Signature

pub record Receipt : Type 0 where
  pub schema_version : String
  pub job_id : String
  pub correlation_id : String
  pub status : String
  pub replayed : Bool

pub record IdempotencyRecord : Type 0 where
  pub fingerprint : Bytes
  pub receipt : Receipt
  pub expires_at : Time

pub record StageSnapshot : Type 0 where
  pub stage : String
  pub status : StageStatus
  pub latency_ms : Option ℤ
  pub detail_code : String

pub record StageUpdate : Type 0 where
  pub stage : String
  pub status : StageStatus
  pub latency_ms : ℤ
  pub detail_code : String

pub record StatusSnapshot : Type 0 where
  pub schema_version : String
  pub job_id : String
  pub correlation_id : String
  pub status : JobStatus
  pub updated_at : Time
  pub expires_at : Time
  pub terminal : Bool
  pub stages : List StageSnapshot

pub record LifecycleRecord : Type 0 where
  pub job : Job
  pub status : JobStatus
  pub updated_at : Time
  pub terminal : Bool
  pub stages : List StageSnapshot
