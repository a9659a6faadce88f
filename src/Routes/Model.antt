-- ===== src/Routes/Model.antt =====
-- The data of control-plane/internal/httpapi/runner_routes.go.
use proof_layer.Base.{ℕ, Bool, String, Option, Time, Outcome}
use proof_layer.Base.Int.{ℤ}
use proof_layer.RunQueue.Model.{Job, StageStatus}
use proof_layer.RunQueue.Queue.{Queue}
use proof_layer.MvpStore.Model.{Service}

pub record RunnerBinding : Type 0 where
  pub runner_id : String
  pub environment_id : String
  pub host_id : String
  pub bearer_token : String
  pub version : String

pub record VersionRequest : Type 0 where
  pub schema_version : String

pub record AcknowledgeRequest : Type 0 where
  pub schema_version : String
  pub accepted : Bool

pub record StageRequest : Type 0 where
  pub schema_version : String
  pub status : StageStatus
  pub latency_ms : ℤ
  pub detail_code : String

-- The status of an answer, the code of an error, and the job of a lease.
pub record Response : Type 0 where
  pub status : ℕ
  pub code : String
  pub job : Option Job

-- A request. What `decodeRunnerRequest` makes of its body depends on the document that the handler
-- asks for: the document, or the answer that refuses the body.
pub record HttpRequest : Type 0 where
  pub method : String
  pub path : String
  pub authorization : String
  pub version : String
  pub version_body : Outcome Response VersionRequest
  pub acknowledge_body : Outcome Response AcknowledgeRequest
  pub stage_body : Outcome Response StageRequest

-- The part of `Server` that the routes use.
pub record Server : Type 0 where
  pub runner : Option RunnerBinding
  pub queue : Queue
  pub workspace : Service

-- The readings of the clocks in a request, in their order.
pub record Readings : Type 0 where
  pub seen_at : Time
  pub pruned_at : Time
  pub now : Time
