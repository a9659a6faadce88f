-- ===== src/Client/Model.antt =====
-- The data of runner/internal/controlplane/client.go.
use proof_layer.Base.{ℕ, Bool, String, Bytes, Outcome}
use proof_layer.Base.Int.{ℤ}
use proof_layer.RunQueue.Model.{Job, StageStatus}
use proof_layer.Executor.Identity.{RunnerIdentity}
use proof_layer.Verifier.Model.{JobError}

-- `remote_error` is a `RemoteError`, and `exchange_failed` each error of `doJSON` that is none.
pub data ClientError : Type 0 where
  invalid_config invalid_update exchange_failed : ClientError
  remote_error : ℕ → String → ClientError
  job_error : JobError → ClientError

-- What `url.Parse` makes of the base URL; `loopback` is the answer of `net` for its host.
pub record Target : Type 0 where
  pub user : Bool
  pub raw_query : String
  pub fragment : String
  pub path : String
  pub port : String
  pub scheme : String
  pub hostname : String
  pub loopback : Bool

pub record Config : Type 0 where
  pub base_url : String
  pub bearer_token : String
  pub version : String
  pub identity : RunnerIdentity
  pub signing_key_id : String
  pub signing_public_key : Bytes

pub record Client : Type 0 where
  pub base_url : String
  pub token : String
  pub version : String
  pub identity : RunnerIdentity

-- The documents that the calls send.
pub data Document : Type 0 where
  version_document : Document
  acknowledgement : Bool → Document
  stage_document : StageStatus → ℤ → String → Document

-- One request of `doJSON`, for the client's base URL, token and version.
pub record Request : Type 0 where
  pub method : String
  pub path : String
  pub document : Document

-- What `doJSON` does: the exchange changes the state of the other side, and answers the status and
-- the decoded job, or an error. The job counts only where the call asks for one.
abbrev pub Transport : Type 0 → Type 0
Transport S = Request → S → S × Outcome ClientError (ℕ × Job)
