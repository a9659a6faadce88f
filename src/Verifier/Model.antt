-- ===== src/Verifier/Model.antt =====
-- The data of runner/internal/controlplane/job.go. Its `Job`, `Signature` and `unsignedJob` have the
-- fields and the encoding of those of the queue.
use proof_layer.Base.{String, Time, Duration, Bytes}
use proof_layer.Base.Assoc.{Assoc}
use proof_layer.Runner.Catalog.{Definition}
use proof_layer.Executor.Identity.{RunnerIdentity}

pub data JobError : Type 0 where
  job_invalid job_signature job_identity job_expired job_replayed : JobError

pub record Verifier : Type 0 where
  pub identity : RunnerIdentity
  pub catalog : Assoc String Definition
  pub key_id : String
  pub public_key : Bytes
  pub consumed : Assoc String Time
  pub maximum_age : Duration
