-- ===== src/Executor/Request.antt =====
-- runner/internal/job/request.go.
use proof_layer.Base.{String, List, Outcome, ok, ◌>>=◌, ◌>>◌, guard, or_fail, length, nat_eq}
use proof_layer.Base.Assoc.{Assoc}
use proof_layer.Runner.Catalog.{Definition, resolve}
use proof_layer.Executor.Identity.{RunnerIdentity, authorizes, valid_correlation}

pub data RequestError : Type 0 where
  invalid_request : String → RequestError

pub record ExecutionRequest : Type 0 where
  pub correlation_id : String
  pub environment_id : String
  pub host_id : String
  pub scenario_id : String
  pub scenario_version : String
  pub parameters : List (String × String)

-- `Validate`
unfoldable pub validate_request :
    ExecutionRequest → RunnerIdentity → Assoc String Definition → Outcome RequestError Definition
validate_request r identity catalog = do
  guard (valid_correlation r.correlation_id) (invalid_request "correlation_id")
  guard (authorizes identity r.environment_id r.host_id) (invalid_request "identity_binding")
  definition ←
      or_fail (resolve catalog r.scenario_id r.scenario_version)
        (invalid_request "scenario_allowlist")
  guard (nat_eq (length r.parameters) 0) (invalid_request "parameters")
  ok definition
