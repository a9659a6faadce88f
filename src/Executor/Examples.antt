-- ===== src/Executor/Examples.antt =====
-- Runs of runner/internal/executor, on a host where every call succeeds.
use proof_layer.Base.{◌≡◌, refl, Bool, true, none, [], ◌∷◌, ◌⊎◌, map}
use proof_layer.Base.Assoc.{lookup}
use proof_layer.Runner.Limits.{cleanup_timeout, execution_timeout, validate_limits}
use proof_layer.Runner.Catalog.{resolve}
use proof_layer.Executor.Identity.{
  RunnerIdentity, State, validate_identity, matches_uuid, matches_key_id, valid_correlation,
}
use proof_layer.Executor.Request.{ExecutionRequest, validate_request}
use proof_layer.Executor.Audit.{valid_event, matches_event_type}
use proof_layer.Executor.Handlers.{Host, emit_process_marker}
use proof_layer.Executor.Correlation.{correlation_id_of-valid}
use proof_layer.RunQueue.Patterns.{correlation_id_of}
use proof_layer.RunQueue.Stubs.{sixteen}
use proof_layer.Base.{arith}
use proof_layer.Executor.Model.{Status, Executor, ScenarioHandler}
use proof_layer.Executor.Run.{
  World, new_executor, record_event, execution_error_code, cleanup, run_handler, run_validated,
  run_request, execute,
}
use proof_layer.Executor.Refusals.{label, IsRefused, IsRegistered}
use proof_layer.Executor.Cleanup.{execute_passed, execute_cleaned}

abbrev host : Host
host = record {
  run_process_marker = λ _. none;
  run_registry_canary = λ _. none;
  cleanup_registry_canary = λ _. none;
  verify_registry_canary_absent = λ _. none;
  run_scheduled_task_canary = λ _. none;
  cleanup_scheduled_task_canary = λ _. none;
  verify_scheduled_task_canary_absent = λ _. none;
  error_at_cleanup = none;
  error_at_verify_absent = none;
}

abbrev runner : RunnerIdentity
runner = record {
  schema_version = "1.0";
  runner_id = "11111111-1111-4111-8111-111111111111";
  environment_id = "22222222-2222-4222-8222-222222222222";
  host_id = "33333333-3333-4333-8333-333333333333";
  identity_key_id = "key-1";
  registered_at = 5;
  state = State.active;
}

abbrev world : World
world = record {
  started_at = 7;
  completed_at = 9000007;
  stamp = λ _. 8;
  writes = λ _ _. true;
  timed_out = Bool.false;
}

abbrev request : ExecutionRequest
request = record {
  correlation_id = "PL-00112233445566778899AABBCCDDEEFF";
  environment_id = "22222222-2222-4222-8222-222222222222";
  host_id = "33333333-3333-4333-8333-333333333333";
  scenario_id = "windows-process-marker";
  scenario_version = "0.1.0";
  parameters = [];
}

abbrev built_in : Executor
built_in = new_executor host runner

execute_passed_example :
    (h : ScenarioHandler) × IsRegistered built_in world request h
    × (h.execute request.correlation_id ≡ none)
    × (h.cleanup request.correlation_id ≡ none)
    × (h.verify_absent request.correlation_id ≡ none)
    × ((execute built_in world request).0.cleanup_status ≡ Status.passed)
    × ((execute built_in world request).0.error_code ≡ "")
    × (map label (execute built_in world request).1
        ≡ ("job.validation", "passed")
          ∷ (("scenario.execution", "passed") ∷ (("scenario.cleanup", "passed") ∷ [])))
unfolding execute run_request run_validated run_handler cleanup record_event execution_error_code
    validate_identity matches_uuid matches_key_id validate_request valid_correlation resolve lookup
    valid_event matches_event_type cleanup_timeout execution_timeout validate_limits
    emit_process_marker
execute_passed_example = execute_passed built_in world request refl

execute_cleaned_example :
    IsRefused built_in world request (execute built_in world request)
    ⊎ ((h : ScenarioHandler) × IsRegistered built_in world request h
        × (h.cleanup request.correlation_id ≡ none)
        × (h.verify_absent request.correlation_id ≡ none))
unfolding execute run_request run_validated run_handler cleanup record_event execution_error_code
    validate_identity matches_uuid matches_key_id validate_request valid_correlation resolve lookup
    valid_event matches_event_type cleanup_timeout execution_timeout validate_limits
    emit_process_marker
execute_cleaned_example = execute_cleaned built_in world request refl

correlation_id_of-valid_example : valid_correlation (correlation_id_of (sixteen 200)) ≡ true
correlation_id_of-valid_example = correlation_id_of-valid (sixteen 200) refl (
  omega arith,
  (
    omega arith,
    (
      omega arith,
      (
        omega arith,
        (
          omega arith,
          (
            omega arith,
            (
              omega arith,
              (
                omega arith,
                (
                  omega arith,
                  (
                    omega arith,
                    (
                      omega arith,
                      (omega arith, (omega arith, (omega arith, (omega arith, (omega arith, tt))))),
                    ),
                  ),
                ),
              ),
            ),
          ),
        ),
      ),
    ),
  ),
)
