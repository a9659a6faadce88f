-- ===== src/Executor/Run.antt =====
-- runner/internal/executor/executor.go: one execution. It answers its result and the events that it
-- has appended to the audit log.
use proof_layer.Base.{
  Bool, true, false, not, String, Option, none, some, List, [], ◌∷◌, ◌++◌, ◌==◌, String_eq, Time,
  ok, err, panic, if◌then◌else◌,
}
use proof_layer.Base.Assoc.{lookup}
use proof_layer.Base.Int.{pos}
use proof_layer.Runner.Catalog.{built_in_catalog}
use proof_layer.Runner.Limits.{approved_process_marker_limits, cleanup_timeout, execution_timeout}
use proof_layer.Executor.Identity.{RunnerIdentity, validate_identity}
use proof_layer.Executor.Request.{ExecutionRequest, validate_request}
use proof_layer.Executor.Audit.{Event, append_event}
use proof_layer.Executor.Handlers.{Host, built_in_handlers}
use proof_layer.Executor.Model.{
  Status, Result, HandlerError, deadline_exceeded, unsupported_platform, artifact_present,
  ScenarioHandler, Executor, elapsed_ms,
}

-- `New`
abbrev pub new_executor : Host → RunnerIdentity → Executor
new_executor h identity = record {
  identity = identity;
  catalog = built_in_catalog;
  limits = approved_process_marker_limits;
  handlers = built_in_handlers h;
}

-- What an execution meets: the clock at its start and end and at each event, the audit file, and
-- whether the context of the execution has passed its deadline when the handler returns.
pub record World : Type 0 where
  pub started_at : Time
  pub completed_at : Time
  pub stamp : List Event → Time
  pub writes : List Event → Event → Bool
  pub timed_out : Bool

abbrev pub first_result : World → ExecutionRequest → Result
first_result w r = record {
  schema_version = "1.0";
  status = Status.failed;
  correlation_id = r.correlation_id;
  scenario_id = r.scenario_id;
  scenario_version = r.scenario_version;
  started_at = w.started_at;
  completed_at = 0;
  latency_ms = pos 0;
  cleanup_status = Status.passed;
  error_code = "";
}

-- `finish`
abbrev pub finish : World → Result → String → Result
finish w result error_code = record result {
  error_code = error_code;
  completed_at = w.completed_at;
  latency_ms = elapsed_ms result.started_at w.completed_at;
}

abbrev pub event_of :
    Executor → World → ExecutionRequest → List Event → String → String → String → Event
event_of x w r log event_type outcome error_code = record {
  schema_version = "1.0";
  timestamp = w.stamp log;
  event_type = event_type;
  outcome = outcome;
  runner_id = x.identity.runner_id;
  correlation_id = r.correlation_id;
  error_code = error_code;
}

-- `record`: whether the event is appended, and the log after it.
unfoldable pub record_event :
    Executor → World → ExecutionRequest → List Event → String → String → String → Bool × List Event
record_event x w r log event_type outcome error_code =
    let e = event_of x w r log event_type outcome error_code in
    if append_event w.writes log e then (true, log ++ (e ∷ [])) else (false, log)

-- `executionErrorCode`
unfoldable pub execution_error_code : World → Option HandlerError → String
execution_error_code w none = ""
execution_error_code w (some deadline_exceeded) = "execution_timeout"
execution_error_code w (some unsupported_platform) =
    if w.timed_out then "execution_timeout" else "unsupported_platform"
execution_error_code w (some _) = if w.timed_out then "execution_timeout" else "execution_failed"

-- `recordCleanupFailure`
unfoldable pub record_cleanup_failure :
    Executor → World → ExecutionRequest → List Event → String → String × List Event
unfolding record_event
record_cleanup_failure x w r log error_code =
    let (appended, log') = record_event x w r log "scenario.cleanup" "failed" error_code in
    (if appended then error_code else "audit_write_failed", log')

abbrev pub absence_code : HandlerError → String
absence_code artifact_present = "artifact_remaining"
absence_code _ = "cleanup_failed"

-- `cleanup`
unfoldable pub cleanup :
    Executor → World → ScenarioHandler → ExecutionRequest → List Event → String × List Event
unfolding record_cleanup_failure cleanup_timeout record_event
cleanup x w h r log = elim (cleanup_timeout x.limits) [
  | ok _ ↦ (elim (h.cleanup r.correlation_id) [
    | some _ ↦ record_cleanup_failure x w r log "cleanup_failed"
    | none ↦ (elim (h.verify_absent r.correlation_id) [
      | some e ↦ record_cleanup_failure x w r log (absence_code e)
      | none ↦
          let (appended, log') = record_event x w r log "scenario.cleanup" "passed" "" in
          (if appended then "" else "audit_write_failed", log')
    ])
  ])
  | err _ ↦ record_cleanup_failure x w r log "cleanup_failed"
  | panic ↦ record_cleanup_failure x w r log "cleanup_failed"
]

-- The end of `Execute`, after the cleanup.
abbrev pub conclude : World → Result → String → String → Result
conclude w result execution_code cleanup_code =
    if not (cleanup_code == "")
    then finish w (record result { cleanup_status = Status.failed }) cleanup_code
    else if not (execution_code == "")
    then finish w result execution_code
    else finish w (record result { status = Status.passed }) ""

-- `Execute` from the call of the handler on.
unfoldable pub run_handler :
    Executor → World → ScenarioHandler → ExecutionRequest → List Event → Result × List Event
unfolding execution_error_code record_event cleanup
run_handler x w h r log =
    let code = execution_error_code w (h.execute r.correlation_id) in
    let (appended, log') =
      record_event x w r log "scenario.execution" (if code == "" then "passed" else "failed")
        code in
    let code' = if appended then code else "audit_write_failed" in
    let (cleanup_code, log'') = cleanup x w h r log' in
    (conclude w (first_result w r) code' cleanup_code, log'')

-- `Execute` with a handler.
unfoldable pub run_validated :
    Executor → World → ScenarioHandler → ExecutionRequest → Result × List Event
unfolding record_event execution_timeout run_handler
run_validated x w h r =
    let (appended, log) = record_event x w r [] "job.validation" "passed" "" in
    if not appended
    then (finish w (first_result w r) "audit_write_failed", log)
    else (elim (execution_timeout x.limits) [
      | ok _ ↦ run_handler x w h r log
      | err _ ↦ (finish w (first_result w r) "invalid_request", log)
      | panic ↦ (finish w (first_result w r) "invalid_request", log)
    ])

-- `Execute` with a valid identity.
unfoldable pub run_request : Executor → World → ExecutionRequest → Result × List Event
unfolding validate_request run_validated
run_request x w r = elim (validate_request r x.identity x.catalog) [
  | ok definition ↦ (elim (lookup definition.handler x.handlers) [
    | some h ↦ run_validated x w h r
    | none ↦ (finish w (first_result w r) "invalid_request", [])
  ])
  | err _ ↦ (finish w (first_result w r) "invalid_request", [])
  | panic ↦ (finish w (first_result w r) "invalid_request", [])
]

-- `Execute`
unfoldable pub execute : Executor → World → ExecutionRequest → Result × List Event
unfolding validate_identity run_request
execute x w r = elim (validate_identity x.identity w.started_at) [
  | ok _ ↦ run_request x w r
  | err _ ↦ (finish w (first_result w r) "invalid_identity", [])
  | panic ↦ (finish w (first_result w r) "invalid_identity", [])
]
