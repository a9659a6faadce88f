-- ===== src/Worker/Run.antt =====
-- runner/internal/worker/worker.go: `RunOnce` and its helpers, on any control plane.
use proof_layer.Base.{
  Bool, true, false, not, ◌&&◌, ◌||◌, String, Option, none, some, List, [], ◌∷◌, ◌==◌, String_eq,
  ◌+◌, ℕ, Outcome, ok, err, panic, if◌then◌else◌, drop,
}
use proof_layer.Base.Int.{ℤ, pos}
use proof_layer.Runner.Polling.{SearchError, approved_polling_policy, poll_exact}
use proof_layer.Runner.Fields.{Status as FieldStatus, validate}
use proof_layer.RunQueue.Model.{Job, StageStatus, StageUpdate}
use proof_layer.Executor.Model.{Status, Result as Execution}
use proof_layer.Worker.Model.{
  Result, ControlPlane, ObserverError, Evidence, CorrelationEvidence, SearchWindow, DetectionStatus,
  DetectionEvidence, World, non_negative, elapsed_ms, window_of, execution_request,
  endpoint_failure_code, endpoint_result_code,
}
use proof_layer.Worker.Steps.{Steps, return, ◌>>=◌, ◌>>◌, reporting}

abbrev pub update_of : String → StageStatus → ℤ → String → StageUpdate
update_of name status latency detail = record {
  stage = name;
  status = status;
  latency_ms = non_negative latency;
  detail_code = detail;
}

abbrev pub empty_result : Result
empty_result = record {
  schema_version = "";
  status = "";
  job_id = "";
  correlation_id = "";
  error_code = "";
}

abbrev pub first_result : Job → Result
first_result job = record {
  schema_version = "1.0";
  status = "failed";
  job_id = job.job_id;
  correlation_id = job.correlation_id;
  error_code = "";
}

abbrev pub failable_stages : List String
failable_stages =
    "execution" ∷ "endpoint_telemetry" ∷ "siem_ingestion" ∷ "field_validation" ∷ "detection"
    ∷ "alert" ∷ []

abbrev pub cleanup_update_of : Status → StageUpdate
cleanup_update_of Status.passed = update_of "cleanup" StageStatus.passed (pos 0) ""
cleanup_update_of Status.failed =
    update_of "cleanup" StageStatus.failed (pos 0) "cleanup_verification_failed"

abbrev pub cleanup_update : Execution → StageUpdate
cleanup_update execution = cleanup_update_of execution.cleanup_status

-- The tests on what the searches found.
abbrev pub fields_passed : CorrelationEvidence → Bool
fields_passed evidence = elim (validate evidence.field_presence) [
  | ok result ↦ (elim result.status [ FieldStatus.passed ↦ true | _ ↦ false ])
  | _ ↦ false
]

abbrev pub is_detected : Outcome (Unit {0}) DetectionEvidence → Bool
is_detected (ok detection) =
    detection.detected
    && (elim detection.status [ DetectionStatus.passed ↦ true | DetectionStatus.failed ↦ false ])
is_detected _ = false

-- A dependency panics.
abbrev pub stopped : {S E A : Type 0} → Steps S E A
stopped s = (s, panic)

module _ {S E : Type 0} (cp : ControlPlane S E) (w : World) where
  -- `stage`
  unfoldable pub stage : String → String → StageStatus → ℤ → String → Steps S E (Unit {0})
  stage job_id name status latency detail =
      cp.update_stage job_id (update_of name status latency detail)

  -- The loop of `finishFailed`.
  unfoldable pub skip_stages : String → List String → Steps S E (Unit {0})
  unfolding stage
  skip_stages job_id [] = return tt
  skip_stages job_id (name ∷ names) =
      stage job_id name StageStatus.not_tested (pos 0) "" >> skip_stages job_id names

  -- `publishCleanup`
  unfoldable pub publish_cleanup : String → Execution → Steps S E (Unit {0})
  publish_cleanup job_id execution = cp.update_stage job_id (cleanup_update execution)

  -- `finishFailed`
  unfoldable pub finish_failed : String → ℕ → Execution → Steps S E (Unit {0})
  unfolding skip_stages publish_cleanup
  finish_failed job_id failed_index execution = do
    skip_stages job_id (drop (failed_index + 1) failable_stages)
    publish_cleanup job_id execution
    cp.complete job_id

  -- The end of a run at a stage that failed: `failSIEM`, and the same four lines in `RunOnce`.
  unfoldable pub fail_stage :
      Result → String → String → ℕ → ℤ → String → String → Execution → Steps S (Result × E) Result
  unfolding stage finish_failed
  fail_stage result job_id name index latency detail error_code execution = do
    reporting result (stage job_id name StageStatus.failed latency detail)
    let result' = record result { error_code = error_code }
    reporting result' (finish_failed job_id index execution)
    return result'

  -- The end of `RunOnce`, after the alert.
  unfoldable pub finish_passed : Result → Job → Execution → Steps S (Result × E) Result
  unfolding publish_cleanup
  finish_passed result job execution = do
    reporting result (publish_cleanup job.job_id execution)
    reporting result (cp.complete job.job_id)
    return (record result { status = "completed" })

  -- `RunOnce` from the alert on.
  unfoldable pub run_alert : Result → Job → Execution → Steps S (Result × E) Result
  unfolding stage finish_passed
  run_alert result job execution = do
    reporting result (stage job.job_id "alert" StageStatus.not_tested (pos 0) "")
    finish_passed result job execution

  -- `RunOnce` from the search for the detection on.
  unfoldable pub judge_detection :
      Result → Job → Execution → SearchWindow → Steps S (Result × E) Result
  unfolding stage fail_stage elapsed_ms run_alert
  judge_detection result job execution window = do
    let latency = elapsed_ms w.detection_started_at w.detection_ended_at
    if not (is_detected (w.search_detection job.correlation_id window))
        then fail_stage result job.job_id "detection" 4 latency "detection_result_absent"
            "detection_result_absent" execution
        else do
          reporting result (stage job.job_id "detection" StageStatus.passed latency "")
          run_alert result job execution

  -- `RunOnce` from the detection on.
  unfoldable pub run_detection :
      Result → Job → Execution → SearchWindow → Steps S (Result × E) Result
  unfolding stage judge_detection
  run_detection result job execution window = do
    reporting result (stage job.job_id "detection" StageStatus.running (pos 0) "")
    judge_detection result job execution window

  -- `RunOnce` from the call of the field validator on.
  unfoldable pub judge_fields :
      Result → Job → Execution → SearchWindow → CorrelationEvidence → Steps S (Result × E) Result
  unfolding stage fail_stage elapsed_ms run_detection
  judge_fields result job execution window evidence = do
    let latency = elapsed_ms w.field_started_at w.field_ended_at
    if not (fields_passed evidence)
        then fail_stage result job.job_id "field_validation" 3 latency "required_field_missing"
            "required_field_missing" execution
        else do
          reporting result (stage job.job_id "field_validation" StageStatus.passed latency "")
          run_detection result job execution window

  -- `RunOnce` from the field validation on.
  unfoldable pub run_fields :
      Result → Job → Execution → SearchWindow → CorrelationEvidence → Steps S (Result × E) Result
  unfolding stage judge_fields
  run_fields result job execution window evidence = do
    reporting result (stage job.job_id "field_validation" StageStatus.running (pos 0) "")
    judge_fields result job execution window evidence

  -- `failSIEM`
  unfoldable pub fail_siem : Result → String → Execution → Steps S (Result × E) Result
  unfolding fail_stage
  fail_siem result job_id execution =
      fail_stage result job_id "siem_ingestion" 2 (pos 0) "siem_event_missing" "siem_event_missing"
        execution

  -- `RunOnce` from what the polling answers on.
  unfoldable pub judge_search :
      Result
      → Job
      → Execution
      → SearchWindow
      → Outcome SearchError CorrelationEvidence
      → Steps S (Result × E) Result
  unfolding stage fail_siem run_fields
  judge_search result job execution window (ok found) = do
    reporting result (
        stage job.job_id "siem_ingestion" StageStatus.passed
          (non_negative found.ingestion_latency_ms) "")
    run_fields result job execution window found
  judge_search result job execution window (err _) = fail_siem result job.job_id execution
  judge_search result job execution window panic = stopped

  -- `RunOnce` from what the exporter answers on.
  unfoldable pub judge_export :
      Result → Job → Execution → Outcome (Unit {0}) (Unit {0}) → Steps S (Result × E) Result
  unfolding judge_search fail_siem poll_exact
  judge_export result job execution (ok _) =
      let window = window_of execution.started_at w.window_at in
      judge_search result job execution window
        (poll_exact (w.search_exact job.correlation_id window) w.ends approved_polling_policy).1
  judge_export result job execution (err _) = fail_siem result job.job_id execution
  judge_export result job execution panic = stopped

  -- `RunOnce` from the ingestion on.
  unfoldable pub run_siem : Result → Job → Execution → Evidence → Steps S (Result × E) Result
  unfolding stage judge_export
  run_siem result job execution evidence = do
    reporting result
        (stage job.job_id "siem_ingestion" StageStatus.running (pos 0) "siem_ingestion_delayed")
    judge_export result job execution (w.export job.correlation_id evidence)

  -- `RunOnce` from what the observer answers on.
  unfoldable pub judge_endpoint :
      Result → Job → Execution → Outcome ObserverError Evidence → Steps S (Result × E) Result
  unfolding stage fail_stage run_siem elapsed_ms endpoint_failure_code endpoint_result_code
  judge_endpoint result job execution (ok evidence) = do
    reporting result (
        stage job.job_id "endpoint_telemetry" StageStatus.passed
          (elapsed_ms execution.started_at evidence.observed_at_utc) "")
    run_siem result job execution evidence
  judge_endpoint result job execution (err e) =
      fail_stage result job.job_id "endpoint_telemetry" 1
        (elapsed_ms execution.started_at w.endpoint_failed_at) (endpoint_failure_code e)
        (endpoint_result_code e) execution
  judge_endpoint result job execution panic = stopped

  -- `RunOnce` from the endpoint telemetry on.
  unfoldable pub run_endpoint : Result → Job → Execution → Steps S (Result × E) Result
  unfolding stage judge_endpoint
  run_endpoint result job execution = do
    reporting result (
        stage job.job_id "endpoint_telemetry" StageStatus.running (pos 0) "awaiting_endpoint_event")
    judge_endpoint result job execution (w.observe job.correlation_id execution.started_at)

  -- `RunOnce` from the verdict of the executor on.
  unfoldable pub judge_execution : Result → Job → Execution → Status → Steps S (Result × E) Result
  unfolding stage fail_stage run_endpoint
  judge_execution result job execution Status.failed =
      fail_stage result job.job_id "execution" 0 execution.latency_ms "" execution.error_code
        execution
  judge_execution result job execution Status.passed = do
    reporting result (stage job.job_id "execution" StageStatus.passed execution.latency_ms "")
    run_endpoint result job execution

  -- `RunOnce` after the acknowledgement.
  unfoldable pub run_acknowledged : Result → Job → Steps S (Result × E) Result
  unfolding stage judge_execution
  run_acknowledged result job = do
    reporting result (stage job.job_id "execution" StageStatus.running (pos 0) "")
    let execution = w.execute (execution_request job)
    judge_execution result job execution execution.status

  -- `RunOnce` with a job.
  unfoldable pub run_job : Job → Steps S (Result × E) Result
  unfolding run_acknowledged
  run_job job = do
    let result = first_result job
    if not (job.scenario_id == "windows-process-marker") || not (job.scenario_version == "0.1.0")
        then reporting result (cp.acknowledge job.job_id false)
          >> return (record result {
            status = "rejected";
            error_code = "scenario_not_supported_by_worker";
          })
        else do reporting result (cp.acknowledge job.job_id true); run_acknowledged result job

  -- `RunOnce` from what `Lease` answers on.
  unfoldable pub with_lease : Option Job → Steps S (Result × E) Result
  unfolding run_job
  with_lease none = return (record empty_result { schema_version = "1.0"; status = "idle" })
  with_lease (some job) = run_job job

  -- `RunOnce`
  unfoldable pub run_once : Steps S (Result × E) Result
  unfolding with_lease
  run_once = do leased ← reporting empty_result cp.lease; with_lease leased
