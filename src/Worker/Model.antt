-- ===== src/Worker/Model.antt =====
-- The data of runner/internal/worker/worker.go, and what the worker depends on.
use proof_layer.Base.{
  ℕ, ◌-◌, ◌+◌, ◌*◌, Bool, ◌||◌, String, Option, Time, Outcome, minute, before, is_zero_time,
  sub_time, milliseconds, if◌then◌else◌,
}
use proof_layer.Base.Assoc.{Assoc}
use proof_layer.Base.Int.{ℤ, pos, ltb_ℤ}
use proof_layer.Runner.Polling.{SearchError}
use proof_layer.RunQueue.Model.{Job, StageUpdate}
use proof_layer.Executor.Model.{Result as Execution}
use proof_layer.Executor.Request.{ExecutionRequest}

pub record Result : Type 0 where
  pub schema_version : String
  pub status : String
  pub job_id : String
  pub correlation_id : String
  pub error_code : String

-- `ControlPlane`, with the state `S` that its calls change and the errors `E` that they return.
pub record ControlPlane (S E : Type 0) : Type 0 where
  pub lease : S → S × Outcome E (Option Job)
  pub acknowledge : String → Bool → S → S × Outcome E (Unit {0})
  pub update_stage : String → StageUpdate → S → S × Outcome E (Unit {0})
  pub complete : String → S → S × Outcome E (Unit {0})

-- The error values of runner/internal/observer that the worker asks `errors.Is` for.
pub data Sentinel : Type 0 where
  event_not_found evidence_limit windows_event_query windows_event_xml : Sentinel
  windows_event_encoding windows_event_declaration windows_event_document : Sentinel
  windows_event_record windows_event_timestamp : Sentinel

-- An error of the observer: which of the values its chain holds.
abbrev pub ObserverError : Type 0
ObserverError = Sentinel → Bool

-- `observer.Evidence`
pub record Evidence : Type 0 where
  pub provider : String
  pub event_id : ℤ
  pub record_id : ℕ
  pub time_created_utc : Time
  pub attempts : ℤ
  pub observed_at_utc : Time

-- `splunk.SearchWindow`
pub record SearchWindow : Type 0 where
  pub earliest : Time
  pub latest : Time

-- `splunk.CorrelationEvidence`
pub record CorrelationEvidence : Type 0 where
  pub correlation_id : String
  pub provider : String
  pub event_id : ℤ
  pub record_id : ℕ
  pub endpoint_event_time : Time
  pub ingestion_latency_ms : ℤ
  pub field_presence : Assoc String Bool

pub data DetectionStatus : Type 0 where
  passed failed : DetectionStatus

pub data DetectionMode : Type 0 where
  inline saved_search : DetectionMode

-- `splunk.DetectionEvidence`
pub record DetectionEvidence : Type 0 where
  pub status : DetectionStatus
  pub detected : Bool
  pub correlation_id : String
  pub detection_id : String
  pub mode : DetectionMode
  pub rule_reference : String
  pub match_count : ℤ

-- What the other dependencies answer in a run: the executor, the endpoint observer, the exporter,
-- the two searches (the exact one by attempt), whether the context ends in the wait after an
-- attempt, and the readings of the worker's clock in the order of the source.
pub record World : Type 0 where
  pub execute : ExecutionRequest → Execution
  pub observe : String → Time → Outcome ObserverError Evidence
  pub export : String → Evidence → Outcome (Unit {0}) (Unit {0})
  pub search_exact : String → SearchWindow → ℕ → Outcome SearchError CorrelationEvidence
  pub ends : ℕ → Bool
  pub search_detection : String → SearchWindow → Outcome (Unit {0}) DetectionEvidence
  pub endpoint_failed_at : Time
  pub window_at : Time
  pub field_started_at : Time
  pub field_ended_at : Time
  pub detection_started_at : Time
  pub detection_ended_at : Time

-- `nonNegative`
abbrev pub non_negative : ℤ → ℤ
non_negative value = if ltb_ℤ value (pos 0) then pos 0 else value

-- `elapsedMS`
unfoldable pub elapsed_ms : Time → Time → ℤ
elapsed_ms start end =
    if is_zero_time start || is_zero_time end || before end start
    then pos 0
    else pos (milliseconds (sub_time end start))

-- The window of both searches. Times before the zero time do not occur.
abbrev pub window_of : Time → Time → SearchWindow
window_of started_at now = record { earliest = started_at - 2 * minute; latest = now + 2 * minute }

-- `ExecutionRequest` of runner/internal/controlplane/job.go.
abbrev pub execution_request : Job → ExecutionRequest
execution_request job = record {
  correlation_id = job.correlation_id;
  environment_id = job.environment_id;
  host_id = job.host_id;
  scenario_id = job.scenario_id;
  scenario_version = job.scenario_version;
  parameters = job.parameters;
}

-- `endpointFailureCode`
unfoldable pub endpoint_failure_code : ObserverError → String
endpoint_failure_code e =
    if e event_not_found
    then "endpoint_event_missing"
    else if e evidence_limit
    then "endpoint_evidence_limit"
    else if e windows_event_query
    then "endpoint_query_failed"
    else if e windows_event_xml
    then "endpoint_xml_invalid"
    else "endpoint_observer_failed"

-- `endpointResultCode`
unfoldable pub endpoint_result_code : ObserverError → String
unfolding endpoint_failure_code
endpoint_result_code e =
    if e windows_event_encoding
    then "endpoint_xml_encoding_invalid"
    else if e windows_event_declaration
    then "endpoint_xml_declaration_invalid"
    else if e windows_event_document
    then "endpoint_xml_document_missing"
    else if e windows_event_record
    then "endpoint_xml_records_invalid"
    else if e windows_event_timestamp
    then "endpoint_xml_timestamps_invalid"
    else endpoint_failure_code e
