-- ===== src/RunQueue/Lifecycle.antt =====
-- control-plane/internal/runqueue/lifecycle.go: the life of one job. The functions take the
-- record that the queue's methods fetch from the map, and the clock's reading.
use proof_layer.Base.{
  ℕ, ◌+◌, Bool, true, false, ◌&&◌, ◌||◌, String, Option, none, some, List, [], ◌∷◌, map,
  if◌then◌else◌, ◌==◌, String_eq, length, take, leb, any, every,
}
use proof_layer.Base.Assoc.{Assoc, lookup}
use proof_layer.Base.Int.{ℤ, pos}
use proof_layer.RunQueue.Model.{
  Job, JobStatus, StageStatus, StageSnapshot, StageUpdate, LifecycleRecord, StageStatus_eq,
}

abbrev pub stage_order : List String
stage_order =
    "execution" ∷ "endpoint_telemetry" ∷ "siem_ingestion" ∷ "field_validation" ∷ "detection"
    ∷ "alert" ∷ "cleanup" ∷ []

pub record DetailPolicy : Type 0 where
  pub stage : String
  pub status : StageStatus

abbrev policy : String → StageStatus → DetailPolicy
policy stage status = record { stage = stage; status = status }

unfoldable pub detail_policies : Assoc String DetailPolicy
detail_policies =
    ("awaiting_endpoint_event", policy "endpoint_telemetry" StageStatus.running)
    ∷ ("endpoint_event_delayed", policy "endpoint_telemetry" StageStatus.running)
    ∷ ("endpoint_event_missing", policy "endpoint_telemetry" StageStatus.failed)
    ∷ ("endpoint_evidence_limit", policy "endpoint_telemetry" StageStatus.failed)
    ∷ ("endpoint_query_failed", policy "endpoint_telemetry" StageStatus.failed)
    ∷ ("endpoint_xml_invalid", policy "endpoint_telemetry" StageStatus.failed)
    ∷ ("endpoint_observer_failed", policy "endpoint_telemetry" StageStatus.failed)
    ∷ ("siem_ingestion_delayed", policy "siem_ingestion" StageStatus.running)
    ∷ ("siem_event_missing", policy "siem_ingestion" StageStatus.failed)
    ∷ ("required_field_missing", policy "field_validation" StageStatus.failed)
    ∷ ("detection_result_absent", policy "detection" StageStatus.failed)
    ∷ ("alert_delivery_delayed", policy "alert" StageStatus.running)
    ∷ ("cleanup_verification_failed", policy "cleanup" StageStatus.failed)
    ∷ []

abbrev pub pending_stage : String → StageSnapshot
pending_stage stage = record {
  stage = stage;
  status = StageStatus.pending;
  latency_ms = none;
  detail_code = "";
}

-- `newLifecycleRecord`; `cloneJob` copies the map of parameters, which a value here needs not.
unfoldable pub new_lifecycle_record : Job → LifecycleRecord
new_lifecycle_record job = record {
  job = job;
  status = JobStatus.queued;
  updated_at = job.requested_at;
  terminal = false;
  stages = map pending_stage stage_order;
}

abbrev pub is_terminal_stage_status : StageStatus → Bool
is_terminal_stage_status status =
    status == StageStatus.passed || status == StageStatus.failed || status == StageStatus.not_tested

abbrev pub valid_stage_status : StageStatus → Bool
valid_stage_status status =
    status == StageStatus.running
    || status == StageStatus.passed
    || status == StageStatus.failed
    || status == StageStatus.not_tested

-- `stageIndex`, from position `i`; `none` for -1.
unfoldable pub index_from : ℕ → List String → String → Option ℕ
index_from i [] stage = none
index_from i (candidate ∷ rest) stage =
    if candidate == stage then some i else index_from (i + 1) rest stage

unfoldable pub stage_index : String → Option ℕ
unfolding index_from
stage_index stage = index_from 0 stage_order stage

unfoldable pub valid_detail : StageUpdate → Bool
unfolding lookup detail_policies
valid_detail u =
    if u.detail_code == "" then true else (elim (lookup u.detail_code detail_policies) [
      | none ↦ false
      | some p ↦ p.stage == u.stage && p.status == u.status
    ])

-- `stages[:index]`
abbrev pub slice_to : ℕ → List StageSnapshot → Option (List StageSnapshot)
slice_to i stages = if leb i (length stages) then some (take i stages) else none

abbrev pub prior_stages_terminal : List StageSnapshot → Bool
prior_stages_terminal = every (λ stage. is_terminal_stage_status stage.status)

abbrev pub prior_stage_failed : List StageSnapshot → Bool
prior_stage_failed = any (λ stage. stage.status == StageStatus.failed)

abbrev pub latency_value : Option ℤ → ℤ
latency_value none = pos 0
latency_value (some value) = value

abbrev pub mark_stage : StageSnapshot → StageSnapshot
mark_stage s =
    if s.status == StageStatus.pending
    then record s { status = StageStatus.not_tested; latency_ms = some (pos 0) }
    else s

-- `markPendingNotTested`
unfoldable pub mark_pending_not_tested : List StageSnapshot → List StageSnapshot
mark_pending_not_tested [] = []
mark_pending_not_tested (s ∷ rest) = mark_stage s ∷ mark_pending_not_tested rest
