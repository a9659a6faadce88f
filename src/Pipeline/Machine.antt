-- ===== src/Pipeline/Machine.antt =====
-- runner/internal/pipeline/machine.go: the operations. A method that fails leaves the machine as it
-- is, so each returns the machine after it, or an error. A snapshot's copies are values here.
use proof_layer.Base.{
  ℕ, zero, suc, ◌-◌, Bool, true, not, ◌&&◌, ◌||◌, String, Option, none, some, List, [], ◌∷◌, ◌==◌,
  String_eq, Time, before, is_zero_time, sub_time, milliseconds, Outcome, ok, err, ◌>>=◌, ◌>>◌,
  guard, or_panic, or_fail, get_elem?, set, take, last?, length, every, any, nat_eq, if◌then◌else◌,
}
use proof_layer.Pipeline.Model.{
  StageStatus, Status_eq, OverallStatus, PipelineError, invalid_transition, invalid_timestamp,
  required_stage, Options, StageResult, Snapshot, Machine,
}

abbrev result : String → Bool → StageResult
result stage required = record {
  stage = stage;
  status = StageStatus.pending;
  required = required;
  started_at = none;
  completed_at = none;
  latency_ms = none;
  error_code = "";
}

-- The stages of `New`, in the order of `orderedStages`.
abbrev pub new_stages : Options → List StageResult
new_stages options =
    result "execution" true
    ∷ result "endpoint_telemetry" true
    ∷ result "siem_ingestion" true
    ∷ result "field_validation" true
    ∷ result "detection" options.detection_required
    ∷ result "alert" options.alert_required
    ∷ result "cleanup" true
    ∷ []

unfoldable pub new : Options → Time → Outcome PipelineError Machine
new options started_at = do
  guard (not (is_zero_time started_at)) invalid_timestamp
  ok (record { started_at = started_at; stages = new_stages options })

abbrev pub ordered_stages : List String
ordered_stages =
    "execution" ∷ "endpoint_telemetry" ∷ "siem_ingestion" ∷ "field_validation" ∷ "detection"
    ∷ "alert" ∷ "cleanup" ∷ []

-- `stageIndex`, from position `i`.
unfoldable pub index_from : ℕ → List String → String → Option ℕ
index_from i [] stage = none
index_from i (candidate ∷ rest) stage =
    if stage == candidate then some i else index_from (suc i) rest stage

unfoldable pub stage_index : String → Option ℕ
unfolding index_from
stage_index stage = index_from 0 ordered_stages stage

-- Neither pending nor under way.
abbrev pub is_settled : StageResult → Bool
is_settled s = not (s.status == StageStatus.pending || s.status == StageStatus.running)

-- A stage that lets the next ones start.
abbrev pub is_cleared : StageResult → Bool
is_cleared s = not (
    not (s.status == StageStatus.passed)
    && not (s.status == StageStatus.degraded)
    && not (s.status == StageStatus.not_tested))

-- `ready`
unfoldable pub ready : List StageResult → ℕ → Bool
ready stages i =
    if nat_eq i (length stages - 1)
    then every is_settled (take i stages)
    else every is_cleared (take i stages)

abbrev pub mark : StageResult → StageResult
mark s = if s.status == StageStatus.pending then record s { status = StageStatus.not_tested } else s

-- `propagateNotTested`: from `start` on, save for the last stage.
unfoldable pub propagate_not_tested : ℕ → List StageResult → List StageResult
propagate_not_tested start [] = []
propagate_not_tested start (s ∷ []) = s ∷ []
propagate_not_tested zero (s ∷ (t ∷ ss)) = mark s ∷ propagate_not_tested zero (t ∷ ss)
propagate_not_tested (suc n) (s ∷ (t ∷ ss)) = s ∷ propagate_not_tested n (t ∷ ss)

abbrev pub started : Time → StageResult → StageResult
started at s = record s { status = StageStatus.running; started_at = some at }

unfoldable pub start_at : Machine → String → Time → ℕ → Outcome PipelineError Machine
start_at m stage at i = do
  guard (not (is_zero_time at || before at m.started_at)) invalid_timestamp
  current ← or_panic (get_elem? m.stages i)
  guard (current.status == StageStatus.pending) (invalid_transition stage "not_pending")
  guard (ready m.stages i) (invalid_transition stage "out_of_order")
  ok (record m { stages = set m.stages i (started at current) })

-- `Start`
unfoldable pub start : Machine → String → Time → Outcome PipelineError Machine
start m stage at = elim (stage_index stage) [
  | none ↦ err (invalid_transition stage "unknown_stage")
  | some i ↦ start_at m stage at i
]

abbrev pub completed : StageStatus → Time → Time → String → StageResult → StageResult
completed status began at error_code s = record s {
  status = status;
  completed_at = some at;
  latency_ms = some (milliseconds (sub_time at began));
  error_code = error_code;
}

-- The stages after a verdict: a failure leaves the pending ones untested.
abbrev pub after_verdict : String → StageStatus → ℕ → List StageResult → List StageResult
after_verdict stage status i stages =
    if status == StageStatus.failed && not (stage == "cleanup")
    then propagate_not_tested (suc i) stages
    else stages

abbrev pub is_verdict : StageStatus → Bool
is_verdict status = not (
    not (status == StageStatus.passed)
    && not (status == StageStatus.failed)
    && not (status == StageStatus.degraded))

unfoldable pub complete_at :
    Machine → String → StageStatus → Time → String → ℕ → Outcome PipelineError Machine
complete_at m stage status at error_code i = do
  current ← or_panic (get_elem? m.stages i)
  guard (current.status == StageStatus.running) (invalid_transition stage "not_running")
  began ← or_fail current.started_at (invalid_transition stage "not_running")
  guard (is_verdict status) (invalid_transition stage "invalid_terminal_status")
  guard (not (is_zero_time at || before at began)) invalid_timestamp
  guard (not (status == StageStatus.passed && not (error_code == "")))
      (invalid_transition stage "pass_with_error")
  guard (not (status == StageStatus.failed && error_code == ""))
      (invalid_transition stage "failure_without_error")
  ok (record m {
    stages =
        after_verdict stage status i
          (set m.stages i (completed status began at error_code current));
  })

-- `Complete`
unfoldable pub complete :
    Machine → String → StageStatus → Time → String → Outcome PipelineError Machine
complete m stage status at error_code = elim (stage_index stage) [
  | none ↦ err (invalid_transition stage "unknown_stage")
  | some i ↦ complete_at m stage status at error_code i
]

abbrev pub skipped : StageResult → StageResult
skipped s = record s { status = StageStatus.not_tested }

unfoldable pub skip_at : Machine → String → ℕ → Outcome PipelineError Machine
skip_at m stage i = do
  current ← or_panic (get_elem? m.stages i)
  guard (not current.required) (required_stage stage)
  guard (not (not (current.status == StageStatus.pending) || not (ready m.stages i)))
      (invalid_transition stage "cannot_skip")
  ok (record m { stages = set m.stages i (skipped current) })

-- `SkipOptional`
unfoldable pub skip_optional : Machine → String → Outcome PipelineError Machine
skip_optional m stage = elim (stage_index stage) [
  | none ↦ err (invalid_transition stage "unknown_stage")
  | some i ↦ skip_at m stage i
]

-- The last loop of `overallStatus`.
unfoldable pub overall_rest : List StageResult → OverallStatus
overall_rest [] = OverallStatus.passed
overall_rest (s ∷ ss) =
    let rest = overall_rest ss in
    if s.required && (not (is_settled s) || s.status == StageStatus.not_tested)
    then OverallStatus.running
    else if s.status == StageStatus.degraded
    then OverallStatus.degraded
    else rest

abbrev pub has_failed : StageResult → Bool
has_failed s = s.required && s.status == StageStatus.failed

-- `overallStatus`, where `cleanup` is the last stage and `first` the first.
unfoldable pub overall_of : StageResult → StageResult → List StageResult → OverallStatus
unfolding overall_rest
overall_of cleanup first stages =
    if cleanup.status == StageStatus.failed
    then OverallStatus.failed
    else if any has_failed stages
    then OverallStatus.failed
    else if not (is_settled cleanup)
    then (if first.status == StageStatus.pending
        then OverallStatus.pending
        else OverallStatus.running)
    else overall_rest stages

-- `overallStatus`; a machine without stages makes it panic.
unfoldable pub overall_status : Machine → Outcome PipelineError OverallStatus
unfolding overall_of
overall_status m = do
  cleanup ← or_panic (last? m.stages)
  first ← or_panic (get_elem? m.stages 0)
  ok (overall_of cleanup first m.stages)

-- `Snapshot`
unfoldable pub snapshot : Machine → Outcome PipelineError Snapshot
snapshot m = do
  overall ← overall_status m
  cleanup ← or_panic (last? m.stages)
  ok (record {
    overall_status = overall;
    started_at = m.started_at;
    completed_at = if is_verdict cleanup.status then cleanup.completed_at else none;
    stages = m.stages;
  })
