-- ===== src/RunQueue/Examples.antt =====
-- Runs of the queue on concrete input: tests, and the theorems at inputs that meet their hypotheses.
use proof_layer.Base.{
  ◌+◌, ◌≡◌, refl, ◌⊎◌, true, String, Option, none, some, List, [], ◌∷◌, String_eq, Bytes_eq, All,
  to_lower, hex, last?,
}
use proof_layer.Base.Assoc.{lookup, insert}
use proof_layer.Base.Int.{pos}
use proof_layer.RunQueue.Model.{StageStatus, StageUpdate, StageSnapshot, LifecycleRecord}
use proof_layer.RunQueue.Lifecycle.{
  stage_order, stage_index, valid_detail, new_lifecycle_record, mark_pending_not_tested,
  prior_stage_failed, prior_stages_terminal,
}
use proof_layer.RunQueue.Transitions.{
  acknowledge_record, write_stage, valid_update, valid_order, update_at, update_record,
  complete_record, expire_record, lease_record,
}
use proof_layer.RunQueue.Patterns.{valid_uuid, matches_idempotency, uuid_of, correlation_id_of}
use proof_layer.RunQueue.Queue.{Queue, new, normalize, validate, prune_expired, admit, take_job}
use proof_layer.RunQueue.Methods.{
  create_job, enqueue_new, enqueue_locked, prepare, enqueue, lease, authorized_record, acknowledge,
  update_stage, complete, status,
}
use proof_layer.RunQueue.Progress.{names, IsProven}
use proof_layer.RunQueue.EnqueueInvariant.{IsFreshEntropy}
use proof_layer.RunQueue.QueueInvariant.{QueueInv}
use proof_layer.RunQueue.Runs.{
  Reached, made, after_call, enqueues, leases, acknowledges, updates, completes, Reached-QueueInv,
}
use proof_layer.RunQueue.Verdicts.{completed-IsProven, failed_has_cause}
use proof_layer.RunQueue.Stubs.{
  stub, config, entropy_of, start, empty_queue, test_new, marker_request, request_key, job_id_0,
  blank_job,
}

abbrev step : String → StageStatus → StageUpdate
step stage status = record { stage = stage; status = status; latency_ms = pos 5; detail_code = "" }

abbrev passing : List StageUpdate
passing =
    step "execution" StageStatus.running
    ∷ step "execution" StageStatus.passed
    ∷ step "endpoint_telemetry" StageStatus.passed
    ∷ step "siem_ingestion" StageStatus.passed
    ∷ step "field_validation" StageStatus.passed
    ∷ step "detection" StageStatus.passed
    ∷ step "alert" StageStatus.not_tested
    ∷ step "cleanup" StageStatus.passed
    ∷ []

abbrev failing : List StageUpdate
failing =
    step "execution" StageStatus.passed
    ∷ step "endpoint_telemetry" StageStatus.failed
    ∷ step "siem_ingestion" StageStatus.not_tested
    ∷ step "field_validation" StageStatus.not_tested
    ∷ step "detection" StageStatus.not_tested
    ∷ step "alert" StageStatus.not_tested
    ∷ step "cleanup" StageStatus.passed
    ∷ []

run_updates : Queue → List StageUpdate → Queue
run_updates q [] = q
run_updates q (u ∷ us) =
    run_updates (update_stage stub q config.environment_id config.host_id job_id_0 u (start + 1)).0
      us

Reached-run_updates :
    (q : Queue) (us : List StageUpdate)
    → Reached stub config q
    → Reached stub config (run_updates q us)
unfolding run_updates
Reached-run_updates q [] r = r
Reached-run_updates q (u ∷ us) r =
    Reached-run_updates
      (update_stage stub q config.environment_id config.host_id job_id_0 u (start + 1)).0 us
      (after_call r (updates q config.environment_id config.host_id job_id_0 u (start + 1)))

-- A job is enqueued, leased, accepted, updated and completed.
queued_queue : Queue
queued_queue = (enqueue stub empty_queue request_key marker_request (entropy_of 0) start start).0

leased_queue : Queue
leased_queue = (lease stub queued_queue config.environment_id config.host_id start start).0

taken_queue : Queue
taken_queue =
    (acknowledge stub leased_queue config.environment_id config.host_id job_id_0 true start start).0

complete_all : List StageUpdate → Queue
complete_all us =
    (complete stub (run_updates taken_queue us) config.environment_id config.host_id job_id_0
      start).0

or_record : Option LifecycleRecord → LifecycleRecord
or_record (some r) = r
or_record none = new_lifecycle_record blank_job

done_record : LifecycleRecord
done_record = or_record (lookup job_id_0 (complete_all passing).lifecycle)

failed_record : LifecycleRecord
failed_record = or_record (lookup job_id_0 (complete_all failing).lifecycle)

-- Each draw of random bytes here is the first: the queue has no job and no record yet.
start_fresh : IsFreshEntropy (entropy_of 0) (prune_expired start empty_queue)
unfolding prune_expired empty_queue new stub valid_uuid to_lower
start_fresh bytes drawn = record { unqueued = tt; unreceipted = tt }

Reached-queued : Reached stub config queued_queue
unfolding queued_queue
Reached-queued =
    after_call (made test_new)
      (enqueues empty_queue request_key marker_request (entropy_of 0) start start start_fresh)

Reached-taken : Reached stub config taken_queue
unfolding taken_queue leased_queue
Reached-taken =
    after_call
      (after_call Reached-queued
        (leases queued_queue config.environment_id config.host_id start start))
      (acknowledges leased_queue config.environment_id config.host_id job_id_0 true start start)

Reached-complete_all : (us : List StageUpdate) → Reached stub config (complete_all us)
unfolding complete_all
Reached-complete_all us =
    after_call (Reached-run_updates taken_queue us Reached-taken)
      (completes (run_updates taken_queue us) config.environment_id config.host_id job_id_0 start)

Reached-QueueInv_example : QueueInv (complete_all passing)
Reached-QueueInv_example = Reached-QueueInv stub (Reached-complete_all passing)

test_done : lookup job_id_0 (complete_all passing).lifecycle ≡ some done_record
unfolding done_record failed_record complete_all taken_queue leased_queue queued_queue empty_queue
    run_updates stub or_record new stage_index valid_detail mark_pending_not_tested
    acknowledge_record write_stage valid_update valid_order update_at update_record complete_record
    expire_record lease_record valid_uuid matches_idempotency uuid_of correlation_id_of normalize
    validate prune_expired admit take_job create_job enqueue_new enqueue_locked prepare enqueue
    lease authorized_record acknowledge update_stage complete lookup insert to_lower hex
    new_lifecycle_record
test_done = refl

test_failed : lookup job_id_0 (complete_all failing).lifecycle ≡ some failed_record
unfolding done_record failed_record complete_all taken_queue leased_queue queued_queue empty_queue
    run_updates stub or_record new stage_index valid_detail mark_pending_not_tested
    acknowledge_record write_stage valid_update valid_order update_at update_record complete_record
    expire_record lease_record valid_uuid matches_idempotency uuid_of correlation_id_of normalize
    validate prune_expired admit take_job create_job enqueue_new enqueue_locked prepare enqueue
    lease authorized_record acknowledge update_stage complete lookup insert to_lower hex
    new_lifecycle_record
test_failed = refl

completed-IsProven_example :
    (names done_record.stages ≡ stage_order) × All IsProven done_record.stages
unfolding done_record failed_record complete_all taken_queue leased_queue queued_queue empty_queue
    run_updates stub or_record new stage_index valid_detail mark_pending_not_tested
    acknowledge_record write_stage valid_update valid_order update_at update_record complete_record
    expire_record lease_record valid_uuid matches_idempotency uuid_of correlation_id_of normalize
    validate prune_expired admit take_job create_job enqueue_new enqueue_locked prepare enqueue
    lease authorized_record acknowledge update_stage complete lookup insert to_lower hex
    new_lifecycle_record
completed-IsProven_example =
    completed-IsProven stub config (complete_all passing) job_id_0 done_record
      (Reached-complete_all passing) test_done refl

failed_has_cause_example :
    (prior_stage_failed failed_record.stages ≡ true)
    × (prior_stages_terminal failed_record.stages ≡ true)
    × (cleanup : StageSnapshot) × (last? failed_record.stages ≡ some cleanup)
    × ((cleanup.status ≡ StageStatus.passed) ⊎ (cleanup.status ≡ StageStatus.failed))
unfolding done_record failed_record complete_all taken_queue leased_queue queued_queue empty_queue
    run_updates stub or_record new stage_index valid_detail mark_pending_not_tested
    acknowledge_record write_stage valid_update valid_order update_at update_record complete_record
    expire_record lease_record valid_uuid matches_idempotency uuid_of correlation_id_of normalize
    validate prune_expired admit take_job create_job enqueue_new enqueue_locked prepare enqueue
    lease authorized_record acknowledge update_stage complete lookup insert to_lower hex
    new_lifecycle_record
failed_has_cause_example =
    failed_has_cause stub config (complete_all failing) job_id_0 failed_record
      (Reached-complete_all failing) test_failed refl
