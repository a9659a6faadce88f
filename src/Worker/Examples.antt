-- ===== src/Worker/Examples.antt =====
-- A run of worker.go on the queue, with dependencies that find everything.
use proof_layer.Base.{
  ℕ, ◌≡◌, refl, subst, true, false, Option, some, [], ◌∷◌, String_eq, Outcome, ok, err, panic,
  to_lower, hex,
}
use proof_layer.Base.Int.{pos, ltb_ℤ}
use proof_layer.Base.Assoc.{lookup, insert}
use proof_layer.Runner.Polling.{SearchError, poll_exact, poll_from, valid_policy}
use proof_layer.RunQueue.Model.{QueueError, invalid_transition, Job, JobStatus, LifecycleRecord}
use proof_layer.RunQueue.Lifecycle.{new_lifecycle_record}
use proof_layer.RunQueue.Transitions.{lease_record}
use proof_layer.RunQueue.Patterns.{matches_idempotency, valid_uuid, uuid_of}
use proof_layer.RunQueue.Queue.{Queue, new, normalize, validate, prune_expired, admit, take_job}
use proof_layer.RunQueue.Methods.{create_job, prepare, enqueue_new, enqueue_locked, enqueue, lease}
use proof_layer.RunQueue.QueueInvariant.{QueueInv}
use proof_layer.RunQueue.Preservation.{new-QueueInv}
use proof_layer.RunQueue.EnqueueInvariant.{IsFreshEntropy, enqueue-QueueInv}
use proof_layer.RunQueue.Stubs.{
  stub, config, entropy_of, start, or_empty, empty_queue, test_new, marker_request, request_key,
  blank_job,
}
use proof_layer.Executor.Model.{Status, Result as Execution}
use proof_layer.Worker.Model.{
  Result, World, ObserverError, Evidence, CorrelationEvidence, DetectionMode, DetectionStatus,
  elapsed_ms,
}
use proof_layer.Worker.Run.{first_result, judge_search, run_once}
use proof_layer.Worker.Outcomes.{IsSteady}
use proof_layer.Worker.QueueStore.{queue_control, IsHeld}
use proof_layer.Worker.Ends.{IsVerdict, run_once_ends, late_ingestion-stops}

abbrev queued : Queue
queued = (enqueue stub empty_queue request_key marker_request (entropy_of 0) start start).0

leased_job : Job
leased_job = or_blank (lease stub queued config.environment_id config.host_id start start).1
  where
    or_blank : Outcome QueueError (Option Job) → Job
    or_blank (ok (some job)) = job
    or_blank _ = blank_job

made_fresh : IsFreshEntropy (entropy_of 0) (prune_expired start empty_queue)
unfolding prune_expired new valid_uuid to_lower hex stub empty_queue
made_fresh bytes drawn = record { unqueued = tt; unreceipted = tt }

queued-QueueInv : QueueInv queued
queued-QueueInv =
    enqueue-QueueInv stub empty_queue request_key marker_request (entropy_of 0) start start
      (new-QueueInv stub config test_new) made_fresh

abbrev passed_execution : Execution
passed_execution = record {
  schema_version = "1.0";
  status = Status.passed;
  correlation_id = "";
  scenario_id = "windows-process-marker";
  scenario_version = "0.1.0";
  started_at = start;
  completed_at = start;
  latency_ms = pos 12;
  cleanup_status = Status.passed;
  error_code = "";
}

abbrev evidence : Evidence
evidence = record {
  provider = "sysmon";
  event_id = pos 1;
  record_id = 5;
  time_created_utc = start;
  attempts = pos 1;
  observed_at_utc = start;
}

abbrev found_after : ℕ → CorrelationEvidence
found_after ms = record {
  correlation_id = "";
  provider = "sysmon";
  event_id = pos 1;
  record_id = 5;
  endpoint_event_time = start;
  ingestion_latency_ms = pos ms;
  field_presence =
      ("host.name", true)
      ∷ ("process.name", true)
      ∷ ("process.command_line", true)
      ∷ ("user.name", true)
      ∷ [];
}

abbrev world : World
world = record {
  execute = λ _. passed_execution;
  observe = λ _ _. ok evidence;
  export = λ _ _. ok tt;
  search_exact = λ _ _ _. ok (found_after 900);
  ends = λ _. false;
  search_detection = λ _ _. ok (record {
    status = DetectionStatus.passed;
    detected = true;
    correlation_id = "";
    detection_id = "prooflayer.windows_process_marker";
    mode = DetectionMode.inline;
    rule_reference = "";
    match_count = pos 1;
  });
  endpoint_failed_at = start;
  window_at = start;
  field_started_at = start;
  field_ended_at = start;
  detection_started_at = start;
  detection_ended_at = start;
}

ok_not_panic : {A : Type 0} (a : A) → ¬ (◌≡◌ {A = Outcome SearchError A} (ok a) panic)
ok_not_panic a e = cc

found_same :
    (e : CorrelationEvidence)
    → ◌≡◌ {A = Outcome SearchError CorrelationEvidence} (ok (found_after 900)) (ok e)
    → found_after 900 ≡ e
found_same e h = cc

observed_same :
    (e : Evidence) → ◌≡◌ {A = Outcome ObserverError Evidence} (ok evidence) (ok e) → evidence ≡ e
observed_same e h = cc

world-IsSteady : (job : Job) → IsSteady world job
unfolding poll_exact poll_from valid_policy elapsed_ms
world-IsSteady job = record {
  executed = refl;
  cleaned = λ _. refl;
  observes = λ e. cc;
  observed = λ e h.
      subst (λ (x : Evidence). ltb_ℤ (pos 300_000) (elapsed_ms start x.observed_at_utc) ≡ false)
        (observed_same e h) refl;
  unobserved = refl;
  exports = λ _ e. cc;
  searches = λ _ e. ok_not_panic (found_after 900) e;
  ingested = λ _ e h.
      subst (λ (x : CorrelationEvidence). ltb_ℤ (pos 300_000) x.ingestion_latency_ms ≡ false)
        (found_same e h) refl;
  compared = refl;
  detected = refl;
}

run_once_ends_example :
    (s' : Queue × ℕ) × (result : Result) × (run_once
        (queue_control stub config.environment_id config.host_id (λ _. start))
        world
        (queued, 0)
      ≡ (s', ok result))
    × (r : LifecycleRecord) × (lookup leased_job.job_id s'.0.lifecycle ≡ some r)
    × (r.terminal ≡ true)
    × IsVerdict result r
unfolding leased_job enqueue prepare enqueue_locked enqueue_new create_job admit prune_expired
    validate matches_idempotency uuid_of normalize lookup insert lease take_job lease_record
    new_lifecycle_record new valid_uuid to_lower hex stub empty_queue
run_once_ends_example =
    run_once_ends stub config.environment_id config.host_id (λ _. start) world queued 0 leased_job
      queued-QueueInv refl refl refl (world-IsSteady leased_job)

-- A job under way.
abbrev running_record : LifecycleRecord
running_record = record (new_lifecycle_record leased_job) { status = JobStatus.running }

abbrev running_queue : Queue
running_queue = record (or_empty (err invalid_transition)) {
  lifecycle = (leased_job.job_id, running_record) ∷ [];
}

running-IsHeld :
    IsHeld stub config.environment_id config.host_id leased_job.job_id running_queue running_record
unfolding leased_job enqueue prepare enqueue_locked enqueue_new create_job admit prune_expired
    validate matches_idempotency uuid_of normalize lookup insert lease take_job lease_record
    new_lifecycle_record new valid_uuid to_lower hex stub empty_queue
running-IsHeld = record { found = refl; environment_bound = refl; host_bound = refl }

late_ingestion-stops_example :
    judge_search
      (queue_control stub config.environment_id config.host_id (λ _. start))
      world
      (first_result leased_job)
      leased_job
      passed_execution
      (record { earliest = start; latest = start })
      (ok (found_after 300_001))
      (running_queue, 0)
    ≡ ((running_queue, 1), err (first_result leased_job, invalid_transition))
unfolding new_lifecycle_record
late_ingestion-stops_example =
    late_ingestion-stops stub config.environment_id config.host_id (λ _. start) world running_queue
      0 leased_job running_record (first_result leased_job) passed_execution
      (record { earliest = start; latest = start }) (found_after 300_001) running-IsHeld refl refl
