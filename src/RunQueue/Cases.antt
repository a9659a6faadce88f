-- ===== src/RunQueue/Cases.antt =====
-- Single calls on concrete input: the theorems at inputs that meet their hypotheses.
use proof_layer.Base.{
  ℕ, ◌+◌, ◌-◌, ◌*◌, ◌≤◌, ◌≡◌, refl, ◌≢◌, ap, ◌⊎◌, inr, true, false, String, none, some, [], ◌∷◌,
  arith, String_eq, Bytes_eq, Outcome, ok, err, panic, codes, to_lower, hex, length, ◌==◌, take,
  drop, set, All,
}
use proof_layer.Base.Assoc.{lookup, insert}
use proof_layer.Base.Int.{pos}
use proof_layer.RunQueue.Model.{
  QueueError, invalid_request, idempotency_conflict, CreateRequest, Job, JobStatus, StageStatus,
  StageUpdate, LifecycleRecord, Receipt,
}
use proof_layer.RunQueue.Lifecycle.{
  pending_stage, stage_index, valid_detail, new_lifecycle_record, mark_pending_not_tested,
}
use proof_layer.RunQueue.Transitions.{
  rejected_record, written_stage, acknowledge_record, write_stage, valid_update, valid_order,
  update_at, update_record, complete_record, expire_record, lease_record,
}
use proof_layer.RunQueue.Platform.{Signs}
use proof_layer.RunQueue.Patterns.{valid_uuid, matches_idempotency, uuid_of}
use proof_layer.RunQueue.Queue.{Queue, new, normalize, validate, prune_expired, admit, take_job}
use proof_layer.RunQueue.Methods.{
  create_job, verify, enqueue_new, enqueue_locked, prepare, enqueue, lease, acknowledge,
  update_stage, complete, lower,
}
use proof_layer.RunQueue.Invariant.{Inv}
use proof_layer.RunQueue.EnqueueInvariant.{IsFreshEntropy}
use proof_layer.RunQueue.QueueInvariant.{QueueInv}
use proof_layer.RunQueue.Verdicts.{final_absorbs}
use proof_layer.RunQueue.Stubs.{
  stub, config, entropy_of, start, empty_queue, test_new, marker_request, request_key, job_id_0,
  blank_job,
}
use proof_layer.RunQueue.Preservation.{new-QueueInv}
use proof_layer.RunQueue.EnqueueInvariant.{IsFreshEntropy, enqueue-QueueInv}
use proof_layer.RunQueue.Leases.{Handed, lease-Handed}
use proof_layer.RunQueue.TakeJob.{IsFor}
use proof_layer.RunQueue.Update.{update-Inv}
use proof_layer.RunQueue.Idempotency.{replay, enqueue-replay, enqueue-conflict}
use proof_layer.RunQueue.Safety.{methods_do_not_panic, foreign_runner}
use proof_layer.RunQueue.Signing.{verify-create_job}
use proof_layer.RunQueue.History.{
  HistoryQuery, HistoryItem, HistoryPage, total_pages, history, normal_query, valid_query,
  history_item,
}
use proof_layer.RunQueue.Pages.{
  pages_upto, pages-cover, history-page, history-panic, page_number, page_limit, found_items,
}

abbrev queued_queue : Queue
queued_queue = (enqueue stub empty_queue request_key marker_request (entropy_of 0) start start).0

queued_job : Job
queued_job =
    or_job (create_job stub empty_queue (normalize stub marker_request) (entropy_of 0) start)
  where
    or_job : Outcome QueueError Job → Job
    or_job (ok job) = job
    or_job _ = blank_job

test_created :
    create_job stub empty_queue (normalize stub marker_request) (entropy_of 0) start ≡ ok queued_job
unfolding create_job normalize stub queued_job empty_queue new to_lower hex valid_uuid
test_created = refl

made_fresh : IsFreshEntropy (entropy_of 0) (prune_expired start empty_queue)
unfolding prune_expired new valid_uuid to_lower hex stub empty_queue
made_fresh bytes drawn = record { unqueued = tt; unreceipted = tt }

queued-QueueInv : QueueInv queued_queue
queued-QueueInv =
    enqueue-QueueInv stub empty_queue request_key marker_request (entropy_of 0) start start
      (new-QueueInv stub config test_new) made_fresh

lease-Handed_example :
    ((lease stub queued_queue config.environment_id config.host_id start start
        ≡ (prune_expired start queued_queue, ok none))
      × All
          (λ (job : Job).
            ¬ IsFor (lower stub config.environment_id) (lower stub config.host_id) job)
          (prune_expired start queued_queue).jobs)
    ⊎ ((job : Job) × ((lease stub queued_queue config.environment_id config.host_id start start).1
          ≡ ok (some job))
        × Handed stub queued_queue config.environment_id config.host_id start
            (lease stub queued_queue config.environment_id config.host_id start start).0
            job)
lease-Handed_example =
    lease-Handed stub queued_queue config.environment_id config.host_id start start queued-QueueInv

test_lease :
    (lease stub queued_queue config.environment_id config.host_id start start).1
    ≡ ok (some queued_job)
unfolding queued_job enqueue prepare enqueue_locked enqueue_new create_job admit prune_expired
    validate matches_idempotency uuid_of normalize lookup insert lease take_job lease_record
    new_lifecycle_record new valid_uuid to_lower hex stub empty_queue
test_lease = refl

abbrev receipt : Receipt
receipt = record {
  schema_version = "1.0";
  job_id = job_id_0;
  correlation_id = "PL-000102030405060708090A0B0C0D0E0F";
  status = "queued";
  replayed = false;
}

abbrev other_request : CreateRequest
other_request = record marker_request { scenario_id = "windows-registry-run-key-canary" }

enqueue-replay_example :
    enqueue stub queued_queue request_key marker_request (entropy_of 1) (start + 7) (start + 8)
    ≡ (prune_expired (start + 7) queued_queue, ok (replay receipt))
unfolding enqueue prepare enqueue_locked enqueue_new create_job admit prune_expired validate
    matches_idempotency uuid_of normalize lookup insert new valid_uuid to_lower hex stub empty_queue
enqueue-replay_example =
    enqueue-replay stub empty_queue request_key marker_request (normalize stub marker_request)
      (codes "windows-process-marker") (entropy_of 0) (entropy_of 1) start start (start + 7)
      (start + 8) queued_queue receipt refl refl refl refl

enqueue-conflict_example :
    enqueue stub queued_queue request_key other_request (entropy_of 1) (start + 7) (start + 8)
    ≡ (prune_expired (start + 7) queued_queue, err idempotency_conflict)
unfolding enqueue prepare enqueue_locked enqueue_new create_job admit prune_expired validate
    matches_idempotency uuid_of normalize lookup insert new valid_uuid to_lower hex stub empty_queue
enqueue-conflict_example =
    enqueue-conflict stub empty_queue request_key marker_request other_request
      (normalize stub marker_request) (normalize stub other_request)
      (codes "windows-process-marker") (codes "windows-registry-run-key-canary") (entropy_of 0)
      (entropy_of 1) start start (start + 7) (start + 8) queued_queue receipt refl refl refl refl
      (λ same. absurd (ground (arith, same))) refl

abbrev running_record : LifecycleRecord
running_record = record (new_lifecycle_record queued_job) { status = JobStatus.acknowledged }

abbrev passed_execution : StageUpdate
passed_execution = record {
  stage = "execution";
  status = StageStatus.passed;
  latency_ms = pos 5;
  detail_code = "";
}

running-Inv : Inv running_record
unfolding new_lifecycle_record
running-Inv = record { order = refl; final = refl; stages_of = ground arith }

abbrev updated_record : LifecycleRecord
updated_record = record running_record {
  status = JobStatus.running;
  updated_at = start;
  stages = set running_record.stages 0 (written_stage (pending_stage "execution") passed_execution);
}

update-Inv_example : Inv updated_record
unfolding update_record update_at valid_update valid_order write_stage stage_index valid_detail
    new_lifecycle_record
update-Inv_example =
    update-Inv running_record passed_execution start updated_record running-Inv refl

methods_do_not_panic_example :
    (update_record running_record passed_execution start ≢ panic)
    × (complete_record running_record start ≢ panic)
methods_do_not_panic_example =
    methods_do_not_panic running_record passed_execution start running-Inv

abbrev rejected : LifecycleRecord
rejected = rejected_record start running_record

rejected-Inv : Inv rejected
unfolding new_lifecycle_record mark_pending_not_tested
rejected-Inv = record { order = refl; final = refl; stages_of = ground arith }

final_absorbs_example :
    (acknowledge_record rejected true start ≡ ok rejected → rejected ≡ rejected)
    × (update_record rejected passed_execution start ≡ ok rejected → rejected ≡ rejected)
    × (complete_record rejected start ≡ ok rejected → rejected ≡ rejected)
    × (expire_record start rejected ≡ rejected)
final_absorbs_example =
    final_absorbs rejected rejected true passed_execution start rejected-Inv refl

abbrev foreign_host : String
foreign_host = "ffffffff-bbbb-4ccc-8ddd-eeeeeeeeeeee"

hosts_apart : queued_job.host_id ≢ lower stub foreign_host
unfolding queued_job create_job normalize stub empty_queue new to_lower hex valid_uuid
hosts_apart same =
    let wrong : false ≡ true = ap (λ host. host == foreign_host) same in
    absurd (ground (arith, wrong))

foreign_runner_example :
    (update_stage stub queued_queue config.environment_id foreign_host job_id_0 passed_execution
        start
      ≡ (queued_queue, err (invalid_request "identity_binding")))
    × (complete stub queued_queue config.environment_id foreign_host job_id_0 start
        ≡ (queued_queue, err (invalid_request "identity_binding")))
    × (acknowledge stub queued_queue config.environment_id foreign_host job_id_0 true start start
        ≡ (prune_expired start queued_queue, err (invalid_request "identity_binding")))
unfolding queued_job enqueue prepare enqueue_locked enqueue_new create_job admit prune_expired
    validate matches_idempotency uuid_of normalize lookup insert new valid_uuid to_lower hex stub
    empty_queue new_lifecycle_record
foreign_runner_example =
    foreign_runner stub queued_queue config.environment_id foreign_host job_id_0
      (new_lifecycle_record queued_job) (new_lifecycle_record queued_job) true passed_execution
      start start refl refl refl (inr hosts_apart)

stub-Signs : Signs stub empty_queue.private_key []
unfolding stub hex
stub-Signs = record { check-sign = λ payload. refl; decode-encode = λ payload. refl }

verify-create_job_example : verify stub queued_job [] ≡ true
verify-create_job_example =
    verify-create_job stub empty_queue (normalize stub marker_request) (entropy_of 0) start
      queued_job [] stub-Signs test_created

abbrev item : HistoryItem
item = history_item running_record

pages-cover_example :
    pages_upto (total_pages (length (item ∷ item ∷ item ∷ [])) 2) 2 (item ∷ item ∷ item ∷ [])
    ≡ some (item ∷ item ∷ item ∷ [])
pages-cover_example = pages-cover 2 (item ∷ item ∷ item ∷ []) (omega arith) (omega arith)

abbrev query_page : ℕ → ℕ → HistoryQuery
query_page n size = record {
  host_id = "";
  scenario_id = "";
  from = none;
  to = none;
  page = pos n;
  page_size = pos size;
}

history-page_example :
    (result : HistoryPage) × (history stub queued_queue (query_page 1 10) start
      ≡ (prune_expired start queued_queue, ok result))
    × (result.items
        ≡ take (page_limit stub (query_page 1 10)) (
            drop
              ((page_number stub (query_page 1 10) - 1) * page_limit stub (query_page 1 10))
              (found_items stub queued_queue (query_page 1 10) start)))
    × (length result.items ≤ page_limit stub (query_page 1 10))
    × (result.total_items ≡ length (found_items stub queued_queue (query_page 1 10) start))
    × (result.total_pages
        ≡ total_pages
            (length (found_items stub queued_queue (query_page 1 10) start))
            (page_limit stub (query_page 1 10)))
unfolding normal_query valid_query
history-page_example = history-page stub queued_queue (query_page 1 10) start refl (ground arith)

history-panic_example :
    (history stub queued_queue (query_page 9_223_372_036_854_775_807 50) start).1 ≡ panic
unfolding normal_query valid_query
history-panic_example =
    history-panic stub queued_queue (query_page 9_223_372_036_854_775_807 50) start refl
      (ground arith)
