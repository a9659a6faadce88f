-- ===== src/RunQueue/Queue.antt =====
-- control-plane/internal/runqueue/queue.go: the queue's state and its methods. A method runs under
-- the queue's mutex, so it is a function from the state before to the state after. The clock's
-- readings and the random bytes are arguments, in the order in which the method takes them.
use proof_layer.Base.{
  ℕ, ◌+◌, ◌*◌, false, not, ◌&&◌, ◌||◌, String, Option, none, some, List, [], ◌∷◌, ◌++◌, ◌==◌,
  String_eq, Bytes, Bytes_eq, Time, Duration, minute, hour, before, Outcome, ok, ◌>>=◌, ◌>>◌, guard,
  or_fail, length, ltb, nat_eq, if◌then◌else◌, to_lower, keep, byte_len,
}
use proof_layer.Base.Assoc.{Assoc, lookup, insert, delete, map_values, keep_values}
use proof_layer.Base.Int.{ℤ, pos, ltb_ℤ, pos_part}
use proof_layer.RunQueue.Model.{
  QueueError, invalid_request, invalid_config, CreateRequest, Job, Receipt, IdempotencyRecord,
  LifecycleRecord,
}
use proof_layer.RunQueue.Lifecycle.{new_lifecycle_record}
use proof_layer.RunQueue.Transitions.{expire_record, expired_record}
use proof_layer.RunQueue.Platform.{Platform}
use proof_layer.RunQueue.Patterns.{valid_uuid}

abbrev pub job_lifetime : Duration
job_lifetime = 2 * minute

abbrev pub idempotency_retention : Duration
idempotency_retention = 24 * hour

abbrev pub maximum_idempotency_records : ℕ
maximum_idempotency_records = 1024

unfoldable pub approved_scenarios : Assoc String String
approved_scenarios =
    ("windows-process-marker", "0.1.0")
    ∷ ("windows-registry-run-key-canary", "0.1.0")
    ∷ ("windows-scheduled-task-canary", "0.1.0")
    ∷ []

pub record Config : Type 0 where
  pub capacity : ℤ
  pub environment_id : String
  pub host_id : String
  pub requested_by : String
  pub signing_key_id : String
  pub signing_private_key : Bytes

pub record Queue : Type 0 where
  pub capacity : ℕ
  pub environment : String
  pub host : String
  pub requested_by : String
  pub key_id : String
  pub private_key : Bytes
  pub jobs : List Job
  pub records : Assoc String IdempotencyRecord
  pub lifecycle : Assoc String LifecycleRecord
  pub history_order : List String
  pub history_by_host : Assoc String (List String)
  pub history_by_scenario : Assoc String (List String)

module _ (p : Platform) where
  abbrev lower : String → String
  lower = to_lower p.wide_lower

  -- `New`
  unfoldable pub new : Config → Outcome QueueError Queue
  new c = do
    guard (not (ltb_ℤ c.capacity (pos 1) || ltb_ℤ (pos 128) c.capacity))
        (invalid_config "queue capacity must be between 1 and 128")
    guard
        (valid_uuid p.wide_lower c.environment_id
          && valid_uuid p.wide_lower c.host_id
          && valid_uuid p.wide_lower c.requested_by)
        (invalid_config "queue identity binding is invalid")
    guard (not (c.signing_key_id == "" || ltb 80 (byte_len c.signing_key_id)))
        (invalid_config "signing key ID is invalid")
    guard (nat_eq (length c.signing_private_key) 64)
        (invalid_config "Ed25519 private key is invalid")
    ok (record {
      capacity = pos_part c.capacity;
      environment = lower c.environment_id;
      host = lower c.host_id;
      requested_by = lower c.requested_by;
      key_id = c.signing_key_id;
      private_key = c.signing_private_key;
      jobs = [];
      records = [];
      lifecycle = [];
      history_order = [];
      history_by_host = [];
      history_by_scenario = [];
    })

  -- `normalize`
  unfoldable pub normalize : CreateRequest → CreateRequest
  normalize request = record request {
    environment_id = lower request.environment_id;
    host_id = lower request.host_id;
  }

-- `queue.validate`
unfoldable pub validate : Queue → CreateRequest → Outcome QueueError (Unit {0})
unfolding lookup approved_scenarios
validate q request = do
  guard (request.schema_version == "1.0") (invalid_request "schema_version")
  guard (request.environment_id == q.environment && request.host_id == q.host)
      (invalid_request "identity_binding")
  version ←
      or_fail (lookup request.scenario_id approved_scenarios) (invalid_request "scenario_allowlist")
  guard (request.scenario_version == version) (invalid_request "scenario_allowlist")

-- The first loop of `pruneExpiredLocked`: the jobs that stay.
unfoldable pub active_jobs : Time → List Job → List Job
active_jobs now = keep (λ job. before now job.expires_at)

-- The same loop: what it does to the lifecycle records of the jobs that go.
unfoldable pub expire_job : Time → Job → Assoc String LifecycleRecord → Assoc String LifecycleRecord
expire_job now job life =
    if before now job.expires_at then life else (elim (lookup job.job_id life) [
      | none ↦ life
      | some r ↦ if r.terminal then life else insert job.job_id (expired_record now r) life
    ])

unfoldable pub expire_jobs :
    Time → List Job → Assoc String LifecycleRecord → Assoc String LifecycleRecord
unfolding expire_job
expire_jobs now [] life = life
expire_jobs now (job ∷ jobs) life = expire_jobs now jobs (expire_job now job life)

-- The last loop: an idempotency record past its retention takes its lifecycle record with it.
unfoldable pub forget :
    Time
    → Assoc String IdempotencyRecord
    → Assoc String LifecycleRecord
    → Assoc String LifecycleRecord
forget now [] life = life
forget now ((key, r) ∷ records) life =
    forget now records (if before now r.expires_at then life else delete r.receipt.job_id life)

-- `pruneExpiredLocked`
unfoldable pub prune_expired : Time → Queue → Queue
unfolding active_jobs expire_jobs forget map_values keep_values expire_record
prune_expired now q = record q {
  jobs = active_jobs now q.jobs;
  lifecycle =
      forget now q.records (map_values (expire_record now) (expire_jobs now q.jobs q.lifecycle));
  records = keep_values (λ r. before now r.expires_at) q.records;
}

-- `m[k] = append(m[k], v)`
unfoldable pub append_to : String → String → Assoc String (List String) → Assoc String (List String)
append_to k v m = insert k ((elim (lookup k m) [ none ↦ [] | some vs ↦ vs ]) ++ (v ∷ [])) m

-- The writes of `Enqueue` for a new job.
unfoldable pub admit : Queue → String → Bytes → Job → Receipt → Queue
unfolding append_to new_lifecycle_record
admit q key fingerprint job receipt = record q {
  jobs = q.jobs ++ (job ∷ []);
  lifecycle = insert job.job_id (new_lifecycle_record job) q.lifecycle;
  history_order = q.history_order ++ (job.job_id ∷ []);
  history_by_host = append_to job.host_id job.job_id q.history_by_host;
  history_by_scenario = append_to job.scenario_id job.job_id q.history_by_scenario;
  records =
      insert key
        (record {
          fingerprint = fingerprint;
          receipt = receipt;
          expires_at = job.requested_at + idempotency_retention;
        })
        q.records;
}

abbrev pub receipt_of : Job → Receipt
receipt_of job = record {
  schema_version = "1.0";
  job_id = job.job_id;
  correlation_id = job.correlation_id;
  status = "queued";
  replayed = false;
}

-- The job that `Lease` hands out, and the jobs that stay.
unfoldable pub take_job : String → String → List Job → Option (Job × List Job)
take_job environment host [] = none
take_job environment host (job ∷ rest) =
    let later = take_job environment host rest in
    if not (job.environment_id == environment) || not (job.host_id == host)
    then (elim later [ none ↦ none | some (found, others) ↦ some (found, job ∷ others) ])
    else some (job, rest)
