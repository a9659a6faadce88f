-- ===== src/RunQueue/Methods.antt =====
-- queue.go and lifecycle.go: the exported methods of the queue, and the signature of a job.
use proof_layer.Base.{
  ◌+◌, Bool, true, false, not, ◌&&◌, ◌||◌, String, Option, none, some, ◌==◌, String_eq, Bytes,
  Bytes_eq, Time, Outcome, ok, err, panic, ◌>>=◌, ◌>>◌, or_fail, length, leb, if◌then◌else◌,
  to_lower, [],
}
use proof_layer.Base.Assoc.{lookup, insert}
use proof_layer.RunQueue.Model.{
  QueueError, invalid_idempotency, idempotency_conflict, queue_full, job_not_found, invalid_request,
  encode_failed, random_failed, CreateRequest, UnsignedJob, Job, Receipt, LifecycleRecord,
  StageUpdate, StatusSnapshot,
}
use proof_layer.RunQueue.Transitions.{
  acknowledge_record, update_record, complete_record, lease_record, snapshot,
}
use proof_layer.RunQueue.Platform.{Platform, Entropy}
use proof_layer.RunQueue.Patterns.{matches_idempotency, uuid_of, correlation_id_of}
use proof_layer.RunQueue.Queue.{
  Queue, job_lifetime, maximum_idempotency_records, normalize, validate, prune_expired, admit,
  receipt_of, take_job,
}

module _ (p : Platform) where
  abbrev pub lower : String → String
  lower = to_lower p.wide_lower

  -- The job that `createJob` signs.
  unfoldable pub job_body : Queue → CreateRequest → Bytes → Bytes → Bytes → Time → UnsignedJob
  unfolding uuid_of correlation_id_of
  job_body q request id_bytes correlation_bytes nonce_bytes now = record {
    schema_version = "1.0";
    job_id = uuid_of id_bytes;
    correlation_id = correlation_id_of correlation_bytes;
    environment_id = request.environment_id;
    host_id = request.host_id;
    scenario_id = request.scenario_id;
    scenario_version = request.scenario_version;
    requested_by = q.requested_by;
    requested_at = now;
    expires_at = now + job_lifetime;
    nonce = p.encode_base64 nonce_bytes;
    parameters = [];
  }

  -- The end of `createJob`: the payload and its signature.
  unfoldable pub sign_job : Queue → UnsignedJob → Outcome QueueError Job
  sign_job q body = do
    payload ← or_fail (p.marshal_job body) encode_failed
    ok (record {
      body = body;
      signature = record {
        algorithm = "Ed25519";
        key_id = q.key_id;
        value = p.encode_base64 (p.sign q.private_key payload);
      };
    })

  -- `createJob`
  unfoldable pub create_job : Queue → CreateRequest → Entropy → Time → Outcome QueueError Job
  unfolding job_body sign_job
  create_job q request entropy now = do
    id_bytes ← or_fail entropy.job_id random_failed
    correlation_bytes ← or_fail entropy.correlation random_failed
    nonce_bytes ← or_fail entropy.nonce random_failed
    sign_job q (job_body q request id_bytes correlation_bytes nonce_bytes now)

  -- `Verify`
  unfoldable pub verify : Job → Bytes → Bool
  verify job public_key = elim (p.marshal_job job.body) [
    | none ↦ false
    | some payload ↦ (elim (p.decode_base64 job.signature.value) [
      | none ↦ false
      | some signature ↦
          job.signature.algorithm == "Ed25519" && p.check_signature public_key payload signature
    ])
  ]

  -- `Enqueue` where the key has no record.
  unfoldable pub enqueue_new :
      Queue → String → CreateRequest → Bytes → Entropy → Time → Queue × Outcome QueueError Receipt
  enqueue_new q key request fingerprint entropy now =
      if leb q.capacity (length q.jobs)
      then (q, err queue_full)
      else if leb maximum_idempotency_records (length q.records)
      then (q, err queue_full)
      else (elim (create_job q request entropy now) [
        | ok job ↦ (admit q key fingerprint job (receipt_of job), ok (receipt_of job))
        | err e ↦ (q, err e)
        | panic ↦ (q, panic)
      ])

  -- `Enqueue` under the mutex, after the pruning.
  unfoldable pub enqueue_locked :
      Queue → String → CreateRequest → Bytes → Entropy → Time → Queue × Outcome QueueError Receipt
  enqueue_locked q key request fingerprint entropy now = elim (lookup key q.records) [
    | none ↦ enqueue_new q key request fingerprint entropy now
    | some r ↦
        if r.fingerprint == fingerprint
        then (q, ok (record r.receipt { replayed = true }))
        else (q, err idempotency_conflict)
  ]

  -- What `Enqueue` computes before it takes the mutex: the normalized request and its fingerprint.
  unfoldable pub prepare :
      Queue → String → CreateRequest → Outcome QueueError (CreateRequest × Bytes)
  prepare q key request = if not (matches_idempotency key) then err invalid_idempotency else do
    validate q (normalize p request)
    encoded ← or_fail (p.marshal_request (normalize p request)) encode_failed
    ok (normalize p request, p.sha256 encoded)

  -- `Enqueue`
  unfoldable pub enqueue :
      Queue → String → CreateRequest → Entropy → Time → Time → Queue × Outcome QueueError Receipt
  enqueue q key request entropy pruned_at created_at = elim (prepare q key request) [
    | ok (normal, fingerprint) ↦
        enqueue_locked (prune_expired pruned_at q) key normal fingerprint entropy created_at
    | err e ↦ (q, err e)
    | panic ↦ (q, panic)
  ]

  -- `Lease`. The job's lifecycle record is a nil pointer where the map has none.
  unfoldable pub lease :
      Queue → String → String → Time → Time → Queue × Outcome QueueError (Option Job)
  lease q environment host pruned_at leased_at =
      let q₁ = prune_expired pruned_at q in
      elim (take_job (lower environment) (lower host) q₁.jobs) [
        | none ↦ (q₁, ok none)
        | some (job, rest) ↦ (elim (lookup job.job_id q₁.lifecycle) [
          | none ↦ (record q₁ { jobs = rest }, panic)
          | some r ↦ (
            record q₁ {
              jobs = rest;
              lifecycle = insert job.job_id (lease_record leased_at r) q₁.lifecycle;
            },
            ok (some job),
          )
        ])
      ]

  -- `authorizedRecordLocked`
  unfoldable pub authorized_record :
      Queue → String → String → String → Outcome QueueError LifecycleRecord
  authorized_record q environment host job_id = do
    r ← or_fail (lookup (lower job_id) q.lifecycle) job_not_found
    if not (r.job.environment_id == lower environment) || not (r.job.host_id == lower host)
        then err (invalid_request "identity_binding")
        else ok r

  -- A method that fetches a record and writes through the pointer that it got.
  unfoldable pub change_record :
      Queue → String → Outcome QueueError LifecycleRecord → Queue × Outcome QueueError (Unit {0})
  change_record q job_id (ok r) =
      (record q { lifecycle = insert (lower job_id) r q.lifecycle }, ok tt)
  change_record q job_id (err e) = (q, err e)
  change_record q job_id panic = (q, panic)

  -- `Acknowledge`
  unfoldable pub acknowledge :
      Queue → String → String → String → Bool → Time → Time → Queue × Outcome QueueError (Unit {0})
  unfolding change_record
  acknowledge q environment host job_id accepted pruned_at now =
      let q₁ = prune_expired pruned_at q in
      change_record q₁ job_id
        (authorized_record q₁ environment host job_id >>= λ r. acknowledge_record r accepted now)

  -- `UpdateStage`
  unfoldable pub update_stage :
      Queue → String → String → String → StageUpdate → Time → Queue × Outcome QueueError (Unit {0})
  unfolding change_record
  update_stage q environment host job_id update now =
      change_record q job_id
        (authorized_record q environment host job_id >>= λ r. update_record r update now)

  -- `Complete`
  unfoldable pub complete :
      Queue → String → String → String → Time → Queue × Outcome QueueError (Unit {0})
  unfolding change_record
  complete q environment host job_id now =
      change_record q job_id
        (authorized_record q environment host job_id >>= λ r. complete_record r now)

  -- `Status`
  unfoldable pub status : Queue → String → Time → Queue × Option StatusSnapshot
  status q job_id pruned_at =
      let q₁ = prune_expired pruned_at q in
      (q₁, elim (lookup (lower job_id) q₁.lifecycle) [ none ↦ none | some r ↦ some (snapshot r) ])
