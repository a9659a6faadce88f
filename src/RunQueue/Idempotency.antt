-- ===== src/RunQueue/Idempotency.antt =====
-- queue.go, `Enqueue`: what a second request with the same key gets.
use proof_layer.Base.{
  ◌+◌, ◌≡◌, sym, ap, ◌∙◌, ◌≢◌, inl, inr, true, String, none, some, String_eq, Bytes, Bytes_eq, Time,
  arith, before, ok, err, bytes_eq_iff, beq_self, Bool-cases, if◌then◌else◌, ◌==◌,
}
use proof_layer.Base.Assoc.{lookup, lookup-insert_self, lookup-keep_values}
use proof_layer.RunQueue.Model.{
  idempotency_conflict, CreateRequest, Job, Receipt, IdempotencyRecord,
}
use proof_layer.RunQueue.Platform.{Platform, Entropy}
use proof_layer.RunQueue.Queue.{
  Queue, idempotency_retention, validate, prune_expired, admit, receipt_of,
}
use proof_layer.RunQueue.Methods.{create_job, enqueue_new, enqueue_locked, prepare, enqueue}

-- The receipt that a repeated request gets.
abbrev pub replay : Receipt → Receipt
replay receipt = record receipt { replayed = true }

-- What `Enqueue` has done when it has made a job.
pub record Made (p : Platform) (q : Queue) (key : String) (request : CreateRequest)
    (fingerprint : Bytes) (q' : Queue) (receipt : Receipt) (now : Time) : Type 0 where
  pub normal : CreateRequest
  pub job : Job
  pub prepared : prepare p q key request ≡ ok (normal, fingerprint)
  pub requested : job.requested_at ≡ now
  pub result : receipt ≡ receipt_of job
  pub environment : q'.environment ≡ q.environment
  pub host : q'.host ≡ q.host
  pub kept :
      lookup key q'.records
      ≡ some (record {
        fingerprint = fingerprint;
        receipt = receipt;
        expires_at = now + idempotency_retention;
      })

module _ (p : Platform) where
  enqueue_new_ok :
      (q : Queue) (key : String) (normal : CreateRequest) (fingerprint : Bytes) (entropy : Entropy)
      (now : Time) (q' : Queue) (receipt : Receipt)
      → enqueue_new p q key normal fingerprint entropy now ≡ (q', ok receipt)
      → (job : Job) × (create_job p q normal entropy now ≡ ok job)
        × (q' ≡ admit q key fingerprint job receipt)
        × (receipt ≡ receipt_of job)
  unfolding enqueue_new
  enqueue_new_ok q key normal fingerprint entropy now q' receipt h = ground arith

  -- The job's time is the clock's reading.
  requested_now :
      (q : Queue) (normal : CreateRequest) (entropy : Entropy) (now : Time) (job : Job)
      → create_job p q normal entropy now ≡ ok job
      → job.requested_at ≡ now
  unfolding create_job
  requested_now q normal entropy now job h = ground arith

  admitted :
      (q : Queue) (key : String) (request normal : CreateRequest) (fingerprint : Bytes) (job : Job)
      (pruned_at now : Time) (q' : Queue) (receipt : Receipt)
      → prepare p q key request ≡ ok (normal, fingerprint)
      → job.requested_at ≡ now
      → q' ≡ admit (prune_expired pruned_at q) key fingerprint job receipt
      → receipt ≡ receipt_of job
      → Made p q key request fingerprint q' receipt now
  unfolding admit prune_expired
  admitted q key request normal fingerprint job pruned_at now q' receipt ready at e r = record {
    normal = normal;
    job = job;
    prepared = ready;
    requested = at;
    result = r;
    environment = ap (λ x. x.environment) e;
    host = ap (λ x. x.host) e;
    kept =
        ap (λ x. lookup key x.records) e
        ∙ lookup-insert_self key _ _
        ∙ ap
            (λ t. some (record {
              fingerprint = fingerprint;
              receipt = receipt;
              expires_at = t + idempotency_retention;
            }))
            at;
  }

  -- A request with a new key is passed on to `enqueue_new`.
  enqueue_unknown :
      (q : Queue) (key : String) (request normal : CreateRequest) (fingerprint : Bytes)
      (entropy : Entropy) (pruned_at now : Time)
      → prepare p q key request ≡ ok (normal, fingerprint)
      → lookup key (prune_expired pruned_at q).records ≡ none
      → enqueue p q key request entropy pruned_at now
        ≡ enqueue_new p (prune_expired pruned_at q) key normal fingerprint entropy now
  unfolding enqueue enqueue_locked
  enqueue_unknown q key request normal fingerprint entropy pruned_at now ready new =
      rw (ready, new, enqueue, enqueue_locked)

  -- A request with a known key is answered from the record.
  enqueue_known :
      (q : Queue) (key : String) (request normal : CreateRequest) (fingerprint : Bytes)
      (entropy : Entropy) (pruned_at now : Time) (r : IdempotencyRecord)
      → prepare p q key request ≡ ok (normal, fingerprint)
      → lookup key (prune_expired pruned_at q).records ≡ some r
      → enqueue p q key request entropy pruned_at now ≡ (
        prune_expired pruned_at q,
        if r.fingerprint == fingerprint then ok (replay r.receipt) else err idempotency_conflict,
      )
  unfolding enqueue enqueue_locked
  enqueue_known q key request normal fingerprint entropy pruned_at now r ready known =
      rw (ready, known, enqueue, enqueue_locked)
        (elim (Bool-cases (r.fingerprint == fingerprint)) [
          | inl same ↦ rw same
          | inr other ↦ rw other
        ])

  enqueue-Made :
      (q : Queue) (key : String) (request normal : CreateRequest) (fingerprint : Bytes)
      (entropy : Entropy) (pruned_at now : Time) (q' : Queue) (receipt : Receipt)
      → prepare p q key request ≡ ok (normal, fingerprint)
      → lookup key (prune_expired pruned_at q).records ≡ none
      → enqueue p q key request entropy pruned_at now ≡ (q', ok receipt)
      → Made p q key request fingerprint q' receipt now
  enqueue-Made q key request normal fingerprint entropy pruned_at now q' receipt ready new h =
      let made =
        sym (enqueue_unknown q key request normal fingerprint entropy pruned_at now ready new)
        ∙ h in
      let (job, created, e, r) =
        enqueue_new_ok _ key normal fingerprint entropy now q' receipt made in
      admitted q key request normal fingerprint job pruned_at now q' receipt ready
        (requested_now _ normal entropy now job created) e r

  prepare_same :
      (q q' : Queue) (key : String) (request : CreateRequest)
      → q'.environment ≡ q.environment
      → q'.host ≡ q.host
      → prepare p q' key request ≡ prepare p q key request
  unfolding prepare validate
  prepare_same q q' key request e h = rw (e, h)

  -- A pruning keeps a record until its retention is over.
  kept_record :
      (q : Queue) (key : String) (r : IdempotencyRecord) (later : Time)
      → lookup key q.records ≡ some r
      → before later r.expires_at ≡ true
      → lookup key (prune_expired later q).records ≡ some r
  unfolding prune_expired
  kept_record q key r later found live = lookup-keep_values key _ r q.records found live

  -- A request that made a job, sent again with its key within 24 hours of the job, makes no other
  -- job: the queue is only pruned, and the answer is the first receipt, marked as a replay.
  pub enqueue-replay :
      (q : Queue) (key : String) (request normal : CreateRequest) (fingerprint : Bytes)
      (entropy again : Entropy) (pruned_at now later later_now : Time) (q' : Queue)
      (receipt : Receipt)
      → prepare p q key request ≡ ok (normal, fingerprint)
      → lookup key (prune_expired pruned_at q).records ≡ none
      → enqueue p q key request entropy pruned_at now ≡ (q', ok receipt)
      → before later (now + idempotency_retention) ≡ true
      → enqueue p q' key request again later later_now
        ≡ (prune_expired later q', ok (replay receipt))
  enqueue-replay q key request normal fingerprint entropy again pruned_at now later later_now q'
        receipt ready new h live =
      let m =
        enqueue-Made q key request normal fingerprint entropy pruned_at now q' receipt ready new
          h in
      enqueue_known q' key request normal fingerprint again later later_now _
        (prepare_same q q' key request m.environment m.host ∙ ready)
        (kept_record q' key _ later m.kept live)
      ∙ rw (beq_self fingerprint)

  -- Another request with that key, one with another fingerprint, is refused within the 24 hours.
  pub enqueue-conflict :
      (q : Queue) (key : String) (request other normal normal' : CreateRequest)
      (fingerprint fingerprint' : Bytes) (entropy again : Entropy)
      (pruned_at now later later_now : Time) (q' : Queue) (receipt : Receipt)
      → prepare p q key request ≡ ok (normal, fingerprint)
      → lookup key (prune_expired pruned_at q).records ≡ none
      → enqueue p q key request entropy pruned_at now ≡ (q', ok receipt)
      → prepare p q key other ≡ ok (normal', fingerprint')
      → fingerprint ≢ fingerprint'
      → before later (now + idempotency_retention) ≡ true
      → enqueue p q' key other again later later_now
        ≡ (prune_expired later q', err idempotency_conflict)
  enqueue-conflict q key request other normal normal' fingerprint fingerprint' entropy again
        pruned_at now later later_now q' receipt ready new h ready' differ live =
      let m =
        enqueue-Made q key request normal fingerprint entropy pruned_at now q' receipt ready new
          h in
      enqueue_known q' key other normal' fingerprint' again later later_now _
        (prepare_same q q' key other m.environment m.host ∙ ready')
        (kept_record q' key _ later m.kept live)
      ∙ elim (Bool-cases (fingerprint == fingerprint')) [
        | inl same ↦ absurd (differ ((bytes_eq_iff fingerprint fingerprint').0 same))
        | inr apart ↦ rw apart
      ]
