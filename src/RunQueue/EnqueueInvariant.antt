-- ===== src/RunQueue/EnqueueInvariant.antt =====
-- queue.go, `Enqueue`: which queues it leaves, and that it keeps the invariant of the queue.
use proof_layer.Base.{
  ◌≡◌, sym, ap, subst, ◌∙◌, ◌⊎◌, inl, inr, String, none, some, arith, String_eq, Time, Bytes,
  length, ok, ◌<◌, ◌+◌, Option-cases, Outcome-cases, bytes_eq_iff,
}
use proof_layer.Base.Assoc.{lookup}
use proof_layer.RunQueue.Model.{CreateRequest, Job}
use proof_layer.RunQueue.Platform.{Platform, Entropy}
use proof_layer.RunQueue.Patterns.{uuid_of}
use proof_layer.RunQueue.Queue.{
  Queue, job_lifetime, maximum_idempotency_records, prune_expired, admit, receipt_of, new,
}
use proof_layer.RunQueue.Methods.{create_job, enqueue_new, enqueue_locked, prepare, enqueue}
use proof_layer.RunQueue.QueueInvariant.{QueueInv, prune-QueueInv}
use proof_layer.RunQueue.Preservation.{IsFresh, admit-QueueInv}

-- The identifier that the random bytes make, if they can be read, is new to the queue.
abbrev pub IsFreshEntropy : Entropy → Queue → Type 0
IsFreshEntropy entropy q = (bytes : Bytes) → entropy.job_id ≡ some bytes → IsFresh (uuid_of bytes) q

module _ (p : Platform) where
  -- What `createJob` fills in.
  pub create_job_ok :
      (q : Queue) (request : CreateRequest) (entropy : Entropy) (now : Time) (job : Job)
      → create_job p q request entropy now ≡ ok job
      → (bytes : Bytes) × (entropy.job_id ≡ some bytes)
        × (job.job_id ≡ uuid_of bytes)
        × (job.requested_at ≡ now)
        × (job.expires_at ≡ now + job_lifetime)
        × (job.environment_id ≡ request.environment_id)
        × (job.host_id ≡ request.host_id)
        × (job.scenario_id ≡ request.scenario_id)
        × (job.scenario_version ≡ request.scenario_version)
  unfolding create_job
  create_job_ok q request entropy now job h = ground arith

  pub enqueue_new_cases :
      (q : Queue) (key : String) (request : CreateRequest) (fingerprint : Bytes) (entropy : Entropy)
      (now : Time)
      → ((enqueue_new p q key request fingerprint entropy now).0 ≡ q)
        ⊎ ((job : Job) × (create_job p q request entropy now ≡ ok job)
            × (length q.jobs < q.capacity)
            × (length q.records < maximum_idempotency_records)
            × ((enqueue_new p q key request fingerprint entropy now).0
                ≡ admit q key fingerprint job (receipt_of job)))
  unfolding enqueue_new
  enqueue_new_cases q key request fingerprint entropy now = ground arith

  pub enqueue_locked_cases :
      (q : Queue) (key : String) (request : CreateRequest) (fingerprint : Bytes) (entropy : Entropy)
      (now : Time)
      → ((enqueue_locked p q key request fingerprint entropy now).0 ≡ q)
        ⊎ ((lookup key q.records ≡ none)
            × (enqueue_locked p q key request fingerprint entropy now
                ≡ enqueue_new p q key request fingerprint entropy now))
  unfolding enqueue_locked
  enqueue_locked_cases q key request fingerprint entropy now =
      elim (Option-cases (lookup key q.records)) [
        | inl fresh ↦ inr (fresh, rw (fresh, enqueue_locked))
        | inr (r, known) ↦ inl (ground (arith, known, bytes_eq_iff r.fingerprint fingerprint))
      ]

  pub enqueue_cases :
      (q : Queue) (key : String) (request : CreateRequest) (entropy : Entropy)
      (pruned_at now : Time)
      → ((enqueue p q key request entropy pruned_at now).0 ≡ q)
        ⊎ ((normal : CreateRequest) × (fingerprint : Bytes) × (enqueue p q key request entropy
                pruned_at now
              ≡ enqueue_locked p (prune_expired pruned_at q) key normal fingerprint entropy now))
  unfolding enqueue
  enqueue_cases q key request entropy pruned_at now =
      elim (Outcome-cases (prepare p q key request)) [
        | inl ((normal, fingerprint), e) ↦ inr (normal, fingerprint, rw (e, enqueue))
        | inr (inl (x, e)) ↦ inl (rw (e, enqueue))
        | inr (inr e) ↦ inl (rw (e, enqueue))
      ]

  enqueue_new-QueueInv :
      (q : Queue) (key : String) (request : CreateRequest) (fingerprint : Bytes) (entropy : Entropy)
      (now : Time)
      → QueueInv q
      → IsFreshEntropy entropy q
      → lookup key q.records ≡ none
      → QueueInv (enqueue_new p q key request fingerprint entropy now).0
  enqueue_new-QueueInv q key request fingerprint entropy now v fresh unused =
      elim (enqueue_new_cases q key request fingerprint entropy now) [
        | inl same ↦ subst QueueInv (sym same) v
        | inr (job, made, room, space, e) ↦
            let (bytes, drawn, name, at, until, _, _, _, _) =
              create_job_ok q request entropy now job made in
            subst QueueInv (sym e) (
              admit-QueueInv q key fingerprint job v
                (subst (λ x. IsFresh x q) (sym name) (fresh bytes drawn)) unused room space
                (until ∙ ap (λ t. t + job_lifetime) (sym at)))
      ]

  -- `Enqueue` keeps the invariant, if the identifier that it draws is new.
  pub enqueue-QueueInv :
      (q : Queue) (key : String) (request : CreateRequest) (entropy : Entropy)
      (pruned_at now : Time)
      → QueueInv q
      → IsFreshEntropy entropy (prune_expired pruned_at q)
      → QueueInv (enqueue p q key request entropy pruned_at now).0
  enqueue-QueueInv q key request entropy pruned_at now v fresh =
      let q₁ = prune_expired pruned_at q in
      let v₁ = prune-QueueInv pruned_at q v in
      elim (enqueue_cases q key request entropy pruned_at now) [
        | inl same ↦ subst QueueInv (sym same) v
        | inr (normal, fingerprint, e) ↦
            subst (λ r. QueueInv r.0) (sym e)
              (elim (enqueue_locked_cases q₁ key normal fingerprint entropy now) [
                | inl same ↦ subst QueueInv (sym same) v₁
                | inr (unused, new) ↦
                    subst (λ r. QueueInv r.0) (sym new)
                      (enqueue_new-QueueInv q₁ key normal fingerprint entropy now v₁ fresh unused)
              ])
      ]
