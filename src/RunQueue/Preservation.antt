-- ===== src/RunQueue/Preservation.antt =====
-- queue.go and lifecycle.go: every method keeps the queue's invariant.
use proof_layer.Base.{
  ◌+◌, ◌≤◌, ◌<◌, ◌≡◌, refl, sym, ap, subst, ◌≢◌, String, List, [], ◌∷◌, ◌++◌, arith, String_eq,
  Bytes, All, All-append, All-map, All-map₂, length, length-append, ok, none,
}
use proof_layer.Base.Assoc.{
  Values, lookup, insert, lookup-insert_self, Values-insert, length-insert,
}
use proof_layer.RunQueue.Model.{Job, IdempotencyRecord}
use proof_layer.RunQueue.Lifecycle.{new_lifecycle_record}
use proof_layer.RunQueue.Platform.{Platform}
use proof_layer.RunQueue.Invariant.{Inv, new_lifecycle_record-Inv}
use proof_layer.RunQueue.Queue.{
  Queue, Config, maximum_idempotency_records, job_lifetime, idempotency_retention, new, admit,
  receipt_of,
}
use proof_layer.RunQueue.Prune.{IsQueued, Apart, Distinct, IsQueued-same, lookup-insert_ne}
use proof_layer.RunQueue.Retention.{Outlives, Covered, Receipted, Receipted-insert}
use proof_layer.RunQueue.QueueInvariant.{QueueInv}

-- A new queue is empty, and its capacity is in range.
pub new_cases :
    (p : Platform) (c : Config) {q : Queue}
    → new p c ≡ ok q
    → (q.jobs ≡ []) × (q.records ≡ []) × (q.lifecycle ≡ []) × (1 ≤ q.capacity) × (q.capacity ≤ 128)
unfolding new
new_cases p c h = ground arith

pub new-QueueInv : (p : Platform) (c : Config) {q : Queue} → new p c ≡ ok q → QueueInv q
new-QueueInv p c {q} h =
    let (jobs, records, life, _, small) = new_cases p c h in
    record {
      lives = subst (Values Inv) (sym life) tt;
      bounded = omega (arith, ap length jobs);
      limited = small;
      retained = omega (arith, ap length records);
      queued = subst (All (IsQueued q.lifecycle)) (sym jobs) tt;
      distinct = subst Distinct (sym jobs) tt;
      covered = subst (All (Covered q.records)) (sym jobs) tt;
      receipted = subst (All (Receipted q.records)) (sym jobs) tt;
    }

-- An identifier that no queued job has, and that no receipt in the idempotency records names.
pub record IsFresh (job_id : String) (q : Queue) : Type 0 where
  pub unqueued : Apart job_id q.jobs
  pub unreceipted : Values (λ (r : IdempotencyRecord). r.receipt.job_id ≢ job_id) q.records

Distinct-append :
    (jobs : List Job) (job : Job)
    → Distinct jobs
    → Apart job.job_id jobs
    → Distinct (jobs ++ (job ∷ []))
Distinct-append [] job d a = (tt, tt)
Distinct-append (j ∷ jobs) job d a = (
  All-append _ jobs (job ∷ []) d.0 ((λ same. a.0 (sym same)), tt),
  Distinct-append jobs job d.1 a.1,
)

-- A new job keeps the invariant.
pub admit-QueueInv :
    (q : Queue) (key : String) (fingerprint : Bytes) (job : Job)
    → QueueInv q
    → IsFresh job.job_id q
    → lookup key q.records ≡ none
    → length q.jobs < q.capacity
    → length q.records < maximum_idempotency_records
    → job.expires_at ≡ job.requested_at + job_lifetime
    → QueueInv (admit q key fingerprint job (receipt_of job))
unfolding admit
admit-QueueInv q key fingerprint job v fresh unused room space times = record {
  lives =
      Values-insert Inv job.job_id (new_lifecycle_record job) q.lifecycle
        (new_lifecycle_record-Inv job) v.lives;
  bounded = omega (arith, length-append q.jobs (job ∷ []));
  limited = v.limited;
  retained = omega (arith, length-insert key entry q.records);
  queued =
      All-append _ q.jobs (job ∷ [])
        (All-map₂ _ _ _ q.jobs
          (λ j away kept.
            IsQueued-same q.lifecycle _ j (lookup-insert_ne job.job_id j.job_id _ _ away) kept)
          fresh.unqueued v.queued)
        (new_queued, tt);
  distinct = Distinct-append q.jobs job v.distinct fresh.unqueued;
  covered =
      All-append _ q.jobs (job ∷ [])
        (All-map₂ _ _ _ q.jobs
          (λ j away covered.
            Values-insert (λ (r : IdempotencyRecord). Outlives r j) key entry q.records
              (λ same. absurd (away (sym same))) covered)
          fresh.unqueued v.covered)
        (
          Values-insert (λ (r : IdempotencyRecord). Outlives r job) key entry q.records
              (λ _. omega arith)
              (All-map _ _ q.records (λ e away same. absurd (away same)) fresh.unreceipted),
          tt,
        );
  receipted =
      All-append _ q.jobs (job ∷ [])
        (All-map _ _ q.jobs (λ j h. Receipted-insert key entry q.records j unused h) v.receipted)
        ((key, entry, lookup-insert_self key entry q.records, refl, omega arith), tt);
}
  where
    entry : IdempotencyRecord
    entry = record {
      fingerprint = fingerprint;
      receipt = receipt_of job;
      expires_at = job.requested_at + idempotency_retention;
    }

    new_queued : IsQueued (insert job.job_id (new_lifecycle_record job) q.lifecycle) job
    new_queued = (
      new_lifecycle_record job,
      lookup-insert_self job.job_id (new_lifecycle_record job) q.lifecycle,
      unfold new_lifecycle_record in refl,
      unfold new_lifecycle_record in refl,
    )
