-- ===== src/RunQueue/Changes.antt =====
-- queue.go and lifecycle.go: `Lease`, and the methods that write one lifecycle record, keep the
-- queue's invariant.
use proof_layer.Base.{
  ◌≡◌, refl, sym, ap, subst, ◌∙◌, ◌≢◌, ◌⊎◌, inl, inr, String, some, List, arith, String_eq, Time,
  All-map, All-map₂, Outcome, ok, err, panic, eq_iff, bind-eq_ok, ◌>>=◌, Bool-cases, ◌==◌,
}
use proof_layer.Base.Assoc.{lookup, insert, lookup-insert, Values-insert, Values-lookup}
use proof_layer.RunQueue.Model.{QueueError, Job, JobStatus, LifecycleRecord}
use proof_layer.RunQueue.Transitions.{lease_record}
use proof_layer.RunQueue.Platform.{Platform}
use proof_layer.RunQueue.Invariant.{Inv, lease-Inv}
use proof_layer.RunQueue.Queue.{Queue, take_job}
use proof_layer.RunQueue.Methods.{lower, authorized_record, change_record}
use proof_layer.RunQueue.Prune.{IsQueued, IsQueued-same, lookup-insert_ne}
use proof_layer.RunQueue.Retention.{Covered, Receipted}
use proof_layer.RunQueue.TakeJob.{take_job-IsFirst, IsFirst-Distinct, IsFirst-All, IsFirst-length}
use proof_layer.RunQueue.QueueInvariant.{QueueInv}

-- The queue after `Lease` has handed out a job.
abbrev pub leased_queue : Queue → List Job → Job → LifecycleRecord → Queue
leased_queue q rest job r = record q { jobs = rest; lifecycle = insert job.job_id r q.lifecycle }

-- A job that the queue holds has a queued record, so `Lease` writes it.
pub leased-QueueInv :
    (q : Queue) (environment host : String) (job : Job) (rest : List Job) (r : LifecycleRecord)
    (now : Time)
    → QueueInv q
    → take_job environment host q.jobs ≡ some (job, rest)
    → lookup job.job_id q.lifecycle ≡ some r
    → QueueInv (leased_queue q rest job (lease_record now r))
leased-QueueInv q environment host job rest r now v taken found =
    let f = take_job-IsFirst environment host q.jobs job rest taken in
    let ((r', found', status, same), queued) =
      IsFirst-All (IsQueued q.lifecycle) environment host q.jobs job rest f v.queued in
    let (away, distinct) = IsFirst-Distinct environment host q.jobs job rest f v.distinct in
    let e : r' ≡ r = cc in
    record {
      lives =
          Values-insert Inv job.job_id (lease_record now r) q.lifecycle
            (lease-Inv now r (Values-lookup Inv job.job_id r q.lifecycle v.lives found)
              (subst (λ x. x.status ≡ JobStatus.queued) e status))
            v.lives;
      bounded = omega (arith, IsFirst-length environment host q.jobs job rest f, v.bounded);
      limited = v.limited;
      retained = v.retained;
      queued =
          All-map₂ _ _ _ rest
            (λ j apart kept.
              IsQueued-same q.lifecycle _ j (lookup-insert_ne job.job_id j.job_id _ _ apart) kept)
            away queued;
      distinct = distinct;
      covered = (IsFirst-All (Covered q.records) environment host q.jobs job rest f v.covered).1;
      receipted =
          (IsFirst-All (Receipted q.records) environment host q.jobs job rest f v.receipted).1;
    }

-- A queued job stays queued when a record that is not queued is written.
still_queued :
    (q : Queue) (k : String) (r r' : LifecycleRecord)
    → lookup k q.lifecycle ≡ some r
    → (r' ≡ r) ⊎ (r.status ≢ JobStatus.queued)
    → (job : Job) → IsQueued q.lifecycle job
    → IsQueued (insert k r' q.lifecycle) job
still_queued q k r r' found change job (x, at, status, same) = elim (Bool-cases (k == job.job_id)) [
  | inl hit ↦
      let name : k ≡ job.job_id = (eq_iff k job.job_id).0 hit in
      let one : r ≡ x = cc in
      elim change [
        | inl kept ↦ (
          r',
          lookup-insert k job.job_id r' q.lifecycle ∙ rw hit,
          subst (λ y. y.status ≡ JobStatus.queued) (sym (kept ∙ one)) status,
          ap (λ y. y.job) (kept ∙ one) ∙ same,
        )
        | inr other ↦ absurd (other (ap (λ y. y.status) one ∙ status))
      ]
  | inr miss ↦ (x, lookup-insert k job.job_id r' q.lifecycle ∙ rw miss at, status, same)
]

-- Writing a record that is not queued, or writing a record as it is, keeps the invariant.
changed-QueueInv :
    (q : Queue) (k : String) (r r' : LifecycleRecord)
    → QueueInv q
    → lookup k q.lifecycle ≡ some r
    → Inv r'
    → (r' ≡ r) ⊎ (r.status ≢ JobStatus.queued)
    → QueueInv (record q { lifecycle = insert k r' q.lifecycle })
changed-QueueInv q k r r' v found i change = record {
  lives = Values-insert Inv k r' q.lifecycle i v.lives;
  bounded = v.bounded;
  limited = v.limited;
  retained = v.retained;
  queued = All-map _ _ q.jobs (still_queued q k r r' found change) v.queued;
  distinct = v.distinct;
  covered = v.covered;
  receipted = v.receipted;
}

-- The record that a method fetches stands in the map under the identifier in lower case.
authorized_record_ok :
    (p : Platform) (q : Queue) (environment host job_id : String) (r : LifecycleRecord)
    → authorized_record p q environment host job_id ≡ ok r
    → lookup (lower p job_id) q.lifecycle ≡ some r
unfolding authorized_record
authorized_record_ok p q environment host job_id r h = ground arith

-- A method that changes no queued record keeps the invariant.
pub change_record-QueueInv :
    (p : Platform) (q : Queue) (environment host job_id : String)
    (m : LifecycleRecord → Outcome QueueError LifecycleRecord)
    → QueueInv q
    → ((r r' : LifecycleRecord)
        → Inv r
        → m r ≡ ok r'
        → Inv r' × ((r' ≡ r) ⊎ (r.status ≢ JobStatus.queued)))
    → QueueInv (change_record p q job_id (authorized_record p q environment host job_id >>= m)).0
change_record-QueueInv p q environment host job_id m v keeps =
    go (authorized_record p q environment host job_id >>= m) refl
  where
    go :
        (o : Outcome QueueError LifecycleRecord)
        → (authorized_record p q environment host job_id >>= m) ≡ o
        → QueueInv (change_record p q job_id o).0
    go (err e) h = unfold change_record in v
    go panic h = unfold change_record in v
    go (ok r') h =
        let (r, fetched, made) = bind-eq_ok (authorized_record p q environment host job_id) m h in
        let found = authorized_record_ok p q environment host job_id r fetched in
        let (i, change) = keeps r r' (Values-lookup Inv _ r q.lifecycle v.lives found) made in
        unfold change_record in changed-QueueInv q (lower p job_id) r r' v found i change
