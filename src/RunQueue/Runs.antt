-- ===== src/RunQueue/Runs.antt =====
-- queue.go and lifecycle.go: the runs of a queue, as sequences of calls on it. The mutex makes the
-- calls of concurrent clients such a sequence.
use proof_layer.Base.{
  ◌≡◌, sym, subst, ◌⊎◌, inl, inr, Bool, String, none, some, List, arith, String_eq, Time, ok,
  Option-cases,
}
use proof_layer.Base.Assoc.{lookup}
use proof_layer.RunQueue.Model.{CreateRequest, Job, LifecycleRecord, StageUpdate}
use proof_layer.RunQueue.Transitions.{
  acknowledge_record, update_record, complete_record, lease_record,
}
use proof_layer.RunQueue.Platform.{Platform, Entropy}
use proof_layer.RunQueue.Invariant.{
  acknowledge_cases, acknowledge-Inv, complete_cases, complete-Inv,
}
use proof_layer.RunQueue.Update.{update_cases, update-Inv}
use proof_layer.RunQueue.Queue.{Queue, Config, prune_expired, take_job, new}
use proof_layer.RunQueue.Methods.{
  enqueue, lease, acknowledge, update_stage, complete, status, lower,
}
use proof_layer.RunQueue.Prune.{IsQueued}
use proof_layer.RunQueue.TakeJob.{take_job-IsFirst, IsFirst-All}
use proof_layer.RunQueue.QueueInvariant.{QueueInv, prune-QueueInv}
use proof_layer.RunQueue.Preservation.{new-QueueInv}
use proof_layer.RunQueue.EnqueueInvariant.{IsFreshEntropy, enqueue-QueueInv}
use proof_layer.RunQueue.Changes.{leased_queue, leased-QueueInv, change_record-QueueInv}

module _ (p : Platform) where
  -- `Lease` finds no job for the host, or hands out the first one and marks its record.
  pub lease_cases :
      (q : Queue) (environment host : String) (pruned_at now : Time)
      → QueueInv q
      → let q₁ = prune_expired pruned_at q in
        ((take_job (lower p environment) (lower p host) q₁.jobs ≡ none)
          × (lease p q environment host pruned_at now ≡ (q₁, ok none)))
        ⊎ ((job : Job) × (rest : List Job) × (r : LifecycleRecord) × (take_job
                (lower p environment)
                (lower p host)
                q₁.jobs
              ≡ some (job, rest))
            × (lookup job.job_id q₁.lifecycle ≡ some r)
            × (lease p q environment host pruned_at now
                ≡ (leased_queue q₁ rest job (lease_record now r), ok (some job))))
  unfolding lease
  lease_cases q environment host pruned_at now v =
      let q₁ = prune_expired pruned_at q in
      elim (Option-cases (take_job (lower p environment) (lower p host) q₁.jobs)) [
        | inl nobody ↦ inl (nobody, rw (nobody, lease))
        | inr ((job, rest), taken) ↦
            let f = take_job-IsFirst (lower p environment) (lower p host) q₁.jobs job rest taken in
            let ((r, found, _, _), _) =
              IsFirst-All (IsQueued q₁.lifecycle) _ _ q₁.jobs job rest f
                (prune-QueueInv pruned_at q v).queued in
            inr (job, rest, r, taken, found, rw (taken, found, lease))
      ]

  -- `Lease` keeps the invariant.
  pub lease-QueueInv :
      (q : Queue) (environment host : String) (pruned_at now : Time)
      → QueueInv q
      → QueueInv (lease p q environment host pruned_at now).0
  lease-QueueInv q environment host pruned_at now v =
      let q₁ = prune_expired pruned_at q in
      let v₁ = prune-QueueInv pruned_at q v in
      elim (lease_cases q environment host pruned_at now v) [
        | inl (_, e) ↦ subst (λ x. QueueInv x.0) (sym e) v₁
        | inr (job, rest, r, taken, found, e) ↦
            subst (λ x. QueueInv x.0) (sym e) (leased-QueueInv q₁ _ _ job rest r now v₁ taken found)
      ]

  pub acknowledge-QueueInv :
      (q : Queue) (environment host job_id : String) (accepted : Bool) (pruned_at now : Time)
      → QueueInv q
      → QueueInv (acknowledge p q environment host job_id accepted pruned_at now).0
  unfolding acknowledge
  acknowledge-QueueInv q environment host job_id accepted pruned_at now v =
      change_record-QueueInv p (prune_expired pruned_at q) environment host job_id
        (λ r. acknowledge_record r accepted now) (prune-QueueInv pruned_at q v)
        (λ r r' i h. (
          acknowledge-Inv r accepted now r' i h,
          ground (arith, acknowledge_cases r accepted now r' h),
        ))

  pub update_stage-QueueInv :
      (q : Queue) (environment host job_id : String) (update : StageUpdate) (now : Time)
      → QueueInv q
      → QueueInv (update_stage p q environment host job_id update now).0
  unfolding update_stage
  update_stage-QueueInv q environment host job_id update now v =
      change_record-QueueInv p q environment host job_id (λ r. update_record r update now) v
        (λ r r' i h. (
          update-Inv r update now r' i h,
          elim (update_cases r update now r' h) [
            | inl same ↦ inl same
            | inr w ↦ inr (λ queued. ground (arith, w.open_job))
          ],
        ))

  pub complete-QueueInv :
      (q : Queue) (environment host job_id : String) (now : Time)
      → QueueInv q
      → QueueInv (complete p q environment host job_id now).0
  unfolding complete
  complete-QueueInv q environment host job_id now v =
      change_record-QueueInv p q environment host job_id (λ r. complete_record r now) v
        (λ r r' i h. (complete-Inv r now r' i h, ground (arith, complete_cases r now r' h)))

  -- One call of a method, with the queue that it leaves.
  pub data Call : Queue → Queue → Type 0 where
    enqueues :
        (q : Queue) (key : String) (request : CreateRequest) (entropy : Entropy)
        (pruned_at now : Time)
        → IsFreshEntropy entropy (prune_expired pruned_at q)
        → Call q (enqueue p q key request entropy pruned_at now).0
    leases :
        (q : Queue) (environment host : String) (pruned_at now : Time)
        → Call q (lease p q environment host pruned_at now).0
    acknowledges :
        (q : Queue) (environment host job_id : String) (accepted : Bool) (pruned_at now : Time)
        → Call q (acknowledge p q environment host job_id accepted pruned_at now).0
    updates :
        (q : Queue) (environment host job_id : String) (update : StageUpdate) (now : Time)
        → Call q (update_stage p q environment host job_id update now).0
    completes :
        (q : Queue) (environment host job_id : String) (now : Time)
        → Call q (complete p q environment host job_id now).0
    queries :
        (q : Queue) (job_id : String) (pruned_at : Time) → Call q (status p q job_id pruned_at).0

  -- A run from a new queue.
  pub data Reached (c : Config) : Queue → Type 0 where
    made : {q : Queue} → new p c ≡ ok q → Reached c q
    after_call : {q q' : Queue} → Reached c q → Call q q' → Reached c q'

  Call-QueueInv : {q q' : Queue} → Call q q' → QueueInv q → QueueInv q'
  unfolding status
  Call-QueueInv (enqueues q key request entropy pruned_at now fresh) v =
      enqueue-QueueInv p q key request entropy pruned_at now v fresh
  Call-QueueInv (leases q environment host pruned_at now) v =
      lease-QueueInv q environment host pruned_at now v
  Call-QueueInv (acknowledges q environment host job_id accepted pruned_at now) v =
      acknowledge-QueueInv q environment host job_id accepted pruned_at now v
  Call-QueueInv (updates q environment host job_id update now) v =
      update_stage-QueueInv q environment host job_id update now v
  Call-QueueInv (completes q environment host job_id now) v =
      complete-QueueInv q environment host job_id now v
  Call-QueueInv (queries q job_id pruned_at) v = prune-QueueInv pruned_at q v

  -- After any sequence of calls on a new queue, in which each job that is created gets an
  -- identifier new to the queue, the queue's invariant holds: every lifecycle record is well formed,
  -- the jobs and the idempotency records are within their limits, and each waiting job has an
  -- identifier of its own, a record that says that it is queued, and an idempotency record with its
  -- receipt that lasts as long as the job.
  pub Reached-QueueInv : {c : Config} {q : Queue} → Reached c q → QueueInv q
  Reached-QueueInv {c} (made h) = new-QueueInv p c h
  Reached-QueueInv (after_call r call) = Call-QueueInv call (Reached-QueueInv r)
