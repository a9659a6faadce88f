-- ===== src/RunQueue/Leases.antt =====
-- queue.go, `Lease`: which job a runner gets, and that the lease does not panic.
use proof_layer.Base.{
  ◌≡◌, refl, sym, ap, subst, ◌⊎◌, inl, inr, true, String, none, some, List, [], ◌∷◌, String_eq,
  Time, before, ok, All, All-keep,
}
use proof_layer.Base.Assoc.{lookup, lookup-insert_self}
use proof_layer.RunQueue.Model.{Job, JobStatus, LifecycleRecord}
use proof_layer.RunQueue.Transitions.{lease_record}
use proof_layer.RunQueue.Platform.{Platform}
use proof_layer.RunQueue.Queue.{Queue, active_jobs, prune_expired}
use proof_layer.RunQueue.Methods.{lower, lease}
use proof_layer.RunQueue.Prune.{IsQueued, Apart}
use proof_layer.RunQueue.TakeJob.{
  IsFor, IsFirst, take_job-IsFirst, take_job-none, IsFirst-All, IsFirst-Distinct,
}
use proof_layer.RunQueue.QueueInvariant.{QueueInv, prune-QueueInv}
use proof_layer.RunQueue.Changes.{leased_queue}
use proof_layer.RunQueue.Runs.{lease_cases}

-- The jobs that the pruning leaves are not past their expiry.
pruned_live :
    (now : Time) (q : Queue)
    → All (λ (job : Job). before now job.expires_at ≡ true) (prune_expired now q).jobs
unfolding prune_expired active_jobs
pruned_live now q = All-keep _ _ q.jobs (go q.jobs)
  where
    go :
        (jobs : List Job)
        → All
            (λ (job : Job). before now job.expires_at ≡ true → before now job.expires_at ≡ true)
            jobs
    go [] = tt
    go (job ∷ jobs) = ((λ h. h), go jobs)

-- What a runner gets with a job: the first job for its host, not past its expiry, which no waiting
-- job shares its identifier with from then on, and whose record is leased.
pub record Handed (p : Platform) (q : Queue) (environment host : String) (pruned_at : Time)
    (q' : Queue) (job : Job) : Type 0 where
  pub first :
      IsFirst (lower p environment) (lower p host) (prune_expired pruned_at q).jobs job q'.jobs
  pub live : before pruned_at job.expires_at ≡ true
  pub gone : Apart job.job_id q'.jobs
  pub marked :
      (r : LifecycleRecord) × (lookup job.job_id q'.lifecycle ≡ some r)
      × (r.status ≡ JobStatus.leased)
      × (r.job ≡ job)

module _ (p : Platform) where
  leased-Handed :
      (q : Queue) (environment host : String) (pruned_at now : Time) (job : Job) (rest : List Job)
      (r : LifecycleRecord)
      → QueueInv q
      → IsFirst (lower p environment) (lower p host) (prune_expired pruned_at q).jobs job rest
      → lookup job.job_id (prune_expired pruned_at q).lifecycle ≡ some r
      → Handed p q environment host pruned_at
          (leased_queue (prune_expired pruned_at q) rest job (lease_record now r))
          job
  unfolding lease_record
  leased-Handed q environment host pruned_at now job rest r v f found =
      let q₁ = prune_expired pruned_at q in
      let v₁ = prune-QueueInv pruned_at q v in
      let ((r', found', _, same), _) =
        IsFirst-All (IsQueued q₁.lifecycle) _ _ q₁.jobs job rest f v₁.queued in
      let one : r' ≡ r = cc in
      record {
        first = f;
        live = (IsFirst-All _ _ _ q₁.jobs job rest f (pruned_live pruned_at q)).0;
        gone = (IsFirst-Distinct _ _ q₁.jobs job rest f v₁.distinct).0;
        marked = (
          lease_record now r,
          lookup-insert_self job.job_id (lease_record now r) q₁.lifecycle,
          refl,
          subst (λ (x : LifecycleRecord). x.job ≡ job) one same,
        );
      }

  -- Where the queue's invariant holds, `Lease` does not panic. It hands out nothing, where no waiting
  -- job is for the host, and only prunes the queue; or a job that is the first of the waiting jobs
  -- for the host, not past its expiry, out of the queue and marked leased.
  pub lease-Handed :
      (q : Queue) (environment host : String) (pruned_at now : Time)
      → QueueInv q
      → ((lease p q environment host pruned_at now ≡ (prune_expired pruned_at q, ok none))
          × All
              (λ (job : Job). ¬ IsFor (lower p environment) (lower p host) job)
              (prune_expired pruned_at q).jobs)
        ⊎ ((job : Job) × ((lease p q environment host pruned_at now).1 ≡ ok (some job))
            × Handed p q environment host pruned_at
                (lease p q environment host pruned_at now).0
                job)
  lease-Handed q environment host pruned_at now v =
      elim (lease_cases p q environment host pruned_at now v) [
        | inl (nobody, e) ↦ inl (e, take_job-none _ _ (prune_expired pruned_at q).jobs nobody)
        | inr (job, rest, r, taken, found, e) ↦ inr (
          job,
          ap (λ x. x.1) e,
          subst (λ x. Handed p q environment host pruned_at x.0 job) (sym e)
              (leased-Handed q environment host pruned_at now job rest r v
                (take_job-IsFirst _ _ (prune_expired pruned_at q).jobs job rest taken) found),
        )
      ]
