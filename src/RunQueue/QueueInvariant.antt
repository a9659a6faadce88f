-- ===== src/RunQueue/QueueInvariant.antt =====
-- What holds of the queue between two calls (queue.go), and that the pruning keeps it.
use proof_layer.Base.{
  ◌≤◌, ◌≡◌, true, arith, String_eq, Time, All, before, All-keep, All-map, All-map₂, length,
  length-keep,
}
use proof_layer.Base.Assoc.{Values, map_values, Values-map_values, length-keep_values}
use proof_layer.RunQueue.Model.{Job, IdempotencyRecord}
use proof_layer.RunQueue.Transitions.{expire_record}
use proof_layer.RunQueue.Invariant.{Inv, expire-Inv}
use proof_layer.RunQueue.Queue.{
  Queue, maximum_idempotency_records, active_jobs, expire_jobs, forget, prune_expired,
}
use proof_layer.RunQueue.Prune.{
  IsQueued, Distinct, IsQueued-same, expire_jobs-Inv, expire_jobs-kept,
}
use proof_layer.RunQueue.Retention.{
  Covered, Receipted, Receipted-keep, IsQueued-map_values, lookup-forget, forget-Inv, Covered-keep,
  Distinct-keep,
}

pub record QueueInv (q : Queue) : Type 0 where
  pub lives : Values Inv q.lifecycle
  pub bounded : length q.jobs ≤ q.capacity
  pub limited : q.capacity ≤ 128
  pub retained : length q.records ≤ maximum_idempotency_records
  pub queued : All (IsQueued q.lifecycle) q.jobs
  pub distinct : Distinct q.jobs
  pub covered : All (Covered q.records) q.jobs
  pub receipted : All (Receipted q.records) q.jobs

-- A job that stays in the queue has the record that it had.
prune-kept :
    (now : Time) (q : Queue)
    → QueueInv q
    → All
        (λ (job : Job).
          before now job.expires_at ≡ true → IsQueued (prune_expired now q).lifecycle job)
        q.jobs
unfolding prune_expired
prune-kept now q v =
    All-map₂ _ _ _ q.jobs
      (λ job kept covered active.
        IsQueued-same (map_values (expire_record now) (expire_jobs now q.jobs q.lifecycle))
          (forget now q.records
            (map_values (expire_record now) (expire_jobs now q.jobs q.lifecycle)))
          job (lookup-forget now q.records _ job active covered)
          (IsQueued-map_values now (expire_jobs now q.jobs q.lifecycle) job active (kept active)))
      (expire_jobs-kept now q.jobs q.lifecycle v.distinct v.queued) v.covered

-- The pruning keeps the invariant.
pub prune-QueueInv : (now : Time) (q : Queue) → QueueInv q → QueueInv (prune_expired now q)
unfolding prune_expired active_jobs
prune-QueueInv now q v = record {
  lives = forget-Inv now q.records _ (
      Values-map_values Inv (expire_record now) _ (expire-Inv now)
        (expire_jobs-Inv now q.jobs q.lifecycle v.distinct v.queued v.lives));
  bounded = omega (arith, length-keep (λ (job : Job). before now job.expires_at) q.jobs, v.bounded);
  limited = v.limited;
  retained = omega (
    arith,
    length-keep_values (λ (r : IdempotencyRecord). before now r.expires_at) q.records,
    v.retained,
  );
  queued = All-keep _ _ q.jobs (prune-kept now q v);
  distinct = Distinct-keep now q.jobs v.distinct;
  receipted =
      All-keep _ _ q.jobs (
        All-map _ _ q.jobs (λ job h active. Receipted-keep now job q.records active h) v.receipted);
  covered =
      All-keep _ _ q.jobs
        (All-map _ _ q.jobs (λ job h _. Covered-keep now job q.records h) v.covered);
}
