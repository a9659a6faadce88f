-- ===== src/RunQueue/Retention.antt =====
-- queue.go, the last two loops of `pruneExpiredLocked`, and the whole of it: a queued job that is
-- not past its expiry keeps its lifecycle record, and every record stays well formed.
use proof_layer.Base.{
  ◌≤◌, ◌≡◌, refl, ◌∙◌, ap, ◌≢◌, true, false, some, String, List, [], ◌∷◌, arith, Bool, String_eq,
  Time, before, eq_iff, keep, All-keep, All-map, if◌then◌else◌, Option, none, sym, inl, inr, ◌==◌,
  Bool-cases,
}
use proof_layer.Base.Assoc.{
  Assoc, Values, lookup, delete, map_values, keep_values, lookup-delete, lookup-map_values,
  Values-delete, Values-keep_values, insert, lookup-insert, lookup-keep_values,
}
use proof_layer.RunQueue.Model.{Job, LifecycleRecord, IdempotencyRecord}
use proof_layer.RunQueue.Transitions.{expire_record}
use proof_layer.RunQueue.Invariant.{Inv}
use proof_layer.RunQueue.Queue.{active_jobs, forget}
use proof_layer.RunQueue.Prune.{IsQueued, Distinct}

-- The second loop passes over the record of a job that is not past its expiry.
pub expire_record_active :
    (now : Time) (r : LifecycleRecord)
    → before now r.job.expires_at ≡ true
    → expire_record now r ≡ r
unfolding expire_record
expire_record_active now r h = rw h

pub IsQueued-map_values :
    (now : Time) (life : Assoc String LifecycleRecord) (job : Job)
    → before now job.expires_at ≡ true
    → IsQueued life job
    → IsQueued (map_values (expire_record now) life) job
IsQueued-map_values now life job active (r, found, status, same) = (
  r,
  lookup-map_values job.job_id (expire_record now) life
      ∙ rw found (ap some (expire_record_active now r (rw same active))),
  status,
  same,
)

-- An idempotency record that names the job lasts as long as the job.
abbrev pub Outlives : IdempotencyRecord → Job → Type 0
Outlives r job = r.receipt.job_id ≡ job.job_id → job.expires_at ≤ r.expires_at

abbrev pub Covered : Assoc String IdempotencyRecord → Job → Type 0
Covered records job = Values (λ (r : IdempotencyRecord). Outlives r job) records

-- There is one that names it, under some key.
abbrev pub Receipted : Assoc String IdempotencyRecord → Job → Type 0
Receipted records job =
    (key : String) × (r : IdempotencyRecord) × (lookup key records ≡ some r)
    × (r.receipt.job_id ≡ job.job_id)
    × (job.expires_at ≤ r.expires_at)

-- The pruning leaves it there as long as the job is not past its expiry.
pub Receipted-keep :
    (now : Time) (job : Job) (records : Assoc String IdempotencyRecord)
    → before now job.expires_at ≡ true
    → Receipted records job
    → Receipted (keep_values (λ r. before now r.expires_at) records) job
Receipted-keep now job records active (key, r, found, named, lasts) = (
  key,
  r,
  lookup-keep_values key (λ (x : IdempotencyRecord). before now x.expires_at) r records found
      (ground (arith, active, lasts)),
  named,
  lasts,
)

-- A record under a key that had none leaves it there.
pub Receipted-insert :
    (key : String) (entry : IdempotencyRecord) (records : Assoc String IdempotencyRecord)
    (job : Job)
    → lookup key records ≡ none
    → Receipted records job
    → Receipted (insert key entry records) job
Receipted-insert key entry records job unused (k, r, found, named, lasts) = (
  k,
  r,
  lookup-insert key k entry records ∙ (elim (Bool-cases (key == k)) [
    | inl hit ↦
        absurd (none-some (sym unused ∙ ap (λ x. lookup x records) ((eq_iff key k).0 hit) ∙ found))
    | inr miss ↦ rw miss found
  ]),
  named,
  lasts,
)
  where
    none-some : {r : IdempotencyRecord} → ◌≢◌ {A = Option IdempotencyRecord} none (some r)
    none-some same = cc

-- So the last loop does not forget it.
pub lookup-forget :
    (now : Time) (records : Assoc String IdempotencyRecord) (life : Assoc String LifecycleRecord)
    (job : Job)
    → before now job.expires_at ≡ true
    → Covered records job
    → lookup job.job_id (forget now records life) ≡ lookup job.job_id life
unfolding forget
lookup-forget now [] life job active h = refl
lookup-forget now ((key, r) ∷ records) life job active h =
    lookup-forget now records _ job active h.1
    ∙ ground (
      arith,
      lookup-delete r.receipt.job_id job.job_id life,
      eq_iff r.receipt.job_id job.job_id,
      h.0,
    )

pub forget-Inv :
    (now : Time) (records : Assoc String IdempotencyRecord) (life : Assoc String LifecycleRecord)
    → Values Inv life
    → Values Inv (forget now records life)
unfolding forget
forget-Inv now [] life v = v
forget-Inv now ((key, r) ∷ records) life v =
    forget-Inv now records (if before now r.expires_at then life else delete r.receipt.job_id life)
      (go (before now r.expires_at))
  where
    go : (b : Bool) → Values Inv (if b then life else delete r.receipt.job_id life)
    go true = v
    go false = Values-delete Inv r.receipt.job_id life v

pub Covered-keep :
    (now : Time) (job : Job) (records : Assoc String IdempotencyRecord)
    → Covered records job
    → Covered (keep_values (λ r. before now r.expires_at) records) job
Covered-keep now job records h =
    Values-keep_values (λ (r : IdempotencyRecord). Outlives r job) (λ r. before now r.expires_at)
      records h

pub Distinct-keep : (now : Time) (jobs : List Job) → Distinct jobs → Distinct (active_jobs now jobs)
unfolding active_jobs
Distinct-keep now [] d = tt
Distinct-keep now (job ∷ jobs) d = go (before now job.expires_at) (Distinct-keep now jobs d.1)
  where
    go :
        (b : Bool)
        → Distinct (keep (λ (j : Job). before now j.expires_at) jobs)
        → Distinct (
            if b
            then job ∷ keep (λ (j : Job). before now j.expires_at) jobs
            else keep (λ (j : Job). before now j.expires_at) jobs)
    go true rest = (
      All-keep (λ (j : Job). j.job_id ≢ job.job_id) _ jobs (All-map _ _ jobs (λ j h _. h) d.0),
      rest,
    )
    go false rest = rest
