-- ===== src/RunQueue/Prune.antt =====
-- queue.go, `pruneExpiredLocked`: the jobs that stay queued keep their lifecycle records.
use proof_layer.Base.{
  ◌≡◌, refl, sym, subst, ◌∙◌, ◌≢◌, ◌⊎◌, inl, inr, true, String, some, List, [], ◌∷◌, arith,
  String_eq, Time, All, before, eq_iff, ap,
}
use proof_layer.Base.Assoc.{
  Assoc, Values, lookup, insert, lookup-insert, Values-insert, Values-lookup,
}
use proof_layer.RunQueue.Model.{Job, JobStatus, LifecycleRecord}
use proof_layer.RunQueue.Transitions.{expired_record}
use proof_layer.RunQueue.Invariant.{Inv, expired-Inv}
use proof_layer.RunQueue.Queue.{expire_job, expire_jobs}

-- The job waits, and its lifecycle record says so.
abbrev pub IsQueued : Assoc String LifecycleRecord → Job → Type 0
IsQueued life job =
    (r : LifecycleRecord) × (lookup job.job_id life ≡ some r)
    × (r.status ≡ JobStatus.queued)
    × (r.job ≡ job)

abbrev pub Apart : String → List Job → Type 0
Apart job_id = All (λ (job : Job). job.job_id ≢ job_id)

-- No two jobs of the list have one identifier.
abbrev pub Distinct : List Job → Type 0
Distinct [] = Unit
Distinct (job ∷ jobs) = Apart job.job_id jobs × Distinct jobs

pub IsQueued-same :
    (life life' : Assoc String LifecycleRecord) (job : Job)
    → lookup job.job_id life' ≡ lookup job.job_id life
    → IsQueued life job
    → IsQueued life' job
IsQueued-same life life' job e (r, found, status, same) = (r, e ∙ found, status, same)

pub lookup-insert_ne :
    (k j : String) (v : LifecycleRecord) (m : Assoc String LifecycleRecord)
    → j ≢ k
    → lookup j (insert k v m) ≡ lookup j m
lookup-insert_ne k j v m h = lookup-insert k j v m ∙ ground (arith, eq_iff k j)

-- A job past its expiry closes its record, unless that is closed.
expire_job_cases :
    (now : Time) (job : Job) (life : Assoc String LifecycleRecord)
    → (expire_job now job life ≡ life)
      ⊎ ((r : LifecycleRecord) × (lookup job.job_id life ≡ some r)
          × (expire_job now job life ≡ insert job.job_id (expired_record now r) life))
unfolding expire_job
expire_job_cases now job life = ground arith

lookup-expire_job :
    (now : Time) (job : Job) (life : Assoc String LifecycleRecord) (k : String)
    → job.job_id ≢ k
    → lookup k (expire_job now job life) ≡ lookup k life
lookup-expire_job now job life k h = elim (expire_job_cases now job life) [
  | inl same ↦ ap (lookup k) same
  | inr (r, found, e) ↦
      ap (lookup k) e ∙ lookup-insert_ne job.job_id k _ life (λ same. h (sym same))
]

pub lookup-expire_jobs :
    (now : Time) (jobs : List Job) (life : Assoc String LifecycleRecord) (k : String)
    → Apart k jobs
    → lookup k (expire_jobs now jobs life) ≡ lookup k life
unfolding expire_jobs
lookup-expire_jobs now [] life k h = refl
lookup-expire_jobs now (job ∷ jobs) life k h =
    lookup-expire_jobs now jobs (expire_job now job life) k h.1
    ∙ lookup-expire_job now job life k h.0

expire_job_active :
    (now : Time) (job : Job) (life : Assoc String LifecycleRecord)
    → before now job.expires_at ≡ true
    → expire_job now job life ≡ life
unfolding expire_job
expire_job_active now job life h = rw h

expire_job-Inv :
    (now : Time) (job : Job) (life : Assoc String LifecycleRecord)
    → IsQueued life job
    → Values Inv life
    → Values Inv (expire_job now job life)
expire_job-Inv now job life (r, found, status, same) v = elim (expire_job_cases now job life) [
  | inl e ↦ subst (Values Inv) (sym e) v
  | inr (r', found', e) ↦
      let same_record : r ≡ r' = cc in
      subst (Values Inv) (sym e) (
        Values-insert Inv job.job_id (expired_record now r') life
          (subst (λ x. Inv (expired_record now x)) same_record
            (expired-Inv now r (Values-lookup Inv job.job_id r life v found) (inl status)))
          v)
]

-- The other jobs stay queued.
IsQueued-expire_job :
    (now : Time) (job : Job) (jobs : List Job) (life : Assoc String LifecycleRecord)
    → Apart job.job_id jobs
    → All (IsQueued life) jobs
    → All (IsQueued (expire_job now job life)) jobs
IsQueued-expire_job now job [] life a h = tt
IsQueued-expire_job now job (j ∷ jobs) life a h = (
  IsQueued-same life (expire_job now job life) j
      (lookup-expire_job now job life j.job_id (λ same. a.0 (sym same))) h.0,
  IsQueued-expire_job now job jobs life a.1 h.1,
)

-- The first loop closes records that the invariant allows to be closed.
pub expire_jobs-Inv :
    (now : Time) (jobs : List Job) (life : Assoc String LifecycleRecord)
    → Distinct jobs
    → All (IsQueued life) jobs
    → Values Inv life
    → Values Inv (expire_jobs now jobs life)
unfolding expire_jobs
expire_jobs-Inv now [] life d q v = v
expire_jobs-Inv now (job ∷ jobs) life d q v =
    expire_jobs-Inv now jobs (expire_job now job life) d.1
      (IsQueued-expire_job now job jobs life d.0 q.1) (expire_job-Inv now job life q.0 v)

-- A job that is not past its expiry is passed over by the first loop.
pub expire_jobs-kept :
    (now : Time) (jobs : List Job) (life : Assoc String LifecycleRecord)
    → Distinct jobs
    → All (IsQueued life) jobs
    → All
        (λ (job : Job). before now job.expires_at ≡ true → IsQueued (expire_jobs now jobs life) job)
        jobs
unfolding expire_jobs
expire_jobs-kept now [] life d q = tt
expire_jobs-kept now (job ∷ jobs) life d q = (
  λ active.
      IsQueued-same life (expire_jobs now jobs (expire_job now job life)) job
        (lookup-expire_jobs now jobs (expire_job now job life) job.job_id d.0
          ∙ ap (lookup job.job_id) (expire_job_active now job life active))
        q.0,
  expire_jobs-kept now jobs (expire_job now job life) d.1
      (IsQueued-expire_job now job jobs life d.0 q.1),
)
