-- ===== src/RunQueue/Invariant.antt =====
-- What holds of a lifecycle record between two calls (lifecycle.go), and that a new record,
-- `Acknowledge`, `Complete`, the expiry and the lease keep it. `Update` has the updates.
use proof_layer.Base.{
  ◌≡◌, refl, sym, subst, ◌∙◌, ◌⊎◌, inl, inr, Bool, true, false, some, List, arith, last?, All, Time,
  ok, Bool-cases,
}
use proof_layer.RunQueue.Model.{Job, JobStatus, StageStatus, StageSnapshot, LifecycleRecord}
use proof_layer.RunQueue.Lifecycle.{
  stage_order, prior_stages_terminal, prior_stage_failed, new_lifecycle_record,
}
use proof_layer.RunQueue.Transitions.{
  acknowledge_record, rejected_record, complete_record, completed_record, expire_record,
  expired_record, lease_record,
}
use proof_layer.RunQueue.Progress.{
  names, IsPending, IsSkipped, Progress, names-mark, mark-IsSkipped,
}

abbrev pub is_final : JobStatus → Bool
is_final JobStatus.completed = true
is_final JobStatus.failed = true
is_final JobStatus.rejected = true
is_final JobStatus.expired = true
is_final _ = false

-- All stages have their verdict, and the cleanup's is not that it was left untested.
pub record IsClosed (ss : List StageSnapshot) : Type 0 where
  pub progress : Progress false ss
  pub settled : prior_stages_terminal ss ≡ true
  pub cleanup :
      (c : StageSnapshot) × (last? ss ≡ some c)
      × ((c.status ≡ StageStatus.passed) ⊎ (c.status ≡ StageStatus.failed))

-- What each status of a job says of its stages.
abbrev pub StagesOf : JobStatus → List StageSnapshot → Type 0
StagesOf JobStatus.queued ss = All IsPending ss
StagesOf JobStatus.leased ss = All IsPending ss
StagesOf JobStatus.acknowledged ss = All IsPending ss
StagesOf JobStatus.running ss = Progress false ss
StagesOf JobStatus.completed ss = IsClosed ss × (prior_stage_failed ss ≡ false)
StagesOf JobStatus.failed ss = IsClosed ss × (prior_stage_failed ss ≡ true)
StagesOf JobStatus.rejected ss = All IsSkipped ss
StagesOf JobStatus.expired ss = All IsSkipped ss

pub record Inv (r : LifecycleRecord) : Type 0 where
  pub order : names r.stages ≡ stage_order
  pub final : r.terminal ≡ is_final r.status
  pub stages_of : StagesOf r.status r.stages

pub new_lifecycle_record-Inv : (job : Job) → Inv (new_lifecycle_record job)
unfolding new_lifecycle_record
new_lifecycle_record-Inv job = record { order = refl; final = refl; stages_of = ground arith }

-- The stages are as they were made until the runner reports.
All-IsPending : (r : LifecycleRecord) → Inv r → r.status ≡ JobStatus.leased → All IsPending r.stages
All-IsPending r v e = subst (λ status. StagesOf status r.stages) e v.stages_of

-- `Acknowledge` succeeds on a record that has the answer, or on a leased one.
pub acknowledge_cases :
    (r : LifecycleRecord) (accepted : Bool) (now : Time) (r' : LifecycleRecord)
    → acknowledge_record r accepted now ≡ ok r'
    → (r' ≡ r)
      ⊎ ((r.status ≡ JobStatus.leased)
          × ((r' ≡ record r { status = JobStatus.acknowledged; updated_at = now })
              ⊎ (r' ≡ rejected_record now r)))
unfolding acknowledge_record
acknowledge_cases r true now r' e = ground arith
acknowledge_cases r false now r' e = ground arith

-- `Acknowledge` keeps the invariant.
pub acknowledge-Inv :
    (r : LifecycleRecord) (accepted : Bool) (now : Time) (r' : LifecycleRecord)
    → Inv r
    → acknowledge_record r accepted now ≡ ok r'
    → Inv r'
acknowledge-Inv r accepted now r' v e = elim (acknowledge_cases r accepted now r' e) [
  | inl same ↦ subst Inv (sym same) v
  | inr (l, inl p) ↦
      subst Inv (sym p) (record {
        order = v.order;
        final = ground (arith, v.final);
        stages_of = All-IsPending r v l;
      })
  | inr (l, inr p) ↦ subst Inv (sym p) (record {
    order = names-mark r.stages ∙ v.order;
    final = refl;
    stages_of = mark-IsSkipped r.stages (All-IsPending r v l);
  })
]

-- `Complete` succeeds on a finished record, or closes a running one.
pub complete_cases :
    (r : LifecycleRecord) (now : Time) (r' : LifecycleRecord)
    → complete_record r now ≡ ok r'
    → (r' ≡ r)
      ⊎ ((r.status ≡ JobStatus.running)
          × (prior_stages_terminal r.stages ≡ true)
          × (c : StageSnapshot) × (last? r.stages ≡ some c)
          × ((c.status ≡ StageStatus.passed) ⊎ (c.status ≡ StageStatus.failed))
          × (r' ≡ completed_record now r))
unfolding complete_record
complete_cases r now r' h = ground arith

completed-Inv :
    (now : Time) (r : LifecycleRecord) → Inv r → IsClosed r.stages → Inv (completed_record now r)
completed-Inv now r v closed = elim (Bool-cases (prior_stage_failed r.stages)) [
  | inl failed ↦ record {
    order = v.order;
    final = rw failed;
    stages_of = rw failed (closed, failed);
  }
  | inr clean ↦ record { order = v.order; final = rw clean; stages_of = rw clean (closed, clean) }
]

pub complete-Inv :
    (r : LifecycleRecord) (now : Time) (r' : LifecycleRecord)
    → Inv r
    → complete_record r now ≡ ok r'
    → Inv r'
complete-Inv r now r' v h = elim (complete_cases r now r' h) [
  | inl same ↦ subst Inv (sym same) v
  | inr (running, settled, c, last, verdict, p) ↦ subst Inv (sym p) (
      completed-Inv now r v (record {
        progress = subst (λ status. StagesOf status r.stages) running v.stages_of;
        settled = settled;
        cleanup = (c, last, verdict);
      }))
]

pub expire_cases :
    (now : Time) (r : LifecycleRecord)
    → (expire_record now r ≡ r)
      ⊎ (((r.status ≡ JobStatus.queued) ⊎ (r.status ≡ JobStatus.leased))
          × (expire_record now r ≡ expired_record now r))
unfolding expire_record
expire_cases now r = ground arith

-- The stages are as they were made until the runner reports.
All-waiting :
    (r : LifecycleRecord)
    → Inv r
    → (r.status ≡ JobStatus.queued) ⊎ (r.status ≡ JobStatus.leased)
    → All IsPending r.stages
All-waiting r v (inl e) = subst (λ status. StagesOf status r.stages) e v.stages_of
All-waiting r v (inr e) = subst (λ status. StagesOf status r.stages) e v.stages_of

-- The expiry of a queued or leased record.
pub expired-Inv :
    (now : Time) (r : LifecycleRecord)
    → Inv r
    → (r.status ≡ JobStatus.queued) ⊎ (r.status ≡ JobStatus.leased)
    → Inv (expired_record now r)
expired-Inv now r v waiting = record {
  order = names-mark r.stages ∙ v.order;
  final = refl;
  stages_of = mark-IsSkipped r.stages (All-waiting r v waiting);
}

pub expire-Inv : (now : Time) (r : LifecycleRecord) → Inv r → Inv (expire_record now r)
expire-Inv now r v = elim (expire_cases now r) [
  | inl same ↦ subst Inv (sym same) v
  | inr (waiting, p) ↦ subst Inv (sym p) (expired-Inv now r v waiting)
]

pub lease-Inv :
    (now : Time) (r : LifecycleRecord)
    → Inv r
    → r.status ≡ JobStatus.queued
    → Inv (lease_record now r)
unfolding lease_record
lease-Inv now r v q = record {
  order = v.order;
  final = ground (arith, v.final);
  stages_of = subst (λ status. StagesOf status r.stages) q v.stages_of;
}
