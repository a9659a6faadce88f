-- ===== src/RunQueue/Verdicts.antt =====
-- lifecycle.go: what the final status of a job says about its stages.
use proof_layer.Base.{
  ◌≡◌, subst, ◌⊎◌, inl, inr, true, Bool, String, some, arith, All, String_eq, Time, ok, last?,
}
use proof_layer.Base.Assoc.{lookup, Values-lookup}
use proof_layer.RunQueue.Model.{JobStatus, StageStatus, StageSnapshot, LifecycleRecord, StageUpdate}
use proof_layer.RunQueue.Lifecycle.{stage_order, prior_stages_terminal, prior_stage_failed}
use proof_layer.RunQueue.Transitions.{
  acknowledge_record, update_record, complete_record, expire_record,
}
use proof_layer.RunQueue.Platform.{Platform}
use proof_layer.RunQueue.Progress.{names, IsProven, Progress-IsProven}
use proof_layer.RunQueue.Invariant.{Inv, StagesOf, acknowledge_cases, complete_cases, expire_cases}
use proof_layer.RunQueue.Update.{update_cases}
use proof_layer.RunQueue.Queue.{Queue, Config}
use proof_layer.RunQueue.Runs.{Reached, Reached-QueueInv}

-- In every queue that a run reaches, a job with the status completed has the seven stages in their
-- order, each of them passed, but that the alert may have been left untested.
pub completed-IsProven :
    (p : Platform) (c : Config) (q : Queue) (job_id : String) (r : LifecycleRecord)
    → Reached p c q
    → lookup job_id q.lifecycle ≡ some r
    → r.status ≡ JobStatus.completed
    → (names r.stages ≡ stage_order) × All IsProven r.stages
completed-IsProven p c q job_id r reached found status =
    let v = Values-lookup Inv job_id r q.lifecycle (Reached-QueueInv p reached).lives found in
    let (closed, clean) = subst (λ s. StagesOf s r.stages) status v.stages_of in
    (v.order, Progress-IsProven r.stages closed.progress closed.settled clean)

-- In every queue that a run reaches, a job with the status failed has a failed stage, a verdict for
-- each stage, and a cleanup that passed or failed.
pub failed_has_cause :
    (p : Platform) (c : Config) (q : Queue) (job_id : String) (r : LifecycleRecord)
    → Reached p c q
    → lookup job_id q.lifecycle ≡ some r
    → r.status ≡ JobStatus.failed
    → (prior_stage_failed r.stages ≡ true)
      × (prior_stages_terminal r.stages ≡ true)
      × (cleanup : StageSnapshot) × (last? r.stages ≡ some cleanup)
      × ((cleanup.status ≡ StageStatus.passed) ⊎ (cleanup.status ≡ StageStatus.failed))
failed_has_cause p c q job_id r reached found status =
    let v = Values-lookup Inv job_id r q.lifecycle (Reached-QueueInv p reached).lives found in
    let (closed, broken) = subst (λ s. StagesOf s r.stages) status v.stages_of in
    let (cleanup, last, verdict) = closed.cleanup in
    (broken, closed.settled, cleanup, last, verdict)

-- A record in a final status is changed by no acknowledgement, update, completion or expiry.
pub final_absorbs :
    (r r' : LifecycleRecord) (accepted : Bool) (update : StageUpdate) (now : Time)
    → Inv r
    → r.terminal ≡ true
    → (acknowledge_record r accepted now ≡ ok r' → r' ≡ r)
      × (update_record r update now ≡ ok r' → r' ≡ r)
      × (complete_record r now ≡ ok r' → r' ≡ r)
      × (expire_record now r ≡ r)
final_absorbs r r' accepted update now v final = (
  (λ h. ground (arith, acknowledge_cases r accepted now r' h, v.final)),
  (λ h. elim (update_cases r update now r' h) [
    | inl same ↦ same
    | inr w ↦ absurd (ground (arith, w.open_job, v.final))
  ]),
  (λ h. elim (complete_cases r now r' h) [
    | inl same ↦ same
    | inr (running, _, _, _, _, _) ↦ absurd (ground (arith, v.final))
  ]),
  elim (expire_cases now r) [
    | inl same ↦ same
    | inr (waiting, _) ↦ absurd (ground (arith, v.final))
  ],
)
