-- ===== src/RunQueue/Transitions.antt =====
-- control-plane/internal/runqueue/lifecycle.go and queue.go: what the queue's methods do to one
-- lifecycle record. The functions take the record that the method fetches from the map, and what
-- the clock shows; a result `ok r` with the record unchanged is Go's early `return nil`.
use proof_layer.Base.{
  ℕ, Bool, true, false, not, ◌&&◌, ◌||◌, none, some, List, Time, if◌then◌else◌, ◌==◌, String_eq,
  Outcome, ok, err, ◌>>=◌, ◌>>◌, guard, or_panic, get_elem?, set, any, every, last?, before,
}
use proof_layer.Base.Int.{pos, ltb_ℤ, Int_eq}
use proof_layer.RunQueue.Model.{
  JobStatus, StageStatus, StageSnapshot, StageUpdate, LifecycleRecord, StatusSnapshot, QueueError,
  invalid_transition, JobStatus_eq, StageStatus_eq,
}
use proof_layer.RunQueue.Lifecycle.{
  is_terminal_stage_status, valid_stage_status, stage_index, valid_detail, slice_to,
  prior_stages_terminal, prior_stage_failed, latency_value, mark_pending_not_tested,
}

-- The writes of `Acknowledge` for a job that the runner rejects.
abbrev pub rejected_record : Time → LifecycleRecord → LifecycleRecord
rejected_record now r = record r {
  status = JobStatus.rejected;
  updated_at = now;
  terminal = true;
  stages = mark_pending_not_tested r.stages;
}

-- `Acknowledge` after the record is fetched.
unfoldable pub acknowledge_record :
    LifecycleRecord → Bool → Time → Outcome QueueError LifecycleRecord
acknowledge_record r true now =
    if r.status == JobStatus.acknowledged
      || r.status == JobStatus.running
      || r.status == JobStatus.completed
      || r.status == JobStatus.failed
    then ok r
    else if not (r.status == JobStatus.leased)
    then err invalid_transition
    else ok (record r { status = JobStatus.acknowledged; updated_at = now })
acknowledge_record r false now =
    if r.status == JobStatus.rejected
    then ok r
    else if not (r.status == JobStatus.leased)
    then err invalid_transition
    else ok (rejected_record now r)

-- The snapshot that an accepted update leaves at its stage.
abbrev pub written_stage : StageSnapshot → StageUpdate → StageSnapshot
written_stage current u = record current {
  status = u.status;
  detail_code = u.detail_code;
  latency_ms =
      if u.status == StageStatus.running || u.status == StageStatus.pending
      then none
      else some u.latency_ms;
}

-- The end of `UpdateStage`: the stage at `i` is `current`, and the guards have passed.
unfoldable pub write_stage :
    LifecycleRecord → StageUpdate → Time → ℕ → StageSnapshot → Outcome QueueError LifecycleRecord
write_stage r u now i current =
    if is_terminal_stage_status current.status
    then (if current.status == u.status
          && current.detail_code == u.detail_code
          && latency_value current.latency_ms == u.latency_ms
        then ok r
        else err invalid_transition)
    else if current.status == StageStatus.running && u.status == StageStatus.pending
    then err invalid_transition
    else ok (record r {
      stages = set r.stages i (written_stage current u);
      status = JobStatus.running;
      updated_at = now;
    })

-- The guards of `UpdateStage` on the update itself, in the order of the source.
unfoldable pub valid_update : StageUpdate → Outcome QueueError (Unit {0})
valid_update u = do
  guard
      (valid_stage_status u.status
        && not (ltb_ℤ u.latency_ms (pos 0))
        && not (ltb_ℤ (pos 300_000) u.latency_ms))
      invalid_transition
  guard (valid_detail u) invalid_transition

-- The guards on the stages before the updated one.
unfoldable pub valid_order : List StageSnapshot → StageUpdate → Outcome QueueError (Unit {0})
valid_order prior u = do
  guard (prior_stages_terminal prior) invalid_transition
  guard
      (not (
        u.status == StageStatus.not_tested
        && ((not (prior_stage_failed prior) && not (u.stage == "alert")) || u.stage == "cleanup")))
      invalid_transition
  guard
      (not (
        prior_stage_failed prior
        && not (u.stage == "cleanup")
        && not (u.status == StageStatus.not_tested)))
      invalid_transition

unfoldable pub update_at :
    LifecycleRecord → StageUpdate → Time → ℕ → Outcome QueueError LifecycleRecord
update_at r u now i = do
  valid_update u
  prior ← or_panic (slice_to i r.stages)
  valid_order prior u
  current ← or_panic (get_elem? r.stages i)
  write_stage r u now i current

-- `UpdateStage` after the record is fetched.
unfoldable pub update_record :
    LifecycleRecord → StageUpdate → Time → Outcome QueueError LifecycleRecord
update_record r u now =
    if not (r.status == JobStatus.acknowledged) && not (r.status == JobStatus.running)
    then err invalid_transition
    else (elim (stage_index u.stage) [
      | none ↦ err invalid_transition
      | some i ↦ update_at r u now i
    ])

-- The writes of `Complete`.
abbrev pub completed_record : Time → LifecycleRecord → LifecycleRecord
completed_record now r = record r {
  status =
      if any (λ stage. stage.status == StageStatus.failed) r.stages
      then JobStatus.failed
      else JobStatus.completed;
  updated_at = now;
  terminal = true;
}

-- `Complete` after the record is fetched.
unfoldable pub complete_record : LifecycleRecord → Time → Outcome QueueError LifecycleRecord
complete_record r now =
    if r.status == JobStatus.completed || r.status == JobStatus.failed then ok r else do
      guard (r.status == JobStatus.running) invalid_transition
      guard (every (λ stage. is_terminal_stage_status stage.status) r.stages) invalid_transition
      cleanup ← or_panic (last? r.stages)
      guard (cleanup.status == StageStatus.passed || cleanup.status == StageStatus.failed)
          invalid_transition
      ok (completed_record now r)

-- The writes of `pruneExpiredLocked` to an expired record.
abbrev pub expired_record : Time → LifecycleRecord → LifecycleRecord
expired_record now r = record r {
  status = JobStatus.expired;
  updated_at = now;
  terminal = true;
  stages = mark_pending_not_tested r.stages;
}

-- The second loop of `pruneExpiredLocked`: a queued or leased job past its expiry ends.
unfoldable pub expire_record : Time → LifecycleRecord → LifecycleRecord
expire_record now r =
    if not (before now r.job.expires_at)
      && (r.status == JobStatus.queued || r.status == JobStatus.leased)
      && not r.terminal
    then expired_record now r
    else r

-- The writes of `Lease` to the record of the job that it hands out.
unfoldable pub lease_record : Time → LifecycleRecord → LifecycleRecord
lease_record now r = record r { status = JobStatus.leased; updated_at = now }

-- `snapshot`
unfoldable pub snapshot : LifecycleRecord → StatusSnapshot
snapshot r = record {
  schema_version = "1.0";
  job_id = r.job.job_id;
  correlation_id = r.job.correlation_id;
  status = r.status;
  updated_at = r.updated_at;
  expires_at = r.job.expires_at;
  terminal = r.terminal;
  stages = r.stages;
}
