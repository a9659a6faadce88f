-- ===== src/Worker/Ends.antt =====
-- worker.go with the queue: a run with a leased job ends the job, and says how.
use proof_layer.Base.{
  ℕ, ◌+◌, ◌≡◌, refl, sym, ap, subst, ◌∙◌, ◌⊎◌, inl, inr, Bool, true, false, not, ◌||◌, String,
  Option, some, List, arith, ◌==◌, String_eq, Time, ok, err, before, if◌then◌else◌, All, All-map,
}
use proof_layer.Base.Assoc.{lookup, Values-lookup}
use proof_layer.Base.Int.{ℤ, pos, negsuc, ltb_ℤ}
use proof_layer.Executor.Model.{Result as Execution}
use proof_layer.RunQueue.Model.{
  QueueError, invalid_transition, Job, JobStatus, StageStatus, StageSnapshot, LifecycleRecord,
}
use proof_layer.RunQueue.Lifecycle.{is_terminal_stage_status, stage_index, index_from}
use proof_layer.RunQueue.Transitions.{
  acknowledge_record, rejected_record, update_record, update_at, valid_update,
}
use proof_layer.RunQueue.Platform.{Platform}
use proof_layer.RunQueue.Progress.{IsPending}
use proof_layer.RunQueue.Invariant.{Inv, StagesOf}
use proof_layer.RunQueue.Queue.{Queue, prune_expired}
use proof_layer.RunQueue.Methods.{lower, lease, acknowledge, update_stage, change_record}
use proof_layer.RunQueue.QueueInvariant.{QueueInv}
use proof_layer.Worker.Model.{Result, World, SearchWindow, CorrelationEvidence, non_negative}
use proof_layer.Worker.Steps.{
  Steps, return, ◌>>◌, reporting, Total, bind-Total, then-Total, reporting-Total,
}
use proof_layer.Worker.Run.{
  update_of, stage, judge_search, empty_result, first_result, run_acknowledged, run_job, with_lease,
  run_once,
}
use proof_layer.Worker.Store.{At}
use proof_layer.Worker.Advance.{Ready}
use proof_layer.Worker.Outcomes.{IsSteady, run_acknowledged-Total}
use proof_layer.Worker.QueueStore.{
  IsHeld, IsLeased, lease-IsLeased, lookup-prune, update_stage-fails, change_record-IsHeld,
  queue_control, queue_store,
}

open_pending :
    (ss : List StageSnapshot)
    → All IsPending ss
    → All (λ (s : StageSnapshot). is_terminal_stage_status s.status ≡ false) ss
open_pending ss a = All-map IsPending _ ss (λ s h. ground (arith, h.0)) a

late_update :
    (r : LifecycleRecord) (now : Time) (latency : ℤ)
    → r.status ≡ JobStatus.running
    → ltb_ℤ (pos 300_000) latency ≡ true
    → update_record r (update_of "siem_ingestion" StageStatus.passed (non_negative latency) "") now
      ≡ err invalid_transition
unfolding update_record update_at valid_update stage_index index_from
late_update r now (pos n) running late = rw (running, update_record) (ground (arith, late))
late_update r now (negsuc n) running late = absurd (ground (arith, late))

if-cases :
    {S E A : Type 0} (b : Bool) (m k : Steps S E A) (s : S) {Q : A → S → Type 0}
    → Total m s Q
    → Total k s Q
    → Total (if b then m else k) s Q
if-cases true m k s p q = p
if-cases false m k s p q = q

-- What the worker reports of the job, and how the queue's record stands.
abbrev pub IsVerdict : Result → LifecycleRecord → Type 0
IsVerdict result r =
    ((result.status ≡ "failed") × (r.status ≡ JobStatus.failed))
    ⊎ (((result.status ≡ "completed") × (r.status ≡ JobStatus.completed))
        ⊎ ((result.status ≡ "rejected") × (r.status ≡ JobStatus.rejected)))

module _ (p : Platform) (environment host : String) (clock : ℕ → Time) (w : World) where
  -- The runner's answer reaches the record.
  acknowledge-IsHeld :
      (q : Queue) (n : ℕ) (job : Job) (r r' : LifecycleRecord) (accepted : Bool)
      → IsLeased p environment host q job r
      → lower p job.job_id ≡ job.job_id
      → before (clock n) job.expires_at ≡ true
      → acknowledge_record r accepted (clock (n + 1)) ≡ ok r'
      → r'.job ≡ r.job
      → (s' : Queue × ℕ) × ((queue_control p environment host clock).acknowledge job.job_id accepted
            (q, n)
          ≡ (s', ok tt))
        × IsHeld p environment host job.job_id s'.0 r'
  unfolding acknowledge
  acknowledge-IsHeld q n job r r' accepted l low live e same =
      let q₁ = prune_expired (clock n) q in
      let kept = lookup-prune (clock n) q job r live l.apart l.covered l.found l.same in
      let held : IsHeld p environment host job.job_id q₁ r = record {
        found = ap (λ k. lookup k q₁.lifecycle) low ∙ kept;
        environment_bound = ap (λ j. j.environment_id) l.same ∙ l.bound.0;
        host_bound = ap (λ j. j.host_id) l.same ∙ l.bound.1;
      } in
      let (q', f, h') =
        change_record-IsHeld p environment host q₁ job.job_id
          (λ x. acknowledge_record x accepted (clock (n + 1))) r r' held e same in
      ((q', n + 2), ap (λ y. ((y.0, n + 2), y.1)) f, h')

  -- The job has ended as the result says.
  IsSettled : Job → Result → Queue × ℕ → Type 0
  IsSettled job result s =
      (r : LifecycleRecord) × (lookup job.job_id s.0.lifecycle ≡ some r)
      × (r.terminal ≡ true)
      × IsVerdict result r

  accepted-Total :
      (q : Queue) (n : ℕ) (job : Job) (r : LifecycleRecord)
      → IsLeased p environment host q job r
      → lower p job.job_id ≡ job.job_id
      → before (clock n) job.expires_at ≡ true
      → IsSteady w job
      → Total
          (reporting
              (first_result job)
              ((queue_control p environment host clock).acknowledge job.job_id true)
            >> run_acknowledged (queue_control p environment host clock) w (first_result job) job)
          (q, n)
          (IsSettled job)
  unfolding acknowledge_record IsSettled
  accepted-Total q n job r l low live steady =
      let r' = record r { status = JobStatus.acknowledged; updated_at = clock (n + 1) } in
      let cp = queue_control p environment host clock in
      let st = queue_store p environment host clock job.job_id in
      let e : acknowledge_record r true (clock (n + 1)) ≡ ok r' =
        rw (l.leased, acknowledge_record) refl in
      let (s₁, f, h) = acknowledge-IsHeld q n job r r' true l low live e refl in
      let v = Values-lookup Inv job.job_id r q.lifecycle l.inv.lives l.found in
      let ready : Ready 0 false r' = record {
        order = v.order;
        reported = refl;
        settled = refl;
        failed = refl;
        rest =
            open_pending r.stages (subst (λ status. StagesOf status r.stages) l.leased v.stages_of);
      } in
      then-Total (first_result job) (cp.acknowledge job.job_id true)
        (run_acknowledged cp w (first_result job) job) (q, n) (λ s. At st 0 false s) (IsSettled job)
        (s₁, tt, f, (r', h, ready))
        (λ s a.
          let (s', result, g, said) =
            run_acknowledged-Total cp w job st steady (first_result job) refl s a in
          (
            s',
            result,
            g,
            elim said [
              | inl (why, (x, h', final, ended)) ↦ (
                x,
                sym (ap (λ k. lookup k s'.0.lifecycle) low) ∙ h'.found,
                final,
                inl (why, ended),
              )
              | inr (why, (x, h', final, ended)) ↦ (
                x,
                sym (ap (λ k. lookup k s'.0.lifecycle) low) ∙ h'.found,
                final,
                inr (inl (why, ended)),
              )
            ],
          ))

  rejected-Total :
      (q : Queue) (n : ℕ) (job : Job) (r : LifecycleRecord) (result : Result)
      → IsLeased p environment host q job r
      → lower p job.job_id ≡ job.job_id
      → before (clock n) job.expires_at ≡ true
      → result.status ≡ "rejected"
      → Total
          (reporting
              (first_result job)
              ((queue_control p environment host clock).acknowledge job.job_id false)
            >> return result)
          (q, n)
          (IsSettled job)
  unfolding acknowledge_record IsSettled
  rejected-Total q n job r result l low live why =
      let r' = rejected_record (clock (n + 1)) r in
      let cp = queue_control p environment host clock in
      let e : acknowledge_record r false (clock (n + 1)) ≡ ok r' =
        rw (l.leased, acknowledge_record) refl in
      let (s₁, f, h) = acknowledge-IsHeld q n job r r' false l low live e refl in
      then-Total (first_result job) (cp.acknowledge job.job_id false) (return result) (q, n)
        (λ s. IsHeld p environment host job.job_id s.0 r') (IsSettled job) (s₁, tt, f, h)
        (λ s h'. (
          s,
          result,
          refl,
          (r', sym (ap (λ k. lookup k s.0.lifecycle) low) ∙ h'.found, refl, inr (inr (why, refl))),
        ))

  run_job-Total :
      (q : Queue) (n : ℕ) (job : Job) (r : LifecycleRecord)
      → IsLeased p environment host q job r
      → lower p job.job_id ≡ job.job_id
      → before (clock n) job.expires_at ≡ true
      → IsSteady w job
      → Total (run_job (queue_control p environment host clock) w job) (q, n) (IsSettled job)
  unfolding run_job
  run_job-Total q n job r l low live steady =
      if-cases
        (not (job.scenario_id == "windows-process-marker") || not (job.scenario_version == "0.1.0"))
        _ _ (q, n)
        (rejected-Total q n job r
          (record (first_result job) {
            status = "rejected";
            error_code = "scenario_not_supported_by_worker";
          })
          l low live refl)
        (accepted-Total q n job r l low live steady)

  -- If the queue leases a job to the runner, then `RunOnce` returns without an error, and in the
  -- queue that it leaves the job has ended: its record is terminal, and it is failed, completed or
  -- rejected as the result of `RunOnce` says. This is for a queue whose invariant holds, a job
  -- whose identifier is in lower case and which is not past its expiry when it is acknowledged, and
  -- for dependencies that return without a panic, that report latencies of at most five minutes, and
  -- that have cleaned up after an execution that passed.
  pub run_once_ends :
      (q : Queue) (n : ℕ) (job : Job)
      → QueueInv q
      → (lease p q environment host (clock n) (clock (n + 1))).1 ≡ ok (some job)
      → lower p job.job_id ≡ job.job_id
      → before (clock (n + 2)) job.expires_at ≡ true
      → IsSteady w job
      → (s' : Queue × ℕ) × (result : Result) × (run_once
            (queue_control p environment host clock)
            w
            (q, n)
          ≡ (s', ok result))
        × (r : LifecycleRecord) × (lookup job.job_id s'.0.lifecycle ≡ some r)
        × (r.terminal ≡ true)
        × IsVerdict result r
  unfolding run_once with_lease IsSettled
  run_once_ends q n job v h low live steady =
      let cp = queue_control p environment host clock in
      let q₁ = (lease p q environment host (clock n) (clock (n + 1))).0 in
      let (r, l) = lease-IsLeased p environment host q (clock n) (clock (n + 1)) job v h in
      let next : Option Job → Steps (Queue × ℕ) (Result × QueueError) Result = with_lease cp w in
      let (s', result, e, (r', found, final, verdict)) =
        bind-Total (reporting empty_result cp.lease) next (q, n)
          (λ o s. (o ≡ some job) × (s ≡ (q₁, n + 2))) (IsSettled job)
          (reporting-Total empty_result cp.lease (q, n) _
            ((q₁, n + 2), some job, ap (λ o. ((q₁, n + 2), o)) h, (refl, refl)))
          (λ o s a.
            subst (λ x. Total (next x) s (IsSettled job)) (sym a.0)
              (subst (λ y. Total (run_job cp w job) y (IsSettled job)) (sym a.1)
                (run_job-Total q₁ (n + 2) job r l low live steady))) in
      (s', result, e, r', found, final, verdict)

  -- If the search reports that the event was ingested after more than five minutes, then the run of
  -- a job that is running ends there with the queue's error, and the queue is as it was: the job
  -- stays running.
  pub late_ingestion-stops :
      (q : Queue) (n : ℕ) (job : Job) (r : LifecycleRecord) (result : Result)
      (execution : Execution) (window : SearchWindow) (found : CorrelationEvidence)
      → IsHeld p environment host job.job_id q r
      → r.status ≡ JobStatus.running
      → ltb_ℤ (pos 300_000) found.ingestion_latency_ms ≡ true
      → judge_search
          (queue_control p environment host clock)
          w
          result
          job
          execution
          window
          (ok found)
          (q, n)
        ≡ ((q, n + 1), err (result, invalid_transition))
  unfolding judge_search stage update_stage change_record
  late_ingestion-stops q n job r result execution window found held running late =
      let u =
        update_of "siem_ingestion" StageStatus.passed (non_negative found.ingestion_latency_ms)
          "" in
      let refused : update_record r u (clock n) ≡ err invalid_transition =
        late_update r (clock n) found.ingestion_latency_ms running late in
      let answered =
        update_stage-fails p environment host q job.job_id u (clock n) r invalid_transition held
          refused in
      rw answered refl
