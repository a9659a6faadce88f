-- ===== src/Worker/Outcomes.antt =====
-- worker.go: a run after the acknowledgement ends its job.
use proof_layer.Base.{
  ◌≡◌, refl, sym, subst, ◌≢◌, ◌⊎◌, inl, inr, Bool, true, false, not, arith, String_eq, Outcome, ok,
  panic, Bool-cases, Outcome-cases, if◌then◌else◌,
}
use proof_layer.Base.Assoc.{lookup}
use proof_layer.Base.Int.{ℤ, pos, negsuc}
use proof_layer.Runner.Polling.{SearchError, approved_polling_policy, poll_exact}
use proof_layer.RunQueue.Model.{Job, StageStatus, StageStatus_eq}
use proof_layer.RunQueue.Lifecycle.{stage_index, index_from, valid_detail, detail_policies}
use proof_layer.Executor.Model.{Status, Result as Execution}
use proof_layer.Worker.Model.{
  Result, ControlPlane, Evidence, CorrelationEvidence, SearchWindow, ObserverError, World,
  non_negative, elapsed_ms, window_of, execution_request, event_not_found, evidence_limit,
  windows_event_query, windows_event_xml, endpoint_failure_code, endpoint_result_code,
}
use proof_layer.Worker.Steps.{Steps, return, ◌>>◌, reporting, Total, then-Total}
use proof_layer.Worker.Run.{
  update_of, stage, fields_passed, is_detected, publish_cleanup, fail_siem, finish_passed,
  run_alert, judge_detection, run_detection, judge_fields, run_fields, judge_search, judge_export,
  run_siem, judge_endpoint, run_endpoint, judge_execution, run_acknowledged,
}
use proof_layer.Worker.Store.{
  Store, IsQuick, update_of-valid, At, IsPublished, IsEnded, advance-Total, complete-Total,
}
use proof_layer.Worker.Finish.{cleanup_failed, publish_cleanup-Total}
use proof_layer.Worker.Reports.{IsReported, failing, beginning, passing}

-- What a run needs of the other dependencies: they return, they measure at most five minutes, and
-- an execution that the executor passes has been cleaned up.
pub record IsSteady (w : World) (job : Job) : Type 0 where
  pub executed : IsQuick (w.execute (execution_request job)).latency_ms
  pub cleaned :
      (w.execute (execution_request job)).status ≡ Status.passed
      → (w.execute (execution_request job)).cleanup_status ≡ Status.passed
  pub observes : w.observe job.correlation_id (w.execute (execution_request job)).started_at ≢ panic
  pub observed :
      (evidence : Evidence)
      → w.observe job.correlation_id (w.execute (execution_request job)).started_at ≡ ok evidence
      → IsQuick (elapsed_ms (w.execute (execution_request job)).started_at evidence.observed_at_utc)
  pub unobserved :
      IsQuick (elapsed_ms (w.execute (execution_request job)).started_at w.endpoint_failed_at)
  pub exports : (evidence : Evidence) → w.export job.correlation_id evidence ≢ panic
  pub searches :
      (window : SearchWindow)
      → (poll_exact (w.search_exact job.correlation_id window) w.ends approved_polling_policy).1
        ≢ panic
  pub ingested :
      (window : SearchWindow) (found : CorrelationEvidence)
      → (poll_exact (w.search_exact job.correlation_id window) w.ends approved_polling_policy).1
        ≡ ok found
      → IsQuick found.ingestion_latency_ms
  pub compared : IsQuick (elapsed_ms w.field_started_at w.field_ended_at)
  pub detected : IsQuick (elapsed_ms w.detection_started_at w.detection_ended_at)

Status-cases : (status : Status) → (status ≡ Status.passed) ⊎ (status ≡ Status.failed)
Status-cases Status.passed = inl refl
Status-cases Status.failed = inr refl

-- Both branches return.
if-Total :
    {S E A : Type 0} (b : Bool) (m k : Steps S E A) (s : S) {Q : A → S → Type 0}
    → Total m s Q
    → Total k s Q
    → Total (if not b then m else k) s Q
if-Total true m k s p q = q
if-Total false m k s p q = p

-- Each code of a failed observation is one that the queue takes.
failure_code_valid :
    (e : ObserverError) (latency : ℤ)
    → valid_detail
        (update_of "endpoint_telemetry" StageStatus.failed latency (endpoint_failure_code e))
      ≡ true
unfolding endpoint_failure_code valid_detail lookup detail_policies
failure_code_valid e latency = elim (Bool-cases (e event_not_found)) [
  | inl f ↦ rw (f, endpoint_failure_code) refl
  | inr f ↦ (elim (Bool-cases (e evidence_limit)) [
    | inl g ↦ rw (f, g, endpoint_failure_code) refl
    | inr g ↦ (elim (Bool-cases (e windows_event_query)) [
      | inl h ↦ rw (f, g, h, endpoint_failure_code) refl
      | inr h ↦ (elim (Bool-cases (e windows_event_xml)) [
        | inl k ↦ rw (f, g, h, k, endpoint_failure_code) refl
        | inr k ↦ rw (f, g, h, k, endpoint_failure_code) refl
      ])
    ])
  ])
]

IsQuick-non_negative : (l : ℤ) → IsQuick l → IsQuick (non_negative l)
IsQuick-non_negative (pos n) q = ground (arith, q)
IsQuick-non_negative (negsuc n) q = ground arith

module _ {S E : Type 0} (cp : ControlPlane S E) (w : World) (job : Job) (st : Store cp job.job_id)
    (steady : IsSteady w job) (result : Result) (fresh : result.status ≡ "failed") where
  abbrev execution : Execution
  execution = w.execute (execution_request job)

  finish_passed-Total :
      (s : S)
      → execution.cleanup_status ≡ Status.passed
      → At st 6 false s
      → Total (finish_passed cp w result job execution) s (IsReported st)
  unfolding finish_passed
  finish_passed-Total s clean a =
      let tested : cleanup_failed execution ≡ false = rw clean refl in
      let done = record result { status = "completed" } in
      then-Total result (publish_cleanup cp w job.job_id execution)
        (reporting result (cp.complete job.job_id) >> return done) s (λ s'. IsPublished st false s')
        (IsReported st)
        (subst
          (λ b. Total (publish_cleanup cp w job.job_id execution) s (λ _ s'. IsPublished st b s'))
          tested (publish_cleanup-Total cp w job.job_id st false execution s a))
        (λ s₁ a₁.
          then-Total result (cp.complete job.job_id) (return done) s₁ (λ s'. IsEnded st false s')
            (IsReported st) (complete-Total st false s₁ a₁)
            (λ s₂ a₂. (s₂, done, refl, inr (refl, a₂))))

  run_alert-Total :
      (s : S)
      → execution.cleanup_status ≡ Status.passed
      → At st 5 false s
      → Total (run_alert cp w result job execution) s (IsReported st)
  unfolding run_alert stage stage_index index_from valid_detail
  run_alert-Total s clean a =
      let u = update_of "alert" StageStatus.not_tested (pos 0) "" in
      then-Total result (cp.update_stage job.job_id u) (finish_passed cp w result job execution) s
        (λ s'. At st 6 false s') (IsReported st)
        (advance-Total st 5 false u s a refl refl
          (update_of-valid "alert" StageStatus.not_tested (pos 0) "" refl refl refl) refl refl)
        (λ s₁ a₁. finish_passed-Total s₁ clean a₁)

  judge_detection-Total :
      (window : SearchWindow) (s : S)
      → execution.cleanup_status ≡ Status.passed
      → At st 4 false s
      → Total (judge_detection cp w result job execution window) s (IsReported st)
  unfolding judge_detection stage_index index_from valid_detail lookup detail_policies
  judge_detection-Total window s clean a =
      let latency = elapsed_ms w.detection_started_at w.detection_ended_at in
      if-Total (is_detected (w.search_detection job.correlation_id window)) _ _ s
        (failing cp w job st result fresh "detection" 4 latency "detection_result_absent"
          "detection_result_absent" execution s a refl refl steady.detected refl
          (refl, refl, refl, refl))
        (passing cp w job st result fresh 4 "detection" latency
          (run_alert cp w result job execution) s a refl refl steady.detected
          (λ s₁ a₁. run_alert-Total s₁ clean a₁))

  judge_fields-Total :
      (window : SearchWindow) (evidence : CorrelationEvidence) (s : S)
      → execution.cleanup_status ≡ Status.passed
      → At st 3 false s
      → Total (judge_fields cp w result job execution window evidence) s (IsReported st)
  unfolding judge_fields run_detection stage_index index_from valid_detail lookup detail_policies
  judge_fields-Total window evidence s clean a =
      let latency = elapsed_ms w.field_started_at w.field_ended_at in
      if-Total (fields_passed evidence) _ _ s
        (failing cp w job st result fresh "field_validation" 3 latency "required_field_missing"
          "required_field_missing" execution s a refl refl steady.compared refl
          ((refl, refl, refl, (refl, refl, refl, refl))))
        (passing cp w job st result fresh 3 "field_validation" latency
          (run_detection cp w result job execution window) s a refl refl steady.compared
          (λ s₁ a₁.
            beginning cp w job st result fresh 4 "detection" ""
              (judge_detection cp w result job execution window) s₁ a₁ refl refl refl
              (λ s₂ a₂. judge_detection-Total window s₂ clean a₂)))

  fail_siem-Total :
      (s : S)
      → At st 2 false s
      → Total (fail_siem cp w result job.job_id execution) s (IsReported st)
  unfolding fail_siem stage_index index_from valid_detail lookup detail_policies
  fail_siem-Total s a =
      failing cp w job st result fresh "siem_ingestion" 2 (pos 0) "siem_event_missing"
        "siem_event_missing" execution s a refl refl refl refl
        (refl, refl, refl, (refl, refl, refl, (refl, refl, refl, refl)))

  judge_search-Total :
      (window : SearchWindow) (s : S)
      → execution.cleanup_status ≡ Status.passed
      → At st 2 false s
      → Total
          (judge_search cp w result job execution window
            (poll_exact
              (w.search_exact job.correlation_id window)
              w.ends
              approved_polling_policy).1)
          s
          (IsReported st)
  unfolding judge_search run_fields stage_index index_from valid_detail
  judge_search-Total window s clean a =
      let answer =
        (poll_exact (w.search_exact job.correlation_id window) w.ends approved_polling_policy).1 in
      let Goal : Outcome SearchError CorrelationEvidence → Type 0 =
        λ o. Total (judge_search cp w result job execution window o) s (IsReported st) in
      elim (Outcome-cases answer) [
        | inl (found, e) ↦ subst Goal (sym e) (
            let latency = non_negative found.ingestion_latency_ms in
            passing cp w job st result fresh 2 "siem_ingestion" latency
              (run_fields cp w result job execution window found) s a refl refl
              (IsQuick-non_negative found.ingestion_latency_ms (steady.ingested window found e))
              (λ s₁ a₁.
                beginning cp w job st result fresh 3 "field_validation" ""
                  (judge_fields cp w result job execution window found) s₁ a₁ refl refl refl
                  (λ s₂ a₂. judge_fields-Total window found s₂ clean a₂)))
        | inr (inl (_, e)) ↦ subst Goal (sym e) (fail_siem-Total s a)
        | inr (inr e) ↦ absurd (steady.searches window e)
      ]

  run_siem-Total :
      (evidence : Evidence) (s : S)
      → execution.cleanup_status ≡ Status.passed
      → At st 2 false s
      → Total (run_siem cp w result job execution evidence) s (IsReported st)
  unfolding run_siem judge_export stage_index index_from valid_detail lookup detail_policies
  run_siem-Total evidence s clean a =
      beginning cp w job st result fresh 2 "siem_ingestion" "siem_ingestion_delayed"
        (judge_export cp w result job execution (w.export job.correlation_id evidence)) s a refl
        refl refl
        (λ s₁ a₁.
          let Goal : Outcome (Unit {0}) (Unit {0}) → Type 0 =
            λ o. Total (judge_export cp w result job execution o) s₁ (IsReported st) in
          elim (Outcome-cases (w.export job.correlation_id evidence)) [
            | inl (_, e) ↦
                subst Goal (sym e)
                  (judge_search-Total (window_of execution.started_at w.window_at) s₁ clean a₁)
            | inr (inl (_, e)) ↦ subst Goal (sym e) (fail_siem-Total s₁ a₁)
            | inr (inr e) ↦ absurd (steady.exports evidence e)
          ])

  run_endpoint-Total :
      (s : S)
      → execution.cleanup_status ≡ Status.passed
      → At st 1 false s
      → Total (run_endpoint cp w result job execution) s (IsReported st)
  unfolding run_endpoint judge_endpoint stage_index index_from valid_detail lookup detail_policies
  run_endpoint-Total s clean a =
      let answer = w.observe job.correlation_id execution.started_at in
      beginning cp w job st result fresh 1 "endpoint_telemetry" "awaiting_endpoint_event"
        (judge_endpoint cp w result job execution answer) s a refl refl refl
        (λ s₁ a₁.
          let Goal : Outcome ObserverError Evidence → Type 0 =
            λ o. Total (judge_endpoint cp w result job execution o) s₁ (IsReported st) in
          elim (Outcome-cases answer) [
            | inl (evidence, e) ↦ subst Goal (sym e) (
                passing cp w job st result fresh 1 "endpoint_telemetry"
                  (elapsed_ms execution.started_at evidence.observed_at_utc)
                  (run_siem cp w result job execution evidence) s₁ a₁ refl refl
                  (steady.observed evidence e) (λ s₂ a₂. run_siem-Total evidence s₂ clean a₂))
            | inr (inl (why, e)) ↦ subst Goal (sym e) (
                let latency = elapsed_ms execution.started_at w.endpoint_failed_at in
                failing cp w job st result fresh "endpoint_telemetry" 1 latency
                  (endpoint_failure_code why) (endpoint_result_code why) execution s₁ a₁ refl refl
                  steady.unobserved (failure_code_valid why latency)
                  (
                    refl,
                    refl,
                    refl,
                    (refl, refl, refl, (refl, refl, refl, (refl, refl, refl, refl))),
                  ))
            | inr (inr e) ↦ absurd (steady.observes e)
          ])

  -- After the acknowledgement, the run returns without an error, and its job has ended as its result
  -- says.
  pub run_acknowledged-Total :
      (s : S) → At st 0 false s → Total (run_acknowledged cp w result job) s (IsReported st)
  unfolding run_acknowledged judge_execution stage_index index_from valid_detail
  run_acknowledged-Total s a =
      beginning cp w job st result fresh 0 "execution" ""
        (judge_execution cp w result job execution execution.status) s a refl refl refl
        (λ s₁ a₁.
          let Goal : Status → Type 0 =
            λ o. Total (judge_execution cp w result job execution o) s₁ (IsReported st) in
          elim (Status-cases execution.status) [
            | inl e ↦ subst Goal (sym e) (
                passing cp w job st result fresh 0 "execution" execution.latency_ms
                  (run_endpoint cp w result job execution) s₁ a₁ refl refl steady.executed
                  (λ s₂ a₂. run_endpoint-Total s₂ (steady.cleaned e) a₂))
            | inr e ↦ subst Goal (sym e) (
                failing cp w job st result fresh "execution" 0 execution.latency_ms ""
                  execution.error_code execution s₁ a₁ refl refl steady.executed refl
                  (
                    refl,
                    refl,
                    refl,
                    (
                      refl,
                      refl,
                      refl,
                      (refl, refl, refl, (refl, refl, refl, (refl, refl, refl, refl))),
                    ),
                  ))
          ])
