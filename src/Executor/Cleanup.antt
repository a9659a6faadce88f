-- ===== src/Executor/Cleanup.antt =====
-- executor.go: what a result says of the handler, its cleanup and the audit log.
use proof_layer.Base.{
  ◌≡◌, refl, sym, ap, ◌∙◌, ◌≢◌, ◌⊎◌, inl, inr, Bool, false, String, Option, none, some, List, [],
  ◌∷◌, ◌++◌, ◌==◌, String_eq, map, if◌then◌else◌, Bool-cases, Option-cases, Outcome-cases,
}
use proof_layer.Runner.Limits.{cleanup_timeout}
use proof_layer.Executor.Request.{ExecutionRequest}
use proof_layer.Executor.Audit.{Event}
use proof_layer.Executor.Model.{
  Status, Result, HandlerError, deadline_exceeded, unsupported_platform, artifact_present,
  other_failure, ScenarioHandler, Executor,
}
use proof_layer.Executor.Run.{
  World, first_result, finish, execution_error_code, record_cleanup_failure, absence_code, cleanup,
  conclude, run_handler, execute,
}
use proof_layer.Executor.Refusals.{
  label, IsRegistered, IsRefused, record_event_cases, execute_cases,
}

absence_code_nonempty : (e : HandlerError) → (absence_code e == "") ≡ false
absence_code_nonempty artifact_present = refl
absence_code_nonempty _ = refl

failed_passed : Status.failed ≢ Status.passed
failed_passed e = cc

module _ (x : Executor) (w : World) (r : ExecutionRequest) where
  cleanup_failure_code :
      (log : List Event) (code : String)
      → (code == "") ≡ false
      → (code' : String) × (log' : List Event) × (record_cleanup_failure x w r log code
          ≡ (code', log'))
        × ((code' == "") ≡ false)
  unfolding record_cleanup_failure
  cleanup_failure_code log code n =
      elim (record_event_cases x w r log "scenario.cleanup" "failed" code) [
        | inl (_, e) ↦ ("audit_write_failed", log, rw (e, record_cleanup_failure) refl, refl)
        | inr (log', e, _) ↦ (code, log', rw (e, record_cleanup_failure) refl, n)
      ]

  -- The cleanup succeeded: the handler cleaned up, found nothing left, and that was recorded.
  record IsCleaned (h : ScenarioHandler) (log log' : List Event) : Type 0 where
    pub cleaned : h.cleanup r.correlation_id ≡ none
    pub absent : h.verify_absent r.correlation_id ≡ none
    pub recorded : map label log' ≡ map label log ++ (("scenario.cleanup", "passed") ∷ [])

  cleanup_cases :
      (h : ScenarioHandler) (log : List Event)
      → ((code : String) × (log' : List Event) × (cleanup x w h r log ≡ (code, log'))
          × ((code == "") ≡ false))
        ⊎ ((log' : List Event) × (cleanup x w h r log ≡ ("", log')) × IsCleaned h log log')
  unfolding cleanup
  cleanup_cases h log = elim (Outcome-cases (cleanup_timeout x.limits)) [
    | inr (inl (_, e)) ↦ failing "cleanup_failed" refl (rw (e, cleanup) refl)
    | inr (inr e) ↦ failing "cleanup_failed" refl (rw (e, cleanup) refl)
    | inl (_, e) ↦ (elim (Option-cases (h.cleanup r.correlation_id)) [
      | inr (_, f) ↦ failing "cleanup_failed" refl (rw (e, f, cleanup) refl)
      | inl f ↦ (elim (Option-cases (h.verify_absent r.correlation_id)) [
        | inr (why, g) ↦
            failing (absence_code why) (absence_code_nonempty why) (rw (e, f, g, cleanup) refl)
        | inl g ↦ (elim (record_event_cases x w r log "scenario.cleanup" "passed" "") [
          | inl (_, k) ↦
              let stopped : cleanup x w h r log ≡ ("audit_write_failed", log) =
                rw (e, f, g, k, cleanup) refl in
              inl ("audit_write_failed", log, stopped, refl)
          | inr (log', k, labels) ↦
              let done : cleanup x w h r log ≡ ("", log') = rw (e, f, g, k, cleanup) refl in
              inr (log', done, record { cleaned = f; absent = g; recorded = labels })
        ])
      ])
    ])
  ]
    where
      failing :
          (code : String)
          → (code == "") ≡ false
          → cleanup x w h r log ≡ record_cleanup_failure x w r log code
          → ((code : String) × (log' : List Event) × (cleanup x w h r log ≡ (code, log'))
              × ((code == "") ≡ false))
            ⊎ ((log' : List Event) × (cleanup x w h r log ≡ ("", log')) × IsCleaned h log log')
      failing code n e =
          let (code', log', f, n') = cleanup_failure_code log code n in inl (code', log', e ∙ f, n')

  -- The code of a failed handler is no empty text.
  execution_code_cases :
      (o : Option HandlerError) → ((execution_error_code w o == "") ≡ false) ⊎ (o ≡ none)
  unfolding execution_error_code
  execution_code_cases none = inr refl
  execution_code_cases (some deadline_exceeded) = inl refl
  execution_code_cases (some unsupported_platform) = inl (elim (Bool-cases w.timed_out) [
    | inl e ↦ rw (e, execution_error_code) refl
    | inr e ↦ rw (e, execution_error_code) refl
  ])
  execution_code_cases (some artifact_present) = inl (elim (Bool-cases w.timed_out) [
    | inl e ↦ rw (e, execution_error_code) refl
    | inr e ↦ rw (e, execution_error_code) refl
  ])
  execution_code_cases (some other_failure) = inl (elim (Bool-cases w.timed_out) [
    | inl e ↦ rw (e, execution_error_code) refl
    | inr e ↦ rw (e, execution_error_code) refl
  ])

  -- The handler returned no error, and that was recorded.
  record IsExecuted (h : ScenarioHandler) (log log' : List Event) : Type 0 where
    pub returned : h.execute r.correlation_id ≡ none
    pub recorded : map label log' ≡ map label log ++ (("scenario.execution", "passed") ∷ [])

  execution_cases :
      (h : ScenarioHandler) (log : List Event)
      → (code : String) × (log' : List Event) × (run_handler x w h r log
          ≡ (conclude w (first_result w r) code (cleanup x w h r log').0, (cleanup x w h r log').1))
        × (((code == "") ≡ false) ⊎ ((code ≡ "") × IsExecuted h log log'))
  unfolding run_handler execution_error_code
  execution_cases h log =
      let code = execution_error_code w (h.execute r.correlation_id) in
      elim (record_event_cases x w r log "scenario.execution"
        (if code == "" then "passed" else "failed") code) [
          | inl (_, e) ↦ ("audit_write_failed", log, ap rest e, inl refl)
          | inr (log', e, labels) ↦ (
            code,
            log',
            ap rest e,
            elim (execution_code_cases (h.execute r.correlation_id)) [
              | inl n ↦ inl n
              | inr f ↦ inr (
                ap (execution_error_code w) f,
                record {
                  returned = f;
                  recorded =
                      labels
                      ∙ ap
                          (λ (o : Option HandlerError).
                            map label log
                            ++ ((
                              "scenario.execution",
                              if execution_error_code w o == "" then "passed" else "failed",
                            )
                                ∷ []))
                          f;
                },
              )
            ],
          )
        ]
    where
      rest : Bool × List Event → Result × List Event
      rest y =
          let code = execution_error_code w (h.execute r.correlation_id) in
          (
            conclude w (first_result w r) (if y.0 then code else "audit_write_failed")
                (cleanup x w h r y.1).0,
            (cleanup x w h r y.1).1,
          )

  -- What the result reports of a handler that ran.
  handler_cases :
      (h : ScenarioHandler) (log : List Event)
      → (((run_handler x w h r log).0.status ≡ Status.failed)
          × ((run_handler x w h r log).0.cleanup_status ≡ Status.failed))
        ⊎ ((log' log'' : List Event) × IsCleaned h log' log''
            × (((run_handler x w h r log).0.status ≡ Status.failed)
                ⊎ ((run_handler x w h r log
                      ≡ (finish w (record (first_result w r) { status = Status.passed }) "", log''))
                    × IsExecuted h log log')))
  handler_cases h log =
      let (code, log', e, c) = execution_cases h log in
      let start = first_result w r in
      let after : String × List Event → Result × List Event =
        λ y. (conclude w start code y.0, y.1) in
      elim (cleanup_cases h log') [
        | inl (why, log'', f, n) ↦
            let g : conclude w start code why
                ≡ finish w (record start { cleanup_status = Status.failed }) why =
              rw n refl in
            let k = e ∙ ap after f in
            inl (
              ap (λ y. y.0.status) k ∙ ap (λ y. y.status) g,
              ap (λ y. y.0.cleanup_status) k ∙ ap (λ y. y.cleanup_status) g,
            )
        | inr (log'', f, d) ↦ inr (
          log',
          log'',
          d,
          elim c [
            | inl n ↦ inl (
                let g : conclude w start code "" ≡ finish w start code = rw n refl in
                ap (λ y. y.0.status) (e ∙ ap after f) ∙ ap (λ y. y.status) g)
            | inr (z, done) ↦
                inr (e ∙ ap after f ∙ ap (λ c'. (conclude w start c' "", log'')) z, done)
          ],
        )
      ]

module _ (x : Executor) (w : World) (r : ExecutionRequest) where
  -- If `Execute` reports that the execution passed, then the request is valid, the handler of its
  -- scenario returned no error, cleaned up and found nothing left, the cleanup status is passed
  -- with no error code, and the audit log holds exactly the three events of a passed execution, in
  -- their order.
  pub execute_passed :
      (execute x w r).0.status ≡ Status.passed
      → (h : ScenarioHandler) × IsRegistered x w r h
        × (h.execute r.correlation_id ≡ none)
        × (h.cleanup r.correlation_id ≡ none)
        × (h.verify_absent r.correlation_id ≡ none)
        × ((execute x w r).0.cleanup_status ≡ Status.passed)
        × ((execute x w r).0.error_code ≡ "")
        × (map label (execute x w r).1
            ≡ ("job.validation", "passed")
              ∷ (("scenario.execution", "passed") ∷ (("scenario.cleanup", "passed") ∷ [])))
  execute_passed p = elim (execute_cases x w r) [
    | inl (_, code, log, e) ↦ elim (failed_passed (sym (ap (λ y. y.0.status) e) ∙ p)) [ ]
    | inr (h, log, known, labels, e) ↦ (elim (handler_cases x w r h log) [
      | inl (f, _) ↦ elim (failed_passed (sym f ∙ sym (ap (λ y. y.0.status) e) ∙ p)) [ ]
      | inr (log', log'', d, inl f) ↦
          elim (failed_passed (sym f ∙ sym (ap (λ y. y.0.status) e) ∙ p)) [ ]
      | inr (log', log'', d, inr (f, done)) ↦
          let g = e ∙ f in
          (
            h,
            known,
            done.returned,
            d.cleaned,
            d.absent,
            ap (λ y. y.0.cleanup_status) g,
            ap (λ y. y.0.error_code) g,
            ap (λ y. map label y.1) g
                ∙ d.recorded
                ∙ ap (λ y. y ++ (("scenario.cleanup", "passed") ∷ []))
                    (done.recorded ∙ ap (λ y. y ++ (("scenario.execution", "passed") ∷ [])) labels),
          )
    ])
  ]

  -- If `Execute` reports that the cleanup passed, then the handler of the scenario cleaned up without
  -- an error and then found no artefact left, whatever its execution returned, or `Execute` stopped
  -- before it: the identity of the runner is not valid, no handler is registered for the request, the
  -- validation cannot be recorded, or the limits give no timeout, and the result is a failure.
  pub execute_cleaned :
      (execute x w r).0.cleanup_status ≡ Status.passed
      → IsRefused x w r (execute x w r)
        ⊎ ((h : ScenarioHandler) × IsRegistered x w r h
            × (h.cleanup r.correlation_id ≡ none)
            × (h.verify_absent r.correlation_id ≡ none))
  execute_cleaned p = elim (execute_cases x w r) [
    | inl refused ↦ inl refused
    | inr (h, log, known, labels, e) ↦ (elim (handler_cases x w r h log) [
      | inl (_, f) ↦ elim (failed_passed (sym f ∙ sym (ap (λ y. y.0.cleanup_status) e) ∙ p)) [ ]
      | inr (log', log'', d, _) ↦ inr (h, known, d.cleaned, d.absent)
    ])
  ]
