-- ===== src/Executor/Refusals.antt =====
-- executor.go: what stops an execution before its handler is called.
use proof_layer.Base.{
  ◌≡◌, refl, ap, ◌⊎◌, inl, inr, true, false, String, some, List, [], ◌∷◌, ◌++◌, String_eq, is_ok,
  map, ok, Bool-cases, Option-cases, Outcome-cases,
}
use mathlib.Core.List.{map-append}
use proof_layer.Base.Assoc.{lookup}
use proof_layer.Runner.Catalog.{Definition}
use proof_layer.Runner.Limits.{execution_timeout}
use proof_layer.Executor.Identity.{validate_identity}
use proof_layer.Executor.Request.{ExecutionRequest, validate_request}
use proof_layer.Executor.Audit.{Event, append_event}
use proof_layer.Executor.Model.{Result, ScenarioHandler, Executor}
use proof_layer.Executor.Run.{
  World, first_result, finish, event_of, record_event, run_handler, run_validated, run_request,
  execute,
}

abbrev pub label : Event → String × String
label e = (e.event_type, e.outcome)

module _ (x : Executor) (w : World) (r : ExecutionRequest) where
  -- The request is valid, and its scenario names this handler.
  unfoldable pub IsRegistered : ScenarioHandler → Type 0
  IsRegistered h =
      (definition : Definition) × (validate_request r x.identity x.catalog ≡ ok definition)
      × (lookup definition.handler x.handlers ≡ some h)

  -- What stops `Execute` before it calls a handler: the identity of the runner is not valid, no
  -- handler is registered for the request, the validation cannot be recorded, or the limits give no
  -- timeout.
  pub data Obstacle : Type 0 where
    unidentified : is_ok (validate_identity x.identity w.started_at) ≡ false → Obstacle
    unregistered : ((h : ScenarioHandler) → ¬ IsRegistered h) → Obstacle
    unrecorded :
        append_event w.writes [] (event_of x w r [] "job.validation" "passed" "") ≡ false → Obstacle
    unlimited : is_ok (execution_timeout x.limits) ≡ false → Obstacle

  -- There is such an obstacle, and the answer is a failure that no handler has a part in.
  abbrev pub IsRefused : Result × List Event → Type 0
  IsRefused answer =
      Obstacle
      × (code : String) × (log : List Event) × (answer ≡ (finish w (first_result w r) code, log))

  -- The log after an event that is appended has it at its end.
  pub record_event_cases :
      (log : List Event) (event_type outcome code : String)
      → ((append_event w.writes log (event_of x w r log event_type outcome code) ≡ false)
          × (record_event x w r log event_type outcome code ≡ (false, log)))
        ⊎ ((log' : List Event) × (record_event x w r log event_type outcome code ≡ (true, log'))
            × (map label log' ≡ map label log ++ ((event_type, outcome) ∷ [])))
  unfolding record_event
  record_event_cases log event_type outcome code =
      let e = event_of x w r log event_type outcome code in
      elim (Bool-cases (append_event w.writes log e)) [
        | inl f ↦ inr (log ++ (e ∷ []), rw (f, record_event) refl, map-append label log (e ∷ []))
        | inr f ↦ inl (f, rw (f, record_event) refl)
      ]

  validated_cases :
      (h : ScenarioHandler)
      → IsRefused (run_validated x w h r)
        ⊎ ((log : List Event) × (map label log ≡ ("job.validation", "passed") ∷ [])
            × (run_validated x w h r ≡ run_handler x w h r log))
  unfolding run_validated
  validated_cases h = elim (record_event_cases [] "job.validation" "passed" "") [
    | inl (lost, e) ↦ inl (unrecorded lost, "audit_write_failed", [], rw (e, run_validated) refl)
    | inr (log, e, labels) ↦ (elim (Outcome-cases (execution_timeout x.limits)) [
      | inl (_, f) ↦
          inr (log, labels, rw (e, f, run_validated) (ap (λ y. run_handler x w h r y.1) e))
      | inr (inl (_, f)) ↦ inl (
        unlimited (ap is_ok f),
        "invalid_request",
        log,
        rw (e, f, run_validated) (ap (λ y. (finish w (first_result w r) "invalid_request", y.1)) e),
      )
      | inr (inr f) ↦ inl (
        unlimited (ap is_ok f),
        "invalid_request",
        log,
        rw (e, f, run_validated) (ap (λ y. (finish w (first_result w r) "invalid_request", y.1)) e),
      )
    ])
  ]

  -- `Execute` refuses, or calls a handler after it has recorded the validation.
  pub execute_cases :
      IsRefused (execute x w r)
      ⊎ ((h : ScenarioHandler) × (log : List Event) × IsRegistered h
          × (map label log ≡ ("job.validation", "passed") ∷ [])
          × (execute x w r ≡ run_handler x w h r log))
  unfolding execute run_request IsRegistered
  execute_cases = elim (Outcome-cases (validate_identity x.identity w.started_at)) [
    | inr (inl (_, e)) ↦
        inl (unidentified (ap is_ok e), "invalid_identity", [], rw (e, execute) refl)
    | inr (inr e) ↦ inl (unidentified (ap is_ok e), "invalid_identity", [], rw (e, execute) refl)
    | inl (_, e) ↦ (elim (Outcome-cases (validate_request r x.identity x.catalog)) [
      | inr (inl (_, f)) ↦ inl (
        unregistered (λ h known. cc),
        "invalid_request",
        [],
        rw (e, f, execute, run_request) refl,
      )
      | inr (inr f) ↦ inl (
        unregistered (λ h known. cc),
        "invalid_request",
        [],
        rw (e, f, execute, run_request) refl,
      )
      | inl (definition, f) ↦ (elim (Option-cases (lookup definition.handler x.handlers)) [
        | inl g ↦ inl (
          unregistered (λ h known. cc),
          "invalid_request",
          [],
          rw (e, f, g, execute, run_request) refl,
        )
        | inr (h, g) ↦ (elim (validated_cases h) [
          | inl (why, code, log, k) ↦ inl (why, code, log, rw (e, f, g, execute, run_request) k)
          | inr (log, labels, k) ↦
              inr (h, log, (definition, f, g), labels, rw (e, f, g, execute, run_request) k)
        ])
      ])
    ])
  ]
