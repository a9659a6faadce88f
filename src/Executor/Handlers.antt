-- ===== src/Executor/Handlers.antt =====
-- runner/internal/executor: handler.go, process_marker.go, registry_canary.go and
-- scheduled_task_canary.go. What the operating system does is a parameter.
use Prim.Native.String.{◌++◌ as append_text}
use proof_layer.Base.{String, Option, none, some, [], ◌∷◌, if◌then◌else◌, nat_eq, ◌&&◌}
use Prim.Native.Char.{code}
use proof_layer.Base.Assoc.{Assoc}
use proof_layer.Executor.Identity.{valid_correlation}
use proof_layer.Executor.Model.{HandlerError, other_failure, ScenarioHandler}

-- The functions with a file for each operating system, by the name of what they make, and the error
-- of the context at each of the two calls of `noCleanup`.
pub record Host : Type 0 where
  pub run_process_marker : String → Option HandlerError
  pub run_registry_canary : String → Option HandlerError
  pub cleanup_registry_canary : String → Option HandlerError
  pub verify_registry_canary_absent : String → Option HandlerError
  pub run_scheduled_task_canary : String → Option HandlerError
  pub cleanup_scheduled_task_canary : String → Option HandlerError
  pub verify_scheduled_task_canary_absent : String → Option HandlerError
  pub error_at_cleanup : Option HandlerError
  pub error_at_verify_absent : Option HandlerError

-- `strings.TrimPrefix(id, "PL-")`
abbrev trim_prefix : String → String
trim_prefix (String.◌∷◌ a (String.◌∷◌ b (String.◌∷◌ c rest))) =
    if nat_eq (code a) b'P' && nat_eq (code b) b'L' && nat_eq (code c) b'-'
    then rest
    else String.◌∷◌ a (String.◌∷◌ b (String.◌∷◌ c rest))
trim_prefix s = s

-- `registryCanaryValueName` and `scheduledTaskCanaryName`; `none` is their error.
unfoldable pub canary_name : String → Option String
canary_name id =
    if valid_correlation id then some (append_text "ProofLayer_" (trim_prefix id)) else none

-- A function that checks the correlation ID before it calls the operating system.
unfoldable pub with_name : (String → Option HandlerError) → String → Option HandlerError
unfolding canary_name
with_name call id = elim (canary_name id) [ none ↦ some other_failure | some name ↦ call name ]

-- `RunProcessMarker`
unfoldable pub emit_process_marker : Host → String → Option HandlerError
emit_process_marker h id =
    if valid_correlation id then h.run_process_marker id else some other_failure

abbrev pub process_marker_handler : Host → ScenarioHandler
process_marker_handler h = record {
  execute = emit_process_marker h;
  cleanup = λ _. h.error_at_cleanup;
  verify_absent = λ _. h.error_at_verify_absent;
}

abbrev pub registry_canary_handler : Host → ScenarioHandler
registry_canary_handler h = record {
  execute = with_name h.run_registry_canary;
  cleanup = with_name h.cleanup_registry_canary;
  verify_absent = with_name h.verify_registry_canary_absent;
}

abbrev pub scheduled_task_canary_handler : Host → ScenarioHandler
scheduled_task_canary_handler h = record {
  execute = with_name h.run_scheduled_task_canary;
  cleanup = with_name h.cleanup_scheduled_task_canary;
  verify_absent = with_name h.verify_scheduled_task_canary_absent;
}

-- `builtInHandlers`
abbrev pub built_in_handlers : Host → Assoc String ScenarioHandler
built_in_handlers h =
    ("builtin.emit_process_marker", process_marker_handler h)
    ∷ ("builtin.create_registry_canary", registry_canary_handler h)
    ∷ ("builtin.create_scheduled_task_canary", scheduled_task_canary_handler h)
    ∷ []
