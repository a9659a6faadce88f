-- ===== src/Routes/Handle.antt =====
-- control-plane/internal/httpapi/runner_routes.go: `handleRunnerRoute` and the handlers behind it.
use proof_layer.Base.{
  ℕ, Bool, false, not, ◌&&◌, ◌||◌, String, Option, none, some, List, [], ◌∷◌, ◌==◌, String_eq,
  Outcome, ok, err, panic, if◌then◌else◌, any, byte_len, codes, ltb, nat_eq,
}
use proof_layer.Base.Patterns.{is_url_safe, is_char, within}
use proof_layer.RunQueue.Model.{
  QueueError, job_not_found, invalid_request, invalid_transition, Job, StageUpdate,
}
use proof_layer.RunQueue.Platform.{Platform}
use proof_layer.RunQueue.Queue.{Queue}
use proof_layer.RunQueue.Methods.{lower, lease, acknowledge, update_stage, complete}
use proof_layer.MvpStore.Store.{record_runner_seen}
use proof_layer.Verifier.Check.{matches_job_uuid}
use proof_layer.Routes.Model.{RunnerBinding, StageRequest, Response, HttpRequest, Server, Readings}
use proof_layer.Routes.Paths.{
  split_slashes, trim_left, trim_right, trim_slashes, strip_prefix, strip_suffix,
}

-- `writeError`
abbrev pub error_of : ℕ → String → Response
error_of status code = record { status = status; code = code; job = none }

abbrev pub accepted_response : Response
accepted_response = record { status = 200; code = ""; job = none }

-- `writeRunnerLifecycleError`
abbrev pub lifecycle_error : QueueError → Response
lifecycle_error job_not_found = error_of 404 "JOB_NOT_FOUND"
lifecycle_error (invalid_request _) = error_of 403 "RUNNER_IDENTITY_MISMATCH"
lifecycle_error invalid_transition = error_of 409 "JOB_TRANSITION_REJECTED"
lifecycle_error _ = error_of 500 "RUNNER_UPDATE_FAILED"

-- What a handler answers: the server after it, and the response; `none` is a panic.
abbrev pub Answer : Type 0
Answer = Server × Option Response

abbrev refuse : Server → ℕ → String → Answer
refuse server status code = (server, some (error_of status code))

-- The end of a handler whose method of the queue has been called.
abbrev pub answered : Server → Queue × Outcome QueueError (Unit {0}) → Answer
answered server (q, ok _) = (record server { queue = q }, some accepted_response)
answered server (q, err e) = (record server { queue = q }, some (lifecycle_error e))
answered server (q, panic) = (record server { queue = q }, none)

abbrev pub leased : Server → Queue × Outcome QueueError (Option Job) → Answer
leased server (q, ok none) =
    (record server { queue = q }, some (record { status = 204; code = ""; job = none }))
leased server (q, ok (some job)) =
    (record server { queue = q }, some (record { status = 200; code = ""; job = some job }))
leased server (q, err e) = (record server { queue = q }, none)
leased server (q, panic) = (record server { queue = q }, none)

-- `decodeRunnerRequest`, and what the handler does with the document.
abbrev pub with_document : {A : Type 0} → Server → Outcome Response A → (A → Answer) → Answer
with_document server (ok document) f = f document
with_document server (err response) f = (server, some response)
with_document server panic f = (server, none)

-- The test of each handler on the schema version.
abbrev versioned : Server → String → Answer → Answer
versioned server version answer =
    if not (version == "1.0") then refuse server 400 "RUNNER_REQUEST_INVALID" else answer

-- `runnerMethod`
abbrev with_method : Server → HttpRequest → String → Answer → Answer
with_method server request method answer =
    if request.method == method then answer else refuse server 405 "METHOD_NOT_ALLOWED"

abbrev with_job : Server → String → Answer → Answer
with_job server job_id answer =
    if job_id == "" then refuse server 400 "RUNNER_REQUEST_INVALID" else answer

module _ (p : Platform) where
  -- The test on one identifier in `validate`.
  abbrev matches_runner_uuid : String → Bool
  matches_runner_uuid value = matches_job_uuid (lower p value)

  -- `validate`; the answer is whether the error is nil.
  unfoldable pub valid_binding : RunnerBinding → Bool
  unfolding matches_job_uuid
  valid_binding b =
      matches_runner_uuid b.runner_id
      && matches_runner_uuid b.environment_id
      && matches_runner_uuid b.host_id
      && within 32 128 is_url_safe b.bearer_token
      && not (
          not (b.version == "")
          && (ltb 32 (byte_len b.version)
              || any (λ c. is_char 13 c || is_char 10 c || is_char 9 c || is_char 32 c)
                  (codes b.version)))

  -- `validRunnerAuthorization`. The comparison in constant time is an equality.
  unfoldable pub valid_authorization : RunnerBinding → HttpRequest → String → Bool
  unfolding strip_prefix
  valid_authorization b request runner_id =
      if not (lower p runner_id == b.runner_id)
      then false
      else (elim (strip_prefix "Bearer " request.authorization) [
        | none ↦ false
        | some token ↦
            if not (nat_eq (byte_len token) (byte_len b.bearer_token))
            then false
            else token == b.bearer_token
      ])

  -- `handleRunnerLease`
  unfoldable pub handle_lease : Server → RunnerBinding → HttpRequest → Readings → Answer
  unfolding lease
  handle_lease server b request t = with_method server request "POST" (
      with_document server request.version_body (λ document.
        versioned server document.schema_version
          (leased server (lease p server.queue b.environment_id b.host_id t.pruned_at t.now))))

  -- `handleRunnerAcknowledge`
  unfoldable pub handle_acknowledge :
      Server → RunnerBinding → HttpRequest → Readings → String → Answer
  unfolding acknowledge
  handle_acknowledge server b request t job_id = with_method server request "POST" (
      with_job server job_id (
        with_document server request.acknowledge_body (λ document.
          versioned server document.schema_version (
            answered server (
              acknowledge p server.queue b.environment_id b.host_id job_id document.accepted
                t.pruned_at t.now)))))

  abbrev update_of : String → StageRequest → StageUpdate
  update_of stage document = record {
    stage = stage;
    status = document.status;
    latency_ms = document.latency_ms;
    detail_code = document.detail_code;
  }

  -- `handleRunnerStage`
  unfoldable pub handle_stage :
      Server → RunnerBinding → HttpRequest → Readings → String → String → Answer
  unfolding update_stage
  handle_stage server b request t job_id stage = with_method server request "PUT" (
      if job_id == "" || stage == ""
      then refuse server 400 "RUNNER_REQUEST_INVALID"
      else (with_document server request.stage_body (λ document.
          versioned server document.schema_version (
            answered server (
              update_stage p server.queue b.environment_id b.host_id job_id
                (update_of stage document) t.now)))))

  -- `handleRunnerComplete`
  unfoldable pub handle_complete : Server → RunnerBinding → HttpRequest → Readings → String → Answer
  unfolding complete
  handle_complete server b request t job_id = with_method server request "POST" (
      with_job server job_id (
        with_document server request.version_body (λ document.
          versioned server document.schema_version
            (answered server (complete p server.queue b.environment_id b.host_id job_id t.now)))))

  -- The case of a path with a job at its end.
  unfoldable pub handle_job : Server → RunnerBinding → HttpRequest → Readings → String → Answer
  unfolding strip_suffix handle_acknowledge handle_complete
  handle_job server b request t last = elim (strip_suffix ":ack" last) [
    | some job_id ↦ handle_acknowledge server b request t job_id
    | none ↦ (elim (strip_suffix ":complete" last) [
      | some job_id ↦ handle_complete server b request t job_id
      | none ↦ refuse server 404 "RUNNER_ROUTE_NOT_FOUND"
    ])
  ]

  -- The `switch` of `handleRunnerRoute`, on the parts of the path behind the runner.
  unfoldable pub dispatch_route :
      Server → RunnerBinding → HttpRequest → Readings → List String → Answer
  unfolding handle_lease handle_stage handle_job
  dispatch_route server b request t (action ∷ []) =
      if action == "jobs:lease"
      then handle_lease server b request t
      else refuse server 404 "RUNNER_ROUTE_NOT_FOUND"
  dispatch_route server b request t (jobs ∷ (last ∷ [])) =
      if jobs == "jobs"
      then handle_job server b request t last
      else refuse server 404 "RUNNER_ROUTE_NOT_FOUND"
  dispatch_route server b request t (jobs ∷ (job_id ∷ (stages ∷ (stage ∷ [])))) =
      if jobs == "jobs" && stages == "stages"
      then handle_stage server b request t job_id stage
      else refuse server 404 "RUNNER_ROUTE_NOT_FOUND"
  dispatch_route server b request t _ = refuse server 404 "RUNNER_ROUTE_NOT_FOUND"

  -- `handleRunnerRoute` with the authorization.
  unfoldable pub handle_authorized :
      Server → RunnerBinding → HttpRequest → Readings → List String → Answer
  unfolding record_runner_seen dispatch_route
  handle_authorized server b request t rest =
      let version = if request.version == "" then b.version else request.version in
      elim (record_runner_seen p server.workspace b.runner_id version t.seen_at) [
        | ok workspace ↦ dispatch_route (record server { workspace = workspace }) b request t rest
        | err _ ↦ refuse server 400 "RUNNER_VERSION_INVALID"
        | panic ↦ (server, none)
      ]

  -- `handleRunnerRoute` with a binding, on the parts of the path.
  unfoldable pub handle_parts :
      Server → RunnerBinding → HttpRequest → Readings → List String → Answer
  unfolding valid_authorization handle_authorized
  handle_parts server b request t (v1 ∷ (runners ∷ (runner_id ∷ (action ∷ rest)))) =
      if not (v1 == "v1")
        || not (runners == "runners")
        || not (valid_authorization b request runner_id)
      then refuse server 401 "RUNNER_AUTHENTICATION_FAILED"
      else handle_authorized server b request t (action ∷ rest)
  handle_parts server b request t _ = refuse server 401 "RUNNER_AUTHENTICATION_FAILED"

  -- `handleRunnerRoute` with what `server.runner` is.
  unfoldable pub handle_bound : Server → HttpRequest → Readings → Option RunnerBinding → Answer
  unfolding handle_parts split_slashes trim_left trim_right
  handle_bound server request t none = refuse server 404 "RUNNER_ROUTE_NOT_FOUND"
  handle_bound server request t (some b) =
      handle_parts server b request t (split_slashes (trim_slashes request.path))

  -- `handleRunnerRoute`
  unfoldable pub handle_runner_route : Server → HttpRequest → Readings → Answer
  unfolding handle_bound
  handle_runner_route server request t = handle_bound server request t server.runner
