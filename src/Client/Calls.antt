-- ===== src/Client/Calls.antt =====
-- runner/internal/controlplane/client.go: `New`, `Lease`, `Acknowledge`, `UpdateStage`, `Complete`.
use Prim.Native.String.{◌++◌ as append_text}
use proof_layer.Base.{
  is_ok, ℕ, Bool, true, false, not, ◌&&◌, ◌||◌, String, Option, none, some, List, [], ◌∷◌, ◌==◌,
  String_eq, Time, Outcome, ok, err, panic, if◌then◌else◌, any, byte_len, codes, ltb, nat_eq,
}
use proof_layer.Base.Int.{pos, ltb_ℤ}
use proof_layer.Base.Patterns.{is_url_safe, is_char, within}
use proof_layer.Base.Assoc.{Assoc, lookup}
use proof_layer.Runner.Catalog.{built_in_catalog}
use proof_layer.RunQueue.Model.{Job, StageStatus, StageUpdate, StageStatus_eq}
use proof_layer.RunQueue.Platform.{Platform}
use proof_layer.RunQueue.Methods.{lower}
use proof_layer.Executor.Identity.{RunnerIdentity, State, State_eq, validate_identity}
use proof_layer.Verifier.Model.{Verifier}
use proof_layer.Verifier.Check.{new_verifier, verify_and_consume}
use proof_layer.Worker.Model.{ControlPlane}
use proof_layer.Client.Model.{
  ClientError, invalid_config, invalid_update, remote_error, job_error, Target, Config, Client,
  version_document, acknowledgement, stage_document, Request, Transport,
}

-- `bearerTokenPattern`
unfoldable pub matches_token : String → Bool
matches_token value = within 32 128 is_url_safe value

-- `strings.ContainsAny(version, "\\r\\n\\t ")`
abbrev has_space : String → Bool
has_space s = any (λ c. is_char 13 c || is_char 10 c || is_char 9 c || is_char 32 c) (codes s)

-- `validTransport`
unfoldable pub valid_transport : Target → Bool
valid_transport target =
    if target.scheme == "https"
    then not (target.hostname == "")
    else if not (target.scheme == "http")
    then false
    else target.loopback

-- The detail policies of the client.
abbrev pub client_policies : Assoc String (String × StageStatus)
client_policies =
    ("awaiting_endpoint_event", ("endpoint_telemetry", StageStatus.running))
    ∷ ("endpoint_event_delayed", ("endpoint_telemetry", StageStatus.running))
    ∷ ("endpoint_event_missing", ("endpoint_telemetry", StageStatus.failed))
    ∷ ("endpoint_evidence_limit", ("endpoint_telemetry", StageStatus.failed))
    ∷ ("endpoint_query_failed", ("endpoint_telemetry", StageStatus.failed))
    ∷ ("endpoint_xml_invalid", ("endpoint_telemetry", StageStatus.failed))
    ∷ ("endpoint_observer_failed", ("endpoint_telemetry", StageStatus.failed))
    ∷ ("siem_ingestion_delayed", ("siem_ingestion", StageStatus.running))
    ∷ ("siem_event_missing", ("siem_ingestion", StageStatus.failed))
    ∷ ("required_field_missing", ("field_validation", StageStatus.failed))
    ∷ ("detection_result_absent", ("detection", StageStatus.failed))
    ∷ ("alert_delivery_delayed", ("alert", StageStatus.running))
    ∷ ("cleanup_verification_failed", ("cleanup", StageStatus.failed))
    ∷ []

-- `validDetail` of the client.
unfoldable pub client_valid_detail : StageUpdate → Bool
unfolding lookup
client_valid_detail u =
    if u.detail_code == "" then true else (elim (lookup u.detail_code client_policies) [
      | none ↦ false
      | some (stage, status) ↦ stage == u.stage && status == u.status
    ])

-- `stageNames`
abbrev pub stage_names : List String
stage_names =
    "execution" ∷ "endpoint_telemetry" ∷ "siem_ingestion" ∷ "field_validation" ∷ "detection"
    ∷ "alert" ∷ "cleanup" ∷ []

-- `stageStatus`
abbrev pub stage_statuses : List StageStatus
stage_statuses =
    StageStatus.running ∷ StageStatus.passed ∷ StageStatus.failed ∷ StageStatus.not_tested ∷ []

-- The guard of `UpdateStage`.
unfoldable pub accepts_update : StageUpdate → Bool
unfolding client_valid_detail
accepts_update u = not (
    not (any (λ name. name == u.stage) stage_names)
    || not (any (λ status. status == u.status) stage_statuses)
    || ltb_ℤ u.latency_ms (pos 0)
    || ltb_ℤ (pos 300_000) u.latency_ms
    || not (client_valid_detail u))

-- `requireOK`
abbrev pub require_ok : Outcome ClientError (ℕ × Job) → Outcome ClientError (Unit {0})
require_ok (ok (status, _)) =
    if not (nat_eq status 200) then err (remote_error status "UNEXPECTED_RESPONSE") else ok tt
require_ok (err e) = err e
require_ok panic = panic

module _ (p : Platform) where
  -- `canonicalIdentity`
  unfoldable pub canonical_identity : RunnerIdentity → Bool
  canonical_identity value =
      value.runner_id == lower p value.runner_id
      && value.environment_id == lower p value.environment_id
      && value.host_id == lower p value.host_id

  -- The tests of `New`, on the parsed URL; `none` is a URL that is not parsed.
  abbrev valid_config : Option Target → Config → Time → Bool
  valid_config none config now = false
  valid_config (some target) config now = not (
      target.user
      || not (target.raw_query == "")
      || not (target.fragment == "")
      || not (target.path == "")
      || target.port == ""
      || not (valid_transport target)
      || not (matches_token config.bearer_token)
      || ltb 32 (byte_len config.version)
      || has_space config.version
      || not (is_ok (validate_identity config.identity now))
      || not (config.identity.state == State.active)
      || not (canonical_identity config.identity))

  abbrev with_version : Config → Config
  with_version config = record config {
    version = if config.version == "" then "0.1.0" else config.version;
  }

  -- `New`, with the client and its verifier. The settings of the HTTP client are not part of it, nor
  -- the cut of a slash at the end of the base URL, which has none since its path is empty.
  unfoldable pub new_client :
      Option Target → Config → Time → Outcome ClientError (Client × Verifier)
  unfolding valid_transport matches_token canonical_identity new_verifier
  new_client target given now =
      let config = with_version given in
      if not (valid_config target config now)
      then err invalid_config
      else (elim (new_verifier config.identity built_in_catalog config.signing_key_id
          config.signing_public_key) [
            | ok v ↦ ok (
              record {
                base_url = config.base_url;
                token = config.bearer_token;
                version = config.version;
                identity = config.identity;
              },
              v,
            )
            | err _ ↦ err invalid_config
            | panic ↦ panic
          ])

-- `runnerPath` and `jobPath`
abbrev pub runner_path : Client → String → String
runner_path c suffix =
    append_text "/v1/runners/" (append_text c.identity.runner_id (append_text "/" suffix))

abbrev pub job_path : Client → String → String
job_path c job_id = runner_path c (append_text "jobs/" job_id)

abbrev pub lease_request : Client → Request
lease_request c = record {
  method = "POST";
  path = runner_path c "jobs:lease";
  document = version_document;
}

abbrev pub acknowledge_request : Client → String → Bool → Request
acknowledge_request c job_id accepted = record {
  method = "POST";
  path = append_text (job_path c job_id) ":ack";
  document = acknowledgement accepted;
}

abbrev pub stage_request : Client → String → StageUpdate → Request
stage_request c job_id u = record {
  method = "PUT";
  path = append_text (job_path c job_id) (append_text "/stages/" u.stage);
  document = stage_document u.status u.latency_ms u.detail_code;
}

abbrev pub complete_request : Client → String → Request
complete_request c job_id = record {
  method = "POST";
  path = append_text (job_path c job_id) ":complete";
  document = version_document;
}

-- `Lease` from the answer on, with the state of the other side after it.
unfoldable pub after_lease :
    {S : Type 0}
    → Platform
    → (S → Time)
    → Verifier
    → S × Outcome ClientError (ℕ × Job)
    → (S × Verifier) × Outcome ClientError (Option Job)
unfolding verify_and_consume
after_lease p now v (s, err e) = ((s, v), err e)
after_lease p now v (s, panic) = ((s, v), panic)
after_lease p now v (s, ok (status, job)) =
    let (v', verdict) = verify_and_consume p v job (now s) in
    if nat_eq status 204
    then ((s, v), ok none)
    else if not (nat_eq status 200)
    then ((s, v), err (remote_error status "UNEXPECTED_RESPONSE"))
    else (elim verdict [
      | ok _ ↦ ((s, v'), ok (some job))
      | err e ↦ ((s, v'), err (job_error e))
      | panic ↦ ((s, v'), panic)
    ])

module _ {S : Type 0} (p : Platform) (c : Client) (t : Transport S) (now : S → Time) where
  -- A call that asks for no document.
  abbrev pub call : Request → S × Verifier → (S × Verifier) × Outcome ClientError (Unit {0})
  call request (s, v) = let (s', answer) = t request s in ((s', v), require_ok answer)

  -- `UpdateStage`
  unfoldable pub client_update_stage :
      String → StageUpdate → S × Verifier → (S × Verifier) × Outcome ClientError (Unit {0})
  unfolding accepts_update
  client_update_stage job_id u state =
      if not (accepts_update u)
      then (state, err invalid_update)
      else call (stage_request c job_id u) state

  -- The client as the control plane of the worker.
  unfoldable pub client_control : ControlPlane (S × Verifier) ClientError
  unfolding client_update_stage after_lease
  client_control = record {
    lease = λ state. after_lease p now state.1 (t (lease_request c) state.0);
    acknowledge = λ job_id accepted state. call (acknowledge_request c job_id accepted) state;
    update_stage = client_update_stage;
    complete = λ job_id state. call (complete_request c job_id) state;
  }
