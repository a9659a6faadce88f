-- ===== src/Client/Examples.antt =====
-- Updates at the client of runner/internal/controlplane/client.go.
use proof_layer.Base.{to_lower, ◌+◌, ℕ, ◌≡◌, refl, ◌↔◌, true, some, ok, false, String_eq}
use proof_layer.Base.Int.{pos}
use proof_layer.Base.Assoc.{lookup, insert, keep_values}
use proof_layer.Runner.Catalog.{resolve}
use proof_layer.RunQueue.Stubs.{stub, start}
use proof_layer.Executor.Identity.{
  validate_identity, matches_uuid, matches_key_id, valid_correlation,
}
use proof_layer.Verifier.Check.{
  matches_job_uuid, matches_nonce, valid_signature, verify_job, consume, verify_and_consume,
}
use proof_layer.Verifier.Examples.{runner, verifier, job}
use proof_layer.Client.Model.{Client, Transport}
use proof_layer.RunQueue.Model.{StageStatus, StageUpdate}
use proof_layer.RunQueue.Lifecycle.{stage_index}
use proof_layer.RunQueue.Transitions.{valid_update}
use proof_layer.Client.Calls.{
  lease_request, after_lease, client_control, client_valid_detail, accepts_update,
}
use proof_layer.Client.Rules.{accepts_update-exact, lease-verified}

abbrev late_update : StageUpdate
late_update = record {
  stage = "siem_ingestion";
  status = StageStatus.passed;
  latency_ms = pos 300_001;
  detail_code = "";
}

accepts_update-exact_example :
    (accepts_update late_update ≡ true)
    ↔ ((valid_update late_update ≡ ok tt) × ((k : ℕ) × (stage_index late_update.stage ≡ some k)))
accepts_update-exact_example = accepts_update-exact late_update

test_late : accepts_update late_update ≡ false
unfolding accepts_update client_valid_detail
test_late = refl

test_delayed :
    accepts_update (record {
      stage = "siem_ingestion";
      status = StageStatus.running;
      latency_ms = pos 0;
      detail_code = "siem_ingestion_delayed";
    })
    ≡ true
unfolding accepts_update client_valid_detail lookup
test_delayed = refl

abbrev client : Client
client = record {
  base_url = "https://127.0.0.1:8443";
  token = "";
  version = "0.1.0";
  identity = runner;
}

abbrev answers_job : Transport ℕ
answers_job request n = (n + 1, ok (200, job))

lease-verified_example :
    ((answers_job (lease_request client) 0).1 ≡ ok (200, job))
    × (verify_and_consume stub verifier job start
        ≡ (((client_control stub client answers_job (λ _. start)).lease (0, verifier)).0.1, ok tt))
unfolding client_control after_lease verify_and_consume verify_job consume valid_signature
    matches_nonce matches_job_uuid validate_identity matches_uuid matches_key_id valid_correlation
    resolve lookup insert keep_values to_lower stub
lease-verified_example = lease-verified stub client answers_job (λ _. start) 0 verifier job refl
