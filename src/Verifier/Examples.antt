-- ===== src/Verifier/Examples.antt =====
-- Runs of the verifier of runner/internal/controlplane/job.go.
use proof_layer.Base.{
  ◌+◌, ◌*◌, ◌≤◌, ◌≡◌, refl, ◌≢◌, [], ◌∷◌, String_eq, arith, minute, Bytes, ok, err, length,
  to_lower,
}
use proof_layer.Base.Assoc.{lookup, insert, keep_values}
use proof_layer.Runner.Catalog.{built_in_catalog, resolve}
use proof_layer.RunQueue.Model.{Job}
use proof_layer.RunQueue.Stubs.{stub, start}
use proof_layer.Executor.Identity.{
  RunnerIdentity, State, validate_identity, matches_uuid, matches_key_id, valid_correlation,
}
use proof_layer.Verifier.Model.{job_expired, job_replayed, Verifier}
use proof_layer.Verifier.Check.{
  new_verifier, matches_job_uuid, matches_nonce, valid_signature, verify_job, consume,
  verify_and_consume,
}
use proof_layer.Verifier.Replay.{run, accepted-once, consumed-bound}
use proof_layer.Verifier.Renewal.{accepted_again}

abbrev pub runner : RunnerIdentity
runner = record {
  schema_version = "1.0";
  runner_id = "11111111-1111-4111-8111-111111111111";
  environment_id = "22222222-2222-4222-8222-222222222222";
  host_id = "33333333-3333-4333-8333-333333333333";
  identity_key_id = "key-1";
  registered_at = start;
  state = State.active;
}

abbrev pub public_key : Bytes
public_key =
    0 ∷ 1 ∷ 2 ∷ 3 ∷ 4 ∷ 5 ∷ 6 ∷ 7 ∷ 8 ∷ 9 ∷ 10 ∷ 11 ∷ 12 ∷ 13 ∷ 14 ∷ 15 ∷ 16 ∷ 17 ∷ 18 ∷ 19 ∷ 20
    ∷ 21 ∷ 22 ∷ 23 ∷ 24 ∷ 25 ∷ 26 ∷ 27 ∷ 28 ∷ 29 ∷ 30 ∷ 31 ∷ []

abbrev pub verifier : Verifier
verifier = record {
  identity = runner;
  catalog = built_in_catalog;
  key_id = "key-1";
  public_key = public_key;
  consumed = [];
  maximum_age = 2 * minute;
}

abbrev pub job : Job
job = record {
  body = record {
    schema_version = "1.0";
    job_id = "00010203-0405-4607-8809-0a0b0c0d0e0f";
    correlation_id = "PL-00112233445566778899AABBCCDDEEFF";
    environment_id = "22222222-2222-4222-8222-222222222222";
    host_id = "33333333-3333-4333-8333-333333333333";
    scenario_id = "windows-process-marker";
    scenario_version = "0.1.0";
    requested_by = "99999999-2222-4333-8444-555555555555";
    requested_at = start;
    expires_at = start + minute;
    nonce = "abcdefghijklmnopqrstuvwxyz-_0123456789";
    parameters = [];
  };
  signature = record { algorithm = "Ed25519"; key_id = "key-1"; value = "07" };
}

test_accepts : (verify_and_consume stub verifier job start).1 ≡ ok tt
unfolding verify_and_consume verify_job consume valid_signature matches_nonce matches_job_uuid
    validate_identity matches_uuid matches_key_id valid_correlation resolve lookup insert
    keep_values to_lower stub
test_accepts = refl

accepted-once_example :
    (verify_and_consume stub
      (run stub (verify_and_consume stub verifier job start).0 ((job, start + 1) ∷ []))
      job
      (start + 2)).1
    ≢ ok tt
accepted-once_example =
    accepted-once stub verifier job start test_accepts ((job, start + 1) ∷ []) job (start + 2)
      (omega arith, tt) refl (omega arith)

test_replayed :
    (verify_and_consume stub (verify_and_consume stub verifier job start).0 job (start + 2)).1
    ≡ err job_replayed
unfolding verify_and_consume verify_job consume valid_signature matches_nonce matches_job_uuid
    validate_identity matches_uuid matches_key_id valid_correlation resolve lookup insert
    keep_values to_lower stub
test_replayed = refl

test_expired : (verify_and_consume stub verifier job (start + minute)).1 ≡ err job_expired
unfolding verify_and_consume verify_job consume valid_signature matches_nonce matches_job_uuid
    validate_identity matches_uuid matches_key_id valid_correlation resolve lookup insert
    keep_values to_lower stub
test_expired = refl

consumed-bound_example : length (run stub verifier ((job, start) ∷ [])).consumed ≤ 1024
unfolding new_verifier
consumed-bound_example =
    consumed-bound stub runner built_in_catalog "key-1" public_key verifier ((job, start) ∷ []) refl

-- Another job with the nonce, made when the first one expires.
abbrev renewed : Job
renewed = record {
  body = record job.body {
    job_id = "10010203-0405-4607-8809-0a0b0c0d0e0f";
    requested_at = start + minute;
    expires_at = start + 2 * minute;
  };
  signature = job.signature;
}

test_renewed : verify_job stub verifier renewed (start + minute) ≡ ok tt
unfolding verify_job valid_signature matches_nonce matches_job_uuid validate_identity matches_uuid
    matches_key_id valid_correlation resolve lookup to_lower stub
test_renewed = refl

accepted_again_example :
    (verify_and_consume stub
      (verify_and_consume stub verifier job start).0
      renewed
      (start + minute)).1
    ≡ ok tt
accepted_again_example =
    accepted_again stub verifier job renewed start (start + minute) test_accepts (omega arith) refl
      test_renewed
