-- ===== src/Verifier/Check.antt =====
-- runner/internal/controlplane/job.go: `NewVerifier` and `VerifyAndConsume`.
use proof_layer.Base.{
  ◌+◌, ◌*◌, Bool, true, false, not, ◌&&◌, ◌||◌, String, Option, none, some, [], ◌==◌, String_eq,
  Time, minute, before, after, is_zero_time, sub_time, ltb, leb, nat_eq, Bytes, Outcome, ok, err,
  panic, is_ok, ◌>>◌, guard, length, byte_len, codes, if◌then◌else◌,
}
use proof_layer.Base.Patterns.{
  Class, is_lower_hex, is_char, is_url_safe, matches, within, uuid_classes,
}
use proof_layer.Base.Assoc.{Assoc, lookup, insert, keep_values}
use proof_layer.Runner.Catalog.{Definition, resolve}
use proof_layer.RunQueue.Model.{Job}
use proof_layer.RunQueue.Platform.{Platform}
use proof_layer.RunQueue.Methods.{lower}
use proof_layer.Executor.Identity.{RunnerIdentity, validate_identity, authorizes, valid_correlation}
use proof_layer.Verifier.Model.{
  JobError, job_invalid, job_signature, job_identity, job_expired, job_replayed, Verifier,
}

-- `NewVerifier`
unfoldable pub new_verifier :
    RunnerIdentity → Assoc String Definition → String → Bytes → Outcome JobError Verifier
new_verifier identity catalog key_id public_key =
    if key_id == "" || ltb 80 (byte_len key_id) || not (nat_eq (length public_key) 32)
    then err job_invalid
    else ok (record {
      identity = identity;
      catalog = catalog;
      key_id = key_id;
      public_key = public_key;
      consumed = [];
      maximum_age = 2 * minute;
    })

abbrev is_job_variant : Class
is_job_variant c = is_char b'8' c || is_char b'9' c || is_char b'a' c || is_char b'b' c

-- `jobUUIDPattern`
unfoldable pub matches_job_uuid : String → Bool
unfolding matches
matches_job_uuid value = matches (uuid_classes is_lower_hex is_job_variant) (codes value)

-- `noncePattern`
unfoldable pub matches_nonce : String → Bool
matches_nonce value = within 32 64 is_url_safe value

abbrev pub is_some : {A : Type 0} → Option A → Bool
is_some none = false
is_some (some _) = true

module _ (p : Platform) where
  -- `validSignature`
  unfoldable pub valid_signature : Verifier → Job → Bool
  valid_signature v job =
      if not (job.signature.algorithm == "Ed25519") || not (job.signature.key_id == v.key_id)
      then false
      else (elim (p.decode_base64 job.signature.value) [
        | none ↦ false
        | some signature ↦ (elim (p.marshal_job job.body) [
          | none ↦ false
          | some payload ↦ p.check_signature v.public_key payload signature
        ])
      ])

  -- The test on the form of the job.
  abbrev pub well_formed : Job → Bool
  well_formed job =
      job.schema_version == "1.0"
      && matches_job_uuid (lower p job.job_id)
      && matches_job_uuid (lower p job.requested_by)
      && valid_correlation job.correlation_id
      && matches_nonce job.nonce
      && nat_eq (length job.parameters) 0

  -- The test on the times of the job.
  abbrev pub well_timed : Verifier → Job → Time → Bool
  well_timed v job now = not (
      is_zero_time job.requested_at
      || is_zero_time job.expires_at
      || not (after job.expires_at job.requested_at)
      || ltb v.maximum_age (sub_time job.expires_at job.requested_at)
      || after job.requested_at (now + minute))

  -- `VerifyAndConsume` up to the lock.
  unfoldable pub verify_job : Verifier → Job → Time → Outcome JobError (Unit {0})
  unfolding matches_job_uuid matches_nonce valid_signature
  verify_job v job now = do
    guard (not (is_zero_time now) && is_ok (validate_identity v.identity now)) job_invalid
    guard (well_formed job) job_invalid
    guard (authorizes v.identity job.environment_id job.host_id) job_identity
    guard (well_timed v job now) job_invalid
    guard (before now job.expires_at) job_expired
    guard (is_some (resolve v.catalog job.scenario_id job.scenario_version)) job_invalid
    guard (valid_signature v job) job_signature

  -- `VerifyAndConsume` under the lock.
  unfoldable pub consume : Verifier → Job → Time → Verifier × Outcome JobError (Unit {0})
  unfolding keep_values lookup insert
  consume v job now =
      let kept = keep_values (λ (e : Time). before now e) v.consumed in
      let v₁ = record v { consumed = kept } in
      elim (lookup job.nonce kept) [
        | some _ ↦ (v₁, err job_replayed)
        | none ↦
            if leb 1024 (length kept)
            then (v₁, err job_invalid)
            else (record v { consumed = insert job.nonce job.expires_at kept }, ok tt)
      ]

  -- `VerifyAndConsume`
  unfoldable pub verify_and_consume : Verifier → Job → Time → Verifier × Outcome JobError (Unit {0})
  unfolding verify_job consume
  verify_and_consume v job now = elim (verify_job v job now) [
    | ok _ ↦ consume v job now
    | err e ↦ (v, err e)
    | panic ↦ (v, panic)
  ]
