-- ===== src/RunQueue/Signing.antt =====
-- queue.go: `createJob` and `Verify` agree.
use proof_layer.Base.{
  ◌≡◌, ap, ◌∙◌, true, some, arith, Bytes, Time, ok, String_eq, inl, inr, Option-cases, bind-eq_ok,
  or_fail,
}
use proof_layer.RunQueue.Model.{CreateRequest, UnsignedJob, Job, random_failed}
use proof_layer.RunQueue.Platform.{Platform, Entropy, Signs}
use proof_layer.RunQueue.Queue.{Queue}
use proof_layer.RunQueue.Methods.{job_body, sign_job, create_job, verify}

module _ (p : Platform) where
  signed_job :
      (q : Queue) (body : UnsignedJob) (job : Job)
      → sign_job p q body ≡ ok job
      → (payload : Bytes) × (p.marshal_job job.body ≡ some payload)
        × (job.signature.algorithm ≡ "Ed25519")
        × (job.signature.value ≡ p.encode_base64 (p.sign q.private_key payload))
  unfolding sign_job
  signed_job q body job h = elim (Option-cases (p.marshal_job body)) [
    | inl fails ↦ absurd (ground (arith, fails))
    | inr (payload, e) ↦ (payload, ground (arith, e), ground (arith, e), ground (arith, e))
  ]

  created_job :
      (q : Queue) (request : CreateRequest) (entropy : Entropy) (now : Time) (job : Job)
      → create_job p q request entropy now ≡ ok job
      → (body : UnsignedJob) × (sign_job p q body ≡ ok job)
  unfolding create_job
  created_job q request entropy now job h =
      let (ids, _, h₁) = bind-eq_ok (or_fail entropy.job_id random_failed) _ h in
      let (correlation, _, h₂) = bind-eq_ok (or_fail entropy.correlation random_failed) _ h₁ in
      let (nonce, _, h₃) = bind-eq_ok (or_fail entropy.nonce random_failed) _ h₂ in
      (job_body p q request ids correlation nonce now, h₃)

  -- Under the laws of the signature scheme for the queue's key and its public key, `Verify` accepts
  -- every job that `createJob` makes.
  pub verify-create_job :
      (q : Queue) (request : CreateRequest) (entropy : Entropy) (now : Time) (job : Job)
      (public_key : Bytes)
      → Signs p q.private_key public_key
      → create_job p q request entropy now ≡ ok job
      → verify p job public_key ≡ true
  unfolding verify
  verify-create_job q request entropy now job public_key laws h =
      let (body, made) = created_job q request entropy now job h in
      let (payload, marshalled, algorithm, value) = signed_job q body job made in
      let decoded = ap p.decode_base64 value ∙ laws.decode-encode payload in
      rw (marshalled, decoded, algorithm, verify) (laws.check-sign payload)
