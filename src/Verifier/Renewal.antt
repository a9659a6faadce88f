-- ===== src/Verifier/Renewal.antt =====
-- job.go: a nonce whose job has expired is free again.
use proof_layer.Base.{
  ℕ, ◌≤◌, ◌<◌, ◌≡◌, refl, sym, ap, ◌∙◌, inl, inr, Bool, false, String, none, some, [], ◌∷◌, arith,
  ◌==◌, String_eq, Time, before, leb, ok, length, Bool-cases,
}
use proof_layer.Base.Assoc.{Assoc, lookup, insert, keep_values}
use proof_layer.RunQueue.Model.{Job}
use proof_layer.RunQueue.Platform.{Platform}
use proof_layer.Verifier.Model.{Verifier}
use proof_layer.Verifier.Check.{verify_job, consume, verify_and_consume}
use proof_layer.Verifier.Replay.{verify_cases}

below : (n : ℕ) → n < 1024 → leb 1024 n ≡ false
below n h = ground (arith, h)

past : (t now : Time) → t ≤ now → before now t ≡ false
past t now h = ground (arith, h)

-- A new entry that the test drops leaves the map as it was, without it.
keep_values-insert :
    (k : String) (q : Time → Bool) (e : Time) (m : Assoc String Time)
    → lookup k m ≡ none
    → q e ≡ false
    → (lookup k (keep_values q (insert k e m)) ≡ none)
      × (length (keep_values q (insert k e m)) ≤ length m)
unfolding lookup insert keep_values
keep_values-insert k q e [] fresh dropped = rw dropped (refl, omega arith)
keep_values-insert k q e ((j, w) ∷ m) fresh dropped = elim (Bool-cases (j == k)) [
  | inl hit ↦ (let clash : some w ≡ none = rw hit at fresh in cc)
  | inr miss ↦
      let (gone, fewer) = keep_values-insert k q e m (rw miss at fresh) dropped in
      elim (Bool-cases (q w)) [
        | inl stays ↦ rw (miss, stays, miss) (gone, omega (arith, fewer))
        | inr goes ↦ rw (miss, goes) (gone, omega (arith, fewer))
      ]
]

module _ (p : Platform) where
  -- A job that passes the checks is accepted if its nonce is not remembered and there is room.
  consumed_free :
      (v : Verifier) (job : Job) (now : Time)
      → verify_job p v job now ≡ ok tt
      → lookup job.nonce (keep_values (λ (e : Time). before now e) v.consumed) ≡ none
      → length (keep_values (λ (e : Time). before now e) v.consumed) < 1024
      → (verify_and_consume p v job now).1 ≡ ok tt
  unfolding verify_and_consume consume
  consumed_free v job now passed fresh room =
      let fits : leb 1024 (length (keep_values (λ (e : Time). before now e) v.consumed)) ≡ false =
        below (length (keep_values (λ (e : Time). before now e) v.consumed)) room in
      rw (passed, verify_and_consume, fresh, consume, fits) refl

  -- Once `VerifyAndConsume` has accepted a job and that has expired, its nonce counts for nothing:
  -- the next call accepts a job with the same nonce, if that passes the checks before the lock.
  pub accepted_again :
      (v : Verifier) (job again : Job) (now later : Time)
      → (verify_and_consume p v job now).1 ≡ ok tt
      → job.expires_at ≤ later
      → again.nonce ≡ job.nonce
      → verify_job p v again later ≡ ok tt
      → (verify_and_consume p (verify_and_consume p v job now).0 again later).1 ≡ ok tt
  unfolding verify_job
  accepted_again v job again now later accepted over same passed = elim (verify_cases p v job now) [
    | inl (o, n, inl e) ↦ absurd (n (sym (ap (λ y. y.1) e) ∙ accepted))
    | inl (o, n, inr e) ↦ absurd (n (sym (ap (λ y. y.1) e) ∙ accepted))
    | inr (_, fresh, room, e) ↦
        let kept = keep_values (λ (x : Time). before now x) v.consumed in
        let gone : before later job.expires_at ≡ false = past job.expires_at later over in
        let (forgotten, fewer) =
          keep_values-insert job.nonce (λ (x : Time). before later x) job.expires_at kept fresh
            gone in
        ap (λ y. (verify_and_consume p y.0 again later).1) e
        ∙ consumed_free (record v { consumed = insert job.nonce job.expires_at kept }) again later
            passed
            (ap
                (λ k. lookup k (
                  keep_values (λ (x : Time). before later x)
                    (insert job.nonce job.expires_at kept)))
                same
              ∙ forgotten)
            (omega (arith, fewer, room))
  ]
