-- ===== src/Verifier/Replay.antt =====
-- job.go: the nonces that the verifier remembers.
use proof_layer.Base.{
  is_ok, ◌≤◌, ◌<◌, ◌≡◌, refl, sym, ap, subst, ◌≢◌, ◌∙◌, ◌⊎◌, inl, inr, Bool, true, false, not,
  String, Option, none, some, List, [], ◌∷◌, arith, ◌==◌, String_eq, eq_iff, Time, before, leb,
  Bytes, Outcome, ok, err, panic, ◌>>◌, guard, is_zero_time, ◌&&◌, All, length, Bool-cases,
  Option-cases, Outcome-cases,
}
use proof_layer.Base.Assoc.{
  Assoc, lookup, insert, keep_values, lookup-insert, lookup-insert_self, lookup-keep_values,
  length-insert, length-keep_values,
}
use proof_layer.Runner.Catalog.{Definition}
use proof_layer.RunQueue.Model.{Job}
use proof_layer.RunQueue.Platform.{Platform}
use proof_layer.Executor.Identity.{RunnerIdentity, validate_identity, authorizes}
use proof_layer.Verifier.Model.{
  JobError, job_invalid, job_identity, job_replayed, job_expired, Verifier,
}
use proof_layer.Verifier.Check.{
  well_formed, well_timed, new_verifier, verify_job, consume, verify_and_consume,
}

new_consumed :
    (identity : RunnerIdentity) (catalog : Assoc String Definition) (key_id : String)
    (public_key : Bytes) (v : Verifier)
    → new_verifier identity catalog key_id public_key ≡ ok v
    → v.consumed ≡ []
unfolding new_verifier
new_consumed identity catalog key_id public_key v made = ground (arith, made)

guard_passed :
    (b : Bool) (e : JobError) (k : Outcome JobError (Unit {0})) {a : Unit {0}}
    → (guard b e >> k) ≡ ok a
    → (b ≡ true) × (k ≡ ok a)
guard_passed true e k h = (refl, h)
guard_passed false e k h = cc

none-some : {A : Type 0} {a : A} (o : Option A) → o ≡ none → ¬ (o ≡ some a)
none-some o e f = cc

module _ (p : Platform) where
  -- What the lock's part does.
  consume_cases :
      (v : Verifier) (job : Job) (now : Time)
      → let kept = keep_values (λ (e : Time). before now e) v.consumed in
        ((e : JobError) × (consume p v job now ≡ (record v { consumed = kept }, err e)))
        ⊎ ((lookup job.nonce kept ≡ none)
            × (length kept < 1024)
            × (consume p v job now
                ≡ (record v { consumed = insert job.nonce job.expires_at kept }, ok tt)))
  unfolding consume
  consume_cases v job now =
      let kept = keep_values (λ (e : Time). before now e) v.consumed in
      elim (Option-cases (lookup job.nonce kept)) [
        | inr (_, found) ↦ inl (job_replayed, rw (found, consume) refl)
        | inl fresh ↦ (elim (Bool-cases (leb 1024 (length kept))) [
          | inl full ↦ inl (job_invalid, rw (fresh, full, consume) refl)
          | inr room ↦ inr (fresh, ground (arith, room), rw (fresh, room, consume) refl)
        ])
      ]

  -- What a call does: it refuses the job and at most forgets nonces that are past their expiry, or
  -- it accepts the job and remembers its nonce too.
  pub verify_cases :
      (v : Verifier) (job : Job) (now : Time)
      → let kept = keep_values (λ (e : Time). before now e) v.consumed in
        ((o : Outcome JobError (Unit {0})) × (o ≢ ok tt)
          × ((verify_and_consume p v job now ≡ (v, o))
              ⊎ (verify_and_consume p v job now ≡ (record v { consumed = kept }, o))))
        ⊎ ((verify_job p v job now ≡ ok tt)
            × (lookup job.nonce kept ≡ none)
            × (length kept < 1024)
            × (verify_and_consume p v job now
                ≡ (record v { consumed = insert job.nonce job.expires_at kept }, ok tt)))
  unfolding verify_and_consume
  verify_cases v job now = elim (Outcome-cases (verify_job p v job now)) [
    | inr (inl (e, f)) ↦ inl (err e, (λ h. cc), inl (rw (f, verify_and_consume) refl))
    | inr (inr f) ↦ inl (panic, (λ h. cc), inl (rw (f, verify_and_consume) refl))
    | inl (_, f) ↦ (elim (consume_cases v job now) [
      | inl (e, g) ↦ inl (err e, (λ h. cc), inr (rw (f, verify_and_consume) g))
      | inr (fresh, room, g) ↦ inr (f, fresh, room, rw (f, verify_and_consume) g)
    ])
  ]

  -- A job that is accepted is not past its expiry.
  accepted_live :
      (v : Verifier) (job : Job) (now : Time)
      → verify_job p v job now ≡ ok tt
      → before now job.expires_at ≡ true
  unfolding verify_job
  accepted_live v job now h =
      let (_, h₁) =
        guard_passed (not (is_zero_time now) && is_ok (validate_identity v.identity now))
          job_invalid _ h in
      let (_, h₂) = guard_passed (well_formed p job) job_invalid _ h₁ in
      let (_, h₃) =
        guard_passed (authorizes v.identity job.environment_id job.host_id) job_identity _ h₂ in
      let (_, h₄) = guard_passed (well_timed p v job now) job_invalid _ h₃ in
      (guard_passed (before now job.expires_at) job_expired _ h₄).0

  -- The verifier remembers the nonce until `expiry`.
  abbrev Remembers : String → Time → Verifier → Type 0
  Remembers nonce expiry v = lookup nonce v.consumed ≡ some expiry

  -- It goes on to do so at each call before the expiry, and accepts no job with the nonce.
  Remembers-call :
      (nonce : String) (expiry : Time) (v : Verifier) (job : Job) (now : Time)
      → before now expiry ≡ true
      → Remembers nonce expiry v
      → Remembers nonce expiry (verify_and_consume p v job now).0
        × (job.nonce ≡ nonce → (verify_and_consume p v job now).1 ≢ ok tt)
  Remembers-call nonce expiry v job now live h =
      let kept = keep_values (λ (e : Time). before now e) v.consumed in
      let still : lookup nonce kept ≡ some expiry =
        lookup-keep_values nonce (λ (e : Time). before now e) expiry v.consumed h live in
      elim (verify_cases v job now) [
        | inl (o, n, inl e) ↦ (
          subst (λ y. Remembers nonce expiry y.0) (sym e) h,
          λ _ f. n (sym (ap (λ y. y.1) e) ∙ f),
        )
        | inl (o, n, inr e) ↦ (
          subst (λ y. Remembers nonce expiry y.0) (sym e) still,
          λ _ f. n (sym (ap (λ y. y.1) e) ∙ f),
        )
        | inr (_, fresh, room, e) ↦ (
          subst (λ y. Remembers nonce expiry y.0) (sym e)
              (lookup-insert job.nonce nonce job.expires_at kept
                ∙ (elim (Bool-cases (job.nonce == nonce)) [
                  | inl hit ↦ absurd (
                      none-some (lookup nonce kept)
                        (ap (λ k. lookup k kept) (sym ((eq_iff job.nonce nonce).0 hit)) ∙ fresh)
                        still)
                  | inr miss ↦ rw miss still
                ])),
          λ same _.
              absurd
                (none-some (lookup nonce kept) (ap (λ k. lookup k kept) (sym same) ∙ fresh) still),
        )
      ]

  -- The calls of `VerifyAndConsume` one after the other, each with its reading of the clock.
  abbrev pub run : Verifier → List (Job × Time) → Verifier
  run v [] = v
  run v ((job, now) ∷ calls) = run (verify_and_consume p v job now).0 calls

  Remembers-run :
      (nonce : String) (expiry last : Time) (calls : List (Job × Time)) (v : Verifier)
      → before last expiry ≡ true
      → All (λ (call : Job × Time). call.1 ≤ last) calls
      → Remembers nonce expiry v
      → Remembers nonce expiry (run v calls)
  Remembers-run nonce expiry last [] v live early h = h
  Remembers-run nonce expiry last ((job, now) ∷ calls) v live early h =
      Remembers-run nonce expiry last calls (verify_and_consume p v job now).0 live early.1
        (Remembers-call nonce expiry v job now (ground (arith, live, early.0)) h).0

  -- After `VerifyAndConsume` has accepted a job, it never accepts a job with that nonce and no
  -- later expiry, whatever calls come between, where the clock does not go back: no call between
  -- them reads a time after that of the last call.
  pub accepted-once :
      (v : Verifier) (job : Job) (now : Time)
      → (verify_and_consume p v job now).1 ≡ ok tt
      → (calls : List (Job × Time)) (again : Job) (last : Time)
      → All (λ (call : Job × Time). call.1 ≤ last) calls
      → again.nonce ≡ job.nonce
      → again.expires_at ≤ job.expires_at
      → (verify_and_consume p (run (verify_and_consume p v job now).0 calls) again last).1 ≢ ok tt
  accepted-once v job now accepted calls again last early same sooner =
      elim (verify_cases v job now) [
        | inl (o, n, inl e) ↦ absurd (n (sym (ap (λ y. y.1) e) ∙ accepted))
        | inl (o, n, inr e) ↦ absurd (n (sym (ap (λ y. y.1) e) ∙ accepted))
        | inr (_, fresh, room, e) ↦
            let kept = keep_values (λ (x : Time). before now x) v.consumed in
            let v₁ = (verify_and_consume p v job now).0 in
            let v₂ = run v₁ calls in
            let first : Remembers job.nonce job.expires_at v₁ =
              subst (λ y. Remembers job.nonce job.expires_at y.0) (sym e)
                (lookup-insert_self job.nonce job.expires_at kept) in
            elim (Bool-cases (before last job.expires_at)) [
              | inl live ↦
                  (Remembers-call job.nonce job.expires_at v₂ again last live
                      (Remembers-run job.nonce job.expires_at last calls v₁ live early first)).1
                    same
              | inr over ↦ (λ h. elim (verify_cases v₂ again last) [
                | inl (o, n, inl f) ↦ absurd (n (sym (ap (λ y. y.1) f) ∙ h))
                | inl (o, n, inr f) ↦ absurd (n (sym (ap (λ y. y.1) f) ∙ h))
                | inr (taken, _, _, _) ↦
                    absurd (ground (arith, over, accepted_live v₂ again last taken, sooner))
              ])
            ]
      ]

  call_bound :
      (v : Verifier) (job : Job) (now : Time)
      → length v.consumed ≤ 1024
      → length (verify_and_consume p v job now).0.consumed ≤ 1024
  call_bound v job now h =
      let kept = keep_values (λ (e : Time). before now e) v.consumed in
      let shorter = length-keep_values (λ (e : Time). before now e) v.consumed in
      elim (verify_cases v job now) [
        | inl (_, _, inl e) ↦ subst (λ y. length y.0.consumed ≤ 1024) (sym e) h
        | inl (_, _, inr e) ↦
            subst (λ y. length y.0.consumed ≤ 1024) (sym e) (omega (arith, shorter, h))
        | inr (_, _, room, e) ↦
            subst (λ y. length y.0.consumed ≤ 1024) (sym e)
              (omega (arith, length-insert job.nonce job.expires_at kept, room))
      ]

  run_bound :
      (calls : List (Job × Time)) (v : Verifier)
      → length v.consumed ≤ 1024
      → length (run v calls).consumed ≤ 1024
  run_bound [] v h = h
  run_bound ((job, now) ∷ calls) v h =
      run_bound calls (verify_and_consume p v job now).0 (call_bound v job now h)

  -- A verifier that `NewVerifier` makes remembers at most 1024 nonces after any calls.
  pub consumed-bound :
      (identity : RunnerIdentity) (catalog : Assoc String Definition) (key_id : String)
      (public_key : Bytes) (v : Verifier) (calls : List (Job × Time))
      → new_verifier identity catalog key_id public_key ≡ ok v
      → length (run v calls).consumed ≤ 1024
  consumed-bound identity catalog key_id public_key v calls made =
      run_bound calls v
        (omega (arith, ap length (new_consumed identity catalog key_id public_key v made)))
