-- ===== src/Runner/Attempts.antt =====
-- poller.go: the loop ends within the attempts of the policy, and finds what an attempt finds.
use proof_layer.Base.{
  ℕ, zero, suc, ◌+◌, ◌-◌, ◌≤◌, ◌<◌, ◌≡◌, refl, sym, subst, Bool, true, false, arith, Outcome, ok,
  err,
}
use proof_layer.Base.Int.{pos_part}
use proof_layer.Runner.Polling.{
  SearchError, event_not_found, PollingPolicy, valid_policy, poll_from, poll_exact,
}

valid-pos :
    (policy : PollingPolicy)
    → valid_policy policy ≡ true
    → (1 ≤ pos_part policy.maximum_attempts) × (pos_part policy.maximum_attempts ≤ 120)
unfolding valid_policy
valid-pos policy h = (ground (arith, h), ground (arith, h))

module _ {A : Type 0} (search : ℕ → Outcome SearchError A) (ends : ℕ → Bool) where
  -- Each attempt before the one at distance `n` finds nothing, and the wait after it passes.
  abbrev pub IsSilent : ℕ → ℕ → Type 0
  IsSilent attempt n =
      (j : ℕ) → attempt ≤ j → j < attempt + n → (search j ≡ err event_not_found) × (ends j ≡ false)

  poll_from-found :
      (attempt left n : ℕ) (a : A)
      → n ≤ left
      → IsSilent attempt n
      → search (attempt + n) ≡ ok a
      → poll_from search ends attempt left ≡ (attempt + n, ok a)
  unfolding poll_from
  poll_from-found attempt zero zero a h silent found =
      let start : attempt + 0 ≡ attempt = omega arith in
      let here = subst (λ k. search k ≡ ok a) start found in
      subst (λ k. poll_from search ends attempt zero ≡ (k, ok a)) (sym start)
        (rw (here, poll_from) refl)
  poll_from-found attempt (suc left) zero a h silent found =
      let start : attempt + 0 ≡ attempt = omega arith in
      let here = subst (λ k. search k ≡ ok a) start found in
      subst (λ k. poll_from search ends attempt (suc left) ≡ (k, ok a)) (sym start)
        (rw (here, poll_from) refl)
  poll_from-found attempt zero (suc n) a h silent found = absurd (omega (arith, h))
  poll_from-found attempt (suc left) (suc n) a h silent found =
      let (nothing, waits) = silent attempt (omega arith) (omega arith) in
      let shift : attempt + suc n ≡ suc attempt + n = omega arith in
      let later =
        poll_from-found (suc attempt) left n a (omega (arith, h))
          (λ j low high. silent j (omega (arith, low)) (omega (arith, high)))
          (subst (λ k. search k ≡ ok a) shift found) in
      subst (λ k. poll_from search ends attempt (suc left) ≡ (k, ok a)) (sym shift)
        (rw (nothing, waits, poll_from) later)

  poll_from-bounds :
      (attempt left : ℕ)
      → (attempt ≤ (poll_from search ends attempt left).0)
        × ((poll_from search ends attempt left).0 ≤ attempt + left)
  unfolding poll_from
  poll_from-bounds attempt zero = ground arith
  poll_from-bounds attempt (suc left) = ground (arith, poll_from-bounds (suc attempt) left)

-- For a valid policy, `PollExact` makes at least one attempt and at most as many as the policy allows.
pub poll_exact-bounds :
    {A : Type 0} (search : ℕ → Outcome SearchError A) (ends : ℕ → Bool) (policy : PollingPolicy)
    → valid_policy policy ≡ true
    → (1 ≤ (poll_exact search ends policy).0)
      × ((poll_exact search ends policy).0 ≤ pos_part policy.maximum_attempts)
unfolding poll_exact
poll_exact-bounds search ends policy valid =
    let (low, high) = poll_from-bounds search ends 1 (pos_part policy.maximum_attempts - 1) in
    let (some_attempts, _) = valid-pos policy valid in
    rw (valid, poll_exact) (low, omega (arith, high, some_attempts))

-- For a valid policy, `PollExact` answers what the attempt `n + 1` finds, if the policy allows that
-- attempt, each one before finds nothing, and the context does not end in the waits between them.
pub poll_exact-found :
    {A : Type 0} (search : ℕ → Outcome SearchError A) (ends : ℕ → Bool) (policy : PollingPolicy)
    (n : ℕ) (a : A)
    → valid_policy policy ≡ true
    → n < pos_part policy.maximum_attempts
    → IsSilent search ends 1 n
    → search (1 + n) ≡ ok a
    → poll_exact search ends policy ≡ (1 + n, ok a)
unfolding poll_exact
poll_exact-found search ends policy n a valid allowed silent found =
    rw (valid, poll_exact)
      (poll_from-found search ends 1 (pos_part policy.maximum_attempts - 1) n a
        (omega (arith, allowed)) silent found)
