-- ===== src/Runner/Polling.antt =====
-- runner/internal/splunk/poller.go: the search that is repeated until the event is found. The
-- searcher's answers, by attempt, and whether the context ends in the wait after an attempt, are
-- arguments.
use proof_layer.Base.{
  ℕ, zero, suc, ◌*◌, Bool, true, false, not, ◌&&◌, ◌||◌, Outcome, ok, err, panic, ◌-◌,
  if◌then◌else◌, second, millisecond, minute,
}
use proof_layer.Base.Int.{ℤ, pos, ltb_ℤ, pos_part}

pub data SearchError : Type 0 where
  event_not_found invalid_polling_policy : SearchError
  other_error : ℕ → SearchError

pub record PollingPolicy : Type 0 where
  pub timeout : ℤ
  pub interval : ℤ
  pub maximum_attempts : ℤ

abbrev pub approved_polling_policy : PollingPolicy
approved_polling_policy = record {
  timeout = pos (60 * second);
  interval = pos (2 * second);
  maximum_attempts = pos 30;
}

-- `Validate`
unfoldable pub valid_policy : PollingPolicy → Bool
valid_policy policy =
    not (not (ltb_ℤ (pos 0) policy.timeout) || ltb_ℤ (pos minute) policy.timeout)
    && not (
        ltb_ℤ policy.interval (pos (250 * millisecond)) || ltb_ℤ (pos (5 * second)) policy.interval)
    && not (ltb_ℤ policy.maximum_attempts (pos 1) || ltb_ℤ (pos 120) policy.maximum_attempts)

-- The loop, with `left` attempts after this one.
unfoldable pub poll_from :
    {A : Type 0} → (ℕ → Outcome SearchError A) → (ℕ → Bool) → ℕ → ℕ → ℕ × Outcome SearchError A
poll_from search ends attempt zero = elim (search attempt) [
  | ok a ↦ (attempt, ok a)
  | err e ↦ (attempt, err e)
  | panic ↦ (attempt, panic)
]
poll_from search ends attempt (suc left) =
    let rest = poll_from search ends (suc attempt) left in
    elim (search attempt) [
      | ok a ↦ (attempt, ok a)
      | err event_not_found ↦ (elim (ends attempt) [
        | true ↦ (attempt, err event_not_found)
        | false ↦ rest
      ])
      | err e ↦ (attempt, err e)
      | panic ↦ (attempt, panic)
    ]

-- `PollExact`, with a searcher.
unfoldable pub poll_exact :
    {A : Type 0}
    → (ℕ → Outcome SearchError A)
    → (ℕ → Bool)
    → PollingPolicy
    → ℕ × Outcome SearchError A
unfolding valid_policy poll_from
poll_exact search ends policy =
    if not (valid_policy policy)
    then (0, err invalid_polling_policy)
    else poll_from search ends 1 (pos_part policy.maximum_attempts - 1)
