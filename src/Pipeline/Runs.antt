-- ===== src/Pipeline/Runs.antt =====
-- machine.go: the runs of a machine, as sequences of calls that succeed.
use proof_layer.Base.{
  ℕ, ◌≡◌, inl, inr, true, false, String, some, String_eq, arith, Time, ok, get_elem?, set,
  Option-cases,
}
use proof_layer.Pipeline.Model.{StageStatus, Status_eq, Options, StageResult, Machine}
use proof_layer.Pipeline.Machine.{
  new, stage_index, ready, started, start_at, start, completed, after_verdict, complete_at,
  complete, skipped, skip_at, skip_optional, is_verdict,
}

pub start_cases :
    (m m' : Machine) (stage : String) (at : Time)
    → start m stage at ≡ ok m'
    → (i : ℕ) × (s : StageResult) × (get_elem? m.stages i ≡ some s)
      × (s.status ≡ StageStatus.pending)
      × (ready m.stages i ≡ true)
      × (m' ≡ record m { stages = set m.stages i (started at s) })
unfolding start start_at
start_cases m m' stage at h = elim (Option-cases (stage_index stage)) [
  | inl unknown ↦ absurd (ground (arith, unknown))
  | inr (i, known) ↦ (elim (Option-cases (get_elem? m.stages i)) [
    | inl out ↦ absurd (ground (arith, known, out))
    | inr (s, found) ↦ (
      i,
      s,
      found,
      ground (arith, known, found),
      ground (arith, known, found),
      ground (arith, known, found),
    )
  ])
]

pub complete_cases :
    (m m' : Machine) (stage : String) (status : StageStatus) (at : Time) (error_code : String)
    → complete m stage status at error_code ≡ ok m'
    → (i : ℕ) × (s : StageResult) × (began : Time) × (get_elem? m.stages i ≡ some s)
      × (s.status ≡ StageStatus.running)
      × (is_verdict status ≡ true)
      × (m' ≡ record m {
        stages =
            after_verdict stage status i (set m.stages i (completed status began at error_code s));
      })
unfolding complete complete_at
complete_cases m m' stage status at error_code h = elim (Option-cases (stage_index stage)) [
  | inl unknown ↦ absurd (ground (arith, unknown))
  | inr (i, known) ↦ (elim (Option-cases (get_elem? m.stages i)) [
    | inl out ↦ absurd (ground (arith, known, out))
    | inr (s, found) ↦ (elim (Option-cases s.started_at) [
      | inl idle ↦ absurd (ground (arith, known, found, idle))
      | inr (began, since) ↦ (
        i,
        s,
        began,
        found,
        ground (arith, known, found, since),
        ground (arith, known, found, since),
        ground (arith, known, found, since),
      )
    ])
  ])
]

pub skip_cases :
    (m m' : Machine) (stage : String)
    → skip_optional m stage ≡ ok m'
    → (i : ℕ) × (s : StageResult) × (get_elem? m.stages i ≡ some s)
      × (s.status ≡ StageStatus.pending)
      × (s.required ≡ false)
      × (ready m.stages i ≡ true)
      × (m' ≡ record m { stages = set m.stages i (skipped s) })
unfolding skip_optional skip_at
skip_cases m m' stage h = elim (Option-cases (stage_index stage)) [
  | inl unknown ↦ absurd (ground (arith, unknown))
  | inr (i, known) ↦ (elim (Option-cases (get_elem? m.stages i)) [
    | inl out ↦ absurd (ground (arith, known, out))
    | inr (s, found) ↦ (
      i,
      s,
      found,
      ground (arith, known, found),
      ground (arith, known, found),
      ground (arith, known, found),
      ground (arith, known, found),
    )
  ])
]

-- One call that succeeds.
pub data Call : Machine → Machine → Type 0 where
  starts : {m m' : Machine} (stage : String) (at : Time) → start m stage at ≡ ok m' → Call m m'
  completes :
      {m m' : Machine} (stage : String) (status : StageStatus) (at : Time) (error_code : String)
      → complete m stage status at error_code ≡ ok m'
      → Call m m'
  skips : {m m' : Machine} (stage : String) → skip_optional m stage ≡ ok m' → Call m m'

-- A run from a new machine.
pub data Reached (options : Options) : Machine → Type 0 where
  made : {m : Machine} (at : Time) → new options at ≡ ok m → Reached options m
  after_call : {m m' : Machine} → Reached options m → Call m m' → Reached options m'
