-- ===== src/RunQueue/Progress.antt =====
-- lifecycle.go, the list of stages: how far a run has come, and what one update may do to it.
use proof_layer.Base.{
  ℕ, zero, suc, ◌≤◌, ◌≡◌, refl, ap, subst, ◌∙◌, ◌≢◌, ◌⊎◌, inl, inr, Bool, true, false, ◌||◌, none,
  some, List, [], ◌∷◌, map, arith, ◌==◌, String, get_elem?, set, take, All, String_eq, Option,
  and-eq_true, or-eq_false, or_assoc,
}
use proof_layer.Base.Int.{ℤ, pos}
use proof_layer.RunQueue.Model.{StageStatus, StageSnapshot, StageStatus_eq}
use proof_layer.RunQueue.Lifecycle.{
  is_terminal_stage_status, prior_stages_terminal, prior_stage_failed, mark_pending_not_tested,
}

abbrev pub names : List StageSnapshot → List String
names = map (λ stage. stage.stage)

abbrev pub IsPending : StageSnapshot → Type 0
IsPending s = (s.status ≡ StageStatus.pending) × (s.latency_ms ≡ none)

-- The mark of a run that was never started.
abbrev pub IsSkipped : StageSnapshot → Type 0
IsSkipped s = (s.status ≡ StageStatus.not_tested) × (s.latency_ms ≡ some (pos 0))

-- A stage that is under way; `broken` says whether a stage before it has failed.
pub record IsRunning (broken : Bool) (s : StageSnapshot) : Type 0 where
  pub status : s.status ≡ StageStatus.running
  pub latency : s.latency_ms ≡ none
  pub order : broken ≡ true → s.stage ≡ "cleanup"

-- A latency of at most five minutes.
abbrev pub IsTimed : Option ℤ → Type 0
IsTimed latency = (ms : ℕ) × (latency ≡ some (pos ms)) × (ms ≤ 300_000)

-- A stage with its verdict. After a failure only the cleanup is tested; a stage is left untested
-- only after a failure, or if it is the alert; the cleanup is never left untested.
pub record IsDone (broken : Bool) (s : StageSnapshot) : Type 0 where
  pub settled : is_terminal_stage_status s.status ≡ true
  pub timed : IsTimed s.latency_ms
  pub order : broken ≡ true → s.status ≢ StageStatus.not_tested → s.stage ≡ "cleanup"
  pub untested : s.status ≡ StageStatus.not_tested → (broken ≡ true) ⊎ (s.stage ≡ "alert")
  pub cleaned : s.status ≡ StageStatus.not_tested → s.stage ≢ "cleanup"

-- Done stages, then at most one that is under way, then pending ones.
pub data Progress : Bool → List StageSnapshot → Type 0 where
  idle : {broken : Bool} {ss : List StageSnapshot} → All IsPending ss → Progress broken ss
  active :
      {broken : Bool} {s : StageSnapshot} {ss : List StageSnapshot}
      → IsRunning broken s
      → All IsPending ss
      → Progress broken (s ∷ ss)
  done :
      {broken : Bool} {s : StageSnapshot} {ss : List StageSnapshot}
      → IsDone broken s
      → Progress (broken || s.status == StageStatus.failed) ss
      → Progress broken (s ∷ ss)

-- What an accepted update writes.
abbrev pub IsStep : Bool → StageSnapshot → Type 0
IsStep broken s = IsRunning broken s ⊎ IsDone broken s

Progress-step :
    (broken : Bool) (s : StageSnapshot) (ss : List StageSnapshot)
    → IsStep broken s
    → All IsPending ss
    → Progress broken (s ∷ ss)
Progress-step broken s ss (inl running) h = active running h
Progress-step broken s ss (inr settled) h = done settled (idle h)

-- Where all stages before `i` are done and that at `i` is not, a step there keeps the order.
pub set-Progress :
    (broken : Bool) (ss : List StageSnapshot) (i : ℕ) (current s : StageSnapshot) (b : Bool)
    → Progress broken ss
    → prior_stages_terminal (take i ss) ≡ true
    → get_elem? ss i ≡ some current
    → is_terminal_stage_status current.status ≡ false
    → b ≡ (broken || prior_stage_failed (take i ss))
    → IsStep b s
    → Progress broken (set ss i s)
set-Progress broken [] i current s b p t g c e st = cc
set-Progress broken (x ∷ ss) zero current s b (idle h) t g c e st =
    Progress-step broken s ss (subst (λ f. IsStep f s) (ground arith) st) h.1
set-Progress broken (x ∷ ss) zero current s b (active r h) t g c e st =
    Progress-step broken s ss (subst (λ f. IsStep f s) (ground arith) st) h
set-Progress broken (x ∷ ss) zero current s b (done d p) t g c e st = absurd (ground arith)
set-Progress broken (x ∷ ss) (suc i) current s b (idle h) t g c e st = absurd (ground arith)
set-Progress broken (x ∷ ss) (suc i) current s b (active r h) t g c e st = absurd (ground arith)
set-Progress broken (x ∷ ss) (suc i) current s b (done d p) t g c e st = done d (
    set-Progress (broken || x.status == StageStatus.failed) ss i current s b p (and-eq_true _ _ t).1
      g c (e ∙ or_assoc broken _ _) st)

-- Writing a stage keeps the names.
pub names-set :
    (ss : List StageSnapshot) (i : ℕ) (current s : StageSnapshot)
    → get_elem? ss i ≡ some current
    → s.stage ≡ current.stage
    → names (set ss i s) ≡ names ss
names-set [] i current s g e = refl
names-set (x ∷ ss) zero current s g e = ground arith
names-set (x ∷ ss) (suc i) current s g e = ap (◌∷◌ x.stage) (names-set ss i current s g e)

pub get_elem?-names :
    (ss : List StageSnapshot) (i : ℕ) (current : StageSnapshot)
    → get_elem? ss i ≡ some current
    → get_elem? (names ss) i ≡ some current.stage
get_elem?-names [] i current g = cc
get_elem?-names (x ∷ ss) zero current g = ground arith
get_elem?-names (x ∷ ss) (suc i) current g = get_elem?-names ss i current g

pub names-mark : (ss : List StageSnapshot) → names (mark_pending_not_tested ss) ≡ names ss
unfolding mark_pending_not_tested
names-mark [] = refl
names-mark (x ∷ ss) = ground (arith, names-mark ss)

pub mark-IsSkipped :
    (ss : List StageSnapshot) → All IsPending ss → All IsSkipped (mark_pending_not_tested ss)
unfolding mark_pending_not_tested
mark-IsSkipped [] h = tt
mark-IsSkipped (x ∷ ss) h = (ground arith, mark-IsSkipped ss h.1)

-- A passed stage, or an alert that was not tested.
abbrev pub IsProven : StageSnapshot → Type 0
IsProven s =
    (s.status ≡ StageStatus.passed) ⊎ ((s.status ≡ StageStatus.not_tested) × (s.stage ≡ "alert"))

IsProven-of_IsDone :
    (s : StageSnapshot) → IsDone false s → (s.status == StageStatus.failed) ≡ false → IsProven s
IsProven-of_IsDone s d n = ground (arith, d.untested)

-- Without a failure nothing is skipped but the alert.
pub Progress-IsProven :
    (ss : List StageSnapshot)
    → Progress false ss
    → prior_stages_terminal ss ≡ true
    → prior_stage_failed ss ≡ false
    → All IsProven ss
Progress-IsProven [] p t n = tt
Progress-IsProven (x ∷ ss) (idle h) t n = absurd (ground arith)
Progress-IsProven (x ∷ ss) (active r h) t n = absurd (ground arith)
Progress-IsProven (x ∷ ss) (done d p) t n = (
  IsProven-of_IsDone x d (or-eq_false _ _ n).0,
  Progress-IsProven ss (subst (λ f. Progress f ss) (or-eq_false _ _ n).0 p) (and-eq_true _ _ t).1
      (or-eq_false _ _ n).1,
)
