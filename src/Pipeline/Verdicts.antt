-- ===== src/Pipeline/Verdicts.antt =====
-- machine.go: what holds in every machine that a run reaches, and what its overall status promises.
use proof_layer.Base.{
  ℕ, zero, suc, ◌⊎◌, if◌then◌else◌, String_eq, ◌≡◌, refl, sym, ap, subst, ◌∙◌, ◌≢◌, Bool, true,
  false, not, ◌&&◌, ◌||◌, String, some, List, [], ◌∷◌, ◌==◌, arith, Time, ok, get_elem?, set, last?,
  every, any, All, map, and-eq_true, or-eq_false, Option-cases, inl, inr,
}
use proof_layer.Pipeline.Model.{
  StageStatus, Status_eq, OverallStatus, Options, StageResult, Machine,
}
use proof_layer.Pipeline.Machine.{
  new_stages, new, mark, propagate_not_tested, started, completed, after_verdict, skipped,
  is_verdict, overall_rest, overall_of, overall_status, has_failed, ready,
}
use proof_layer.Pipeline.Order.{
  is_untouched, is_ordered, is_ordered-set, is_ordered-propagate, running-is_allowed,
  ready-is_allowed,
}
use proof_layer.Pipeline.Runs.{
  Call, starts, completes, skips, Reached, made, after_call, start_cases, complete_cases,
  skip_cases,
}

-- A constant of `StageStatus`.
abbrev is_known : StageResult → Bool
is_known s = is_untouched s || s.status == StageStatus.running || is_verdict s.status

abbrev pub label : StageResult → String × Bool
label s = (s.stage, s.required)

-- The stages are those of a new machine, by name and by whether they are required.
abbrev pub IsPlanned : Options → List StageResult → Type 0
IsPlanned options ss = map label ss ≡ map label (new_stages options)

pub record Inv (options : Options) (ss : List StageResult) : Type 0 where
  pub ordered : is_ordered false false ss ≡ true
  pub known : every is_known ss ≡ true
  pub planned : IsPlanned options ss

every-set :
    (p : StageResult → Bool) (ss : List StageResult) (i : ℕ) (s' : StageResult)
    → every p ss ≡ true
    → p s' ≡ true
    → every p (set ss i s') ≡ true
every-set p [] i s' h new = h
every-set p (x ∷ ss) zero s' h new = ground (arith, h, new)
every-set p (x ∷ ss) (suc i) s' h new =
    let (first, rest) = and-eq_true (p x) _ h in ground (arith, first, every-set p ss i s' rest new)

map-set :
    (ss : List StageResult) (i : ℕ) (s s' : StageResult)
    → get_elem? ss i ≡ some s
    → label s' ≡ label s
    → map label (set ss i s') ≡ map label ss
map-set [] i s s' found same = refl
map-set (x ∷ ss) zero s s' found same = cc
map-set (x ∷ ss) (suc i) s s' found same = ap (λ l. label x ∷ l) (map-set ss i s s' found same)

label-mark : (s : StageResult) → label (mark s) ≡ label s
label-mark s = ground arith

map-propagate :
    (n : ℕ) (ss : List StageResult) → map label (propagate_not_tested n ss) ≡ map label ss
unfolding propagate_not_tested
map-propagate n [] = refl
map-propagate n (s ∷ []) = refl
map-propagate zero (s ∷ (t ∷ ss)) =
    ap (λ x. x ∷ map label (propagate_not_tested zero (t ∷ ss))) (label-mark s)
    ∙ ap (λ l. label s ∷ l) (map-propagate zero (t ∷ ss))
map-propagate (suc n) (s ∷ (t ∷ ss)) = ap (λ l. label s ∷ l) (map-propagate n (t ∷ ss))

known-mark : (s : StageResult) → is_known s ≡ true → is_known (mark s) ≡ true
known-mark s h = ground (arith, h)

known-propagate :
    (n : ℕ) (ss : List StageResult)
    → every is_known ss ≡ true
    → every is_known (propagate_not_tested n ss) ≡ true
unfolding propagate_not_tested
known-propagate n [] h = h
known-propagate n (s ∷ []) h = h
known-propagate zero (s ∷ (t ∷ ss)) h =
    let (first, rest) = and-eq_true (is_known s) _ h in
    ground (arith, known-mark s first, known-propagate zero (t ∷ ss) rest)
known-propagate (suc n) (s ∷ (t ∷ ss)) h =
    let (first, rest) = and-eq_true (is_known s) _ h in
    ground (arith, first, known-propagate n (t ∷ ss) rest)

-- A stage that waits or runs gets a status that it may have.
set-Inv :
    (options : Options) (ss : List StageResult) (i : ℕ) (s s' : StageResult)
    → Inv options ss
    → get_elem? ss i ≡ some s
    → (s.status ≡ StageStatus.running) ⊎ ((s.status ≡ StageStatus.pending) × (ready ss i ≡ true))
    → is_known s' ≡ true
    → label s' ≡ label s
    → Inv options (set ss i s')
set-Inv options ss i s s' v found open_stage new same = record {
  ordered = elim open_stage [
    | inl runs ↦
        is_ordered-set false false ss i s s' v.ordered found (ground (arith, runs))
          (running-is_allowed false false ss i s s' v.ordered found (ground (arith, runs)))
    | inr (waits, free) ↦
        is_ordered-set false false ss i s s' v.ordered found (ground (arith, waits))
          (ready-is_allowed ss i s s' found free)
  ];
  known = every-set is_known ss i s' v.known new;
  planned = map-set ss i s s' found same ∙ v.planned;
}

after_verdict-Inv :
    (options : Options) (stage : String) (status : StageStatus) (i : ℕ) (ss : List StageResult)
    → Inv options ss
    → Inv options (after_verdict stage status i ss)
after_verdict-Inv options stage status i ss v =
    elim (status == StageStatus.failed && not (stage == "cleanup"))
      as (λ b. Inv options (if b then propagate_not_tested (suc i) ss else ss)) [
        | true ↦ record {
          ordered = is_ordered-propagate false false (suc i) ss v.ordered;
          known = known-propagate (suc i) ss v.known;
          planned = map-propagate (suc i) ss ∙ v.planned;
        }
        | false ↦ v
      ]

Call-Inv :
    (options : Options) {m m' : Machine} → Call m m' → Inv options m.stages → Inv options m'.stages
Call-Inv options {m} {m'} (starts stage at h) v =
    let (i, s, found, waits, free, e) = start_cases m m' stage at h in
    subst (λ (x : Machine). Inv options x.stages) (sym e)
      (set-Inv options m.stages i s (started at s) v found (inr (waits, free)) refl refl)
Call-Inv options {m} {m'} (completes stage status at error_code h) v =
    let (i, s, began, found, runs, verdict, e) = complete_cases m m' stage status at error_code h in
    subst (λ (x : Machine). Inv options x.stages) (sym e)
      (after_verdict-Inv options stage status i _ (
        set-Inv options m.stages i s (completed status began at error_code s) v found (inl runs)
          (ground (arith, verdict)) refl))
Call-Inv options {m} {m'} (skips stage h) v =
    let (i, s, found, waits, _, free, e) = skip_cases m m' stage h in
    subst (λ (x : Machine). Inv options x.stages) (sym e)
      (set-Inv options m.stages i s (skipped s) v found (inr (waits, free)) refl refl)

new-Inv :
    (options : Options) (at : Time) (m : Machine) → new options at ≡ ok m → Inv options m.stages
unfolding new
new-Inv options at m h =
    let same : m.stages ≡ new_stages options = ground arith in
    subst (Inv options) (sym same) (record { ordered = refl; known = refl; planned = refl })

-- In every machine that a run of calls reaches, the stages are those of a new one, each status is one
-- of the constants, and, before the cleanup, no stage runs or has run behind one that is not passed,
-- degraded or untested; the cleanup runs or has run only where every stage before it is neither
-- pending nor under way.
pub Reached-Inv : {options : Options} {m : Machine} → Reached options m → Inv options m.stages
Reached-Inv {options} (made {m} at h) = new-Inv options at m h
Reached-Inv {options} (after_call r call) = Call-Inv options call (Reached-Inv r)

abbrev pub IsMet : StageResult → Type 0
IsMet s = (s.required ≡ true → s.status ≡ StageStatus.passed) × (s.status ≢ StageStatus.degraded)

overall_rest-IsMet :
    (ss : List StageResult)
    → overall_rest ss ≡ OverallStatus.passed
    → any has_failed ss ≡ false
    → every is_known ss ≡ true
    → All IsMet ss
unfolding overall_rest
overall_rest-IsMet [] h f k = tt
overall_rest-IsMet (s ∷ ss) h f k =
    let (good, rest_good) = or-eq_false (has_failed s) _ f in
    let (known, rest_known) = and-eq_true (is_known s) _ k in
    (
      (λ needed. ground (arith, h, good, known, needed), λ worse. ground (arith, h, worse)),
      overall_rest-IsMet ss (ground (arith, h)) rest_good rest_known,
    )

-- In every machine that a run of calls reaches, the overall status is passed only if each required
-- stage passed and none is degraded; the required stages are those that the options name.
pub passed-IsMet :
    (options : Options) (m : Machine)
    → Reached options m
    → overall_status m ≡ ok OverallStatus.passed
    → IsPlanned options m.stages × All IsMet m.stages
unfolding overall_status overall_of
passed-IsMet options m reached h =
    let v = Reached-Inv reached in
    elim (Option-cases (last? m.stages)) [
      | inl none_last ↦ absurd (ground (arith, none_last))
      | inr (cleanup, last) ↦ (elim (Option-cases (get_elem? m.stages 0)) [
        | inl none_first ↦ absurd (ground (arith, none_first, last))
        | inr (first, found) ↦ (
          v.planned,
          overall_rest-IsMet m.stages (ground (arith, last, found)) (ground (arith, last, found))
              v.known,
        )
      ])
    ]
