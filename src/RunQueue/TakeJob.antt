-- ===== src/RunQueue/TakeJob.antt =====
-- queue.go, the loop of `Lease`: which job is handed out, and what stays.
use proof_layer.Base.{
  ◌≡◌, sym, ap, subst, ◌∙◌, ◌⊎◌, inl, inr, String, none, some, List, [], ◌∷◌, ◌++◌, arith, All,
  All-append, All-append_inv, eq_iff, suc, length, length-append,
}
use proof_layer.RunQueue.Model.{Job}
use proof_layer.RunQueue.Queue.{take_job}
use proof_layer.RunQueue.Prune.{Apart, Distinct}

-- The job is bound to the host of the environment.
abbrev pub IsFor : String → String → Job → Type 0
IsFor environment host job = (job.environment_id ≡ environment) × (job.host_id ≡ host)

-- `job` is the first of `jobs` for the host, and `rest` the others in their order.
pub record IsFirst (environment host : String) (jobs : List Job) (job : Job) (rest : List Job)
    : Type 0 where
  pub front : List Job
  pub back : List Job
  pub split : jobs ≡ front ++ (job ∷ back)
  pub others : rest ≡ front ++ back
  pub bound : IsFor environment host job
  pub skipped : All (λ (j : Job). ¬ IsFor environment host j) front

take_job_cons :
    (environment host : String) (j : Job) (jobs : List Job) (job : Job) (rest : List Job)
    → take_job environment host (j ∷ jobs) ≡ some (job, rest)
    → (IsFor environment host j × (job ≡ j) × (rest ≡ jobs))
      ⊎ ((others : List Job) × (take_job environment host jobs ≡ some (job, others))
          × (rest ≡ j ∷ others)
          × (¬ IsFor environment host j))
unfolding take_job
take_job_cons environment host j jobs job rest h =
    ground (arith, eq_iff j.environment_id environment, eq_iff j.host_id host)

take_job_nil :
    (environment host : String) {job : Job} {rest : List Job}
    → ¬ (take_job environment host [] ≡ some (job, rest))
unfolding take_job
take_job_nil environment host h = cc

pub take_job-IsFirst :
    (environment host : String) (jobs : List Job) (job : Job) (rest : List Job)
    → take_job environment host jobs ≡ some (job, rest)
    → IsFirst environment host jobs job rest
take_job-IsFirst environment host [] job rest h = absurd (take_job_nil environment host h)
take_job-IsFirst environment host (j ∷ jobs) job rest h =
    elim (take_job_cons environment host j jobs job rest h) [
      | inl (bound, same, others) ↦ record {
        front = [];
        back = jobs;
        split = ap (λ x. x ∷ jobs) (sym same);
        others = others;
        bound = subst (IsFor environment host) (sym same) bound;
        skipped = tt;
      }
      | inr (others, found, e, skip) ↦
          let f = take_job-IsFirst environment host jobs job others found in
          record {
            front = j ∷ f.front;
            back = f.back;
            split = ap (λ x. j ∷ x) f.split;
            others = e ∙ ap (λ x. j ∷ x) f.others;
            bound = f.bound;
            skipped = (skip, f.skipped);
          }
    ]

take_job_cons_none :
    (environment host : String) (j : Job) (jobs : List Job)
    → take_job environment host (j ∷ jobs) ≡ none
    → (take_job environment host jobs ≡ none) × (¬ IsFor environment host j)
unfolding take_job
take_job_cons_none environment host j jobs h =
    ground (arith, eq_iff j.environment_id environment, eq_iff j.host_id host)

-- No job is handed out only where none is for the host.
pub take_job-none :
    (environment host : String) (jobs : List Job)
    → take_job environment host jobs ≡ none
    → All (λ (j : Job). ¬ IsFor environment host j) jobs
take_job-none environment host [] h = tt
take_job-none environment host (j ∷ jobs) h =
    let (rest, other) = take_job_cons_none environment host j jobs h in
    (other, take_job-none environment host jobs rest)

Distinct-split :
    (front back : List Job) (job : Job)
    → Distinct (front ++ (job ∷ back))
    → Apart job.job_id (front ++ back) × Distinct (front ++ back)
Distinct-split [] back job d = d
Distinct-split (j ∷ front) back job d =
    let (away, rest) = Distinct-split front back job d.1 in
    let (f, b) = All-append_inv _ front (job ∷ back) d.0 in
    (((λ same. b.0 (sym same)), away), (All-append _ front back f b.1, rest))

-- The job goes, and no other has its identifier.
pub IsFirst-Distinct :
    (environment host : String) (jobs : List Job) (job : Job) (rest : List Job)
    → IsFirst environment host jobs job rest
    → Distinct jobs
    → Apart job.job_id rest × Distinct rest
IsFirst-Distinct environment host jobs job rest f d =
    subst (λ js. Apart job.job_id js × Distinct js) (sym f.others)
      (Distinct-split f.front f.back job (subst Distinct f.split d))

pub IsFirst-All {ℓ} :
    (P : Job → Type ℓ) (environment host : String) (jobs : List Job) (job : Job) (rest : List Job)
    → IsFirst environment host jobs job rest
    → All P jobs
    → P job × All P rest
IsFirst-All P environment host jobs job rest f a =
    let (front, back) = All-append_inv P f.front (job ∷ f.back) (subst (All P) f.split a) in
    (back.0, subst (All P) (sym f.others) (All-append P f.front f.back front back.1))

pub IsFirst-length :
    (environment host : String) (jobs : List Job) (job : Job) (rest : List Job)
    → IsFirst environment host jobs job rest
    → length jobs ≡ suc (length rest)
IsFirst-length environment host jobs job rest f = omega (
  arith,
  ap length f.split,
  ap length f.others,
  length-append f.front (job ∷ f.back),
  length-append f.front f.back,
)
