-- ===== src/Worker/Advance.antt =====
-- lifecycle.go, `UpdateStage` and `Complete`, for a runner that reports the stages one after the
-- other: which updates the queue accepts, and how far the record is then.
use proof_layer.Base.{
  ℕ, zero, suc, ◌<◌, ◌≡◌, refl, sym, ap, subst, ◌∙◌, ◌⊎◌, Bool, true, false, not, ◌&&◌, ◌||◌,
  String, some, List, [], ◌∷◌, arith, ◌==◌, String_eq, get_elem?, set, take, drop, length, any,
  every, last?, All, Time, ok, if◌then◌else◌,
}
use proof_layer.RunQueue.Model.{
  JobStatus, StageStatus, StageSnapshot, StageUpdate, LifecycleRecord, JobStatus_eq, StageStatus_eq,
}
use proof_layer.RunQueue.Lifecycle.{
  stage_order, is_terminal_stage_status, prior_stages_terminal, prior_stage_failed, stage_index,
  slice_to,
}
use proof_layer.RunQueue.Transitions.{
  written_stage, write_stage, valid_update, valid_order, update_at, update_record, completed_record,
  complete_record,
}
use proof_layer.RunQueue.Progress.{names, names-set}

abbrev IsOpen : StageSnapshot → Type 0
IsOpen s = is_terminal_stage_status s.status ≡ false

-- The stages before the one at `k` have their verdicts, and one of them has failed if `broken` says
-- so; the stages from `k` on are open.
pub record Ready (k : ℕ) (broken : Bool) (r : LifecycleRecord) : Type 0 where
  pub order : names r.stages ≡ stage_order
  pub reported : (r.status == JobStatus.acknowledged || r.status == JobStatus.running) ≡ true
  pub settled : prior_stages_terminal (take k r.stages) ≡ true
  pub failed : prior_stage_failed (take k r.stages) ≡ broken
  pub rest : All IsOpen (drop k r.stages)

-- The order in which the queue wants the stages.
abbrev pub in_order : Bool → StageUpdate → Bool
in_order broken u =
    not (
      u.status == StageStatus.not_tested
      && ((not broken && not (u.stage == "alert")) || u.stage == "cleanup"))
    && not (broken && not (u.stage == "cleanup") && not (u.status == StageStatus.not_tested))

module _ {ℓ} {A : Type ℓ} where
  every-take-set :
      (p : A → Bool) (xs : List A) (k : ℕ) (c v : A)
      → get_elem? xs k ≡ some c
      → every p (take (suc k) (set xs k v)) ≡ (every p (take k xs) && p v)
  every-take-set p [] k c v g = cc
  every-take-set p (x ∷ xs) zero c v g = ground arith
  every-take-set p (x ∷ xs) (suc k) c v g = ground (arith, every-take-set p xs k c v g)

  any-take-set :
      (p : A → Bool) (xs : List A) (k : ℕ) (c v : A)
      → get_elem? xs k ≡ some c
      → any p (take (suc k) (set xs k v)) ≡ (any p (take k xs) || p v)
  any-take-set p [] k c v g = cc
  any-take-set p (x ∷ xs) zero c v g = ground arith
  any-take-set p (x ∷ xs) (suc k) c v g = ground (arith, any-take-set p xs k c v g)

  take-set : (xs : List A) (k : ℕ) (v : A) → take k (set xs k v) ≡ take k xs
  take-set [] k v = refl
  take-set (x ∷ xs) zero v = refl
  take-set (x ∷ xs) (suc k) v = ap (◌∷◌ x) (take-set xs k v)

  All-drop_set :
      (P : A → Type 0) (xs : List A) (k : ℕ) (v : A)
      → All P (drop k xs)
      → P v
      → All P (drop k (set xs k v))
  All-drop_set P [] k v h p = h
  All-drop_set P (x ∷ xs) zero v h p = (p, h.1)
  All-drop_set P (x ∷ xs) (suc k) v h p = All-drop_set P xs k v h p

  All-drop_suc_set :
      (P : A → Type 0) (xs : List A) (k : ℕ) (v : A)
      → All P (drop k xs)
      → All P (drop (suc k) (set xs k v))
  All-drop_suc_set P [] k v h = tt
  All-drop_suc_set P (x ∷ xs) zero v h = h.1
  All-drop_suc_set P (x ∷ xs) (suc k) v h = All-drop_suc_set P xs k v h

  All-get_elem? :
      (P : A → Type 0) (xs : List A) (k : ℕ) (c : A)
      → All P (drop k xs)
      → get_elem? xs k ≡ some c
      → P c
  All-get_elem? P [] k c h g = cc
  All-get_elem? P (x ∷ xs) zero c h g = subst P (ground arith) h.0
  All-get_elem? P (x ∷ xs) (suc k) c h g = All-get_elem? P xs k c h g

  last-set : (xs : List A) (k : ℕ) (v : A) → length xs ≡ suc k → last? (set xs k v) ≡ some v
  last-set [] k v e = absurd (omega (arith, e))
  last-set (x ∷ []) zero v e = refl
  last-set (x ∷ []) (suc k) v e = absurd (omega (arith, e))
  last-set (x ∷ (y ∷ ys)) zero v e = absurd (omega (arith, e))
  last-set (x ∷ (y ∷ ys)) (suc zero) v e = last-set (y ∷ ys) zero v (omega (arith, e))
  last-set (x ∷ (y ∷ ys)) (suc (suc k)) v e = last-set (y ∷ ys) (suc k) v (omega (arith, e))

  pub take-all : (xs : List A) (n : ℕ) → length xs ≡ n → take n xs ≡ xs
  take-all [] zero e = refl
  take-all [] (suc n) e = refl
  take-all (x ∷ xs) zero e = absurd (omega (arith, e))
  take-all (x ∷ xs) (suc n) e = ap (◌∷◌ x) (take-all xs n (omega (arith, e)))

pub length-names : (ss : List StageSnapshot) → length (names ss) ≡ length ss
length-names [] = refl
length-names (s ∷ ss) = omega (arith, length-names ss)

-- Each name has its stage.
current_stage :
    (ss : List StageSnapshot) (ns : List String) (k : ℕ) (n : String)
    → names ss ≡ ns
    → get_elem? ns k ≡ some n
    → (c : StageSnapshot) × (get_elem? ss k ≡ some c) × (c.stage ≡ n) × (k < length ss)
current_stage [] ns k n e g = absurd (ground arith)
current_stage (s ∷ ss) [] k n e g = absurd (ground arith)
current_stage (s ∷ ss) (m ∷ ns) zero n e g = (s, refl, ground arith, omega arith)
current_stage (s ∷ ss) (m ∷ ns) (suc k) n e g =
    let (c, found, same, lt) = current_stage ss ns k n (ground arith) g in
    (c, found, same, omega (arith, lt))

abbrev pub written : LifecycleRecord → StageUpdate → Time → ℕ → StageSnapshot → LifecycleRecord
written r u now k c = record r {
  stages = set r.stages k (written_stage c u);
  status = JobStatus.running;
  updated_at = now;
}

module _ (k : ℕ) (broken : Bool) (r : LifecycleRecord) (u : StageUpdate) (now : Time)
    (v : Ready k broken r) (named : get_elem? stage_order k ≡ some u.stage)
    (position : stage_index u.stage ≡ some k) (valid : valid_update u ≡ ok tt)
    (ordered : in_order broken u ≡ true) where
  not_pending : (u.status == StageStatus.pending) ≡ false
  unfolding valid_update
  not_pending = ground (arith, valid)

  ordered_prior : valid_order (take k r.stages) u ≡ ok tt
  unfolding valid_order
  ordered_prior = rw (v.settled, v.failed, valid_order) (ground (arith, ordered))

  write_open : (c : StageSnapshot) → IsOpen c → write_stage r u now k c ≡ ok (written r u now k c)
  unfolding write_stage
  write_open c unsettled = rw (unsettled, write_stage) (ground (arith, not_pending))

  updated :
      (c : StageSnapshot)
      → get_elem? r.stages k ≡ some c
      → k < length r.stages
      → update_at r u now k ≡ ok (written r u now k c)
  unfolding update_at
  updated c found lt =
      let slice : slice_to k r.stages ≡ some (take k r.stages) = ground (arith, lt) in
      rw (valid, slice, update_at)
        (rw ordered_prior
          (rw found (write_open c (All-get_elem? IsOpen r.stages k c v.rest found))))

  -- The queue accepts an update of the stage at `k`.
  pub accepted :
      (c : StageSnapshot) × (get_elem? r.stages k ≡ some c)
      × (c.stage ≡ u.stage)
      × (update_record r u now ≡ ok (written r u now k c))
  unfolding update_record
  accepted =
      let (c, found, same, lt) = current_stage r.stages stage_order k u.stage v.order named in
      let reports : (not (r.status == JobStatus.acknowledged)
            && not (r.status == JobStatus.running))
          ≡ false =
        ground (arith, v.reported) in
      (c, found, same, rw (reports, position, update_record) (updated c found lt))

  -- A verdict ends the stage.
  pub advance :
      is_terminal_stage_status u.status ≡ true
      → (r' : LifecycleRecord) × (update_record r u now ≡ ok r')
        × (r'.status ≡ JobStatus.running)
        × ((length r.stages ≡ suc k)
            → (c : StageSnapshot) × (last? r'.stages ≡ some c) × (c.status ≡ u.status))
        × Ready (suc k) (broken || u.status == StageStatus.failed) r'
  advance t =
      let (c, found, same, e) = accepted in
      (
        written r u now k c,
        e,
        refl,
        λ whole. (written_stage c u, last-set r.stages k (written_stage c u) whole, refl),
        record {
          order = names-set r.stages k c (written_stage c u) found refl ∙ v.order;
          reported = refl;
          settled =
              every-take-set (λ stage. is_terminal_stage_status stage.status) r.stages k c
                (written_stage c u) found
              ∙ ground (arith, v.settled, t);
          failed =
              any-take-set (λ stage. stage.status == StageStatus.failed) r.stages k c
                (written_stage c u) found
              ∙ ground (arith, v.failed);
          rest = All-drop_suc_set IsOpen r.stages k (written_stage c u) v.rest;
        },
      )

  -- A stage that begins stays open.
  pub begin :
      u.status ≡ StageStatus.running
      → (r' : LifecycleRecord) × (update_record r u now ≡ ok r') × Ready k broken r'
  begin running =
      let (c, found, same, e) = accepted in
      (
        written r u now k c,
        e,
        record {
          order = names-set r.stages k c (written_stage c u) found refl ∙ v.order;
          reported = refl;
          settled = ap prior_stages_terminal (take-set r.stages k (written_stage c u)) ∙ v.settled;
          failed = ap prior_stage_failed (take-set r.stages k (written_stage c u)) ∙ v.failed;
          rest =
              All-drop_set IsOpen r.stages k (written_stage c u) v.rest (ground (arith, running));
        },
      )

-- With all seven verdicts, the last of them of the cleanup, `Complete` ends the job.
pub close :
    (broken : Bool) (r : LifecycleRecord) (c : StageSnapshot) (now : Time)
    → Ready 7 broken r
    → r.status ≡ JobStatus.running
    → last? r.stages ≡ some c
    → (c.status ≡ StageStatus.passed) ⊎ (c.status ≡ StageStatus.failed)
    → (r' : LifecycleRecord) × (complete_record r now ≡ ok r')
      × (r'.terminal ≡ true)
      × (r'.status ≡ (if broken then JobStatus.failed else JobStatus.completed))
unfolding complete_record
close broken r c now v running found cleaned =
    let whole : length r.stages ≡ 7 = sym (length-names r.stages) ∙ ap length v.order in
    let same = take-all r.stages 7 whole in
    let settled = ap prior_stages_terminal (sym same) ∙ v.settled in
    let failed = ap prior_stage_failed (sym same) ∙ v.failed in
    (
      completed_record now r,
      rw (running, settled, found, complete_record) (ground (arith, cleaned)),
      refl,
      rw failed refl,
    )
