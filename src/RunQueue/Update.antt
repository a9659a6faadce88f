-- ===== src/RunQueue/Update.antt =====
-- lifecycle.go, `UpdateStage`: what an accepted update has passed, and that it keeps the invariant.
use proof_layer.Base.{
  ℕ, suc, ◌+◌, ◌≡◌, refl, sym, subst, ◌∙◌, ◌⊎◌, inl, inr, true, false, some, List, [], ◌∷◌, arith,
  ◌==◌, String, String_eq, get_elem?, set, take, Time, ok, eq_iff, Bool-cases,
}
use proof_layer.Base.Int.{ℤ, pos, negsuc}
use proof_layer.RunQueue.Model.{JobStatus, StageStatus, StageSnapshot, StageUpdate, LifecycleRecord}
use proof_layer.RunQueue.Lifecycle.{
  stage_order, is_terminal_stage_status, prior_stages_terminal, prior_stage_failed, index_from,
  stage_index,
}
use proof_layer.RunQueue.Transitions.{
  written_stage, write_stage, valid_update, valid_order, update_at, update_record,
}
use proof_layer.RunQueue.Progress.{
  IsTimed, IsDone, Progress, idle, IsStep, set-Progress, names-set, get_elem?-names,
}
use proof_layer.RunQueue.Invariant.{Inv, StagesOf}

IsTimed-latency :
    (u : StageUpdate) (l : ℤ) → u.latency_ms ≡ l → valid_update u ≡ ok tt → IsTimed (some l)
unfolding valid_update
IsTimed-latency u (pos ms) e a = (ms, refl, ground arith)
IsTimed-latency u (negsuc n) e a = absurd (ground arith)

-- A verdict that the guards let through.
IsDone-written :
    (u : StageUpdate) (prior : List StageSnapshot) (current : StageSnapshot)
    → is_terminal_stage_status u.status ≡ true
    → valid_update u ≡ ok tt
    → valid_order prior u ≡ ok tt
    → current.stage ≡ u.stage
    → IsDone (prior_stage_failed prior) (written_stage current u)
unfolding valid_order
IsDone-written u prior current t a b e = record {
  settled = t;
  timed = subst IsTimed (ground arith) (IsTimed-latency u u.latency_ms refl a);
  order = ground (arith, eq_iff u.stage "cleanup", eq_iff u.stage "alert");
  untested = ground (arith, eq_iff u.stage "cleanup", eq_iff u.stage "alert");
  cleaned = ground (arith, eq_iff u.stage "cleanup", eq_iff u.stage "alert");
}

-- What the guards of `UpdateStage` leave of an update with each status.
IsStep-status :
    (u : StageUpdate) (prior : List StageSnapshot) (current : StageSnapshot) (status : StageStatus)
    → u.status ≡ status
    → valid_update u ≡ ok tt
    → valid_order prior u ≡ ok tt
    → current.stage ≡ u.stage
    → IsStep (prior_stage_failed prior) (written_stage current u)
unfolding valid_update valid_order
IsStep-status u prior current StageStatus.running s a b e = inl (record {
  status = s;
  latency = ground arith;
  order = ground (arith, eq_iff u.stage "cleanup");
})
IsStep-status u prior current StageStatus.passed s a b e =
    inr (IsDone-written u prior current (ground arith) a b e)
IsStep-status u prior current StageStatus.failed s a b e =
    inr (IsDone-written u prior current (ground arith) a b e)
IsStep-status u prior current StageStatus.not_tested s a b e =
    inr (IsDone-written u prior current (ground arith) a b e)
IsStep-status u prior current StageStatus.pending s a b e = absurd (ground arith)
IsStep-status u prior current (StageStatus.other t) s a b e = absurd (ground arith)

index_from_lem :
    (k : ℕ) (candidates : List String) (stage : String) (i : ℕ)
    → index_from k candidates stage ≡ some i
    → (j : ℕ) × (i ≡ k + j) × (get_elem? candidates j ≡ some stage)
unfolding index_from
index_from_lem k [] stage i h = cc
index_from_lem k (c ∷ cs) stage i h = elim (Bool-cases (c == stage)) [
  | inl same ↦ (0, ground (arith, eq_iff c stage), ground (arith, eq_iff c stage))
  | inr other ↦
      let (j, sum, at) = index_from_lem (k + 1) cs stage i (rw other at h) in
      (suc j, omega arith, at)
]

-- The position that `stageIndex` returns holds the stage.
pub stage_index_lem :
    (stage : String) (i : ℕ) → stage_index stage ≡ some i → get_elem? stage_order i ≡ some stage
unfolding stage_index
stage_index_lem stage i h =
    let (j, sum, at) = index_from_lem 0 stage_order stage i h in
    subst (λ k. get_elem? stage_order k ≡ some stage) (omega arith) at

-- What an update that writes has passed, and what it writes.
pub record Wrote (r : LifecycleRecord) (u : StageUpdate) (now : Time) (r' : LifecycleRecord)
    : Type 0 where
  pub index : ℕ
  pub current : StageSnapshot
  pub open_job : (r.status ≡ JobStatus.acknowledged) ⊎ (r.status ≡ JobStatus.running)
  pub position : stage_index u.stage ≡ some index
  pub valid : valid_update u ≡ ok tt
  pub ordered : valid_order (take index r.stages) u ≡ ok tt
  pub found : get_elem? r.stages index ≡ some current
  pub unsettled : is_terminal_stage_status current.status ≡ false
  pub result : r' ≡ record r {
    stages = set r.stages index (written_stage current u);
    status = JobStatus.running;
    updated_at = now;
  }

write_stage_cases :
    (r : LifecycleRecord) (u : StageUpdate) (now : Time) (i : ℕ) (current : StageSnapshot)
    (r' : LifecycleRecord)
    → write_stage r u now i current ≡ ok r'
    → (r' ≡ r)
      ⊎ ((is_terminal_stage_status current.status ≡ false)
          × (r' ≡ record r {
            stages = set r.stages i (written_stage current u);
            status = JobStatus.running;
            updated_at = now;
          }))
unfolding write_stage
write_stage_cases r u now i current r' h = ground arith

-- An accepted update has passed every guard.
pub update_at_ok :
    (r : LifecycleRecord) (u : StageUpdate) (now : Time) (i : ℕ) (r' : LifecycleRecord)
    → update_at r u now i ≡ ok r'
    → (valid_update u ≡ ok tt)
      × (valid_order (take i r.stages) u ≡ ok tt)
      × (current : StageSnapshot) × (get_elem? r.stages i ≡ some current)
      × (write_stage r u now i current ≡ ok r')
unfolding update_at
update_at_ok r u now i r' h = ground arith

pub update_record_ok :
    (r : LifecycleRecord) (u : StageUpdate) (now : Time) (r' : LifecycleRecord)
    → update_record r u now ≡ ok r'
    → ((r.status ≡ JobStatus.acknowledged) ⊎ (r.status ≡ JobStatus.running))
      × (i : ℕ) × (stage_index u.stage ≡ some i)
      × (update_at r u now i ≡ ok r')
unfolding update_record
update_record_ok r u now r' h = ground arith

-- An accepted update changes nothing, or writes one stage.
pub update_cases :
    (r : LifecycleRecord) (u : StageUpdate) (now : Time) (r' : LifecycleRecord)
    → update_record r u now ≡ ok r'
    → (r' ≡ r) ⊎ Wrote r u now r'
update_cases r u now r' h =
    let (o, i, at, h₁) = update_record_ok r u now r' h in
    let (valid, ordered, current, found, h₂) = update_at_ok r u now i r' h₁ in
    elim (write_stage_cases r u now i current r' h₂) [
      | inl same ↦ inl same
      | inr (unsettled, result) ↦ inr (record {
        index = i;
        current = current;
        open_job = o;
        position = at;
        valid = valid;
        ordered = ordered;
        found = found;
        unsettled = unsettled;
        result = result;
      })
    ]

-- Before an update the stages are in order, whichever of the two statuses the job has.
Progress-open :
    (r : LifecycleRecord)
    → Inv r
    → (r.status ≡ JobStatus.acknowledged) ⊎ (r.status ≡ JobStatus.running)
    → Progress false r.stages
Progress-open r v (inl e) = idle (subst (λ status. StagesOf status r.stages) e v.stages_of)
Progress-open r v (inr e) = subst (λ status. StagesOf status r.stages) e v.stages_of

prior_terminal :
    (prior : List StageSnapshot) (u : StageUpdate)
    → valid_order prior u ≡ ok tt
    → prior_stages_terminal prior ≡ true
unfolding valid_order
prior_terminal prior u h = ground arith

Wrote-Inv :
    (r : LifecycleRecord) (u : StageUpdate) (now : Time) (r' : LifecycleRecord)
    → Inv r
    → Wrote r u now r'
    → Inv r'
Wrote-Inv r u now r' v w =
    let name : w.current.stage ≡ u.stage = cc (
      get_elem?-names r.stages w.index w.current w.found,
      v.order,
      stage_index_lem u.stage w.index w.position,
    ) in
    let prior = take w.index r.stages in
    subst Inv (sym w.result) (record {
      order = names-set r.stages w.index w.current _ w.found refl ∙ v.order;
      final = ground (arith, v.final, w.open_job);
      stages_of =
          set-Progress false r.stages w.index w.current _ (prior_stage_failed prior)
            (Progress-open r v w.open_job) (prior_terminal prior u w.ordered) w.found w.unsettled
            refl (IsStep-status u prior w.current u.status refl w.valid w.ordered name);
    })

-- `UpdateStage` keeps the invariant.
pub update-Inv :
    (r : LifecycleRecord) (u : StageUpdate) (now : Time) (r' : LifecycleRecord)
    → Inv r
    → update_record r u now ≡ ok r'
    → Inv r'
update-Inv r u now r' v h = elim (update_cases r u now r' h) [
  | inl same ↦ subst Inv (sym same) v
  | inr w ↦ Wrote-Inv r u now r' v w
]
