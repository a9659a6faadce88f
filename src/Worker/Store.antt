-- ===== src/Worker/Store.antt =====
-- What the worker relies on in its control plane: that its calls do to the record of the job what
-- lifecycle.go does. And the calls of the worker, one by one.
use proof_layer.Base.{
  ℕ, suc, ◌≡◌, refl, ◌⊎◌, Bool, true, false, ◌||◌, String, some, arith, ◌==◌, String_eq, get_elem?,
  Time, ok, last?, length, if◌then◌else◌, sym, ◌∙◌, ap, eq_iff,
}
use proof_layer.Base.Int.{ℤ, pos, negsuc, ltb_ℤ}
use proof_layer.RunQueue.Model.{
  JobStatus, StageStatus, StageSnapshot, StageUpdate, LifecycleRecord, StageStatus_eq,
}
use proof_layer.RunQueue.Lifecycle.{
  stage_order, is_terminal_stage_status, valid_stage_status, valid_detail, stage_index,
}
use proof_layer.RunQueue.Transitions.{valid_update, update_record, complete_record}
use proof_layer.Worker.Model.{ControlPlane, non_negative}
use proof_layer.Worker.Steps.{Total}
use proof_layer.Worker.Run.{update_of}
use proof_layer.Worker.Advance.{Ready, in_order, advance, begin, close, length-names}

-- In the state `s`, the record of the job is `r`; an update and the completion that lifecycle.go
-- accepts for it at the time of the call succeed, and leave what lifecycle.go leaves.
pub record Store {S E : Type 0} (cp : ControlPlane S E) (job_id : String) : Type 1 where
  pub holds : S → LifecycleRecord → Type 0
  pub update_law :
      (s : S) (r : LifecycleRecord) (u : StageUpdate)
      → holds s r
      → (now : Time) × ((r' : LifecycleRecord)
          → update_record r u now ≡ ok r'
          → (s' : S) × (cp.update_stage job_id u s ≡ (s', ok tt)) × holds s' r')
  pub complete_law :
      (s : S) (r : LifecycleRecord)
      → holds s r
      → (now : Time) × ((r' : LifecycleRecord)
          → complete_record r now ≡ ok r'
          → (s' : S) × (cp.complete job_id s ≡ (s', ok tt)) × holds s' r')

-- A latency of at most five minutes.
abbrev pub IsQuick : ℤ → Type 0
IsQuick latency = ltb_ℤ (pos 300_000) latency ≡ false

quick_bounds :
    (l : ℤ)
    → IsQuick l
    → (ltb_ℤ (non_negative l) (pos 0) ≡ false) × (ltb_ℤ (pos 300_000) (non_negative l) ≡ false)
quick_bounds (pos n) q = (ground arith, ground (arith, q))
quick_bounds (negsuc n) q = (ground arith, ground arith)

pub update_of-valid :
    (name : String) (status : StageStatus) (latency : ℤ) (detail : String)
    → valid_stage_status status ≡ true
    → IsQuick latency
    → valid_detail (update_of name status latency detail) ≡ true
    → valid_update (update_of name status latency detail) ≡ ok tt
unfolding valid_update
update_of-valid name status latency detail known quick fits =
    let (low, high) = quick_bounds latency quick in rw (known, low, high, fits, valid_update) refl

module _ {S E : Type 0} {cp : ControlPlane S E} {job_id : String} (st : Store cp job_id) where
  -- The record of the job has its verdicts up to the stage at `k`.
  abbrev pub At : ℕ → Bool → S → Type 0
  At k broken s = (r : LifecycleRecord) × st.holds s r × Ready k broken r

  -- All verdicts are there.
  abbrev pub IsPublished : Bool → S → Type 0
  IsPublished broken s =
      (r : LifecycleRecord) × st.holds s r
      × Ready 7 broken r
      × (r.status ≡ JobStatus.running)
      × (c : StageSnapshot) × (last? r.stages ≡ some c)
      × ((c.status ≡ StageStatus.passed) ⊎ (c.status ≡ StageStatus.failed))

  -- The job has ended.
  abbrev pub IsEnded : Bool → S → Type 0
  IsEnded broken s =
      (r : LifecycleRecord) × st.holds s r
      × (r.terminal ≡ true)
      × (r.status ≡ (if broken then JobStatus.failed else JobStatus.completed))

  pub advance-Total :
      (k : ℕ) (broken : Bool) (u : StageUpdate) (s : S)
      → At k broken s
      → get_elem? stage_order k ≡ some u.stage
      → stage_index u.stage ≡ some k
      → valid_update u ≡ ok tt
      → in_order broken u ≡ true
      → is_terminal_stage_status u.status ≡ true
      → Total
          (cp.update_stage job_id u)
          s
          (λ _ s'. At (suc k) (broken || u.status == StageStatus.failed) s')
  advance-Total k broken u s (r, h, v) named position valid ordered t =
      let (now, law) = st.update_law s r u h in
      let (r', e, _, _, v') = advance k broken r u now v named position valid ordered t in
      let (s', f, h') = law r' e in (s', tt, f, (r', h', v'))

  pub begin-Total :
      (k : ℕ) (broken : Bool) (u : StageUpdate) (s : S)
      → At k broken s
      → get_elem? stage_order k ≡ some u.stage
      → stage_index u.stage ≡ some k
      → valid_update u ≡ ok tt
      → in_order broken u ≡ true
      → u.status ≡ StageStatus.running
      → Total (cp.update_stage job_id u) s (λ _ s'. At k broken s')
  begin-Total k broken u s (r, h, v) named position valid ordered t =
      let (now, law) = st.update_law s r u h in
      let (r', e, v') = begin k broken r u now v named position valid ordered t in
      let (s', f, h') = law r' e in (s', tt, f, (r', h', v'))

  pub publish-Total :
      (broken : Bool) (u : StageUpdate) (s : S)
      → At 6 broken s
      → u.stage ≡ "cleanup"
      → valid_update u ≡ ok tt
      → (u.status ≡ StageStatus.passed) ⊎ (u.status ≡ StageStatus.failed)
      → Total
          (cp.update_stage job_id u)
          s
          (λ _ s'. IsPublished (broken || u.status == StageStatus.failed) s')
  unfolding stage_index
  publish-Total broken u s (r, h, v) name valid verdict =
      let (now, law) = st.update_law s r u h in
      let whole = sym (length-names r.stages) ∙ ap length v.order in
      let (r', e, running, last, v') =
        advance 6 broken r u now v (ap some (sym name)) (ap stage_index name) valid
          (ground (arith, verdict, eq_iff u.stage "cleanup", name)) (ground (arith, verdict)) in
      let (s', f, h') = law r' e in
      let (c, found, same) = last whole in
      (s', tt, f, (r', h', v', running, c, found, ground (arith, same, verdict)))

  pub complete-Total :
      (broken : Bool) (s : S)
      → IsPublished broken s
      → Total (cp.complete job_id) s (λ _ s'. IsEnded broken s')
  complete-Total broken s (r, h, v, running, c, found, verdict) =
      let (now, law) = st.complete_law s r h in
      let (r', e, final, ended) = close broken r c now v running found verdict in
      let (s', f, h') = law r' e in (s', tt, f, (r', h', final, ended))
