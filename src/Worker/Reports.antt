-- ===== src/Worker/Reports.antt =====
-- worker.go: a stage that begins, passes or fails, and what the result says of it.
use proof_layer.Base.{
  ℕ, suc, ◌+◌, ◌≡◌, refl, ◌∙◌, ◌⊎◌, inl, true, false, String, some, String_eq, get_elem?, drop,
}
use proof_layer.Base.Int.{ℤ, pos}
use proof_layer.RunQueue.Model.{Job, StageStatus, StageStatus_eq}
use proof_layer.RunQueue.Lifecycle.{stage_order, stage_index, valid_detail}
use proof_layer.Executor.Model.{Result as Execution}
use proof_layer.Worker.Model.{Result, ControlPlane, World}
use proof_layer.Worker.Steps.{Steps, ◌>>◌, reporting, Total, then-Total}
use proof_layer.Worker.Run.{update_of, failable_stages, stage, fail_stage}
use proof_layer.Worker.Store.{
  Store, IsQuick, update_of-valid, At, IsEnded, advance-Total, begin-Total,
}
use proof_layer.Worker.Finish.{IsTail, fail_stage-Total}

-- The result says how the job has ended.
abbrev pub IsReported :
    {S E : Type 0} {cp : ControlPlane S E} {job_id : String} → Store cp job_id → Result → S → Type 0
IsReported st result s =
    ((result.status ≡ "failed") × IsEnded st true s)
    ⊎ ((result.status ≡ "completed") × IsEnded st false s)

module _ {S E : Type 0} (cp : ControlPlane S E) (w : World) (job : Job) (st : Store cp job.job_id)
    (result : Result) (fresh : result.status ≡ "failed") where
  -- A run that fails at a stage.
  pub failing :
      (name : String) (index : ℕ) (latency : ℤ) (detail error_code : String) (execution : Execution)
      (s : S)
      → At st index false s
      → get_elem? stage_order index ≡ some name
      → stage_index name ≡ some index
      → IsQuick latency
      → valid_detail (update_of name StageStatus.failed latency detail) ≡ true
      → IsTail (index + 1) (drop (index + 1) failable_stages)
      → Total
          (fail_stage cp w result job.job_id name index latency detail error_code execution)
          s
          (IsReported st)
  failing name index latency detail error_code execution s a named position quick fits tail =
      let (s', result', e, (same, ended)) =
        fail_stage-Total cp w job.job_id st result name index latency detail error_code execution s
          a named position quick fits tail in
      (s', result', e, inl (same ∙ fresh, ended))

  -- A stage that begins, and what follows.
  pub beginning :
      (k : ℕ) (name detail : String) (rest : Steps S (Result × E) Result) (s : S)
      → At st k false s
      → get_elem? stage_order k ≡ some name
      → stage_index name ≡ some k
      → valid_detail (update_of name StageStatus.running (pos 0) detail) ≡ true
      → ((s' : S) → At st k false s' → Total rest s' (IsReported st))
      → Total
          (reporting result (stage cp w job.job_id name StageStatus.running (pos 0) detail) >> rest)
          s
          (IsReported st)
  unfolding stage
  beginning k name detail rest s a named position fits next =
      let u = update_of name StageStatus.running (pos 0) detail in
      then-Total result (cp.update_stage job.job_id u) rest s (λ s'. At st k false s')
        (IsReported st)
        (begin-Total st k false u s a named position
          (update_of-valid name StageStatus.running (pos 0) detail refl refl fits) refl refl)
        next

  -- A stage that passes, and what follows.
  pub passing :
      (k : ℕ) (name : String) (latency : ℤ) (rest : Steps S (Result × E) Result) (s : S)
      → At st k false s
      → get_elem? stage_order k ≡ some name
      → stage_index name ≡ some k
      → IsQuick latency
      → ((s' : S) → At st (suc k) false s' → Total rest s' (IsReported st))
      → Total
          (reporting result (stage cp w job.job_id name StageStatus.passed latency "") >> rest)
          s
          (IsReported st)
  unfolding stage valid_detail
  passing k name latency rest s a named position quick next =
      let u = update_of name StageStatus.passed latency "" in
      then-Total result (cp.update_stage job.job_id u) rest s (λ s'. At st (suc k) false s')
        (IsReported st)
        (advance-Total st k false u s a named position
          (update_of-valid name StageStatus.passed latency "" refl quick refl) refl refl)
        next
