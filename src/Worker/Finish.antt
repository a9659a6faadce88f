-- ===== src/Worker/Finish.antt =====
-- worker.go: the ends of a run. A failed stage leaves the later ones untested, the cleanup is
-- published and the job completed.
use proof_layer.Base.{
  ℕ, suc, ◌+◌, ◌≡◌, refl, subst, ◌⊎◌, inl, inr, Bool, true, false, ◌||◌, String, some, List, [],
  ◌∷◌, arith, ◌==◌, String_eq, get_elem?, drop, ok,
}
use proof_layer.Base.Assoc.{lookup}
use proof_layer.Base.Int.{ℤ, pos}
use proof_layer.RunQueue.Model.{StageStatus, StageStatus_eq}
use proof_layer.RunQueue.Lifecycle.{stage_order, stage_index, valid_detail, detail_policies}
use proof_layer.RunQueue.Transitions.{valid_update}
use proof_layer.Executor.Model.{Status, Result as Execution}
use proof_layer.Worker.Model.{Result, ControlPlane, World}
use proof_layer.Worker.Steps.{return, ◌>>◌, reporting, Total, bind-Total, then-Total}
use proof_layer.Worker.Run.{
  update_of, cleanup_update_of, cleanup_update, failable_stages, stage, skip_stages,
  publish_cleanup, finish_failed, fail_stage,
}
use proof_layer.Worker.Store.{
  Store, IsQuick, update_of-valid, At, IsPublished, IsEnded, advance-Total, publish-Total,
  complete-Total,
}

-- The names of the stages from `k` to the alert.
abbrev pub IsTail : ℕ → List String → Type 0
IsTail k [] = k ≡ 6
IsTail k (name ∷ names) =
    (get_elem? stage_order k ≡ some name)
    × (stage_index name ≡ some k)
    × ((name == "cleanup") ≡ false)
    × IsTail (suc k) names

abbrev pub cleanup_failed : Execution → Bool
cleanup_failed execution = (cleanup_update execution).status == StageStatus.failed

cleanup_valid :
    (verdict : Status)
    → ((cleanup_update_of verdict).stage ≡ "cleanup")
      × (valid_update (cleanup_update_of verdict) ≡ ok tt)
      × (((cleanup_update_of verdict).status ≡ StageStatus.passed)
          ⊎ ((cleanup_update_of verdict).status ≡ StageStatus.failed))
unfolding valid_update valid_detail lookup detail_policies
cleanup_valid Status.passed = (refl, refl, inl refl)
cleanup_valid Status.failed = (refl, refl, inr refl)

module _ {S E : Type 0} (cp : ControlPlane S E) (w : World) (job_id : String)
    (st : Store cp job_id) where
  skip-Total :
      (k : ℕ) (names : List String) (s : S)
      → IsTail k names
      → At st k true s
      → Total (skip_stages cp w job_id names) s (λ _ s'. At st 6 true s')
  unfolding skip_stages stage valid_update valid_detail
  skip-Total k [] s e a = (s, tt, refl, subst (λ j. At st j true s) e a)
  skip-Total k (name ∷ names) s (named, position, other, rest) a =
      let u = update_of name StageStatus.not_tested (pos 0) "" in
      bind-Total (cp.update_stage job_id u) (λ _. skip_stages cp w job_id names) s
        (λ _ s'. At st (suc k) true s') (λ _ s'. At st 6 true s')
        (advance-Total st k true u s a named position refl (ground (arith, other)) refl)
        (λ _ s₁ a₁. skip-Total (suc k) names s₁ rest a₁)

  pub publish_cleanup-Total :
      (broken : Bool) (execution : Execution) (s : S)
      → At st 6 broken s
      → Total
          (publish_cleanup cp w job_id execution)
          s
          (λ _ s'. IsPublished st (broken || cleanup_failed execution) s')
  unfolding publish_cleanup
  publish_cleanup-Total broken execution s a =
      let (name, valid, verdict) = cleanup_valid execution.cleanup_status in
      publish-Total st broken (cleanup_update execution) s a name valid verdict

  pub finish_failed-Total :
      (failed_index : ℕ) (execution : Execution) (s : S)
      → IsTail (failed_index + 1) (drop (failed_index + 1) failable_stages)
      → At st (failed_index + 1) true s
      → Total (finish_failed cp w job_id failed_index execution) s (λ _ s'. IsEnded st true s')
  unfolding finish_failed
  finish_failed-Total failed_index execution s tail a =
      bind-Total (skip_stages cp w job_id (drop (failed_index + 1) failable_stages)) _ s
        (λ _ s'. At st 6 true s') (λ _ s'. IsEnded st true s')
        (skip-Total (failed_index + 1) _ s tail a)
        (λ _ s₁ a₁.
          bind-Total (publish_cleanup cp w job_id execution) (λ _. cp.complete job_id) s₁
            (λ _ s'. IsPublished st true s') (λ _ s'. IsEnded st true s')
            (publish_cleanup-Total true execution s₁ a₁) (λ _ s₂ a₂. complete-Total st true s₂ a₂))

  pub fail_stage-Total :
      (result : Result) (name : String) (index : ℕ) (latency : ℤ) (detail error_code : String)
      (execution : Execution) (s : S)
      → At st index false s
      → get_elem? stage_order index ≡ some name
      → stage_index name ≡ some index
      → IsQuick latency
      → valid_detail (update_of name StageStatus.failed latency detail) ≡ true
      → IsTail (index + 1) (drop (index + 1) failable_stages)
      → Total
          (fail_stage cp w result job_id name index latency detail error_code execution)
          s
          (λ result' s'. (result'.status ≡ result.status) × IsEnded st true s')
  unfolding fail_stage stage
  fail_stage-Total result name index latency detail error_code execution s a named position quick
        fits tail =
      let u = update_of name StageStatus.failed latency detail in
      let result' = record result { error_code = error_code } in
      let Q : Result → S → Type 0 =
        λ result' s'. (result'.status ≡ result.status) × IsEnded st true s' in
      then-Total result (cp.update_stage job_id u)
        (reporting result' (finish_failed cp w job_id index execution) >> return result') s
        (λ s'. At st (suc index) true s') Q
        (advance-Total st index false u s a named position
          (update_of-valid name StageStatus.failed latency detail refl quick fits) refl refl)
        (λ s₁ a₁.
          then-Total result' (finish_failed cp w job_id index execution) (return result') s₁
            (λ s'. IsEnded st true s') Q
            (finish_failed-Total index execution s₁ tail
              (subst (λ k. At st k true s₁) (omega arith) a₁))
            (λ s₂ a₂. (s₂, result', refl, (refl, a₂))))
