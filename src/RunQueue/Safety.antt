-- ===== src/RunQueue/Safety.antt =====
-- lifecycle.go: no method panics on a well-formed record, and a runner reaches no job of another host.
use proof_layer.Base.{
  ℕ, zero, suc, ◌≤◌, ◌≡◌, refl, sym, subst, ◌≢◌, ◌⊎◌, inl, inr, Bool, String, none, some, List, [],
  ◌∷◌, arith, String_eq, Time, err, panic, length, get_elem?, last?, take, eq_iff, Option-cases,
}
use proof_layer.Base.Assoc.{lookup}
use proof_layer.RunQueue.Model.{invalid_request, Job, LifecycleRecord, StageUpdate, StageSnapshot}
use proof_layer.RunQueue.Lifecycle.{stage_order, stage_index}
use proof_layer.RunQueue.Transitions.{
  update_record, update_at, write_stage, valid_update, valid_order, complete_record,
}
use proof_layer.RunQueue.Platform.{Platform}
use proof_layer.RunQueue.Progress.{names}
use proof_layer.RunQueue.Invariant.{Inv}
use proof_layer.RunQueue.Update.{stage_index_lem}
use proof_layer.RunQueue.Queue.{Queue, prune_expired}
use proof_layer.RunQueue.Methods.{
  lower, authorized_record, change_record, acknowledge, update_stage, complete,
}

get_elem-names :
    (ss : List StageSnapshot) (i : ℕ) (name : String)
    → get_elem? (names ss) i ≡ some name
    → (s : StageSnapshot) × (get_elem? ss i ≡ some s) × (i ≤ length ss)
get_elem-names [] i name h = cc
get_elem-names (s ∷ ss) zero name h = (s, refl, omega arith)
get_elem-names (s ∷ ss) (suc i) name h =
    let (t, at, small) = get_elem-names ss i name h in (t, at, omega arith)

last_cons : (s : StageSnapshot) (ss : List StageSnapshot) → last? (s ∷ ss) ≢ none
last_cons s [] h = cc
last_cons s (t ∷ ts) h = last_cons t ts h

last_some : (ss : List StageSnapshot) → names ss ≡ stage_order → last? ss ≢ none
last_some [] e h = cc
last_some (s ∷ ss) e h = last_cons s ss h

write_stage-ne-panic :
    (r : LifecycleRecord) (u : StageUpdate) (now : Time) (i : ℕ) (current : StageSnapshot)
    → write_stage r u now i current ≢ panic
unfolding write_stage
write_stage-ne-panic r u now i current h = ground arith

valid_update-ne-panic : (u : StageUpdate) → valid_update u ≢ panic
unfolding valid_update
valid_update-ne-panic u h = ground arith

valid_order-ne-panic : (prior : List StageSnapshot) (u : StageUpdate) → valid_order prior u ≢ panic
unfolding valid_order
valid_order-ne-panic prior u h = ground arith

update_at-ne-panic :
    (r : LifecycleRecord) (u : StageUpdate) (now : Time) (i : ℕ) (current : StageSnapshot)
    → get_elem? r.stages i ≡ some current
    → i ≤ length r.stages
    → update_at r u now i ≢ panic
unfolding update_at
update_at-ne-panic r u now i current found small h = ground (
  arith,
  valid_update-ne-panic u,
  valid_order-ne-panic (take i r.stages) u,
  write_stage-ne-panic r u now i current,
)

update_record-ne-panic :
    (r : LifecycleRecord) (u : StageUpdate) (now : Time) → Inv r → update_record r u now ≢ panic
unfolding update_record
update_record-ne-panic r u now v h = elim (Option-cases (stage_index u.stage)) [
  | inl unknown ↦ ground arith
  | inr (i, position) ↦
      let at =
        subst (λ ns. get_elem? ns i ≡ some u.stage) (sym v.order)
          (stage_index_lem u.stage i position) in
      let (current, found, small) = get_elem-names r.stages i u.stage at in
      ground (arith, update_at-ne-panic r u now i current found small)
]

complete_record-ne-panic :
    (r : LifecycleRecord) (now : Time) → Inv r → complete_record r now ≢ panic
unfolding complete_record
complete_record-ne-panic r now v h = ground (arith, last_some r.stages v.order)

-- On a well-formed record the slice and the index of `UpdateStage` and the last stage of `Complete`
-- are in range: neither method panics, whatever the update is.
pub methods_do_not_panic :
    (r : LifecycleRecord) (update : StageUpdate) (now : Time)
    → Inv r
    → (update_record r update now ≢ panic) × (complete_record r now ≢ panic)
methods_do_not_panic r update now v =
    (update_record-ne-panic r update now v, complete_record-ne-panic r now v)

module _ (p : Platform) where
  foreign_refused :
      (q : Queue) (environment host job_id : String) (r : LifecycleRecord)
      → lookup (lower p job_id) q.lifecycle ≡ some r
      → (r.job.environment_id ≢ lower p environment) ⊎ (r.job.host_id ≢ lower p host)
      → authorized_record p q environment host job_id ≡ err (invalid_request "identity_binding")
  unfolding authorized_record
  foreign_refused q environment host job_id r found foreign = ground (
    arith,
    eq_iff r.job.environment_id (lower p environment),
    eq_iff r.job.host_id (lower p host),
  )

  -- A runner of another host or environment than that of a job that is there before and after the
  -- pruning changes nothing: an update and a completion leave the queue as it is, an acknowledgement
  -- leaves it pruned, and each fails with the identity error.
  pub foreign_runner :
      (q : Queue) (environment host job_id : String) (r r' : LifecycleRecord) (accepted : Bool)
      (update : StageUpdate) (pruned_at now : Time)
      → lookup (lower p job_id) q.lifecycle ≡ some r
      → lookup (lower p job_id) (prune_expired pruned_at q).lifecycle ≡ some r'
      → r'.job ≡ r.job
      → (r.job.environment_id ≢ lower p environment) ⊎ (r.job.host_id ≢ lower p host)
      → (update_stage p q environment host job_id update now
          ≡ (q, err (invalid_request "identity_binding")))
        × (complete p q environment host job_id now ≡ (q, err (invalid_request "identity_binding")))
        × (acknowledge p q environment host job_id accepted pruned_at now
            ≡ (prune_expired pruned_at q, err (invalid_request "identity_binding")))
  unfolding update_stage complete acknowledge change_record
  foreign_runner q environment host job_id r r' accepted update pruned_at now found kept same
        foreign =
      let refused = foreign_refused q environment host job_id r found foreign in
      let foreign' =
        subst
          (λ (job : Job). (job.environment_id ≢ lower p environment) ⊎ (job.host_id ≢ lower p host))
          (sym same) foreign in
      let refused' =
        foreign_refused (prune_expired pruned_at q) environment host job_id r' kept foreign' in
      (
        rw (refused, update_stage, change_record) refl,
        rw (refused, complete, change_record) refl,
        rw (refused', acknowledge, change_record) refl,
      )
