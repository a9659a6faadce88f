-- ===== src/Worker/QueueStore.antt =====
-- The queue of control-plane/internal/runqueue as the control plane of the runner of one host.
use proof_layer.Base.{
  ℕ, ◌+◌, ◌≡◌, refl, sym, ap, subst, ◌∙◌, inl, inr, true, String, Option, none, some, arith, ◌==◌,
  String_eq, Time, Outcome, ok, err, ◌>>=◌, eq_iff, before,
}
use proof_layer.Base.Assoc.{lookup, insert, lookup-insert_self, lookup-map_values}
use proof_layer.RunQueue.Model.{QueueError, Job, JobStatus, StageUpdate, LifecycleRecord}
use proof_layer.RunQueue.Transitions.{update_record, complete_record, expire_record, lease_record}
use proof_layer.RunQueue.Platform.{Platform}
use proof_layer.RunQueue.Invariant.{complete_cases}
use proof_layer.RunQueue.Update.{update_cases}
use proof_layer.RunQueue.Queue.{Queue, expire_jobs, prune_expired}
use proof_layer.RunQueue.Methods.{
  lower, lease, acknowledge, update_stage, complete, authorized_record, change_record,
}
use proof_layer.RunQueue.Prune.{Apart, lookup-expire_jobs}
use proof_layer.RunQueue.Retention.{Covered, lookup-forget, expire_record_active}
use proof_layer.RunQueue.Prune.{IsQueued}
use proof_layer.RunQueue.TakeJob.{IsFor, take_job-IsFirst, IsFirst-All, IsFirst-Distinct}
use proof_layer.RunQueue.QueueInvariant.{QueueInv, prune-QueueInv}
use proof_layer.RunQueue.Changes.{leased_queue, leased-QueueInv}
use proof_layer.RunQueue.Runs.{lease_cases}
use proof_layer.Worker.Model.{ControlPlane}
use proof_layer.Worker.Store.{Store}

-- The pruning leaves the record of a job that is handed out and not past its expiry.
pub lookup-prune :
    (now : Time) (q : Queue) (job : Job) (r : LifecycleRecord)
    → before now job.expires_at ≡ true
    → Apart job.job_id q.jobs
    → Covered q.records job
    → lookup job.job_id q.lifecycle ≡ some r
    → r.job ≡ job
    → lookup job.job_id (prune_expired now q).lifecycle ≡ some r
unfolding prune_expired
lookup-prune now q job r live apart covered found same =
    let kept = lookup-expire_jobs now q.jobs q.lifecycle job.job_id apart ∙ found in
    lookup-forget now q.records _ job live covered
    ∙ lookup-map_values job.job_id (expire_record now) (expire_jobs now q.jobs q.lifecycle)
    ∙ rw kept (ap some (expire_record_active now r (rw same live)))

ok_none-some : (job : Job) → ¬ (◌≡◌ {A = Outcome QueueError (Option Job)} (ok none) (ok (some job)))
ok_none-some job e = cc

ok_some_injective :
    (i j : Job) → ◌≡◌ {A = Outcome QueueError (Option Job)} (ok (some i)) (ok (some j)) → i ≡ j
ok_some_injective i j e = cc

module _ (p : Platform) (environment host : String) where
  -- The record stands under the identifier, and is bound to the runner.
  pub record IsHeld (job_id : String) (q : Queue) (r : LifecycleRecord) : Type 0 where
    pub found : lookup (lower p job_id) q.lifecycle ≡ some r
    pub environment_bound : r.job.environment_id ≡ lower p environment
    pub host_bound : r.job.host_id ≡ lower p host

  pub authorized_record-IsHeld :
      (q : Queue) (job_id : String) (r : LifecycleRecord)
      → IsHeld job_id q r
      → authorized_record p q environment host job_id ≡ ok r
  unfolding authorized_record
  authorized_record-IsHeld q job_id r h =
      let first : (r.job.environment_id == lower p environment) ≡ true =
        (eq_iff r.job.environment_id (lower p environment)).1 h.environment_bound in
      let second : (r.job.host_id == lower p host) ≡ true =
        (eq_iff r.job.host_id (lower p host)).1 h.host_bound in
      rw (h.found, first, second, authorized_record) refl

  pub update_stage-fails :
      (q : Queue) (job_id : String) (u : StageUpdate) (now : Time) (r : LifecycleRecord)
      (e : QueueError)
      → IsHeld job_id q r
      → update_record r u now ≡ err e
      → update_stage p q environment host job_id u now ≡ (q, err e)
  unfolding update_stage change_record
  update_stage-fails q job_id u now r e h refused =
      ap (λ o. change_record p q job_id (o >>= λ x. update_record x u now))
        (authorized_record-IsHeld q job_id r h)
      ∙ ap (change_record p q job_id) refused

  -- A change that lifecycle.go accepts is written.
  pub change_record-IsHeld :
      (q : Queue) (job_id : String) (m : LifecycleRecord → Outcome QueueError LifecycleRecord)
      (r r' : LifecycleRecord)
      → IsHeld job_id q r
      → m r ≡ ok r'
      → r'.job ≡ r.job
      → (q' : Queue) × (change_record p q job_id
            (authorized_record p q environment host job_id >>= m)
          ≡ (q', ok tt))
        × IsHeld job_id q' r'
  unfolding change_record
  change_record-IsHeld q job_id m r r' h e same =
      let fetched = authorized_record-IsHeld q job_id r h in
      (
        record q { lifecycle = insert (lower p job_id) r' q.lifecycle },
        ap (λ o. change_record p q job_id (o >>= m)) fetched ∙ ap (change_record p q job_id) e,
        record {
          found = lookup-insert_self (lower p job_id) r' q.lifecycle;
          environment_bound = ap (λ job. job.environment_id) same ∙ h.environment_bound;
          host_bound = ap (λ job. job.host_id) same ∙ h.host_bound;
        },
      )

  -- Each call reads the clock at the tick that is next.
  abbrev pub queue_control : (ℕ → Time) → ControlPlane (Queue × ℕ) QueueError
  queue_control clock = record {
    lease = λ s.
        let (q', o) = lease p s.0 environment host (clock s.1) (clock (s.1 + 1)) in
        ((q', s.1 + 2), o);
    acknowledge = λ job_id accepted s.
        let (q', o) =
          acknowledge p s.0 environment host job_id accepted (clock s.1) (clock (s.1 + 1)) in
        ((q', s.1 + 2), o);
    update_stage = λ job_id u s.
        let (q', o) = update_stage p s.0 environment host job_id u (clock s.1) in
        ((q', s.1 + 1), o);
    complete = λ job_id s.
        let (q', o) = complete p s.0 environment host job_id (clock s.1) in ((q', s.1 + 1), o);
  }

  pub update_same_job :
      (r : LifecycleRecord) (u : StageUpdate) (now : Time) (r' : LifecycleRecord)
      → update_record r u now ≡ ok r'
      → r'.job ≡ r.job
  update_same_job r u now r' e = elim (update_cases r u now r' e) [
    | inl same ↦ ap (λ x. x.job) same
    | inr w ↦ ap (λ x. x.job) w.result
  ]

  pub complete_same_job :
      (r : LifecycleRecord) (now : Time) (r' : LifecycleRecord)
      → complete_record r now ≡ ok r'
      → r'.job ≡ r.job
  complete_same_job r now r' e = ground (arith, complete_cases r now r' e)

  pub queue_updates :
      (clock : ℕ → Time) (job_id : String) (s : Queue × ℕ) (r : LifecycleRecord) (u : StageUpdate)
      (r' : LifecycleRecord)
      → IsHeld job_id s.0 r
      → update_record r u (clock s.1) ≡ ok r'
      → (s' : Queue × ℕ) × ((queue_control clock).update_stage job_id u s ≡ (s', ok tt))
        × IsHeld job_id s'.0 r'
  unfolding update_stage
  queue_updates clock job_id s r u r' h e =
      let (q', f, h') =
        change_record-IsHeld s.0 job_id (λ x. update_record x u (clock s.1)) r r' h e
          (update_same_job r u (clock s.1) r' e) in
      ((q', s.1 + 1), ap (λ y. ((y.0, s.1 + 1), y.1)) f, h')

  pub queue_completes :
      (clock : ℕ → Time) (job_id : String) (s : Queue × ℕ) (r : LifecycleRecord)
      (r' : LifecycleRecord)
      → IsHeld job_id s.0 r
      → complete_record r (clock s.1) ≡ ok r'
      → (s' : Queue × ℕ) × ((queue_control clock).complete job_id s ≡ (s', ok tt))
        × IsHeld job_id s'.0 r'
  unfolding complete
  queue_completes clock job_id s r r' h e =
      let (q', f, h') =
        change_record-IsHeld s.0 job_id (λ x. complete_record x (clock s.1)) r r' h e
          (complete_same_job r (clock s.1) r' e) in
      ((q', s.1 + 1), ap (λ y. ((y.0, s.1 + 1), y.1)) f, h')

  -- The queue does what the worker relies on.
  abbrev pub queue_store : (clock : ℕ → Time) (job_id : String) → Store (queue_control clock) job_id
  queue_store clock job_id = record {
    holds = λ s r. IsHeld job_id s.0 r;
    update_law = λ s r u h. (clock s.1, λ r' e. queue_updates clock job_id s r u r' h e);
    complete_law = λ s r h. (clock s.1, λ r' e. queue_completes clock job_id s r r' h e);
  }

  -- After its lease, the record of a job is in the queue, leased, and nothing else in the queue has to do with it.
  pub record IsLeased (q : Queue) (job : Job) (r : LifecycleRecord) : Type 0 where
    pub inv : QueueInv q
    pub found : lookup job.job_id q.lifecycle ≡ some r
    pub leased : r.status ≡ JobStatus.leased
    pub same : r.job ≡ job
    pub apart : Apart job.job_id q.jobs
    pub covered : Covered q.records job
    pub bound : IsFor (lower p environment) (lower p host) job

  pub lease-IsLeased :
      (q : Queue) (pruned_at now : Time) (job : Job)
      → QueueInv q
      → (lease p q environment host pruned_at now).1 ≡ ok (some job)
      → (r : LifecycleRecord) × IsLeased (lease p q environment host pruned_at now).0 job r
  unfolding lease_record
  lease-IsLeased q pruned_at now job v h = elim (lease_cases p q environment host pruned_at now v) [
    | inl (_, e) ↦ absurd (ok_none-some job (sym (ap (λ y. y.1) e) ∙ h))
    | inr (j, rest, r, taken, found, e) ↦
        let q₁ = prune_expired pruned_at q in
        let v₁ = prune-QueueInv pruned_at q v in
        let f = take_job-IsFirst (lower p environment) (lower p host) q₁.jobs j rest taken in
        let one : j ≡ job = ok_some_injective j job (sym (ap (λ y. y.1) e) ∙ h) in
        let ((r', found', _, same), _) =
          IsFirst-All (IsQueued q₁.lifecycle) _ _ q₁.jobs j rest f v₁.queued in
        let two : r' ≡ r = cc in
        let q₂ = leased_queue q₁ rest j (lease_record now r) in
        let done : IsLeased q₂ j (lease_record now r) = record {
          inv = leased-QueueInv q₁ _ _ j rest r now v₁ taken found;
          found = lookup-insert_self j.job_id (lease_record now r) q₁.lifecycle;
          leased = refl;
          same = subst (λ (x : LifecycleRecord). x.job ≡ j) two same;
          apart = (IsFirst-Distinct _ _ q₁.jobs j rest f v₁.distinct).0;
          covered = (IsFirst-All (Covered q₁.records) _ _ q₁.jobs j rest f v₁.covered).0;
          bound = f.bound;
        } in
        (
          lease_record now r,
          subst (λ y. IsLeased y.0 job (lease_record now r)) (sym e)
              (subst (λ i. IsLeased q₂ i (lease_record now r)) one done),
        )
  ]
