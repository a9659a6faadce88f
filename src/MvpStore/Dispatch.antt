-- ===== src/MvpStore/Dispatch.antt =====
-- service.go: `DispatchDue`, which hands the due schedules to the queue.
use Prim.Native.String.{◌++◌ as append_text}
use proof_layer.Base.{
  ◌≡◌, refl, sym, ap, subst, ◌∙◌, ◌≢◌, ◌⊎◌, inl, inr, true, false, String, some, List, [], ◌∷◌,
  ◌==◌, String_eq, arith, Time, Outcome, ok, err, panic, if◌then◌else◌, Bool-cases, Option-cases,
  Outcome-cases, All,
}
use proof_layer.Base.Assoc.{Assoc, lookup, insert, Values, lookup-insert, lookup-insert_self}
use proof_layer.RunQueue.Model.{Receipt, QueueError}
use proof_layer.RunQueue.Platform.{Platform}
use proof_layer.RunQueue.Queue.{Queue}
use proof_layer.RunQueue.Methods.{enqueue}
use proof_layer.MvpStore.Model.{
  StoreError, queue_failed, ScheduleStatus, ScheduleStatus_eq, Schedule, Service, Reading,
}
use proof_layer.MvpStore.Store.{
  mark_missed, queued_schedule, is_due, dispatch, dispatch_due, dispatch_request, without_dashes,
}
use proof_layer.MvpStore.Spacing.{IsFar, IsSpaced, insert-IsSpaced}

-- The store after a schedule is handed to the queue.
abbrev pub handed : Service → String → Schedule → Receipt → Service
handed v id s receipt = record v { schedules = insert id (queued_schedule s receipt) v.schedules }

handed_idle :
    (now : Time) (id j : String) (s : Schedule) (receipt : Receipt) (v : Service)
    → is_due now (lookup id v.schedules) ≡ false
    → is_due now (lookup id (handed v j s receipt).schedules) ≡ false
handed_idle now id j s receipt v idle =
    rw (lookup-insert j id (queued_schedule s receipt) v.schedules)
      (elim (j == id)
        as (λ b.
          is_due now (if b then some (queued_schedule s receipt) else lookup id v.schedules)
          ≡ false) [ true ↦ refl | false ↦ idle ])

handed_not_due :
    (now : Time) (id : String) (s : Schedule) (receipt : Receipt) (v : Service)
    → is_due now (lookup id (handed v id s receipt).schedules) ≡ false
handed_not_due now id s receipt v =
    rw (lookup-insert_self id (queued_schedule s receipt) v.schedules) refl

-- What is not planned is far from every schedule.
queued-IsFar :
    (t : Schedule)
    → t.status ≡ ScheduleStatus.queued
    → (m : Assoc String Schedule) → Values (λ (s : Schedule). IsFar s t) m
queued-IsFar t queued [] = tt
queued-IsFar t queued ((id, s) ∷ m) =
    ((λ a b c. absurd (ground (arith, queued, b))), queued-IsFar t queued m)

module _ (p : Platform) where
  abbrev enqueued : Service → Queue → Schedule → Reading → Queue × Outcome QueueError Receipt
  enqueued v q s r =
      enqueue p q (append_text "schedule_" (without_dashes s.id)) (dispatch_request v s) r.entropy
        r.pruned_at r.created_at

  -- One turn of the loop passes over the schedule, hands it to the queue, or ends the loop.
  pub dispatch_cases :
      (reading : String → Reading) (now : Time) (id : String) (ids : List String) (v : Service)
      (q : Queue)
      → ((is_due now (lookup id v.schedules) ≡ false)
          × (dispatch p reading now (id ∷ ids) v q ≡ dispatch p reading now ids v q))
        ⊎ ((s : Schedule) × (lookup id v.schedules ≡ some s)
            × (((receipt : Receipt) × (q' : Queue) × (dispatch p reading now (id ∷ ids) v q
                    ≡ dispatch p reading now ids (handed v id s receipt) q'))
                ⊎ ((q' : Queue) × (e : Outcome StoreError (Unit {0})) × (e ≢ ok tt)
                    × (dispatch p reading now (id ∷ ids) v q ≡ (v, q', e)))))
  unfolding dispatch
  dispatch_cases reading now id ids v q = elim (Option-cases (lookup id v.schedules)) [
    | inl gone ↦ inl (rw (gone, is_due) refl, rw (gone, dispatch) refl)
    | inr (s, found) ↦ (elim (Bool-cases (is_due now (some s))) [
      | inl due ↦ inr (
        s,
        found,
        (elim (Outcome-cases (enqueued v q s (reading id)).1) [
          | inl (receipt, e) ↦
              inl (receipt, (enqueued v q s (reading id)).0, rw (found, due, e, dispatch) refl)
          | inr (inl (e, fails)) ↦ inr (
            (enqueued v q s (reading id)).0,
            err (queue_failed e),
            (λ same. cc),
            rw (found, due, fails, dispatch) refl,
          )
          | inr (inr fails) ↦ inr (
            (enqueued v q s (reading id)).0,
            panic,
            (λ same. cc),
            rw (found, due, fails, dispatch) refl,
          )
        ]),
      )
      | inr later ↦ inl (rw (found) later, rw (found, later, dispatch) refl)
    ])
  ]

  dispatch_nil :
      (reading : String → Reading) (now : Time) (v : Service) (q : Queue)
      → dispatch p reading now [] v q ≡ (v, q, ok tt)
  unfolding dispatch
  dispatch_nil reading now v q = refl

  -- What is not due is not made due by the rest of the loop.
  stays_idle :
      (reading : String → Reading) (now : Time) (id : String) (ids : List String) (v : Service)
      (q : Queue) (v' : Service) (q' : Queue)
      → is_due now (lookup id v.schedules) ≡ false
      → dispatch p reading now ids v q ≡ (v', q', ok tt)
      → is_due now (lookup id v'.schedules) ≡ false
  stays_idle reading now id [] v q v' q' idle h =
      subst
        (λ (x : Service × Queue × Outcome StoreError (Unit {0})).
          is_due now (lookup id x.0.schedules) ≡ false)
        (sym (dispatch_nil reading now v q) ∙ h) idle
  stays_idle reading now id (j ∷ ids) v q v' q' idle h =
      elim (dispatch_cases reading now j ids v q) [
        | inl (_, e) ↦ stays_idle reading now id ids v q v' q' idle (sym e ∙ h)
        | inr (s, found, inl (receipt, q₁, e)) ↦
            stays_idle reading now id ids (handed v j s receipt) q₁ v' q'
              (handed_idle now id j s receipt v idle) (sym e ∙ h)
        | inr (s, found, inr (q₁, e, fails, same)) ↦ absurd (fails (ap (λ x. x.2) (sym same ∙ h)))
      ]

  -- Where the loop ends without an error, none of its schedules is due.
  dispatched :
      (reading : String → Reading) (now : Time) (ids : List String) (v : Service) (q : Queue)
      (v' : Service) (q' : Queue)
      → dispatch p reading now ids v q ≡ (v', q', ok tt)
      → All (λ id. is_due now (lookup id v'.schedules) ≡ false) ids
  dispatched reading now [] v q v' q' h = tt
  dispatched reading now (id ∷ ids) v q v' q' h = elim (dispatch_cases reading now id ids v q) [
    | inl (idle, e) ↦ (
      stays_idle reading now id ids v q v' q' idle (sym e ∙ h),
      dispatched reading now ids v q v' q' (sym e ∙ h),
    )
    | inr (s, found, inl (receipt, q₁, e)) ↦ (
      stays_idle reading now id ids (handed v id s receipt) q₁ v' q'
          (handed_not_due now id s receipt v) (sym e ∙ h),
      dispatched reading now ids (handed v id s receipt) q₁ v' q' (sym e ∙ h),
    )
    | inr (s, found, inr (q₁, e, fails, same)) ↦ absurd (fails (ap (λ x. x.2) (sym same ∙ h)))
  ]

  -- `DispatchDue`, where it ends without an error, leaves no schedule of the plan that is due.
  pub dispatch_due-idle :
      (reading : String → Reading) (now : Time) (v : Service) (q : Queue) (v' : Service)
      (q' : Queue)
      → dispatch_due p reading now v q ≡ (v', q', ok tt)
      → All (λ id. is_due now (lookup id v'.schedules) ≡ false) v.schedule_order
  unfolding dispatch_due
  dispatch_due-idle reading now v q v' q' h =
      dispatched reading now v.schedule_order (mark_missed now v) q v' q' h

  -- The loop keeps the distances: it only takes schedules out of the plan.
  pub dispatch-IsSpaced :
      (reading : String → Reading) (now : Time) (ids : List String) (v : Service) (q : Queue)
      → IsSpaced v.schedules
      → IsSpaced (dispatch p reading now ids v q).0.schedules
  dispatch-IsSpaced reading now [] v q h =
      subst (λ (x : Service × Queue × Outcome StoreError (Unit {0})). IsSpaced x.0.schedules)
        (sym (dispatch_nil reading now v q)) h
  dispatch-IsSpaced reading now (id ∷ ids) v q h = elim (dispatch_cases reading now id ids v q) [
    | inl (_, e) ↦
        subst (λ (x : Service × Queue × Outcome StoreError (Unit {0})). IsSpaced x.0.schedules)
          (sym e) (dispatch-IsSpaced reading now ids v q h)
    | inr (s, found, inl (receipt, q₁, e)) ↦
        subst (λ (x : Service × Queue × Outcome StoreError (Unit {0})). IsSpaced x.0.schedules)
          (sym e)
          (dispatch-IsSpaced reading now ids (handed v id s receipt) q₁ (
            insert-IsSpaced id (queued_schedule s receipt) v.schedules h
              (queued-IsFar (queued_schedule s receipt) refl v.schedules)))
    | inr (s, found, inr (q₁, e, fails, same)) ↦
        subst (λ (x : Service × Queue × Outcome StoreError (Unit {0})). IsSpaced x.0.schedules)
          (sym same) h
  ]
