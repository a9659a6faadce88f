-- ===== src/MvpStore/Plans.antt =====
-- service.go: what a new schedule meets, and the plans that runs of the store reach.
use proof_layer.Base.{
  ◌+◌, ◌≤◌, ◌≡◌, refl, sym, ap, subst, ◌∙◌, ◌≢◌, ◌⊎◌, inl, inr, true, false, ◌&&◌, String, Option,
  [], ◌==◌, arith, Bytes, Time, Outcome, ok, before, after, if◌then◌else◌, Bool-cases, Option-cases,
  Outcome-cases, String_eq,
}
use proof_layer.Base.Assoc.{Values}
use proof_layer.RunQueue.Platform.{Platform}
use proof_layer.RunQueue.Queue.{Queue}
use proof_layer.MvpStore.Model.{
  StoreError, ScheduleStatus, ScheduleStatus_eq, ScheduleRequest, Schedule, Config, Service,
  Calendar, Reading, minimum_schedule_lead, maximum_schedule_lead, missed_grace,
}
use proof_layer.MvpStore.Store.{
  conflicts, missed_schedule, mark_missed, new, record_runner_seen, normal_request, scheduled_utc,
  new_schedule, add_schedule, place, create_at, create_schedule, dispatch_due, schedules,
}
use proof_layer.MvpStore.Spacing.{
  IsFar, IsSpaced, IsCalm, conflicts-IsFar, insert-IsSpaced, map_values-IsSpaced,
}
use proof_layer.MvpStore.Dispatch.{dispatch-IsSpaced}

missed-IsCalm : (now : Time) → IsCalm (missed_schedule now)
missed-IsCalm now s =
    elim (s.status == ScheduleStatus.planned && after now (s.scheduled_for_utc + missed_grace))
      as (λ b.
        let t = if b then record s { status = ScheduleStatus.missed } else s in
        (t ≡ s) ⊎ (t.status ≢ ScheduleStatus.planned)) [
          | true ↦ inr (λ same. ground (arith, same))
          | false ↦ inl refl
        ]

mark_missed-IsSpaced :
    (now : Time) (v : Service) → IsSpaced v.schedules → IsSpaced (mark_missed now v).schedules
unfolding mark_missed
mark_missed-IsSpaced now v h =
    map_values-IsSpaced (missed_schedule now) v.schedules (missed-IsCalm now) h

ok_injective : (s t : Schedule) → ◌≡◌ {A = Outcome StoreError Schedule} (ok s) (ok t) → s ≡ t
ok_injective s t same = cc

-- A new schedule is planned, between 30 seconds and 30 days ahead, and far from the planned ones.
pub record IsPlaced (now : Time) (v v' : Service) (s : Schedule) : Type 0 where
  pub planned : s.status ≡ ScheduleStatus.planned
  pub earliest : now + minimum_schedule_lead ≤ s.scheduled_for_utc
  pub latest : s.scheduled_for_utc ≤ now + maximum_schedule_lead
  pub far : Values (λ (t : Schedule). IsFar t s) (mark_missed now v).schedules
  pub added : v' ≡ add_schedule (mark_missed now v) s

module _ (p : Platform) where
  place_cases :
      (v : Service) (request : ScheduleRequest) (at now : Time) (entropy : Option Bytes)
      → ((place p v request at now entropy).0 ≡ v)
          × ((s : Schedule) → (place p v request at now entropy).1 ≢ ok s)
        ⊎ ((bytes : Bytes) × (conflicts request.host_id at v.schedules ≡ false)
            × (place p v request at now entropy ≡ (
              add_schedule v (new_schedule request at now bytes),
              ok (new_schedule request at now bytes),
            )))
  unfolding place
  place_cases v request at now entropy =
      elim (Bool-cases (conflicts request.host_id at v.schedules)) [
        | inl near ↦ inl (rw (near, place) refl, (λ s. rw (near, place) (λ same. cc)))
        | inr free ↦ (elim (Option-cases entropy) [
          | inl fails ↦
              inl (rw (free, fails, place) refl, (λ s. rw (free, fails, place) (λ same. cc)))
          | inr (bytes, drawn) ↦ inr (bytes, free, rw (free, drawn, place) refl)
        ])
      ]

  create_at_cases :
      (v : Service) (request : ScheduleRequest) (at now : Time) (entropy : Option Bytes)
      → ((((create_at p v request at now entropy).0 ≡ v)
            ⊎ ((create_at p v request at now entropy).0 ≡ mark_missed now v))
          × ((s : Schedule) → (create_at p v request at now entropy).1 ≢ ok s))
        ⊎ ((bytes : Bytes) × (before at (now + minimum_schedule_lead) ≡ false)
            × (after at (now + maximum_schedule_lead) ≡ false)
            × (conflicts request.host_id at (mark_missed now v).schedules ≡ false)
            × (create_at p v request at now entropy ≡ (
              add_schedule (mark_missed now v) (new_schedule request at now bytes),
              ok (new_schedule request at now bytes),
            )))
  unfolding create_at
  create_at_cases v request at now entropy =
      elim (Bool-cases (before at (now + minimum_schedule_lead))) [
        | inl soon ↦ inl (inl (rw (soon, create_at) refl), (λ s. rw (soon, create_at) (λ same. cc)))
        | inr later ↦ (elim (Bool-cases (after at (now + maximum_schedule_lead))) [
          | inl far ↦ inl (
            inl (rw (later, far, create_at) refl),
            (λ s. rw (later, far, create_at) (λ same. cc)),
          )
          | inr near ↦ (elim (place_cases (mark_missed now v) request at now entropy) [
            | inl (kept, fails) ↦ inl (
              inr (rw (later, near, create_at) kept),
              (λ s. rw (later, near, create_at) (fails s)),
            )
            | inr (bytes, free, e) ↦ inr (bytes, later, near, free, rw (later, near, create_at) e)
          ])
        ])
      ]

  create_cases :
      (calendar : Calendar) (v : Service) (request : ScheduleRequest) (now : Time)
      (entropy : Option Bytes)
      → ((((create_schedule p calendar v request now entropy).0 ≡ v)
            ⊎ ((create_schedule p calendar v request now entropy).0 ≡ mark_missed now v))
          × ((s : Schedule) → (create_schedule p calendar v request now entropy).1 ≢ ok s))
        ⊎ ((at : Time) × (bytes : Bytes) × (before at (now + minimum_schedule_lead) ≡ false)
            × (after at (now + maximum_schedule_lead) ≡ false)
            × (conflicts (normal_request p request).host_id at (mark_missed now v).schedules
                ≡ false)
            × (create_schedule p calendar v request now entropy ≡ (
              add_schedule
                  (mark_missed now v)
                  (new_schedule (normal_request p request) at now bytes),
              ok (new_schedule (normal_request p request) at now bytes),
            )))
  unfolding create_schedule
  create_cases calendar v request now entropy =
      elim (Outcome-cases (scheduled_utc p calendar v (normal_request p request))) [
        | inl (at, e) ↦ (elim (create_at_cases v (normal_request p request) at now entropy) [
          | inl (kept, fails) ↦
              inl (rw (e, create_schedule) kept, (λ s. rw (e, create_schedule) (fails s)))
          | inr (bytes, later, near, free, made) ↦
              inr (at, bytes, later, near, free, rw (e, create_schedule) made)
        ])
        | inr (inl (e, h)) ↦
            inl (inl (rw (h, create_schedule) refl), (λ s. rw (h, create_schedule) (λ same. cc)))
        | inr (inr h) ↦
            inl (inl (rw (h, create_schedule) refl), (λ s. rw (h, create_schedule) (λ same. cc)))
      ]

  -- A schedule that `CreateSchedule` accepts is planned, between 30 seconds and 30 days ahead and a
  -- minute at least from the other planned ones of the host, and it is added to the plan.
  pub create_schedule-IsPlaced :
      (calendar : Calendar) (v v' : Service) (request : ScheduleRequest) (now : Time)
      (entropy : Option Bytes) (s : Schedule)
      → create_schedule p calendar v request now entropy ≡ (v', ok s)
      → IsPlaced now v v' s
  create_schedule-IsPlaced calendar v v' request now entropy s h =
      elim (create_cases calendar v request now entropy) [
        | inl (_, fails) ↦ absurd (fails s (ap (λ x. x.1) h))
        | inr (at, bytes, later, near, free, made) ↦
            let r = normal_request p request in
            let placed = new_schedule r at now bytes in
            let store : add_schedule (mark_missed now v) placed ≡ v' =
              ap (λ (x : Service × Outcome StoreError Schedule). x.0) (sym made ∙ h) in
            let one =
              ok_injective placed s
                (ap (λ (x : Service × Outcome StoreError Schedule). x.1) (sym made ∙ h)) in
            subst (IsPlaced now v v') one (record {
              planned = refl;
              earliest = ground (arith, later);
              latest = ground (arith, near);
              far =
                  conflicts-IsFar (new_schedule r at now bytes) (mark_missed now v).schedules free;
              added = sym store;
            })
      ]

  create-IsSpaced :
      (calendar : Calendar) (v : Service) (request : ScheduleRequest) (now : Time)
      (entropy : Option Bytes)
      → IsSpaced v.schedules
      → IsSpaced (create_schedule p calendar v request now entropy).0.schedules
  create-IsSpaced calendar v request now entropy h =
      elim (create_cases calendar v request now entropy) [
        | inl (inl kept, _) ↦ subst (λ (x : Service). IsSpaced x.schedules) (sym kept) h
        | inl (inr marked, _) ↦
            subst (λ (x : Service). IsSpaced x.schedules) (sym marked)
              (mark_missed-IsSpaced now v h)
        | inr (at, bytes, _, _, free, made) ↦
            let s = new_schedule (normal_request p request) at now bytes in
            subst (λ (x : Service × Outcome StoreError Schedule). IsSpaced x.0.schedules) (sym made)
              (insert-IsSpaced s.id s (mark_missed now v).schedules (mark_missed-IsSpaced now v h)
                (conflicts-IsFar s (mark_missed now v).schedules free))
      ]

  -- One call of a method, with the store that it leaves.
  pub data Call : Service → Service → Type 0 where
    creates :
        (calendar : Calendar) (v : Service) (request : ScheduleRequest) (now : Time)
        (entropy : Option Bytes)
        → Call v (create_schedule p calendar v request now entropy).0
    sees :
        (v v' : Service) (runner version : String) (now : Time)
        → record_runner_seen p v runner version now ≡ ok v'
        → Call v v'
    lists : (v : Service) (now : Time) → Call v (schedules v now).0
    dispatches :
        (reading : String → Reading) (now : Time) (v : Service) (q : Queue)
        → Call v (dispatch_due p reading now v q).0

  -- A run from a new store.
  pub data Reached : Service → Type 0 where
    made : {v : Service} (c : Config) → new p c ≡ ok v → Reached v
    after_call : {v v' : Service} → Reached v → Call v v' → Reached v'

  seen_schedules :
      (v v' : Service) (runner version : String) (now : Time)
      → record_runner_seen p v runner version now ≡ ok v'
      → v'.schedules ≡ v.schedules
  unfolding record_runner_seen
  seen_schedules v v' runner version now h = ground (arith, h)

  new_schedules : (c : Config) (v : Service) → new p c ≡ ok v → v.schedules ≡ []
  unfolding new
  new_schedules c v h = ground (arith, h)

  Call-IsSpaced : {v v' : Service} → Call v v' → IsSpaced v.schedules → IsSpaced v'.schedules
  unfolding schedules dispatch_due
  Call-IsSpaced (creates calendar v request now entropy) h =
      create-IsSpaced calendar v request now entropy h
  Call-IsSpaced (sees v v' runner version now seen) h =
      subst IsSpaced (sym (seen_schedules v v' runner version now seen)) h
  Call-IsSpaced (lists v now) h = mark_missed-IsSpaced now v h
  Call-IsSpaced (dispatches reading now v q) h =
      dispatch-IsSpaced p reading now v.schedule_order (mark_missed now v) q
        (mark_missed-IsSpaced now v h)

  -- In every store that a run of calls reaches, any two planned schedules of a host are a minute
  -- apart at least.
  pub Reached-IsSpaced : {v : Service} → Reached v → IsSpaced v.schedules
  Reached-IsSpaced {v} (made c h) = subst IsSpaced (sym (new_schedules c v h)) tt
  Reached-IsSpaced (after_call r call) = Call-IsSpaced call (Reached-IsSpaced r)
