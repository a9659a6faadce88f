-- ===== src/MvpStore/Spacing.antt =====
-- service.go: the planned schedules of a host keep their distance.
use proof_layer.Base.{
  ◌≤◌, ◌≡◌, sym, subst, ◌≢◌, ◌⊎◌, inl, inr, true, false, String, [], ◌∷◌, ◌==◌, String_eq, arith,
  Time, if◌then◌else◌,
}
use proof_layer.Base.Assoc.{Assoc, insert, map_values, Values, Values-insert, Values-map_values}
use proof_layer.MvpStore.Model.{ScheduleStatus, ScheduleStatus_eq, conflict_window, Schedule}
use proof_layer.MvpStore.Store.{difference, conflicts}

-- Two planned schedules of one host are a minute apart at least.
abbrev pub IsFar : Schedule → Schedule → Type 0
IsFar s t =
    s.status ≡ ScheduleStatus.planned
    → t.status ≡ ScheduleStatus.planned
    → s.host_id ≡ t.host_id
    → conflict_window ≤ difference s.scheduled_for_utc t.scheduled_for_utc

abbrev pub IsSpaced : Assoc String Schedule → Type 0
IsSpaced [] = Unit
IsSpaced ((id, s) ∷ rest) = Values (IsFar s) rest × IsSpaced rest

difference_comm : (a b : Time) → difference a b ≡ difference b a
difference_comm a b = ground arith

IsFar-sym : (s t : Schedule) → IsFar s t → IsFar t s
IsFar-sym s t far a b c =
    subst (λ n. conflict_window ≤ n) (difference_comm s.scheduled_for_utc t.scheduled_for_utc)
      (far b a (sym c))

conflict_step :
    (host : String) (at : Time) (id : String) (s : Schedule) (rest : Assoc String Schedule)
    → conflicts host at ((id, s) ∷ rest) ≡ false
    → (conflicts host at rest ≡ false)
      × (s.status ≡ ScheduleStatus.planned
          → (s.host_id == host) ≡ true
          → conflict_window ≤ difference s.scheduled_for_utc at)
unfolding conflicts
conflict_step host at id s rest h = (ground (arith, h), λ a b. ground (arith, h, a, b))

pub conflicts-IsFar :
    (t : Schedule) (m : Assoc String Schedule)
    → conflicts t.host_id t.scheduled_for_utc m ≡ false
    → Values (λ (s : Schedule). IsFar s t) m
conflicts-IsFar t [] h = tt
conflicts-IsFar t ((id, s) ∷ rest) h =
    let (others, far) = conflict_step t.host_id t.scheduled_for_utc id s rest h in
    ((λ a b c. far a ((String_eq.reflects s.host_id t.host_id).1 c)), conflicts-IsFar t rest others)

Values-map :
    (P Q : Schedule → Type 0) (m : Assoc String Schedule)
    → ((s : Schedule) → P s → Q s)
    → Values P m
    → Values Q m
Values-map P Q [] f h = tt
Values-map P Q ((j, s) ∷ m) f h = (f s h.0, Values-map P Q m f h.1)

pub insert-IsSpaced :
    (k : String) (t : Schedule) (m : Assoc String Schedule)
    → IsSpaced m
    → Values (λ (s : Schedule). IsFar s t) m
    → IsSpaced (insert k t m)
unfolding insert
insert-IsSpaced k t [] h far = (tt, tt)
insert-IsSpaced k t ((j, s) ∷ m) h far =
    elim (j == k) as (λ b. IsSpaced (if b then (j, t) ∷ m else (j, s) ∷ insert k t m)) [
      | true ↦
          (Values-map (λ (x : Schedule). IsFar x t) (IsFar t) m (λ x. IsFar-sym x t) far.1, h.1)
      | false ↦ (Values-insert (IsFar s) k t m far.0 h.0, insert-IsSpaced k t m h.1 far.1)
    ]

-- A schedule that changes only to be planned no more.
abbrev pub IsCalm : (Schedule → Schedule) → Type 0
IsCalm f = (s : Schedule) → (f s ≡ s) ⊎ ((f s).status ≢ ScheduleStatus.planned)

IsFar-first : (f : Schedule → Schedule) → IsCalm f → (s t : Schedule) → IsFar s t → IsFar (f s) t
IsFar-first f calm s t far = elim (calm s) [
  | inl same ↦ subst (λ x. IsFar x t) (sym same) far
  | inr idle ↦ (λ a b c. absurd (idle a))
]

IsFar-second : (f : Schedule → Schedule) → IsCalm f → (s t : Schedule) → IsFar s t → IsFar s (f t)
IsFar-second f calm s t far = elim (calm t) [
  | inl same ↦ subst (IsFar s) (sym same) far
  | inr idle ↦ (λ a b c. absurd (idle b))
]

-- A change that leaves a planned schedule as it was keeps the distances.
pub map_values-IsSpaced :
    (f : Schedule → Schedule) (m : Assoc String Schedule)
    → IsCalm f
    → IsSpaced m
    → IsSpaced (map_values f m)
unfolding map_values
map_values-IsSpaced f [] calm h = tt
map_values-IsSpaced f ((j, s) ∷ m) calm h = (
  Values-map_values (IsFar (f s)) f m (λ t far. IsFar-second f calm (f s) t far)
      (Values-map (IsFar s) (IsFar (f s)) m (λ t far. IsFar-first f calm s t far) h.0),
  map_values-IsSpaced f m calm h.1,
)
