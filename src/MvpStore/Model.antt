-- ===== src/MvpStore/Model.antt =====
-- The data of control-plane/internal/mvpstore/service.go.
use proof_layer.Base.{
  ℕ, ◌*◌, ◌≡◌, ◌↔◌, Bool, true, String, Option, List, arith, Time, Duration, second, minute, hour,
  Eq, nat_eq,
}
use proof_layer.Base.Assoc.{Assoc}
use proof_layer.RunQueue.Model.{QueueError}
use proof_layer.RunQueue.Platform.{Entropy}

pub data StoreError : Type 0 where
  invalid_configuration host_access_denied scenario_invalid : StoreError
  schedule_invalid schedule_missed schedule_conflict random_failed : StoreError
  -- an error that `DispatchDue` passes on from the queue
  queue_failed : QueueError → StoreError

pub data ScheduleStatus : Type 0 where
  planned queued missed : ScheduleStatus

abbrev status_code : ScheduleStatus → ℕ
status_code ScheduleStatus.planned = 0
status_code ScheduleStatus.queued = 1
status_code ScheduleStatus.missed = 2

abbrev pub schedule_status_eq : ScheduleStatus → ScheduleStatus → Bool
schedule_status_eq a b = nat_eq (status_code a) (status_code b)

pub schedule_status_eq_iff : (a b : ScheduleStatus) → (schedule_status_eq a b ≡ true) ↔ (a ≡ b)
schedule_status_eq_iff a b = ground arith

instance abbrev pub ScheduleStatus_eq : Eq ScheduleStatus
ScheduleStatus_eq = record { equal = schedule_status_eq; reflects = schedule_status_eq_iff }

abbrev pub minimum_schedule_lead : Duration
minimum_schedule_lead = 30 * second

abbrev pub maximum_schedule_lead : Duration
maximum_schedule_lead = 30 * (24 * hour)

abbrev pub conflict_window : Duration
conflict_window = 60 * second

abbrev pub missed_grace : Duration
missed_grace = 5 * minute

abbrev pub offline_after : Duration
offline_after = 2 * minute

pub record Scenario : Type 0 where
  pub id : String
  pub version : String
  pub name : String
  pub description : String
  pub risk_level : String
  pub expected_effects : List String
  pub cleanup_required : Bool

pub record Host : Type 0 where
  pub id : String
  pub environment_id : String
  pub runner_id : String
  pub name : String
  pub status : String
  pub runner_version : String
  pub last_seen_at : Option Time
  pub allowed_scenario_ids : List String

pub record ScheduleRequest : Type 0 where
  pub schema_version : String
  pub host_id : String
  pub scenario_id : String
  pub scenario_version : String
  pub scheduled_for_local : String
  pub time_zone : String

pub record Schedule : Type 0 where
  pub schema_version : String
  pub id : String
  pub host_id : String
  pub scenario_id : String
  pub scenario_version : String
  pub scheduled_for_local : String
  pub scheduled_for_utc : Time
  pub time_zone : String
  pub status : ScheduleStatus
  pub created_at : Time
  pub job_id : String
  pub correlation_id : String

pub record Config : Type 0 where
  pub workspace_id : String
  pub environment_id : String
  pub host_id : String
  pub runner_id : String
  pub host_name : String
  pub runner_version : String

pub record Service : Type 0 where
  pub workspace_id : String
  pub environment_id : String
  pub host_id : String
  pub runner_id : String
  pub host_name : String
  pub runner_version : String
  pub last_seen_at : Option Time
  pub scenarios : List Scenario
  pub schedules : Assoc String Schedule
  pub schedule_order : List String

-- What the store takes from Go's package time: the zones that can be loaded, and the parsing and
-- formatting of a local time in a zone, with the layout of the source.
pub record Calendar : Type 0 where
  pub has_location : String → Bool
  pub parse_local : String → String → Option Time
  pub format_local : String → Time → String

-- What one call of `Enqueue` reads: random bytes, and the clock, before and after the pruning.
pub record Reading : Type 0 where
  pub entropy : Entropy
  pub pruned_at : Time
  pub created_at : Time
