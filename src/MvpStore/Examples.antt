-- ===== src/MvpStore/Examples.antt =====
-- Runs of the store on concrete input: tests, and the theorems at inputs that meet their hypotheses.
use proof_layer.Base.{
  ◌+◌, ◌*◌, ◌≡◌, refl, true, false, String, none, some, [], ◌==◌, Time, second, Outcome, ok, All,
  String_eq, to_lower, hex, if◌then◌else◌, ltb, length,
}
use proof_layer.Base.Assoc.{lookup, insert, map_values}
use proof_layer.RunQueue.Queue.{Queue, prune_expired, admit, normalize, validate}
use proof_layer.RunQueue.Methods.{enqueue, prepare, enqueue_locked, enqueue_new, create_job}
use proof_layer.RunQueue.Patterns.{matches_idempotency, uuid_of, valid_uuid}
use proof_layer.RunQueue.Stubs.{
  stub, config as queue_config, sixteen, entropy_of, start, empty_queue,
}
use proof_layer.MvpStore.Model.{
  StoreError, ScheduleRequest, Schedule, Config, Service, Calendar, Reading,
}
use proof_layer.MvpStore.Store.{
  new, new_schedule, create_schedule, create_at, place, scheduled_utc, authorize, conflicts,
  mark_missed, dispatch_due, dispatch, is_due,
}
use proof_layer.MvpStore.Spacing.{IsSpaced}
use proof_layer.MvpStore.Dispatch.{dispatch_due-idle}
use proof_layer.MvpStore.Plans.{
  IsPlaced, Reached, made, after_call, creates, create_schedule-IsPlaced, Reached-IsSpaced,
}

abbrev ten_past : Time
ten_past = start + 600 * second

-- A calendar that knows two local times.
abbrev calendar : Calendar
calendar = record {
  has_location = λ zone. true;
  parse_local = λ zone text.
      if text == "2025-12-01T12:10:00"
      then some ten_past
      else if text == "2025-12-01T12:12:00"
      then some (ten_past + 120 * second)
      else none;
  format_local = λ zone t. if ltb ten_past t then "2025-12-01T12:12:00" else "2025-12-01T12:10:00";
}

abbrev config : Config
config = record {
  workspace_id = "w";
  environment_id = queue_config.environment_id;
  host_id = queue_config.host_id;
  runner_id = "r";
  host_name = "host";
  runner_version = "";
}

abbrev request : String → ScheduleRequest
request text = record {
  schema_version = "1.0";
  host_id = queue_config.host_id;
  scenario_id = "windows-process-marker";
  scenario_version = "0.1.0";
  scheduled_for_local = text;
  time_zone = "UTC";
}

abbrev blank_service : Service
blank_service = record {
  workspace_id = "";
  environment_id = "";
  host_id = "";
  runner_id = "";
  host_name = "";
  runner_version = "";
  last_seen_at = none;
  scenarios = [];
  schedules = [];
  schedule_order = [];
}

abbrev or_blank : Outcome StoreError Service → Service
or_blank (ok v) = v
or_blank _ = blank_service

store : Service
unfolding new stub to_lower
store = or_blank (new stub config)

test_new : new stub config ≡ ok store
unfolding store
test_new = refl

first_store : Service
first_store =
    (create_schedule stub calendar store (request "2025-12-01T12:10:00") start (some (sixteen 0))).0

second_store : Service
second_store =
    (create_schedule stub calendar first_store (request "2025-12-01T12:12:00") start
      (some (sixteen 1))).0

first_schedule : Schedule
first_schedule =
    or_blank_schedule
      (create_schedule stub calendar store (request "2025-12-01T12:10:00") start
        (some (sixteen 0))).1
  where
    or_blank_schedule : Outcome StoreError Schedule → Schedule
    or_blank_schedule (ok s) = s
    or_blank_schedule _ = new_schedule (request "") 0 0 []

create_schedule-IsPlaced_example : IsPlaced start store first_store first_schedule
unfolding first_schedule new create_schedule create_at place scheduled_utc authorize conflicts
    mark_missed uuid_of lookup insert map_values stub to_lower hex store first_store second_store
create_schedule-IsPlaced_example =
    create_schedule-IsPlaced stub calendar store first_store (request "2025-12-01T12:10:00") start
      (some (sixteen 0)) first_schedule refl

second-Reached : Reached stub second_store
unfolding second_store first_store
second-Reached =
    after_call
      (after_call (made config test_new)
        (creates calendar store (request "2025-12-01T12:10:00") start (some (sixteen 0))))
      (creates calendar first_store (request "2025-12-01T12:12:00") start (some (sixteen 1)))

Reached-IsSpaced_example : IsSpaced second_store.schedules
Reached-IsSpaced_example = Reached-IsSpaced stub second-Reached

test_plan : length second_store.schedules ≡ 2
unfolding new create_schedule create_at place scheduled_utc authorize conflicts mark_missed uuid_of
    lookup insert map_values stub to_lower hex store first_store second_store
test_plan = refl

abbrev reading : String → Reading
reading id = record { entropy = entropy_of 0; pruned_at = ten_past; created_at = ten_past }

handed_store : Service
handed_store = (dispatch_due stub reading ten_past second_store empty_queue).0

handed_queue : Queue
handed_queue = (dispatch_due stub reading ten_past second_store empty_queue).1

dispatch_due-idle_example :
    All
      (λ id. is_due ten_past (lookup id handed_store.schedules) ≡ false)
      second_store.schedule_order
unfolding handed_store handed_queue new create_schedule create_at place scheduled_utc authorize
    conflicts mark_missed uuid_of lookup insert map_values stub to_lower hex store first_store
    second_store dispatch_due dispatch enqueue prepare enqueue_locked enqueue_new create_job admit
    prune_expired validate normalize matches_idempotency empty_queue valid_uuid
    proof_layer.RunQueue.Queue.new
dispatch_due-idle_example =
    dispatch_due-idle stub reading ten_past second_store empty_queue handed_store handed_queue refl
