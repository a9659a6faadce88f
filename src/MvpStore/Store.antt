-- ===== src/MvpStore/Store.antt =====
-- control-plane/internal/mvpstore/service.go: the operations, under the service's mutex.
use Prim.Native.Char.{code}
use Prim.Native.String.{◌++◌ as append_text}
use proof_layer.Base.{
  ◌+◌, Bool, true, false, not, ◌&&◌, ◌||◌, String, Option, none, some, List, [], ◌∷◌, ◌++◌, map,
  ◌==◌, String_eq, Bytes, Time, Duration, before, after, Outcome, ok, err, panic, ◌>>=◌, ◌>>◌,
  guard, or_fail, leb, ltb, nat_eq, any, if◌then◌else◌, byte_len, sub_time,
}
use proof_layer.Base.Assoc.{Assoc, lookup, insert, map_values}
use proof_layer.RunQueue.Model.{CreateRequest, Receipt}
use proof_layer.RunQueue.Platform.{Platform}
use proof_layer.RunQueue.Patterns.{uuid_of}
use proof_layer.RunQueue.Queue.{Queue}
use proof_layer.RunQueue.Methods.{enqueue, lower}
use proof_layer.MvpStore.Model.{
  StoreError, invalid_configuration, host_access_denied, scenario_invalid, schedule_invalid,
  schedule_missed, schedule_conflict, random_failed, queue_failed, ScheduleStatus,
  ScheduleStatus_eq, minimum_schedule_lead, maximum_schedule_lead, conflict_window, missed_grace,
  offline_after, Scenario, Host, ScheduleRequest, Schedule, Config, Service, Calendar, Reading,
}

-- `defaultScenarios`
abbrev pub default_scenarios : List Scenario
default_scenarios =
    record {
      id = "windows-process-marker";
      version = "0.1.0";
      name = "Windows Process Marker";
      description = "Creates a harmless correlation marker in an approved child process.";
      risk_level = "low";
      expected_effects = "One short-lived cmd.exe process" ∷ "One Sysmon process-create event" ∷ [];
      cleanup_required = true;
    }
    ∷ record {
      id = "windows-registry-run-key-canary";
      version = "0.1.0";
      name = "Registry Run Key Canary";
      description = "Creates and removes one synthetic per-user Run key value.";
      risk_level = "guarded";
      expected_effects =
          "One HKCU Run value" ∷ "Registry telemetry" ∷ "Mandatory value removal" ∷ [];
      cleanup_required = true;
    }
    ∷ record {
      id = "windows-scheduled-task-canary";
      version = "0.1.0";
      name = "Scheduled Task Canary";
      description = "Registers and removes one non-executing synthetic scheduled task.";
      risk_level = "guarded";
      expected_effects =
          "One disabled task definition" ∷ "Task Scheduler telemetry" ∷ "Mandatory task removal"
          ∷ [];
      cleanup_required = true;
    }
    ∷ []

-- `strings.ContainsAny(version, "\r\n\t ")`
abbrev has_space : String → Bool
has_space String.[] = false
has_space (String.◌∷◌ c s) =
    nat_eq (code c) 13
    || nat_eq (code c) 10
    || nat_eq (code c) 9
    || nat_eq (code c) 32
    || has_space s

-- `strings.ReplaceAll(id, "-", "")`
abbrev pub without_dashes : String → String
without_dashes String.[] = ""
without_dashes (String.◌∷◌ c s) =
    let rest = without_dashes s in if nat_eq (code c) 45 then rest else String.◌∷◌ c rest

-- `existing.ScheduledForUTC.Sub(scheduledUTC)`, without its sign.
abbrev pub difference : Time → Time → Duration
difference a b = if leb a b then sub_time b a else sub_time a b

-- The loop of `CreateSchedule` over the schedules.
unfoldable pub conflicts : String → Time → Assoc String Schedule → Bool
conflicts host at [] = false
conflicts host at ((id, s) ∷ rest) =
    let others = conflicts host at rest in
    if not (s.status == ScheduleStatus.planned) || not (s.host_id == host)
    then others
    else if ltb (difference s.scheduled_for_utc at) conflict_window
    then true
    else others

abbrev pub missed_schedule : Time → Schedule → Schedule
missed_schedule now s =
    if s.status == ScheduleStatus.planned && after now (s.scheduled_for_utc + missed_grace)
    then record s { status = ScheduleStatus.missed }
    else s

-- `markMissedLocked`
unfoldable pub mark_missed : Time → Service → Service
unfolding map_values
mark_missed now v = record v { schedules = map_values (missed_schedule now) v.schedules }

abbrev pub new_schedule : ScheduleRequest → Time → Time → Bytes → Schedule
new_schedule request at now bytes = record {
  schema_version = "1.0";
  id = uuid_of bytes;
  host_id = request.host_id;
  scenario_id = request.scenario_id;
  scenario_version = request.scenario_version;
  scheduled_for_local = request.scheduled_for_local;
  scheduled_for_utc = at;
  time_zone = request.time_zone;
  status = ScheduleStatus.planned;
  created_at = now;
  job_id = "";
  correlation_id = "";
}

abbrev pub add_schedule : Service → Schedule → Service
add_schedule v s = record v {
  schedules = insert s.id s v.schedules;
  schedule_order = v.schedule_order ++ (s.id ∷ []);
}

abbrev pub dispatch_request : Service → Schedule → CreateRequest
dispatch_request v s = record {
  schema_version = "1.0";
  environment_id = v.environment_id;
  host_id = s.host_id;
  scenario_id = s.scenario_id;
  scenario_version = s.scenario_version;
}

abbrev pub queued_schedule : Schedule → Receipt → Schedule
queued_schedule s receipt = record s {
  status = ScheduleStatus.queued;
  job_id = receipt.job_id;
  correlation_id = receipt.correlation_id;
}

-- A missing key reads as the zero `Schedule`, whose status is not planned.
abbrev pub is_due : Time → Option Schedule → Bool
is_due now none = false
is_due now (some s) = s.status == ScheduleStatus.planned && not (before now s.scheduled_for_utc)

module _ (p : Platform) where
  -- `New`
  unfoldable pub new : Config → Outcome StoreError Service
  new c = do
    guard
        (not (
          c.host_name == ""
          || ltb 80 (byte_len c.host_name)
          || lower p c.workspace_id == ""
          || lower p c.environment_id == ""
          || lower p c.host_id == ""))
        invalid_configuration
    ok (record {
      workspace_id = lower p c.workspace_id;
      environment_id = lower p c.environment_id;
      host_id = lower p c.host_id;
      runner_id = lower p c.runner_id;
      host_name = c.host_name;
      runner_version = if c.runner_version == "" then "0.1.0" else c.runner_version;
      last_seen_at = none;
      scenarios = default_scenarios;
      schedules = [];
      schedule_order = [];
    })

  -- `authorizeLocked`
  unfoldable pub authorize : Service → String → String → String → Outcome StoreError (Unit {0})
  authorize v host scenario version = do
    guard (lower p host == v.host_id) host_access_denied
    guard (any (λ (s : Scenario). s.id == lower p scenario && s.version == version) v.scenarios)
        scenario_invalid

  -- `RecordRunnerSeen`
  unfoldable pub record_runner_seen : Service → String → String → Time → Outcome StoreError Service
  record_runner_seen v runner version now = do
    guard (not (v.runner_id == "" || not (lower p runner == v.runner_id))) host_access_denied
    guard (version == "" || not (ltb 32 (byte_len version) || has_space version))
        invalid_configuration
    ok (record v {
      runner_version = if version == "" then v.runner_version else version;
      last_seen_at = some now;
    })

  abbrev pub normal_request : ScheduleRequest → ScheduleRequest
  normal_request request = record request {
    host_id = lower p request.host_id;
    scenario_id = lower p request.scenario_id;
  }

  abbrev pub authorized : Service → ScheduleRequest → Bool
  authorized v request =
      elim (authorize v request.host_id request.scenario_id request.scenario_version) [
        | ok _ ↦ true
        | err _ ↦ false
        | panic ↦ false
      ]

  -- The local time of the request, as UTC; `approvedLocation` admits two zones.
  unfoldable pub scheduled_utc : Calendar → Service → ScheduleRequest → Outcome StoreError Time
  unfolding authorize
  scheduled_utc calendar v request = do
    guard (request.schema_version == "1.0" && authorized v request) schedule_invalid
    guard
        ((request.time_zone == "UTC" || request.time_zone == "Europe/Istanbul")
          && calendar.has_location request.time_zone)
        schedule_invalid
    local ←
        or_fail (calendar.parse_local request.time_zone request.scheduled_for_local)
          schedule_invalid
    guard (calendar.format_local request.time_zone local == request.scheduled_for_local)
        schedule_invalid
    ok local

  -- The end of `CreateSchedule`, after the schedules are marked.
  unfoldable pub place :
      Service → ScheduleRequest → Time → Time → Option Bytes → Service × Outcome StoreError Schedule
  place v request at now entropy =
      if conflicts request.host_id at v.schedules
      then (v, err schedule_conflict)
      else (elim entropy [
        | none ↦ (v, err random_failed)
        | some bytes ↦ (
          add_schedule v (new_schedule request at now bytes),
          ok (new_schedule request at now bytes),
        )
      ])

  -- `CreateSchedule` with the time of the schedule.
  unfoldable pub create_at :
      Service → ScheduleRequest → Time → Time → Option Bytes → Service × Outcome StoreError Schedule
  unfolding place mark_missed
  create_at v request at now entropy =
      if before at (now + minimum_schedule_lead)
      then (v, err schedule_missed)
      else if after at (now + maximum_schedule_lead)
      then (v, err schedule_invalid)
      else place (mark_missed now v) request at now entropy

  -- `CreateSchedule`
  unfoldable pub create_schedule :
      Calendar
      → Service
      → ScheduleRequest
      → Time
      → Option Bytes
      → Service × Outcome StoreError Schedule
  create_schedule calendar v request now entropy =
      elim (scheduled_utc calendar v (normal_request request)) [
        | ok at ↦ create_at v (normal_request request) at now entropy
        | err e ↦ (v, err e)
        | panic ↦ (v, panic)
      ]

  -- The loop of `DispatchDue`. It ends at the first error of the queue.
  unfoldable pub dispatch :
      (String → Reading)
      → Time
      → List String
      → Service
      → Queue
      → Service × Queue × Outcome StoreError (Unit {0})
  dispatch reading now [] v q = (v, q, ok tt)
  dispatch reading now (id ∷ ids) v q = elim (lookup id v.schedules) [
    | none ↦ dispatch reading now ids v q
    | some s ↦ elim (is_due now (some s)) [
      | false ↦ dispatch reading now ids v q
      | true ↦
          let (q', result) =
            enqueue p q (append_text "schedule_" (without_dashes s.id)) (dispatch_request v s)
              (reading id).entropy (reading id).pruned_at (reading id).created_at in
          elim result [
            | ok receipt ↦
                dispatch reading now ids
                  (record v { schedules = insert id (queued_schedule s receipt) v.schedules }) q'
            | err e ↦ (v, q', err (queue_failed e))
            | panic ↦ (v, q', panic)
          ]
    ]
  ]

  -- `DispatchDue`
  unfoldable pub dispatch_due :
      (String → Reading) → Time → Service → Queue → Service × Queue × Outcome StoreError (Unit {0})
  unfolding mark_missed dispatch
  dispatch_due reading now v q = dispatch reading now v.schedule_order (mark_missed now v) q

-- `Schedules`: the newest first, after the marking; a missing key reads as `none`.
unfoldable pub listed : List String → Assoc String Schedule → List (Option Schedule)
listed [] m = []
listed (id ∷ ids) m = listed ids m ++ (lookup id m ∷ [])

unfoldable pub schedules : Service → Time → Service × List (Option Schedule)
unfolding mark_missed listed
schedules v now = (mark_missed now v, listed v.schedule_order (mark_missed now v).schedules)

-- `hostLocked`
unfoldable pub host_of : Service → Time → Host
host_of v now = record {
  id = v.host_id;
  environment_id = v.environment_id;
  runner_id = v.runner_id;
  name = v.host_name;
  status = elim v.last_seen_at [
    | none ↦ "offline"
    | some seen ↦ if leb (sub_time now seen) offline_after then "online" else "offline"
  ];
  runner_version = v.runner_version;
  last_seen_at = v.last_seen_at;
  allowed_scenario_ids = map (λ (s : Scenario). s.id) v.scenarios;
}
