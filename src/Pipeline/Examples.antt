-- ===== src/Pipeline/Examples.antt =====
-- Runs of a machine on concrete input: tests, and the theorems at inputs that meet their hypotheses.
use proof_layer.Base.{
  ◌+◌, ◌*◌, ◌≡◌, refl, true, false, String, Time, second, Outcome, ok, err, panic, All,
}
use proof_layer.Pipeline.Model.{StageStatus, Options, Machine, PipelineError}
use proof_layer.Pipeline.Machine.{
  new_stages, new, stage_index, ready, start_at, start, complete_at, complete, skip_at,
  skip_optional, overall_rest, overall_of, overall_status,
}
use proof_layer.Pipeline.Runs.{Call, Reached, made, after_call, starts, completes, skips}
use proof_layer.Pipeline.Verdicts.{Inv, Reached-Inv, IsPlanned, IsMet, passed-IsMet}

abbrev options : Options
options = record { detection_required = true; alert_required = false }

abbrev at : Time
at = 1_000 * second

abbrev or_same : {E : Type 0} → Machine → Outcome E Machine → Machine
or_same m (ok m') = m'
or_same m _ = m

abbrev blank : Machine
blank = record { started_at = at; stages = new_stages options }

-- One stage is started and passes a second later.
pass : Machine → String → Machine
pass m stage =
    let running = or_same m (start m stage at) in
    or_same running (complete running stage StageStatus.passed (at + second) "")

abbrev until_alert : Machine
until_alert =
    pass
      (pass (pass (pass (pass blank "execution") "endpoint_telemetry") "siem_ingestion")
        "field_validation")
      "detection"

abbrev until_cleanup : Machine
until_cleanup = or_same until_alert (skip_optional until_alert "alert")

passed_machine : Machine
passed_machine = pass until_cleanup "cleanup"

-- A call that fails leaves the machine as it is.
Reached-or_same :
    (m : Machine) (r : Outcome PipelineError Machine)
    → Reached options m
    → ((m' : Machine) → r ≡ ok m' → Call m m')
    → Reached options (or_same m r)
Reached-or_same m (ok m') reached call = after_call reached (call m' refl)
Reached-or_same m (err e) reached call = reached
Reached-or_same m panic reached call = reached

Reached-pass : (m : Machine) (stage : String) → Reached options m → Reached options (pass m stage)
unfolding pass
Reached-pass m stage reached =
    let running = or_same m (start m stage at) in
    Reached-or_same running (complete running stage StageStatus.passed (at + second) "")
      (Reached-or_same m (start m stage at) reached (λ m' h. starts stage at h))
      (λ m' h. completes stage StageStatus.passed (at + second) "" h)

blank-made : new options at ≡ ok blank
unfolding new
blank-made = refl

passed-Reached : Reached options passed_machine
unfolding passed_machine
passed-Reached = Reached-pass until_cleanup "cleanup" (
    Reached-or_same until_alert (skip_optional until_alert "alert")
      (Reached-pass _ "detection" (
        Reached-pass _ "field_validation" (
          Reached-pass _ "siem_ingestion" (
            Reached-pass _ "endpoint_telemetry"
              (Reached-pass blank "execution" (made at blank-made))))))
      (λ m' h. skips "alert" h))

Reached-Inv_example : Inv options passed_machine.stages
Reached-Inv_example = Reached-Inv passed-Reached

passed-IsMet_example : IsPlanned options passed_machine.stages × All IsMet passed_machine.stages
unfolding passed_machine pass start start_at complete complete_at skip_optional skip_at stage_index
    ready overall_status overall_of overall_rest new
passed-IsMet_example = passed-IsMet options passed_machine passed-Reached refl
