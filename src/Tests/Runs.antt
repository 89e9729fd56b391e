-- ===== src/Tests/Runs.antt =====
-- Runs, specs, requests and lists, at concrete scenarios.
use rca_lab.Base.{◌≡◌, ◌≢◌, ◌↔◌, refl, [], ◌∷◌, none, some, true, arith, eq_iff, String, All, inl}
use rca_lab.Base.Int.{pos, ◌≤ℤ◌}
use rca_lab.Base.Dict.{lookup}
use rca_lab.Go.Json.{null}
use rca_lab.Go.Duration.{seconds, after}
use rca_lab.Types.{
  MaintenanceJob, MaintenanceJobStatus, CurrentRun, RunHistoryEntry, RunTrigger, manual, completed,
}
use rca_lab.Cluster.Exec.{is_ok}
use rca_lab.Actions.Registry.{registry}
use rca_lab.Controller.Helpers.{Wanted, desired_run, run_still_wanted, validate_spec, backoff_for}
use rca_lab.Controller.Helpers.Runs.{identity, desired_run-close_run, desired_run_again}
use rca_lab.Controller.Helpers.Timing.{backoff_for_bounds}
use rca_lab.Controller.Helpers.Validation.{Distinct, IsKnown, validate_spec_iff}
use rca_lab.Controller.Start.{new_run, started}
use rca_lab.Controller.Activate.{record_token}
use rca_lab.Controller.Invariant.{
  IsWellFormed, IsWellFormed-Steps, Steps, starts, records, drains, closes, stop, step,
}
use rca_lab.Controller.Revert.{close_run, drained}
use rca_lab.Controller.Delete.{leaked_entries}
use rca_lab.Controller.Delete.Release.{leaked_entries_lem}
use rca_lab.Api.Handlers.{request, requested_duration, disable, request_run}
use rca_lab.Api.Handlers.Requests.{request_run_lem, requested_duration_lem}
use rca_lab.Tests.Sandbox.{sandbox, idle_status, scaling, scenario, first_run, first_record}

abbrev ended : RunHistoryEntry
ended = record {
  id = "r1";
  trigger = manual;
  started_at = pos 0;
  ended_at = none;
  result = completed;
  message = "";
}

abbrev fifteen : Wanted
fifteen = record { trigger = manual; run_id = "r1"; duration = seconds 900 }

desired_run-close_run_example :
    desired_run
      (record scenario { status = close_run sandbox scenario first_run ended scenario.status })
      ""
    ≡ none
unfolding run_still_wanted
desired_run-close_run_example =
    desired_run-close_run sandbox scenario first_run ended "" refl refl refl

abbrev enabled_run : CurrentRun
enabled_run = record first_run { id = "uuid"; trigger = RunTrigger.enabled }

abbrev id_of_trigger : String
id_of_trigger = "r1"

filled : id_of_trigger ≢ ""
filled h = absurd (ground (arith, (eq_iff id_of_trigger "").1 h))

other_id : id_of_trigger ≢ enabled_run.id
other_id h = absurd (ground (arith, (eq_iff id_of_trigger enabled_run.id).1 h))

desired_run_again_example :
    identity (
      desired_run
        (record scenario { status = close_run sandbox scenario enabled_run ended scenario.status })
        "")
    ≡ some (manual, "r1")
desired_run_again_example =
    desired_run_again sandbox scenario enabled_run ended ""
      (record { run_id = "r1"; duration = none }) refl refl filled other_id

validate_spec_iff_example : (is_ok (validate_spec (registry sandbox) scenario.spec) ≡ true) ↔ (
    (scenario.spec.actions ≢ [])
    × Distinct scenario.spec.actions
    × All (IsKnown (registry sandbox)) scenario.spec.actions)
validate_spec_iff_example = validate_spec_iff (registry sandbox) scenario.spec

leaked_entries_lem_example :
    (lookup "outage.first.now" (leaked_entries "outage" "now" (first_record ∷ []) [])
      ≡ some (some null))
    × Unit {0}
leaked_entries_lem_example = leaked_entries_lem "outage" "now" (first_record ∷ []) [] (tt, tt)

backoff_for_bounds_example :
    (seconds 1 ≤ℤ backoff_for (pos 2))
    × (backoff_for (pos 2) ≤ℤ backoff_for (pos 9))
    × (backoff_for (pos 9) ≤ℤ seconds 16)
backoff_for_bounds_example = backoff_for_bounds (pos 2) (pos 9) (omega arith)

abbrev off : MaintenanceJob
off = record scenario { spec = disable scenario.spec }

abbrev asked : MaintenanceJob
asked = record scenario { spec = request_run "r1" (seconds 900) scenario.spec }

request_run_lem_example :
    (desired_run asked "u" ≡ some fifteen)
    × (run_still_wanted asked (new_run (pos 5) fifteen) ≡ true)
    × ((new_run (pos 5) fifteen).expires_at ≡ some (after (pos 5) (seconds 900)))
request_run_lem_example =
    request_run_lem scenario "r1" "u" (seconds 900) (pos 5) refl filled filled (omega arith)

requested_duration_lem_example : requested_duration (request (pos 60)) ≡ inl (seconds 60)
requested_duration_lem_example = requested_duration_lem 60 (omega arith)

well_formed : IsWellFormed idle_status
well_formed = record { distinct = tt; short_history = omega arith; no_idle_run = λ n. refl }

-- A run starts, an action is recorded twice and drained, and the run is closed.
abbrev begun : MaintenanceJobStatus
begun = started first_run idle_status

abbrev noted : MaintenanceJobStatus
noted = record_token scaling (some null) begun

abbrev noted_again : MaintenanceJobStatus
noted_again = record_token scaling (some null) noted

abbrev emptied : MaintenanceJobStatus
emptied = drained sandbox "first" noted_again

abbrev finished_status : MaintenanceJobStatus
finished_status = close_run sandbox scenario first_run ended emptied

one_run : Steps sandbox idle_status finished_status
one_run = step idle_status begun finished_status (starts idle_status first_run refl) (
    step begun noted finished_status (records begun scaling (some null)) (
      step noted noted_again finished_status (records noted scaling (some null)) (
        step noted_again emptied finished_status (drains noted_again "first") (
          step emptied finished_status finished_status (closes emptied scenario first_run ended)
            (stop finished_status)))))

IsWellFormed-Steps_example : IsWellFormed finished_status
IsWellFormed-Steps_example = IsWellFormed-Steps sandbox one_run well_formed
