-- ===== src/Api/Handlers/Requests.antt =====
-- What a request of the API makes the controller do (server.go against helpers.go).
use rca_lab.Base.{
  ◌≡◌, ◌≢◌, arith, eq_iff, ◌==ℕ◌, ℕ, ◌≤◌, true, false, String, some, none, inl, if◌then◌else◌,
}
use rca_lab.Base.Int.{pos, ◌<ℤ◌, ◌*ℤ◌}
use rca_lab.Go.Duration.{Duration, seconds, Time, after}
use rca_lab.Types.{MaintenanceJob, CurrentRun, manual}
use rca_lab.Controller.Helpers.{Wanted, desired_run, triggered_run, run_still_wanted}
use rca_lab.Controller.Start.{new_run}
use rca_lab.Api.Handlers.{request, requested_duration, disable, request_run}

-- A disabled scenario wants no run, and no run of it is wanted any more, whatever its spec was.
pub disable_lem :
    (fs : MaintenanceJob) (run : CurrentRun) (uuid : String)
    → let off = record fs { spec = disable fs.spec } in
      (run_still_wanted off run ≡ false) × (desired_run off uuid ≡ none)
unfolding run_still_wanted desired_run
disable_lem fs run uuid = (ground arith, ground arith)

-- A run request of a scenario that is not enabled, under an id that is not that of its last run,
-- makes the controller want the manual run of that id and length, and that run is kept until it
-- expires, which it does after its length if that is positive.
pub request_run_lem :
    (fs : MaintenanceJob) (run_id uuid : String) (d : Duration) (now : Time)
    → fs.spec.enabled ≡ false
    → run_id ≢ ""
    → run_id ≢ fs.status.last_completed_run_id
    → pos 0 <ℤ d
    → let asked = record fs { spec = request_run run_id d fs.spec } in
      let wanted : Wanted = record { trigger = manual; run_id = run_id; duration = d } in
      (desired_run asked uuid ≡ some wanted)
      × (run_still_wanted asked (new_run now wanted) ≡ true)
      × ((new_run now wanted).expires_at ≡ some (after now d))
unfolding run_still_wanted desired_run triggered_run new_run
request_run_lem fs run_id uuid d now off some_id fresh positive = (
  ground (arith, eq_iff run_id "", eq_iff run_id fs.status.last_completed_run_id),
  ground (arith, eq_iff run_id run_id),
  ground arith,
)

-- A number of seconds that a request states is its run's length exactly, as long as the length fits
-- 64 bits of nanoseconds; 0 stands for 15 minutes.
pub requested_duration_lem :
    (n : ℕ)
    → n ≤ 9_223_372_036
    → requested_duration (request (pos n)) ≡ inl (if n ==ℕ 0 then seconds 900 else seconds n)
unfolding requested_duration ◌*ℤ◌
requested_duration_lem n h = ground arith
