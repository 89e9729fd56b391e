-- ===== src/Controller/Helpers/Runs.antt =====
-- When a run starts, goes on and does not come back (helpers.go `desiredRun`, `runStillWanted`).
use rca_lab.Base.{◌≡◌, ◌≢◌, true, false, String, Option, some, none, arith, eq_iff}
use rca_lab.Go.Duration.{Time}
use rca_lab.Types.{MaintenanceJob, CurrentRun, TriggerSpec, RunHistoryEntry, RunTrigger, manual}
use rca_lab.Cluster.Env.{Env}
use rca_lab.Controller.Helpers.{Wanted, desired_run, triggered_run, run_still_wanted}
use rca_lab.Controller.Start.{new_run}
use rca_lab.Controller.Revert.{close_run}

abbrev pub identity : Option Wanted → Option (RunTrigger × String)
identity none = none
identity (some w) = some (w.trigger, w.run_id)

-- The run that is started is still wanted as long as the spec stays.
pub run_still_wanted-new_run :
    (fs : MaintenanceJob) (uuid : String) (now : Time) (wanted : Wanted)
    → desired_run fs uuid ≡ some wanted
    → run_still_wanted fs (new_run now wanted) ≡ true
unfolding desired_run triggered_run run_still_wanted new_run
run_still_wanted-new_run fs uuid now wanted h = ground (arith, eq_iff wanted.run_id wanted.run_id)

module _ (E : Env) where
  -- A manual run whose books are closed does not start again: with the scenario not enabled and its
  -- trigger unchanged, nothing is wanted.
  pub desired_run-close_run :
      (fs : MaintenanceJob) (run : CurrentRun) (entry : RunHistoryEntry) (uuid : String)
      → fs.spec.enabled ≡ false
      → run.trigger ≡ manual
      → run_still_wanted fs run ≡ true
      → desired_run (record fs { status = close_run E fs run entry fs.status }) uuid ≡ none
  unfolding desired_run triggered_run run_still_wanted close_run
  desired_run-close_run fs run entry uuid off m wanted = ground arith

  -- But closing any other run makes an old trigger new again: where the spec still holds a trigger,
  -- whatever the history says of it, it is wanted once a run of another id is closed.
  pub desired_run_again :
      (fs : MaintenanceJob) (run : CurrentRun) (entry : RunHistoryEntry) (uuid : String)
      (t : TriggerSpec)
      → fs.spec.enabled ≡ false
      → fs.spec.trigger ≡ some t
      → t.run_id ≢ ""
      → t.run_id ≢ run.id
      → identity (desired_run (record fs { status = close_run E fs run entry fs.status }) uuid)
        ≡ some (manual, t.run_id)
  unfolding desired_run triggered_run close_run
  desired_run_again fs run entry uuid t off given filled other =
      ground (arith, eq_iff t.run_id "", eq_iff t.run_id run.id)
