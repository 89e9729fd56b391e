-- ===== src/Controller/Start.antt =====
-- `maybeStartRun` (maintenancejob_controller.go).
pub mod Refines
use rca_lab.Base.{Bool, true, false, ◌||◌, not, String, ◌<>◌, Option, none, some, if◌then◌else◌}
use rca_lab.Base.Int.{pos, ltb_ℤ}
use rca_lab.Go.Duration.{Time, after, show}
use rca_lab.Types.{
  Phase, idle, activating, ready, MaintenanceJob, MaintenanceJobStatus, RunTrigger, manual, enabled,
  CurrentRun,
}
use rca_lab.Cluster.Exec.{Exec, pure, ◌>>=◌, ◌>>◌}
use rca_lab.Cluster.Env.{Env}
use rca_lab.Controller.Helpers.{Wanted, desired_run, set_condition}
use rca_lab.Controller.Status.{Outcome, settled, at_once, patch_status, emit}

abbrev pub is_idle : Phase → Bool
is_idle idle = true
is_idle _ = false

abbrev pub trigger_text : RunTrigger → String
trigger_text manual = "Manual"
trigger_text enabled = "Enabled"

-- The run that starts now; without a positive duration it does not expire.
unfoldable pub new_run : Time → Wanted → CurrentRun
unfolding after
new_run now wanted = record {
  id = wanted.run_id;
  trigger = wanted.trigger;
  started_at = now;
  expires_at = if ltb_ℤ (pos 0) wanted.duration then some (after now wanted.duration) else none;
}

abbrev pub started : CurrentRun → MaintenanceJobStatus → MaintenanceJobStatus
started run s = record s { current_run = some run; phase = activating }

module _ (E : Env) where
  open E use {World, now, new_uuid, is_status_condition_true}

  abbrev pub settle_idle : MaintenanceJob → MaintenanceJobStatus → MaintenanceJobStatus
  settle_idle fs s =
      set_condition E fs.generation ready true "Idle" "scenario is idle" (record s { phase = idle })

  settle : MaintenanceJob → Exec World Outcome
  settle fs =
      if not (is_idle fs.status.phase) || not (is_status_condition_true ready fs.status.conditions)
      then (patch_status E fs (settle_idle fs) >> pure settled)
      else pure settled

  begin : MaintenanceJob → Wanted → Exec World Outcome
  begin fs wanted w =
      let (t, w') = now w in
      (do
        fs' ← patch_status E fs (started (new_run t wanted))
        emit E fs' false "RunStarted" (
            "run "
            <> (wanted.run_id
                <> (" started (trigger="
                    <> (trigger_text wanted.trigger
                        <> (", duration=" <> (show wanted.duration <> ")"))))))
        pure at_once)
        w'

  -- The id of an enabled run is fresh.
  choose : MaintenanceJob → World → Option Wanted × World
  choose fs w =
      if fs.spec.enabled
      then (let (uuid, w') = new_uuid w in (desired_run fs uuid, w'))
      else (desired_run fs "", w)

  unfoldable pub maybe_start_run : MaintenanceJob → Exec World Outcome
  unfolding settle begin choose
  maybe_start_run fs w =
      let (wanted, w') = choose fs w in
      elim wanted [ none ↦ settle fs w' | some run ↦ begin fs run w' ]
