-- ===== src/Controller/Reconcile.antt =====
-- `Reconcile` (maintenancejob_controller.go).
pub mod Refines
use rca_lab.Base.{Bool, true, false, ◌&&◌, ◌||◌, not, List, none, some, is_empty, if◌then◌else◌}
use rca_lab.Go.Duration.{Time, before}
use rca_lab.Types.{MaintenanceJob, CurrentRun, enabled, manual, ready}
use rca_lab.Cluster.Exec.{Error, Exec, ok, err, pure, fail, is_not_found, observe, ◌>>=◌, ◌>>◌}
use rca_lab.Cluster.Objects.{Key}
use rca_lab.Cluster.Env.{Env}
use rca_lab.Actions.Action.{Action}
use rca_lab.Controller.Helpers.{validate_spec, run_still_wanted, set_condition}
use rca_lab.Controller.Status.{Reconciler, Outcome, settled, finalizer_name, patch_status}
use rca_lab.Controller.Start.{maybe_start_run}
use rca_lab.Controller.Activate.{reconcile_activate}
use rca_lab.Controller.Revert.{reconcile_revert}
use rca_lab.Controller.Delete.{reconcile_delete}

abbrev pub is_enabled_run : CurrentRun → Bool
is_enabled_run run = elim run.trigger [ enabled ↦ true | manual ↦ false ]

unfoldable pub is_expired : CurrentRun → Time → Bool
is_expired run now = elim run.expires_at [ none ↦ false | some t ↦ not (before now t) ]

module _ (E : Env) (registry : List (Action E.World)) (r : Reconciler) where
  open E use {World, now, get_job, update_job, contains_finalizer, add_finalizer}

  add_missing_finalizer : MaintenanceJob → Exec World MaintenanceJob
  add_missing_finalizer fs =
      if contains_finalizer finalizer_name fs.finalizers
      then pure fs
      else update_job (record fs { finalizers = add_finalizer finalizer_name fs.finalizers })

  reject : MaintenanceJob → Error → Exec World Outcome
  reject fs e =
      patch_status E fs (set_condition E fs.generation ready false "InvalidSpec" e.message)
      >> pure settled

  -- No run: leftovers are drained first.
  reconcile_idle : MaintenanceJob → Exec World Outcome
  reconcile_idle fs =
      if is_empty fs.status.active_actions
      then maybe_start_run E fs
      else reconcile_revert E registry r fs none false

  -- An enabled run that expired turns the scenario off.
  disable_expired : MaintenanceJob → CurrentRun → Bool → Exec World MaintenanceJob
  disable_expired fs run expired =
      if expired && (is_enabled_run run && fs.spec.enabled)
      then update_job (record fs { spec = record fs.spec { enabled = false } })
      else pure fs

  reconcile_run : MaintenanceJob → CurrentRun → Exec World Outcome
  unfolding disable_expired
  reconcile_run fs run w =
      let (t, w') = now w in
      let expired = is_expired run t in
      (do
        fs' ← disable_expired fs run expired
        if expired || not (run_still_wanted fs' run)
            then reconcile_revert E registry r fs' (some run) false
            else reconcile_activate E registry r fs' run)
        w'

  reconcile_valid : MaintenanceJob → Exec World Outcome
  unfolding reconcile_idle reconcile_run
  reconcile_valid fs = elim fs.status.current_run [
    | none ↦ reconcile_idle fs
    | some run ↦ reconcile_run fs run
  ]

  unfoldable pub reconcile_job : MaintenanceJob → Exec World Outcome
  unfolding add_missing_finalizer reject reconcile_valid
  reconcile_job fs = if fs.deleting then reconcile_delete E registry r fs else (do
    fs' ← add_missing_finalizer fs
    elim (validate_spec registry fs'.spec) [ err e ↦ reject fs' e | ok _ ↦ reconcile_valid fs' ])

  -- A resource that is gone is no error.
  unfoldable pub reconcile : Key → Exec World Outcome
  reconcile k = observe (get_job k) (λ found. elim found [
    | err e ↦ if is_not_found e then pure settled else fail e
    | ok fs ↦ reconcile_job fs
  ])
