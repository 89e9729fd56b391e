-- ===== src/Controller/Delete.antt =====
-- `reconcileDelete` and `leakState` (maintenancejob_controller.go).
pub mod Release
pub mod Refines
use rca_lab.Base.{
  Bool, true, false, ◌&&◌, not, String, ◌<>◌, List, [], ◌∷◌, is_empty, ◌==◌, if◌then◌else◌, some,
  none, Option,
}
use rca_lab.Base.Dict.{Dict, insert, get}
use rca_lab.Go.Json.{RawMessage}
use rca_lab.Types.{MaintenanceJob, ActiveAction}
use rca_lab.Cluster.Exec.{Exec, Result, ok, err, pure, fail, is_not_found, observe, ◌>>=◌, ◌>>◌}
use rca_lab.Cluster.Objects.{Key, key, ConfigMap}
use rca_lab.Cluster.Env.{Env}
use rca_lab.Actions.Action.{Action}
use rca_lab.Controller.Status.{
  Reconciler, Outcome, settled, finalizer_name, force_release_annotation, leaked_state_config_map,
}
use rca_lab.Controller.Revert.{reconcile_revert}

-- The tokens under "<scenario>.<action>.<time>".
unfoldable pub leaked_entries :
    String → String → List ActiveAction → Dict RawMessage → Dict RawMessage
leaked_entries scenario ts [] entries = entries
leaked_entries scenario ts (aa ∷ rest) entries =
    leaked_entries scenario ts rest
      (insert (scenario <> ("." <> (aa.name <> ("." <> ts)))) aa.revert entries)

module _ (E : Env) where
  open E use {
    World, now, timestamp, get_config_map, create_config_map, update_config_map, retry_config_map,
    update_job, contains_finalizer, remove_finalizer,
  }

  abbrev leaked : Reconciler → MaintenanceJob → String → Dict RawMessage → ConfigMap
  leaked r fs ts entries = record {
    name = leaked_state_config_map;
    namespace = r.namespace;
    entries = leaked_entries fs.name ts fs.status.active_actions entries;
  }

  -- The config map that was found, or a new one if there is none.
  leak_found : Reconciler → MaintenanceJob → Result ConfigMap → Exec World ConfigMap
  leak_found r fs (ok cm) w =
      let (t, w') = now w in update_config_map (leaked r fs (timestamp t) cm.entries) w'
  leak_found r fs (err e) w =
      if is_not_found e
      then (let (t, w') = now w in create_config_map (leaked r fs (timestamp t) []) w')
      else (err e, w)

  try_leak : Reconciler → MaintenanceJob → Exec World ConfigMap
  unfolding leak_found
  try_leak r fs =
      observe (get_config_map (key r.namespace leaked_state_config_map)) (leak_found r fs)

  unfoldable pub leak_state : Reconciler → MaintenanceJob → Exec World ConfigMap
  unfolding try_leak
  leak_state r fs = retry_config_map (try_leak r fs)

  -- `fs.Annotations[k] == "true"`
  abbrev pub force_release : MaintenanceJob → Bool
  force_release fs = get fs.annotations force_release_annotation == "true"

  unfoldable pub reconcile_delete :
      List (Action World) → Reconciler → MaintenanceJob → Exec World Outcome
  unfolding leak_state
  reconcile_delete registry r fs =
      if contains_finalizer finalizer_name fs.finalizers
      then if force_release fs && not (is_empty fs.status.active_actions)
        then (do
          leak_state r fs
          update_job (record fs { finalizers = remove_finalizer finalizer_name fs.finalizers })
          pure settled)
        else reconcile_revert E registry r fs fs.status.current_run true
      else pure settled
