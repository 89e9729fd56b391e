-- ===== src/Controller/Sweeper.antt =====
-- The startup sweep (operator/internal/controller/sweeper.go).
pub mod Orphans
use rca_lab.Base.{
  Bool, true, false, ◌&&◌, ◌||◌, not, String, List, [], ◌∷◌, Option, none, some, is_some, is_empty,
  if◌then◌else◌,
}
use rca_lab.Base.Dict.{Dict, get}
use rca_lab.Types.{Phase, unset, idle, MaintenanceJob}
use rca_lab.Cluster.Exec.{Exec, Result, ok, err, pure, is_not_found, observe, ◌>>=◌, ◌>>◌}
use rca_lab.Cluster.Objects.{Key, key, Deployment, Job, foreground}
use rca_lab.Cluster.Env.{Env}
use rca_lab.Actions.Action.{scenario_label}

abbrev is_settled_phase : Phase → Bool
is_settled_phase unset = true
is_settled_phase idle = true
is_settled_phase _ = false

-- Idle, nothing to revert and no run.
unfoldable pub is_idle_scenario : MaintenanceJob → Bool
is_idle_scenario fs =
    is_settled_phase fs.status.phase
    && (is_empty fs.status.active_actions && not (is_some fs.status.current_run))

-- Whether the lookup of the owner tells that an object is to be deleted.
unfoldable pub is_orphan : Result MaintenanceJob → Bool
unfolding is_idle_scenario
is_orphan (ok fs) = is_idle_scenario fs
is_orphan (err e) = is_not_found e

module _ (E : Env) (namespace : String) where
  open E use {
    World, get_job, list_batch_jobs, list_deployments, delete_batch_job, delete_deployment,
  }

  -- Deletes by `delete` what the labels tie to a scenario that is gone or idle. Its error is logged.
  unfoldable pub sweep : Dict String → Exec World (Unit {0}) → Exec World (Unit {0})
  sweep labels delete =
      observe (get_job (key namespace (get labels scenario_label)))
        (λ owner. if is_orphan owner then observe delete (λ _. pure tt) else pure tt)

  unfoldable pub sweep_jobs : List Job → Exec World (Unit {0})
  sweep_jobs [] = pure tt
  sweep_jobs (job ∷ rest) =
      sweep job.labels (delete_batch_job (key namespace job.name) foreground) >> sweep_jobs rest

  unfoldable pub sweep_deployments : List Deployment → Exec World (Unit {0})
  sweep_deployments [] = pure tt
  sweep_deployments (dep ∷ rest) =
      sweep dep.labels (delete_deployment (key namespace dep.name) foreground)
      >> sweep_deployments rest

  -- `Start`
  unfoldable pub start : Exec World (Unit {0})
  start = do
    jobs ← list_batch_jobs namespace scenario_label
    sweep_jobs jobs
    deployments ← list_deployments namespace scenario_label
    sweep_deployments deployments
