-- ===== src/Controller/Status.antt =====
-- What the reconciler's methods share (maintenancejob_controller.go): the reconciler itself, the
-- durable change of a status, the context of a run, and events.
pub mod Keeps
pub mod Keeper
use rca_lab.Base.{Bool, String, Option, none, some, ◌<>◌}
use rca_lab.Base.Int.{pos}
use rca_lab.Go.Duration.{Duration, sub}
use rca_lab.Types.{MaintenanceJob, MaintenanceJobStatus, CurrentRun}
use rca_lab.Cluster.Exec.{Exec, ok, ◌>>=◌}
use rca_lab.Cluster.Objects.{Key, job_key}
use rca_lab.Cluster.Env.{Env}
use rca_lab.Actions.Action.{RunContext}

abbrev pub finalizer_name : String
finalizer_name = "maintenance.platform.dev/cleanup"

abbrev pub force_release_annotation : String
force_release_annotation = "maintenance.platform.dev/force-release"

abbrev pub leaked_state_config_map : String
leaked_state_config_map = "maintenance-controller-state"

-- The reconciler's own settings.
pub record Reconciler : Type 0 where
  pub operator_image : String
  pub namespace : String

-- ctrl.Result
pub record Outcome : Type 0 where
  pub requeue : Bool
  pub requeue_after : Duration

abbrev pub settled : Outcome
settled = record { requeue = Bool.false; requeue_after = pos 0 }

abbrev pub at_once : Outcome
at_once = record { requeue = Bool.true; requeue_after = pos 0 }

abbrev pub later : Duration → Outcome
later d = record { requeue = Bool.false; requeue_after = d }

abbrev run_length : CurrentRun → Duration
run_length run = elim run.expires_at [ none ↦ pos 0 | some t ↦ sub t run.started_at ]

unfoldable pub run_context : Reconciler → MaintenanceJob → Option CurrentRun → RunContext
run_context r fs run = record {
  scenario_name = fs.name;
  scenario_uid = fs.uid;
  namespace = fs.namespace;
  run_id = elim run [ none ↦ "" | some cr ↦ cr.id ];
  run_duration = elim run [ none ↦ pos 0 | some cr ↦ run_length cr ];
  operator_image = r.operator_image;
}

module _ (E : Env) where
  open E use {World, get_job, update_status, retry_on_conflict, record_event}

  -- One try: the latest object, its status changed, written back.
  unfoldable pub try_patch :
      Key → (MaintenanceJobStatus → MaintenanceJobStatus) → Exec World MaintenanceJob
  try_patch k mutate = do
    latest ← get_job k
    update_status (record latest {
      status = record (mutate latest.status) { observed_generation = latest.generation };
    })

  -- `patchStatus`; the object that comes back replaces the caller's `fs`.
  unfoldable pub patch_status :
      MaintenanceJob → (MaintenanceJobStatus → MaintenanceJobStatus) → Exec World MaintenanceJob
  patch_status fs mutate = retry_on_conflict (try_patch (job_key fs) mutate)

  abbrev pub emit : MaintenanceJob → Bool → String → String → Exec World (Unit {0})
  emit fs warning reason message w = (ok tt, record_event fs warning reason message w)
