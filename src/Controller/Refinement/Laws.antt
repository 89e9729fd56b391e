-- ===== src/Controller/Refinement/Laws.antt =====
-- What is assumed of the client's calls around one scenario's status
-- (maintenancejob_controller.go).
use rca_lab.Base.{◌≡◌, Bool, String, Option, some, ◌⊎◌}
use rca_lab.Types.{MaintenanceJob, MaintenanceJobStatus}
use rca_lab.Cluster.Exec.{Error, Exec, ok, err, conflict}
use rca_lab.Cluster.Objects.{Key, job_key, ConfigMap}
use rca_lab.Cluster.Env.{Env}
use rca_lab.Cluster.Laws.{Retried}
use rca_lab.Controller.Invariant.Alike.{IsAlike}

-- The status of one scenario that the API server holds, while the reconciler is the only one to write
-- it and its reads are up to date.
pub record StatusLaws (E : Env) (k : Key) : Type 0 where
  pub stored : E.World → Option MaintenanceJobStatus
  pub get_reads :
      (fs : MaintenanceJob) (w : E.World)
      → (E.get_job k w).0 ≡ ok fs
      → (stored w ≡ some fs.status) × (job_key fs ≡ k)
  pub get_keeps : (w : E.World) → stored (E.get_job k w).1 ≡ stored w
  -- a write of the status that succeeds returns what is stored then
  pub update_ok :
      (fs fs' : MaintenanceJob) (w : E.World)
      → job_key fs ≡ k
      → (E.update_status fs w).0 ≡ ok fs'
      → (stored (E.update_status fs w).1 ≡ some fs'.status)
        × IsAlike fs.status fs'.status
        × (job_key fs' ≡ k)
  -- a conflict writes nothing; another failure may come after the write
  pub update_conflict :
      (fs : MaintenanceJob) (e : Error) (w : E.World)
      → job_key fs ≡ k
      → (E.update_status fs w).0 ≡ err e
      → e.kind ≡ conflict
      → stored (E.update_status fs w).1 ≡ stored w
  pub update_fails :
      (fs : MaintenanceJob) (e : Error) (w : E.World) (t : MaintenanceJobStatus)
      → job_key fs ≡ k
      → (E.update_status fs w).0 ≡ err e
      → stored (E.update_status fs w).1 ≡ some t
      → (stored w ≡ some t) ⊎ IsAlike fs.status t
  -- a write of the rest of the object leaves the status, or lets the object go
  pub update_job_keeps :
      (fs : MaintenanceJob) (w : E.World) (t : MaintenanceJobStatus)
      → job_key fs ≡ k
      → stored (E.update_job fs w).1 ≡ some t
      → stored w ≡ some t
  pub update_job_ok :
      (fs fs' : MaintenanceJob) (w : E.World)
      → job_key fs ≡ k
      → (E.update_job fs w).0 ≡ ok fs'
      → (stored w ≡ some fs'.status) × (job_key fs' ≡ k)
  pub now_keeps : (w : E.World) → stored (E.now w).1 ≡ stored w
  pub uuid_keeps : (w : E.World) → stored (E.new_uuid w).1 ≡ stored w
  pub event_keeps :
      (fs : MaintenanceJob) (b : Bool) (reason message : String) (w : E.World)
      → stored (E.record_event fs b reason message w) ≡ stored w
  pub get_config_map_keeps : (j : Key) (w : E.World) → stored (E.get_config_map j w).1 ≡ stored w
  pub create_config_map_keeps :
      (cm : ConfigMap) (w : E.World) → stored (E.create_config_map cm w).1 ≡ stored w
  pub update_config_map_keeps :
      (cm : ConfigMap) (w : E.World) → stored (E.update_config_map cm w).1 ≡ stored w
  pub retry_config_map_keeps :
      (m : Exec E.World ConfigMap) (w : E.World)
      → ((w : E.World) → stored (m w).1 ≡ stored w)
      → stored (E.retry_config_map m w).1 ≡ stored w
  pub retry :
      (m : Exec E.World MaintenanceJob) (w : E.World) → Retried m w (E.retry_on_conflict m w)
