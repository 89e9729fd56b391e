-- ===== src/Cluster/Env.antt =====
-- The client, the clock and the helpers of client-go and controller-runtime, as a parameter.
use rca_lab.Base.{Bool, String, List}
use rca_lab.Go.Duration.{Time}
use rca_lab.Types.{Condition, ConditionType, MaintenanceJob}
use rca_lab.Cluster.Exec.{Exec}
use rca_lab.Cluster.Objects.{Key, Deployment, Job, Chaos, ConfigMap, Propagation}

pub record Env : Type 1 where
  pub World : Type 0
  pub now : World → Time × World
  -- the time as it is formatted in the keys of the leaked state
  pub timestamp : Time → String
  pub new_uuid : World → String × World
  -- the first 8 hexadecimal digits of a text's SHA-256
  pub short_hash : String → String
  pub get_job : Key → Exec World MaintenanceJob
  pub list_jobs : String → Exec World (List MaintenanceJob)
  -- Updates hand back the object as the API server stored it.
  pub update_job : MaintenanceJob → Exec World MaintenanceJob
  pub update_status : MaintenanceJob → Exec World MaintenanceJob
  -- retry.RetryOnConflict with retry.DefaultRetry
  pub retry_on_conflict : Exec World MaintenanceJob → Exec World MaintenanceJob
  pub retry_config_map : Exec World ConfigMap → Exec World ConfigMap
  -- Recorder.Event: warning or not, the reason and the message
  pub record_event : MaintenanceJob → Bool → String → String → World → World
  pub get_deployment : Key → Exec World Deployment
  -- a merge patch from the first object to the second
  pub patch_deployment : Key → Deployment → Deployment → Exec World (Unit {0})
  pub list_deployments : String → String → Exec World (List Deployment)
  pub delete_deployment : Key → Propagation → Exec World (Unit {0})
  pub get_batch_job : Key → Exec World Job
  pub create_batch_job : Job → Exec World (Unit {0})
  pub list_batch_jobs : String → String → Exec World (List Job)
  pub delete_batch_job : Key → Propagation → Exec World (Unit {0})
  pub get_chaos : String → Key → Exec World Chaos
  pub create_chaos : Chaos → Exec World (Unit {0})
  pub delete_chaos : String → Key → Propagation → Exec World (Unit {0})
  pub get_config_map : Key → Exec World ConfigMap
  pub create_config_map : ConfigMap → Exec World ConfigMap
  pub update_config_map : ConfigMap → Exec World ConfigMap
  -- controllerutil.ContainsFinalizer, AddFinalizer, RemoveFinalizer
  pub contains_finalizer : String → List String → Bool
  pub add_finalizer : String → List String → List String
  pub remove_finalizer : String → List String → List String
  -- meta.SetStatusCondition, RemoveStatusCondition, IsStatusConditionTrue
  pub set_status_condition : Condition → List Condition → List Condition
  pub remove_status_condition : ConditionType → List Condition → List Condition
  pub is_status_condition_true : ConditionType → List Condition → Bool
