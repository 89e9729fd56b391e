-- ===== src/Types.antt =====
-- The MaintenanceJob resource (operator/api/v1alpha1/maintenancejob_types.go). A pointer field is an
-- `Option`; a text field whose values the CRD enumerates is a data type, with `unset` for "".
use rca_lab.Base.{Bool, String, List, Option}
use rca_lab.Base.Int.{ℤ}
use rca_lab.Go.Duration.{Duration, Time}
use rca_lab.Go.Json.{Json, RawMessage}

-- Scenario phases.
pub data Phase : Type 0 where
  unset idle activating active reverting degraded : Phase

-- Run triggers.
pub data RunTrigger : Type 0 where
  manual enabled : RunTrigger

-- Action phases.
pub data ActionPhase : Type 0 where
  recorded applied reverting : ActionPhase

-- Run results.
pub data RunResult : Type 0 where
  completed reverted failed : RunResult

-- Action types; `unknown` is any text that names none of them.
pub data ActionType : Type 0 where
  workload scale deploy_image chaos_mesh db_exec : ActionType
  unknown : String → ActionType

-- Condition types.
pub data ConditionType : Type 0 where
  ready revert_failed : ConditionType

pub record TriggerSpec : Type 0 where
  pub run_id : String
  pub duration : Option Duration

-- An environment variable of a container, passed on verbatim.
abbrev pub EnvVar : Type 0
EnvVar = Json

pub record WorkloadAction : Type 0 where
  pub name : String
  pub image : String
  pub command : List String
  pub engine : String
  pub queries : List String
  pub concurrency : ℤ
  pub interval : Option Duration
  pub env : List EnvVar
  pub deadline_margin : Option Duration
  pub colocate_with_app : String
  pub cpu_burn : ℤ

pub record ScaleTargetRef : Type 0 where
  pub kind : String
  pub name : String

pub record ScaleAction : Type 0 where
  pub target_ref : ScaleTargetRef
  pub replicas : ℤ

pub record DeployImageAction : Type 0 where
  pub target_ref : ScaleTargetRef
  pub container : String
  pub image : String
  pub known_good_image : String
  pub rollout_timeout : Option Duration

pub record DbExecAction : Type 0 where
  pub name : String
  pub engine : String
  pub env : List EnvVar
  pub ensure : List String
  pub revert : List String

pub record ChaosMeshAction : Type 0 where
  pub kind : String
  pub name : String
  -- `none` for the empty text
  pub spec : Option RawMessage

pub record ActionSpec : Type 0 where
  pub name : String
  pub type : ActionType
  pub delay : Option Duration
  pub workload : Option WorkloadAction
  pub scale : Option ScaleAction
  pub deploy_image : Option DeployImageAction
  pub chaos_mesh : Option ChaosMeshAction
  pub db_exec : Option DbExecAction

pub record MaintenanceJobSpec : Type 0 where
  pub display_name : String
  pub description : String
  pub category : String
  pub icon : String
  pub expected_symptoms : List String
  pub enabled : Bool
  pub trigger : Option TriggerSpec
  pub duration : Option Duration
  pub actions : List ActionSpec

pub record CurrentRun : Type 0 where
  pub id : String
  pub trigger : RunTrigger
  pub started_at : Time
  pub expires_at : Option Time

pub record ActiveAction : Type 0 where
  pub name : String
  pub type : ActionType
  pub phase : ActionPhase
  pub applied_at : Option Time
  pub attempts : ℤ
  pub last_error : String
  pub revert : RawMessage

pub record RunHistoryEntry : Type 0 where
  pub id : String
  pub trigger : RunTrigger
  pub started_at : Time
  pub ended_at : Option Time
  pub result : RunResult
  pub message : String

-- metav1.Condition, less the time of its last transition, which the helpers below stamp.
pub record Condition : Type 0 where
  pub type : ConditionType
  pub status : Bool
  pub reason : String
  pub message : String
  pub observed_generation : ℤ

pub record MaintenanceJobStatus : Type 0 where
  pub phase : Phase
  pub current_run : Option CurrentRun
  pub active_actions : List ActiveAction
  pub last_completed_run_id : String
  pub history : List RunHistoryEntry
  pub conditions : List Condition
  pub observed_generation : ℤ

-- The resource, with the metadata that the operator reads.
pub record MaintenanceJob : Type 0 where
  pub name : String
  pub namespace : String
  pub uid : String
  pub generation : ℤ
  pub deleting : Bool
  pub finalizers : List String
  pub annotations : List (String × String)
  pub spec : MaintenanceJobSpec
  pub status : MaintenanceJobStatus
