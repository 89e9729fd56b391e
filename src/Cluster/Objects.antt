-- ===== src/Cluster/Objects.antt =====
-- The parts of Kubernetes objects that the operator reads or writes.
use rca_lab.Base.{Bool, String, List, Option}
use rca_lab.Base.Int.{ℤ}
use rca_lab.Base.Dict.{Dict}
use rca_lab.Go.Duration.{Time}
use rca_lab.Go.Json.{Members, RawMessage}
use rca_lab.Types.{EnvVar, MaintenanceJob}

pub record Key : Type 0 where
  pub namespace : String
  pub name : String

abbrev pub key : String → String → Key
key namespace name = record { namespace = namespace; name = name }

abbrev pub job_key : MaintenanceJob → Key
job_key fs = key fs.namespace fs.name

pub record Container : Type 0 where
  pub name : String
  pub image : String

-- apps/v1 Deployment
pub record Deployment : Type 0 where
  pub name : String
  pub annotations : Dict String
  pub labels : Dict String
  pub replicas : Option ℤ
  pub containers : List Container
  pub generation : ℤ
  pub created : Time
  pub observed_generation : ℤ
  pub updated_replicas : ℤ
  pub available_replicas : ℤ
  pub status_replicas : ℤ
  -- `lastUpdateTime` of the conditions of type Progressing
  pub progressing : List Time

pub record OwnerReference : Type 0 where
  pub api_version : String
  pub kind : String
  pub name : String
  pub uid : String
  pub controller : Bool
  pub block_owner_deletion : Bool

-- Quantities as they are written.
pub record Resources : Type 0 where
  pub requests : Dict String
  pub limits : Dict String

-- batch/v1 Job, with its pod template's one container.
pub record Job : Type 0 where
  pub name : String
  pub namespace : String
  pub labels : Dict String
  pub owner : Option OwnerReference
  pub deleting : Bool
  pub parallelism : ℤ
  pub completions : Option ℤ
  pub backoff_limit : ℤ
  pub active_deadline_seconds : ℤ
  pub ttl_seconds_after_finished : ℤ
  -- the app whose nodes a required pod affinity asks for
  pub colocated_with : Option String
  pub template_labels : Dict String
  pub restart_policy : String
  pub container_name : String
  pub image : String
  pub args : List String
  pub env : List EnvVar
  pub resources : Resources
  pub succeeded : ℤ
  -- the messages of the conditions of type Failed whose status is True
  pub failures : List String

-- A Chaos Mesh resource, unstructured.
pub record Chaos : Type 0 where
  pub kind : String
  pub namespace : String
  pub name : String
  pub labels : Dict String
  pub owner : Option OwnerReference
  pub deleting : Bool
  pub spec : Members

-- core/v1 ConfigMap
pub record ConfigMap : Type 0 where
  pub name : String
  pub namespace : String
  pub entries : Dict RawMessage

pub data Propagation : Type 0 where
  foreground background : Propagation
