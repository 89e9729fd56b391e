-- ===== src/Cluster/Laws.antt =====
-- What is assumed of the client for one kind of object: a view of what the API server holds, and how
-- reads and writes go with it. `read` says that reads are up to date, which a client with a cache
-- promises only once the cache has caught up.
use rca_lab.Base.{
  ◌≡◌, ◌≢◌, ap, ◌∙◌, arith, Bool, String, List, [], ◌∷◌, Option, none, some, if◌then◌else◌,
}
use rca_lab.Base.Int.{ℤ}
use rca_lab.Go.Duration.{Time}
use rca_lab.Go.Json.{RawMessage}
use rca_lab.Types.{MaintenanceJob, ActiveAction, ActionType}
use rca_lab.Cluster.Exec.{Error, Exec, Result, ok, err, is_not_found, conflict}
use rca_lab.Cluster.Objects.{Key, job_key, Deployment}
use rca_lab.Cluster.Env.{Env}

-- What a read shows of an object, given what is there: a failure other than NotFound shows nothing.
abbrev pub seen : {A : Type 0} → Result A → Option A → Option A
seen (ok a) o = some a
seen (err e) o = if is_not_found e then none else o

-- What the API server and the Deployment controller write on their own: the generation goes up when
-- the spec changes, and the status follows the rollout.
pub record Managed : Type 0 where
  pub generation : ℤ
  pub observed_generation : ℤ
  pub updated_replicas : ℤ
  pub available_replicas : ℤ
  pub status_replicas : ℤ
  pub progressing : List Time

abbrev pub managed : Managed → Deployment → Deployment
managed m d = record d {
  generation = m.generation;
  observed_generation = m.observed_generation;
  updated_replicas = m.updated_replicas;
  available_replicas = m.available_replicas;
  status_replicas = m.status_replicas;
  progressing = m.progressing;
}

abbrev pub managed_of : Deployment → Managed
managed_of d = record {
  generation = d.generation;
  observed_generation = d.observed_generation;
  updated_replicas = d.updated_replicas;
  available_replicas = d.available_replicas;
  status_replicas = d.status_replicas;
  progressing = d.progressing;
}

-- What is there is that Deployment, but for its generation and its status.
abbrev pub Matches : Option Deployment → Deployment → Type 0
Matches o d = (m : Managed) × (o ≡ some (managed m d))

-- Between two looks at a Deployment only its generation and its status were written.
abbrev pub Unwritten : Option Deployment → Option Deployment → Type 0
Unwritten before after = (d : Deployment) × (before ≡ some d) × Matches after d

pub Matches-Unwritten :
    (d : Deployment) (before after : Option Deployment)
    → Matches before d
    → Unwritten before after
    → Matches after d
Matches-Unwritten d before after (m, h) (e, seen_e, (n, there)) =
    let same : e ≡ managed m d = ground (arith, h, seen_e) in
    (n, there ∙ ap (λ x. some (managed n x)) same)

module _ (E : Env) where
  open E use {World, now, get_job, get_deployment, patch_deployment}

  pub record DeploymentLaws : Type 0 where
    pub at : World → Key → Option Deployment
    pub read : (k : Key) (w : World) → seen (get_deployment k w).0 (at w k) ≡ at w k
    pub get_keeps : (k : Key) (w : World) → at (get_deployment k w).1 ≡ at w
    pub get_job_keeps : (k : Key) (w : World) → at (get_job k w).1 ≡ at w
    pub now_keeps : (w : World) → at (now w).1 ≡ at w
    -- what the API server writes of its own when a patch is made
    pub wrote : Key → Deployment → Deployment → World → Managed
    pub patch_at :
        (k : Key) (d d' : Deployment) (w : World)
        → at w k ≡ some d
        → (patch_deployment k d d' w).0 ≡ ok tt
        → at (patch_deployment k d d' w).1 k ≡ some (managed (wrote k d d' w) d')
    pub patch_ne :
        (k j : Key) (d d' : Deployment) (w : World)
        → k ≢ j
        → at (patch_deployment k d d' w).1 j ≡ at w j

-- A loop of retries runs the call, and again after each conflict, for as long as it likes; what it
-- returns is the last run.
pub data Retried {W A : Type 0} (m : Exec W A) : W → Result A × W → Type 0 where
  last : (w : W) → Retried m w (m w)
  again :
      (w : W) (e : Error) {out : Result A × W}
      → (m w).0 ≡ err e
      → e.kind ≡ conflict
      → Retried m (m w).1 out
      → Retried m w out

-- The name, type and revert token of a recorded action.
abbrev pub Entry : Type 0
Entry = String × ActionType × RawMessage

-- These the API server stores as they are. (It cuts the times to whole seconds.)
abbrev pub tokens : List ActiveAction → List Entry
tokens [] = []
tokens (a ∷ rest) = (a.name, a.type, a.revert) ∷ tokens rest

module _ (E : Env) where
  open E use {World, now, get_job, update_status, retry_on_conflict, record_event}

  pub record JobLaws : Type 0 where
    pub at : World → Key → Option MaintenanceJob
    pub get_key :
        (k : Key) (w : World) (fs : MaintenanceJob) → (get_job k w).0 ≡ ok fs → job_key fs ≡ k
    pub get_keeps : (k : Key) (w : World) → at (get_job k w).1 ≡ at w
    pub now_keeps : (w : World) → at (now w).1 ≡ at w
    pub event_keeps :
        (fs : MaintenanceJob) (b : Bool) (reason message : String) (w : World)
        → at (record_event fs b reason message w) ≡ at w
    -- an update that succeeds returns what is stored from then on
    pub update_at :
        (fs fs' : MaintenanceJob) (w : World)
        → (update_status fs w).0 ≡ ok fs'
        → at (update_status fs w).1 (job_key fs) ≡ some fs'
    pub update_key :
        (fs fs' : MaintenanceJob) (w : World)
        → (update_status fs w).0 ≡ ok fs'
        → (job_key fs' ≡ job_key fs)
          × (tokens fs'.status.active_actions ≡ tokens fs.status.active_actions)
    pub retry : (m : Exec World MaintenanceJob) (w : World) → Retried m w (retry_on_conflict m w)
