-- ===== src/Actions/Action.antt =====
-- The contract of an action (operator/internal/actions/action.go): `plan` observes and returns the
-- revert token, `ensure` injects, `revert` restores from the token alone.
use rca_lab.Base.{Bool, true, false, String}
use rca_lab.Base.Int.{pos}
use rca_lab.Go.Duration.{Duration}
use rca_lab.Go.Json.{RawMessage}
use rca_lab.Types.{ActionType, ActionSpec}
use rca_lab.Cluster.Exec.{Exec, ok, err, wrap}
use rca_lab.Cluster.Objects.{OwnerReference}

abbrev pub scenario_label : String
scenario_label = "maintenance.platform.dev/job"

abbrev pub held_by_annotation : String
held_by_annotation = "maintenance.platform.dev/held-by"

pub record RunContext : Type 0 where
  pub scenario_name : String
  pub scenario_uid : String
  pub namespace : String
  pub run_id : String
  -- 0 for an unbounded hold
  pub run_duration : Duration
  pub operator_image : String

-- What `Ensure` and `Revert` return beside the error.
pub record Progress : Type 0 where
  pub done : Bool
  pub requeue_after : Duration

abbrev pub finished : Progress
finished = record { done = true; requeue_after = pos 0 }

abbrev pub pending : Duration → Progress
pending d = record { done = false; requeue_after = d }

-- The interface of an action over the worlds of one cluster.
pub record Action (W : Type 0) : Type 0 where
  pub type : ActionType
  pub plan : RunContext → ActionSpec → Exec W RawMessage
  pub ensure : RunContext → ActionSpec → RawMessage → Exec W Progress
  pub revert : RunContext → RawMessage → Exec W Progress

abbrev pub wrapping : {W A : Type 0} → String → Exec W A → Exec W A
wrapping prefix m w =
    let (r, w') = m w in (elim r [ ok a ↦ ok a | err e ↦ err (wrap prefix e) ], w')

-- The reference by which Kubernetes collects what a scenario created.
abbrev pub owner_reference : RunContext → OwnerReference
owner_reference rc = record {
  api_version = "maintenance.platform.dev/v1alpha1";
  kind = "MaintenanceJob";
  name = rc.scenario_name;
  uid = rc.scenario_uid;
  controller = true;
  block_owner_deletion = false;
}
