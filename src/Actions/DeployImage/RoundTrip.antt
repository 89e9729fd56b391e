-- ===== src/Actions/DeployImage/RoundTrip.antt =====
-- A Deployment is the same after an ensure of a DeployImage action and its revert (deployimage.go).
use rca_lab.Base.{◌≡◌, ◌≢◌, Option, none, some, String}
use rca_lab.Base.Dict.{lookup}
use rca_lab.Types.{ActionSpec, DeployImageAction}
use rca_lab.Cluster.Objects.{Deployment, Key, key}
use rca_lab.Cluster.Env.{Env}
use rca_lab.Cluster.Laws.{DeploymentLaws}
use rca_lab.Actions.Action.{RunContext, scenario_label, held_by_annotation}
use rca_lab.Actions.DeployImage.{container_image, known_good}
use rca_lab.Actions.DeployImage.Rollback.{token_of}
use rca_lab.Actions.DeployImage.Token.{DeployImageToken}

abbrev place : RunContext → DeployImageAction → Key
place rc da = key rc.namespace da.target_ref.name

-- A Deployment that no scenario has touched, whose container runs another image than the bad one.
pub record Untouched (da : DeployImageAction) (image : String) (d : Deployment) : Type 0 where
  pub runs : container_image da.container d.containers ≡ some image
  pub differs : image ≢ da.image
  pub unlocked : lookup held_by_annotation d.annotations ≡ none
  pub unmarked : lookup (known_good da.container) d.annotations ≡ none
  pub unlabelled : lookup scenario_label d.labels ≡ none

module _ (E : Env) (L : DeploymentLaws E) (rc : RunContext) (spec : ActionSpec)
    (da : DeployImageAction) (given : spec.deploy_image ≡ some da) (d : Deployment) (image : String)
    (U : Untouched da image d) (free : da.known_good_image ≡ "") where
  abbrev token : DeployImageToken
  token = token_of rc da d

module _ (E : Env) (L : DeploymentLaws E) (rc : RunContext) (spec : ActionSpec)
    (da : DeployImageAction) (given : spec.deploy_image ≡ some da) (d : Deployment) (image : String)
    (U : Untouched da image d) (free : da.known_good_image ≡ "") where
  abbrev spot : E.World → Option Deployment
  spot w = L.at w (place rc da)
