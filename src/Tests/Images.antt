-- ===== src/Tests/Images.antt =====
-- DeployImage actions in the sandbox.
use rca_lab.Base.{◌≡◌, ◌≢◌, refl, String, [], ◌∷◌, none, some}
use rca_lab.Base.Dict.{lookup, insert}
use rca_lab.Go.Json.{RawMessage}
use rca_lab.Types.{ActionSpec, DeployImageAction}
use rca_lab.Cluster.Objects.{Deployment, key}
use rca_lab.Actions.Action.{finished}
use rca_lab.Actions.Holder.{is_foreign}
use rca_lab.Actions.DeployImage.{
  holder, deployed, plan, ensure, revert, container_image, resolve_good, with_label, known_good,
}
use rca_lab.Actions.DeployImage.Rollback.{plan-Differs, revert_superseded}
use rca_lab.Actions.DeployImage.Token.{DeployImageToken, marshal, unmarshal_token}
use rca_lab.Tests.Sandbox.{
  Cluster, sandbox, deployment_laws, cart, with_deployment, outage, blank_action,
}

abbrev leak : DeployImageAction
leak = record {
  target_ref = record { kind = "Deployment"; name = "cart" };
  container = "cart";
  image = "cart:leak";
  known_good_image = "";
  rollout_timeout = none;
}

abbrev deploying : ActionSpec
deploying = record blank_action { deploy_image = some leak }

abbrev token : DeployImageToken
token = record {
  kind = "Deployment";
  namespace = "shop";
  name = "cart";
  container = "cart";
  good_image = "cart:1.0";
  bad_image = "cart:leak";
}

abbrev raw : RawMessage
unfolding marshal
raw = marshal token

abbrev deployed_cluster : Cluster
unfolding ensure
deployed_cluster = (ensure sandbox outage deploying raw (with_deployment cart)).1

abbrev good_image : String
good_image = "cart:1.0"

plan-Differs_example :
    (t : DeployImageToken) × (unmarshal_token raw ≡ some t) × (t.good_image ≢ t.bad_image)
unfolding plan marshal container_image resolve_good lookup
plan-Differs_example = plan-Differs sandbox outage deploying (with_deployment cart) raw refl

-- Someone deployed another version during the run.
abbrev patched_cart : Deployment
patched_cart = record (deployed outage token cart) {
  containers = record { name = "cart"; image = "cart:1.1" } ∷ [];
}

revert_superseded_example :
    (finished ≡ finished)
    × ((d : Deployment) × (deployment_laws.at
            (revert sandbox outage raw (with_deployment patched_cart)).1
            (key "shop" "cart")
          ≡ some d)
        × ((d.containers ≡ patched_cart.containers)
            × (holder d ≡ "")
            × (lookup (known_good "cart") d.annotations ≡ none)))
unfolding revert is_foreign unmarshal_token marshal lookup insert container_image with_label
revert_superseded_example =
    revert_superseded sandbox deployment_laws outage raw token (with_deployment patched_cart)
      patched_cart finished refl refl refl refl refl
