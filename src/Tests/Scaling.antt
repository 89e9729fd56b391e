-- ===== src/Tests/Scaling.antt =====
-- Scale actions in the sandbox.
use rca_lab.Base.{true, ◌≡◌, refl, [], ◌∷◌, some, arith}
use rca_lab.Types.{MaintenanceJob}
use rca_lab.Cluster.Exec.{ok}
use rca_lab.Cluster.Env.{Env}
use rca_lab.Base.Int.{pos}
use rca_lab.Base.Dict.{lookup, insert}
use rca_lab.Go.Json.{RawMessage}
use rca_lab.Cluster.Objects.{Deployment, key}
use rca_lab.Cluster.Laws.{managed_of, Matches, DeploymentLaws}
use rca_lab.Actions.Action.{finished, held_by_annotation}
use rca_lab.Actions.Holder.{is_foreign}
use rca_lab.Actions.Scale.{holder, is_live, scaled, plan, ensure, revert}
use rca_lab.Actions.Scale.Lock.{locked_stays}
use rca_lab.Actions.Scale.RoundTrip.{scale_roundtrip}
use rca_lab.Actions.Scale.Token.{ScaleToken, marshal, unmarshal_token}
use rca_lab.Tests.Sandbox.{
  Cluster, sandbox, patched, deployment_laws, cart, with_deployment, outage, scale_down, scaling,
  scenario, first_run,
}

abbrev token : ScaleToken
token = record { kind = "Deployment"; namespace = "shop"; name = "cart"; previous_replicas = pos 3 }

abbrev raw : RawMessage
unfolding marshal
raw = marshal token

abbrev scaled_cluster : Cluster
unfolding ensure
scaled_cluster = (ensure sandbox outage scaling raw (with_deployment cart)).1

-- The Deployment controller has rolled the new count out.
abbrev rolled_out_cart : Deployment
rolled_out_cart = record (patched (scaled outage scale_down cart)) {
  observed_generation = pos 5;
  available_replicas = pos 0;
}

abbrev rolled_out : Cluster
rolled_out = with_deployment rolled_out_cart

scale_roundtrip_example :
    Matches (deployment_laws.at scaled_cluster (key "shop" "cart")) (scaled outage scale_down cart)
    × (finished ≡ finished)
    × Matches (deployment_laws.at (revert sandbox outage raw rolled_out).1 (key "shop" "cart")) cart
unfolding plan ensure revert is_foreign unmarshal_token marshal lookup insert
scale_roundtrip_example =
    scale_roundtrip sandbox deployment_laws outage scaling scale_down refl cart
      (with_deployment cart) (with_deployment cart) rolled_out raw finished finished refl refl
      (omega arith) (omega arith) refl (cart, refl, (managed_of cart, refl)) refl
      (patched (scaled outage scale_down cart), refl, (managed_of rolled_out_cart, refl)) refl

-- Another scenario, which is running, holds the Deployment.
abbrev held_cart : Deployment
held_cart = record cart { annotations = (held_by_annotation, "rollout/r7") ∷ [] }

abbrev rollout : MaintenanceJob
rollout = record scenario {
  name = "rollout";
  status = record scenario.status { current_run = some first_run };
}

abbrev watched : Env
watched = record sandbox { get_job = λ k w. (ok rollout, w) }

watched_laws : DeploymentLaws watched
watched_laws = record {
  at = deployment_laws.at;
  read = deployment_laws.read;
  get_keeps = deployment_laws.get_keeps;
  get_job_keeps = λ k w. refl;
  now_keeps = deployment_laws.now_keeps;
  wrote = deployment_laws.wrote;
  patch_at = deployment_laws.patch_at;
  patch_ne = deployment_laws.patch_ne;
}

held_foreign : is_foreign outage (holder held_cart) ≡ true
unfolding is_foreign lookup
held_foreign = refl

locked_stays_example :
    (watched_laws.at
        (ensure watched outage scaling raw (with_deployment held_cart)).1
        (key "shop" "cart")
      ≡ some held_cart)
    × (watched_laws.at (revert watched outage raw (with_deployment held_cart)).1 (key "shop" "cart")
        ≡ some held_cart)
unfolding watched_laws is_live
locked_stays_example =
    locked_stays watched watched_laws outage (key "shop" "cart") held_cart held_foreign (λ w. refl)
      scaling raw (with_deployment held_cart) refl
