-- ===== src/Tests/Faults.antt =====
-- ChaosMesh actions in the sandbox.
use rca_lab.Base.{◌≡◌, refl, ◌⊎◌, [], ◌∷◌, some, true, false, ◌==◌}
use rca_lab.Base.Int.{pos}
use rca_lab.Go.Json.{RawMessage, obj, end, member, str}
use rca_lab.Types.{ChaosMeshAction}
use rca_lab.Cluster.Exec.{Error, ok, err, is_not_found}
use rca_lab.Cluster.Objects.{Chaos}
use rca_lab.Actions.Action.{finished}
use rca_lab.Actions.ChaosMesh.{chaos_owner, chaos_duration, target, revert}
use rca_lab.Actions.ChaosMesh.Lifetime.{revert-lingering}
use rca_lab.Actions.ChaosMesh.Token.{ChaosMeshToken, marshal, unmarshal_token}
use rca_lab.Actions.Action.{owner_reference, scenario_label}
use rca_lab.Tests.Sandbox.{sandbox, empty_cluster, outage}

abbrev delay : ChaosMeshAction
delay = record {
  kind = "NetworkChaos";
  name = "slow";
  spec = some (some (obj (member "action" (str "delay") end)));
}

abbrev token : ChaosMeshToken
token = record {
  api_version = "chaos-mesh.org/v1alpha1";
  kind = "NetworkChaos";
  namespace = "shop";
  name = "slow";
}

abbrev raw : RawMessage
unfolding marshal
raw = marshal token

abbrev slow : Chaos
slow = record {
  kind = "NetworkChaos";
  namespace = "shop";
  name = "slow";
  labels = (scenario_label, "outage") ∷ [];
  owner = some (owner_reference outage);
  deleting = false;
  spec =
      member "duration" (str (chaos_duration (pos 900_000_000_000)))
        (member "action" (str "delay") end);
}

revert-lingering_example :
    ((e : Error) × ((sandbox.get_chaos "NetworkChaos" (target token) empty_cluster).0 ≡ err e)
      × (is_not_found e ≡ true))
    ⊎ ((object : Chaos) × ((sandbox.get_chaos "NetworkChaos" (target token) empty_cluster).0
          ≡ ok object)
        × ((chaos_owner object == "outage") ≡ false))
unfolding revert marshal unmarshal_token
revert-lingering_example =
    revert-lingering sandbox outage raw token empty_cluster finished refl refl refl
