-- ===== src/Actions/ChaosMesh.antt =====
-- The ChaosMesh action (operator/internal/actions/chaosmesh.go).
pub mod Token
pub mod Lifetime
use rca_lab.Base.{
  Bool, true, false, ◌||◌, String, ◌<>◌, [], ◌∷◌, Option, none, some, ◌==◌, if◌then◌else◌,
}
use rca_lab.Base.Int.{pos, leb_ℤ}
use rca_lab.Base.Dict.{get}
use rca_lab.Base.Text.{quote}
use rca_lab.Go.Duration.{Duration, seconds, minutes, add, show}
use rca_lab.Go.Json.{Json, null, str, obj, Members, end, member, RawMessage}
use rca_lab.Types.{ActionType, ActionSpec, ChaosMeshAction}
use rca_lab.Cluster.Exec.{
  Error, Exec, Result, ok, err, pure, fail, errorf, is_not_found, is_already_exists, observe,
}
use rca_lab.Cluster.Objects.{Key, key, Chaos, foreground}
use rca_lab.Cluster.Env.{Env}
use rca_lab.Actions.Action.{
  Action, RunContext, Progress, finished, pending, scenario_label, owner_reference,
}
use rca_lab.Actions.Names.{chaos_object_name}
use rca_lab.Actions.ChaosMesh.Token.{ChaosMeshToken, marshal, unmarshal_token}

abbrev pub chaos_api_version : String
chaos_api_version = "chaos-mesh.org/v1alpha1"

abbrev pub chaos_deadman_margin : Duration
chaos_deadman_margin = minutes 5

unfoldable pub chaos_duration : Duration → String
chaos_duration run_duration =
    if leb_ℤ run_duration (pos 0) then "24h" else show (add run_duration chaos_deadman_margin)

abbrev pub chaos_owner : Chaos → String
chaos_owner c = get c.labels scenario_label

-- `_, ok := spec[k]`
abbrev pub has_member : String → Members → Bool
has_member k end = false
has_member k (member j v rest) = j == k || has_member k rest

abbrev with_duration : RunContext → Members → Members
with_duration rc ms =
    if has_member "duration" ms
    then ms
    else member "duration" (str (chaos_duration rc.run_duration)) ms

-- The object's spec: the action's, with a duration where it states none. The outer `none` is the
-- empty text; `null` makes the map nil, and writing to it panics.
unfoldable pub chaos_spec : RunContext → Option RawMessage → Result Members
chaos_spec rc none = ok (with_duration rc end)
chaos_spec rc (some none) = err (errorf "action: invalid chaosMesh spec")
chaos_spec rc (some (some null)) = err (errorf "panic: assignment to entry in nil map")
chaos_spec rc (some (some (obj ms))) = ok (with_duration rc ms)
chaos_spec rc (some (some _)) = err (errorf "action: invalid chaosMesh spec")

abbrev pub target : ChaosMeshToken → Key
target t = key t.namespace t.name

unfoldable pub build_chaos : RunContext → ChaosMeshAction → ChaosMeshToken → Result Chaos
unfolding chaos_spec
build_chaos rc ca t = elim (chaos_spec rc ca.spec) [
  | err e ↦ err e
  | ok spec ↦ ok (record {
    kind = t.kind;
    namespace = t.namespace;
    name = t.name;
    labels = (scenario_label, rc.scenario_name) ∷ [];
    owner = some (owner_reference rc);
    deleting = false;
    spec = spec;
  })
]

abbrev config_missing : ActionSpec → Error
config_missing spec = errorf ("action " <> (quote spec.name <> ": chaosMesh config missing"))

module _ (E : Env) where
  open E use {World, get_chaos, create_chaos, delete_chaos}

  plan_chaos : RunContext → String → ChaosMeshAction → Exec World RawMessage
  plan_chaos rc action_name ca =
      let name = chaos_object_name ca rc action_name in
      let token : RawMessage = marshal (record {
        api_version = chaos_api_version;
        kind = ca.kind;
        namespace = rc.namespace;
        name = name;
      }) in
      observe (get_chaos ca.kind (key rc.namespace name)) (λ r. elim r [
        | ok existing ↦
            if chaos_owner existing == rc.scenario_name
            then pure token
            else fail (
                errorf (
                  ca.kind
                  <> (" "
                      <> (rc.namespace
                          <> ("/"
                              <> (name
                                  <> (" already exists and is not owned by scenario "
                                      <> (quote rc.scenario_name <> " (name conflict)"))))))))
        | err e ↦ if is_not_found e then pure token else fail e
      ])

  unfoldable pub plan : RunContext → ActionSpec → Exec World RawMessage
  unfolding plan_chaos
  plan rc spec = elim spec.chaos_mesh [
    | none ↦ fail (config_missing spec)
    | some ca ↦ plan_chaos rc spec.name ca
  ]

  create : RunContext → ChaosMeshAction → ChaosMeshToken → Exec World Progress
  create rc ca t = elim (build_chaos rc ca t) [
    | err e ↦ fail e
    | ok object ↦ observe (create_chaos object) (λ r. elim r [
      | ok _ ↦ pure finished
      | err e ↦ if is_already_exists e then pure (pending (seconds 1)) else fail e
    ])
  ]

  ensure_chaos : RunContext → ChaosMeshAction → ChaosMeshToken → Exec World Progress
  unfolding create
  ensure_chaos rc ca t = observe (get_chaos t.kind (target t)) (λ r. elim r [
    | ok existing ↦
        if chaos_owner existing == rc.scenario_name
        then pure finished
        else fail (
            errorf
              (t.kind <> (" " <> (t.namespace <> ("/" <> (t.name <> " exists but is not ours"))))))
    | err e ↦ if is_not_found e then create rc ca t else fail e
  ])

  unfoldable pub ensure : RunContext → ActionSpec → RawMessage → Exec World Progress
  unfolding ensure_chaos
  ensure rc spec token = elim (unmarshal_token token) [
    | none ↦ fail (errorf "invalid chaosMesh token")
    | some t ↦ elim spec.chaos_mesh [
      | none ↦ fail (config_missing spec)
      | some ca ↦ ensure_chaos rc ca t
    ]
  ]

  delete : ChaosMeshToken → Chaos → Exec World Progress
  delete t object =
      if object.deleting
      then pure (pending (seconds 2))
      else observe (delete_chaos t.kind (target t) foreground) (λ r. elim r [
        | ok _ ↦ pure (pending (seconds 2))
        | err e ↦ if is_not_found e then pure (pending (seconds 2)) else fail e
      ])

  revert_chaos : RunContext → ChaosMeshToken → Exec World Progress
  unfolding delete
  revert_chaos rc t = observe (get_chaos t.kind (target t)) (λ r. elim r [
    | ok object ↦ if chaos_owner object == rc.scenario_name then delete t object else pure finished
    | err e ↦ if is_not_found e then pure finished else fail e
  ])

  unfoldable pub revert : RunContext → RawMessage → Exec World Progress
  unfolding revert_chaos
  revert rc token = elim (unmarshal_token token) [
    | none ↦ fail (errorf "invalid chaosMesh token")
    | some t ↦ revert_chaos rc t
  ]

  abbrev pub chaos_mesh_action : Action World
  chaos_mesh_action = record {
    type = ActionType.chaos_mesh;
    plan = plan;
    ensure = ensure;
    revert = revert;
  }
