-- ===== src/Actions/DeployImage.antt =====
-- The DeployImage action (operator/internal/actions/deployimage.go).
pub mod Token
pub mod Images
pub mod Rollback
pub mod RoundTrip
use rca_lab.Base.{
  Bool, true, false, ◌&&◌, ◌||◌, not, String, ◌<>◌, List, [], ◌∷◌, Option, none, some, is_some,
  ◌==◌, if◌then◌else◌,
}
use rca_lab.Base.Int.{ℤ, pos, ltb_ℤ, ◌==ℤ◌}
use rca_lab.Base.Dict.{Dict, lookup, insert, erase, get, text_or_empty}
use rca_lab.Base.Text.{quote}
use rca_lab.Go.Duration.{Duration, Time, seconds, minutes, sub}
use rca_lab.Go.Json.{RawMessage}
use rca_lab.Types.{ActionType, ActionSpec, DeployImageAction}
use rca_lab.Cluster.Exec.{
  Error, Exec, Result, ok, err, pure, fail, errorf, is_not_found, observe, ◌>>=◌, ◌>>◌,
}
use rca_lab.Cluster.Objects.{Key, key, Container, Deployment}
use rca_lab.Cluster.Env.{Env}
use rca_lab.Actions.Action.{
  Action, RunContext, Progress, finished, pending, scenario_label, held_by_annotation, wrapping,
}
use rca_lab.Actions.Holder.{is_foreign, hold}
use rca_lab.Actions.DeployImage.Token.{DeployImageToken, marshal, unmarshal_token}

abbrev pub known_good_prefix : String
known_good_prefix = "maintenance.platform.dev/known-good."

abbrev pub default_rollout_timeout : Duration
default_rollout_timeout = minutes 5

abbrev pub known_good : String → String
known_good container = known_good_prefix <> container

-- `containerIndex` with the image at the index; `none` stands for -1.
unfoldable pub container_image : String → List Container → Option String
container_image name [] = none
container_image name (c ∷ cs) = if c.name == name then some c.image else container_image name cs

-- `Containers[idx].Image = image` at the index of that name.
unfoldable pub set_image : String → String → List Container → List Container
set_image name image [] = []
set_image name image (c ∷ cs) =
    if c.name == name then record c { image = image } ∷ cs else c ∷ set_image name image cs

-- The rollback target: the spec's, then the annotation's, then the observed image.
unfoldable pub resolve_good : DeployImageAction → Deployment → String → String
resolve_good da dep observed =
    if da.known_good_image == ""
    then if get dep.annotations (known_good da.container) == ""
      then observed
      else get dep.annotations (known_good da.container)
    else da.known_good_image

unfoldable pub with_label : Dict String → String → String → Dict String
with_label labels k v = insert k v labels

-- Whether `kubectl rollout status` would report the rollout as finished.
unfoldable pub rollout_complete : Deployment → Bool
rollout_complete dep =
    if ltb_ℤ dep.observed_generation dep.generation
    then false
    else let desired : ℤ = elim dep.replicas [ none ↦ pos 1 | some n ↦ n ] in
      dep.updated_replicas ==ℤ desired
      && dep.available_replicas ==ℤ desired
      && dep.status_replicas ==ℤ desired

abbrev first_or : List Time → Time → Time
first_or [] t = t
first_or (x ∷ _) t = x

-- The last update of the Progressing condition, or the creation.
unfoldable pub rollout_start : Deployment → Time
rollout_start dep = first_or dep.progressing dep.created

abbrev pub target : DeployImageToken → Key
target t = key t.namespace t.name

abbrev pub holder : Deployment → String
holder dep = get dep.annotations held_by_annotation

-- The patch of `Ensure`: the image, its rollback marker, the lock and the label at once.
abbrev pub deployed : RunContext → DeployImageToken → Deployment → Deployment
deployed rc t dep = record dep {
  annotations =
      insert held_by_annotation (hold rc)
        (insert (known_good t.container) t.good_image dep.annotations);
  labels = with_label dep.labels scenario_label rc.scenario_name;
  containers = set_image t.container t.bad_image dep.containers;
}

-- `idx >= 0 && current == t.BadImage`
abbrev pub needs_image_restore : DeployImageToken → Deployment → Bool
needs_image_restore t dep = elim (container_image t.container dep.containers) [
  | none ↦ false
  | some current ↦ current == t.bad_image
]

-- The patch of `Revert`.
abbrev pub rolled_back : DeployImageToken → Deployment → Deployment
rolled_back t dep = record dep {
  annotations = erase held_by_annotation (erase (known_good t.container) dep.annotations);
  labels = erase scenario_label dep.labels;
  containers =
      if needs_image_restore t dep
      then set_image t.container t.good_image dep.containers
      else dep.containers;
}

abbrev config_missing : ActionSpec → Error
config_missing spec = errorf ("action " <> (quote spec.name <> ": deployImage config missing"))

module _ (E : Env) where
  open E use {World, now, get_deployment, patch_deployment}

  plan_image : RunContext → String → DeployImageAction → Exec World RawMessage
  plan_image rc name da = do
    dep ←
        wrapping ("deploy target " <> (rc.namespace <> ("/" <> da.target_ref.name)))
          (get_deployment (key rc.namespace da.target_ref.name))
    let observed = text_or_empty (container_image da.container dep.containers)
    let good = resolve_good da dep observed
    if observed == ""
        then fail (
            errorf (
              "deployment "
              <> (da.target_ref.name <> (" has no container " <> quote da.container))))
        else if good == da.image
        then fail (
            errorf (
              "action "
              <> (quote name
                  <> (": cannot determine a known-good image distinct from "
                      <> (quote da.image <> "; set spec knownGoodImage")))))
        else pure (
            marshal (record {
              kind = "Deployment";
              namespace = rc.namespace;
              name = da.target_ref.name;
              container = da.container;
              good_image = good;
              bad_image = da.image;
            }))

  unfoldable pub plan : RunContext → ActionSpec → Exec World RawMessage
  unfolding plan_image
  plan rc spec = elim spec.deploy_image [
    | none ↦ fail (config_missing spec)
    | some da ↦ plan_image rc spec.name da
  ]

  -- Applied once the rollout finishes or its time is over.
  await_rollout : DeployImageAction → Deployment → Exec World Progress
  await_rollout da dep w =
      let timeout : Duration = elim da.rollout_timeout [
        | none ↦ default_rollout_timeout
        | some d ↦ d
      ] in
      let (t, w') = now w in
      if rollout_complete dep
      then (ok finished, w)
      else if ltb_ℤ timeout (sub t (rollout_start dep))
      then (ok finished, w')
      else (ok (pending (seconds 10)), w')

  deploy : RunContext → DeployImageAction → DeployImageToken → Deployment → Exec World Progress
  unfolding await_rollout
  deploy rc da t dep =
      if is_foreign rc (holder dep)
      then fail (
          errorf (
            "deployment "
            <> (t.namespace <> ("/" <> (t.name <> (" is held by " <> quote (holder dep)))))))
      else elim (container_image t.container dep.containers) [
        | none ↦
            fail (errorf ("deployment " <> (t.name <> (" has no container " <> quote t.container))))
        | some image ↦
            if image == t.bad_image
            then await_rollout da dep
            else (patch_deployment (target t) dep (deployed rc t dep) >> pure (pending (seconds 5)))
      ]

  unfoldable pub ensure : RunContext → ActionSpec → RawMessage → Exec World Progress
  unfolding deploy
  ensure rc spec token = elim (unmarshal_token token) [
    | none ↦ fail (errorf "invalid deployImage token")
    | some t ↦ elim spec.deploy_image [
      | none ↦ fail (config_missing spec)
      | some da ↦ (do dep ← get_deployment (target t); deploy rc da t dep)
    ]
  ]

  roll_back : RunContext → DeployImageToken → Deployment → Exec World Progress
  roll_back rc t dep =
      if is_foreign rc (holder dep)
      then pure finished
      else if not (needs_image_restore t dep)
          && (not (is_some (lookup (known_good t.container) dep.annotations)) && holder dep == "")
      then pure finished
      else (patch_deployment (target t) dep (rolled_back t dep)
          >> pure (if needs_image_restore t dep then pending (seconds 5) else finished))

  revert_image : RunContext → DeployImageToken → Exec World Progress
  unfolding roll_back
  revert_image rc t = observe (get_deployment (target t)) (λ r. elim r [
    | ok dep ↦ roll_back rc t dep
    | err e ↦ if is_not_found e then pure finished else fail e
  ])

  unfoldable pub revert : RunContext → RawMessage → Exec World Progress
  unfolding revert_image
  revert rc token = elim (unmarshal_token token) [
    | none ↦ fail (errorf "invalid deployImage token")
    | some t ↦ revert_image rc t
  ]

  abbrev pub deploy_image_action : Action World
  deploy_image_action = record {
    type = ActionType.deploy_image;
    plan = plan;
    ensure = ensure;
    revert = revert;
  }
