-- ===== src/Actions/Scale.antt =====
-- The Scale action (operator/internal/actions/scale.go).
pub mod Token
pub mod Lock
pub mod Again
pub mod RoundTrip
use rca_lab.Base.{
  Bool, true, false, ◌&&◌, ◌||◌, not, String, ◌<>◌, List, [], ◌∷◌, Option, none, some, is_empty,
  is_some, ◌==◌, if◌then◌else◌,
}
use rca_lab.Base.Int.{ℤ, pos, ◌==ℤ◌}
use rca_lab.Base.Dict.{insert, erase, get}
use rca_lab.Base.Text.{quote}
use rca_lab.Go.Json.{RawMessage}
use rca_lab.Types.{ActionType, ActionSpec, ScaleAction, MaintenanceJob}
use rca_lab.Cluster.Exec.{
  Exec, Result, ok, err, pure, fail, errorf, is_not_found, observe, ◌>>=◌, ◌>>◌,
}
use rca_lab.Cluster.Objects.{Key, key, Deployment}
use rca_lab.Cluster.Env.{Env}
use rca_lab.Actions.Action.{Action, RunContext, Progress, finished, held_by_annotation, wrapping}
use rca_lab.Actions.Holder.{is_foreign, hold, before_slash}
use rca_lab.Actions.Scale.Token.{ScaleToken, marshal, unmarshal_token}

-- The replica count of a Deployment that leaves it out is 1.
abbrev pub replicas_or_one : Option ℤ → ℤ
replicas_or_one none = pos 1
replicas_or_one (some n) = n

-- `dep.Spec.Replicas != nil && *dep.Spec.Replicas == n`
abbrev pub has_replicas : Option ℤ → ℤ → Bool
has_replicas none n = false
has_replicas (some m) n = m ==ℤ n

abbrev pub holder : Deployment → String
holder dep = get dep.annotations held_by_annotation

-- Whether another scenario has a run or something left to revert.
unfoldable pub is_live : MaintenanceJob → Bool
is_live other = is_some other.status.current_run || not (is_empty other.status.active_actions)

abbrev pub scaled : RunContext → ScaleAction → Deployment → Deployment
scaled rc sa dep = record dep {
  replicas = some sa.replicas;
  annotations = insert held_by_annotation (hold rc) dep.annotations;
}

abbrev pub unscaled : ScaleToken → Deployment → Deployment
unscaled t dep = record dep {
  replicas = some t.previous_replicas;
  annotations = erase held_by_annotation dep.annotations;
}

abbrev pub target : ScaleToken → Key
target t = key t.namespace t.name

module _ (E : Env) where
  open E use {World, get_deployment, patch_deployment, get_job}

  plan_scale : RunContext → String → ScaleAction → Exec World RawMessage
  plan_scale rc name sa = do
    dep ←
        wrapping ("scale target deployment " <> (rc.namespace <> ("/" <> sa.target_ref.name)))
          (get_deployment (key rc.namespace sa.target_ref.name))
    pure (
        marshal (record {
          kind = "Deployment";
          namespace = rc.namespace;
          name = sa.target_ref.name;
          previous_replicas = replicas_or_one dep.replicas;
        }))

  unfoldable pub plan : RunContext → ActionSpec → Exec World RawMessage
  unfolding plan_scale
  plan rc spec = elim spec.scale [
    | none ↦ fail (errorf ("action " <> (quote spec.name <> ": scale config missing")))
    | some sa ↦ plan_scale rc spec.name sa
  ]

  -- The check of the lock; a holder that is gone or idle is no obstacle.
  check_holder : RunContext → ScaleToken → String → Exec World Unit
  check_holder rc t cur =
      if is_foreign rc cur
      then observe (get_job (key t.namespace (before_slash cur))) (λ r. elim r [
        | ok other ↦
            if is_live other
            then fail (
                errorf (
                  "deployment "
                  <> (t.namespace
                      <> ("/" <> (t.name <> (" is held by live scenario " <> quote cur))))))
            else pure tt
        | err e ↦ if is_not_found e then pure tt else fail e
      ])
      else pure tt

  apply_scale : RunContext → ScaleAction → ScaleToken → Deployment → Exec World Progress
  apply_scale rc sa t dep =
      if has_replicas dep.replicas sa.replicas && holder dep == hold rc
      then pure finished
      else (patch_deployment (target t) dep (scaled rc sa dep) >> pure finished)

  ensure_scale : RunContext → ScaleAction → ScaleToken → Exec World Progress
  unfolding check_holder apply_scale
  ensure_scale rc sa t = do
    dep ← get_deployment (target t)
    check_holder rc t (holder dep)
    apply_scale rc sa t dep

  unfoldable pub ensure : RunContext → ActionSpec → RawMessage → Exec World Progress
  unfolding ensure_scale
  ensure rc spec token = elim (unmarshal_token token) [
    | none ↦ fail (errorf "invalid scale token")
    | some t ↦ elim spec.scale [
      | none ↦ fail (errorf ("action " <> (quote spec.name <> ": scale config missing")))
      | some sa ↦ ensure_scale rc sa t
    ]
  ]

  restore_scale : RunContext → ScaleToken → Deployment → Exec World Progress
  restore_scale rc t dep =
      if is_foreign rc (holder dep)
      then pure finished
      else if has_replicas dep.replicas t.previous_replicas && holder dep == ""
      then pure finished
      else (patch_deployment (target t) dep (unscaled t dep) >> pure finished)

  revert_scale : RunContext → ScaleToken → Exec World Progress
  unfolding restore_scale
  revert_scale rc t = observe (get_deployment (target t)) (λ r. elim r [
    | ok dep ↦ restore_scale rc t dep
    | err e ↦ if is_not_found e then pure finished else fail e
  ])

  unfoldable pub revert : RunContext → RawMessage → Exec World Progress
  unfolding revert_scale
  revert rc token = elim (unmarshal_token token) [
    | none ↦ fail (errorf "invalid scale token")
    | some t ↦ revert_scale rc t
  ]

  abbrev pub scale_action : Action World
  scale_action = record { type = ActionType.scale; plan = plan; ensure = ensure; revert = revert }
