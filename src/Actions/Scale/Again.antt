-- ===== src/Actions/Scale/Again.antt =====
-- Calls of a Scale action that are made again (scale.go).
use rca_lab.Base.{◌≡◌, some, arith, eq_iff}
use rca_lab.Base.Int.{==ℤ_iff}
use rca_lab.Base.Dict.{lookup-insert, lookup-erase}
use rca_lab.Go.Json.{RawMessage}
use rca_lab.Types.{ActionSpec, ScaleAction}
use rca_lab.Cluster.Exec.{ok}
use rca_lab.Cluster.Objects.{Deployment}
use rca_lab.Cluster.Env.{Env}
use rca_lab.Actions.Action.{RunContext, finished, held_by_annotation}
use rca_lab.Actions.Holder.{is_foreign, hold, hold-own}
use rca_lab.Actions.Scale.{
  target, holder, scaled, unscaled, ensure, ensure_scale, revert, restore_scale,
}
use rca_lab.Actions.Scale.Token.{ScaleToken, unmarshal_token}

module _ (E : Env) (rc : RunContext) (token : RawMessage) (t : ScaleToken)
    (decoded : unmarshal_token token ≡ some t) (w : E.World) (d : Deployment) where
  holder-scaled : (sa : ScaleAction) → holder (scaled rc sa d) ≡ hold rc
  holder-scaled sa = ground (
    arith,
    eq_iff held_by_annotation held_by_annotation,
    lookup-insert held_by_annotation held_by_annotation (hold rc) d.annotations,
  )

  holder-unscaled : holder (unscaled t d) ≡ ""
  holder-unscaled = ground (
    arith,
    eq_iff held_by_annotation held_by_annotation,
    lookup-erase held_by_annotation held_by_annotation d.annotations,
  )

  -- An ensure that finds what an ensure of the same run left behind is done after the lookup, and
  -- calls nothing else.
  pub ensure_again :
      (spec : ActionSpec) (sa : ScaleAction)
      → spec.scale ≡ some sa
      → (E.get_deployment (target t) w).0 ≡ ok (scaled rc sa d)
      → ensure E rc spec token w ≡ (ok finished, (E.get_deployment (target t) w).1)
  unfolding ensure ensure_scale
  ensure_again spec sa given found = ground (
    arith,
    decoded,
    given,
    found,
    holder-scaled sa,
    hold-own rc,
    eq_iff (hold rc) (hold rc),
    ==ℤ_iff sa.replicas sa.replicas,
  )

  -- A revert that finds what a revert left behind is done after the lookup, and calls nothing else.
  pub revert_again :
      (E.get_deployment (target t) w).0 ≡ ok (unscaled t d)
      → revert E rc token w ≡ (ok finished, (E.get_deployment (target t) w).1)
  unfolding revert restore_scale is_foreign
  revert_again found = ground (
    arith,
    decoded,
    found,
    (eq_iff (holder (unscaled t d)) "").1 holder-unscaled,
    ==ℤ_iff t.previous_replicas t.previous_replicas,
  )
