-- ===== src/Actions/Scale/RoundTrip.antt =====
-- A Deployment is the same after an ensure of a Scale action and its revert (scale.go).
use rca_lab.Base.{◌≡◌, refl, ◌∙◌, ap, some, none, Option, arith, eq_iff}
use rca_lab.Base.Int.{pos, negsuc, ◌≤ℤ◌}
use rca_lab.Base.Dict.{lookup, lookup-insert, erase-insert}
use rca_lab.Go.Json.{RawMessage}
use rca_lab.Types.{ActionSpec, ScaleAction}
use rca_lab.Cluster.Exec.{ok}
use rca_lab.Cluster.Objects.{Deployment, Key, key}
use rca_lab.Cluster.Env.{Env}
use rca_lab.Cluster.Laws.{
  DeploymentLaws, managed_of, managed, Matches, Unwritten, Matches-Unwritten,
}
use rca_lab.Actions.Action.{RunContext, Progress, finished, held_by_annotation}
use rca_lab.Actions.Holder.{hold, is_foreign, hold-own, hold-ne-empty}
use rca_lab.Actions.Scale.{
  scaled, unscaled, check_holder, apply_scale, replicas_or_one, plan, plan_scale, ensure,
  ensure_scale, revert, restore_scale,
}
use rca_lab.Actions.Scale.Token.{ScaleToken, marshal, unmarshal_token, unmarshal-marshal}

abbrev token_of : RunContext → ScaleAction → Deployment → ScaleToken
token_of rc sa d = record {
  kind = "Deployment";
  namespace = rc.namespace;
  name = sa.target_ref.name;
  previous_replicas = replicas_or_one d.replicas;
}

abbrev place : RunContext → ScaleAction → Key
place rc sa = key rc.namespace sa.target_ref.name

module _ (E : Env) (L : DeploymentLaws E) (rc : RunContext) (spec : ActionSpec) (sa : ScaleAction)
    (given : spec.scale ≡ some sa) (d : Deployment) where
  -- A plan that succeeds returns the token of the Deployment it saw, and changes no Deployment.
  plan_lem :
      (w : E.World) (token : RawMessage)
      → L.at w (place rc sa) ≡ some d
      → (plan E rc spec w).0 ≡ ok token
      → (token ≡ marshal (token_of rc sa d)) × (L.at (plan E rc spec w).1 ≡ L.at w)
  unfolding plan plan_scale
  plan_lem w token h p = ground (arith, L.get_keeps (place rc sa) w, L.read (place rc sa) w)

  unlocked : (w : E.World) → check_holder E rc (token_of rc sa d) "" w ≡ (ok tt, w)
  unfolding ensure_scale is_foreign
  unlocked w = refl

  apply_lem :
      (w : E.World) (p : Progress)
      → L.at w (place rc sa) ≡ some d
      → lookup held_by_annotation d.annotations ≡ none
      → (apply_scale E rc sa (token_of rc sa d) d w).0 ≡ ok p
      → L.at (apply_scale E rc sa (token_of rc sa d) d w).1 (place rc sa)
        ≡ some (managed (L.wrote (place rc sa) d (scaled rc sa d) w) (scaled rc sa d))
  unfolding ensure_scale
  apply_lem w p h free e = ground (
    arith,
    hold-ne-empty rc,
    eq_iff "" (hold rc),
    eq_iff (hold rc) "",
    L.patch_at (place rc sa) d (scaled rc sa d) w,
  )

  -- An ensure on that Deployment, unlocked, sets the count and the lock and nothing else.
  ensure_lem :
      (w : E.World) (token : RawMessage) (p : Progress)
      → unmarshal_token token ≡ some (token_of rc sa d)
      → L.at w (place rc sa) ≡ some d
      → lookup held_by_annotation d.annotations ≡ none
      → (ensure E rc spec token w).0 ≡ ok p
      → L.at (ensure E rc spec token w).1 (place rc sa)
        ≡ some (
            managed
              (L.wrote (place rc sa) d (scaled rc sa d) (E.get_deployment (place rc sa) w).1)
              (scaled rc sa d))
  unfolding ensure ensure_scale
  ensure_lem w token p t h free e = ground (
    arith,
    L.get_keeps (place rc sa) w,
    L.read (place rc sa) w,
    unlocked (E.get_deployment (place rc sa) w).1,
    apply_lem (E.get_deployment (place rc sa) w).1 p,
  )

  -- A revert of the scaled Deployment puts back the count, removes the lock, and is done.
  revert_lem :
      (w : E.World) (token : RawMessage) (p : Progress)
      → unmarshal_token token ≡ some (token_of rc sa d)
      → L.at w (place rc sa) ≡ some (scaled rc sa d)
      → lookup held_by_annotation d.annotations ≡ none
      → (revert E rc token w).0 ≡ ok p
      → (p ≡ finished)
        × (L.at (revert E rc token w).1 (place rc sa)
            ≡ some (
                managed
                  (L.wrote
                    (place rc sa)
                    (scaled rc sa d)
                    (unscaled (token_of rc sa d) (scaled rc sa d))
                    (E.get_deployment (place rc sa) w).1)
                  (record d { replicas = some (replicas_or_one d.replicas) })))
  unfolding revert restore_scale
  revert_lem w token p t h free e =
      let s = scaled rc sa d in
      ground (
        arith,
        L.get_keeps (place rc sa) w,
        L.read (place rc sa) w,
        hold-ne-empty rc,
        hold-own rc,
        eq_iff "" (hold rc),
        eq_iff held_by_annotation held_by_annotation,
        lookup-insert held_by_annotation held_by_annotation (hold rc) d.annotations,
        erase-insert held_by_annotation (hold rc) d.annotations free,
        L.patch_at (place rc sa) s (unscaled (token_of rc sa d) s)
            (E.get_deployment (place rc sa) w).1,
      )

module _ (E : Env) (L : DeploymentLaws E) (rc : RunContext) (spec : ActionSpec) (sa : ScaleAction)
    (given : spec.scale ≡ some sa) (d : Deployment) where
  abbrev spot : E.World → Option Deployment
  spot w = L.at w (place rc sa)

  ensured_lem :
      (w : E.World) (token : RawMessage) (p : Progress)
      → unmarshal_token token ≡ some (token_of rc sa d)
      → Matches (spot w) d
      → lookup held_by_annotation d.annotations ≡ none
      → (ensure E rc spec token w).0 ≡ ok p
      → Matches (spot (ensure E rc spec token w).1) (scaled rc sa d)
  ensured_lem w token p decoded (m, there) free e =
      (_, ensure_lem E L rc spec sa given (managed m d) w token p decoded there free e)

  reverted_lem :
      (w : E.World) (token : RawMessage) (p : Progress)
      → unmarshal_token token ≡ some (token_of rc sa d)
      → Matches (spot w) (scaled rc sa d)
      → lookup held_by_annotation d.annotations ≡ none
      → (revert E rc token w).0 ≡ ok p
      → (p ≡ finished)
        × Matches
            (spot (revert E rc token w).1)
            (record d { replicas = some (replicas_or_one d.replicas) })
  reverted_lem w token p decoded (m, there) free e =
      let (done, back) =
        revert_lem E L rc spec sa given (managed m d) w token p decoded there free e in
      (done, (_, back))

  -- From an unlocked Deployment whose count is an int32, a plan, then an ensure, then a revert, each
  -- successful, where in between only the Deployment's generation and status are written: the ensure
  -- sets the count and the lock and, but for generation and status, nothing else; the revert is done,
  -- and the Deployment is what it was but for generation and status, its count written out where it
  -- was left to the default.
  pub scale_roundtrip :
      (w0 w1 w2 : E.World) (token : RawMessage) (p q : Progress)
      → spot w0 ≡ some d
      → lookup held_by_annotation d.annotations ≡ none
      → negsuc 2_147_483_647 ≤ℤ replicas_or_one d.replicas
      → replicas_or_one d.replicas ≤ℤ pos 2_147_483_647
      → (plan E rc spec w0).0 ≡ ok token
      → Unwritten (spot (plan E rc spec w0).1) (spot w1)
      → (ensure E rc spec token w1).0 ≡ ok p
      → Unwritten (spot (ensure E rc spec token w1).1) (spot w2)
      → (revert E rc token w2).0 ≡ ok q
      → Matches (spot (ensure E rc spec token w1).1) (scaled rc sa d)
        × (q ≡ finished)
        × Matches
            (spot (revert E rc token w2).1)
            (record d { replicas = some (replicas_or_one d.replicas) })
  scale_roundtrip w0 w1 w2 token p q h free lo hi planned b1 ensured b2 reverted =
      let seen = plan_lem E L rc spec sa given d w0 token h planned in
      let decoded : unmarshal_token token ≡ some (token_of rc sa d) =
        ap unmarshal_token seen.0 ∙ unmarshal-marshal (token_of rc sa d) lo hi in
      let kept : spot (plan E rc spec w0).1 ≡ some d =
        ap (λ (v : Key → Option Deployment). v (place rc sa)) seen.1 ∙ h in
      let still = Matches-Unwritten d _ _ (managed_of d, kept) b1 in
      let held = ensured_lem w1 token p decoded still free ensured in
      let back =
        reverted_lem w2 token q decoded (Matches-Unwritten (scaled rc sa d) _ _ held b2) free
          reverted in
      (held, back.0, back.1)
