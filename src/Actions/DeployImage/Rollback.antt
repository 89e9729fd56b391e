-- ===== src/Actions/DeployImage/Rollback.antt =====
-- What a DeployImage action leaves behind.
use rca_lab.Base.{
  ◌≡◌, ◌≢◌, refl, none, some, false, not, ◌&&◌, is_some, ◌==◌, eq_iff, arith, inl, inr, Bool-cases,
  Option-cases,
}
use rca_lab.Base.Dict.{erase, text_or_empty, lookup, lookup-erase}
use rca_lab.Go.Json.{RawMessage}
use rca_lab.Types.{ActionSpec, DeployImageAction}
use rca_lab.Cluster.Exec.{ok, Result-cases}
use rca_lab.Cluster.Objects.{Deployment, key}
use rca_lab.Cluster.Env.{Env}
use rca_lab.Cluster.Laws.{DeploymentLaws, managed}
use rca_lab.Actions.Action.{RunContext, Progress, finished, held_by_annotation}
use rca_lab.Actions.Holder.{is_foreign}
use rca_lab.Actions.DeployImage.{
  container_image, known_good, resolve_good, target, holder, needs_image_restore, rolled_back, plan,
  plan_image, revert, roll_back,
}
use rca_lab.Actions.DeployImage.Images.{known_good-held_by}
use rca_lab.Actions.DeployImage.Token.{DeployImageToken, unmarshal_token, unmarshal-marshal}

abbrev pub token_of : RunContext → DeployImageAction → Deployment → DeployImageToken
token_of rc da d = record {
  kind = "Deployment";
  namespace = rc.namespace;
  name = da.target_ref.name;
  container = da.container;
  good_image = resolve_good da d (text_or_empty (container_image da.container d.containers));
  bad_image = da.image;
}

abbrev Differs : DeployImageToken → Type 0
Differs t = t.good_image ≢ t.bad_image

-- A plan that succeeds returns a token whose rollback image differs from the image that is deployed.
pub plan-Differs :
    (E : Env) (rc : RunContext) (spec : ActionSpec) (w : E.World) (token : RawMessage)
    → (plan E rc spec w).0 ≡ ok token
    → (t : DeployImageToken) × (unmarshal_token token ≡ some t) × Differs t
unfolding plan plan_image
plan-Differs E rc spec w token h = elim (Option-cases spec.deploy_image) [
  | inl e ↦ absurd (ground arith)
  | inr (da, e) ↦ elim (Result-cases (E.get_deployment (key rc.namespace da.target_ref.name) w).0) [
    | inl (dep, f) ↦
        let t = token_of rc da dep in
        (t, ground (arith, unmarshal-marshal t), ground (arith, eq_iff t.good_image t.bad_image))
    | inr (x, f) ↦ absurd (ground arith)
  ]
]

module _ (E : Env) (L : DeploymentLaws E) where
  abbrev Cleaned : DeployImageToken → Deployment → Deployment → Type 0
  Cleaned t d d' =
      (d'.containers ≡ d.containers)
      × (holder d' ≡ "")
      × (lookup (known_good t.container) d'.annotations ≡ none)

  rolled_back_lem :
      (t : DeployImageToken) (d : Deployment)
      → needs_image_restore t d ≡ false
      → Cleaned t d (rolled_back t d)
  rolled_back_lem t d n =
      let less = erase (known_good t.container) d.annotations in
      (
        ground arith,
        ground (
          arith,
          eq_iff held_by_annotation held_by_annotation,
          lookup-erase held_by_annotation held_by_annotation less,
        ),
        ground (
          arith,
          known_good-held_by t.container,
          eq_iff (known_good t.container) (known_good t.container),
          lookup-erase held_by_annotation (known_good t.container) less,
          lookup-erase (known_good t.container) (known_good t.container) d.annotations,
        ),
      )

  -- A revert that finds another image than the one it deployed, which someone put there since, and no
  -- lock of another scenario, keeps the image: a revert that succeeds is done, no container is changed,
  -- and the lock and the rollback marker are gone.
  pub revert_superseded :
      (rc : RunContext) (token : RawMessage) (t : DeployImageToken) (w : E.World) (d : Deployment)
      (p : Progress)
      → unmarshal_token token ≡ some t
      → L.at w (target t) ≡ some d
      → is_foreign rc (holder d) ≡ false
      → needs_image_restore t d ≡ false
      → (revert E rc token w).0 ≡ ok p
      → (p ≡ finished)
        × ((d' : Deployment) × (L.at (revert E rc token w).1 (target t) ≡ some d') × Cleaned t d d')
  unfolding revert roll_back
  revert_superseded rc token t w d p e h f n r =
      let w' = (E.get_deployment (target t) w).1 in
      (
        ground (arith, L.read (target t) w),
        elim (Bool-cases
            (not (is_some (lookup (known_good t.container) d.annotations)) && holder d == "")) [
              | inl g ↦ (
                d,
                ground (arith, L.get_keeps (target t) w, L.read (target t) w),
                (refl, ground (arith, eq_iff (holder d) ""), ground arith),
              )
              | inr g ↦ (
                managed (L.wrote (target t) d (rolled_back t d) w') (rolled_back t d),
                ground (
                  arith,
                  L.get_keeps (target t) w,
                  L.read (target t) w,
                  L.patch_at (target t) d (rolled_back t d) w',
                ),
                rolled_back_lem t d n,
              )
            ],
      )
