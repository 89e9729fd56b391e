-- ===== src/Actions/Scale/Lock.antt =====
-- A Scale action leaves alone what another scenario has locked (scale.go).
use rca_lab.Base.{
  ◌≡◌, ◌≢◌, sym, ap, ◌⊎◌, inl, inr, true, false, some, arith, eq_iff, ◌==◌, ◌&&◌, String,
  Bool-cases, Option-cases,
}
use rca_lab.Go.Json.{RawMessage}
use rca_lab.Types.{ActionSpec, ScaleAction, MaintenanceJob}
use rca_lab.Cluster.Exec.{Result, ok, err, is_ok, is_not_found, Result-cases}
use rca_lab.Cluster.Objects.{Deployment, Key, key}
use rca_lab.Cluster.Env.{Env}
use rca_lab.Cluster.Laws.{DeploymentLaws}
use rca_lab.Actions.Action.{RunContext}
use rca_lab.Actions.Holder.{is_foreign, before_slash}
use rca_lab.Actions.Scale.{
  target, holder, is_live, scaled, unscaled, check_holder, ensure, ensure_scale, revert,
  restore_scale, revert_scale, apply_scale,
}
use rca_lab.Actions.Scale.Token.{ScaleToken, unmarshal_token}

Key-cases : (k j : Key) → (k ≡ j) ⊎ (k ≢ j)
Key-cases k j = elim (Bool-cases (k.namespace == j.namespace && k.name == j.name)) [
  | inl h ↦
      let a : k.namespace ≡ j.namespace = ground (arith, eq_iff k.namespace j.namespace) in
      let b : k.name ≡ j.name = ground (arith, eq_iff k.name j.name) in
      inl (λ i. record { namespace = a i; name = b i })
  | inr h ↦ inr (λ e.
      let a = (eq_iff k.namespace j.namespace).1 (ap (λ x. Key.namespace x) e) in
      let b = (eq_iff k.name j.name).1 (ap (λ x. Key.name x) e) in absurd (ground arith))
]

-- What a lookup of the lock's holder tells does not free the lock: the scenario has a run or something
-- left to revert, or the lookup failed otherwise than by NotFound.
abbrev pub Blocks : Result MaintenanceJob → Type 0
Blocks (ok other) = is_live other ≡ true
Blocks (err e) = is_not_found e ≡ false

module _ (E : Env) (L : DeploymentLaws E) (rc : RunContext) (k : Key) (d : Deployment)
    (foreign : is_foreign rc (holder d) ≡ true) where
  -- What a lookup of that Deployment returns is what is there.
  read_there :
      (j : Key) (x : Deployment) (w : E.World)
      → L.at w k ≡ some d
      → (E.get_deployment j w).0 ≡ ok x
      → k ≡ j
      → x ≡ d
  read_there j x w there found e =
      let at_j : L.at w j ≡ some d = rw⁻¹ e there in ground (arith, L.read j w)

  looked_up :
      (j : Key) (x : Deployment) (w : E.World)
      → L.at w k ≡ some d
      → (E.get_deployment j w).0 ≡ ok x
      → k ≡ j
      → is_foreign rc (holder x) ≡ true
  looked_up j x w there found e =
      let at_j : L.at w j ≡ some d = rw⁻¹ e there in ground (arith, L.read j w)

  revert_scale_keeps :
      (t : ScaleToken) (w : E.World) → L.at w k ≡ some d → L.at (revert_scale E rc t w).1 k ≡ some d
  unfolding revert_scale restore_scale
  revert_scale_keeps t w there =
      let w' = (E.get_deployment (target t) w).1 in
      elim (Result-cases (E.get_deployment (target t) w).0) [
        | inl (x, found) ↦ elim (Key-cases k (target t)) [
          | inl e ↦ ground (arith, L.get_keeps (target t) w, looked_up (target t) x w there found e)
          | inr n ↦ ground (
            arith,
            L.get_keeps (target t) w,
            L.patch_ne (target t) k x (unscaled t x) w' (λ h. n (sym h)),
          )
        ]
        | inr (e, failed) ↦ ground (arith, L.get_keeps (target t) w)
      ]

  revert_keeps :
      (token : RawMessage) (w : E.World)
      → L.at w k ≡ some d
      → L.at (revert E rc token w).1 k ≡ some d
  unfolding revert
  revert_keeps token w there = elim (Option-cases (unmarshal_token token)) [
    | inl h ↦ ground (arith, h)
    | inr (t, h) ↦ ground (arith, h, revert_scale_keeps t w there)
  ]

  check_holder_keeps :
      (t : ScaleToken) (cur : String) (w : E.World) → L.at (check_holder E rc t cur w).1 ≡ L.at w
  unfolding check_holder
  check_holder_keeps t cur w =
      let there = key t.namespace (before_slash cur) in
      elim (Result-cases (E.get_job there w).0) [
        | inl (other, h) ↦ ground (arith, L.get_job_keeps there w)
        | inr (e, h) ↦ ground (arith, L.get_job_keeps there w)
      ]

  apply_scale_keeps :
      (sa : ScaleAction) (t : ScaleToken) (x : Deployment) (w : E.World)
      → k ≢ target t
      → L.at w k ≡ some d
      → L.at (apply_scale E rc sa t x w).1 k ≡ some d
  unfolding apply_scale
  apply_scale_keeps sa t x w n there =
      ground (arith, L.patch_ne (target t) k x (scaled rc sa x) w (λ h. n (sym h)))

  module _
      (blocked : (w : E.World)
        → Blocks (E.get_job (key k.namespace (before_slash (holder d))) w).0) where
    held_lem :
        (t : ScaleToken) (w : E.World)
        → k ≡ target t
        → is_ok (check_holder E rc t (holder d) w).0 ≡ false
    unfolding check_holder
    held_lem t w e =
        let there = key t.namespace (before_slash (holder d)) in
        let b : Blocks (E.get_job there w).0 = rw⁻¹ (ap (λ x. Key.namespace x) e) (blocked w) in
        elim (Result-cases (E.get_job there w).0) [
          | inl (other, h) ↦ ground (arith, rw h at b)
          | inr (x, h) ↦ ground (arith, rw h at b)
        ]

    refused_lem :
        (t : ScaleToken) (x : Deployment) (w : E.World)
        → k ≡ target t
        → x ≡ d
        → is_ok (check_holder E rc t (holder x) w).0 ≡ false
    refused_lem t x w e same = rw same (held_lem t w e)

    ensure_scale_keeps :
        (sa : ScaleAction) (t : ScaleToken) (w : E.World)
        → L.at w k ≡ some d
        → L.at (ensure_scale E rc sa t w).1 k ≡ some d
    unfolding ensure_scale
    ensure_scale_keeps sa t w there =
        let w' = (E.get_deployment (target t) w).1 in
        elim (Result-cases (E.get_deployment (target t) w).0) [
          | inl (x, found) ↦
              let checked = check_holder E rc t (holder x) w' in
              let kept : L.at checked.1 k ≡ some d =
                ground (arith, L.get_keeps (target t) w, check_holder_keeps t (holder x) w') in
              elim (Key-cases k (target t)) [
                | inl e ↦
                    let refused : is_ok checked.0 ≡ false =
                      refused_lem t x w' e (read_there (target t) x w there found e) in
                    ground (arith, found, refused, kept)
                | inr n ↦ ground (arith, found, kept, apply_scale_keeps sa t x checked.1 n kept)
              ]
          | inr (e, failed) ↦ ground (arith, L.get_keeps (target t) w)
        ]

    ensure_keeps :
        (spec : ActionSpec) (token : RawMessage) (w : E.World)
        → L.at w k ≡ some d
        → L.at (ensure E rc spec token w).1 k ≡ some d
    unfolding ensure
    ensure_keeps spec token w there = elim (Option-cases (unmarshal_token token)) [
      | inl h ↦ ground (arith, h)
      | inr (t, h) ↦ elim (Option-cases spec.scale) [
        | inl g ↦ ground (arith, h, g)
        | inr (sa, g) ↦ ground (arith, h, g, ensure_scale_keeps sa t w there)
      ]
    ]

    -- A Deployment that another scenario has locked stays as it is through every ensure and every
    -- revert of a Scale action, whatever spec and token they are given and whatever the calls return,
    -- as long as no lookup of the scenario that the lock names tells that it is gone or idle.
    pub locked_stays :
        (spec : ActionSpec) (token : RawMessage) (w : E.World)
        → L.at w k ≡ some d
        → (L.at (ensure E rc spec token w).1 k ≡ some d) × (L.at (revert E rc token w).1 k ≡ some d)
    locked_stays spec token w there = (ensure_keeps spec token w there, revert_keeps token w there)
