-- ===== src/Controller/Activate/Walk.antt =====
-- A walk through the activation (maintenancejob_controller.go `reconcileActivate`): what a keeper
-- keeps is kept by the whole pass.
use rca_lab.Base.{
  ℕ, zero, suc, ◌≡◌, refl, true, false, ◌&&◌, ◌||◌, not, String, List, Option, none, some, is_some,
  length, ◌==◌, inl, inr, Bool-cases, Option-cases,
}
use rca_lab.Base.Int.{ℤ, pos}
use rca_lab.Go.Duration.{Duration, Time, before}
use rca_lab.Go.Json.{RawMessage}
use rca_lab.Types.{MaintenanceJob, ActionSpec, CurrentRun, ActiveAction, ActionType, active, ready}
use rca_lab.Cluster.Exec.{Error, Result, ok, err, Post, Post-bind}
use rca_lab.Cluster.Env.{Env}
use rca_lab.Actions.Action.{Action, RunContext, Progress}
use rca_lab.Actions.Registry.{get}
use rca_lab.Controller.Helpers.{find_active_action, status_mutation, set_condition}
use rca_lab.Controller.Status.{Reconciler, run_context}
use rca_lab.Controller.Status.Keeper.{Keeper, patched, Fine}
use rca_lab.Controller.Activate.{
  Loop, is_applied, same_phase, get_elem?, activate_at, plan_failed, ensure_failed, ensured,
  after_ensure, ensure_found, ensure_recorded, after_plan, record_then_ensure, activate_with,
  activate_one, activate_at_index, activate_all, goal_phase, announce, settle_phase, wake_up,
  finish_activation, reconcile_activate, record_token, failed_once, mark_applied, reached,
}

module _ (E : Env) (H : Keeper E) where
  open H use {Safe, Held, Allowed, safe, event}

  -- The changes of the status that the activation makes.
  pub record AllowsActivation (registry : List (Action E.World)) (rc : RunContext)
      (run : CurrentRun) (now : Time) : Type 0 where
    pub condition :
        (fs : MaintenanceJob) (g : ℤ) (message : String)
        → Allowed fs (set_condition E g ready false "PlanFailed" message)
    pub records :
        (fs : MaintenanceJob) (act : ActionSpec) (token : RawMessage)
        → Allowed fs (record_token act token)
    pub fails :
        (fs : MaintenanceJob) (name message : String)
        → Allowed fs (status_mutation name (failed_once message))
    pub applies :
        (fs : MaintenanceJob) (name : String) → Allowed fs (status_mutation name (mark_applied now))
    pub reaches : (fs : MaintenanceJob) (s : Loop) → Allowed fs (reached E registry rc run now s)

  -- An action whose plan keeps what is held, and whose ensure does where it is given the token of the
  -- record in hand.
  pub record Acts (impl : Action E.World) : Type 0 where
    pub plan :
        (rc : RunContext) (act : ActionSpec) (fs : MaintenanceJob) (w : E.World)
        → Held fs w
        → Held fs (impl.plan rc act w).1
    pub ensure :
        (rc : RunContext) (act : ActionSpec) (fs : MaintenanceJob) (aa : ActiveAction) (w : E.World)
        → find_active_action fs.status.active_actions act.name ≡ some aa
        → Held fs w
        → Held fs (impl.ensure rc act aa.revert w).1

  abbrev InLoop : Loop → E.World → Type 0
  InLoop s w = Held s.fs w

  module _ (rc : RunContext) (run : CurrentRun) (now : Time) (registry : List (Action E.World))
      (A : AllowsActivation registry rc run now) where
    plan_failed_lem :
        (act : ActionSpec) (e : Error) (s : Loop) (w : E.World)
        → InLoop s w
        → Post Safe InLoop (plan_failed E registry rc run now act e s w)
    unfolding activate_one
    plan_failed_lem act e s w c =
        patched E H InLoop s.fs _ _ _ (event s.fs s.fs true _ _ w c) (A.condition s.fs _ _)
          (λ fs' w' c'. c')

    ensure_failed_lem :
        (act : ActionSpec) (aa : ActiveAction) (e : Error) (s : Loop) (w : E.World)
        → InLoop s w
        → Post Safe InLoop (ensure_failed E registry rc run now act aa e s w)
    unfolding activate_one
    ensure_failed_lem act aa e s w c =
        patched E H InLoop s.fs _ _ w c (A.fails s.fs act.name e.message) (λ fs' w' c'. c')

    ensured_lem :
        (act : ActionSpec) (aa : ActiveAction) (p : Progress) (s : Loop) (w : E.World)
        → InLoop s w
        → Post Safe InLoop (ensured E registry rc run now act aa p s w)
    unfolding activate_one
    ensured_lem act aa p s w c = elim (Bool-cases p.done) [
      | inl h ↦ rw h (elim (Bool-cases (not (is_applied aa.phase) || not (aa.last_error == ""))) [
        | inl g ↦ rw g (patched E H InLoop s.fs _ _ w c (A.applies s.fs act.name) (λ fs' w' c'. c'))
        | inr g ↦ rw g c
      ])
      | inr h ↦ rw h c
    ]

    after_ensure_lem :
        (act : ActionSpec) (aa : ActiveAction) (s : Loop) (r : Result Progress) (w : E.World)
        → InLoop s w
        → Post Safe InLoop (after_ensure E registry rc run now act aa s r w)
    unfolding activate_one
    after_ensure_lem act aa s (err e) w c = ensure_failed_lem act aa e s w c
    after_ensure_lem act aa s (ok p) w c = ensured_lem act aa p s w c

    module _ (impl : Action E.World) (G : Acts impl) where
      ensure_found_lem :
          (act : ActionSpec) (s : Loop) (found : Option ActiveAction) (w : E.World)
          → find_active_action s.fs.status.active_actions act.name ≡ found
          → InLoop s w
          → Post Safe InLoop (ensure_found E registry rc run now impl act s found w)
      unfolding activate_one
      ensure_found_lem act s none w h c = safe s.fs w c
      ensure_found_lem act s (some aa) w h c =
          after_ensure_lem act aa s _ _ (G.ensure rc act s.fs aa w h c)

      ensure_recorded_lem :
          (act : ActionSpec) (s : Loop) (w : E.World)
          → InLoop s w
          → Post Safe InLoop (ensure_recorded E registry rc run now impl act s w)
      unfolding activate_one
      ensure_recorded_lem act s w c = ensure_found_lem act s _ w refl c

      after_plan_lem :
          (act : ActionSpec) (s : Loop) (r : Result RawMessage) (w : E.World)
          → InLoop s w
          → Post Safe InLoop (after_plan E registry rc run now impl act s r w)
      unfolding activate_one
      after_plan_lem act s (err e) w c = plan_failed_lem act e s w c
      after_plan_lem act s (ok token) w c =
          patched E H InLoop s.fs _ _ w c (A.records s.fs act token)
            (λ fs' w' c'. ensure_recorded_lem act _ w' c')

      record_then_ensure_lem :
          (act : ActionSpec) (s : Loop) (w : E.World)
          → InLoop s w
          → Post Safe InLoop (record_then_ensure E registry rc run now impl act s w)
      unfolding activate_one
      record_then_ensure_lem act s w c = elim (Bool-cases (before now (activate_at run act))) [
        | inl h ↦ rw h c
        | inr h ↦ rw h (after_plan_lem act s _ _ (G.plan rc act s.fs w c))
      ]

    activate_with_lem :
        (found : Option (Action E.World)) (act : ActionSpec) (s : Loop) (w : E.World)
        → ((impl : Action E.World) → found ≡ some impl → Acts impl)
        → InLoop s w
        → Post Safe InLoop (activate_with E registry rc run now found act s w)
    unfolding activate_one
    activate_with_lem none act s w g c = safe s.fs w c
    activate_with_lem (some impl) act s w g c =
        elim (Bool-cases (is_some (find_active_action s.fs.status.active_actions act.name))) [
          | inl h ↦ rw h (ensure_recorded_lem impl (g impl refl) act s w c)
          | inr h ↦ rw h (record_then_ensure_lem impl (g impl refl) act _ w c)
        ]

    module _
        (guarded : (t : ActionType) (impl : Action E.World)
          → get t registry ≡ some impl
          → Acts impl) where
      round_lem :
          (found : Option ActionSpec) (s : Loop) (w : E.World)
          → InLoop s w
          → Post Safe InLoop (activate_at_index E registry rc run now found s w)
      unfolding activate_all activate_one
      round_lem none s w c = safe s.fs w c
      round_lem (some act) s w c =
          activate_with_lem (get act.type registry) act s w (guarded act.type) c

      activate_all_lem :
          (n i : ℕ) (s : Loop) (w : E.World)
          → InLoop s w
          → Post Safe InLoop (activate_all E registry rc run now n i s w)
      unfolding activate_all
      activate_all_lem zero i s w c = c
      activate_all_lem (suc n) i s w c =
          Post-bind Safe InLoop InLoop
            (activate_at_index E registry rc run now (get_elem? s.fs.spec.actions i) s) _ w
            (round_lem (get_elem? s.fs.spec.actions i) s w c)
            (λ s' w' c'. activate_all_lem n (suc i) s' w' c')

    announce_lem :
        (fs : MaintenanceJob) (s : Loop) (w : E.World)
        → Held fs w
        → Post Safe Held (announce E registry rc run now fs s w)
    unfolding finish_activation
    announce_lem fs s w c = elim (Bool-cases (s.all_applied && same_phase fs.status.phase active)) [
      | inl h ↦ rw h (event fs fs false _ _ w c)
      | inr h ↦ rw h c
    ]

    settle_lem :
        (s : Loop) (w : E.World)
        → InLoop s w
        → Post Safe Held (settle_phase E registry rc run now s w)
    unfolding finish_activation
    settle_lem s w c =
        elim (Bool-cases (
          not (same_phase s.fs.status.phase (goal_phase E registry rc run now s))
          || not (E.is_status_condition_true ready s.fs.status.conditions))) [
            | inl h ↦ rw h (
                patched E H Held s.fs _ _ w c (A.reaches s.fs s)
                  (λ fs' w' c'. announce_lem fs' s w' c'))
            | inr h ↦ rw h c
          ]

    wake_up_lem :
        (d : Duration) (fs : MaintenanceJob) (w : E.World)
        → Held fs w
        → Post Safe (Fine E H) (wake_up E registry rc run now d w)
    unfolding finish_activation
    wake_up_lem d fs w c = elim (Option-cases run.expires_at) [
      | inl h ↦ rw h (safe fs w c)
      | inr (t, h) ↦ rw h (safe fs _ (H.now fs w c))
    ]

    finish_lem :
        (s : Loop) (w : E.World)
        → InLoop s w
        → Post Safe (Fine E H) (finish_activation E registry rc run now s w)
    unfolding finish_activation
    finish_lem s w c =
        Post-bind Safe Held (Fine E H) (settle_phase E registry rc run now s) _ w (settle_lem s w c)
          (λ fs' w' c'. wake_up_lem _ fs' w' c')

  -- The whole pass, from an object that is held.
  pub reconcile_activate_keeps :
      (registry : List (Action E.World)) (r : Reconciler) (fs : MaintenanceJob) (run : CurrentRun)
      (w : E.World)
      → ((now : Time) → AllowsActivation registry (run_context r fs (some run)) run now)
      → ((t : ActionType) (impl : Action E.World) → get t registry ≡ some impl → Acts impl)
      → Held fs w
      → Post Safe (Fine E H) (reconcile_activate E registry r fs run w)
  unfolding reconcile_activate
  reconcile_activate_keeps registry r fs run w allows acts c =
      let rc = run_context r fs (some run) in
      let now = (E.now w).0 in
      let w' = (E.now w).1 in
      Post-bind Safe InLoop (Fine E H)
        (activate_all E registry rc run now (length fs.spec.actions) 0
          (record { fs = fs; requeue_after = pos 0; all_applied = true }))
        _ w'
        (activate_all_lem rc run now registry (allows now) acts (length fs.spec.actions) 0 _ w'
          (H.now fs w c))
        (λ s w'' c. finish_lem rc run now registry (allows now) s w'' c)
