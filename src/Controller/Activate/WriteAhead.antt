-- ===== src/Controller/Activate/WriteAhead.antt =====
-- The order of writes in `reconcileActivate` (maintenancejob_controller.go): no action is ensured
-- before its revert token is in the status that the API server holds.
use rca_lab.Base.{◌≡◌, refl, String, List, some}
use rca_lab.Go.Json.{RawMessage}
use rca_lab.Types.{MaintenanceJob, ActionSpec, CurrentRun, ActiveAction, ActionType}
use rca_lab.Cluster.Objects.{Key, job_key}
use rca_lab.Cluster.Env.{Env}
use rca_lab.Cluster.Laws.{JobLaws}
use rca_lab.Actions.Action.{Action, RunContext}
use rca_lab.Actions.Registry.{get}
use rca_lab.Controller.Helpers.{find_active_action}
use rca_lab.Controller.Status.{Reconciler}
use rca_lab.Controller.Status.Keeps.{Kept, Current, Current-moves, patch_lem}
use rca_lab.Controller.Status.Keeper.{Keeper}
use rca_lab.Controller.Activate.Walk.{Acts, reconcile_activate_keeps}
use rca_lab.Cluster.Retry.{holds}
use rca_lab.Controller.Activate.{reconcile_activate}

module _ (E : Env) (L : JobLaws E) (k : Key) where
  -- The record that the API server holds of the action of that name has that token.
  abbrev pub Persisted : String → RawMessage → E.World → Type 0
  Persisted name token w =
      (fs : MaintenanceJob) × (aa : ActiveAction) × (L.at w k ≡ some fs)
      × (find_active_action fs.status.active_actions name ≡ some aa)
      × (aa.revert ≡ token)

  -- An action whose plan does not break it, whose ensure does not where its token is persisted, and
  -- which leaves the scenario itself alone.
  pub record Guarded (I : E.World → Type 0) (impl : Action E.World) : Type 0 where
    pub plan_at :
        (rc : RunContext) (act : ActionSpec) (w : E.World) → L.at (impl.plan rc act w).1 ≡ L.at w
    pub plan_keeps :
        (rc : RunContext) (act : ActionSpec) (w : E.World) → I w → I (impl.plan rc act w).1
    pub ensure_at :
        (rc : RunContext) (act : ActionSpec) (token : RawMessage) (w : E.World)
        → L.at (impl.ensure rc act token w).1 ≡ L.at w
    pub ensure_keeps :
        (rc : RunContext) (act : ActionSpec) (token : RawMessage) (w : E.World)
        → I w
        → Persisted act.name token w
        → I (impl.ensure rc act token w).1

  module _ (I : E.World → Type 0) (K : Kept E L k I) where
    -- The object in hand is the one that the API server holds, whatever is changed.
    current_keeper : Keeper E
    current_keeper = record {
      Safe = I;
      Held = Current E L k I K;
      Allowed = λ fs m. Unit;
      safe = λ fs w c. c.0;
      patch = λ fs m w c a. patch_lem E L k I K fs m w c;
      event = λ held fs b reason message w c.
          Current-moves E L k I K held w _ c (K.by_event fs b reason message w c.0)
            (L.event_keeps fs b reason message w);
      now = λ fs w c. Current-moves E L k I K fs w _ c (K.by_now w c.0) (L.now_keeps w);
    }

    Guarded-Acts : (impl : Action E.World) → Guarded I impl → Acts E current_keeper impl
    unfolding current_keeper
    Guarded-Acts impl G = record {
      plan = λ rc act fs w c.
          Current-moves E L k I K fs w _ c (G.plan_keeps rc act w c.0) (G.plan_at rc act w);
      ensure = λ rc act fs aa w h c.
          Current-moves E L k I K fs w _ c
            (G.ensure_keeps rc act aa.revert w c.0 (fs, aa, c.1, h, refl))
            (G.ensure_at rc act aa.revert w);
    }

module _ (E : Env) (L : JobLaws E) where
  -- A pass of the activation from the object that the API server holds breaks no property of the
  -- world that the client's reads and writes of that object, the clock and events keep, that plans
  -- keep, and that an ensure keeps where the server's status has a record of the action with the
  -- token that the ensure is given: so a pass ensures only with persisted tokens, whatever calls
  -- fail or conflict on the way.
  pub reconcile_activate_lem :
      (registry : List (Action E.World)) (r : Reconciler) (fs : MaintenanceJob) (run : CurrentRun)
      (I : E.World → Type 0) (w : E.World)
      → Kept E L (job_key fs) I
      → ((t : ActionType) (impl : Action E.World)
          → get t registry ≡ some impl
          → Guarded E L (job_key fs) I impl)
      → L.at w (job_key fs) ≡ some fs
      → I w
      → I (reconcile_activate E registry r fs run w).1
  unfolding current_keeper
  reconcile_activate_lem registry r fs run I w K guarded h i =
      let k = job_key fs in
      holds I _ (
        reconcile_activate_keeps E (current_keeper E L k I K) registry r fs run w
          (λ now. record {
            condition = λ _ _ _. tt;
            records = λ _ _ _. tt;
            fails = λ _ _ _. tt;
            applies = λ _ _. tt;
            reaches = λ _ _. tt;
          })
          (λ t impl g. Guarded-Acts E L k I K impl (guarded t impl g)) (i, h, refl))
