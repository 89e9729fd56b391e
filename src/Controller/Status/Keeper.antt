-- ===== src/Controller/Status/Keeper.antt =====
-- What is kept of a scenario in hand while the reconciler's calls go by
-- (maintenancejob_controller.go): the interface that the walks through its passes use.
use rca_lab.Base.{Bool, String}
use rca_lab.Types.{MaintenanceJob, MaintenanceJobStatus}
use rca_lab.Cluster.Exec.{Exec, Post, Post-bind, ◌>>=◌}
use rca_lab.Cluster.Env.{Env}
use rca_lab.Controller.Status.{patch_status}

pub record Keeper (E : Env) : Type 1 where
  -- what holds of the world when the pass ends, and of the object in hand meanwhile
  pub Safe : E.World → Type 0
  pub Held : MaintenanceJob → E.World → Type 0
  -- the changes of the status that the object in hand allows
  pub Allowed : MaintenanceJob → (MaintenanceJobStatus → MaintenanceJobStatus) → Type 0
  pub safe : (fs : MaintenanceJob) (w : E.World) → Held fs w → Safe w
  pub patch :
      (fs : MaintenanceJob) (m : MaintenanceJobStatus → MaintenanceJobStatus) (w : E.World)
      → Held fs w
      → Allowed fs m
      → Post Safe Held (patch_status E fs m w)
  pub event :
      (held fs : MaintenanceJob) (b : Bool) (reason message : String) (w : E.World)
      → Held held w
      → Held held (E.record_event fs b reason message w)
  pub now : (fs : MaintenanceJob) (w : E.World) → Held fs w → Held fs (E.now w).1

module _ (E : Env) (H : Keeper E) where
  open H use {Safe, Held, Allowed, patch}

  -- After a change of the status, whatever goes on from the object that came back.
  pub patched :
      {A : Type 0} (R : A → E.World → Type 0) (fs : MaintenanceJob)
      (m : MaintenanceJobStatus → MaintenanceJobStatus) (f : MaintenanceJob → Exec E.World A)
      (w : E.World)
      → Held fs w
      → Allowed fs m
      → ((fs' : MaintenanceJob) (w' : E.World) → Held fs' w' → Post Safe R (f fs' w'))
      → Post Safe R ((patch_status E fs m >>= f) w)
  patched R fs m f w h a next =
      Post-bind Safe Held R (patch_status E fs m) f w (patch fs m w h a) next

  abbrev pub Fine : {A : Type 0} → A → E.World → Type 0
  Fine _ w = Safe w
