-- ===== src/Controller/Status/Keeps.antt =====
-- What a change of the status keeps (maintenancejob_controller.go `patchStatus`): the object in hand
-- stays the one that the API server holds.
use rca_lab.Base.{◌≡◌, sym, ap, ◌∙◌, Bool, String, Option, some}
use rca_lab.Types.{MaintenanceJob, MaintenanceJobStatus}
use rca_lab.Cluster.Exec.{Exec, Post, Post-bind, ◌>>=◌}
use rca_lab.Cluster.Objects.{Key, job_key}
use rca_lab.Cluster.Env.{Env}
use rca_lab.Cluster.Laws.{JobLaws}
use rca_lab.Cluster.Retry.{Retried_lem, Post-of}
use rca_lab.Controller.Status.{try_patch, patch_status}

module _ (E : Env) (L : JobLaws E) (k : Key) where
  -- A property of the world that no call of the reconciler's own breaks.
  pub record Kept (I : E.World → Type 0) : Type 0 where
    pub by_get : (w : E.World) → I w → I (E.get_job k w).1
    pub by_update :
        (fs : MaintenanceJob) (w : E.World) → job_key fs ≡ k → I w → I (E.update_status fs w).1
    pub by_now : (w : E.World) → I w → I (E.now w).1
    pub by_event :
        (fs : MaintenanceJob) (b : Bool) (reason message : String) (w : E.World)
        → I w
        → I (E.record_event fs b reason message w)

  module _ (I : E.World → Type 0) (K : Kept I) where
    -- The object in hand is the one that the API server holds.
    abbrev pub Current : MaintenanceJob → E.World → Type 0
    Current fs w = I w × (L.at w k ≡ some fs) × (job_key fs ≡ k)

    pub Current-moves :
        (fs : MaintenanceJob) (w w' : E.World)
        → Current fs w
        → I w'
        → L.at w' ≡ L.at w
        → Current fs w'
    Current-moves fs w w' c i e = (i, ap (λ (v : Key → Option MaintenanceJob). v k) e ∙ c.1, c.2)

    update_lem :
        (fs : MaintenanceJob) (w : E.World)
        → job_key fs ≡ k
        → I w
        → Post I Current (E.update_status fs w)
    update_lem fs w e i =
        let out = E.update_status fs w in
        Post-of I Current out.0 out.1 (K.by_update fs w e i) (λ fs' h. (
          K.by_update fs w e i,
          ap (L.at out.1) (sym e) ∙ L.update_at fs fs' w h,
          (L.update_key fs fs' w h).0 ∙ e,
        ))

    try_patch_lem :
        (m : MaintenanceJobStatus → MaintenanceJobStatus) (w : E.World)
        → I w
        → Post I Current (try_patch E k m w)
    unfolding try_patch
    try_patch_lem m w i =
        let Got = λ (fs : MaintenanceJob) (w' : E.World). I w' × (job_key fs ≡ k) in
        Post-bind I Got Current (E.get_job k)
          (λ latest. E.update_status (record latest {
            status = record (m latest.status) { observed_generation = latest.generation };
          }))
          w
          (Post-of I Got (E.get_job k w).0 (E.get_job k w).1 (K.by_get w i)
            (λ fs h. (K.by_get w i, L.get_key k w fs h)))
          (λ fs w' got. update_lem _ w' got.1 got.0)

    pub patch_lem :
        (fs : MaintenanceJob) (m : MaintenanceJobStatus → MaintenanceJobStatus) (w : E.World)
        → Current fs w
        → Post I Current (patch_status E fs m w)
    unfolding patch_status
    patch_lem fs m w c =
        Retried_lem I Current (try_patch E (job_key fs) m) (λ a w' q. q.0)
          (λ w' i. rw (c.2) (try_patch_lem m w' i)) (L.retry (try_patch E (job_key fs) m) w) c.0

    -- After a change of the status, whatever goes on from the object that came back.
    pub patched :
        {A : Type 0} (R : A → E.World → Type 0) (fs : MaintenanceJob)
        (m : MaintenanceJobStatus → MaintenanceJobStatus) (f : MaintenanceJob → Exec E.World A)
        (w : E.World)
        → Current fs w
        → ((fs' : MaintenanceJob) (w' : E.World) → Current fs' w' → Post I R (f fs' w'))
        → Post I R ((patch_status E fs m >>= f) w)
    patched R fs m f w c next =
        Post-bind I Current R (patch_status E fs m) f w (patch_lem fs m w c) next
