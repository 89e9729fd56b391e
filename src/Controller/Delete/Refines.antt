-- ===== src/Controller/Delete/Refines.antt =====
-- The deletion as a run of the status's state machine (maintenancejob_controller.go
-- `reconcileDelete`).
use rca_lab.Base.{arith, ◌≡◌, refl, ◌∙◌, true, ◌&&◌, not, Bool-cases, inl, inr, List, is_empty}
use rca_lab.Types.{MaintenanceJob, MaintenanceJobStatus}
use rca_lab.Cluster.Exec.{Result, ok, err, pure, is_not_found, continue, Post, ◌>>◌}
use rca_lab.Cluster.Objects.{Key, ConfigMap}
use rca_lab.Cluster.Env.{Env}
use rca_lab.Actions.Action.{Action}
use rca_lab.Controller.Status.{Reconciler, settled, finalizer_name}
use rca_lab.Controller.Refinement.Guards.{deleted}
use rca_lab.Controller.Refinement.Laws.{StatusLaws}
use rca_lab.Controller.Refinement.{
  Reached, Held, Held-Reached, Held-moves, rewritten, AllLeaveStatus,
}
use rca_lab.Controller.Revert.Refines.{reconcile_revert_refines}
use rca_lab.Controller.Delete.{leak_found, try_leak, leak_state, force_release, reconcile_delete}

module _ (E : Env) (k : Key) (L : StatusLaws E k) (s : MaintenanceJobStatus) where
  leak_found_keeps :
      (r : Reconciler) (fs : MaintenanceJob) (found : Result ConfigMap) (w : E.World)
      → L.stored (leak_found E r fs found w).1 ≡ L.stored w
  unfolding leak_found
  leak_found_keeps r fs (ok cm) w = L.update_config_map_keeps _ _ ∙ L.now_keeps w
  leak_found_keeps r fs (err e) w = elim (Bool-cases (is_not_found e)) [
    | inl b ↦ rw b (L.create_config_map_keeps _ _ ∙ L.now_keeps w)
    | inr b ↦ rw b refl
  ]

  try_leak_keeps :
      (r : Reconciler) (fs : MaintenanceJob) (w : E.World)
      → L.stored (try_leak E r fs w).1 ≡ L.stored w
  unfolding try_leak
  try_leak_keeps r fs w = leak_found_keeps r fs _ _ ∙ L.get_config_map_keeps _ w

  leak_state_keeps :
      (r : Reconciler) (fs : MaintenanceJob) (w : E.World)
      → L.stored (leak_state E r fs w).1 ≡ L.stored w
  unfolding leak_state
  leak_state_keeps r fs w = L.retry_config_map_keeps (try_leak E r fs) w (try_leak_keeps r fs)

  after_leak :
      (r : Result ConfigMap) (w : E.World) (fs : MaintenanceJob)
      → Held E k L s fs w
      → Post
          (Reached E k L s)
          (λ _ w. Reached E k L s w)
          (continue r
            (λ _.
              E.update_job
                (record fs { finalizers = E.remove_finalizer finalizer_name fs.finalizers })
              >> pure settled)
            w)
  after_leak (err e) w fs h = Held-Reached E k L s fs w h
  after_leak (ok cm) w fs h =
      rewritten E k L s (λ _ w. Reached E k L s w) fs
        (record fs { finalizers = E.remove_finalizer finalizer_name fs.finalizers }) _ w h h.1
        (λ fs' w' h'. Held-Reached E k L s fs' w' h')

  pub reconcile_delete_refines :
      (registry : List (Action E.World)) (r : Reconciler) (fs : MaintenanceJob) (w : E.World)
      → AllLeaveStatus E k L s registry
      → fs.deleting ≡ true
      → Held E k L s fs w
      → Post (Reached E k L s) (λ _ w. Reached E k L s w) (reconcile_delete E registry r fs w)
  unfolding reconcile_delete
  reconcile_delete_refines registry r fs w leaves going h =
      elim (Bool-cases (E.contains_finalizer finalizer_name fs.finalizers)) [
        | inr b ↦ rw b (Held-Reached E k L s fs w h)
        | inl b ↦
            rw b
              (elim (Bool-cases (force_release E fs && not (is_empty fs.status.active_actions))) [
                | inl forced ↦ rw forced (
                    after_leak (leak_state E r fs w).0 (leak_state E r fs w).1 fs
                      (Held-moves E k L s fs w _ h (leak_state_keeps r fs w)))
                | inr unforced ↦ rw unforced (
                    reconcile_revert_refines E k L s registry leaves r fs fs.status.current_run true
                      w (deleted fs (h.3) going) (λ e. absurd (ground arith)) h)
              ])
      ]
