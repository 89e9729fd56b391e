-- ===== src/Controller/Revert/Refines.antt =====
-- The revert and the end of a run as runs of the status's state machine
-- (maintenancejob_controller.go `reconcileRevert`, `finishRun`).
use rca_lab.Base.{
  ◌≡◌, refl, sym, Bool, true, false, Bool-cases, inl, inr, String, List, [], ◌∷◌, Option, none,
  some,
}
use rca_lab.Types.{
  MaintenanceJob, MaintenanceJobStatus, CurrentRun, ActiveAction, RunResult, reverted,
}
use rca_lab.Cluster.Exec.{Error, Result, ok, err, Post, Post-bind}
use rca_lab.Cluster.Objects.{Key}
use rca_lab.Cluster.Env.{Env}
use rca_lab.Actions.Action.{Action, RunContext, Progress}
use rca_lab.Controller.Status.{Reconciler, finalizer_name}
use rca_lab.Controller.Invariant.{reverts, revert_fails, revert_waits, drains, closes, clears}
use rca_lab.Controller.Refinement.Guards.{IsOver, Ending, LastName}
use rca_lab.Controller.Refinement.Laws.{StatusLaws}
use rca_lab.Controller.Refinement.{
  Reached, Held, Held-Reached, Held-moves, Became, Post-weaken, patch_lem, moved, rewritten,
  LeavesStatus, AllLeaveStatus,
}
use rca_lab.Controller.Start.{is_idle}
use rca_lab.Controller.Revert.{
  is_reverting, last_of, enter_reverting, release, finish_current, finish_leftovers, finish_run,
  revert_failed_step, revert_pending, revert_done, after_revert, revert_action, revert_with,
  revert_last_of, revert_last, mark_reverting, revert_pass, reconcile_revert,
}

module _ (E : Env) (k : Key) (L : StatusLaws E k) (s : MaintenanceJobStatus) where
  -- The pass ends with what is stored reached.
  abbrev Ends : {A : Type 0} → Result A × E.World → Type 0
  Ends = Post (Reached E k L s) (λ _ w. Reached E k L s w)

  release_refines : (fs : MaintenanceJob) (w : E.World) → Held E k L s fs w → Ends (release E fs w)
  unfolding release
  release_refines fs w h =
      rewritten E k L s (λ _ w. Reached E k L s w) fs
        (record fs { finalizers = E.remove_finalizer finalizer_name fs.finalizers }) _ w h h.1
        (λ fs' w' h'. Held-Reached E k L s fs' w' h')

  finish_current_refines :
      (fs : MaintenanceJob) (run : CurrentRun) (result : RunResult) (message : String) (w : E.World)
      → fs.status.active_actions ≡ []
      → (fs.status.current_run ≡ some run) × IsOver E k run
      → Held E k L s fs w
      → Ends (finish_current E fs run result message w)
  unfolding finish_current
  finish_current_refines fs run result message w drained over h =
      moved E k L s (λ _ w. Reached E k L s w) fs _ _ _
        (Held-moves E k L s fs w _ h (L.now_keeps w)) (closes fs.status fs run _)
        (drained, over.0, over.1)
        (λ fs' w' h'.
          Held-Reached E k L s fs' _
            (Held-moves E k L s fs' w' _ h' (L.event_keeps fs' false _ _ w')))

  finish_leftovers_refines :
      (fs : MaintenanceJob) (w : E.World)
      → fs.status.active_actions ≡ []
      → fs.status.current_run ≡ none
      → Held E k L s fs w
      → Ends (finish_leftovers E fs w)
  unfolding finish_leftovers
  finish_leftovers_refines fs w drained none_runs h = elim (Bool-cases (is_idle fs.status.phase)) [
    | inl b ↦ rw b (Held-Reached E k L s fs w h)
    | inr b ↦ rw b (
        moved E k L s (λ _ w. Reached E k L s w) fs _ _ w h (clears fs.status none_runs) drained
          (λ fs' w' h'. Held-Reached E k L s fs' w' h'))
  ]

  -- What the caller knows of the run that a revert without deletion closes.
  abbrev pub Closable : Option CurrentRun → MaintenanceJobStatus → Type 0
  Closable none u = u.current_run ≡ none
  Closable (some run) u = (u.current_run ≡ some run) × IsOver E k run

  finish_run_refines :
      (fs : MaintenanceJob) (run : Option CurrentRun) (deleting : Bool) (result : RunResult)
      (message : String) (w : E.World)
      → fs.status.active_actions ≡ []
      → (deleting ≡ false → Closable run fs.status)
      → Held E k L s fs w
      → Ends (finish_run E fs run deleting result message w)
  unfolding finish_run
  finish_run_refines fs run true result message w drained closable h = release_refines fs w h
  finish_run_refines fs none false result message w drained closable h =
      finish_leftovers_refines fs w drained (closable refl) h
  finish_run_refines fs (some run) false result message w drained closable h =
      finish_current_refines fs run result message w drained (closable refl) h

  module _ (fs : MaintenanceJob) (aa : ActiveAction)
      (reverting : is_reverting fs.status.phase ≡ true)
      (last : LastName aa.name fs.status.active_actions) where
    revert_failed_refines :
        (e : Error) (w : E.World) → Held E k L s fs w → Ends (revert_failed_step E fs aa e w)
    unfolding revert_failed_step
    revert_failed_refines e w h =
        moved E k L s (λ _ w. Reached E k L s w) fs _ _ _
          (Held-moves E k L s fs w _ h (L.event_keeps fs true _ _ w))
          (revert_fails fs.status fs aa _ e) reverting (λ fs' w' h'. Held-Reached E k L s fs' w' h')

    revert_pending_refines :
        (p : Progress) (w : E.World) → Held E k L s fs w → Ends (revert_pending E fs aa p w)
    unfolding revert_pending
    revert_pending_refines p w h =
        moved E k L s (λ _ w. Reached E k L s w) fs _ _ w h (revert_waits fs.status aa.name)
          (reverting, last) (λ fs' w' h'. Held-Reached E k L s fs' w' h')

    revert_done_refines : (w : E.World) → Held E k L s fs w → Ends (revert_done E fs aa w)
    unfolding revert_done
    revert_done_refines w h =
        moved E k L s (λ _ w. Reached E k L s w) fs _ _ w h (drains fs.status aa.name)
          (reverting, last) (λ fs' w' h'. Held-Reached E k L s fs' w' h')

    after_revert_refines :
        (r : Result Progress) (w : E.World) → Held E k L s fs w → Ends (after_revert E fs aa r w)
    unfolding after_revert
    after_revert_refines (err e) w h = revert_failed_refines e w h
    after_revert_refines (ok p) w h = elim (Bool-cases p.done) [
      | inl b ↦ rw b (revert_done_refines w h)
      | inr b ↦ rw b (revert_pending_refines p w h)
    ]

    revert_with_refines :
        (found : Option (Action E.World)) (rc : RunContext) (w : E.World)
        → ((impl : Action E.World) → found ≡ some impl → LeavesStatus E k L s impl)
        → Held E k L s fs w
        → Ends (revert_with E found rc fs aa w)
    unfolding revert_with revert_action
    revert_with_refines none rc w leaves h = Held-Reached E k L s fs w h
    revert_with_refines (some impl) rc w leaves h =
        after_revert_refines _ _ (
          Held-moves E k L s fs w _ h (LeavesStatus.revert_keeps (leaves impl refl) rc aa.revert w))

  module _ (registry : List (Action E.World)) (leaves : AllLeaveStatus E k L s registry) where
    revert_last_of_refines :
        (rc : RunContext) (fs : MaintenanceJob) (left : List ActiveAction) (w : E.World)
        → fs.status.active_actions ≡ left
        → is_reverting fs.status.phase ≡ true
        → Held E k L s fs w
        → Ends (revert_last_of E registry rc fs left w)
    unfolding revert_last_of
    revert_last_of_refines rc fs [] w e reverting h = Held-Reached E k L s fs w h
    revert_last_of_refines rc fs (a ∷ rest) w e reverting h =
        revert_with_refines fs (last_of a rest) reverting (a, rest, e, refl) _ rc w (leaves _) h

    -- The object comes back marked as reverting.
    mark_reverting_refines :
        (fs : MaintenanceJob) (w : E.World)
        → Ending E k fs.status
        → Held E k L s fs w
        → Post
            (Reached E k L s)
            (λ fs' w'. Held E k L s fs' w' × (is_reverting fs'.status.phase ≡ true))
            (mark_reverting E fs w)
    unfolding mark_reverting
    mark_reverting_refines fs w ending h = elim (Bool-cases (is_reverting fs.status.phase)) [
      | inl b ↦ rw b (h, b)
      | inr b ↦ rw b (
          Post-weaken E k L s (Became E k L s (enter_reverting fs.status)) _ _
            (patch_lem E k L s fs enter_reverting w h (reverts fs.status) ending)
            (λ fs' w' (h', alike). (h', rw (sym alike.phase) refl)))
    ]

    pass_refines :
        (r : Reconciler) (fs : MaintenanceJob) (run : Option CurrentRun) (deleting : Bool)
        (left : List ActiveAction) (w : E.World)
        → fs.status.active_actions ≡ left
        → Ending E k fs.status
        → (deleting ≡ false → Closable run fs.status)
        → Held E k L s fs w
        → Ends (revert_pass E registry r fs run deleting left w)
    unfolding revert_pass revert_last
    pass_refines r fs run deleting [] w e ending closable h =
        finish_run_refines fs run deleting reverted "" w e closable h
    pass_refines r fs run deleting (_ ∷ _) w e ending closable h =
        Post-bind (Reached E k L s)
          (λ fs' w'. Held E k L s fs' w' × (is_reverting fs'.status.phase ≡ true))
          (λ _ w. Reached E k L s w) (mark_reverting E fs) _ w
          (mark_reverting_refines fs w ending h)
          (λ fs' w' (h', reverting).
            revert_last_of_refines _ fs' fs'.status.active_actions w' refl reverting h')

    pub reconcile_revert_refines :
        (r : Reconciler) (fs : MaintenanceJob) (run : Option CurrentRun) (deleting : Bool)
        (w : E.World)
        → Ending E k fs.status
        → (deleting ≡ false → Closable run fs.status)
        → Held E k L s fs w
        → Ends (reconcile_revert E registry r fs run deleting w)
    unfolding reconcile_revert
    reconcile_revert_refines r fs run deleting w ending closable h =
        pass_refines r fs run deleting fs.status.active_actions w refl ending closable h
