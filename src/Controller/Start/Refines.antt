-- ===== src/Controller/Start/Refines.antt =====
-- The start of a run as a run of the status's state machine (maintenancejob_controller.go
-- `maybeStartRun`).
use rca_lab.Base.{◌≡◌, refl, false, [], ◌||◌, not, Option, none, some, Bool-cases, inl, inr}
use rca_lab.Types.{MaintenanceJob, MaintenanceJobStatus, ready}
use rca_lab.Cluster.Exec.{Result, Post}
use rca_lab.Cluster.Objects.{Key}
use rca_lab.Cluster.Env.{Env}
use rca_lab.Controller.Helpers.{Wanted}
use rca_lab.Controller.Status.{Outcome}
use rca_lab.Controller.Invariant.{settles, starts}
use rca_lab.Controller.Refinement.Laws.{StatusLaws}
use rca_lab.Controller.Refinement.{Reached, Held, Held-Reached, Held-moves, moved}
use rca_lab.Controller.Start.{is_idle, settle, begin, choose, maybe_start_run}

module _ (E : Env) (k : Key) (L : StatusLaws E k) (s : MaintenanceJobStatus) where
  settle_refines :
      (fs : MaintenanceJob) (w : E.World)
      → fs.status.current_run ≡ none
      → fs.status.active_actions ≡ []
      → Held E k L s fs w
      → Post (Reached E k L s) (λ _ w. Reached E k L s w) (settle E fs w)
  unfolding settle
  settle_refines fs w none_runs drained h =
      elim (Bool-cases (
        not (is_idle fs.status.phase)
        || not (E.is_status_condition_true ready fs.status.conditions))) [
          | inl b ↦ rw b (
              moved E k L s (λ _ w. Reached E k L s w) fs _ _ w h (settles fs.status fs none_runs)
                drained (λ fs' w' h'. Held-Reached E k L s fs' w' h'))
          | inr b ↦ rw b (Held-Reached E k L s fs w h)
        ]

  begin_refines :
      (fs : MaintenanceJob) (wanted : Wanted) (w : E.World)
      → fs.status.current_run ≡ none
      → fs.status.active_actions ≡ []
      → Held E k L s fs w
      → Post (Reached E k L s) (λ _ w. Reached E k L s w) (begin E fs wanted w)
  unfolding begin
  begin_refines fs wanted w none_runs drained h =
      moved E k L s (λ _ w. Reached E k L s w) fs _ _ _
        (Held-moves E k L s fs w _ h (L.now_keeps w)) (starts fs.status _ none_runs) drained
        (λ fs' w' h'.
          Held-Reached E k L s fs' _
            (Held-moves E k L s fs' w' _ h' (L.event_keeps fs' false _ _ w')))

  chosen_refines :
      (fs : MaintenanceJob) (chosen : Option Wanted) (w : E.World)
      → fs.status.current_run ≡ none
      → fs.status.active_actions ≡ []
      → Held E k L s fs w
      → Post
          (Reached E k L s)
          (λ _ w. Reached E k L s w)
          (elim chosen as (λ _. Result Outcome × E.World) [
            | none ↦ settle E fs w
            | some run ↦ begin E fs run w
          ])
  chosen_refines fs none w none_runs drained h = settle_refines fs w none_runs drained h
  chosen_refines fs (some run) w none_runs drained h = begin_refines fs run w none_runs drained h

  choose_keeps : (fs : MaintenanceJob) (w : E.World) → L.stored (choose E fs w).1 ≡ L.stored w
  unfolding choose
  choose_keeps fs w = elim (Bool-cases fs.spec.enabled) [
    | inl b ↦ rw b (L.uuid_keeps w)
    | inr b ↦ rw b refl
  ]

  pub maybe_start_run_refines :
      (fs : MaintenanceJob) (w : E.World)
      → fs.status.current_run ≡ none
      → fs.status.active_actions ≡ []
      → Held E k L s fs w
      → Post (Reached E k L s) (λ _ w. Reached E k L s w) (maybe_start_run E fs w)
  unfolding maybe_start_run
  maybe_start_run_refines fs w none_runs drained h =
      chosen_refines fs (choose E fs w).0 (choose E fs w).1 none_runs drained
        (Held-moves E k L s fs w _ h (choose_keeps fs w))
