-- ===== src/Controller/Activate/Refines.antt =====
-- The activation as a run of the status's state machine (maintenancejob_controller.go
-- `reconcileActivate`).
use rca_lab.Base.{◌≡◌, sym, ◌∙◌, Bool-cases, inl, inr, List, some}
use rca_lab.Go.Duration.{Time}
use rca_lab.Go.Json.{RawMessage}
use rca_lab.Types.{MaintenanceJob, MaintenanceJobStatus, CurrentRun, ActionSpec}
use rca_lab.Cluster.Exec.{Post}
use rca_lab.Cluster.Objects.{Key}
use rca_lab.Cluster.Env.{Env}
use rca_lab.Actions.Action.{Action, RunContext}
use rca_lab.Controller.Status.{Reconciler, run_context}
use rca_lab.Controller.Invariant.{condition, records, ensure_fails, applies, holds}
use rca_lab.Controller.Helpers.{status_mutation}
use rca_lab.Controller.Status.Keeper.{Keeper}
use rca_lab.Controller.Invariant.Alike.{run_id}
use rca_lab.Controller.Refinement.Guards.{Shown, IsOn, Activating}
use rca_lab.Controller.Refinement.Laws.{StatusLaws}
use rca_lab.Controller.Refinement.{
  Reached, Held, Held-moves, keeper_of, LeavesStatus, AllLeaveStatus,
}
use rca_lab.Controller.Activate.{Loop, record_token, reached, reconcile_activate}
use rca_lab.Controller.Activate.Walk.{Acts, reconcile_activate_keeps}

module _ (E : Env) (k : Key) (L : StatusLaws E k) (s : MaintenanceJobStatus) (run : CurrentRun)
    (fs0 : MaintenanceJob) (shown : Shown E k fs0) (its_run : fs0.status.current_run ≡ some run)
    (on : IsOn E k run) where
  -- The status is that of the run which is activated.
  abbrev Its : MaintenanceJobStatus → Type 0
  Its u = run_id u.current_run ≡ some run.id

  activating : (u : MaintenanceJobStatus) → Its u → Activating E k u
  activating u same = record {
    run = run;
    object = fs0;
    shown = shown;
    its_run = its_run;
    same = same;
    on = on;
  }

  run_keeper : Keeper E
  run_keeper = keeper_of E k L s Its (λ u t alike its. sym alike.run ∙ its)

  LeavesStatus-Acts : (impl : Action E.World) → LeavesStatus E k L s impl → Acts E run_keeper impl
  unfolding run_keeper keeper_of
  LeavesStatus-Acts impl leaves = record {
    plan = λ rc act fs w (h, its). (Held-moves E k L s fs w _ h (leaves.plan_keeps rc act w), its);
    ensure = λ rc act fs aa w found (h, its).
        (Held-moves E k L s fs w _ h (leaves.ensure_keeps rc act aa.revert w), its);
  }

  record_token-Its :
      (act : ActionSpec) (token : RawMessage) (u : MaintenanceJobStatus)
      → Its u
      → Its (record_token act token u)
  unfolding record_token
  record_token-Its act token u its = its

  reached-Its :
      (registry : List (Action E.World)) (rc : RunContext) (now : Time) (loop : Loop)
      (u : MaintenanceJobStatus)
      → Its u
      → Its (reached E registry rc run now loop u)
  reached-Its registry rc now loop u its = elim (Bool-cases loop.all_applied) [
    | inl b ↦ rw b its
    | inr b ↦ rw b its
  ]

  pub reconcile_activate_refines :
      (registry : List (Action E.World)) (r : Reconciler) (fs : MaintenanceJob) (w : E.World)
      → AllLeaveStatus E k L s registry
      → Held E k L s fs w
      → Its fs.status
      → Post (Reached E k L s) (λ _ w. Reached E k L s w) (reconcile_activate E registry r fs run w)
  unfolding run_keeper keeper_of status_mutation
  reconcile_activate_refines registry r fs1 w leaves h its =
      reconcile_activate_keeps E run_keeper registry r fs1 run w
        (λ now. record {
          condition = λ fs g message p. (condition fs.status g _ _ _ _, tt, p);
          records = λ fs act token p. (
            records fs.status act token,
            activating fs.status p,
            record_token-Its act token fs.status p,
          );
          fails =
              λ fs name message p. (ensure_fails fs.status name message, activating fs.status p, p);
          applies = λ fs name p. (applies fs.status name now, activating fs.status p, p);
          reaches = λ fs loop p. (
            holds fs.status registry (run_context r fs1 (some run)) run now loop,
            activating fs.status p,
            reached-Its registry (run_context r fs1 (some run)) now loop fs.status p,
          );
        })
        (λ t impl g. LeavesStatus-Acts impl (leaves t impl g)) (h, its)
