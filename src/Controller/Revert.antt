-- ===== src/Controller/Revert.antt =====
-- `reconcileRevert` and `finishRun` (maintenancejob_controller.go).
pub mod Tokens
pub mod Refines
pub mod Entries
pub mod Answers
pub mod Drains
use rca_lab.Base.{
  Bool, true, false, ◌&&◌, ◌||◌, not, String, ◌<>◌, List, [], ◌∷◌, ◌++◌, Option, none, some,
  if◌then◌else◌,
}
use rca_lab.Base.Int.{ℤ, pos, leb_ℤ}
use rca_lab.Base.Text.{quote, show_ℤ}
use rca_lab.Go.Duration.{Time, seconds, before}
use rca_lab.Types.{
  Phase, idle, reverting, degraded, ready, revert_failed, ActionPhase, RunResult, completed,
  reverted, failed, MaintenanceJob, MaintenanceJobStatus, CurrentRun, ActiveAction, RunHistoryEntry,
}
use rca_lab.Cluster.Exec.{Error, Exec, Result, ok, err, pure, fail, errorf, observe, ◌>>=◌, ◌>>◌}
use rca_lab.Cluster.Env.{Env}
use rca_lab.Actions.Action.{Action, RunContext, Progress}
use rca_lab.Actions.Registry.{get}
use rca_lab.Controller.Helpers.{
  update_active, remove_active, append_history, backoff_for, set_condition, one_more,
  degraded_after_failures, type_text,
}
use rca_lab.Controller.Status.{
  Reconciler, Outcome, settled, at_once, later, run_context, patch_status, emit, finalizer_name,
}
use rca_lab.Controller.Start.{is_idle}
use rca_lab.Controller.Activate.{slower}

abbrev pub is_reverting : Phase → Bool
is_reverting reverting = true
is_reverting degraded = true
is_reverting _ = false

-- The last element of a list that is not empty.
abbrev pub last_of : ActiveAction → List ActiveAction → ActiveAction
last_of a [] = a
last_of a (b ∷ rest) = last_of b rest

abbrev pub enter_reverting : MaintenanceJobStatus → MaintenanceJobStatus
enter_reverting s = record s { phase = reverting }

abbrev pub attempt_failed : ℤ → String → ActiveAction → ActiveAction
attempt_failed attempts message a = record a {
  phase = ActionPhase.reverting;
  attempts = attempts;
  last_error = message;
}

abbrev pub still_reverting : ActiveAction → ActiveAction
still_reverting a = record a { phase = ActionPhase.reverting; last_error = "" }

-- A run that is over is Completed where its time had come, and else has the result it was given.
abbrev pub run_result : CurrentRun → Time → RunResult → RunResult
run_result run now result = elim run.expires_at [
  | none ↦ result
  | some t ↦ if before now t then result else completed
]

abbrev pub history_entry : CurrentRun → Time → RunResult → String → RunHistoryEntry
history_entry run now result message = record {
  id = run.id;
  trigger = run.trigger;
  started_at = run.started_at;
  ended_at = some now;
  result = run_result run now result;
  message = message;
}

abbrev result_text : RunResult → String
result_text completed = "Completed"
result_text reverted = "Reverted"
result_text failed = "Failed"

module _ (E : Env) where
  open E use {World, now, update_job, remove_finalizer, remove_status_condition}

  unfoldable pub revert_error :
      MaintenanceJob → ActiveAction → ℤ → Error → MaintenanceJobStatus → MaintenanceJobStatus
  revert_error fs aa attempts e s =
      let s' = record s {
        active_actions = update_active aa.name (attempt_failed attempts e.message) s.active_actions;
      } in
      if leb_ℤ degraded_after_failures attempts
      then set_condition E fs.generation revert_failed true "RevertFailing"
          ("action "
            <> (aa.name
                <> (" failed to revert " <> (show_ℤ attempts <> (" times: " <> e.message)))))
          (record s' { phase = degraded })
      else s'

  -- The books of a run: history, last id, no current run, idle, and the conditions.
  unfoldable pub close_run :
      MaintenanceJob → CurrentRun → RunHistoryEntry → MaintenanceJobStatus → MaintenanceJobStatus
  close_run fs run entry s =
      set_condition E fs.generation ready true "Idle" "scenario is idle" (record s {
        history = append_history s.history entry;
        last_completed_run_id = run.id;
        current_run = none;
        phase = idle;
        conditions = remove_status_condition revert_failed s.conditions;
      })

  abbrev pub close_leftovers : MaintenanceJobStatus → MaintenanceJobStatus
  close_leftovers s = record s {
    phase = idle;
    conditions = remove_status_condition revert_failed s.conditions;
  }

  release : MaintenanceJob → Exec World Outcome
  release fs = do
    update_job (record fs { finalizers = remove_finalizer finalizer_name fs.finalizers })
    pure settled

  finish_current : MaintenanceJob → CurrentRun → RunResult → String → Exec World Outcome
  finish_current fs run result message w =
      let (t, w') = now w in
      let entry = history_entry run t result message in
      (do
        fs' ← patch_status E fs (close_run fs run entry)
        emit E fs' false "RunFinished"
            ("run " <> (run.id <> (" finished: " <> result_text (run_result run t result))))
        pure at_once)
        w'

  finish_leftovers : MaintenanceJob → Exec World Outcome
  finish_leftovers fs =
      if is_idle fs.status.phase
      then pure at_once
      else (patch_status E fs close_leftovers >> pure at_once)

  unfoldable pub finish_run :
      MaintenanceJob → Option CurrentRun → Bool → RunResult → String → Exec World Outcome
  unfolding release finish_current finish_leftovers
  finish_run fs run deleting result message =
      if deleting
      then release fs
      else elim run [ none ↦ finish_leftovers fs | some cr ↦ finish_current fs cr result message ]

  -- The three ends of a revert step of the last action.
  revert_failed_step : MaintenanceJob → ActiveAction → Error → Exec World Outcome
  revert_failed_step fs aa e =
      let attempts = one_more aa.attempts in
      do
        emit E fs true "RevertFailed" ("action " <> (aa.name <> (": " <> e.message)))
        patch_status E fs (revert_error fs aa attempts e)
        pure (later (backoff_for attempts))

  revert_pending : MaintenanceJob → ActiveAction → Progress → Exec World Outcome
  revert_pending fs aa p = do
    patch_status E fs
        (λ s. record s { active_actions = update_active aa.name still_reverting s.active_actions })
    pure (later (slower p.requeue_after (seconds 2)))

  abbrev pub drained : String → MaintenanceJobStatus → MaintenanceJobStatus
  drained name s = record s { active_actions = remove_active name s.active_actions }

  revert_done : MaintenanceJob → ActiveAction → Exec World Outcome
  revert_done fs aa = do patch_status E fs (drained aa.name); pure at_once

  after_revert : MaintenanceJob → ActiveAction → Result Progress → Exec World Outcome
  unfolding revert_failed_step revert_pending revert_done
  after_revert fs aa (err e) = revert_failed_step fs aa e
  after_revert fs aa (ok p) = if p.done then revert_done fs aa else revert_pending fs aa p

  -- The revert of one action, and what becomes of its record.
  unfoldable pub revert_action :
      Action World → RunContext → MaintenanceJob → ActiveAction → Exec World Outcome
  unfolding after_revert
  revert_action impl rc fs aa = observe (impl.revert rc aa.revert) (after_revert fs aa)

  revert_with :
      Option (Action World) → RunContext → MaintenanceJob → ActiveAction → Exec World Outcome
  revert_with none rc fs aa =
      fail (errorf ("unknown action type " <> (quote (type_text aa.type) <> " in active state")))
  revert_with (some impl) rc fs aa = revert_action impl rc fs aa

  -- The last action, read from the refreshed object.
  revert_last_of :
      List (Action World) → RunContext → MaintenanceJob → List ActiveAction → Exec World Outcome
  unfolding revert_with
  revert_last_of registry rc fs [] = fail (errorf "panic: index out of range")
  revert_last_of registry rc fs (a ∷ rest) =
      let aa = last_of a rest in revert_with (get aa.type registry) rc fs aa

  revert_last :
      List (Action World) → Reconciler → MaintenanceJob → Option CurrentRun → Exec World Outcome
  unfolding revert_last_of
  revert_last registry r fs run =
      revert_last_of registry (run_context r fs run) fs fs.status.active_actions

  mark_reverting : MaintenanceJob → Exec World MaintenanceJob
  mark_reverting fs =
      if is_reverting fs.status.phase then pure fs else patch_status E fs enter_reverting

  -- The pass, by the actions that are left.
  revert_pass :
      List (Action World)
      → Reconciler
      → MaintenanceJob
      → Option CurrentRun
      → Bool
      → List ActiveAction
      → Exec World Outcome
  unfolding revert_last mark_reverting
  revert_pass registry r fs run deleting [] = finish_run fs run deleting reverted ""
  revert_pass registry r fs run deleting (_ ∷ _) = do
    fs' ← mark_reverting fs
    revert_last registry r fs' run

  unfoldable pub reconcile_revert :
      List (Action World)
      → Reconciler
      → MaintenanceJob
      → Option CurrentRun
      → Bool
      → Exec World Outcome
  unfolding revert_pass
  reconcile_revert registry r fs run deleting =
      revert_pass registry r fs run deleting fs.status.active_actions
