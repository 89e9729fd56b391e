-- ===== src/Controller/Activate.antt =====
-- `reconcileActivate` (maintenancejob_controller.go): plan, persist the token, then mutate.
pub mod Walk
pub mod WriteAhead
pub mod Refines
use rca_lab.Base.{
  ℕ, zero, suc, Bool, true, false, ◌&&◌, ◌||◌, not, String, ◌<>◌, List, [], ◌∷◌, ◌++◌, Option, none,
  some, is_some, length, ◌==◌, if◌then◌else◌,
}
use rca_lab.Base.Int.{pos, ltb_ℤ, leb_ℤ}
use rca_lab.Base.Text.{quote}
use rca_lab.Go.Duration.{Duration, Time, seconds, second, after, sub, before}
use rca_lab.Go.Json.{RawMessage}
use rca_lab.Types.{
  Phase, idle, activating, active, ready, ActionPhase, recorded, applied, ActionSpec,
  MaintenanceJob, MaintenanceJobStatus, CurrentRun, ActiveAction,
}
use rca_lab.Cluster.Exec.{Error, Exec, Result, ok, err, pure, fail, errorf, observe, ◌>>=◌, ◌>>◌}
use rca_lab.Cluster.Env.{Env}
use rca_lab.Actions.Action.{Action, RunContext, Progress}
use rca_lab.Actions.Registry.{get}
use rca_lab.Controller.Helpers.{
  find_active_action, status_mutation, lower_requeue, backoff_for, set_condition, one_more,
  steady_state_resync, type_text,
}
use rca_lab.Controller.Status.{Reconciler, Outcome, later, run_context, patch_status, emit}

-- The variables of the loop: `fs`, `requeueAfter` and `allApplied`.
pub record Loop : Type 0 where
  pub fs : MaintenanceJob
  pub requeue_after : Duration
  pub all_applied : Bool

abbrev pub is_applied : ActionPhase → Bool
is_applied applied = true
is_applied _ = false

abbrev pub same_phase : Phase → Phase → Bool
same_phase activating activating = true
same_phase active active = true
same_phase _ _ = false

abbrev pub get_elem? : List ActionSpec → ℕ → Option ActionSpec
get_elem? [] i = none
get_elem? (a ∷ rest) zero = some a
get_elem? (a ∷ rest) (suc i) = get_elem? rest i

-- The record of an action whose token was just planned.
abbrev pub new_record : ActionSpec → RawMessage → ActiveAction
new_record act token = record {
  name = act.name;
  type = act.type;
  phase = recorded;
  applied_at = none;
  attempts = pos 0;
  last_error = "";
  revert = token;
}

-- Appends the record unless one of that name is there.
unfoldable pub record_token : ActionSpec → RawMessage → MaintenanceJobStatus → MaintenanceJobStatus
record_token act token s = record s {
  active_actions =
      if is_some (find_active_action s.active_actions act.name)
      then s.active_actions
      else s.active_actions ++ new_record act token ∷ [];
  phase = activating;
}

abbrev pub failed_once : String → ActiveAction → ActiveAction
failed_once message a = record a { attempts = one_more a.attempts; last_error = message }

abbrev pub mark_applied : Time → ActiveAction → ActiveAction
mark_applied now a = record a {
  phase = applied;
  applied_at = if is_applied a.phase then a.applied_at else some now;
  attempts = pos 0;
  last_error = "";
}

abbrev pub activate_at : CurrentRun → ActionSpec → Time
activate_at run act = elim act.delay [ none ↦ run.started_at | some d ↦ after run.started_at d ]

abbrev pub slower : Duration → Duration → Duration
slower ra default = if leb_ℤ ra (pos 0) then default else ra

module _ (E : Env) (registry : List (Action E.World)) (rc : RunContext) (run : CurrentRun)
    (now : Time) where
  open E use {World}

  plan_failed : ActionSpec → Error → Loop → Exec World Loop
  plan_failed act e s = do
    emit E s.fs true "PlanFailed" ("action " <> (act.name <> (": " <> e.message)))
    fs' ← patch_status E s.fs (
        set_condition E s.fs.generation ready false "PlanFailed"
          ("action " <> (act.name <> (": " <> e.message))))
    pure (record s { fs = fs'; requeue_after = lower_requeue s.requeue_after (seconds 10) })

  ensure_failed : ActionSpec → ActiveAction → Error → Loop → Exec World Loop
  ensure_failed act aa e s = do
    fs' ← patch_status E s.fs (status_mutation act.name (failed_once e.message))
    pure (record s {
      fs = fs';
      requeue_after = lower_requeue s.requeue_after (backoff_for (one_more aa.attempts));
      all_applied = s.all_applied && is_applied aa.phase;
    })

  ensured : ActionSpec → ActiveAction → Progress → Loop → Exec World Loop
  ensured act aa p s =
      if p.done
      then if not (is_applied aa.phase) || not (aa.last_error == "")
        then (do
          fs' ← patch_status E s.fs (status_mutation act.name (mark_applied now))
          pure (record s { fs = fs' }))
        else pure s
      else pure (record s {
        all_applied = false;
        requeue_after = lower_requeue s.requeue_after (slower p.requeue_after (seconds 5));
      })

  after_ensure : ActionSpec → ActiveAction → Loop → Result Progress → Exec World Loop
  unfolding ensure_failed ensured
  after_ensure act aa s (err e) = ensure_failed act aa e s
  after_ensure act aa s (ok p) = ensured act aa p s

  -- Step 3, driven by the persisted token. The index -1 would panic.
  ensure_found : Action World → ActionSpec → Loop → Option ActiveAction → Exec World Loop
  unfolding after_ensure
  ensure_found impl act s none = fail (errorf "panic: index out of range")
  ensure_found impl act s (some aa) = observe (impl.ensure rc act aa.revert) (after_ensure act aa s)

  ensure_recorded : Action World → ActionSpec → Loop → Exec World Loop
  unfolding ensure_found
  ensure_recorded impl act s =
      ensure_found impl act s (find_active_action s.fs.status.active_actions act.name)

  after_plan : Action World → ActionSpec → Loop → Result RawMessage → Exec World Loop
  unfolding plan_failed ensure_recorded
  after_plan impl act s (err e) = plan_failed act e s
  after_plan impl act s (ok token) = do
    fs' ← patch_status E s.fs (record_token act token)
    ensure_recorded impl act (record s { fs = fs' })

  -- Steps 1 and 2, for an action with no record.
  record_then_ensure : Action World → ActionSpec → Loop → Exec World Loop
  unfolding after_plan
  record_then_ensure impl act s =
      if before now (activate_at run act)
      then pure (record s {
        requeue_after = lower_requeue s.requeue_after (sub (activate_at run act) now);
      })
      else observe (impl.plan rc act) (after_plan impl act s)

  activate_with : Option (Action World) → ActionSpec → Loop → Exec World Loop
  unfolding record_then_ensure
  activate_with none act s = fail (errorf ("unknown action type " <> quote (type_text act.type)))
  activate_with (some impl) act s =
      if is_some (find_active_action s.fs.status.active_actions act.name)
      then ensure_recorded impl act s
      else record_then_ensure impl act (record s { all_applied = false })

  -- One round of the loop.
  unfoldable pub activate_one : ActionSpec → Loop → Exec World Loop
  unfolding activate_with
  activate_one act s = activate_with (get act.type registry) act s

  -- The loop over the indices: the count is that of the actions at its start, and each round reads
  -- the action from the object that the rounds before refreshed.
  activate_at_index : Option ActionSpec → Loop → Exec World Loop
  activate_at_index none s = fail (errorf "panic: index out of range")
  activate_at_index (some act) s = activate_one act s

  unfoldable pub activate_all : ℕ → ℕ → Loop → Exec World Loop
  unfolding activate_at_index
  activate_all zero i s = pure s
  activate_all (suc n) i s = do
    s' ← activate_at_index (get_elem? s.fs.spec.actions i) s
    activate_all n (suc i) s'

  abbrev goal_phase : Loop → Phase
  goal_phase s = if s.all_applied then active else activating

  abbrev pub reached : Loop → MaintenanceJobStatus → MaintenanceJobStatus
  reached s st =
      let st' = record st { phase = goal_phase s } in
      if s.all_applied
      then set_condition E s.fs.generation ready true "Active" "all actions applied" st'
      else st'

  announce : MaintenanceJob → Loop → Exec World MaintenanceJob
  announce fs s =
      if s.all_applied && same_phase fs.status.phase active
      then (emit E fs false "Active" ("run " <> (run.id <> ": all actions applied")) >> pure fs)
      else pure fs

  settle_phase : Loop → Exec World MaintenanceJob
  unfolding announce
  settle_phase s =
      if not (same_phase s.fs.status.phase (goal_phase s))
        || not (E.is_status_condition_true ready s.fs.status.conditions)
      then (do fs' ← patch_status E s.fs (reached s); announce fs' s)
      else pure s.fs

  -- Wakes up at the expiry, at the earliest in a second.
  wake_up : Duration → Exec World Outcome
  wake_up d w = elim run.expires_at [
    | none ↦ (ok (later d), w)
    | some t ↦
        let (now', w') = E.now w in
        let until = sub t now' in
        (ok (later (lower_requeue d (if ltb_ℤ until second then second else until))), w')
  ]

  unfoldable pub finish_activation : Loop → Exec World Outcome
  unfolding settle_phase wake_up
  finish_activation s = do
    settle_phase s
    wake_up (lower_requeue s.requeue_after steady_state_resync)

unfoldable pub reconcile_activate :
    (E : Env)
    → List (Action E.World)
    → Reconciler
    → MaintenanceJob
    → CurrentRun
    → Exec E.World Outcome
reconcile_activate E registry r fs run w =
    let (now, w') = E.now w in
    let rc = run_context r fs (some run) in
    (do
      s ←
          activate_all E registry rc run now (length fs.spec.actions) 0
            (record { fs = fs; requeue_after = pos 0; all_applied = true })
      finish_activation E registry rc run now s)
      w'
