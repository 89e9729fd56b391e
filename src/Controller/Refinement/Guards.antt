-- ===== src/Controller/Refinement/Guards.antt =====
-- When the reconciler may make a change of the status (maintenancejob_controller.go): the machine of
-- the status's changes, each with what must hold of the status and of what the pass has read.
use rca_lab.Base.{◌≡◌, ◌||◌, not, true, false, String, List, [], ◌∷◌, none, some}
use rca_lab.Types.{MaintenanceJob, MaintenanceJobStatus, CurrentRun, ActiveAction}
use rca_lab.Cluster.Exec.{ok}
use rca_lab.Cluster.Objects.{Key}
use rca_lab.Cluster.Env.{Env}
use rca_lab.Controller.Helpers.{run_still_wanted}
use rca_lab.Controller.Revert.{is_reverting, last_of}
use rca_lab.Controller.Reconcile.{is_expired}
use rca_lab.Controller.Invariant.{
  Step, Steps, stop, step, condition, settles, starts, records, ensure_fails, applies, holds,
  reverts, revert_fails, revert_waits, drains, closes, clears, observes, stores,
}
use rca_lab.Controller.Invariant.Alike.{run_id}

-- The name is that of the last action.
abbrev pub LastName : String → List ActiveAction → Type 0
LastName name list =
    (a : ActiveAction) × (rest : List ActiveAction) × (list ≡ a ∷ rest)
    × (name ≡ (last_of a rest).name)

module _ (E : Env) (k : Key) where
  -- An object as a call of the client returned it.
  pub data Shown (fs : MaintenanceJob) : Type 0 where
    got : (w : E.World) → (E.get_job k w).0 ≡ ok fs → Shown fs
    updated : (next : MaintenanceJob) (w : E.World) → (E.update_job next w).0 ≡ ok fs → Shown fs
    patched : (next : MaintenanceJob) (w : E.World) → (E.update_status next w).0 ≡ ok fs → Shown fs

  -- By a reading of the clock and an object that was shown, the run has expired or is not wanted; or
  -- it is neither.
  pub record IsOver (run : CurrentRun) : Type 0 where
    pub world : E.World
    pub object : MaintenanceJob
    pub shown : Shown object
    pub ended : (is_expired run (E.now world).0 || not (run_still_wanted object run)) ≡ true

  pub record IsOn (run : CurrentRun) : Type 0 where
    pub world : E.World
    pub object : MaintenanceJob
    pub shown : Shown object
    pub goes_on : (is_expired run (E.now world).0 || not (run_still_wanted object run)) ≡ false

  -- The status has the run, as an object that was shown has it, and the run goes on.
  pub record Activating (s : MaintenanceJobStatus) : Type 0 where
    pub run : CurrentRun
    pub object : MaintenanceJob
    pub shown : Shown object
    pub its_run : object.status.current_run ≡ some run
    pub same : run_id s.current_run ≡ some run.id
    pub on : IsOn run

  -- Why a revert begins.
  pub data Ending (s : MaintenanceJobStatus) : Type 0 where
    no_run : s.current_run ≡ none → Ending s
    over : (run : CurrentRun) → s.current_run ≡ some run → IsOver run → Ending s
    deleted : (fs : MaintenanceJob) → Shown fs → fs.deleting ≡ true → Ending s

  -- When a change may be made. A run starts only where nothing is left to revert, an action is
  -- recorded and applied only in a run that goes on, reverts begin only where they have a reason and
  -- take the last action, and a run is closed only when it is over and nothing is left.
  abbrev pub Guard : {s t : MaintenanceJobStatus} → Step E s t → Type 0
  Guard (condition s g t b reason message) = Unit
  Guard (settles s fs e) = s.active_actions ≡ []
  Guard (starts s run e) = s.active_actions ≡ []
  Guard (records s act token) = Activating s
  Guard (ensure_fails s name message) = Activating s
  Guard (applies s name now) = Activating s
  Guard (holds s registry rc run now loop) = Activating s
  Guard (reverts s) = Ending s
  Guard (revert_fails s fs aa attempts e) = is_reverting s.phase ≡ true
  Guard (revert_waits s name) = (is_reverting s.phase ≡ true) × LastName name s.active_actions
  Guard (drains s name) = (is_reverting s.phase ≡ true) × LastName name s.active_actions
  Guard (closes s fs run entry) = (s.active_actions ≡ []) × (s.current_run ≡ some run) × IsOver run
  Guard (clears s e) = s.active_actions ≡ []
  Guard (observes s g) = Unit
  Guard (stores s t alike) = Unit

  pub data Moves : MaintenanceJobStatus → MaintenanceJobStatus → Type 0 where
    stay : (s : MaintenanceJobStatus) → Moves s s
    move : (s t u : MaintenanceJobStatus) (one : Step E s t) → Guard one → Moves t u → Moves s u

  pub Moves-append :
      {s t u : MaintenanceJobStatus} → Moves s t → (one : Step E t u) → Guard one → Moves s u
  Moves-append (stay s) one g = move _ _ _ one g (stay _)
  Moves-append (move s t u first h rest) one g = move _ _ _ first h (Moves-append rest one g)

  -- Without the guards, the moves are changes of the status.
  pub Moves-Steps : {s t : MaintenanceJobStatus} → Moves s t → Steps E s t
  Moves-Steps (stay s) = stop s
  Moves-Steps (move s t u one g rest) = step s t u one (Moves-Steps rest)
