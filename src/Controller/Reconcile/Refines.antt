-- ===== src/Controller/Reconcile/Refines.antt =====
-- A whole pass of the reconciler as a run of the status's state machine
-- (maintenancejob_controller.go `Reconcile`).
use rca_lab.Base.{
  ◌≡◌, refl, sym, ap, ◌∙◌, arith, Bool, true, false, ◌&&◌, ◌||◌, not, [], ◌∷◌, Bool-cases, inl, inr,
  List, is_empty, Option, none, some, if◌then◌else◌,
}
use rca_lab.Types.{MaintenanceJob, MaintenanceJobStatus, CurrentRun, ActiveAction}
use rca_lab.Cluster.Exec.{
  Error, Exec, Result, ok, err, pure, fail, is_not_found, Post, Post-bind, ◌>>=◌,
}
use rca_lab.Cluster.Objects.{Key}
use rca_lab.Cluster.Env.{Env}
use rca_lab.Cluster.Retry.{holds}
use rca_lab.Actions.Action.{Action}
use rca_lab.Controller.Helpers.{validate_spec, run_still_wanted}
use rca_lab.Controller.Status.{Reconciler, Outcome, settled, finalizer_name}
use rca_lab.Controller.Start.Refines.{maybe_start_run_refines}
use rca_lab.Controller.Activate.Refines.{reconcile_activate_refines}
use rca_lab.Controller.Revert.Refines.{reconcile_revert_refines}
use rca_lab.Controller.Delete.Refines.{reconcile_delete_refines}
use rca_lab.Controller.Invariant.{condition, IsWellFormed, IsWellFormed-Steps}
use rca_lab.Controller.Invariant.Alike.{run_id}
use rca_lab.Controller.Refinement.Guards.{IsOver, got, no_run, over, Moves, stay, Moves-Steps}
use rca_lab.Controller.Refinement.Laws.{StatusLaws}
use rca_lab.Controller.Refinement.{
  Reached, Held, Held-Reached, Held-moves, moved, update_job_lem, AllLeaveStatus,
}
use rca_lab.Controller.Activate.{reconcile_activate}
use rca_lab.Controller.Revert.{reconcile_revert}
use rca_lab.Controller.Delete.{reconcile_delete}
use rca_lab.Controller.Reconcile.{
  is_enabled_run, is_expired, add_missing_finalizer, reject, reconcile_idle, disable_expired,
  reconcile_run, reconcile_valid, reconcile_job, reconcile,
}

module _ (E : Env) (k : Key) (L : StatusLaws E k) (s : MaintenanceJobStatus)
    (registry : List (Action E.World)) (leaves : AllLeaveStatus E k L s registry)
    (r : Reconciler) where
  abbrev Ends : {A : Type 0} → Result A × E.World → Type 0
  Ends = Post (Reached E k L s) (λ _ w. Reached E k L s w)

  reject_refines :
      (fs : MaintenanceJob) (e : Error) (w : E.World)
      → Held E k L s fs w
      → Ends (reject E registry r fs e w)
  unfolding reject
  reject_refines fs e w h =
      moved E k L s (λ _ w. Reached E k L s w) fs _ _ w h (condition fs.status _ _ _ _ _) tt
        (λ fs' w' h'. Held-Reached E k L s fs' w' h')

  none_left : (list : List ActiveAction) → is_empty list ≡ true → list ≡ []
  none_left [] h = refl
  none_left (a ∷ rest) h = absurd (ground arith)

  reconcile_idle_refines :
      (fs : MaintenanceJob) (w : E.World)
      → fs.status.current_run ≡ none
      → Held E k L s fs w
      → Ends (reconcile_idle E registry r fs w)
  unfolding reconcile_idle
  reconcile_idle_refines fs w none_runs h = elim (Bool-cases (is_empty fs.status.active_actions)) [
    | inl b ↦ rw b (maybe_start_run_refines E k L s fs w none_runs (none_left _ b) h)
    | inr b ↦ rw b (
        reconcile_revert_refines E k L s registry leaves r fs none false w (no_run none_runs)
          (λ _. none_runs) h)
  ]

  disable_expired_refines :
      (fs : MaintenanceJob) (run : CurrentRun) (expired : Bool) (w : E.World)
      → Held E k L s fs w
      → Post
          (Reached E k L s)
          (λ fs' w'. Held E k L s fs' w' × (fs.status ≡ fs'.status))
          (disable_expired E registry r fs run expired w)
  unfolding disable_expired
  disable_expired_refines fs run expired w h =
      elim (Bool-cases (expired && (is_enabled_run run && fs.spec.enabled))) [
        | inl b ↦ rw b (
            update_job_lem E k L s fs (record fs { spec = record fs.spec { enabled = false } }) w h
              h.1)
        | inr b ↦ rw b (h, refl)
      ]

  -- A run that has expired or is not wanted, by this reading of the clock, is reverted, another one
  -- activated.
  choose_refines :
      (fs : MaintenanceJob) (run : CurrentRun) (over : Bool) (v w : E.World)
      → (is_expired run (E.now v).0 || not (run_still_wanted fs run)) ≡ over
      → fs.status.current_run ≡ some run
      → Held E k L s fs w
      → Ends (
          (if over
              then reconcile_revert E registry r fs (some run) false
              else reconcile_activate E registry r fs run)
            w)
  choose_refines fs run true v w decided its h =
      let ended : IsOver E k run = record {
        world = v;
        object = fs;
        shown = h.3;
        ended = decided;
      } in
      reconcile_revert_refines E k L s registry leaves r fs (some run) false w (over run its ended)
        (λ _. (its, ended)) h
  choose_refines fs run false v w decided its h =
      reconcile_activate_refines E k L s run fs (h.3) its
        (record { world = v; object = fs; shown = h.3; goes_on = decided }) registry r fs w leaves h
        (ap run_id its)

  reconcile_run_refines :
      (fs : MaintenanceJob) (run : CurrentRun) (w : E.World)
      → fs.status.current_run ≡ some run
      → Held E k L s fs w
      → Ends (reconcile_run E registry r fs run w)
  unfolding reconcile_run
  reconcile_run_refines fs run w its h =
      Post-bind (Reached E k L s) (λ fs' w'. Held E k L s fs' w' × (fs.status ≡ fs'.status))
        (λ _ w. Reached E k L s w)
        (disable_expired E registry r fs run (is_expired run (E.now w).0)) _ (E.now w).1
        (disable_expired_refines fs run _ _ (Held-moves E k L s fs w _ h (L.now_keeps w)))
        (λ fs' w' (h', same).
          choose_refines fs' run _ w w' refl
            (ap (λ t. MaintenanceJobStatus.current_run t) (sym same) ∙ its) h')

  by_run :
      (fs : MaintenanceJob) (run : Option CurrentRun) (w : E.World)
      → fs.status.current_run ≡ run
      → Held E k L s fs w
      → Ends (
          (elim run as (λ _. Exec E.World Outcome) [
            | none ↦ reconcile_idle E registry r fs
            | some run ↦ reconcile_run E registry r fs run
          ])
            w)
  by_run fs none w e h = reconcile_idle_refines fs w e h
  by_run fs (some run) w e h = reconcile_run_refines fs run w e h

  reconcile_valid_refines :
      (fs : MaintenanceJob) (w : E.World)
      → Held E k L s fs w
      → Ends (reconcile_valid E registry r fs w)
  unfolding reconcile_valid
  reconcile_valid_refines fs w h = by_run fs fs.status.current_run w refl h

  after_finalizer :
      (fs : MaintenanceJob) (w : E.World) (v : Result (Unit {0}))
      → Held E k L s fs w
      → Ends (
          (elim v as (λ _. Exec E.World Outcome) [
            | err e ↦ reject E registry r fs e
            | ok _ ↦ reconcile_valid E registry r fs
          ])
            w)
  after_finalizer fs w (err e) h = reject_refines fs e w h
  after_finalizer fs w (ok _) h = reconcile_valid_refines fs w h

  add_finalizer_refines :
      (fs : MaintenanceJob) (w : E.World)
      → Held E k L s fs w
      → Post
          (Reached E k L s)
          (λ fs' w'. Held E k L s fs' w' × (fs.status ≡ fs'.status))
          (add_missing_finalizer E registry r fs w)
  unfolding add_missing_finalizer
  add_finalizer_refines fs w h =
      elim (Bool-cases (E.contains_finalizer finalizer_name fs.finalizers)) [
        | inl b ↦ rw b (h, refl)
        | inr b ↦ rw b (
            update_job_lem E k L s fs
              (record fs { finalizers = E.add_finalizer finalizer_name fs.finalizers }) w h h.1)
      ]

  live_refines :
      (fs : MaintenanceJob) (w : E.World)
      → Held E k L s fs w
      → Ends (
          (add_missing_finalizer E registry r fs >>= λ fs'.
          elim (validate_spec registry fs'.spec) as (λ _. Exec E.World Outcome) [
            | err e ↦ reject E registry r fs' e
            | ok _ ↦ reconcile_valid E registry r fs'
          ])
            w)
  live_refines fs w h =
      Post-bind (Reached E k L s) (λ fs' w'. Held E k L s fs' w' × (fs.status ≡ fs'.status))
        (λ _ w. Reached E k L s w) (add_missing_finalizer E registry r fs) _ w
        (add_finalizer_refines fs w h)
        (λ fs' w' (h', same). after_finalizer fs' w' (validate_spec registry fs'.spec) h')

  by_deletion :
      (deleting : Bool) (fs : MaintenanceJob) (w : E.World)
      → fs.deleting ≡ deleting
      → Held E k L s fs w
      → Ends (
          (if deleting
              then reconcile_delete E registry r fs
              else (add_missing_finalizer E registry r fs >>= λ fs'.
                  elim (validate_spec registry fs'.spec) as (λ _. Exec E.World Outcome) [
                    | err e ↦ reject E registry r fs' e
                    | ok _ ↦ reconcile_valid E registry r fs'
                  ]))
            w)
  by_deletion true fs w e h = reconcile_delete_refines E k L s registry r fs w leaves e h
  by_deletion false fs w e h = live_refines fs w h

  reconcile_job_refines :
      (fs : MaintenanceJob) (w : E.World)
      → Held E k L s fs w
      → Ends (reconcile_job E registry r fs w)
  unfolding reconcile_job
  reconcile_job_refines fs w h = by_deletion fs.deleting fs w refl h

  after_get :
      (found : Result MaintenanceJob) (w : E.World)
      → ((fs : MaintenanceJob) → found ≡ ok fs → Held E k L s fs w)
      → Reached E k L s w
      → Ends (
          (elim found as (λ _. Exec E.World Outcome) [
            | err e ↦ if is_not_found e then pure settled else fail e
            | ok fs ↦ reconcile_job E registry r fs
          ])
            w)
  after_get (ok fs) w held reached = reconcile_job_refines fs w (held fs refl)
  after_get (err e) w held reached = elim (Bool-cases (is_not_found e)) [
    | inl b ↦ rw b reached
    | inr b ↦ rw b reached
  ]

  same_status : (t : MaintenanceJobStatus) → some s ≡ some t → s ≡ t
  same_status t e = ground arith

  here :
      (w : E.World) (t : MaintenanceJobStatus)
      → L.stored w ≡ some s
      → L.stored w ≡ some t
      → Moves E k s t
  here w t there e = rw (same_status t (sym there ∙ e)) (stay t)

  pub reconcile_refines :
      (w : E.World)
      → L.stored w ≡ some s
      → (t : MaintenanceJobStatus) → L.stored (reconcile E registry r k w).1 ≡ some t
      → Moves E k s t
  unfolding reconcile
  reconcile_refines w there = holds (Reached E k L s) _ (
      after_get (E.get_job k w).0 (E.get_job k w).1
        (λ fs h.
          let (read, same) = L.get_reads fs w h in
          (λ t e. ground (arith, L.get_keeps w, there), same, here w fs.status there read, got w h))
        (λ t e. here w t there (sym (L.get_keeps w) ∙ e)))

  -- While the reconciler is the only one to write the status and its reads are up to date, and the
  -- actions do not write it, a pass over a well-formed status leaves a well-formed one, whatever calls
  -- fail or conflict on the way, unless the object is gone: no action has two records, the history has
  -- at most 10 entries, and an idle scenario has no run.
  pub reconcile-IsWellFormed :
      (w : E.World)
      → L.stored w ≡ some s
      → IsWellFormed s
      → (t : MaintenanceJobStatus) → L.stored (reconcile E registry r k w).1 ≡ some t
      → IsWellFormed t
  reconcile-IsWellFormed w there i t after =
      IsWellFormed-Steps E (Moves-Steps E k (reconcile_refines w there t after)) i
