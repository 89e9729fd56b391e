-- ===== src/Controller/Revert/Answers.antt =====
-- A client that answers, and changes of the status over it (maintenancejob_controller.go
-- `patchStatus`).
use rca_lab.Base.{◌≡◌, refl, sym, ap, ◌∙◌, arith, true, false, List, some}
use rca_lab.Types.{MaintenanceJob, MaintenanceJobStatus}
use rca_lab.Cluster.Exec.{Exec, Result, ok, err, is_ok, Post, Post-bind}
use rca_lab.Cluster.Objects.{Key, job_key}
use rca_lab.Cluster.Env.{Env}
use rca_lab.Cluster.Laws.{Retried, last, again, Entry, tokens}
use rca_lab.Actions.Action.{Action, RunContext}
use rca_lab.Actions.Registry.{get}
use rca_lab.Controller.Status.{try_patch, patch_status}
use rca_lab.Controller.Revert.Tokens.{is_done}
use rca_lab.Controller.Refinement.Laws.{StatusLaws}

-- What fails never happens.
abbrev pub Never : {W : Type 0} → W → Type 0
Never w = true ≡ false

-- A call that succeeds is not retried.
Retried-ok :
    {W A : Type 0} (m : Exec W A) {w : W} {out : Result A × W}
    → is_ok (m w).0 ≡ true
    → Retried m w out
    → out ≡ m w
Retried-ok m h (last w) = refl
Retried-ok m h (again w e failed kind rest) = absurd (ground arith)

module _ (E : Env) (k : Key) (L : StatusLaws E k) where
  open L use {stored}

  -- Reads find what is stored, and writes of its status succeed.
  pub record Responsive : Type 0 where
    pub get_answers :
        (w : E.World) (s : MaintenanceJobStatus)
        → stored w ≡ some s
        → is_ok (E.get_job k w).0 ≡ true
    pub update_answers :
        (fs : MaintenanceJob) (w : E.World) (s : MaintenanceJobStatus)
        → job_key fs ≡ k
        → stored w ≡ some s
        → is_ok (E.update_status fs w).0 ≡ true

  -- The action's type is registered, and the revert of its recorded token is done at once and leaves
  -- the scenario's status alone.
  abbrev pub RevertsAtOnce : List (Action E.World) → Entry → Type 0
  RevertsAtOnce registry q =
      (impl : Action E.World) × (get q.1 registry ≡ some impl)
      × ((rc : RunContext) (w : E.World)
          → (is_done (impl.revert rc q.2 w).0 ≡ true)
            × (stored (impl.revert rc q.2 w).1 ≡ stored w))

  abbrev pub Current : MaintenanceJob → E.World → Type 0
  Current fs w = (stored w ≡ some fs.status) × (job_key fs ≡ k)

  module _ (R : Responsive) where
    succeeds :
        {A : Type 0} (Q : A → E.World → Type 0) (out : Result A × E.World)
        → Post Never Q out
        → is_ok out.0 ≡ true
    succeeds Q (ok a, w) p = refl
    succeeds Q (err e, w) p = absurd (ground arith)

    pub weaken :
        {A : Type 0} (Q P : A → E.World → Type 0) (out : Result A × E.World)
        → Post Never Q out
        → ((a : A) (w : E.World) → Q a w → P a w)
        → Post Never P out
    weaken Q P (ok a, w) q next = next a w q
    weaken Q P (err e, w) q next = q

    pub got :
        (r : Result MaintenanceJob) (s : MaintenanceJobStatus) (w : E.World)
        → stored w ≡ some s
        → (E.get_job k w).0 ≡ r
        → Post Never (λ fs w'. Current fs w' × (fs.status ≡ s)) (r, (E.get_job k w).1)
    got (ok fs) s w there h =
        let (read, same) = L.get_reads fs w h in
        ((L.get_keeps w ∙ read, same), ground (arith, read, there))
    got (err e) s w there h = absurd (ground (arith, R.get_answers w s there))

    updated :
        (next : MaintenanceJob) (r : Result MaintenanceJob) (s : MaintenanceJobStatus) (w : E.World)
        → job_key next ≡ k
        → stored w ≡ some s
        → (E.update_status next w).0 ≡ r
        → Post Never
            (λ fs w'.
              Current fs w' × (tokens fs.status.active_actions ≡ tokens next.status.active_actions))
            (r, (E.update_status next w).1)
    updated next (ok fs) s w key there h =
        let (now_there, alike, same) = L.update_ok next fs w key h in
        ((now_there, same), sym alike.actions)
    updated next (err e) s w key there h =
        absurd (ground (arith, R.update_answers next w s key there))

    module _ (fs : MaintenanceJob) (m : MaintenanceJobStatus → MaintenanceJobStatus) where
      abbrev pub Patched : MaintenanceJob → E.World → Type 0
      Patched fs' w' =
          Current fs' w' × (tokens fs'.status.active_actions ≡ tokens (m fs.status).active_actions)

      try_drains :
          (w : E.World) → stored w ≡ some fs.status → Post Never Patched (try_patch E k m w)
      unfolding try_patch
      try_drains w there =
          Post-bind Never (λ latest w'. Current latest w' × (latest.status ≡ fs.status)) Patched
            (E.get_job k)
            (λ latest. E.update_status (record latest {
              status = record (m latest.status) { observed_generation = latest.generation };
            }))
            w (got _ fs.status w there refl)
            (λ latest w' c.
              weaken _ Patched _ (updated _ _ latest.status w' c.0.1 c.0.0 refl) (λ fs' w'' d.
                (d.0, d.1 ∙ ap (λ t. tokens (MaintenanceJobStatus.active_actions (m t))) c.1)))

      pub patch_drains : (w : E.World) → Current fs w → Post Never Patched (patch_status E fs m w)
      unfolding patch_status
      patch_drains w (there, key) =
          let tried : Post Never Patched (try_patch E (job_key fs) m w) =
            rw key (try_drains w there) in
          rw
            (Retried-ok (try_patch E (job_key fs) m) (succeeds Patched _ tried)
              (L.retry (try_patch E (job_key fs) m) w))
            tried
