-- ===== src/Controller/Refinement.antt =====
-- The reconciler's passes as runs of the status's state machine (maintenancejob_controller.go): what
-- is assumed of the client, and what a change of the status (`patchStatus`) does to what is stored.
pub mod Laws
pub mod Guards
use rca_lab.Base.{arith, ◌≡◌, refl, sym, ◌∙◌, Bool, String, List, Option, some, ◌⊎◌, inl, inr}
use rca_lab.Base.Int.{ℤ}
use rca_lab.Go.Json.{RawMessage}
use rca_lab.Types.{MaintenanceJob, MaintenanceJobStatus, ActionSpec, ActionType}
use rca_lab.Cluster.Exec.{Error, Exec, Result, ok, err, conflict, Post, Post-bind, continue, ◌>>=◌}
use rca_lab.Cluster.Objects.{Key, job_key, ConfigMap}
use rca_lab.Cluster.Env.{Env}
use rca_lab.Cluster.Laws.{Retried, last, again}
use rca_lab.Cluster.Retry.{Post-of}
use rca_lab.Actions.Action.{Action, RunContext}
use rca_lab.Actions.Registry.{get}
use rca_lab.Controller.Status.Keeper.{Keeper}
use rca_lab.Controller.Status.{try_patch, patch_status}
use rca_lab.Controller.Invariant.{Step, observes, stores}
use rca_lab.Controller.Invariant.Alike.{IsAlike}
use rca_lab.Controller.Refinement.Laws.{StatusLaws}
use rca_lab.Controller.Refinement.Guards.{Shown, updated, patched, Guard, Moves, Moves-append}

module _ (E : Env) (k : Key) (L : StatusLaws E k) (s : MaintenanceJobStatus) where
  open L use {
    stored, get_reads, get_keeps, update_ok, update_conflict, update_fails, update_job_keeps,
    update_job_ok, retry,
  }

  -- What is stored, if the object is still there, was reached from the status at the start.
  abbrev pub Reached : E.World → Type 0
  Reached w = (t : MaintenanceJobStatus) → stored w ≡ some t → Moves E k s t

  -- What is stored, if the object is still there, is that status.
  abbrev pub Shows : MaintenanceJobStatus → E.World → Type 0
  Shows u w = (t : MaintenanceJobStatus) → stored w ≡ some t → u ≡ t

  -- The object in hand, which a call returned, has the status that is stored, and the run has reached
  -- it.
  abbrev pub Held : MaintenanceJob → E.World → Type 0
  Held fs w = Shows fs.status w × (job_key fs ≡ k) × Moves E k s fs.status × Shown E k fs

  -- The object in hand has that status, as the API server stores it.
  abbrev pub Became : MaintenanceJobStatus → MaintenanceJob → E.World → Type 0
  Became u fs w = Held fs w × IsAlike u fs.status

  Shows-Reached : (u : MaintenanceJobStatus) (w : E.World) → Shows u w → Moves E k s u → Reached w
  Shows-Reached u w shows run t h = rw (sym (shows t h)) run

  pub Held-Reached : (fs : MaintenanceJob) (w : E.World) → Held fs w → Reached w
  Held-Reached fs w h = Shows-Reached fs.status w h.0 h.2

  -- A call that leaves the stored status alone.
  pub Held-moves :
      (fs : MaintenanceJob) (w w' : E.World) → Held fs w → stored w' ≡ stored w → Held fs w'
  Held-moves fs w w' (shows, key, run, shown) e = (λ t h. shows t (sym e ∙ h), key, run, shown)

  -- An outcome of a try: a success leads to `Q`; a conflict leaves what was shown, and another failure
  -- something reached.
  abbrev Tried :
      MaintenanceJobStatus → {A : Type 0} → (A → E.World → Type 0) → Result A × E.World → Type 0
  Tried u Q (ok a, w) = Q a w
  Tried u Q (err e, w) = Reached w × (e.kind ≡ conflict → Shows u w)

  Tried-conflict :
      {A : Type 0} (u : MaintenanceJobStatus) (Q : A → E.World → Type 0) (r : Result A)
      (w : E.World) (e : Error)
      → r ≡ err e
      → e.kind ≡ conflict
      → Tried u Q (r, w)
      → Shows u w
  Tried-conflict u Q (ok a) w e h kind t = ground arith
  Tried-conflict u Q (err x) w e h kind t = t.1 (ground arith)

  Tried-Post :
      {A : Type 0} (u : MaintenanceJobStatus) (Q : A → E.World → Type 0) (out : Result A × E.World)
      → Tried u Q out
      → Post Reached Q out
  Tried-Post u Q (ok a, w) t = t
  Tried-Post u Q (err e, w) t = t.0

  retried_lem :
      {A : Type 0} (u : MaintenanceJobStatus) (Q : A → E.World → Type 0) (m : Exec E.World A)
      {w : E.World} {out : Result A × E.World}
      → ((w : E.World) → Shows u w → Tried u Q (m w))
      → Retried m w out
      → Shows u w
      → Post Reached Q out
  retried_lem u Q m each (last w) i = Tried-Post u Q (m w) (each w i)
  retried_lem u Q m each (again w e failed kind rest) i =
      retried_lem u Q m each rest (Tried-conflict u Q (m w).0 (m w).1 e failed kind (each w i))

  module _ (u : MaintenanceJobStatus) (run : Moves E k s u) where
    after_update :
        (next : MaintenanceJob) (r : Result MaintenanceJob) (w : E.World)
        → job_key next ≡ k
        → Shows u w
        → Moves E k s next.status
        → (E.update_status next w).0 ≡ r
        → Tried u (Became next.status) (r, (E.update_status next w).1)
    after_update next (ok fs') w key shows steps h =
        let (there, alike, same) = update_ok next fs' w key h in
        (
          (
            λ t e. ground arith,
            same,
            Moves-append E k steps (stores next.status fs'.status alike) tt,
            patched next w h,
          ),
          alike,
        )
    after_update next (err e) w key shows steps h = (
      λ t there. elim (update_fails next e w t key h there) [
        | inl before ↦ rw (sym (shows t before)) run
        | inr alike ↦ Moves-append E k steps (stores next.status t alike) tt
      ],
      λ kind t there. shows t (sym (update_conflict next e w key h kind) ∙ there),
    )

    module _ (m : MaintenanceJobStatus → MaintenanceJobStatus) (one : Step E u (m u))
        (guard : Guard E k one) where
      written :
          (v : MaintenanceJobStatus) (g : ℤ)
          → u ≡ v
          → Moves E k s (record (m v) { observed_generation = g })
      written v g e =
          rw (sym e) (Moves-append E k (Moves-append E k run one guard) (observes (m u) g) tt)

      observed :
          (v : MaintenanceJobStatus) (g : ℤ) (out : Result MaintenanceJob × E.World)
          → u ≡ v
          → Tried u (Became (record (m v) { observed_generation = g })) out
          → Tried u (Became (m u)) out
      observed v g (ok fs', w) e (h, alike) = (
        h,
        rw e (record {
          phase = alike.phase;
          run = alike.run;
          actions = alike.actions;
          last_run = alike.last_run;
          history = alike.history;
        }),
      )
      observed v g (err x, w) e t = t

      after_get :
          (r : Result MaintenanceJob) (w : E.World)
          → Shows u w
          → (E.get_job k w).0 ≡ r
          → Tried u (Became (m u)) (
              continue r
                (λ latest. E.update_status (record latest {
                  status = record (m latest.status) { observed_generation = latest.generation };
                }))
                (E.get_job k w).1)
      after_get (ok latest) w shows h =
          let (there, key) = get_reads latest w h in
          let same = shows latest.status there in
          observed latest.status latest.generation _ same (
            after_update _ _ _ key (λ t e. shows t (sym (get_keeps w) ∙ e))
              (written latest.status latest.generation same) refl)
      after_get (err e) w shows h = (
        λ t there. rw (sym (shows t (sym (get_keeps w) ∙ there))) run,
        λ kind t there. shows t (sym (get_keeps w) ∙ there),
      )

      try_patch_lem : (w : E.World) → Shows u w → Tried u (Became (m u)) (try_patch E k m w)
      unfolding try_patch
      try_patch_lem w shows = after_get _ w shows refl

  -- A change of the status that the machine allows, decided on the object in hand: where it succeeds,
  -- what comes back is held and has the change; where it fails, what is stored was reached.
  pub patch_lem :
      (fs : MaintenanceJob) (m : MaintenanceJobStatus → MaintenanceJobStatus) (w : E.World)
      → Held fs w
      → (one : Step E fs.status (m fs.status)) → Guard E k one
      → Post Reached (Became (m fs.status)) (patch_status E fs m w)
  unfolding patch_status
  patch_lem fs m w (shows, key, run, shown) one guard =
      retried_lem fs.status (Became (m fs.status)) (try_patch E (job_key fs) m)
        (λ w' i. rw key (try_patch_lem fs.status run m one guard w' i))
        (retry (try_patch E (job_key fs) m) w) shows

  Held-update :
      (fs next : MaintenanceJob) (w : E.World)
      → Held fs w
      → job_key next ≡ k
      → Shows fs.status (E.update_job next w).1
  Held-update fs next w h key t e = h.0 t (update_job_keeps next w t key e)

  pub Post-weaken :
      {A : Type 0} (Q R : A → E.World → Type 0) (out : Result A × E.World)
      → Post Reached Q out
      → ((a : A) (w : E.World) → Q a w → R a w)
      → Post Reached R out
  Post-weaken Q R (ok a, w) q next = next a w q
  Post-weaken Q R (err e, w) q next = q

  -- What is stored is reached, and the object in hand has a property of the status that the API
  -- server keeps; the changes that the machine allows there, and that keep the property, are allowed.
  unfoldable pub keeper_of :
      (P : MaintenanceJobStatus → Type 0)
      → ((u t : MaintenanceJobStatus) → IsAlike u t → P u → P t)
      → Keeper E
  keeper_of P kept = record {
    Safe = Reached;
    Held = λ fs w. Held fs w × P fs.status;
    Allowed = λ fs m.
        P fs.status → (one : Step E fs.status (m fs.status)) × Guard E k one × P (m fs.status);
    safe = λ fs w h. Held-Reached fs w h.0;
    patch = λ fs m w (h, p) allowed.
        let (one, guard, still) = allowed p in
        Post-weaken (Became (m fs.status)) _ _ (patch_lem fs m w h one guard)
          (λ fs' w' (h', alike). (h', kept (m fs.status) fs'.status alike still));
    event = λ held fs b reason message w (h, p).
        (Held-moves held w _ h (L.event_keeps fs b reason message w), p);
    now = λ fs w (h, p). (Held-moves fs w _ h (L.now_keeps w), p);
  }

  -- After a change of the status that the machine allows, whatever goes on from the object that came
  -- back.
  pub moved :
      {A : Type 0} (R : A → E.World → Type 0) (fs : MaintenanceJob)
      (m : MaintenanceJobStatus → MaintenanceJobStatus) (f : MaintenanceJob → Exec E.World A)
      (w : E.World)
      → Held fs w
      → (one : Step E fs.status (m fs.status)) → Guard E k one
      → ((fs' : MaintenanceJob) (w' : E.World) → Held fs' w' → Post Reached R (f fs' w'))
      → Post Reached R ((patch_status E fs m >>= f) w)
  moved R fs m f w h one guard next =
      Post-bind Reached (Became (m fs.status)) R (patch_status E fs m) f w
        (patch_lem fs m w h one guard) (λ fs' w' (h', alike). next fs' w' h')

  -- A write of the rest of the object.
  pub update_job_lem :
      (fs next : MaintenanceJob) (w : E.World)
      → Held fs w
      → job_key next ≡ k
      → Post Reached (λ fs' w'. Held fs' w' × (fs.status ≡ fs'.status)) (E.update_job next w)
  update_job_lem fs next w h key =
      let kept = Held-update fs next w h key in
      Post-of Reached (λ fs' w'. Held fs' w' × (fs.status ≡ fs'.status)) (E.update_job next w).0
        (E.update_job next w).1 (Shows-Reached fs.status _ kept h.2)
        (λ fs' ok_eq.
          let (there, same) = update_job_ok next fs' w key ok_eq in
          let status = h.0 fs'.status there in
          (
            (λ t e. sym status ∙ kept t e, same, rw (sym status) (h.2), updated next w ok_eq),
            status,
          ))

  pub rewritten :
      {A : Type 0} (R : A → E.World → Type 0) (fs next : MaintenanceJob)
      (f : MaintenanceJob → Exec E.World A) (w : E.World)
      → Held fs w
      → job_key next ≡ k
      → ((fs' : MaintenanceJob) (w' : E.World) → Held fs' w' → Post Reached R (f fs' w'))
      → Post Reached R ((E.update_job next >>= f) w)
  rewritten R fs next f w h key rest =
      Post-bind Reached (λ fs' w'. Held fs' w' × (fs.status ≡ fs'.status)) R (E.update_job next) f w
        (update_job_lem fs next w h key) (λ fs' w' (h', same). rest fs' w' h')

  -- An action that leaves the scenario's own status alone.
  pub record LeavesStatus (impl : Action E.World) : Type 0 where
    pub plan_keeps :
        (rc : RunContext) (act : ActionSpec) (w : E.World)
        → stored (impl.plan rc act w).1 ≡ stored w
    pub ensure_keeps :
        (rc : RunContext) (act : ActionSpec) (token : RawMessage) (w : E.World)
        → stored (impl.ensure rc act token w).1 ≡ stored w
    pub revert_keeps :
        (rc : RunContext) (token : RawMessage) (w : E.World)
        → stored (impl.revert rc token w).1 ≡ stored w

  abbrev pub AllLeaveStatus : List (Action E.World) → Type 0
  AllLeaveStatus registry =
      (t : ActionType) (impl : Action E.World) → get t registry ≡ some impl → LeavesStatus impl
