-- ===== src/Controller/Revert/Tokens.antt =====
-- The records of actions during a revert (maintenancejob_controller.go `reconcileRevert`): none is
-- dropped before its revert reports done.
use rca_lab.Base.{
  ◌≡◌, refl, ◌∙◌, ◌≢◌, arith, eq_iff, ◌==◌, Bool, true, false, String, List, [], ◌∷◌, ◌++◌, some,
  none, Option, inl, inr, Bool-cases, All,
}
use rca_lab.Base.Int.{leb_ℤ}
use rca_lab.Types.{MaintenanceJob, MaintenanceJobStatus, ActiveAction, CurrentRun}
use rca_lab.Cluster.Exec.{Error, Result, ok, err, Post, Post-bind}
use rca_lab.Cluster.Objects.{Key, job_key}
use rca_lab.Cluster.Env.{Env}
use rca_lab.Cluster.Laws.{JobLaws, Entry, tokens}
use rca_lab.Cluster.Retry.{Retried_lem, Post-of, holds}
use rca_lab.Actions.Action.{Action, RunContext, Progress}
use rca_lab.Actions.Registry.{get}
use rca_lab.Controller.Helpers.{update_active, remove_active, one_more, degraded_after_failures}
use rca_lab.Controller.Status.{Reconciler, Outcome, run_context, try_patch, patch_status}
use rca_lab.Controller.Revert.{
  attempt_failed, still_reverting, enter_reverting, is_reverting, last_of, revert_error,
  after_revert, revert_with, revert_last_of, revert_action, revert_pass, mark_reverting,
  reconcile_revert,
}

-- A change of one record that keeps its name, type and token keeps all of these.
tokens-update_active :
    (name : String) (f : ActiveAction → ActiveAction) (list : List ActiveAction)
    → ((a : ActiveAction)
        → ((f a).name ≡ a.name) × ((f a).type ≡ a.type) × ((f a).revert ≡ a.revert))
    → tokens (update_active name f list) ≡ tokens list
unfolding update_active
tokens-update_active name f [] same = refl
tokens-update_active name f (a ∷ list) same = elim (Bool-cases (a.name == name)) [
  | inl h ↦ rw (h, (same a).0, (same a).1, (same a).2) refl
  | inr h ↦ rw (h, tokens-update_active name f list same) refl
]

tokens-revert_error :
    (E : Env) (fs : MaintenanceJob) (aa : ActiveAction) (s : MaintenanceJobStatus) (e : Error)
    → tokens (revert_error E fs aa (one_more aa.attempts) e s).active_actions
      ≡ tokens s.active_actions
unfolding revert_error
tokens-revert_error E fs aa s e =
    let same =
      tokens-update_active aa.name (attempt_failed (one_more aa.attempts) e.message)
        s.active_actions (λ a. (refl, refl, refl)) in
    elim (Bool-cases (leb_ℤ degraded_after_failures (one_more aa.attempts))) [
      | inl h ↦ rw h same
      | inr h ↦ rw h same
    ]

-- That holds of the last of the entries, if there is one.
abbrev pub AtLast : (Entry → Type 0) → List Entry → Type 0
AtLast P [] = Unit
AtLast P (a ∷ []) = P a
AtLast P (a ∷ (b ∷ rest)) = AtLast P (b ∷ rest)

AtLast-last_of :
    (P : Entry → Type 0) (a : ActiveAction) (rest : List ActiveAction)
    → AtLast P (tokens (a ∷ rest))
    → P ((last_of a rest).name, (last_of a rest).type, (last_of a rest).revert)
AtLast-last_of P a [] h = h
AtLast-last_of P a (b ∷ rest) h = AtLast-last_of P b rest h

abbrev pub is_done : Result Progress → Bool
is_done (ok p) = p.done
is_done (err e) = false

-- The registered revert of that recorded action, if there is one, keeps the property and reports an
-- error or a wait.
abbrev pub IsUndone : (E : Env) → List (Action E.World) → (E.World → Type 0) → Entry → Type 0
IsUndone E registry I q =
    (impl : Action E.World) (rc : RunContext) (w : E.World)
    → get q.1 registry ≡ some impl
    → I w
    → I (impl.revert rc q.2 w).1 × (is_done (impl.revert rc q.2 w).0 ≡ false)

module _ (E : Env) (L : JobLaws E) (k : Key) (T : List Entry) where
  -- A property of the world, such as that the records stored have these names, types and
  -- tokens: a read shows them, and writing an object that has them keeps it.
  pub record Stores (I : E.World → Type 0) : Type 0 where
    pub by_get : (w : E.World) → I w → I (E.get_job k w).1
    pub read :
        (w : E.World) (fs : MaintenanceJob)
        → I w
        → (E.get_job k w).0 ≡ ok fs
        → tokens fs.status.active_actions ≡ T
    pub by_update :
        (fs : MaintenanceJob) (w : E.World)
        → job_key fs ≡ k
        → tokens fs.status.active_actions ≡ T
        → I w
        → I (E.update_status fs w).1
    pub by_event :
        (fs : MaintenanceJob) (b : Bool) (reason message : String) (w : E.World)
        → I w
        → I (E.record_event fs b reason message w)

  module _ (I : E.World → Type 0) (S : Stores I) where
    abbrev Held : MaintenanceJob → E.World → Type 0
    Held fs w = I w × (tokens fs.status.active_actions ≡ T) × (job_key fs ≡ k)

    abbrev KeepsTokens : (MaintenanceJobStatus → MaintenanceJobStatus) → Type 0
    KeepsTokens m =
        (s : MaintenanceJobStatus) → tokens (m s).active_actions ≡ tokens s.active_actions

    update_lem :
        (fs : MaintenanceJob) (w : E.World) → Held fs w → Post I Held (E.update_status fs w)
    update_lem fs w c =
        let out = E.update_status fs w in
        let i = S.by_update fs w c.2 c.1 c.0 in
        Post-of I Held out.0 out.1 i
          (λ fs' h. (i, (L.update_key fs fs' w h).1 ∙ c.1, (L.update_key fs fs' w h).0 ∙ c.2))

    try_patch_lem :
        (m : MaintenanceJobStatus → MaintenanceJobStatus) (w : E.World)
        → KeepsTokens m
        → I w
        → Post I Held (try_patch E k m w)
    unfolding try_patch
    try_patch_lem m w keeps i =
        Post-bind I Held Held (E.get_job k) _ w
          (Post-of I Held (E.get_job k w).0 (E.get_job k w).1 (S.by_get w i)
            (λ fs h. (S.by_get w i, S.read w fs i h, L.get_key k w fs h)))
          (λ fs w' c. update_lem _ w' (c.0, keeps fs.status ∙ c.1, c.2))

    patch_lem :
        (fs : MaintenanceJob) (m : MaintenanceJobStatus → MaintenanceJobStatus) (w : E.World)
        → KeepsTokens m
        → Held fs w
        → Post I Held (patch_status E fs m w)
    unfolding patch_status
    patch_lem fs m w keeps c =
        Retried_lem I Held (try_patch E (job_key fs) m) (λ a w' q. q.0)
          (λ w' i. rw (c.2) (try_patch_lem m w' keeps i)) (L.retry (try_patch E (job_key fs) m) w)
          c.0

    abbrev Fine : Outcome → E.World → Type 0
    Fine o w = I w

    -- What follows a revert that is not done.
    after_revert_lem :
        (fs : MaintenanceJob) (aa : ActiveAction) (r : Result Progress) (w : E.World)
        → Held fs w
        → is_done r ≡ false
        → Post I Fine (after_revert E fs aa r w)
    unfolding revert_action
    after_revert_lem fs aa (err e) w c u =
        Post-bind I Held Fine (patch_status E fs (revert_error E fs aa (one_more aa.attempts) e)) _
          _
          (patch_lem fs _ _ (λ s. tokens-revert_error E fs aa s e)
            (S.by_event fs true _ _ w c.0, c.1, c.2))
          (λ fs' w' c'. c'.0)
    after_revert_lem fs aa (ok p) w c u = rw u (
        Post-bind I Held Fine (patch_status E fs _) _ w
          (patch_lem fs _ w
            (λ s.
              tokens-update_active aa.name still_reverting s.active_actions
                (λ a. (refl, refl, refl)))
            c)
          (λ fs' w' c'. c'.0))

    module _ (registry : List (Action E.World)) (keeps : AtLast (IsUndone E registry I) T) where
      revert_with_lem :
          (found : Option (Action E.World)) (rc : RunContext) (fs : MaintenanceJob)
          (aa : ActiveAction) (w : E.World)
          → get aa.type registry ≡ found
          → IsUndone E registry I (aa.name, aa.type, aa.revert)
          → Held fs w
          → Post I Fine (revert_with E found rc fs aa w)
      unfolding reconcile_revert revert_action
      revert_with_lem none rc fs aa w h undone c = c.0
      revert_with_lem (some impl) rc fs aa w h undone c =
          let p = undone impl rc w h c.0 in
          after_revert_lem fs aa (impl.revert rc aa.revert w).0 _ (p.0, c.1, c.2) p.1

      revert_last_lem :
          (rc : RunContext) (fs : MaintenanceJob) (list : List ActiveAction) (w : E.World)
          → AtLast (IsUndone E registry I) (tokens list)
          → Held fs w
          → Post I Fine (revert_last_of E registry rc fs list w)
      unfolding reconcile_revert
      revert_last_lem rc fs [] w undone c = c.0
      revert_last_lem rc fs (a ∷ rest) w undone c =
          revert_with_lem _ rc fs (last_of a rest) w refl
            (AtLast-last_of (IsUndone E registry I) a rest undone) c

      mark_lem :
          (fs : MaintenanceJob) (w : E.World) → Held fs w → Post I Held (mark_reverting E fs w)
      unfolding reconcile_revert
      mark_lem fs w c = elim (Bool-cases (is_reverting fs.status.phase)) [
        | inl h ↦ rw h c
        | inr h ↦ rw h (patch_lem fs enter_reverting w (λ s. refl) c)
      ]

      pass_lem :
          (r : Reconciler) (fs : MaintenanceJob) (run : Option CurrentRun)
          (list : List ActiveAction) (deleting : Bool) (w : E.World)
          → list ≢ []
          → Held fs w
          → Post I Fine (revert_pass E registry r fs run deleting list w)
      unfolding reconcile_revert
      pass_lem r fs run [] deleting w n c = absurd (n refl)
      pass_lem r fs run (a ∷ rest) deleting w n c =
          Post-bind I Held Fine (mark_reverting E fs) _ w (mark_lem fs w c) (λ fs' w' c'.
            revert_last_lem (run_context r fs' run) fs' fs'.status.active_actions w'
              (rw (c'.1) keeps) c')

module _ (E : Env) (L : JobLaws E) where
  -- No record of an action is dropped before its revert is done: where actions are left and the
  -- revert of the last one's recorded token reports an error or a wait, and keeps a property of the
  -- world that goes with the names, types and tokens stored, a pass of the revert keeps that
  -- property, whatever calls fail or conflict on the way.
  pub reconcile_revert_lem :
      (registry : List (Action E.World)) (r : Reconciler) (fs : MaintenanceJob)
      (run : Option CurrentRun) (deleting : Bool) (I : E.World → Type 0) (w : E.World)
      → Stores E L (job_key fs) (tokens fs.status.active_actions) I
      → AtLast (IsUndone E registry I) (tokens fs.status.active_actions)
      → fs.status.active_actions ≢ []
      → I w
      → I (reconcile_revert E registry r fs run deleting w).1
  unfolding reconcile_revert
  reconcile_revert_lem registry r fs run deleting I w S undone some_left i =
      let k = job_key fs in
      let T = tokens fs.status.active_actions in
      holds I _ (
        pass_lem E L k T I S registry undone r fs run fs.status.active_actions deleting w some_left
          (i, refl, refl))

-- Of actions whose names differ from the last one's, the record of that name that a done revert
-- removes is the last, and no other.
pub remove_active-last :
    (a : ActiveAction) (list : List ActiveAction)
    → All (λ b. b.name ≢ a.name) list
    → remove_active a.name (list ++ a ∷ []) ≡ list
unfolding remove_active
remove_active-last a [] d = ground (arith, eq_iff a.name a.name)
remove_active-last a (b ∷ list) (p, d) =
    ground (arith, eq_iff b.name a.name, remove_active-last a list d)
