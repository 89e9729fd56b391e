-- ===== src/Controller/Revert/Drains.antt =====
-- That the revert gets done (maintenancejob_controller.go `reconcileRevert`): where the calls succeed
-- and each action's revert reports done, a pass takes back the last action, and as many passes as
-- there are actions take back all of them.
use rca_lab.Base.{
  ◌≡◌, refl, ap, ◌∙◌, arith, ℕ, zero, suc, true, false, Bool-cases, inl, inr, List, [], ◌∷◌, All,
  length, Option, some,
}
use rca_lab.Types.{MaintenanceJob, MaintenanceJobStatus, ActiveAction, CurrentRun}
use rca_lab.Cluster.Exec.{Result, ok, err, Post, Post-bind}
use rca_lab.Cluster.Objects.{Key}
use rca_lab.Cluster.Env.{Env}
use rca_lab.Cluster.Laws.{Entry, tokens}
use rca_lab.Actions.Action.{Action, RunContext, Progress}
use rca_lab.Controller.Helpers.{remove_active}
use rca_lab.Controller.Status.{Reconciler, Outcome, run_context, patch_status}
use rca_lab.Controller.Revert.Tokens.{is_done}
use rca_lab.Controller.Revert.{
  is_reverting, last_of, enter_reverting, revert_done, drained, after_revert, revert_action,
  revert_with, revert_last_of, revert_last, mark_reverting, revert_pass, reconcile_revert,
}
use rca_lab.Controller.Refinement.Laws.{StatusLaws}
use rca_lab.Controller.Revert.Entries.{
  drop_last, Distinct, All-drop_last, Distinct-drop_last, length-drop_last, last_of-All,
  tokens-remove_active, moved,
}
use rca_lab.Controller.Revert.Answers.{
  Never, Responsive, RevertsAtOnce, Current, weaken, got, Patched, patch_drains,
}

module _ (E : Env) (k : Key) (L : StatusLaws E k) (R : Responsive E k L) where
  open L use {stored}

  module _ (registry : List (Action E.World)) where
    -- What a pass leaves, of the actions of these tokens.
    abbrev Left : List Entry → {A : Type 0} → A → E.World → Type 0
    Left K _ w = (s : MaintenanceJobStatus) × (stored w ≡ some s) × (tokens s.active_actions ≡ K)

    mark_drains :
        (fs : MaintenanceJob) (w : E.World)
        → Current E k L fs w
        → Post Never (Patched E k L R fs (λ s. s)) (mark_reverting E fs w)
    unfolding mark_reverting
    mark_drains fs w c = elim (Bool-cases (is_reverting fs.status.phase)) [
      | inl b ↦ rw b (c, refl)
      | inr b ↦ rw b (patch_drains E k L R fs enter_reverting w c)
    ]

    done_drains :
        (fs : MaintenanceJob) (a : ActiveAction) (rest : List ActiveAction) (w : E.World)
        → fs.status.active_actions ≡ a ∷ rest
        → Distinct (tokens (a ∷ rest))
        → Current E k L fs w
        → Post Never (Left (drop_last (tokens (a ∷ rest)))) (revert_done E fs (last_of a rest) w)
    unfolding revert_done
    done_drains fs a rest w e d c =
        Post-bind Never (Patched E k L R fs (drained E (last_of a rest).name)) (Left _)
          (patch_status E fs (drained E (last_of a rest).name)) _ w
          (patch_drains E k L R fs (drained E (last_of a rest).name) w c)
          (λ fs' w' p. (
            fs'.status,
            p.0.0,
            p.1
                ∙ (ap (λ l. tokens (remove_active (last_of a rest).name l)) e
                    ∙ tokens-remove_active a rest d),
          ))

    reverted_drains :
        (r : Result Progress) (fs : MaintenanceJob) (a : ActiveAction) (rest : List ActiveAction)
        (w : E.World)
        → is_done r ≡ true
        → fs.status.active_actions ≡ a ∷ rest
        → Distinct (tokens (a ∷ rest))
        → Current E k L fs w
        → Post Never (Left (drop_last (tokens (a ∷ rest)))) (after_revert E fs (last_of a rest) r w)
    unfolding after_revert
    reverted_drains (err x) fs a rest w done e d c = absurd (ground arith)
    reverted_drains (ok p) fs a rest w done e d c = rw done (done_drains fs a rest w e d c)

    last_drains :
        (rc : RunContext) (fs : MaintenanceJob) (a : ActiveAction) (rest : List ActiveAction)
        (w : E.World)
        → fs.status.active_actions ≡ a ∷ rest
        → Distinct (tokens (a ∷ rest))
        → All (RevertsAtOnce E k L registry) (tokens (a ∷ rest))
        → Current E k L fs w
        → Post Never
            (Left (drop_last (tokens (a ∷ rest))))
            (revert_last_of E registry rc fs (a ∷ rest) w)
    unfolding revert_last_of revert_with revert_action
    last_drains rc fs a rest w e d ready c =
        let (impl, registered, reverts) = last_of-All (RevertsAtOnce E k L registry) a rest ready in
        let (done, keeps) = reverts rc w in
        rw registered (
          reverted_drains (impl.revert rc (last_of a rest).revert w).0 fs a rest
            (impl.revert rc (last_of a rest).revert w).1 done e d (keeps ∙ c.0, c.1))

    -- The last action of an object in hand, by what its list is.
    list_drains :
        (rc : RunContext) (fs : MaintenanceJob) (list : List ActiveAction) (q : Entry)
        (K : List Entry) (w : E.World)
        → fs.status.active_actions ≡ list
        → tokens list ≡ q ∷ K
        → Distinct (q ∷ K)
        → All (RevertsAtOnce E k L registry) (q ∷ K)
        → Current E k L fs w
        → Post Never (Left (drop_last (q ∷ K))) (revert_last_of E registry rc fs list w)
    list_drains rc fs [] q K w e same d ready c = absurd (ground arith)
    list_drains rc fs (a ∷ rest) q K w e same d ready c =
        weaken E k L R _ (Left (drop_last (q ∷ K))) _
          (last_drains rc fs a rest w e (moved Distinct _ _ same d)
            (moved (All (RevertsAtOnce E k L registry)) _ _ same ready) c)
          (λ o w' l. (l.0, l.1, l.2 ∙ ap drop_last same))

    pass_drains :
        (r : Reconciler) (fs : MaintenanceJob) (run : Option CurrentRun) (list : List ActiveAction)
        (q : Entry) (K : List Entry) (w : E.World)
        → fs.status.active_actions ≡ list
        → tokens list ≡ q ∷ K
        → Distinct (q ∷ K)
        → All (RevertsAtOnce E k L registry) (q ∷ K)
        → Current E k L fs w
        → Post Never (Left (drop_last (q ∷ K))) (revert_pass E registry r fs run false list w)
    unfolding revert_pass revert_last
    pass_drains r fs run [] q K w e same d ready c = absurd (ground arith)
    pass_drains r fs run (a ∷ rest) q K w e same d ready c =
        Post-bind Never (Patched E k L R fs (λ s. s)) (Left (drop_last (q ∷ K)))
          (mark_reverting E fs) _ w (mark_drains fs w c)
          (λ fs' w' p.
            list_drains (run_context r fs' run) fs' fs'.status.active_actions q K w' refl
              (p.1 ∙ (ap tokens e ∙ same)) d ready p.0)

    -- One pass of the revert, over the object as it is read.
    revert_read : Reconciler → Result MaintenanceJob → E.World → E.World
    revert_read r (err e) w = w
    revert_read r (ok fs) w = (reconcile_revert E registry r fs fs.status.current_run false w).1

    revert_round : Reconciler → E.World → E.World
    unfolding revert_read
    revert_round r w = let (found, w') = E.get_job k w in revert_read r found w'

    -- So many passes, one after the other.
    unfoldable pub revert_rounds : ℕ → Reconciler → E.World → E.World
    unfolding revert_round
    revert_rounds zero r w = w
    revert_rounds (suc n) r w = revert_rounds n r (revert_round r w)

    outcome :
        (K : List Entry) (out : Result Outcome × E.World)
        → Post Never (Left K) out
        → Left K tt out.1
    outcome K (ok o, w) p = p
    outcome K (err e, w) p = absurd (ground arith)

    read_drains :
        (r : Reconciler) (out : Result MaintenanceJob) (w : E.World) (s : MaintenanceJobStatus)
        (q : Entry) (K : List Entry)
        → tokens s.active_actions ≡ q ∷ K
        → Distinct (q ∷ K)
        → All (RevertsAtOnce E k L registry) (q ∷ K)
        → Post Never (λ fs w'. Current E k L fs w' × (fs.status ≡ s)) (out, w)
        → Left (drop_last (q ∷ K)) tt (revert_read r out w)
    unfolding revert_read reconcile_revert
    read_drains r (err e) w s q K same d ready p = absurd (ground arith)
    read_drains r (ok fs) w s q K same d ready (c, e) = outcome _ _ (
        pass_drains r fs fs.status.current_run fs.status.active_actions q K w refl
          (ap (λ t. tokens (MaintenanceJobStatus.active_actions t)) e ∙ same) d ready c)

    drains_by :
        (n : ℕ) (r : Reconciler) (K : List Entry) (w : E.World) (s : MaintenanceJobStatus)
        → length K ≡ n
        → stored w ≡ some s
        → tokens s.active_actions ≡ K
        → Distinct K
        → All (RevertsAtOnce E k L registry) K
        → Left [] tt (revert_rounds n r w)
    unfolding revert_rounds revert_round
    drains_by zero r [] w s n there same d ready = (s, there, same)
    drains_by zero r (q ∷ K) w s n there same d ready = absurd (ground arith)
    drains_by (suc n) r [] w s h there same d ready = absurd (ground arith)
    drains_by (suc n) r (q ∷ K) w s h there same d ready =
        let left =
          read_drains r (E.get_job k w).0 (E.get_job k w).1 s q K same d ready
            (got E k L R _ s w there refl) in
        drains_by n r (drop_last (q ∷ K)) (revert_round r w) left.0
          (omega (arith, length-drop_last q K)) left.1 left.2 (Distinct-drop_last (q ∷ K) d)
          (All-drop_last (RevertsAtOnce E k L registry) (q ∷ K) ready)

    -- The revert gets done: where reads and writes of the scenario succeed, the names of its
    -- recorded actions differ pairwise, and each action's type is registered with a revert that, on
    -- the recorded token, is done at once, as many passes of the revert as actions are recorded, each over the object as
    -- it is read, leave none recorded.
    pub revert_rounds_drain :
        (r : Reconciler) (w : E.World) (s : MaintenanceJobStatus)
        → stored w ≡ some s
        → Distinct (tokens s.active_actions)
        → All (RevertsAtOnce E k L registry) (tokens s.active_actions)
        → (t : MaintenanceJobStatus) × (stored
              (revert_rounds (length (tokens s.active_actions)) r w)
            ≡ some t)
          × (tokens t.active_actions ≡ [])
    revert_rounds_drain r w s there d ready =
        drains_by (length (tokens s.active_actions)) r (tokens s.active_actions) w s refl there refl
          d ready
