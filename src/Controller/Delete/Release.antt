-- ===== src/Controller/Delete/Release.antt =====
-- When a deleted scenario is let go, and what is kept of it (maintenancejob_controller.go
-- `reconcileDelete`, `leakState`).
use text.Mathlib.TextLemmas.{append_cancel_left, append_cancel_right}
use rca_lab.Base.{
  ◌≡◌, ◌≢◌, refl, ◌∙◌, arith, eq_iff, ◌==◌, true, false, String, ◌<>◌, List, [], ◌∷◌, some, All,
  inl, inr, Bool-cases,
}
use rca_lab.Base.Dict.{Dict, lookup, insert, lookup-insert}
use rca_lab.Go.Json.{RawMessage}
use rca_lab.Types.{MaintenanceJob, ActiveAction}
use rca_lab.Cluster.Objects.{job_key}
use rca_lab.Cluster.Env.{Env}
use rca_lab.Cluster.Laws.{JobLaws, tokens}
use rca_lab.Actions.Action.{Action}
use rca_lab.Controller.Status.{Reconciler, finalizer_name}
use rca_lab.Controller.Revert.Tokens.{Stores, AtLast, IsUndone, reconcile_revert_lem}
use rca_lab.Controller.Delete.{leaked_entries, reconcile_delete, force_release}

module _ (E : Env) (L : JobLaws E) where
  -- Without a forced release, a scenario that is being deleted keeps the records of its actions until
  -- they are reverted: where actions are left and the revert of the last one's recorded token reports
  -- an error or a wait, and keeps a property of the world that goes with the names, types and tokens
  -- stored and that writes of the status keep, a pass keeps that property.
  pub reconcile_delete_lem :
      (registry : List (Action E.World)) (r : Reconciler) (fs : MaintenanceJob)
      (I : E.World → Type 0) (w : E.World)
      → Stores E L (job_key fs) (tokens fs.status.active_actions) I
      → AtLast (IsUndone E registry I) (tokens fs.status.active_actions)
      → fs.status.active_actions ≢ []
      → force_release E fs ≡ false
      → I w
      → I (reconcile_delete E registry r fs w).1
  unfolding reconcile_delete
  reconcile_delete_lem registry r fs I w S keeps some_left unforced i =
      elim (Bool-cases (E.contains_finalizer finalizer_name fs.finalizers)) [
        | inl h ↦
            rw (h, unforced)
              (reconcile_revert_lem E L registry r fs fs.status.current_run true I w S keeps
                some_left i)
        | inr h ↦ rw h i
      ]

abbrev leak_key : String → String → String → String
leak_key scenario ts name = scenario <> ("." <> (name <> ("." <> ts)))

-- Different actions are kept under different keys.
leak_key-ne :
    (scenario ts a b : String) → a ≢ b → (leak_key scenario ts a == leak_key scenario ts b) ≡ false
leak_key-ne scenario ts a b d =
    elim (Bool-cases (leak_key scenario ts a == leak_key scenario ts b)) [
      | inl h ↦
          let e = (eq_iff (leak_key scenario ts a) (leak_key scenario ts b)).0 h in
          absurd (
            d (
              append_cancel_right a b ("." <> ts)
                (append_cancel_left "." _ _ (append_cancel_left scenario _ _ e))))
      | inr h ↦ h
    ]

-- An entry that no action of the list writes.
leaked_entries-other :
    (scenario ts name : String) (list : List ActiveAction) (entries : Dict RawMessage)
    → All (λ b. name ≢ b.name) list
    → lookup (leak_key scenario ts name) (leaked_entries scenario ts list entries)
      ≡ lookup (leak_key scenario ts name) entries
unfolding leaked_entries
leaked_entries-other scenario ts name [] entries d = refl
leaked_entries-other scenario ts name (b ∷ list) entries (p, d) =
    let k = leak_key scenario ts name in
    let j = leak_key scenario ts b.name in
    let ne = leak_key-ne scenario ts name b.name p in
    ground (
      arith,
      ne,
      eq_iff k j,
      eq_iff j k,
      lookup-insert j k b.revert entries,
      leaked_entries-other scenario ts name list (insert j b.revert entries) d,
    )

abbrev pub AllDiffer : List ActiveAction → Type 0
AllDiffer [] = Unit
AllDiffer (a ∷ list) = All (λ b. a.name ≢ b.name) list × AllDiffer list

-- Every token of a scenario whose actions' names differ pairwise is kept in the config map under the
-- action's key, whatever entries were there.
pub leaked_entries_lem :
    (scenario ts : String) (list : List ActiveAction) (entries : Dict RawMessage)
    → AllDiffer list
    → All
        (λ a.
          lookup
            (scenario <> ("." <> (a.name <> ("." <> ts))))
            (leaked_entries scenario ts list entries)
          ≡ some a.revert)
        list
unfolding leaked_entries
leaked_entries_lem scenario ts [] entries d = tt
leaked_entries_lem scenario ts (a ∷ list) entries (p, d) =
    let k = leak_key scenario ts a.name in
    (
      leaked_entries-other scenario ts a.name list (insert k a.revert entries) p
          ∙ ground (arith, eq_iff k k, lookup-insert k k a.revert entries),
      leaked_entries_lem scenario ts list (insert k a.revert entries) d,
    )
