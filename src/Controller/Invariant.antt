-- ===== src/Controller/Invariant.antt =====
-- The changes that the reconciler writes to the status of a scenario with `patchStatus`
-- (maintenancejob_controller.go, helpers.go), each on the status it was decided on, in any order; when
-- each is made is in Refinement.Guards.
pub mod Names
pub mod Alike
use rca_lab.Base.{
  ◌≡◌, ◌≢◌, refl, sym, ap, ◌∙◌, ◌≤◌, ◌==◌, arith, eq_iff, Bool, true, false, Bool-cases, inl, inr,
  Option-cases, String, List, [], ◌∷◌, ◌++◌, Option, none, some, is_some, All, length,
  if◌then◌else◌, min, ◌+◌,
}
use rca_lab.Base.Int.{ℤ, leb_ℤ}
use rca_lab.Go.Duration.{Time}
use rca_lab.Go.Json.{RawMessage}
use rca_lab.Types.{
  Phase, idle, MaintenanceJob, MaintenanceJobStatus, CurrentRun, ActiveAction, ActionSpec,
  RunHistoryEntry, ConditionType,
}
use rca_lab.Cluster.Exec.{Error}
use rca_lab.Cluster.Env.{Env}
use rca_lab.Actions.Action.{Action, RunContext}
use rca_lab.Controller.Helpers.{
  find_active_action, update_active, remove_active, status_mutation, set_condition, append_history,
  history_cap, degraded_after_failures,
}
use rca_lab.Controller.Helpers.History.{append_history_lem}
use rca_lab.Controller.Start.{started, settle_idle}
use rca_lab.Controller.Activate.{Loop, reached, new_record, record_token, failed_once, mark_applied}
use rca_lab.Controller.Revert.{
  enter_reverting, revert_error, attempt_failed, still_reverting, drained, close_run,
  close_leftovers,
}
use rca_lab.Controller.Delete.Release.{AllDiffer}
use rca_lab.Controller.Invariant.Alike.{run_id, IsAlike, AllDiffer-IsAlike}
use rca_lab.Controller.Invariant.Names.{
  KeepsName, AllDiffer-append, AllDiffer-update_active, AllDiffer-remove_active,
}

pub record IsWellFormed (s : MaintenanceJobStatus) : Type 0 where
  -- no action has two records
  pub distinct : AllDiffer s.active_actions
  pub short_history : length s.history ≤ 10
  -- an idle scenario has no run
  pub no_idle_run : s.phase ≡ idle → s.current_run ≡ none

module _ (E : Env) where
  -- The changes, one by one: those of `reject` and `plan_failed` (a condition), `maybe_start_run`,
  -- the activation and the revert. Where the caller has looked at the current run, the step says so.
  pub data Step : MaintenanceJobStatus → MaintenanceJobStatus → Type 0 where
    condition :
        (s : MaintenanceJobStatus) (g : ℤ) (t : ConditionType) (b : Bool) (reason message : String)
        → Step s (set_condition E g t b reason message s)
    settles :
        (s : MaintenanceJobStatus) (fs : MaintenanceJob)
        → s.current_run ≡ none
        → Step s (settle_idle E fs s)
    starts :
        (s : MaintenanceJobStatus) (run : CurrentRun)
        → s.current_run ≡ none
        → Step s (started run s)
    records :
        (s : MaintenanceJobStatus) (act : ActionSpec) (token : RawMessage)
        → Step s (record_token act token s)
    ensure_fails :
        (s : MaintenanceJobStatus) (name message : String)
        → Step s (status_mutation name (failed_once message) s)
    applies :
        (s : MaintenanceJobStatus) (name : String) (now : Time)
        → Step s (status_mutation name (mark_applied now) s)
    holds :
        (s : MaintenanceJobStatus) (registry : List (Action E.World)) (rc : RunContext)
        (run : CurrentRun) (now : Time) (loop : Loop)
        → Step s (reached E registry rc run now loop s)
    reverts : (s : MaintenanceJobStatus) → Step s (enter_reverting s)
    revert_fails :
        (s : MaintenanceJobStatus) (fs : MaintenanceJob) (aa : ActiveAction) (attempts : ℤ)
        (e : Error)
        → Step s (revert_error E fs aa attempts e s)
    revert_waits :
        (s : MaintenanceJobStatus) (name : String)
        → Step s (record s { active_actions = update_active name still_reverting s.active_actions })
    drains : (s : MaintenanceJobStatus) (name : String) → Step s (drained E name s)
    closes :
        (s : MaintenanceJobStatus) (fs : MaintenanceJob) (run : CurrentRun)
        (entry : RunHistoryEntry)
        → Step s (close_run E fs run entry s)
    clears : (s : MaintenanceJobStatus) → s.current_run ≡ none → Step s (close_leftovers E s)
    -- what `patchStatus` adds to every change
    observes : (s : MaintenanceJobStatus) (g : ℤ) → Step s (record s { observed_generation = g })
    -- what the API server makes of a status that it stores
    stores : (s t : MaintenanceJobStatus) → IsAlike s t → Step s t

  pub data Steps : MaintenanceJobStatus → MaintenanceJobStatus → Type 0 where
    stop : (s : MaintenanceJobStatus) → Steps s s
    step : (s t u : MaintenanceJobStatus) → Step s t → Steps t u → Steps s u

  short :
      (h : List RunHistoryEntry) (entry : RunHistoryEntry) → length (append_history h entry) ≤ 10
  short h entry = ground (arith, (append_history_lem h entry).0)

  IsWellFormed-record_token :
      (s : MaintenanceJobStatus) (act : ActionSpec) (token : RawMessage)
      → IsWellFormed s
      → IsWellFormed (record_token act token s)
  unfolding record_token
  IsWellFormed-record_token s act token i = record {
    distinct = elim (Option-cases (find_active_action s.active_actions act.name)) [
      | inl e ↦ rw e (AllDiffer-append s.active_actions (new_record act token) i.distinct e)
      | inr (a, e) ↦ rw e i.distinct
    ];
    short_history = i.short_history;
    no_idle_run = λ h. absurd (ground arith);
  }

  IsWellFormed-status_mutation :
      (s : MaintenanceJobStatus) (name : String) (f : ActiveAction → ActiveAction)
      → KeepsName f
      → IsWellFormed s
      → IsWellFormed (status_mutation name f s)
  unfolding status_mutation
  IsWellFormed-status_mutation s name f k i = record {
    distinct = AllDiffer-update_active name f s.active_actions k i.distinct;
    short_history = i.short_history;
    no_idle_run = i.no_idle_run;
  }

  IsWellFormed-revert_error :
      (s : MaintenanceJobStatus) (fs : MaintenanceJob) (aa : ActiveAction) (attempts : ℤ)
      (e : Error)
      → IsWellFormed s
      → IsWellFormed (revert_error E fs aa attempts e s)
  unfolding revert_error
  IsWellFormed-revert_error s fs aa attempts e i =
      let d =
        AllDiffer-update_active aa.name (attempt_failed attempts e.message) s.active_actions
          (λ a. refl) i.distinct in
      elim (Bool-cases (leb_ℤ degraded_after_failures attempts)) [
        | inl h ↦ rw h (record {
          distinct = d;
          short_history = i.short_history;
          no_idle_run = λ n. absurd (ground arith);
        })
        | inr h ↦
            rw h (record {
              distinct = d;
              short_history = i.short_history;
              no_idle_run = i.no_idle_run;
            })
      ]

  IsWellFormed-reached :
      (s : MaintenanceJobStatus) (registry : List (Action E.World)) (rc : RunContext)
      (run : CurrentRun) (now : Time) (loop : Loop)
      → IsWellFormed s
      → IsWellFormed (reached E registry rc run now loop s)
  IsWellFormed-reached s registry rc run now loop i = elim (Bool-cases loop.all_applied) [
    | inl h ↦ rw h (record {
      distinct = i.distinct;
      short_history = i.short_history;
      no_idle_run = λ n. absurd (ground arith);
    })
    | inr h ↦ rw h (record {
      distinct = i.distinct;
      short_history = i.short_history;
      no_idle_run = λ n. absurd (ground arith);
    })
  ]

  ran_none : (a b : Option CurrentRun) → run_id a ≡ run_id b → a ≡ none → b ≡ none
  ran_none a none e h = refl
  ran_none a (some run) e h = ground arith

  IsWellFormed-Step : {s t : MaintenanceJobStatus} → Step s t → IsWellFormed s → IsWellFormed t
  unfolding close_run
  IsWellFormed-Step (condition s g t b reason message) i = record {
    distinct = i.distinct;
    short_history = i.short_history;
    no_idle_run = i.no_idle_run;
  }
  IsWellFormed-Step (settles s fs e) i = record {
    distinct = i.distinct;
    short_history = i.short_history;
    no_idle_run = λ n. e;
  }
  IsWellFormed-Step (starts s run e) i = record {
    distinct = i.distinct;
    short_history = i.short_history;
    no_idle_run = λ n. absurd (ground arith);
  }
  IsWellFormed-Step (records s act token) i = IsWellFormed-record_token s act token i
  IsWellFormed-Step (ensure_fails s name message) i =
      IsWellFormed-status_mutation s name (failed_once message) (λ a. refl) i
  IsWellFormed-Step (applies s name now) i =
      IsWellFormed-status_mutation s name (mark_applied now) (λ a. refl) i
  IsWellFormed-Step (holds s registry rc run now loop) i =
      IsWellFormed-reached s registry rc run now loop i
  IsWellFormed-Step (reverts s) i = record {
    distinct = i.distinct;
    short_history = i.short_history;
    no_idle_run = λ n. absurd (ground arith);
  }
  IsWellFormed-Step (revert_fails s fs aa attempts e) i =
      IsWellFormed-revert_error s fs aa attempts e i
  IsWellFormed-Step (revert_waits s name) i = record {
    distinct = AllDiffer-update_active name still_reverting s.active_actions (λ a. refl) i.distinct;
    short_history = i.short_history;
    no_idle_run = i.no_idle_run;
  }
  IsWellFormed-Step (drains s name) i = record {
    distinct = AllDiffer-remove_active name s.active_actions i.distinct;
    short_history = i.short_history;
    no_idle_run = i.no_idle_run;
  }
  IsWellFormed-Step (closes s fs run entry) i = record {
    distinct = i.distinct;
    short_history = short s.history entry;
    no_idle_run = λ n. refl;
  }
  IsWellFormed-Step (clears s e) i = record {
    distinct = i.distinct;
    short_history = i.short_history;
    no_idle_run = λ n. e;
  }
  IsWellFormed-Step (observes s g) i = record {
    distinct = i.distinct;
    short_history = i.short_history;
    no_idle_run = i.no_idle_run;
  }
  IsWellFormed-Step (stores s t alike) i = record {
    distinct = AllDiffer-IsAlike s t alike i.distinct;
    short_history = ground (arith, alike.history, i.short_history);
    no_idle_run =
        λ n. ran_none s.current_run t.current_run alike.run (i.no_idle_run (alike.phase ∙ n));
  }

  -- However the reconciler goes on from a well-formed status, each change on the status it was decided
  -- on, the status stays well-formed: no action has two records, the history has at most 10 entries,
  -- and an idle scenario has no run.
  pub IsWellFormed-Steps :
      {s t : MaintenanceJobStatus} → Steps s t → IsWellFormed s → IsWellFormed t
  IsWellFormed-Steps (stop s) i = i
  IsWellFormed-Steps (step s u t first rest) i = IsWellFormed-Steps rest (IsWellFormed-Step first i)
