-- ===== src/Controller/Helpers.antt =====
-- The pure parts of the controller (operator/internal/controller/helpers.go).
pub mod Timing
pub mod Validation
pub mod Runs
pub mod History
use rca_lab.Base.{
  ℕ, zero, suc, ◌-◌, ◌*◌, ◌^◌, Bool, true, false, ◌&&◌, ◌||◌, not, String, ◌<>◌, List, [], ◌∷◌,
  ◌++◌, Option, none, some, is_some, is_empty, length, drop, any, ltb, ◌==◌, if◌then◌else◌,
}
use rca_lab.Base.Int.{ℤ, pos, ◌+ℤ◌, ltb_ℤ, leb_ℤ, ◌==ℤ◌, pos_part}
use rca_lab.Base.Text.{quote}
use rca_lab.Go.Duration.{Duration, seconds, wrap32}
use rca_lab.Types.{
  ActionType, workload, scale, deploy_image, chaos_mesh, db_exec, unknown, ActionSpec,
  MaintenanceJobSpec, MaintenanceJobStatus, MaintenanceJob, RunTrigger, manual, enabled,
  TriggerSpec, CurrentRun, ActiveAction, RunHistoryEntry, Condition, ConditionType,
}
use rca_lab.Cluster.Exec.{Result, ok, err, Error, errorf}
use rca_lab.Cluster.Env.{Env}
use rca_lab.Actions.Action.{Action}
use rca_lab.Actions.Registry.{get}

abbrev pub history_cap : ℕ
history_cap = 10

abbrev pub steady_state_resync : Duration
steady_state_resync = seconds 30

abbrev pub degraded_after_failures : ℤ
degraded_after_failures = pos 5

abbrev pub type_text : ActionType → String
type_text workload = "Workload"
type_text scale = "Scale"
type_text deploy_image = "DeployImage"
type_text chaos_mesh = "ChaosMesh"
type_text db_exec = "DBExec"
type_text (unknown t) = t

-- Which fields of an action are set, in the order of the types.
abbrev pub only : Bool → Bool → Bool → Bool → Bool → Bool
only own a b c d = own && (not a && (not b && (not c && not d)))

-- The case of an action's type: exactly its own field is set.
unfoldable pub shape_error : ActionSpec → Option String
shape_error a =
    let w = is_some a.workload in
    let s = is_some a.scale in
    let d = is_some a.deploy_image in
    let c = is_some a.chaos_mesh in
    let x = is_some a.db_exec in
    elim a.type [
      | workload ↦
          if only w s d c x
          then none
          else some ": type Workload requires exactly the workload field"
      | scale ↦
          if only s w d c x then none else some ": type Scale requires exactly the scale field"
      | deploy_image ↦
          if only d w s c x
          then none
          else some ": type DeployImage requires exactly the deployImage field"
      | chaos_mesh ↦
          if only c w s d x
          then none
          else some ": type ChaosMesh requires exactly the chaosMesh field"
      | db_exec ↦
          if only x w s d c then none else some ": type DBExec requires exactly the dbExec field"
      | unknown t ↦ some (": unknown type " <> quote t)
    ]

module _ {W : Type 0} (registry : List (Action W)) where
  -- One round of the loop of `validateSpec`; `seen` holds the names of the rounds before.
  unfoldable pub action_error : List String → ActionSpec → Option Error
  action_error seen a =
      if any (λ n. n == a.name) seen
      then some (errorf ("duplicate action name " <> quote a.name))
      else elim (shape_error a) [
        | some text ↦ some (errorf ("action " <> (quote a.name <> text)))
        | none ↦
            if is_some (get a.type registry)
            then none
            else some (
                errorf (
                  "action "
                  <> (quote a.name
                      <> (": no implementation registered for type " <> quote (type_text a.type)))))
      ]

  validate_actions : List String → List ActionSpec → Result (Unit {0})
  validate_actions seen [] = ok tt
  validate_actions seen (a ∷ rest) =
      let more = validate_actions (a.name ∷ seen) rest in
      elim (action_error seen a) [ some e ↦ err e | none ↦ more ]

  unfoldable pub validate_spec : MaintenanceJobSpec → Result (Unit {0})
  unfolding validate_actions
  validate_spec spec =
      if is_empty spec.actions
      then err (errorf "spec.actions must contain at least one action")
      else validate_actions [] spec.actions

-- A run that the spec asks for.
pub record Wanted : Type 0 where
  pub trigger : RunTrigger
  pub run_id : String
  pub duration : Duration

abbrev duration_or_zero : Option Duration → Duration
duration_or_zero none = pos 0
duration_or_zero (some d) = d

-- The manual run of a trigger, if its id is new.
unfoldable pub triggered_run : MaintenanceJob → TriggerSpec → Option Wanted
triggered_run fs t =
    if not (t.run_id == "") && not (t.run_id == fs.status.last_completed_run_id)
    then some (record {
      trigger = manual;
      run_id = t.run_id;
      duration = elim t.duration [ none ↦ duration_or_zero fs.spec.duration | some d ↦ d ];
    })
    else none

-- `desiredRun`; `uuid` is what `uuid.NewString()` returns.
unfoldable pub desired_run : MaintenanceJob → String → Option Wanted
desired_run fs uuid =
    if fs.spec.enabled
    then some
        (record { trigger = enabled; run_id = uuid; duration = duration_or_zero fs.spec.duration })
    else elim fs.spec.trigger [ none ↦ none | some t ↦ triggered_run fs t ]

unfoldable pub run_still_wanted : MaintenanceJob → CurrentRun → Bool
run_still_wanted fs run = elim run.trigger [
  | enabled ↦ fs.spec.enabled
  | manual ↦ elim fs.spec.trigger [ none ↦ false | some t ↦ t.run_id == run.id ]
]

-- `findActiveAction` with the element at the index; `none` stands for -1.
unfoldable pub find_active_action : List ActiveAction → String → Option ActiveAction
find_active_action [] name = none
find_active_action (a ∷ list) name = if a.name == name then some a else find_active_action list name

-- A change of the element at that index, and its removal.
unfoldable pub update_active :
    String → (ActiveAction → ActiveAction) → List ActiveAction → List ActiveAction
update_active name f [] = []
update_active name f (a ∷ list) =
    if a.name == name then f a ∷ list else a ∷ update_active name f list

unfoldable pub remove_active : String → List ActiveAction → List ActiveAction
remove_active name [] = []
remove_active name (a ∷ list) = if a.name == name then list else a ∷ remove_active name list

unfoldable pub status_mutation :
    String → (ActiveAction → ActiveAction) → MaintenanceJobStatus → MaintenanceJobStatus
status_mutation name f s = record s { active_actions = update_active name f s.active_actions }

unfoldable pub append_history : List RunHistoryEntry → RunHistoryEntry → List RunHistoryEntry
append_history history entry =
    let longer = history ++ entry ∷ [] in
    if ltb history_cap (length longer) then drop (length longer - history_cap) longer else longer

-- `lowerRequeue`: the new value of `*cur`.
unfoldable pub lower_requeue : Duration → Duration → Duration
lower_requeue cur d =
    if leb_ℤ d (pos 0) then cur else if cur ==ℤ pos 0 || ltb_ℤ d cur then d else cur

unfoldable pub backoff_for : ℤ → Duration
backoff_for attempts =
    let low : ℤ = if ltb_ℤ attempts (pos 1) then pos 1 else attempts in
    let n : ℤ = if ltb_ℤ (pos 5) low then pos 5 else low in
    let shifted = seconds (2 ^ (pos_part n - 1)) in
    if ltb_ℤ shifted (seconds 30) then shifted else seconds 30

-- `a.Attempts++` on an int32.
abbrev pub one_more : ℤ → ℤ
one_more n = wrap32 (n +ℤ pos 1)

module _ (E : Env) where
  abbrev pub set_condition :
      ℤ → ConditionType → Bool → String → String → MaintenanceJobStatus → MaintenanceJobStatus
  set_condition generation type status reason message s = record s {
    conditions =
        E.set_status_condition
          (record {
            type = type;
            status = status;
            reason = reason;
            message = message;
            observed_generation = generation;
          })
          s.conditions;
  }
