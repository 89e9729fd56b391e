-- ===== src/Api/Summary.antt =====
-- The projections of a MaintenanceJob that the API serves (server.go), and the order of the list.
use Prim.Native.Nat.{Ordering}
use Prim.Native.String.{compare}
use rca_lab.Base.{Bool, true, false, String, List, Option, none, some}
use rca_lab.Go.Duration.{show}
use rca_lab.Types.{
  Phase, unset, idle, MaintenanceJob, CurrentRun, ActionSpec, ActiveAction, RunHistoryEntry,
  Condition,
}

pub record ScenarioSummary : Type 0 where
  pub name : String
  pub display_name : String
  pub description : String
  pub category : String
  pub icon : String
  pub expected_symptoms : List String
  pub enabled : Bool
  pub phase : Phase
  pub current_run : Option CurrentRun
  pub last_completed_run_id : String

pub record ScenarioDetail : Type 0 where
  pub summary : ScenarioSummary
  pub duration : String
  pub actions : List ActionSpec
  pub active_actions : List ActiveAction
  pub history : List RunHistoryEntry
  pub conditions : List Condition

abbrev pub phase_or_idle : Phase → Phase
phase_or_idle unset = idle
phase_or_idle p = p

unfoldable pub summarize : MaintenanceJob → ScenarioSummary
summarize fs = record {
  name = fs.name;
  display_name = fs.spec.display_name;
  description = fs.spec.description;
  category = fs.spec.category;
  icon = fs.spec.icon;
  expected_symptoms = fs.spec.expected_symptoms;
  enabled = fs.spec.enabled;
  phase = phase_or_idle fs.status.phase;
  current_run = fs.status.current_run;
  last_completed_run_id = fs.status.last_completed_run_id;
}

unfoldable pub detail : MaintenanceJob → ScenarioDetail
unfolding summarize
detail fs = record {
  summary = summarize fs;
  duration = elim fs.spec.duration [ none ↦ "" | some d ↦ show d ];
  actions = fs.spec.actions;
  active_actions = fs.status.active_actions;
  history = fs.status.history;
  conditions = fs.status.conditions;
}

-- `items[i].Name < items[j].Name`
abbrev pub is_before : ScenarioSummary → ScenarioSummary → Bool
is_before a b = elim (compare a.name b.name) [ Ordering.lt ↦ true | _ ↦ false ]
