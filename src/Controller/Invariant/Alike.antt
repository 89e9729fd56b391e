-- ===== src/Controller/Invariant/Alike.antt =====
-- What the API server keeps of a status that it stores: it cuts the times to whole seconds, and all
-- else stays (maintenancejob_types.go).
use rca_lab.Base.{◌≡◌, ◌≢◌, sym, String, List, [], ◌∷◌, All, length, Option, none, some}
use rca_lab.Types.{MaintenanceJobStatus, CurrentRun, ActiveAction}
use rca_lab.Cluster.Laws.{Entry, tokens}
use rca_lab.Controller.Delete.Release.{AllDiffer}

abbrev pub run_id : Option CurrentRun → Option String
run_id none = none
run_id (some run) = some run.id

pub record IsAlike (s t : MaintenanceJobStatus) : Type 0 where
  pub phase : s.phase ≡ t.phase
  pub run : run_id s.current_run ≡ run_id t.current_run
  pub actions : tokens s.active_actions ≡ tokens t.active_actions
  pub last_run : s.last_completed_run_id ≡ t.last_completed_run_id
  pub history : length s.history ≡ length t.history

abbrev Apart : List Entry → Type 0
Apart [] = Unit
Apart (p ∷ rest) = All (λ q. p.0 ≢ q.0) rest × Apart rest

All-tokens :
    (name : String) (list : List ActiveAction)
    → All (λ a. name ≢ a.name) list
    → All (λ (q : Entry). name ≢ q.0) (tokens list)
All-tokens name [] h = tt
All-tokens name (a ∷ list) (d, h) = (d, All-tokens name list h)

tokens-All :
    (name : String) (list : List ActiveAction)
    → All (λ (q : Entry). name ≢ q.0) (tokens list)
    → All (λ a. name ≢ a.name) list
tokens-All name [] h = tt
tokens-All name (a ∷ list) (d, h) = (d, tokens-All name list h)

Apart-tokens : (list : List ActiveAction) → AllDiffer list → Apart (tokens list)
Apart-tokens [] h = tt
Apart-tokens (a ∷ list) (d, h) = (All-tokens a.name list d, Apart-tokens list h)

tokens-Apart : (list : List ActiveAction) → Apart (tokens list) → AllDiffer list
tokens-Apart [] h = tt
tokens-Apart (a ∷ list) (d, h) = (tokens-All a.name list d, tokens-Apart list h)

pub AllDiffer-IsAlike :
    (s t : MaintenanceJobStatus)
    → IsAlike s t
    → AllDiffer s.active_actions
    → AllDiffer t.active_actions
AllDiffer-IsAlike s t alike h =
    tokens-Apart t.active_actions (rw (sym alike.actions) (Apart-tokens s.active_actions h))
