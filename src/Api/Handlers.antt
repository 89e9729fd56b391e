-- ===== src/Api/Handlers.antt =====
-- The handlers (server.go), over the same client as the controller.
pub mod Requests
use rca_lab.Base.{
  ℕ, suc, ◌⊎◌, inl, inr, Bool, true, false, String, ◌<>◌, List, [], ◌∷◌, map, length, Option, none,
  some, if◌then◌else◌,
}
use rca_lab.Base.Int.{ℤ, pos, ltb_ℤ, ◌*ℤ◌}
use rca_lab.Go.Duration.{Duration, seconds, wrap64}
use rca_lab.Types.{MaintenanceJob, MaintenanceJobSpec, TriggerSpec}
use rca_lab.Cluster.Exec.{Error, Exec, Result, ok, err, pure, is_not_found, observe, ◌>>=◌, ◌>>◌}
use rca_lab.Cluster.Objects.{Key, key}
use rca_lab.Cluster.Env.{Env}
use rca_lab.Api.Summary.{ScenarioSummary, ScenarioDetail, summarize, detail, is_before}

abbrev pub default_run_duration : Duration
default_run_duration = seconds 900

-- The JSON that a handler writes.
pub data Body : Type 0 where
  scenarios : List ScenarioSummary → Body
  scenario : ScenarioDetail → Body
  done : String → Body
  running : String → Body
  reset : ℕ → Body
  failure : String → Body

pub record Response : Type 0 where
  pub status : ℕ
  pub body : Body

-- The body of a run request: none (a content length of 0), one that ends at once, one that is no
-- JSON for the request, or a number of seconds, 0 if it states none.
pub data RunBody : Type 0 where
  absent : RunBody
  eof : RunBody
  malformed : String → RunBody
  request : ℤ → RunBody

abbrev pub respond : ℕ → Body → Response
respond status body = record { status = status; body = body }

-- `writeClientError`
unfoldable pub client_error : Error → Response
client_error e =
    if is_not_found e
    then respond 404 (failure "scenario not found")
    else respond 500 (failure e.message)

-- The duration of a run request, or the refusal of its body. The product with a second wraps.
unfoldable pub requested_duration : RunBody → Duration ⊎ Response
unfolding ◌*ℤ◌
requested_duration absent = inl default_run_duration
requested_duration eof = inl default_run_duration
requested_duration (malformed text) = inr (respond 400 (failure ("invalid request body: " <> text)))
requested_duration (request n) =
    if ltb_ℤ n (pos 0)
    then inr (respond 400 (failure "durationSeconds must be >= 0"))
    else if ltb_ℤ (pos 0) n
    then inl (wrap64 (n *ℤ seconds 1))
    else inl default_run_duration

abbrev pub enable : MaintenanceJobSpec → MaintenanceJobSpec
enable spec = record spec { enabled = true }

abbrev pub disable : MaintenanceJobSpec → MaintenanceJobSpec
disable spec = record spec { enabled = false; trigger = none }

abbrev pub request_run : String → Duration → MaintenanceJobSpec → MaintenanceJobSpec
request_run run_id d spec = record spec {
  trigger = some (record { run_id = run_id; duration = some d });
}

module _ (E : Env) (namespace : String) where
  open E use {World, new_uuid, get_job, list_jobs, update_job, retry_on_conflict}

  -- A handler always answers, so its result is no `Result`.
  abbrev pub Handler : Type 0
  Handler = World → Response × World

  abbrev answer : Result MaintenanceJob → Body → Response
  answer (ok _) body = respond 200 body
  answer (err e) body = client_error e

  try_mutate : Key → (MaintenanceJobSpec → MaintenanceJobSpec) → Exec World MaintenanceJob
  try_mutate k change = do fs ← get_job k; update_job (record fs { spec = change fs.spec })

  unfoldable pub mutate :
      String → (MaintenanceJobSpec → MaintenanceJobSpec) → Exec World MaintenanceJob
  unfolding try_mutate
  mutate name change = retry_on_conflict (try_mutate (key namespace name) change)

  -- The sort of Go's library, by its order, is a parameter.
  unfoldable pub handle_list :
      ((ScenarioSummary → ScenarioSummary → Bool) → List ScenarioSummary → List ScenarioSummary)
      → Handler
  handle_list sort w =
      let (found, w') = list_jobs namespace w in
      elim found [
        | err e ↦ (respond 500 (failure e.message), w')
        | ok list ↦ (respond 200 (scenarios (sort is_before (map summarize list))), w')
      ]

  unfoldable pub handle_get : String → Handler
  handle_get name w =
      let (found, w') = get_job (key namespace name) w in
      elim found [ err e ↦ (client_error e, w') | ok fs ↦ (respond 200 (scenario (detail fs)), w') ]

  unfoldable pub handle_enable : String → Handler
  handle_enable name w = let (r, w') = mutate name enable w in (answer r (done "enabled"), w')

  unfoldable pub handle_disable : String → Handler
  handle_disable name w = let (r, w') = mutate name disable w in (answer r (done "disabled"), w')

  run_for : String → Duration → Handler
  run_for name d w =
      let (run_id, w') = new_uuid w in
      let (r, w'') = mutate name (request_run run_id d) w' in (answer r (running run_id), w'')

  unfoldable pub handle_run : String → RunBody → Handler
  unfolding run_for
  handle_run name body w = elim (requested_duration body) [
    | inl d ↦ run_for name d w
    | inr refusal ↦ (refusal, w)
  ]

  -- The first scenario that cannot be reset ends the loop.
  unfoldable pub reset_all : List MaintenanceJob → Exec World (Unit {0})
  reset_all [] = pure tt
  reset_all (fs ∷ rest) = mutate fs.name disable >>= λ _. reset_all rest

  unfoldable pub handle_reset : Handler
  handle_reset w =
      let (found, w') = list_jobs namespace w in
      elim found [
        | err e ↦ (respond 500 (failure e.message), w')
        | ok list ↦
            let (r, w'') = reset_all list w' in
            elim r [
              | err e ↦ (client_error e, w'')
              | ok _ ↦ (respond 200 (reset (length list)), w'')
            ]
      ]
