-- ===== src/Actions/Workload.antt =====
-- The Workload action (operator/internal/actions/workload.go).
pub mod Token
pub mod Ownership
use rca_lab.Base.{
  Bool, true, false, String, ◌<>◌, List, [], ◌∷◌, ◌++◌, Option, none, some, is_empty, ◌==◌,
  if◌then◌else◌,
}
use rca_lab.Base.Int.{ℤ, pos, ltb_ℤ, leb_ℤ}
use rca_lab.Base.Dict.{Dict, get}
use rca_lab.Base.Text.{quote, show_ℤ}
use rca_lab.Go.Duration.{Duration, second, seconds, minutes, add, show, whole_seconds}
use rca_lab.Go.Json.{RawMessage}
use rca_lab.Types.{ActionType, ActionSpec, WorkloadAction}
use rca_lab.Cluster.Exec.{
  Error, Exec, Result, ok, err, pure, fail, errorf, is_not_found, is_already_exists, observe,
}
use rca_lab.Cluster.Objects.{Key, key, Job, Resources, foreground}
use rca_lab.Cluster.Env.{Env}
use rca_lab.Actions.Action.{
  Action, RunContext, Progress, finished, pending, scenario_label, owner_reference,
}
use rca_lab.Actions.Workload.Token.{WorkloadToken, marshal, unmarshal_token}

abbrev pub default_concurrency : ℤ
default_concurrency = pos 2

abbrev pub default_interval : Duration
default_interval = second

abbrev pub default_deadline_margin : Duration
default_deadline_margin = minutes 5

abbrev pub unbounded_run_deadline : Duration
unbounded_run_deadline = minutes 1440

abbrev pub default_cpu_burn_image : String
default_cpu_burn_image = "busybox:1.36"

abbrev pub duration_or : Option Duration → Duration → Duration
duration_or none d = d
duration_or (some d) _ = d

abbrev pub job_owner : Job → String
job_owner job = get job.labels scenario_label

abbrev is_burn : WorkloadAction → Bool
is_burn wa = ltb_ℤ (pos 0) wa.cpu_burn

abbrev pub concurrency_of : WorkloadAction → ℤ
concurrency_of wa =
    if leb_ℤ wa.concurrency (pos 0)
    then (if is_burn wa then pos 1 else default_concurrency)
    else wa.concurrency

-- The run's length and a margin, or a day for a run without end.
abbrev pub deadline_of : RunContext → WorkloadAction → Duration
deadline_of rc wa =
    if ltb_ℤ (pos 0) rc.run_duration
    then add rc.run_duration (duration_or wa.deadline_margin default_deadline_margin)
    else unbounded_run_deadline

abbrev pub image_of : RunContext → WorkloadAction → String
image_of rc wa =
    if wa.image == ""
    then (if is_burn wa then default_cpu_burn_image else rc.operator_image)
    else wa.image

abbrev pub query_args : List String → List String
query_args [] = []
query_args (q ∷ qs) = "--query" ∷ q ∷ query_args qs

abbrev pub args_of : WorkloadAction → List String
args_of wa =
    if is_empty wa.command
    then if is_burn wa
      then "sh"
        ∷ "-c"
        ∷ ("for i in $(seq 1 " <> (show_ℤ wa.cpu_burn <> "); do while :; do :; done & done; wait"))
        ∷ []
      else "dbtool"
        ∷ "--engine"
        ∷ wa.engine
        ∷ "--interval"
        ∷ show (duration_or wa.interval default_interval)
        ∷ "--concurrency"
        ∷ "1"
        ∷ query_args wa.queries
    else wa.command

abbrev resources_of : WorkloadAction → Resources
resources_of wa =
    if is_burn wa
    then record {
      requests = ("cpu", "500m") ∷ ("memory", "64Mi") ∷ [];
      limits = ("memory", "128Mi") ∷ [];
    }
    else record {
      requests = ("cpu", "100m") ∷ ("memory", "128Mi") ∷ [];
      limits = ("cpu", "1") ∷ ("memory", "512Mi") ∷ [];
    }

abbrev pub job_labels : RunContext → String → Dict String
job_labels rc app = (scenario_label, rc.scenario_name) ∷ ("app", app) ∷ []

unfoldable pub build_job : RunContext → WorkloadAction → Job
build_job rc wa = record {
  name = wa.name;
  namespace = rc.namespace;
  labels = job_labels rc wa.name;
  owner = some (owner_reference rc);
  deleting = false;
  parallelism = concurrency_of wa;
  completions = none;
  backoff_limit = pos 100;
  active_deadline_seconds = whole_seconds (deadline_of rc wa);
  ttl_seconds_after_finished = pos 600;
  colocated_with = if wa.colocate_with_app == "" then none else some wa.colocate_with_app;
  template_labels = job_labels rc wa.name;
  restart_policy = "Never";
  container_name = wa.name;
  image = image_of rc wa;
  args = args_of wa;
  env = wa.env;
  resources = resources_of wa;
  succeeded = pos 0;
  failures = [];
}

abbrev pub target : WorkloadToken → Key
target t = key t.namespace t.name

abbrev config_missing : ActionSpec → Error
config_missing spec = errorf ("action " <> (quote spec.name <> ": workload config missing"))

module _ (E : Env) where
  open E use {World, get_batch_job, create_batch_job, delete_batch_job}

  plan_workload : RunContext → WorkloadAction → Exec World RawMessage
  plan_workload rc wa =
      let token : RawMessage =
        marshal (record { kind = "Job"; namespace = rc.namespace; name = wa.name }) in
      observe (get_batch_job (key rc.namespace wa.name)) (λ r. elim r [
        | ok existing ↦
            if job_owner existing == rc.scenario_name
            then pure token
            else fail (
                errorf (
                  "job "
                  <> (rc.namespace
                      <> ("/"
                          <> (wa.name
                              <> (" already exists and is not owned by scenario "
                                  <> (quote rc.scenario_name <> " (name conflict)")))))))
        | err e ↦ if is_not_found e then pure token else fail e
      ])

  unfoldable pub plan : RunContext → ActionSpec → Exec World RawMessage
  unfolding plan_workload
  plan rc spec = elim spec.workload [
    | none ↦ fail (config_missing spec)
    | some wa ↦ plan_workload rc wa
  ]

  -- The config is read only where a job has to be built; the code would panic on a missing one.
  create_workload : RunContext → ActionSpec → Exec World Progress
  create_workload rc spec = elim spec.workload [
    | none ↦ fail (errorf "panic: nil workload")
    | some wa ↦ observe (create_batch_job (build_job rc wa)) (λ r. elim r [
      | ok _ ↦ pure finished
      | err e ↦ if is_already_exists e then pure (pending (seconds 1)) else fail e
    ])
  ]

  ensure_workload : RunContext → ActionSpec → WorkloadToken → Exec World Progress
  unfolding create_workload
  ensure_workload rc spec t = observe (get_batch_job (target t)) (λ r. elim r [
    | ok existing ↦
        if job_owner existing == rc.scenario_name
        then pure finished
        else fail
            (errorf ("job " <> (t.namespace <> ("/" <> (t.name <> " exists but is not ours")))))
    | err e ↦ if is_not_found e then create_workload rc spec else fail e
  ])

  unfoldable pub ensure : RunContext → ActionSpec → RawMessage → Exec World Progress
  unfolding ensure_workload
  ensure rc spec token = elim (unmarshal_token token) [
    | none ↦ fail (errorf "invalid workload token")
    | some t ↦ ensure_workload rc spec t
  ]

  -- Deletes the job unless that is under way, and waits until it is gone.
  delete_workload : WorkloadToken → Job → Exec World Progress
  delete_workload t job =
      if job.deleting
      then pure (pending (seconds 2))
      else observe (delete_batch_job (target t) foreground) (λ r. elim r [
        | ok _ ↦ pure (pending (seconds 2))
        | err e ↦ if is_not_found e then pure (pending (seconds 2)) else fail e
      ])

  revert_workload : RunContext → WorkloadToken → Exec World Progress
  unfolding delete_workload
  revert_workload rc t = observe (get_batch_job (target t)) (λ r. elim r [
    | ok job ↦ if job_owner job == rc.scenario_name then delete_workload t job else pure finished
    | err e ↦ if is_not_found e then pure finished else fail e
  ])

  unfoldable pub revert : RunContext → RawMessage → Exec World Progress
  unfolding revert_workload
  revert rc token = elim (unmarshal_token token) [
    | none ↦ fail (errorf "invalid workload token")
    | some t ↦ revert_workload rc t
  ]

  abbrev pub workload_action : Action World
  workload_action = record {
    type = ActionType.workload;
    plan = plan;
    ensure = ensure;
    revert = revert;
  }
