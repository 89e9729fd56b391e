-- ===== src/Actions/DbExec.antt =====
-- The DBExec action (operator/internal/actions/dbexec.go).
pub mod Token
pub mod Jobs
use rca_lab.Base.{
  Bool, true, false, String, ◌<>◌, List, [], ◌∷◌, Option, none, some, is_empty, ◌==◌, if◌then◌else◌,
}
use rca_lab.Base.Int.{ℤ, pos, ltb_ℤ}
use rca_lab.Base.Dict.{get}
use rca_lab.Base.Text.{quote}
use rca_lab.Go.Duration.{Duration, seconds, minutes, whole_seconds}
use rca_lab.Go.Json.{RawMessage}
use rca_lab.Types.{ActionType, ActionSpec, DbExecAction, EnvVar}
use rca_lab.Cluster.Exec.{
  Error, Exec, Result, ok, err, pure, fail, errorf, is_not_found, is_already_exists, observe, ◌>>◌,
  ◌>>=◌,
}
use rca_lab.Cluster.Objects.{Key, key, Job, background}
use rca_lab.Cluster.Env.{Env}
use rca_lab.Actions.Action.{
  Action, RunContext, Progress, finished, pending, scenario_label, owner_reference,
}
use rca_lab.Actions.Names.{exec_job_names}
use rca_lab.Actions.Workload.{job_labels, job_owner, query_args}
use rca_lab.Actions.DbExec.Token.{DbExecToken, marshal, unmarshal_token}

abbrev pub exec_job_deadline : Duration
exec_job_deadline = minutes 20

unfoldable pub build_job : RunContext → String → String → List EnvVar → List String → Job
build_job rc name engine env queries = record {
  name = name;
  namespace = rc.namespace;
  labels = job_labels rc name;
  owner = some (owner_reference rc);
  deleting = false;
  parallelism = pos 1;
  completions = some (pos 1);
  backoff_limit = pos 4;
  active_deadline_seconds = whole_seconds exec_job_deadline;
  ttl_seconds_after_finished = pos 600;
  colocated_with = none;
  template_labels = job_labels rc name;
  restart_policy = "Never";
  container_name = name;
  image = rc.operator_image;
  args = "dbtool" ∷ "--engine" ∷ engine ∷ "--once" ∷ query_args queries;
  env = env;
  resources = record {
    requests = ("cpu", "50m") ∷ ("memory", "64Mi") ∷ [];
    limits = ("memory", "256Mi") ∷ [];
  };
  succeeded = pos 0;
  failures = [];
}

abbrev config_missing : ActionSpec → Error
config_missing spec = errorf ("action " <> (quote spec.name <> ": dbExec config missing"))

module _ (E : Env) where
  open E use {World, short_hash, get_batch_job, create_batch_job, delete_batch_job}

  -- One round of the loop that refuses a name which belongs to something else.
  check_name : RunContext → String → Exec World Unit
  check_name rc name = observe (get_batch_job (key rc.namespace name)) (λ r. elim r [
    | ok existing ↦
        if job_owner existing == rc.scenario_name
        then pure tt
        else fail (
            errorf (
              "job "
              <> (rc.namespace
                  <> ("/"
                      <> (name
                          <> (" already exists and is not owned by scenario "
                              <> (quote rc.scenario_name <> " (name conflict)")))))))
    | err e ↦ if is_not_found e then pure tt else fail e
  ])

  plan_exec : RunContext → DbExecAction → Exec World RawMessage
  unfolding check_name
  plan_exec rc da =
      let (ensure_name, revert_name) = exec_job_names da.name (short_hash rc.run_id) in
      do
        check_name rc ensure_name
        check_name rc revert_name
        pure (
            marshal (record {
              namespace = rc.namespace;
              engine = da.engine;
              ensure_name = ensure_name;
              revert_name = revert_name;
              env = da.env;
              revert = da.revert;
            }))

  unfoldable pub plan : RunContext → ActionSpec → Exec World RawMessage
  unfolding plan_exec
  plan rc spec = elim spec.db_exec [ none ↦ fail (config_missing spec) | some da ↦ plan_exec rc da ]

  exec_failed : String → String → Exec World Progress
  exec_failed name message = fail (errorf ("exec job " <> (name <> (" failed: " <> message))))

  -- A job that is there: done once it succeeded; a failed one is deleted, and the error stands.
  watch_job : RunContext → String → Job → Exec World Progress
  unfolding exec_failed
  watch_job rc name job =
      if job_owner job == rc.scenario_name
      then if ltb_ℤ (pos 0) job.succeeded then pure finished else elim job.failures [
        | [] ↦ pure (pending (seconds 2))
        | message ∷ _ ↦
            if job.deleting
            then exec_failed name message
            else observe (delete_batch_job (key rc.namespace name) background)
                (λ _. exec_failed name message)
      ]
      else fail (errorf ("job " <> (rc.namespace <> ("/" <> (name <> " exists but is not ours")))))

  create_job : RunContext → String → String → List EnvVar → List String → Exec World Progress
  create_job rc name engine env queries =
      observe (create_batch_job (build_job rc name engine env queries)) (λ r. elim r [
        | ok _ ↦ pure (pending (seconds 2))
        | err e ↦ if is_already_exists e then pure (pending (seconds 1)) else fail e
      ])

  unfoldable pub run_job :
      RunContext → String → String → List EnvVar → List String → Exec World Progress
  unfolding watch_job create_job
  run_job rc name engine env queries = observe (get_batch_job (key rc.namespace name)) (λ r.
      elim r [
        | ok job ↦ watch_job rc name job
        | err e ↦ if is_not_found e then create_job rc name engine env queries else fail e
      ])

  unfoldable pub ensure : RunContext → ActionSpec → RawMessage → Exec World Progress
  ensure rc spec token = elim spec.db_exec [
    | none ↦ fail (config_missing spec)
    | some da ↦ elim (unmarshal_token token) [
      | none ↦ fail (errorf "invalid dbexec token")
      | some t ↦ run_job rc t.ensure_name da.engine da.env da.ensure
    ]
  ]

  unfoldable pub revert : RunContext → RawMessage → Exec World Progress
  revert rc token = elim (unmarshal_token token) [
    | none ↦ fail (errorf "invalid dbexec token")
    | some t ↦
        if is_empty t.revert
        then pure finished
        else run_job rc t.revert_name t.engine t.env t.revert
  ]

  abbrev pub db_exec_action : Action World
  db_exec_action = record {
    type = ActionType.db_exec;
    plan = plan;
    ensure = ensure;
    revert = revert;
  }
