-- ===== src/Actions/DbExec/Jobs.antt =====
-- The jobs of a DBExec action (dbexec.go `runJob`).
use rca_lab.Base.{◌≡◌, false, true, some, arith, inl, inr, String, eq_iff, List, is_empty}
use rca_lab.Base.Int.{pos, ltb_ℤ}
use rca_lab.Go.Json.{RawMessage}
use rca_lab.Types.{EnvVar}
use rca_lab.Cluster.Exec.{ok, Result-cases}
use rca_lab.Cluster.Objects.{Job, key}
use rca_lab.Cluster.Env.{Env}
use rca_lab.Actions.Action.{RunContext, Progress}
use rca_lab.Actions.Workload.{job_owner}
use rca_lab.Actions.DbExec.{run_job, revert}
use rca_lab.Actions.DbExec.Token.{DbExecToken, unmarshal_token}

-- A job that proves the SQL ran: the scenario's own, and succeeded.
abbrev pub Succeeded : RunContext → Job → Type 0
Succeeded rc job = (job_owner job ≡ rc.scenario_name) × (ltb_ℤ (pos 0) job.succeeded ≡ true)

module _ (E : Env) where
  run_job_lem :
      (rc : RunContext) (name engine : String) (env : List EnvVar) (queries : List String)
      (w : E.World) (p : Progress)
      → (run_job E rc name engine env queries w).0 ≡ ok p
      → p.done ≡ true
      → (job : Job) × ((E.get_batch_job (key rc.namespace name) w).0 ≡ ok job) × Succeeded rc job
  unfolding run_job
  run_job_lem rc name engine env queries w p r d =
      elim (Result-cases (E.get_batch_job (key rc.namespace name) w).0) [
        | inl (job, g) ↦
            (job, g, (ground (arith, eq_iff (job_owner job) rc.scenario_name), ground arith))
        | inr (e, g) ↦ absurd (ground arith)
      ]

  -- A revert with statements to run reports done only where the scenario's own revert job of that
  -- token is there and has succeeded.
  pub revert-Succeeded :
      (rc : RunContext) (raw : RawMessage) (t : DbExecToken) (w : E.World) (p : Progress)
      → unmarshal_token raw ≡ some t
      → is_empty t.revert ≡ false
      → (revert E rc raw w).0 ≡ ok p
      → p.done ≡ true
      → (job : Job) × ((E.get_batch_job (key rc.namespace t.revert_name) w).0 ≡ ok job)
        × Succeeded rc job
  unfolding revert
  revert-Succeeded rc raw t w p h some_left r d =
      run_job_lem rc t.revert_name t.engine t.env t.revert w p (ground arith) d
