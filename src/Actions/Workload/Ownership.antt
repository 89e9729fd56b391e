-- ===== src/Actions/Workload/Ownership.antt =====
-- When the revert of a Workload action is done (workload.go).
use rca_lab.Base.{◌≡◌, false, true, some, ◌==◌, arith, ◌⊎◌, inl, inr}
use rca_lab.Go.Json.{RawMessage}
use rca_lab.Cluster.Exec.{ok, err, is_not_found, Result-cases, Error}
use rca_lab.Cluster.Objects.{Job}
use rca_lab.Cluster.Env.{Env}
use rca_lab.Actions.Action.{RunContext, Progress}
use rca_lab.Actions.Workload.{revert, revert_workload, target, job_owner}
use rca_lab.Actions.Workload.Token.{WorkloadToken, unmarshal_token}

module _ (E : Env) where
  -- A revert reports done only where the job is not there or belongs to another owner.
  pub revert-gone :
      (rc : RunContext) (raw : RawMessage) (t : WorkloadToken) (w : E.World) (p : Progress)
      → unmarshal_token raw ≡ some t
      → (revert E rc raw w).0 ≡ ok p
      → p.done ≡ true
      → ((e : Error) × ((E.get_batch_job (target t) w).0 ≡ err e) × (is_not_found e ≡ true))
        ⊎ ((job : Job) × ((E.get_batch_job (target t) w).0 ≡ ok job)
            × ((job_owner job == rc.scenario_name) ≡ false))
  unfolding revert revert_workload
  revert-gone rc raw t w p h r d = elim (Result-cases (E.get_batch_job (target t) w).0) [
    | inl (job, g) ↦ inr (job, g, ground arith)
    | inr (e, g) ↦ inl (e, g, ground arith)
  ]
