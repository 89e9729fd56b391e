-- ===== src/Tests/Jobs.antt =====
-- Workload and DBExec actions in the sandbox, and names of objects.
use rca_lab.Base.{◌≡◌, refl, ◌⊎◌, [], ◌∷◌, none, some, false, true, ◌==◌}
use rca_lab.Base.Int.{pos}
use rca_lab.Base.Dict.{lookup}
use rca_lab.Go.Json.{RawMessage}
use rca_lab.Types.{ActionSpec, WorkloadAction}
use rca_lab.Cluster.Exec.{Error, ok, err, is_not_found}
use rca_lab.Cluster.Objects.{Job, key}
use rca_lab.Actions.Action.{finished}
use rca_lab.Actions.Workload.{build_job, job_owner, target, revert}
use rca_lab.Actions.Workload.Ownership.{revert-gone}
use rca_lab.Actions.Workload.Token.{WorkloadToken, marshal, unmarshal_token}
use rca_lab.Actions.DbExec.{run_job}
use rca_lab.Actions.DbExec as DbExec
use rca_lab.Actions.DbExec.Jobs.{Succeeded, revert-Succeeded}
use rca_lab.Actions.DbExec.Token.{DbExecToken}
use rca_lab.Actions.DbExec.Token as DbToken
use rca_lab.Actions.Names.{sanitize}
use rca_lab.Actions.Names.Valid.{IsLabel, sanitize-IsLabel}
use rca_lab.Tests.Sandbox.{Cluster, sandbox, empty_cluster, outage, blank_action, put}

abbrev load : WorkloadAction
load = record {
  name = "load";
  image = "";
  command = [];
  engine = "postgres";
  queries = "select 1" ∷ [];
  concurrency = pos 0;
  interval = none;
  env = [];
  deadline_margin = none;
  colocate_with_app = "";
  cpu_burn = pos 0;
}

abbrev loading : ActionSpec
loading = record blank_action { workload = some load }

abbrev raw : RawMessage
unfolding marshal
raw = marshal (record { kind = "Job"; namespace = "shop"; name = "load" })

-- A job of that name which someone else runs.
abbrev other_job : Job
unfolding build_job
other_job = record (build_job outage load) { labels = ("app", "load") ∷ [] }

abbrev taken : Cluster
taken = record empty_cluster {
  batch_at = put (key "shop" "load") (some other_job) empty_cluster.batch_at;
}

abbrev token : WorkloadToken
token = record { kind = "Job"; namespace = "shop"; name = "load" }

revert-gone_example :
    ((e : Error) × ((sandbox.get_batch_job (target token) taken).0 ≡ err e)
      × (is_not_found e ≡ true))
    ⊎ ((job : Job) × ((sandbox.get_batch_job (target token) taken).0 ≡ ok job)
        × ((job_owner job == "outage") ≡ false))
unfolding revert marshal unmarshal_token lookup other_job
revert-gone_example = revert-gone sandbox outage raw token taken finished refl refl refl

abbrev exec_token : DbExecToken
exec_token = record {
  namespace = "shop";
  engine = "postgres";
  ensure_name = "drop-index-0123abcd";
  revert_name = "drop-index-0123abcd-cleanup";
  env = [];
  revert = "create index i on t (c)" ∷ [];
}

abbrev exec_raw : RawMessage
exec_raw = DbToken.marshal exec_token

abbrev succeeded_job : Job
succeeded_job = record (build_job outage load) { succeeded = pos 1 }

abbrev restored : Cluster
restored = record empty_cluster {
  batch_at =
      put (key "shop" "drop-index-0123abcd-cleanup") (some succeeded_job) empty_cluster.batch_at;
}

revert-Succeeded_example :
    (job : Job) × ((sandbox.get_batch_job (key "shop" "drop-index-0123abcd-cleanup") restored).0
      ≡ ok job)
    × Succeeded outage job
unfolding DbExec.revert DbToken.marshal DbToken.unmarshal_token build_job lookup run_job
revert-Succeeded_example =
    revert-Succeeded sandbox outage exec_raw exec_token restored finished refl refl refl refl

sanitize-IsLabel_example : IsLabel (sanitize "MJ_foo bar--")
sanitize-IsLabel_example = sanitize-IsLabel "MJ_foo bar--"

unmarshal-marshal_example : DbToken.unmarshal_token (DbToken.marshal exec_token) ≡ some exec_token
unmarshal-marshal_example = DbToken.unmarshal-marshal exec_token
