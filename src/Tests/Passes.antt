-- ===== src/Tests/Passes.antt =====
-- Passes of the controller in the sandbox, with actions that tell on it.
use rca_lab.Base.{
  ℕ, ◌==ℕ◌, ◌≡◌, ◌≢◌, refl, ap, ◌∙◌, sym, [], ◌∷◌, Option, none, some, false, true, not, ◌||◌,
  arith, String, Bool, is_some,
}
use rca_lab.Base.Int.{pos}
use rca_lab.Base.Dict.{lookup}
use rca_lab.Go.Json.{RawMessage, null}
use rca_lab.Go.Duration.{seconds}
use rca_lab.Types.{ActionType, scale, MaintenanceJob, ActiveAction}
use rca_lab.Cluster.Exec.{ok, err, errorf}
use rca_lab.Cluster.Objects.{Key, key, job_key, Job}
use rca_lab.Cluster.Env.{Env}
use rca_lab.Cluster.Laws.{tokens, JobLaws}
use rca_lab.Actions.Action.{Action, RunContext, finished, pending, scenario_label}
use rca_lab.Actions.Registry.{get, register, registry}
use rca_lab.Actions.Scale.{revert, scale_action}
use rca_lab.Actions.Scale.Token.{marshal, unmarshal_token}
use rca_lab.Controller.Helpers.{find_active_action}
use rca_lab.Controller.Status.{Reconciler}
use rca_lab.Controller.Status.Keeps.{Kept}
use rca_lab.Controller.Activate.{reconcile_activate}
use rca_lab.Controller.Activate.WriteAhead.{Guarded, reconcile_activate_lem}
use rca_lab.Controller.Revert.{reconcile_revert}
use rca_lab.Controller.Revert.Tokens.{Stores, IsUndone, is_done, reconcile_revert_lem}
use rca_lab.Controller.Delete.{reconcile_delete}
use rca_lab.Controller.Delete.Release.{reconcile_delete_lem}
use rca_lab.Controller.Sweeper.{is_orphan, start}
use rca_lab.Controller.Sweeper.Orphans.{Spared, start_lem}
use rca_lab.Tests.Sandbox.{
  Cluster, sandbox, job_laws, put, put-at, scenario, first_run, first_record, with_job, found_job,
}

abbrev home : Key
home = key "shop" "outage"

abbrev operator : Reconciler
operator = record { operator_image = "operator:1"; namespace = "ops" }

abbrev is_recorded : String → Option MaintenanceJob → Bool
is_recorded name none = false
is_recorded name (some fs) = is_some (find_active_action fs.status.active_actions name)

-- Its ensure tells whether it came without a record, and its revert always asks to wait.
abbrev probe : Action Cluster
probe = record {
  type = scale;
  plan = λ rc act w. (ok (some null), w);
  ensure = λ rc act token w.
      (ok finished, record w { rogue = w.rogue || not (is_recorded act.name (w.job_at home)) });
  revert = λ rc token w. (ok (pending (seconds 2)), w);
}

abbrev Honest : Cluster → Type 0
Honest w = w.rogue ≡ false

kept : Kept sandbox job_laws home Honest
kept = record {
  by_get = λ w i. i;
  by_update = λ fs w e i. i;
  by_now = λ w i. i;
  by_event = λ fs b reason message w i. i;
}

recorded_lem :
    (name : String) (o : Option MaintenanceJob) (fs : MaintenanceJob) (aa : ActiveAction)
    → o ≡ some fs
    → find_active_action fs.status.active_actions name ≡ some aa
    → is_recorded name o ≡ true
recorded_lem name o fs aa e h = ground arith

probe-Guarded : Guarded sandbox job_laws home Honest probe
probe-Guarded = record {
  plan_at = λ rc act w. refl;
  plan_keeps = λ rc act w i. i;
  ensure_at = λ rc act token w. refl;
  ensure_keeps =
      λ rc act token w i p. ground (arith, recorded_lem act.name (w.job_at home) p.0 p.1 p.2 p.3);
}

only_probe :
    (t : ActionType) (impl : Action Cluster) → get t (probe ∷ []) ≡ some impl → probe ≡ impl
unfolding get
only_probe t impl h = ground arith

guarded :
    (t : ActionType) (impl : Action Cluster)
    → get t (probe ∷ []) ≡ some impl
    → Guarded sandbox job_laws home Honest impl
guarded t impl h = rw⁻¹ (only_probe t impl h) probe-Guarded

abbrev running : MaintenanceJob
running = record scenario { status = record scenario.status { current_run = some first_run } }

reconcile_activate_lem_example :
    Honest (reconcile_activate sandbox (probe ∷ []) operator running first_run (with_job running)).1
reconcile_activate_lem_example =
    reconcile_activate_lem sandbox job_laws (probe ∷ []) operator running first_run Honest
      (with_job running) kept guarded refl refl

-- A sandbox that cannot read Deployments, and the program's own actions over it.
abbrev down : Env
down = record sandbox { get_deployment = λ k w. (err (errorf "etcd timeout"), w) }

down_laws : JobLaws down
down_laws = record {
  at = job_laws.at;
  get_key = job_laws.get_key;
  get_keeps = job_laws.get_keeps;
  now_keeps = job_laws.now_keeps;
  event_keeps = job_laws.event_keeps;
  update_at = job_laws.update_at;
  update_key = job_laws.update_key;
  retry = job_laws.retry;
}

abbrev scale_raw : RawMessage
unfolding marshal
scale_raw =
    marshal
      (record { kind = "Deployment"; namespace = "shop"; name = "cart"; previous_replicas = pos 3 })

-- A scenario with its Scale action applied, whose revert has to wait for the API server.
abbrev draining : MaintenanceJob
draining = record scenario {
  status = record scenario.status {
    active_actions = record first_record { revert = scale_raw } ∷ [];
  };
}

abbrev HasRecord : Cluster → Type 0
HasRecord w =
    (fs : MaintenanceJob) × (w.job_at home ≡ some fs)
    × (tokens fs.status.active_actions ≡ tokens draining.status.active_actions)

read_lem :
    (o : Option MaintenanceJob) (stored fs : MaintenanceJob)
    → o ≡ some stored
    → found_job home o ≡ ok fs
    → stored ≡ fs
read_lem o stored fs e h = ground arith

stored_at :
    (fs : MaintenanceJob) (k : Key) (m : Key → Option MaintenanceJob)
    → job_key fs ≡ k
    → put (job_key fs) (some fs) m k ≡ some fs
stored_at fs k m e =
    ap (λ j. put (job_key fs) (some fs) m j) (sym e) ∙ put-at (job_key fs) (some fs) m

stores : Stores down down_laws home (tokens draining.status.active_actions) HasRecord
stores = record {
  by_get = λ w i. i;
  read = λ w fs i h. rw⁻¹ (read_lem (w.job_at home) i.0 fs i.1 h) (i.2);
  by_update = λ fs w e t i. (fs, stored_at fs home w.job_at e, t);
  by_event = λ fs b reason message w i. i;
}

registered :
    (impl : Action Cluster) → get scale (registry down) ≡ some impl → scale_action down ≡ impl
unfolding get registry register
registered impl h = ground arith

scale_waits :
    (rc : RunContext) (w : Cluster)
    → HasRecord w
    → HasRecord (revert down rc scale_raw w).1 × (is_done (revert down rc scale_raw w).0 ≡ false)
unfolding revert unmarshal_token marshal lookup
scale_waits rc w i = (i, refl)

waiting : IsUndone down (registry down) HasRecord ("first", scale, scale_raw)
waiting impl rc w h i = rw⁻¹ (registered impl h) (scale_waits rc w i)

some_left : draining.status.active_actions ≢ []
some_left h = absurd (ground arith)

reconcile_revert_lem_example :
    HasRecord
      (reconcile_revert down (registry down) operator draining none false (with_job draining)).1
reconcile_revert_lem_example =
    reconcile_revert_lem down down_laws (registry down) operator draining none false HasRecord
      (with_job draining) stores waiting some_left (draining, refl, refl)

abbrev deleted : MaintenanceJob
deleted = record draining { deleting = true; finalizers = "maintenance.platform.dev/cleanup" ∷ [] }

reconcile_delete_lem_example :
    HasRecord (reconcile_delete down (registry down) operator deleted (with_job deleted)).1
unfolding lookup
reconcile_delete_lem_example =
    reconcile_delete_lem down down_laws (registry down) operator deleted HasRecord
      (with_job deleted) stores waiting some_left refl (deleted, refl, refl)

-- A sandbox that keeps what the last lookup of a scenario told, and tells whether a job was deleted
-- against it. Its one labelled job belongs to a scenario that is running.
abbrev owned_job : Job
owned_job = record {
  name = "load";
  namespace = "shop";
  labels = (scenario_label, "outage") ∷ [];
  owner = none;
  deleting = false;
  parallelism = pos 1;
  completions = none;
  backoff_limit = pos 0;
  active_deadline_seconds = pos 0;
  ttl_seconds_after_finished = pos 0;
  colocated_with = none;
  template_labels = [];
  restart_policy = "Never";
  container_name = "load";
  image = "operator:1";
  args = [];
  env = [];
  resources = record { requests = []; limits = [] };
  succeeded = pos 0;
  failures = [];
}

abbrev number : Bool → ℕ
number true = 1
number false = 0

abbrev swept : Env
swept = record sandbox {
  get_job = λ k w.
      (found_job k (w.job_at k), record w { ids = number (is_orphan (found_job k (w.job_at k))) });
  list_batch_jobs = λ ns label w. (ok (owned_job ∷ []), w);
  delete_batch_job = λ k p w. (ok tt, record w { rogue = w.rogue || not (w.ids ==ℕ 1) });
  delete_deployment = λ k p w. (ok tt, record w { rogue = w.rogue || not (w.ids ==ℕ 1) });
}

spared : Spared swept "shop" Honest
spared = record {
  by_get = λ k w i. i;
  by_list_jobs = λ w i. i;
  by_list_deployments = λ w i. i;
  by_delete_job = λ job w i h. ground arith;
  by_delete_deployment = λ dep w i h. ground arith;
}

start_lem_example : Honest (start swept "shop" (with_job running)).1
start_lem_example = start_lem swept "shop" Honest (with_job running) spared refl
