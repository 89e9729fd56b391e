-- ===== src/Tests/Sandbox.antt =====
-- A cluster held in functions from keys to objects, whose calls never fail but for a missing object.
use rca_lab.Base.{
  ℕ, suc, ◌≡◌, ◌≢◌, refl, Bool, true, false, ◌&&◌, [], ◌∷◌, Option, none, some, ◌==◌, eq_iff, arith,
  if◌then◌else◌,
}
use rca_lab.Base.Int.{pos, pos_part, neg_part, sub_ℕ}
use rca_lab.Go.Duration.{Time}
use rca_lab.Go.Json.{null}
use rca_lab.Types.{
  MaintenanceJob, MaintenanceJobStatus, CurrentRun, ActiveAction, ActionSpec, ScaleAction, manual,
  idle, recorded, scale,
}
use rca_lab.Actions.Action.{RunContext}
use rca_lab.Cluster.Exec.{Error, Result, ok, err, not_found}
use rca_lab.Cluster.Objects.{Key, key, job_key, Deployment, Job}
use rca_lab.Cluster.Env.{Env}
use rca_lab.Cluster.Laws.{seen, managed_of, DeploymentLaws, JobLaws, last}

pub record Cluster : Type 0 where
  pub time : Time
  pub ids : ℕ
  pub job_at : Key → Option MaintenanceJob
  pub deployment_at : Key → Option Deployment
  pub batch_at : Key → Option Job
  -- whether an action was ensured without a record in the status
  pub rogue : Bool

abbrev pub same_key : Key → Key → Bool
same_key k j = k.namespace == j.namespace && k.name == j.name

same_key_refl : (k : Key) → same_key k k ≡ true
same_key_refl k = ground (arith, eq_iff k.namespace k.namespace, eq_iff k.name k.name)

same_key_eq : (k j : Key) → same_key k j ≡ true → k ≡ j
same_key_eq k j h =
    let a : k.namespace ≡ j.namespace = ground (arith, eq_iff k.namespace j.namespace) in
    let b : k.name ≡ j.name = ground (arith, eq_iff k.name j.name) in
    λ i. record { namespace = a i; name = b i }

abbrev pub put {ℓ} : {A : Type ℓ} → Key → Option A → (Key → Option A) → Key → Option A
put k a m j = if same_key k j then a else m j

abbrev pub missing : Error
missing = record { kind = not_found; message = "not found" }

abbrev pub found : {A : Type 0} → Option A → Result A
found none = err missing
found (some a) = ok a

-- The objects lie under their own keys; anything else is missing.
abbrev pub found_job : Key → Option MaintenanceJob → Result MaintenanceJob
found_job k none = err missing
found_job k (some fs) = if same_key (job_key fs) k then ok fs else err missing

-- A patch makes a new generation.
abbrev pub patched : Deployment → Deployment
patched d = record d { generation = sub_ℕ (suc (pos_part d.generation)) (neg_part d.generation) }

abbrev pub sandbox : Env
sandbox = record {
  World = Cluster;
  now = λ w. (w.time, w);
  timestamp = λ t. "now";
  new_uuid = λ w. ("id", record w { ids = suc w.ids });
  short_hash = λ s. "0123abcd";
  get_job = λ k w. (found_job k (w.job_at k), w);
  list_jobs = λ ns w. (ok [], w);
  update_job = λ fs w. (ok fs, record w { job_at = put (job_key fs) (some fs) w.job_at });
  update_status = λ fs w. (ok fs, record w { job_at = put (job_key fs) (some fs) w.job_at });
  retry_on_conflict = λ m. m;
  retry_config_map = λ m. m;
  record_event = λ fs b reason message w. w;
  get_deployment = λ k w. (found (w.deployment_at k), w);
  patch_deployment =
      λ k d d' w. (ok tt, record w { deployment_at = put k (some (patched d')) w.deployment_at });
  list_deployments = λ ns label w. (ok [], w);
  delete_deployment = λ k p w. (ok tt, record w { deployment_at = put k none w.deployment_at });
  get_batch_job = λ k w. (found (w.batch_at k), w);
  create_batch_job = λ job w.
      (ok tt, record w { batch_at = put (key job.namespace job.name) (some job) w.batch_at });
  list_batch_jobs = λ ns label w. (ok [], w);
  delete_batch_job = λ k p w. (ok tt, record w { batch_at = put k none w.batch_at });
  get_chaos = λ kind k w. (err missing, w);
  create_chaos = λ c w. (ok tt, w);
  delete_chaos = λ kind k p w. (ok tt, w);
  get_config_map = λ k w. (err missing, w);
  create_config_map = λ cm w. (ok cm, w);
  update_config_map = λ cm w. (ok cm, w);
  contains_finalizer = λ f fs. true;
  add_finalizer = λ f fs. fs;
  remove_finalizer = λ f fs. [];
  set_status_condition = λ c cs. c ∷ cs;
  remove_status_condition = λ t cs. [];
  is_status_condition_true = λ t cs. false;
}

pub put-at : {A : Type 0} (k : Key) (a : Option A) (m : Key → Option A) → put k a m k ≡ a
put-at k a m = rw (same_key_refl k) refl

pub put-other :
    {A : Type 0} (k j : Key) (a : Option A) (m : Key → Option A) → k ≢ j → put k a m j ≡ m j
put-other k j a m d = ground (arith, same_key_eq k j)

pub found-seen : (k : Key) (w : Cluster) → (o : Option Deployment) → seen (found o) o ≡ o
found-seen k w none = refl
found-seen k w (some d) = refl

abbrev pub deployment_laws : DeploymentLaws sandbox
deployment_laws = record {
  at = λ w. w.deployment_at;
  read = λ k w. found-seen k w (w.deployment_at k);
  get_keeps = λ k w. refl;
  get_job_keeps = λ k w. refl;
  now_keeps = λ w. refl;
  wrote = λ k d d' w. managed_of (patched d');
  patch_at = λ k d d' w h e. put-at k (some (patched d')) w.deployment_at;
  patch_ne = λ k j d d' w n. put-other k j (some (patched d')) w.deployment_at n;
}

pub found_job-key :
    (k : Key) (o : Option MaintenanceJob) (fs : MaintenanceJob)
    → found_job k o ≡ ok fs
    → job_key fs ≡ k
found_job-key k none fs h = absurd (ground arith)
found_job-key k (some x) fs h = ground (arith, same_key_eq (job_key x) k)

pub returned : (fs fs' : MaintenanceJob) → ok fs ≡ ok fs' → fs ≡ fs'
returned fs fs' h = ground arith

abbrev pub job_laws : JobLaws sandbox
job_laws = record {
  at = λ w. w.job_at;
  get_key = λ k w fs h. found_job-key k (w.job_at k) fs h;
  get_keeps = λ k w. refl;
  now_keeps = λ w. refl;
  event_keeps = λ fs b reason message w. refl;
  update_at = λ fs fs' w h. rw⁻¹ (returned fs fs' h) (put-at (job_key fs) (some fs) w.job_at);
  update_key = λ fs fs' w h. rw⁻¹ (returned fs fs' h) (refl, refl);
  retry = λ m w. last w;
}

abbrev pub empty_cluster : Cluster
empty_cluster = record {
  time = pos 1_000_000_000_000;
  ids = 0;
  job_at = λ k. none;
  deployment_at = λ k. none;
  batch_at = λ k. none;
  rogue = false;
}

-- A Deployment with one container, nothing set on it.
abbrev pub cart : Deployment
cart = record {
  name = "cart";
  annotations = [];
  labels = ("app", "cart") ∷ [];
  replicas = some (pos 3);
  containers =
      record { name = "sidecar"; image = "proxy:2" }
      ∷ record { name = "cart"; image = "cart:1.0" }
      ∷ [];
  generation = pos 4;
  created = pos 0;
  observed_generation = pos 4;
  updated_replicas = pos 3;
  available_replicas = pos 3;
  status_replicas = pos 3;
  progressing = [];
}

abbrev pub with_deployment : Deployment → Cluster
with_deployment d = record empty_cluster {
  deployment_at = put (key "shop" "cart") (some d) empty_cluster.deployment_at;
}

abbrev pub outage : RunContext
outage = record {
  scenario_name = "outage";
  scenario_uid = "u1";
  namespace = "shop";
  run_id = "r1";
  run_duration = pos 900_000_000_000;
  operator_image = "operator:1";
}

abbrev pub blank_action : ActionSpec
blank_action = record {
  name = "first";
  type = scale;
  delay = none;
  workload = none;
  scale = none;
  deploy_image = none;
  chaos_mesh = none;
  db_exec = none;
}

abbrev pub scale_down : ScaleAction
scale_down = record { target_ref = record { kind = "Deployment"; name = "cart" }; replicas = pos 0 }

abbrev pub scaling : ActionSpec
scaling = record blank_action { scale = some scale_down }

abbrev pub idle_status : MaintenanceJobStatus
idle_status = record {
  phase = idle;
  current_run = none;
  active_actions = [];
  last_completed_run_id = "";
  history = [];
  conditions = [];
  observed_generation = pos 0;
}

abbrev pub first_run : CurrentRun
first_run = record {
  id = "r1";
  trigger = manual;
  started_at = pos 999_000_000_000;
  expires_at = none;
}

abbrev pub scenario : MaintenanceJob
scenario = record {
  name = "outage";
  namespace = "shop";
  uid = "u1";
  generation = pos 1;
  deleting = false;
  finalizers = [];
  annotations = [];
  spec = record {
    display_name = "Outage";
    description = "";
    category = "";
    icon = "";
    expected_symptoms = [];
    enabled = false;
    trigger = some (record { run_id = "r1"; duration = none });
    duration = some (pos 900_000_000_000);
    actions = scaling ∷ [];
  };
  status = idle_status;
}

-- The record of the first action, with an empty token.
abbrev pub first_record : ActiveAction
first_record = record {
  name = "first";
  type = scale;
  phase = recorded;
  applied_at = none;
  attempts = pos 0;
  last_error = "";
  revert = some null;
}

abbrev pub with_job : MaintenanceJob → Cluster
with_job fs = record empty_cluster { job_at = put (job_key fs) (some fs) empty_cluster.job_at }
