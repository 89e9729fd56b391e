-- ===== src/Tests/Refinement.antt =====
-- A pass of the reconciler in the sandbox, whose other writes leave the status as it is.
use rca_lab.Base.{
  Bool-cases, inl, inr, true, ◌&&◌, ◌==◌, String, ◌≢◌, eq_iff, if◌then◌else◌, ◌≡◌, refl, sym, ap,
  ◌∙◌, arith, [], ◌∷◌, Option, none, some,
}
use rca_lab.Base.Int.{pos}
use rca_lab.Types.{
  ActiveAction, MaintenanceJob, MaintenanceJobStatus, ActionType, scale, activating, manual,
}
use rca_lab.Cluster.Exec.{is_ok, ok}
use rca_lab.Cluster.Objects.{Key, key, job_key, Deployment}
use rca_lab.Cluster.Env.{Env}
use rca_lab.Cluster.Laws.{last, tokens}
use rca_lab.Go.Duration.{seconds}
use rca_lab.Go.Json.{null, RawMessage}
use rca_lab.Actions.Action.{Action, RunContext, finished, pending}
use rca_lab.Actions.Registry.{get, register, registry}
use rca_lab.Actions.Holder.{is_foreign}
use rca_lab.Actions.Scale.{target, holder, has_replicas, revert, scale_action}
use rca_lab.Actions.Scale.Token.{ScaleToken, marshal, unmarshal_token, unmarshal-marshal}
use rca_lab.Controller.Helpers.{
  validate_spec, action_error, shape_error, desired_run, triggered_run,
}
use rca_lab.Controller.Start.{maybe_start_run, new_run}
use rca_lab.Controller.Status.{Reconciler, patch_status, try_patch}
use rca_lab.Controller.Invariant.{IsWellFormed}
use rca_lab.Controller.Invariant.Alike.{IsAlike}
use rca_lab.Controller.Revert.Tokens.{is_done}
use rca_lab.Controller.Revert.Answers.{Responsive, RevertsAtOnce}
use rca_lab.Controller.Revert.Drains.{revert_rounds, revert_rounds_drain}
use rca_lab.Controller.Refinement.Laws.{StatusLaws}
use rca_lab.Controller.Refinement.{LeavesStatus}
use rca_lab.Controller.Reconcile.{reconcile, reconcile_job}
use rca_lab.Controller.Reconcile.Refines.{reconcile-IsWellFormed}
use rca_lab.Tests.Sandbox.{
  Cluster, sandbox, same_key, first_record, put, put-at, found, found_job, found_job-key, returned,
  scenario, idle_status, with_job,
}

-- The status of the object under its own key.
abbrev status_at : Key → Option MaintenanceJob → Option MaintenanceJobStatus
status_at k none = none
status_at k (some fs) = if same_key (job_key fs) k then some fs.status else none

abbrev with_status : MaintenanceJob → Option MaintenanceJobStatus → Option MaintenanceJob
with_status fs none = none
with_status fs (some s) = some (record fs { status = s })

abbrev keep_status : MaintenanceJob → Option MaintenanceJob → Option MaintenanceJob
keep_status fs o = with_status fs (status_at (job_key fs) o)

abbrev tidy : Env
tidy = record sandbox {
  update_job = λ fs w. (
    found (keep_status fs (w.job_at (job_key fs))),
    record w { job_at = put (job_key fs) (keep_status fs (w.job_at (job_key fs))) w.job_at },
  );
}

abbrev home : Key
home = key "shop" "outage"

IsAlike-refl : (s : MaintenanceJobStatus) → IsAlike s s
IsAlike-refl s = record {
  phase = refl;
  run = refl;
  actions = refl;
  last_run = refl;
  history = refl;
}

same_home : (fs : MaintenanceJob) → job_key fs ≡ home → same_key (job_key fs) home ≡ true
same_home fs e = ap (λ k. same_key k home) e

own_status : (fs : MaintenanceJob) → job_key fs ≡ home → status_at home (some fs) ≡ some fs.status
own_status fs e = rw (same_home fs e) refl

found_status :
    (o : Option MaintenanceJob) (fs : MaintenanceJob)
    → found_job home o ≡ ok fs
    → status_at home o ≡ some fs.status
found_status none fs h = absurd (ground arith)
found_status (some x) fs h = ground arith

status_found :
    (o : Option MaintenanceJob) (s : MaintenanceJobStatus)
    → status_at home o ≡ some s
    → is_ok (found_job home o) ≡ true
status_found none s h = absurd (ground arith)
status_found (some x) s h = elim (Bool-cases (same_key (job_key x) home)) [
  | inl b ↦ rw b refl
  | inr b ↦ absurd (ground arith)
]

kept_status :
    (fs : MaintenanceJob) (o : Option MaintenanceJobStatus)
    → job_key fs ≡ home
    → status_at home (with_status fs o) ≡ o
kept_status fs none e = refl
kept_status fs (some s) e = own_status (record fs { status = s }) e

returned_status :
    (fs fs' : MaintenanceJob) (o : Option MaintenanceJobStatus)
    → job_key fs ≡ home
    → found (with_status fs o) ≡ ok fs'
    → (o ≡ some fs'.status) × (job_key fs' ≡ home)
returned_status fs fs' none e h = absurd (ground arith)
returned_status fs fs' (some s) e h = rw⁻¹ (returned (record fs { status = s }) fs' h) (refl, e)

at_home :
    (fs : MaintenanceJob) (o : Option MaintenanceJob) (m : Key → Option MaintenanceJob)
    → job_key fs ≡ home
    → put (job_key fs) o m home ≡ o
at_home fs o m e = ap (λ j. put (job_key fs) o m j) (sym e) ∙ put-at (job_key fs) o m

status_laws : StatusLaws tidy home
status_laws = record {
  stored = λ w. status_at home (w.job_at home);
  get_reads =
      λ fs w h. (found_status (w.job_at home) fs h, found_job-key home (w.job_at home) fs h);
  get_keeps = λ w. refl;
  update_ok = λ fs fs' w e h. rw⁻¹ (returned fs fs' h) (
    ap (status_at home) (at_home fs (some fs) w.job_at e) ∙ own_status fs e,
    IsAlike-refl fs.status,
    e,
  );
  update_conflict = λ fs e w k h c. absurd (ground arith);
  update_fails = λ fs e w t k h there. absurd (ground arith);
  update_job_keeps = λ fs w t e h.
      sym (ap (λ k. status_at k (w.job_at k)) e)
      ∙ (sym (kept_status fs (status_at (job_key fs) (w.job_at (job_key fs))) e)
          ∙ (sym (
                ap (status_at home)
                  (at_home fs (keep_status fs (w.job_at (job_key fs))) w.job_at e))
              ∙ h));
  update_job_ok = λ fs fs' w e h.
      let (there, same) =
        returned_status fs fs' (status_at (job_key fs) (w.job_at (job_key fs))) e h in
      (sym (ap (λ k. status_at k (w.job_at k)) e) ∙ there, same);
  now_keeps = λ w. refl;
  uuid_keeps = λ w. refl;
  event_keeps = λ fs b reason message w. refl;
  get_config_map_keeps = λ j w. refl;
  create_config_map_keeps = λ cm w. refl;
  update_config_map_keeps = λ cm w. refl;
  retry_config_map_keeps = λ m w keeps. keeps w;
  retry = λ m w. last w;
}

abbrev calm : Action Cluster
calm = record {
  type = scale;
  plan = λ rc act w. (ok (some null), w);
  ensure = λ rc act token w. (ok finished, w);
  revert = λ rc token w. (ok (pending (seconds 2)), w);
}

only_calm : (t : ActionType) (impl : Action Cluster) → get t (calm ∷ []) ≡ some impl → calm ≡ impl
unfolding get
only_calm t impl h = ground arith

calm_leaves :
    (t : ActionType) (impl : Action Cluster)
    → get t (calm ∷ []) ≡ some impl
    → LeavesStatus tidy home status_laws idle_status impl
unfolding status_laws
calm_leaves t impl h = rw⁻¹ (only_calm t impl h) (record {
  plan_keeps = λ rc act w. refl;
  ensure_keeps = λ rc act token w. refl;
  revert_keeps = λ rc token w. refl;
})

abbrev operator : Reconciler
operator = record { operator_image = "operator:1"; namespace = "ops" }

-- The pass starts the manual run that the spec asks for.
abbrev running_status : MaintenanceJobStatus
running_status = record idle_status {
  current_run = some (record {
    id = "r1";
    trigger = manual;
    started_at = pos 1_000_000_000_000;
    expires_at = some (pos 1_900_000_000_000);
  });
  phase = activating;
  observed_generation = pos 1;
}

pass_stores :
    status_laws.stored (reconcile tidy (calm ∷ []) operator home (with_job scenario)).1
    ≡ some running_status
unfolding status_laws reconcile reconcile_job validate_spec action_error shape_error get
    maybe_start_run desired_run triggered_run patch_status try_patch new_run
pass_stores = refl

before_pass : status_laws.stored (with_job scenario) ≡ some idle_status
unfolding status_laws
before_pass = refl

idle_status-IsWellFormed : IsWellFormed idle_status
idle_status-IsWellFormed = record {
  distinct = tt;
  short_history = omega arith;
  no_idle_run = λ n. refl;
}

reconcile-IsWellFormed_example : IsWellFormed running_status
reconcile-IsWellFormed_example =
    reconcile-IsWellFormed tidy home status_laws idle_status (calm ∷ []) calm_leaves operator
      (with_job scenario) before_pass idle_status-IsWellFormed running_status pass_stores

-- Two Scale actions were recorded, on Deployments that other scenarios may hold by now.
abbrev token_of : String → ScaleToken
token_of place = record {
  kind = "Deployment";
  namespace = "shop";
  name = place;
  previous_replicas = pos 3;
}

abbrev raw_of : String → RawMessage
unfolding marshal
raw_of place = marshal (token_of place)

abbrev cart_record : ActiveAction
cart_record = record first_record { revert = raw_of "cart" }

abbrev second_record : ActiveAction
second_record = record first_record { name = "second"; revert = raw_of "orders" }

abbrev two_left : MaintenanceJobStatus
two_left = record idle_status { active_actions = cart_record ∷ second_record ∷ [] }

abbrev leftover : Cluster
leftover = with_job (record scenario { status = two_left })

responsive : Responsive tidy home status_laws
unfolding status_laws
responsive = record {
  get_answers = λ w s h. status_found (w.job_at home) s h;
  update_answers = λ fs w s e h. refl;
}

restores :
    (rc : RunContext) (token : RawMessage) (t : ScaleToken) (o : Option Deployment) (w : Cluster)
    → unmarshal_token token ≡ some t
    → w.deployment_at (target t) ≡ o
    → (is_done (revert tidy rc token w).0 ≡ true)
      × (status_laws.stored (revert tidy rc token w).1 ≡ status_laws.stored w)
unfolding revert status_laws
restores rc token t none w decoded h = (ground arith, ground arith)
restores rc token t (some d) w decoded h = elim (Bool-cases (is_foreign rc (holder d))) [
  | inl b ↦ (ground arith, ground arith)
  | inr b ↦ elim (Bool-cases (has_replicas d.replicas t.previous_replicas && holder d == "")) [
    | inl c ↦ (ground arith, ground arith)
    | inr c ↦ (ground arith, ground arith)
  ]
]

decodes : (place : String) → unmarshal_token (raw_of place) ≡ some (token_of place)
unfolding raw_of
decodes place = unmarshal-marshal (token_of place) (omega arith) (omega arith)

scale_reverts :
    (name place : String)
    → RevertsAtOnce tidy home status_laws (registry tidy) (name, scale, raw_of place)
unfolding get registry register
scale_reverts name place = (
  scale_action tidy,
  refl,
  λ rc w. restores rc (raw_of place) (token_of place) _ w (decodes place) refl,
)

two_stored : status_laws.stored leftover ≡ some two_left
unfolding status_laws
two_stored = refl

names_differ : first_record.name ≢ second_record.name
names_differ h = ground (arith, eq_iff "first" "second")

revert_rounds_drain_example :
    (t : MaintenanceJobStatus) × (status_laws.stored
        (revert_rounds tidy home status_laws responsive (registry tidy) 2 operator leftover)
      ≡ some t)
    × (tokens t.active_actions ≡ [])
revert_rounds_drain_example =
    revert_rounds_drain tidy home status_laws responsive (registry tidy) operator leftover two_left
      two_stored ((names_differ, tt), (tt, tt))
      (scale_reverts "first" "cart", (scale_reverts "second" "orders", tt))
