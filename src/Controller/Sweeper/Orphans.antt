-- ===== src/Controller/Sweeper/Orphans.antt =====
-- What the startup sweep deletes (sweeper.go).
use rca_lab.Base.{◌≡◌, true, Bool-cases, inl, inr, List, [], ◌∷◌, String}
use rca_lab.Base.Dict.{Dict, get}
use rca_lab.Cluster.Exec.{Exec, Post, Post-bind}
use rca_lab.Cluster.Objects.{Key, key, Job, Deployment, foreground}
use rca_lab.Cluster.Env.{Env}
use rca_lab.Cluster.Retry.{Post-of, holds}
use rca_lab.Actions.Action.{scenario_label}
use rca_lab.Controller.Sweeper.{is_orphan, sweep, sweep_jobs, sweep_deployments, start}

module _ (E : Env) (namespace : String) where
  abbrev owner_key : Dict String → Key
  owner_key labels = key namespace (get labels scenario_label)

  -- A property of the world that reads keep, and the deletion of an object whose owner was just
  -- looked up and found gone or idle.
  pub record Spared (I : E.World → Type 0) : Type 0 where
    pub by_get : (k : Key) (w : E.World) → I w → I (E.get_job k w).1
    pub by_list_jobs : (w : E.World) → I w → I (E.list_batch_jobs namespace scenario_label w).1
    pub by_list_deployments :
        (w : E.World) → I w → I (E.list_deployments namespace scenario_label w).1
    pub by_delete_job :
        (job : Job) (w : E.World)
        → I w
        → is_orphan (E.get_job (owner_key job.labels) w).0 ≡ true
        → I
            (E.delete_batch_job
              (key namespace job.name)
              foreground
              (E.get_job (owner_key job.labels) w).1).1
    pub by_delete_deployment :
        (dep : Deployment) (w : E.World)
        → I w
        → is_orphan (E.get_job (owner_key dep.labels) w).0 ≡ true
        → I
            (E.delete_deployment
              (key namespace dep.name)
              foreground
              (E.get_job (owner_key dep.labels) w).1).1

  module _ (I : E.World → Type 0) where
    abbrev Fine : Unit {0} → E.World → Type 0
    Fine u w = I w

    sweep_lem :
        (labels : Dict String) (delete : Exec E.World (Unit {0})) (w : E.World)
        → I (E.get_job (owner_key labels) w).1
        → (is_orphan (E.get_job (owner_key labels) w).0 ≡ true
            → I (delete (E.get_job (owner_key labels) w).1).1)
        → Post I Fine (sweep E namespace labels delete w)
    unfolding sweep
    sweep_lem labels delete w i gone =
        elim (Bool-cases (is_orphan (E.get_job (owner_key labels) w).0)) [
          | inl h ↦ rw h (gone h)
          | inr h ↦ rw h i
        ]

    module _ (S : Spared I) where
      jobs_lem : (jobs : List Job) (w : E.World) → I w → Post I Fine (sweep_jobs E namespace jobs w)
      unfolding sweep_jobs
      jobs_lem [] w i = i
      jobs_lem (job ∷ rest) w i =
          Post-bind I Fine Fine
            (sweep E namespace job.labels (E.delete_batch_job (key namespace job.name) foreground))
            _ w (sweep_lem job.labels _ w (S.by_get _ w i) (S.by_delete_job job w i))
            (λ _ w' i'. jobs_lem rest w' i')

      deployments_lem :
          (deps : List Deployment) (w : E.World)
          → I w
          → Post I Fine (sweep_deployments E namespace deps w)
      unfolding sweep_deployments
      deployments_lem [] w i = i
      deployments_lem (dep ∷ rest) w i =
          Post-bind I Fine Fine
            (sweep E namespace dep.labels (E.delete_deployment (key namespace dep.name) foreground))
            _ w (sweep_lem dep.labels _ w (S.by_get _ w i) (S.by_delete_deployment dep w i))
            (λ _ w' i'. deployments_lem rest w' i')

  -- The sweep deletes only objects whose owner it has just looked up and found gone or idle: it keeps
  -- every property of the world that reads and such deletions keep, whatever calls fail on the way.
  pub start_lem : (I : E.World → Type 0) (w : E.World) → Spared I → I w → I (start E namespace w).1
  unfolding start
  start_lem I w S i =
      let jobs = E.list_batch_jobs namespace scenario_label in
      let deps = E.list_deployments namespace scenario_label in
      holds I _ (
        Post-bind I (λ _ w'. I w') (Fine I) jobs _ w
          (Post-of I (λ _ w'. I w') (jobs w).0 _ (S.by_list_jobs w i) (λ _ _. S.by_list_jobs w i))
          (λ found w1 i1.
            Post-bind I (Fine I) (Fine I) (sweep_jobs E namespace found) _ w1
              (jobs_lem I S found w1 i1)
              (λ _ w2 i2.
                Post-bind I (λ _ w'. I w') (Fine I) deps _ w2
                  (Post-of I (λ _ w'. I w') (deps w2).0 _ (S.by_list_deployments w2 i2)
                    (λ _ _. S.by_list_deployments w2 i2))
                  (λ found' w3 i3. deployments_lem I S found' w3 i3))))
