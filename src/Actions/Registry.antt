-- ===== src/Actions/Registry.antt =====
-- The registry of actions (action.go `Register`, `Get`) and what each file's `init` puts in it.
use rca_lab.Base.{Bool, true, false, List, [], ◌∷◌, Option, none, some, if◌then◌else◌}
use rca_lab.Types.{ActionType, workload, scale, deploy_image, chaos_mesh, db_exec}
use rca_lab.Cluster.Env.{Env}
use rca_lab.Actions.Action.{Action}
use rca_lab.Actions.ChaosMesh.{chaos_mesh_action}
use rca_lab.Actions.DbExec.{db_exec_action}
use rca_lab.Actions.DeployImage.{deploy_image_action}
use rca_lab.Actions.Scale.{scale_action}
use rca_lab.Actions.Workload.{workload_action}

-- The five names differ from one another; a text outside the registry is equal to none of them.
abbrev same_type : ActionType → ActionType → Bool
same_type workload workload = true
same_type scale scale = true
same_type deploy_image deploy_image = true
same_type chaos_mesh chaos_mesh = true
same_type db_exec db_exec = true
same_type _ _ = false

module _ {W : Type 0} where
  unfoldable pub register : Action W → List (Action W) → List (Action W)
  register a registry = a ∷ registry

  unfoldable pub get : ActionType → List (Action W) → Option (Action W)
  get t [] = none
  get t (a ∷ registry) = if same_type a.type t then some a else get t registry

module _ (E : Env) where
  -- Go runs the files' `init` functions in the order of their names.
  unfoldable pub registry : List (Action E.World)
  registry = register (workload_action E) (
      register (scale_action E) (
        register (deploy_image_action E)
          (register (db_exec_action E) (register (chaos_mesh_action E) []))))
