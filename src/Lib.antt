-- ===== src/Lib.antt =====
-- The rca-lab operator: a Kubernetes controller that injects failures into an application and takes
-- them back. A MaintenanceJob names a scenario, a list of actions. While a run of it is wanted, the
-- controller plans each action (an observation that yields a revert token), stores the token in the
-- resource's status, and only then ensures the action; when the run is over it reverts the actions
-- from their tokens, the last one first. A REST API turns requests into changes of the spec, and a
-- sweep at start-up deletes what vanished scenarios left behind.
--
-- Parts, and the files they come from:
--   Types        operator/api/v1alpha1/maintenancejob_types.go, the resource
--   Actions      operator/internal/actions: Action and Registry (action.go), Scale (scale.go),
--                DeployImage (deployimage.go), Workload (workload.go), ChaosMesh (chaosmesh.go),
--                DbExec (dbexec.go), each with its Token and the token's JSON; Holder, the lock that
--                Scale and DeployImage share; Names, the names of created objects
--   Controller   operator/internal/controller: Helpers (helpers.go), Sweeper (sweeper.go), and of
--                maintenancejob_controller.go Reconcile, Start (maybeStartRun), Activate
--                (reconcileActivate), Revert (reconcileRevert, finishRun), Delete (reconcileDelete,
--                leakState) and Status (patchStatus, runContext); Invariant has the changes of the
--                status as a step relation; Refinement.Guards says when each may be made, and the
--                modules Refines relate the passes to these moves; Status.Keeper and
--                Activate.Walk carry what a pass keeps through it
--   Api          operator/internal/api/server.go: Summary (projections) and Handlers
--   Services     the demo services written in Go, which the scenarios disturb: Fulfillment
--                (services/fulfillment-service/main.go), Catalog (services/product-catalog/main.go
--                and its variant gc-pressure), Recommendation (services/recommendation-service and
--                its variant memory-leak), LoadGenerator (services/load-generator/main.go); Waiting
--                and Text, what they share
--   Dbtool       operator/internal/dbtool/dbtool.go, the query runner of workload actions
--   Cluster      what these parts use of client-go and controller-runtime, as a parameter: Env, a
--                record of calls over an unknown world; Exec, calls that may fail; Objects, the
--                parts of Kubernetes objects that are read or written; Laws, what is assumed of the
--                calls where a theorem needs it (a patch of a Deployment leaves its generation and
--                its status to the API server); Retry
--   Go           durations, times and JSON of Go's library, as far as they are used
--   Base         numbers, lists, texts and maps
--   Tests        a small cluster that satisfies the laws, and examples
--
-- The code's functions have their names in snake_case. A method that calls the cluster is a function
-- of an Env into Exec; its inner steps are functions of their own where the code branches on a
-- result. Pointers are options; int32 and int64 wrap (wrap32, wrap64) where a value can reach the
-- end of its range. Loops recur on their lists, and the loop over the indices of the actions on
-- their number; the printing of numbers runs on fuel, whose 20 digits are enough for 64 bits, and so
-- do the wait for an order's fulfillment, which is shown to need no more than its 16 rounds, and the
-- loops of a consumer and of a dbtool worker, which run until a signal and return whether they
-- ended. Panics on an index out of range or a nil map are errors here.
--
-- Not modelled: logging, metrics, HTTP and the encoding of answers, the set-up of the manager and of
-- the services, the services in other languages, and manifests. HTTP clients, databases, Kafka and
-- random numbers are parameters: Outside, Store, Gateway and Database. Texts are taken to
-- be ASCII where the code cuts them by bytes. The clock, fresh ids, the hash of a run's id, retries,
-- finalizers, conditions and the sort of Go's library are parameters.
pub mod Base
pub mod Go
pub mod Types
pub mod Cluster
pub mod Actions
pub mod Controller
pub mod Api
pub mod Services
pub mod Dbtool
pub mod Tests
