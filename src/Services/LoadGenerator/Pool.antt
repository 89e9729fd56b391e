-- ===== src/Services/LoadGenerator/Pool.antt =====
-- The ticks and the workers of a service's load (`runServiceLoad` of services/load-generator/main.go)
-- as steps that may come in any order: the channel of scenarios, and where in its loop each worker
-- is. The counters are this service's share of the two that all services add to.
pub mod Counts
use rca_lab.Base.{ℕ, zero, suc, ltb, List, [], ◌∷◌, ◌++◌, length, Option, none, some, if◌then◌else◌}
use rca_lab.Cluster.Exec.{Result, ok, err}
use rca_lab.Services.LoadGenerator.Scenarios.{Scenario}

-- Where a worker is: at the channel, with a scenario that is not counted yet, in the scenario's
-- function, or with an error that is not counted yet.
pub data Worker : Type 0 where
  waiting : Worker
  holding : Scenario → Worker
  calling : Scenario → Worker
  failing : Worker

pub record Pool : Type 0 where
  pub queue : List Scenario
  pub workers : List Worker
  pub total_reqs : ℕ
  pub total_errs : ℕ

abbrev pub spawn : ℕ → List Worker
spawn zero = []
spawn (suc n) = waiting ∷ spawn n

-- The pool when its goroutines start.
abbrev pub idle : ℕ → Pool
idle workers = record { queue = []; workers = spawn workers; total_reqs = 0; total_errs = 0 }

-- A tick: the scenario is sent, unless the channel of that capacity is full.
unfoldable pub offer : ℕ → Scenario → Pool → Pool
offer capacity s p =
    if ltb (length p.queue) capacity then record p { queue = p.queue ++ (s ∷ []) } else p

abbrev pub worker_at : ℕ → List Worker → Option Worker
worker_at i [] = none
worker_at zero (v ∷ rest) = some v
worker_at (suc i) (v ∷ rest) = worker_at i rest

abbrev pub set_worker : ℕ → Worker → List Worker → List Worker
set_worker i v [] = []
set_worker zero v (_ ∷ rest) = v ∷ rest
set_worker (suc i) v (u ∷ rest) = u ∷ set_worker i v rest

-- A worker that ranges over the channel; one that finds it empty waits on.
unfoldable pub receive : ℕ → List Scenario → Pool → Pool
receive i [] p = p
receive i (s ∷ rest) p = record p { queue = rest; workers = set_worker i (holding s) p.workers }

-- The request is counted before the scenario's function is called, and its error after.
unfoldable pub count_request : ℕ → Scenario → Pool → Pool
count_request i s p = record p {
  workers = set_worker i (calling s) p.workers;
  total_reqs = suc p.total_reqs;
}

unfoldable pub returned : ℕ → Result (Unit {0}) → Pool → Pool
returned i (ok _) p = record p { workers = set_worker i waiting p.workers }
returned i (err _) p = record p { workers = set_worker i failing p.workers }

unfoldable pub count_error : ℕ → Pool → Pool
count_error i p = record p {
  workers = set_worker i waiting p.workers;
  total_errs = suc p.total_errs;
}

-- The next step of that worker, with what its scenario's function returns if it is there.
worker_step : ℕ → Result (Unit {0}) → Option Worker → Pool → Pool
unfolding receive count_request returned count_error
worker_step i r none p = p
worker_step i r (some waiting) p = receive i p.queue p
worker_step i r (some (holding s)) p = count_request i s p
worker_step i r (some (calling s)) p = returned i r p
worker_step i r (some failing) p = count_error i p

unfoldable pub advance : ℕ → Result (Unit {0}) → Pool → Pool
unfolding worker_step
advance i r p = worker_step i r (worker_at i p.workers) p

pub data Step (capacity : ℕ) : Pool → Pool → Type 0 where
  tick : {p : Pool} (s : Scenario) → Step capacity p (offer capacity s p)
  work : {p : Pool} (i : ℕ) (r : Result (Unit {0})) → Step capacity p (advance i r p)

pub data Steps (capacity : ℕ) : Pool → Pool → Type 0 where
  stop : {p : Pool} → Steps capacity p p
  step : {p q r : Pool} → Steps capacity p q → Step capacity q r → Steps capacity p r
