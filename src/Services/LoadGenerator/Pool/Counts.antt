-- ===== src/Services/LoadGenerator/Pool/Counts.antt =====
-- The pool's bounds and counters, whatever the order of its steps
-- (services/load-generator/main.go).
use rca_lab.Base.{
  ◌≡◌, refl, ap, ℕ, zero, suc, ◌+◌, ◌≤◌, ltb, List, [], ◌∷◌, length, length-append, Option, none,
  some, arith, Bool-cases, inl, inr,
}
use rca_lab.Cluster.Exec.{Result, ok, err}
use rca_lab.Services.LoadGenerator.Scenarios.{Scenario}
use rca_lab.Services.LoadGenerator.Pool.{
  Worker, waiting, holding, calling, failing, Pool, spawn, idle, offer, worker_at, set_worker,
  receive, returned, worker_step, advance, Step, tick, work, Steps, stop, step,
}

-- Whether a worker is between counting a request and being done with it.
abbrev pub open_request : Worker → ℕ
open_request waiting = 0
open_request (holding s) = 0
open_request (calling s) = 1
open_request failing = 1

abbrev pub open_requests : List Worker → ℕ
open_requests [] = 0
open_requests (v ∷ rest) = open_request v + open_requests rest

set_worker-length :
    (i : ℕ) (v : Worker) (list : List Worker) → length (set_worker i v list) ≡ length list
set_worker-length i v [] = refl
set_worker-length zero v (u ∷ rest) = refl
set_worker-length (suc i) v (u ∷ rest) = ap suc (set_worker-length i v rest)

set_worker-open :
    (i : ℕ) (u v : Worker) (list : List Worker)
    → worker_at i list ≡ some u
    → open_requests (set_worker i v list) + open_request u ≡ open_requests list + open_request v
set_worker-open i u v [] h = absurd (ground arith)
set_worker-open zero u v (x ∷ rest) h = ground arith
set_worker-open (suc i) u v (x ∷ rest) h = omega (arith, set_worker-open i u v rest h)

spawn-length : (n : ℕ) → length (spawn n) ≡ n
spawn-length zero = refl
spawn-length (suc n) = ap suc (spawn-length n)

spawn-open : (n : ℕ) → open_requests (spawn n) ≡ 0
spawn-open zero = refl
spawn-open (suc n) = omega (arith, spawn-open n)

pub record IsBounded (workers : ℕ) (p : Pool) : Type 0 where
  pub queued : length p.queue ≤ workers
  -- no worker comes or goes
  pub staffed : length p.workers ≡ workers
  -- a failure that is counted, and a request that is under way, was counted as a request
  pub failed : p.total_errs + open_requests p.workers ≤ p.total_reqs

module _ (workers : ℕ) where
  offer-IsBounded :
      (s : Scenario) (p : Pool) → IsBounded workers p → IsBounded workers (offer workers s p)
  unfolding offer
  offer-IsBounded s p i = elim (Bool-cases (ltb (length p.queue) workers)) [
    | inl room ↦ rw room (record {
      queued = ground (arith, length-append p.queue (s ∷ []));
      staffed = i.staffed;
      failed = i.failed;
    })
    | inr full ↦ rw full i
  ]

  module _ (i : ℕ) (p : Pool) (b : IsBounded workers p) where
    staffed_still : (v : Worker) → length (set_worker i v p.workers) ≡ workers
    staffed_still v = omega (arith, set_worker-length i v p.workers, b.staffed)

    receive-IsBounded :
        (queue : List Scenario)
        → p.queue ≡ queue
        → worker_at i p.workers ≡ some waiting
        → IsBounded workers (receive i queue p)
    unfolding receive
    receive-IsBounded [] e h = b
    receive-IsBounded (s ∷ rest) e h = record {
      queued = omega (arith, ap length e, b.queued);
      staffed = staffed_still (holding s);
      failed = omega (arith, set_worker-open i waiting (holding s) p.workers h, b.failed);
    }

    returned-IsBounded :
        (r : Result (Unit {0})) (s : Scenario)
        → worker_at i p.workers ≡ some (calling s)
        → IsBounded workers (returned i r p)
    unfolding returned
    returned-IsBounded (ok _) s h = record {
      queued = b.queued;
      staffed = staffed_still waiting;
      failed = omega (arith, set_worker-open i (calling s) waiting p.workers h, b.failed);
    }
    returned-IsBounded (err e) s h = record {
      queued = b.queued;
      staffed = staffed_still failing;
      failed = omega (arith, set_worker-open i (calling s) failing p.workers h, b.failed);
    }

    worker_step-IsBounded :
        (r : Result (Unit {0})) (v : Option Worker)
        → worker_at i p.workers ≡ v
        → IsBounded workers (worker_step i r v p)
    unfolding worker_step
    worker_step-IsBounded r none h = b
    worker_step-IsBounded r (some waiting) h = receive-IsBounded p.queue refl h
    worker_step-IsBounded r (some (holding s)) h = record {
      queued = b.queued;
      staffed = staffed_still (calling s);
      failed = omega (arith, set_worker-open i (holding s) (calling s) p.workers h, b.failed);
    }
    worker_step-IsBounded r (some (calling s)) h = returned-IsBounded r s h
    worker_step-IsBounded r (some failing) h = record {
      queued = b.queued;
      staffed = staffed_still waiting;
      failed = omega (arith, set_worker-open i failing waiting p.workers h, b.failed);
    }

  IsBounded-Step : {p q : Pool} → Step workers p q → IsBounded workers p → IsBounded workers q
  unfolding advance
  IsBounded-Step (tick {p} s) b = offer-IsBounded s p b
  IsBounded-Step (work {p} i r) b = worker_step-IsBounded i p b r _ refl

  IsBounded-Steps : {p q : Pool} → Steps workers p q → IsBounded workers p → IsBounded workers q
  IsBounded-Steps stop b = b
  IsBounded-Steps (step s one) b = IsBounded-Step one (IsBounded-Steps s b)

  -- However the ticks and the steps of the workers interleave from a fresh pool, the channel never
  -- holds more scenarios than there are workers, no worker comes or goes, and the failures counted
  -- and the requests that are under way are together no more than the requests counted: a failure
  -- never shows before its request does.
  pub pool-IsBounded : {p : Pool} → Steps workers (idle workers) p → IsBounded workers p
  pool-IsBounded s = IsBounded-Steps s (record {
    queued = omega arith;
    staffed = spawn-length workers;
    failed = omega (arith, spawn-open workers);
  })
