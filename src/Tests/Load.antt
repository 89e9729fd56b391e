-- ===== src/Tests/Load.antt =====
-- The load generator against a gateway that never fulfils an order, its draws and its pool, and the
-- one-off mode of dbtool.
use rca_lab.Base.{
  ◌↔◌, ℕ, suc, ◌+◌, ◌==ℕ◌, ◌≡◌, refl, arith, true, [], ◌∷◌, some, none, is_some, if◌then◌else◌,
}
use rca_lab.Base.Int.{◌≤ℤ◌, pos, pos_part}
use rca_lab.Cluster.Exec.{Result, ok, err, errorf}
use rca_lab.Services.LoadGenerator.Settings.{start_load}
use rca_lab.Services.LoadGenerator.Settings.Starts.{start_load_iff}
use rca_lab.Services.LoadGenerator.Gateway.{Gateway}
use rca_lab.Services.LoadGenerator.Flows.Awaiting.{
  Clock, create_order_and_await_fulfillment, create_order_and_await_fulfillment_returns,
}
use rca_lab.Services.LoadGenerator.Scenarios.{
  Scenario, pick_scenario, list_stock, get_stock, update_stock,
}
use rca_lab.Services.LoadGenerator.Scenarios.Draws.{pick_scenario_lem}
use rca_lab.Services.LoadGenerator.Pool.{Pool, idle, offer, advance, Steps, stop, step, tick, work}
use rca_lab.Services.LoadGenerator.Pool.Counts.{IsBounded, pool-IsBounded}
use rca_lab.Dbtool.Runner.{Database, run_statements}
use rca_lab.Dbtool.Runner.Once.{Outcome, run_statements-Outcome}

-- Its world is the time in nanoseconds; a request takes 5 ms.
abbrev gateway : Gateway
gateway = record {
  World = ℕ;
  url = "http://gateway";
  user_ids = "user-1" ∷ [];
  intn = λ n w. (0, w);
  now = λ w. (pos w, w);
  sleep = λ d w. w + pos_part d;
  http_get = λ url w. (ok (record { status_code = 200; body = "{}" }), w + 5_000_000);
  http_post = λ url body w. (ok (record { status_code = 201; body = "{}" }), w + 5_000_000);
  http_put = λ url body w. (ok (record { status_code = 200; body = "" }), w + 5_000_000);
  http_delete = λ url w. (ok (record { status_code = 200; body = "" }), w + 5_000_000);
  decode_cart = λ body. ok [];
  decode_orders = λ body. ok [];
  decode_id = λ body. ok (pos 9);
  decode_status = λ body. ok "CREATED";
}

clock : Clock gateway
clock = record {
  at = λ w. w;
  now_reads = λ w. refl;
  now_keeps = λ w. omega arith;
  sleep_takes = λ s w. omega arith;
  get_keeps = λ u w. omega arith;
}

create_order_and_await_fulfillment_returns_example :
    is_some (create_order_and_await_fulfillment gateway 0).0 ≡ true
create_order_and_await_fulfillment_returns_example =
    create_order_and_await_fulfillment_returns gateway clock 0

abbrev listing : Scenario
listing = record { name = "list-stock"; weight = 25; flow = list_stock }

abbrev getting : Scenario
getting = record { name = "get-stock"; weight = 25; flow = get_stock }

abbrev updating : Scenario
updating = record { name = "update-stock"; weight = 15; flow = update_stock }

pick_scenario_lem_example : pick_scenario 49 (listing ∷ getting ∷ updating ∷ []) ≡ some getting
pick_scenario_lem_example =
    pick_scenario_lem (listing ∷ []) (updating ∷ []) getting 49 (omega arith) (omega arith)

-- Two ticks, of which the second worker takes one, and its request fails.
abbrev failure : Result (Unit {0})
failure = err (errorf "status 500")

abbrev after_two : Pool
after_two = advance 1 failure (
    advance 1 failure
      (advance 1 failure (advance 1 failure (offer 10 getting (offer 10 listing (idle 10))))))

busy-Steps : Steps 10 (idle 10) after_two
busy-Steps =
    step
      (step
        (step (step (step (step stop (tick listing)) (tick getting)) (work 1 failure))
          (work 1 failure))
        (work 1 failure))
      (work 1 failure)

after_two_counts : (after_two.total_reqs ≡ 1) × (after_two.total_errs ≡ 1)
unfolding advance offer
after_two_counts = (refl, refl)

pool-IsBounded_example : IsBounded 10 after_two
pool-IsBounded_example = pool-IsBounded 10 busy-Steps

start_load_iff_example :
    (is_some (start_load (pos 0)) ≡ true) ↔ ((pos 1 ≤ℤ pos 0) × (pos 0 ≤ℤ pos 1_000_000_000))
start_load_iff_example = start_load_iff (pos 0)

-- The second statement fails.
abbrev database : Database
database = record {
  World = ℕ;
  open_db = λ driver dsn w. (ok tt, w);
  acquire = λ w. (ok tt, w);
  exec = λ q w. if w ==ℕ 1 then (err (errorf "lock timeout"), suc w) else (ok none, suc w);
  query = λ q w. (ok (0, none), w);
  is_done = λ w. (true, w);
  wait = λ d w. (true, w);
}

run_statements-Outcome_example :
    Outcome database 1
      ("ALTER" ∷ "VACUUM" ∷ "ANALYZE" ∷ [])
      0
      (run_statements database 1 ("ALTER" ∷ "VACUUM" ∷ "ANALYZE" ∷ []) 0)
run_statements-Outcome_example =
    run_statements-Outcome database 1 ("ALTER" ∷ "VACUUM" ∷ "ANALYZE" ∷ []) 0
