-- ===== src/Services/LoadGenerator/Startup.antt =====
-- What the load generator's `main` does before the load runs (services/load-generator/main.go).
use rca_lab.Base.{ℕ, zero, suc, Bool, true, false, ◌==ℕ◌, String, ◌<>◌, List, map, Option}
use rca_lab.Base.Int.{ℤ}
use rca_lab.Base.Dict.{Dict}
use rca_lab.Go.Duration.{Duration, seconds}
use rca_lab.Cluster.Exec.{Result, ok, err}
use rca_lab.Services.LoadGenerator.Settings.{rps_for, start_load}
use rca_lab.Services.LoadGenerator.Gateway.{HttpResponse, Gateway}
use rca_lab.Services.LoadGenerator.Scenarios.{ServiceScenarios, all_services}

is_ready : Result HttpResponse → Bool
is_ready (ok resp) = resp.status_code ==ℕ 200
is_ready (err _) = false

module _ (G : Gateway) where
  open G use {World, url, sleep, http_get}

  unless_ready : Bool → (World → World) → World → World
  unless_ready true again w = w
  unless_ready false again w = again (sleep (seconds 5) w)

  -- So many looks at the gateway's health; the load starts whether or not one found it ready.
  unfoldable pub wait_gateway : ℕ → World → World
  unfolding is_ready unless_ready
  wait_gateway zero w = w
  wait_gateway (suc left) w =
      let (r, w') = http_get (url <> "/health") w in
      unless_ready (is_ready r) (wait_gateway left) w'

  unfoldable pub ready : World → World
  ready = wait_gateway 60

-- Each service with how its load starts.
unfoldable pub start_all : Dict ℤ → ℤ → List (String × Option (Duration × ℤ))
start_all overrides rps_per_svc =
    map (λ svc. (ServiceScenarios.name svc, start_load (rps_for overrides rps_per_svc svc.name)))
      all_services
