-- ===== src/Services/LoadGenerator/Scenarios/Draws.antt =====
-- How often each scenario is drawn (`pickScenario` of services/load-generator/main.go).
use rca_lab.Base.{◌≡◌, refl, ℕ, ◌+◌, ◌-◌, ◌≤◌, ◌<◌, List, [], ◌∷◌, ◌++◌, some, arith}
use rca_lab.Services.LoadGenerator.Scenarios.{
  Scenario, total_weight, reached, or_first, pick_scenario,
}

reached_lem :
    (before after : List Scenario) (s : Scenario) (r : ℕ)
    → total_weight before ≤ r
    → r < total_weight before + s.weight
    → reached r (before ++ (s ∷ after)) ≡ some s
unfolding reached
reached_lem [] after s r low high = ground arith
reached_lem (t ∷ before) after s r low high =
    ground (arith, reached_lem before after s (r - t.weight) (ground arith) (ground arith))

-- Of the draws below the total weight exactly those from the weights of the scenarios before it, for
-- as many numbers as its own weight, pick a scenario: each scenario is picked for its weight's share
-- of the draws.
pub pick_scenario_lem :
    (before after : List Scenario) (s : Scenario) (r : ℕ)
    → total_weight before ≤ r
    → r < total_weight before + s.weight
    → pick_scenario r (before ++ (s ∷ after)) ≡ some s
unfolding pick_scenario or_first
pick_scenario_lem before after s r low high = rw (reached_lem before after s r low high) refl
