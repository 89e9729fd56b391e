-- ===== src/Services/LoadGenerator/Settings/Starts.antt =====
-- Which rates a service's load can start with (`runServiceLoad` of services/load-generator/main.go).
use native.Mathlib.Nat.{le-div_iff_mul-le}
use rca_lab.Base.{◌≡◌, ◌↔◌, zero, suc, ◌/◌, ◌*◌, ◌≤◌, true, is_some, arith}
use rca_lab.Base.Int.{ℤ, pos, negsuc, ◌≤ℤ◌}
use rca_lab.Services.LoadGenerator.Settings.{interval, ticker, ticking, start_load}

-- A service's load starts exactly for a rate from 1 to a billion a second; any other rate panics.
pub start_load_iff :
    (rps : ℤ) → (is_some (start_load rps) ≡ true) ↔ ((pos 1 ≤ℤ rps) × (rps ≤ℤ pos 1_000_000_000))
unfolding start_load interval ticker ticking
start_load_iff (pos zero) = ground arith
start_load_iff (pos (suc n)) =
    let (to_product, to_quotient) : (1 ≤ 1_000_000_000 / suc n) ↔ (1 * suc n ≤ 1_000_000_000) =
      le-div_iff_mul-le {k = suc n} {x = 1} {y = 1_000_000_000} (omega arith) in
    (λ h. ground (arith, to_product), λ h. ground (arith, to_quotient))
start_load_iff (negsuc n) = ground arith
