-- ===== src/Services/Waiting.antt =====
-- The loop in which the services wait for a dependency at their start, and Go's
-- `if v := os.Getenv(key); v != "" { return v }; return fallback` (services/*/main.go).
use rca_lab.Base.{ℕ, zero, suc, String, ◌==◌, if◌then◌else◌}
use rca_lab.Cluster.Exec.{Result, ok, err, Exec}

abbrev pub or_fallback : String → String → String
or_fallback v fallback = if v == "" then fallback else v

module _ {W : Type 0} (ping : Exec W (Unit {0})) (sleep : W → W) where
  pinged : Result (Unit {0}) → (W → Result (Unit {0}) × W) → W → Result (Unit {0}) × W
  pinged (ok _) again w = (ok tt, w)
  pinged (err e) again w = again (sleep w)

  -- So many pings, with a sleep after each that fails; `last` is the error of the last one.
  unfoldable pub wait_ready : ℕ → Result (Unit {0}) → Exec W (Unit {0})
  unfolding pinged
  wait_ready zero last w = (last, w)
  wait_ready (suc left) last w = let (r, w') = ping w in pinged r (wait_ready left r) w'
