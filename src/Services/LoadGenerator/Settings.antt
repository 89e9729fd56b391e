-- ===== src/Services/LoadGenerator/Settings.antt =====
-- The settings of the load generator (services/load-generator/main.go).
pub mod Starts
use rca_lab.Base.{
  suc, ◌-◌, ◌/◌, String, ◌==◌, ◌==ℕ◌, List, [], ◌∷◌, Option, none, some, if◌then◌else◌,
}
use rca_lab.Base.Int.{ℤ, pos, negsuc, ◌*ℤ◌, ltb_ℤ}
use rca_lab.Base.Dict.{Dict, lookup, insert}
use rca_lab.Go.Duration.{Duration, wrap64}
use rca_lab.Services.Text.{trim_space, split_commas, cut_colon, accepted, parse_int}

or_default : ℤ → Option ℤ → ℤ
or_default default none = default
or_default default (some n) = n

-- `getEnvInt`, of the variable's value, which is empty when it is not set.
unfoldable pub get_env_int : String → ℤ → ℤ
unfolding or_default
get_env_int v default = if v == "" then default else or_default default (accepted (parse_int v))

-- A rate that was read, if it is one that is not negative.
rate : Option ℤ → Option ℤ
rate none = none
rate (some n) = if ltb_ℤ n (pos 0) then none else some n

put_rate : String → Option ℤ → Dict ℤ → Dict ℤ
put_rate name none m = m
put_rate name (some n) m = insert name n m

put_pair : Option (String × String) → Dict ℤ → Dict ℤ
unfolding put_rate rate
put_pair none m = m
put_pair (some (name, rps)) m =
    put_rate (trim_space name) (rate (accepted (parse_int (trim_space rps)))) m

-- One pair of the text, if it is well formed.
unfoldable pub put_override : String → Dict ℤ → Dict ℤ
unfolding put_pair
put_override pair m = let p = trim_space pair in if p == "" then m else put_pair (cut_colon p) m

put_overrides : List String → Dict ℤ → Dict ℤ
put_overrides [] m = m
put_overrides (pair ∷ rest) m = put_overrides rest (put_override pair m)

unfoldable pub parse_rps_overrides : String → Dict ℤ
unfolding put_overrides
parse_rps_overrides s = put_overrides (split_commas s) []

unfoldable pub rps_for : Dict ℤ → ℤ → String → ℤ
unfolding or_default
rps_for overrides rps_per_svc service = or_default rps_per_svc (lookup service overrides)

-- `time.Second / time.Duration(rps)`, which panics at 0.
unfoldable pub interval : ℤ → Option Duration
interval (pos n) = if n ==ℕ 0 then none else some (pos (1_000_000_000 / n))
interval (negsuc n) =
    let q = 1_000_000_000 / suc n in some (if q ==ℕ 0 then pos 0 else negsuc (q - 1))

-- `time.NewTicker`, which panics unless the interval is positive.
unfoldable pub ticker : Option Duration → Option Duration
ticker none = none
ticker (some d) = if ltb_ℤ (pos 0) d then some d else none

-- Twice the rate, and 10 at least.
unfoldable pub workers : ℤ → ℤ
workers rps = let twice = wrap64 (rps *ℤ pos 2) in if ltb_ℤ twice (pos 10) then pos 10 else twice

ticking : ℤ → Option Duration → Option (Duration × ℤ)
ticking rps none = none
ticking rps (some d) = some (d, workers rps)

-- How a service's load starts: the interval of its ticks and its workers, or none for a panic, which
-- ends the whole process.
unfoldable pub start_load : ℤ → Option (Duration × ℤ)
unfolding ticking interval ticker
start_load rps = ticking rps (ticker (interval rps))
