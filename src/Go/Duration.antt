-- ===== src/Go/Duration.antt =====
-- `time.Duration`, an int64 of nanoseconds, and `time.Time` as nanoseconds since the epoch.
use rca_lab.Base.{ℕ, suc, ◌-◌, ◌*◌, ◌/◌, ◌%◌, ◌^◌, Bool, String, ◌<>◌, ltb, ◌==ℕ◌, if◌then◌else◌}
use rca_lab.Base.Int.{ℤ, pos, negsuc, ◌+ℤ◌, ◌-ℤ◌, ltb_ℤ, pos_part, neg_part}
use rca_lab.Base.Text.{show_ℕ}

abbrev pub Duration : Type 0
Duration = ℤ

abbrev pub Time : Type 0
Time = ℤ

-- The int64 with the same low 64 bits, and the int32 with the same low 32 bits.
abbrev pub wrap64 : ℤ → ℤ
wrap64 (pos n) = let m = n % 2 ^ 64 in if ltb m (2 ^ 63) then pos m else negsuc (2 ^ 64 - m - 1)
wrap64 (negsuc n) = let m = n % 2 ^ 64 in if ltb m (2 ^ 63) then negsuc m else pos (2 ^ 64 - m - 1)

abbrev pub wrap32 : ℤ → ℤ
wrap32 (pos n) = let m = n % 2 ^ 32 in if ltb m (2 ^ 31) then pos m else negsuc (2 ^ 32 - m - 1)
wrap32 (negsuc n) = let m = n % 2 ^ 32 in if ltb m (2 ^ 31) then negsuc m else pos (2 ^ 32 - m - 1)

abbrev pub second : Duration
second = pos 1_000_000_000

abbrev pub seconds : ℕ → Duration
seconds n = pos (n * 1_000_000_000)

abbrev pub minutes : ℕ → Duration
minutes n = pos (n * 60_000_000_000)

-- `a + b` on durations.
unfoldable pub add : Duration → Duration → Duration
unfolding ◌+ℤ◌
add a b = wrap64 (a +ℤ b)

-- `t.Add(d)`, in the range of `time.Time`, which no date of a cluster leaves.
unfoldable pub after : Time → Duration → Time
unfolding ◌+ℤ◌
after t d = t +ℤ d

abbrev pub max64 : ℤ
max64 = pos 9_223_372_036_854_775_807

abbrev pub min64 : ℤ
min64 = negsuc 9_223_372_036_854_775_807

-- `t.Sub(u)`, which saturates.
unfoldable pub sub : Time → Time → Duration
unfolding ◌-ℤ◌
sub t u = let d = t -ℤ u in if ltb_ℤ max64 d then max64 else if ltb_ℤ d min64 then min64 else d

-- `t.Before(u)`
abbrev pub before : Time → Time → Bool
before = ltb_ℤ

-- `int64(d / time.Second)`, which rounds towards zero.
unfoldable pub whole_seconds : Duration → ℤ
whole_seconds (pos n) = pos (n / 1_000_000_000)
whole_seconds (negsuc n) =
    let q = suc n / 1_000_000_000 in if q ==ℕ 0 then pos 0 else negsuc (q - 1)

-- The fraction v / 10 ^ places with its point and without trailing zeros.
fraction : ℕ → ℕ → Bool → String → String
fraction ℕ.zero v printing rest = if printing then "." <> rest else rest
fraction (suc places) v printing rest =
    fraction places (v / 10) (if v % 10 ==ℕ 0 then printing else Bool.true)
      (if v % 10 ==ℕ 0 then (if printing then "0" <> rest else rest) else show_ℕ (v % 10) <> rest)

hours_part : ℕ → String → String
hours_part m rest =
    if m / 60 ==ℕ 0
    then show_ℕ (m % 60) <> ("m" <> rest)
    else show_ℕ (m / 60) <> ("h" <> (show_ℕ (m % 60) <> ("m" <> rest)))

magnitude : ℕ → String
unfolding fraction hours_part
magnitude u =
    if u ==ℕ 0
    then "0s"
    else if ltb u 1_000
    then show_ℕ u <> "ns"
    else if ltb u 1_000_000
    then show_ℕ (u / 1_000) <> fraction 3 u Bool.false "µs"
    else if ltb u 1_000_000_000
    then show_ℕ (u / 1_000_000) <> fraction 6 u Bool.false "ms"
    else let s = u / 1_000_000_000 in
      let tail = show_ℕ (s % 60) <> fraction 9 u Bool.false "s" in
      if s / 60 ==ℕ 0 then tail else hours_part (s / 60) tail

-- `d.String()`
unfoldable pub show : Duration → String
unfolding magnitude show_ℕ
show d = if neg_part d ==ℕ 0 then magnitude (pos_part d) else "-" <> magnitude (neg_part d)
