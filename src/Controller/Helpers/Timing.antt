-- ===== src/Controller/Helpers/Timing.antt =====
-- The backoff and the requeue delay (helpers.go).
use rca_lab.Base.{ℕ, zero, suc, ◌≡◌, refl, ◌≤◌, ◌+◌, arith}
use rca_lab.Base.Int.{ℤ, pos, negsuc, ◌≤ℤ◌, ◌<ℤ◌}
use rca_lab.Go.Duration.{Duration, seconds}
use rca_lab.Controller.Helpers.{backoff_for, lower_requeue}

abbrev five : ℕ → ℕ
five zero = 1
five (suc zero) = 1
five (suc (suc zero)) = 2
five (suc (suc (suc zero))) = 4
five (suc (suc (suc (suc zero)))) = 8
five (suc (suc (suc (suc (suc n))))) = 16

backoff-five : (n : ℕ) → backoff_for (pos n) ≡ seconds (five n)
unfolding backoff_for
backoff-five zero = refl
backoff-five (suc zero) = refl
backoff-five (suc (suc zero)) = refl
backoff-five (suc (suc (suc zero))) = refl
backoff-five (suc (suc (suc (suc zero)))) = refl
backoff-five (suc (suc (suc (suc (suc zero))))) = refl
backoff-five (suc (suc (suc (suc (suc (suc n)))))) = ground arith

backoff_negative : (n : ℕ) → backoff_for (negsuc n) ≡ seconds 1
unfolding backoff_for
backoff_negative n = ground arith

five_mono : (a b : ℕ) → a ≤ b → five a ≤ five b
five_mono zero b h = five_pos b
  where
    five_pos : (b : ℕ) → 1 ≤ five b
    five_pos b = ground arith
five_mono a b h = ground arith

-- More failed attempts never shorten the backoff, and it always lies between 1 s and 16 s.
pub backoff_for_bounds :
    (a b : ℤ)
    → a ≤ℤ b
    → (seconds 1 ≤ℤ backoff_for a)
      × (backoff_for a ≤ℤ backoff_for b)
      × (backoff_for b ≤ℤ seconds 16)
backoff_for_bounds (pos a) (pos b) h =
    rw (backoff-five a, backoff-five b)
      (ground (arith, five_mono a b, five_mono 0 a, five_mono b (b + 5)))
backoff_for_bounds (pos a) (negsuc b) h = absurd (omega arith)
backoff_for_bounds (negsuc a) (pos b) h = rw (backoff_negative a, backoff-five b) (ground arith)
backoff_for_bounds (negsuc a) (negsuc b) h =
    rw (backoff_negative a, backoff_negative b) (omega arith)

-- The requeue delay is unset (0) only if it was and the new one is not positive; else it is the
-- smaller of those that are set, so the order in which the actions lower it does not matter.
pub lower_requeue_lem :
    (cur a b : Duration)
    → pos 0 ≤ℤ cur
    → (pos 0 ≤ℤ lower_requeue cur a)
      × (lower_requeue cur a ≡ pos 0 → (cur ≡ pos 0) × (a ≤ℤ pos 0))
      × (pos 0 <ℤ a → (pos 0 <ℤ lower_requeue cur a) × (lower_requeue cur a ≤ℤ a))
      × (pos 0 <ℤ cur → (pos 0 <ℤ lower_requeue cur a) × (lower_requeue cur a ≤ℤ cur))
      × (lower_requeue (lower_requeue cur a) b ≡ lower_requeue (lower_requeue cur b) a)
unfolding lower_requeue
lower_requeue_lem cur a b h = (ground arith, ground arith, ground arith, ground arith, ground arith)
