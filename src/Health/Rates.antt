-- ===== src/Health/Rates.antt =====
-- When the check of a rate fails.
use charon.Prelude.{ℕ, ◌<◌, ◌≡◌, true, arith}
use charon.Analytics.{Analytics}
use charon.Health.{test_error_rate}

-- For every percentage below 100 and all counters the check of the rate passes, even if no request
-- succeeded.
pub low_percentage_passes :
    (percent : ℕ) (a : Analytics) → percent < 100 → test_error_rate percent a ≡ true
unfolding test_error_rate
low_percentage_passes percent a h = ground arith
