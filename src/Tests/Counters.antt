-- ===== src/Tests/Counters.antt =====
-- The counters and the polling loop at concrete inputs.
use charon.Prelude.{
  ℕ, ◌*◌, ◌≤◌, ◌<◌, ◌≡◌, refl, Bool, true, false, some, List, [], ◌∷◌, arith, length, last_n,
}
use charon.Analytics.{Analytics, new_analytics, get_success_rate, run}
use charon.Analytics.Counts.{tally}
use charon.Analytics.History.{success_rate_window}
use charon.Notifier.Backoff.{get_backoff, second}

abbrev outcomes : List Bool
outcomes = true ∷ false ∷ true ∷ true ∷ []

success_rate_window_example :
    (a : Analytics) × (run outcomes (new_analytics 2) ≡ some a)
    × (length outcomes < 2 → get_success_rate a ≡ (1, 1))
    × (2 ≤ length outcomes → get_success_rate a ≡ (tally true (last_n 2 outcomes), 2))
success_rate_window_example = success_rate_window 2 outcomes (omega arith)

abbrev times : List ℕ
times = 10 ∷ 20 ∷ 30 ∷ []

-- Three failures of ten cost three tenths of the longest wait.
get_backoff-three : get_backoff 3 0 (15 * second) ≡ 4_500_000_000
unfolding get_backoff
get_backoff-three = refl
