-- ===== src/Notifier/Backoff.antt =====
-- pkg/notifier/subscription.go, `getBackoff` and the wait between two polls. Durations are in
-- nanoseconds; the loop calls with 0 ≤ min ≤ max, where Go's signed `max - min` is this one.
use charon.Prelude.{ℕ, ◌-◌, ◌*◌, ◌/◌, ◌≤◌, ◌<◌, ◌≡◌, refl, arith, ltb, ◌==◌, if◌then◌else◌, max}

abbrev pub second : ℕ
second = 1_000_000_000

abbrev pub millisecond : ℕ
millisecond = 1_000_000

abbrev pub max_failures : ℕ
max_failures = 10

unfoldable pub get_backoff : ℕ → ℕ → ℕ → ℕ
get_backoff count low high =
    if count == 0
    then low
    else if ltb max_failures count
    then high
    else (high - low) / max_failures * count

abbrev pub minimum_time_between_calls : ℕ
minimum_time_between_calls = 100 * millisecond

-- The wait of the loop after a call: `timeAfterCall.Sub(timeAfterCall)` is what the source computes
-- as the time that the call took.
unfoldable pub wait_time : ℕ → ℕ → ℕ → ℕ
wait_time failures before after =
    let backoff = get_backoff failures 0 (15 * second) in
    let call_took = after - after in
    if ltb call_took minimum_time_between_calls
    then max backoff (minimum_time_between_calls - call_took)
    else backoff

mul_mono : (q a b : ℕ) → a ≤ b → q * a ≤ q * b
mul_mono q a b h = grind arith

share_le : (a high : ℕ) → a ≤ max_failures → (high - 0) / max_failures * a ≤ high
share_le a high h = omega (arith, mul_mono ((high - 0) / max_failures) a max_failures h)

get_backoff-zero_mono : (a b high : ℕ) → a ≤ b → get_backoff a 0 high ≤ get_backoff b 0 high
unfolding get_backoff
get_backoff-zero_mono a b high h =
    ground (arith, mul_mono ((high - 0) / max_failures) a b h, share_le a high)

get_backoff-le : (b high : ℕ) → get_backoff b 0 high ≤ high
unfolding get_backoff
get_backoff-le b high = ground (arith, share_le b high)

-- Without a lower limit, the backoff grows with the count of failures and never passes the upper
-- limit; above 10 failures it is the upper limit, and with none it is 0.
pub get_backoff_bounds :
    (a b high : ℕ)
    → a ≤ b
    → (get_backoff a 0 high ≤ get_backoff b 0 high)
      × (get_backoff b 0 high ≤ high)
      × (max_failures < b → get_backoff b 0 high ≡ high)
      × (get_backoff 0 0 high ≡ 0)
unfolding get_backoff
get_backoff_bounds a b high h =
    (get_backoff-zero_mono a b high h, get_backoff-le b high, λ p. ground arith, refl)

-- Whatever the number of failures and however long the call took, the wait lies between 100 ms and
-- 15 s, grows with the failures, and is the same for a call of any other length.
pub wait_time_bounds :
    (a b before after before' after' : ℕ)
    → a ≤ b
    → (100 * millisecond ≤ wait_time a before after)
      × (wait_time a before after ≤ 15 * second)
      × (wait_time a before after ≤ wait_time b before' after')
      × (wait_time a before after ≡ wait_time a before' after')
unfolding wait_time
wait_time_bounds a b before after before' after' h =
    let low = get_backoff-zero_mono a b (15 * second) h in
    let high = get_backoff-le a (15 * second) in
    let top = get_backoff-le b (15 * second) in
    (ground arith, ground arith, ground arith, ground arith)
