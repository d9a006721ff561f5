-- ===== src/Client/Backoff.antt =====
-- The waits between the tries of a request.
use charon.Prelude.{ℕ, zero, suc, ◌+◌, ◌*◌, ◌^◌, ◌≤◌, ◌<◌, arith}
use charon.Client.{maximum_request_time, maximum_backoff, compute_backoff}

first_waits :
    (i r : ℕ)
    → r < 500
    → i ≤ 2
    → (250 * 2 ^ i ≤ compute_backoff i r + 250) × (compute_backoff i r < 250 * 2 ^ i + 250)
unfolding compute_backoff
first_waits zero r h k = (ground arith, ground arith)
first_waits (suc zero) r h k = (ground arith, ground arith)
first_waits (suc (suc zero)) r h k = (ground arith, ground arith)
first_waits (suc (suc (suc i))) r h k = absurd (omega arith)

-- For all random numbers below 500: a wait is 2 seconds at most; the waits behind the first three
-- tries lie within 250 ms of 250 ms, 500 ms and 1 s; and the four waits that a request can have
-- between its tries take less than half of the time that it may take.
pub compute_backoff_bounds :
    (i r r1 r2 r3 : ℕ)
    → r < 500
    → r1 < 500
    → r2 < 500
    → r3 < 500
    → (compute_backoff i r ≤ maximum_backoff)
      × (i ≤ 2
          → (250 * 2 ^ i ≤ compute_backoff i r + 250) × (compute_backoff i r < 250 * 2 ^ i + 250))
      × (2
            * (compute_backoff 0 r
                + compute_backoff 1 r1
                + compute_backoff 2 r2
                + compute_backoff 3 r3)
          < maximum_request_time)
unfolding compute_backoff
compute_backoff_bounds i r r1 r2 r3 h h1 h2 h3 =
    (ground arith, λ k. first_waits i r h k, ground arith)
