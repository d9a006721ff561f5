-- ===== src/Health.antt =====
-- pkg/server/health.go: the checks of the node's height and of the rates of success. Times are in
-- seconds. A check holds the lock while it asks the node, so it is one step.
pub mod Heights
pub mod Rates
use charon.Prelude.{
  ℕ, ◌+◌, ◌-◌, ◌*◌, ◌/◌, ◌⊎◌, inl, inr, Bool, true, false, Option, none, some, List, [], ◌∷◌, Text,
  ltb, ◌==◌, if◌then◌else◌,
}
use charon.Analytics.{Analytics, get_success_rate}

pub data HealthError : Type 0 where
  block_syncing_seems_stalled lost_lots_of_blocks lost_few_blocks : HealthError
  request_failed : Text → HealthError

pub record Server : Type 0 where
  pub last_block : ℕ
  pub next_block_check : Option ℕ
  pub last_block_status : Option HealthError

-- Whether the next look at the node is due; it is at first.
abbrev pub is_due : ℕ → Option ℕ → Bool
is_due now none = true
is_due now (some next) = if ltb now next then false else true

-- The look at the node's height.
unfoldable pub look : ℕ → ℕ → Server → Server
look now blocks s =
    if blocks == s.last_block
    then record s {
      next_block_check = some (now + 15);
      last_block_status = some HealthError.block_syncing_seems_stalled;
    }
    else if ltb blocks s.last_block
    then (if ltb 10 (s.last_block - blocks)
        then record {
          last_block = 0;
          next_block_check = some (now + 60);
          last_block_status = some HealthError.lost_lots_of_blocks;
        }
        else record s {
          next_block_check = some (now + 10);
          last_block_status = some HealthError.lost_few_blocks;
        })
    else record {
      last_block = blocks;
      next_block_check = some (now + 90);
      last_block_status = none;
    }

-- `testBlocksSyncing`, with the height that the node would give or the message of its error.
unfoldable pub test_blocks_syncing : ℕ → Text ⊎ ℕ → Server → Server × Option HealthError
test_blocks_syncing now info s =
    if is_due now s.next_block_check
    then (elim info [
      | inl e ↦ (s, some (HealthError.request_failed e))
      | inr blocks ↦ (look now blocks s, (look now blocks s).last_block_status)
    ])
    else (s, s.last_block_status)

-- A series of checks, each with its time and the node's height, and what they report.
unfoldable pub check_all : List (ℕ × ℕ) → Server → List (Option HealthError)
check_all [] s = []
check_all ((now, blocks) ∷ checks) s =
    let (s', report) = test_blocks_syncing now (inr blocks) s in report ∷ check_all checks s'

-- `testRevodErrorRate` and `testCharonErrorRate`: whether the rate, a fraction, is not below the
-- least one, which is a quotient of integers.
unfoldable pub test_error_rate : ℕ → Analytics → Bool
test_error_rate health_check_percent a =
    let minimum_success_rate = health_check_percent / 100 in
    let (successes, total) = get_success_rate a in
    if ltb successes (minimum_success_rate * total) then false else true
