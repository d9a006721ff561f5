-- ===== src/Tests/Health.antt =====
-- The health checks at concrete inputs.
use charon.Prelude.{ℕ, none, some, List, [], ◌∷◌}
use charon.Health.{Server}

abbrev started : Server
started = record { last_block = 0; next_block_check = none; last_block_status = none }

-- Every 100 seconds, at a greater height.
abbrev checks : List (ℕ × ℕ)
checks = (100, 7) ∷ (200, 8) ∷ (300, 11) ∷ []

-- A node that fell from 40 to 20.
abbrev high : Server
high = record { last_block = 40; next_block_check = some 90; last_block_status = none }
