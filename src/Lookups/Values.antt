-- ===== src/Lookups/Values.antt =====
-- pkg/transformer/eth_getTransactionByHash.go: which value a reward transaction is reported with.
use charon.Prelude.{
  ◌||◌, ℕ, ◌-◌, Bool, List, Text, if◌then◌else◌, ◌==◌, ltb, not, to_int64, to_uint64,
}
use charon.Lookups.{Vout}
use charon.Lookups.Rewards.{convert_from_satoshi_to_wei}
use charon.Lookups.Totals.{kept, total_out}

-- The satoshis between two amounts.
abbrev pub distance : ℕ → ℕ → ℕ
distance a b = if ltb a b then b - a else a - b

wei_of : ℕ → ℕ
wei_of bits = to_uint64 (convert_from_satoshi_to_wei (to_int64 bits))

-- Whether outputs come back to the sender or none has an amount.
abbrev pub keeps_fee : Text → List Vout → Bool
keeps_fee from vs = not (kept from vs == 0) || (total_out vs == 0)
