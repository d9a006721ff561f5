-- ===== src/Tests/Calls.antt =====
-- Calls handed on to the node, on some input.
use charon.Prelude.{
  ℕ, zero, suc, ◌+◌, ◌≤◌, ◌≡◌, refl, ◌⊎◌, inl, inr, false, some, [], ◌∷◌, Text, codes, text_eq,
  lookup, has_prefix, drop, length, ℤ, pos, arith,
}
use charon.Hex.Prefix.{add_hex_prefix}
use charon.Calls.{storage_value}
use charon.Calls.Queries.{request_block_number, try_again}
use charon.Calls.Signing.{padded_message}
use charon.Calls.Varint.{uvarint, uvarint-padded_message}
use charon.Calls.Retried.{Retried, IsLast, answered_within_six}
use charon.Tests.Fixtures.{hex_util}
use charon.Tests.Transactions.{big_hex}

uvarint-padded_message_example :
    uvarint (drop 22 (padded_message (codes "hello")))
    ≡ some (length (codes "hello"), codes "hello")
uvarint-padded_message_example = uvarint-padded_message (codes "hello") (omega arith)

-- The node is busy once.
abbrev answers : ℕ → Text ⊎ ℤ
answers zero = inl try_again
answers (suc i) = inr (pos 7)

answered_within_six_example :
    let (out, calls) = request_block_number big_hex hex_util answers (λ i. false) in
    (k : ℕ) × (calls ≡ k + 1)
    × (k ≤ 5)
    × Retried answers (λ i. false) 0 k
    × IsLast big_hex answers (λ i. false) 5 k out
answered_within_six_example = answered_within_six big_hex hex_util answers (λ i. false)

-- A slot that is not filled up to 64 digits is looked up with zeros in front.
short_slot :
    storage_value (codes "1") (
      ((codes "0000000000000000000000000000000000000000000000000000000000000001", codes "ff") ∷ [])
      ∷ [])
    ≡ codes "0xff"
unfolding storage_value text_eq lookup add_hex_prefix has_prefix
short_slot = refl
