-- ===== src/EthBlocks/Indexed/Known.antt =====
-- pkg/transformer/eth_getTransactionByBlockHashAndIndex.go: the transaction of a block all of whose
-- transactions are known.
use charon.Prelude.{
  ℕ, zero, suc, ◌^◌, ◌≡◌, refl, sym, ap, ◌∙◌, inl, inr, Bool, Bool-cases, Option, none, some, List,
  [], ◌∷◌, ◌++◌, append-nil, append_assoc, Text, get_elem?, ltb, if◌then◌else◌,
}
use charon.Rpc.{HexUtil}
use charon.Lookups.{TxBlock, EthTransaction}
use charon.Lookups.ByHash.{Lookup}
use charon.EthBlocks.{
  block_response, BlockHeader, BlockTransaction, BlockNode, full_transactions, block_transactions,
  get_block_by_hash,
}
use charon.EthBlocks.Found.{found}
use charon.EthBlocks.Indexed.{or_null, transaction_at, by_block_hash_and_index}

-- A transaction that is looked up, as one of a block.
abbrev pub as_whole : Lookup EthTransaction → Lookup BlockTransaction
as_whole (Lookup.result tx) = Lookup.result (BlockTransaction.whole tx)
as_whole Lookup.null = Lookup.null
as_whole (Lookup.refused e) = Lookup.refused e
as_whole Lookup.panics = Lookup.panics
as_whole Lookup.out_of_fuel = Lookup.out_of_fuel

module _ (h : HexUtil) (get_transaction : Text → Lookup EthTransaction) (ignore_unknown_tx : Bool)
    (n : BlockNode) where
  -- That each of some hashes is one of a known transaction.
  pub data AreKnown : List Text → Type 0 where
    none_left : AreKnown []
    one_more :
        {hash : Text} {hashes : List Text} (tx : EthTransaction)
        → get_transaction hash ≡ Lookup.result tx
        → AreKnown hashes
        → AreKnown (hash ∷ hashes)

  abbrev known : List Text → List BlockTransaction
  known = found h.encode_uint64 get_transaction ignore_unknown_tx n

  full_transactions-known :
      (height : ℕ) (hashes : List Text) (sofar : List BlockTransaction)
      → AreKnown hashes
      → full_transactions h.encode_uint64 get_transaction ignore_unknown_tx n height hashes sofar
        ≡ Lookup.result (sofar ++ known hashes)
  unfolding full_transactions found
  full_transactions-known height [] sofar AreKnown.none_left =
      ap (λ l. Lookup.result l) (sym (append-nil sofar))
  full_transactions-known height (hash ∷ hashes) sofar (AreKnown.one_more tx e k) =
      let tx' = BlockTransaction.whole tx in
      rw (e, full_transactions)
        (full_transactions-known height hashes (sofar ++ (tx' ∷ [])) k
          ∙ rw (e, found)
              (ap (λ l. Lookup.result l) (append_assoc sofar (tx' ∷ []) (known hashes))))

  -- The answer for an index below 2^63.
  abbrev pub looked_up : Option Text → Lookup BlockTransaction
  looked_up none = Lookup.null
  looked_up (some hash) = as_whole (get_transaction hash)

  known-at :
      (hashes : List Text) (i : ℕ)
      → AreKnown hashes
      → or_null (get_elem? (known hashes) i) ≡ looked_up (get_elem? hashes i)
  unfolding found
  known-at [] i AreKnown.none_left = refl
  known-at (hash ∷ hashes) zero (AreKnown.one_more tx e k) = rw (e, found) refl
  known-at (hash ∷ hashes) (suc i) (AreKnown.one_more tx e k) = rw (e, found) (known-at hashes i k)

  -- For a block that the node has and all of whose transactions are known: the answer for an index
  -- below 2^63 is what the look up of the hash at this index gives, or null past the last; and an
  -- index from 2^63 on panics.
  pub by_index_lem :
      (block_hash index : Text) (i : ℕ) (header : BlockHeader) (block : TxBlock)
      → h.decode_uint64 index ≡ inr i
      → n.get_block_header block_hash ≡ inr header
      → n.get_block block_hash ≡ inr block
      → AreKnown block.txs
      → by_block_hash_and_index h get_transaction ignore_unknown_tx n block_hash index
        ≡ (if ltb i (2 ^ 63) then looked_up (get_elem? block.txs i) else Lookup.panics)
  unfolding by_block_hash_and_index get_block_by_hash block_transactions transaction_at
      block_response
  by_index_lem block_hash index i header block d e b k =
      let f = full_transactions-known block.height block.txs [] k in
      rw (d, by_block_hash_and_index)
        (rw (e, get_block_by_hash)
          (rw b (
            rw f (elim (Bool-cases (ltb i (2 ^ 63))) [
              | inl l ↦ rw (l, transaction_at) (known-at block.txs i k)
              | inr l ↦ rw (l, transaction_at) refl
            ]))))
