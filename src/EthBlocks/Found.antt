-- ===== src/EthBlocks/Found.antt =====
-- pkg/transformer/eth_getBlockByHash.go: which transactions are in the response for a block.
use charon.Prelude.{
  ℕ, suc, ◌≡◌, ◌≢◌, ◌⊎◌, inl, inr, refl, sym, ◌∙◌, ap, Bool, true, Sum-cases, Bool-cases, List, [],
  ◌∷◌, ◌++◌, append-nil, append_assoc, Text, length, ◌==◌, arith,
}
use charon.Rpc.{JsonRpcError}
use charon.Lookups.{Failure, TxBlock, EthTransaction}
use charon.Lookups.ByHash.{Lookup}
use charon.EthBlocks.{
  BlockTransaction, EthBlock, BlockNode, full_transactions, block_transactions, block_response,
  get_block_by_hash,
}

Lookup-cases :
    {A : Type 0} (l : Lookup A)
    → ((a : A) × (l ≡ Lookup.result a))
      ⊎ ((l ≡ Lookup.null)
          ⊎ (((e : JsonRpcError) × (l ≡ Lookup.refused e))
              ⊎ ((l ≡ Lookup.panics) ⊎ (l ≡ Lookup.out_of_fuel))))
Lookup-cases (Lookup.result a) = inl (a, refl)
Lookup-cases Lookup.null = inr (inl refl)
Lookup-cases (Lookup.refused e) = inr (inr (inl (e, refl)))
Lookup-cases Lookup.panics = inr (inr (inr (inl refl)))
Lookup-cases Lookup.out_of_fuel = inr (inr (inr (inr refl)))

result_injective : {A : Type 0} (a b : A) → Lookup.result a ≡ Lookup.result b → a ≡ b
result_injective a b h = cc

module _ (encode_uint64 : ℕ → Text) (get_transaction : Text → Lookup EthTransaction)
    (ignore_unknown_tx : Bool) (n : BlockNode) where
  -- The transactions of some hashes that are known.
  unfoldable pub found : List Text → List BlockTransaction
  found [] = []
  found (tx_hash ∷ hashes) =
      let rest = found hashes in
      elim (get_transaction tx_hash) [
        | (Lookup.result tx) ↦ BlockTransaction.whole tx ∷ rest
        | _ ↦ rest
      ]

  -- That none is left out: not above the genesis block, but for the flag.
  abbrev pub IsComplete : ℕ → List Text → List BlockTransaction → Type 0
  IsComplete height hashes ts =
      (height ≡ 0) ⊎ ((ignore_unknown_tx ≡ true) ⊎ (length ts ≡ length hashes))

  one_more :
      (height : ℕ) (hashes : List Text) (ts : List BlockTransaction) (tx_hash : Text)
      (tx : BlockTransaction)
      → IsComplete height hashes ts
      → IsComplete height (tx_hash ∷ hashes) (tx ∷ ts)
  one_more height hashes ts tx_hash tx (inl z) = inl z
  one_more height hashes ts tx_hash tx (inr (inl i)) = inr (inl i)
  one_more height hashes ts tx_hash tx (inr (inr l)) = inr (inr (ap suc l))

  full_transactions-found :
      (height : ℕ) (hashes : List Text) (sofar ts : List BlockTransaction)
      → full_transactions encode_uint64 get_transaction ignore_unknown_tx n height hashes sofar
        ≡ Lookup.result ts
      → (ts ≡ sofar ++ found hashes) × IsComplete height hashes (found hashes)
  unfolding full_transactions found
  full_transactions-found height [] sofar ts h =
      (sym (result_injective sofar ts h) ∙ sym (append-nil sofar), inr (inr refl))
  full_transactions-found height (tx_hash ∷ hashes) sofar ts h =
      let known = found hashes in
      elim (Lookup-cases (get_transaction tx_hash)) [
        | inl (tx, e) ↦
            let tx' = BlockTransaction.whole tx in
            let (same, complete) =
              full_transactions-found height hashes (sofar ++ (tx' ∷ [])) ts
                (rw (e, full_transactions) at h) in
            rw (e, found)
              (
                same ∙ append_assoc sofar (tx' ∷ []) known,
                one_more height hashes known tx_hash tx' complete,
              )
        | inr (inl e) ↦ elim (Bool-cases (height == 0)) [
          | inl z ↦
              let (same, complete) =
                full_transactions-found height hashes sofar ts
                  (rw z at (rw (e, full_transactions) at h)) in
              rw (e, found) (same, inl (ground (arith, z)))
          | inr z ↦ elim (Bool-cases ignore_unknown_tx) [
            | inl i ↦
                let (same, complete) =
                  full_transactions-found height hashes sofar ts
                    (rw i at (rw z at (rw (e, full_transactions) at h))) in
                rw (e, found) (same, inr (inl i))
            | inr i ↦ absurd (ground (arith, (rw i at (rw z at (rw (e, full_transactions) at h)))))
          ]
        ]
        | inr (inr (inl (x, e))) ↦ absurd (ground (arith, (rw (e, full_transactions) at h)))
        | inr (inr (inr (inl e))) ↦ absurd (ground (arith, (rw (e, full_transactions) at h)))
        | inr (inr (inr (inr e))) ↦ absurd (ground (arith, (rw (e, full_transactions) at h)))
      ]

  no_header :
      (block_hash : Text) (response : EthBlock) (e : Failure)
      → n.get_block_header block_hash ≡ inl e
      → get_block_by_hash encode_uint64 get_transaction ignore_unknown_tx n block_hash true
        ≢ Lookup.result response
  unfolding get_block_by_hash
  no_header block_hash response Failure.invalid_address d =
      λ h. ground (arith, (rw (d, get_block_by_hash) at h))
  no_header block_hash response Failure.invalid_parameter d =
      λ h. ground (arith, (rw (d, get_block_by_hash) at h))
  no_header block_hash response Failure.empty_response d =
      λ h. ground (arith, (rw (d, get_block_by_hash) at h))
  no_header block_hash response (Failure.other e) d =
      λ h. ground (arith, (rw (d, get_block_by_hash) at h))

  -- For every block with whole transactions that is answered, the node has a block of the hash, and
  -- the response's transactions are the known ones among its hashes, in their order; and there is
  -- one for each hash, unless it is the genesis block or the flag lets unknown ones be.
  pub block_transactions_lem :
      (block_hash : Text) (response : EthBlock)
      → get_block_by_hash encode_uint64 get_transaction ignore_unknown_tx n block_hash true
        ≡ Lookup.result response
      → (block : TxBlock) × (n.get_block block_hash ≡ inr block)
        × (response.transactions ≡ found block.txs)
        × IsComplete block.height block.txs response.transactions
  unfolding get_block_by_hash block_transactions block_response
  block_transactions_lem block_hash response h = elim (Sum-cases (n.get_block_header block_hash)) [
    | inl (e, d) ↦ absurd (no_header block_hash response e d h)
    | inr (header, d) ↦ elim (Sum-cases (n.get_block block_hash)) [
      | inl (e, b) ↦ absurd (ground (arith, (rw b at (rw (d, get_block_by_hash) at h))))
      | inr (block, b) ↦
          elim (Lookup-cases (
            full_transactions encode_uint64 get_transaction ignore_unknown_tx n block.height
              block.txs [])) [
                | inl (ts, e) ↦
                    let (same, complete) = full_transactions-found block.height block.txs [] ts e in
                    let r =
                      result_injective _ response
                        (rw e at (rw b at (rw (d, get_block_by_hash) at h))) in
                    let given : ts ≡ response.transactions = ap (λ x. x.transactions) r in
                    (block, b, sym given ∙ same, rw (← given) (rw same complete))
                | inr (inl e) ↦
                    absurd (ground (arith, (rw e at (rw b at (rw (d, get_block_by_hash) at h)))))
                | inr (inr (inl (x, e))) ↦
                    absurd (ground (arith, (rw e at (rw b at (rw (d, get_block_by_hash) at h)))))
                | inr (inr (inr (inl e))) ↦
                    absurd (ground (arith, (rw e at (rw b at (rw (d, get_block_by_hash) at h)))))
                | inr (inr (inr (inr e))) ↦
                    absurd (ground (arith, (rw e at (rw b at (rw (d, get_block_by_hash) at h)))))
              ]
    ]
  ]
