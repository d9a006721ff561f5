-- ===== src/Lookups/Ends.antt =====
-- pkg/transformer/util.go: the search through the transactions before comes to an end.
use charon.Prelude.{
  ℕ, zero, suc, ◌≡◌, ◌≢◌, ◌<◌, ◌⊎◌, inl, inr, refl, Bool-cases, Option-cases, Sum-cases, some, Text,
  codes, text_eq, get_elem?, arith, ◌==◌, ap,
}
use charon.Scripts.{ContractInvokeInfo, parse_call, parse_create, split_spaces, last_word}
use charon.Lookups.{Vin, RawTx, TxNode}
use charon.Lookups.Senders.{
  Search, from_of, to_of, spending_input, read_script, search_sender_address, minus_one,
}

module _ {D : Type 0} (convert disasm_script : Text → Text ⊎ Text) (n : TxNode D) where
  -- Each transaction comes after the one whose output it spends.
  abbrev pub IsOrdered : (RawTx → ℕ) → Type 0
  IsOrdered rank =
      (tx prev : RawTx) (v : Vin)
      → spending_input tx.vins ≡ some v
      → n.get_raw_transaction v.id ≡ inr prev
      → rank prev < rank tx

  from_of-ends : (r : Text ⊎ ContractInvokeInfo) → from_of r ≢ Search.out_of_fuel
  from_of-ends (inl e) = λ h. cc
  from_of-ends (inr i) = λ h. cc

  to_of-ends : (r : Text ⊎ ContractInvokeInfo) → to_of r ≢ Search.out_of_fuel
  to_of-ends (inl e) = λ h. cc
  to_of-ends (inr i) = λ h. cc

  read_script-ends :
      (again : Search) (hex : Text)
      → again ≢ Search.out_of_fuel
      → read_script convert disasm_script n again hex ≢ Search.out_of_fuel
  unfolding read_script
  read_script-ends again hex h = elim (Sum-cases (disasm_script hex)) [
    | inl (e, d) ↦ rw (d, read_script) (λ p. ground arith)
    | inr (asm, d) ↦
        let c = from_of-ends (parse_create (split_spaces asm)) in
        let t = to_of-ends (parse_call (split_spaces asm)) in
        rw (d, read_script)
          (elim (Bool-cases (text_eq (last_word (split_spaces asm)) (codes "OP_SPEND"))) [
            | inl e ↦ rw e h
            | inr e ↦
                rw e
                  (elim (Bool-cases (text_eq (last_word (split_spaces asm)) (codes "OP_CREATE"))) [
                    | inl e' ↦ rw e' c
                    | inr e' ↦
                        rw e'
                          (elim (Bool-cases
                            (text_eq (last_word (split_spaces asm)) (codes "OP_CALL"))) [
                              | inl e'' ↦ rw e'' t
                              | inr e'' ↦ rw e'' (λ p. ground arith)
                            ])
                  ])
          ])
  ]

  -- Where each transaction comes after the one whose output it spends, by a number: a search with
  -- more fuel than the number of the transaction does not run out of it, and with any such fuel it
  -- ends in the same way.
  pub search_ends :
      (rank : RawTx → ℕ) (f g : ℕ) (tx : RawTx)
      → IsOrdered rank
      → rank tx < f
      → rank tx < g
      → (search_sender_address convert disasm_script n f tx ≢ Search.out_of_fuel)
        × (search_sender_address convert disasm_script n g tx
            ≡ search_sender_address convert disasm_script n f tx)
  unfolding search_sender_address
  search_ends rank zero g tx o h k = absurd (omega arith)
  search_ends rank (suc f) zero tx o h k = absurd (omega arith)
  search_ends rank (suc f) (suc g) tx o h k = elim (Option-cases (spending_input tx.vins)) [
    | inl e ↦ rw (e, search_sender_address) (λ p. ground arith, refl)
    | inr (v, e) ↦ elim (Bool-cases (v.vout_n == minus_one)) [
      | inl m ↦ rw (e, search_sender_address) (rw m (λ p. ground arith, refl))
      | inr m ↦ elim (Sum-cases (n.get_raw_transaction v.id)) [
        | inl (x, r) ↦ rw (e, search_sender_address) (rw m (rw r (λ p. ground arith, refl)))
        | inr (prev, r) ↦ elim (Option-cases (get_elem? prev.vouts v.vout_n)) [
          | inl none_there ↦
              rw (e, search_sender_address) (rw m (rw r (rw none_there (λ p. ground arith, refl))))
          | inr (out, there) ↦
              let lower = o tx prev v e r in
              let (ends, same) = search_ends rank f g prev o (omega arith) (omega arith) in
              rw (e, search_sender_address)
                (rw m (
                  rw r (
                    rw there (
                      read_script-ends (search_sender_address convert disasm_script n f prev)
                          out.hex ends,
                      ap (λ s. read_script convert disasm_script n s out.hex) same,
                    ))))
        ]
      ]
    ]
  ]
