-- ===== src/Calls/Retried.antt =====
-- How often eth_blockNumber asks the node: pkg/transformer/eth_blockNumber.go.
use charon.Prelude.{
  ℕ, zero, suc, ◌+◌, ◌≤◌, ◌≡◌, refl, ◌⊎◌, inl, inr, Bool, true, false, Text, ℤ, arith, Sum-cases,
  Bool-cases,
}
use charon.Amounts.{BigHex}
use charon.Rpc.{HexUtil, JsonRpcError, new_callback_error}
use charon.Client.{contains}
use charon.Calls.Queries.{ask_block_number, request_block_number, try_again}

module _ (answers : ℕ → Text ⊎ ℤ) (cancelled : ℕ → Bool) where
  -- Each answer from one try up to another, this one excluded, is an error that asks to try again,
  -- and the request waits to the end of the pause behind it.
  pub data Retried : ℕ → ℕ → Type 0 where
    now : {i : ℕ} → Retried i i
    again :
        {i k : ℕ} (e : Text)
        → answers i ≡ inl e
        → contains e try_again ≡ true
        → cancelled i ≡ false
        → Retried (suc i) k
        → Retried i k

module _ (h : BigHex) (answers : ℕ → Text ⊎ ℤ) (cancelled : ℕ → Bool) where
  -- The try is the last one: it gives the number of the response, or the error of the response, and
  -- then there is no try left, or the error does not ask for another, or the request is cancelled.
  abbrev pub IsLast : ℕ → ℕ → JsonRpcError ⊎ Text → Type 0
  IsLast limit k out =
      ((n : ℤ) × (answers k ≡ inr n) × (out ≡ inr (h.encode_big n)))
      ⊎ ((e : Text) × (answers k ≡ inl e)
          × (out ≡ inl (new_callback_error e))
          × ((k ≡ limit) ⊎ (contains e try_again ≡ false) ⊎ (cancelled k ≡ true)))

module _ (h : BigHex) (u : HexUtil) (answers : ℕ → Text ⊎ ℤ) (cancelled : ℕ → Bool) where
  asks :
      (retries i limit : ℕ)
      → i + retries ≡ limit
      → let (out, calls) = ask_block_number h u retries answers cancelled i in
        (k : ℕ) × (calls ≡ k + 1)
        × (k ≤ limit)
        × Retried answers cancelled i k
        × IsLast h answers cancelled limit k out
  unfolding ask_block_number
  asks zero i limit s = elim (Sum-cases (answers i)) [
    | inr (n, e) ↦
        rw (e, ask_block_number) (i, omega arith, omega arith, Retried.now, inl (n, e, refl))
    | inl (f, e) ↦
        rw (e, ask_block_number)
          (i, omega arith, omega arith, Retried.now, inr (f, e, refl, inl (omega arith)))
  ]
  asks (suc r) i limit s = elim (Sum-cases (answers i)) [
    | inr (n, e) ↦
        rw (e, ask_block_number) (i, omega arith, omega arith, Retried.now, inl (n, e, refl))
    | inl (f, e) ↦ elim (Bool-cases (contains f try_again)) [
      | inr b ↦
          rw (e, ask_block_number, b)
            (i, omega arith, omega arith, Retried.now, inr (f, e, refl, inr (inl b)))
      | inl b ↦ elim (Bool-cases (cancelled i)) [
        | inl c ↦
            rw (e, ask_block_number, b, c)
              (i, omega arith, omega arith, Retried.now, inr (f, e, refl, inr (inr c)))
        | inr c ↦
            let (k, calls, le, before, last) = asks r (suc i) limit (omega arith) in
            rw (e, ask_block_number, b, c) (k, calls, le, Retried.again f e b c before, last)
      ]
    ]
  ]

  -- For every series of answers, eth_blockNumber asks the node from once to six times. Each answer
  -- but the last one is an error that asks to try again, behind which the request is not cancelled.
  -- The response is the number that the last answer gives, or its error, and with an error it was
  -- the sixth, or did not ask to try again, or the request was cancelled behind it.
  pub answered_within_six :
      let (out, calls) = request_block_number h u answers cancelled in
      (k : ℕ) × (calls ≡ k + 1)
      × (k ≤ 5)
      × Retried answers cancelled 0 k
      × IsLast h answers cancelled 5 k out
  unfolding request_block_number
  answered_within_six = asks 5 0 5 refl
