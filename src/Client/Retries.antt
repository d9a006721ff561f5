-- ===== src/Client/Retries.antt =====
-- How the loop around a request ends.
use charon.Prelude.{
  ℕ, zero, suc, ◌+◌, ◌≤◌, ◌<◌, ◌≡◌, refl, sym, ap, ◌∙◌, inl, inr, Bool, true, false, not, ◌&&◌,
  ◌||◌, none, List, [], Text, arith, Sum-cases, Bool-cases, if◌then◌else◌, ◌==◌,
}
use native.Mathlib.Decide.{dec_lt}
use charon.NodeErrors.{NodeError, ClientError}
use charon.Client.{Tries, Outcome, is_busy, permits_retry, try_request, max_tries, mark_handled}

module _ (env : Tries) where
  -- What the try `k` meets for such an end.
  abbrev pub EndsAt : ℕ → Outcome → Type 0
  EndsAt k (Outcome.answered r) = env.do_request k ≡ inr r
  EndsAt k (Outcome.failed e) = env.do_request k ≡ inl e
  EndsAt k Outcome.cancelled =
      (env.is_cancelled k ≡ true) × (e : ClientError) × (env.do_request k ≡ inl e)
  EndsAt k Outcome.panic = ⊥

  -- The loop from try `i` on ends at a try `k`, at most `left` later, and the tries before gave
  -- errors.
  pub record Ends (i left : ℕ) (end : Outcome × ℕ) : Type 0 where
    pub k : ℕ
    pub from : i ≤ k
    pub within : k ≤ i + left
    pub calls : end.1 ≡ k + 1
    pub at_end : EndsAt k end.0
    pub before : (j : ℕ) → i ≤ j → j < k → (e : ClientError) × (env.do_request j ≡ inl e)

  abbrev goes_on : ℕ → ℕ → List NodeError → ClientError → Bool
  goes_on left i handled err =
      (permits_retry (env.error_handler i err) (left == 0) handled || is_busy err)
      && not (left == 0)

  -- The errors that are marked for the next try.
  abbrev marked : ℕ → ℕ → List NodeError → ClientError → List NodeError
  marked left i handled err =
      if permits_retry (env.error_handler i err) (left == 0) handled
      then mark_handled err handled
      else handled

  try_answered :
      (left i : ℕ) (handled : List NodeError) (r : Text)
      → env.do_request i ≡ inr r
      → try_request env (suc left) i handled ≡ (Outcome.answered r, i + 1)
  unfolding try_request
  try_answered left i handled r e = rw (e, try_request)

  try_failed :
      (left i : ℕ) (handled : List NodeError) (err : ClientError)
      → env.do_request i ≡ inl err
      → try_request env (suc left) i handled ≡ (
          if goes_on left i handled err
          then (if env.is_cancelled i
              then (Outcome.cancelled, i + 1)
              else try_request env left (i + 1) (marked left i handled err))
          else (Outcome.failed err, i + 1))
  unfolding try_request
  try_failed left i handled err e = rw (e, try_request)

  here : (i left : ℕ) (o : Outcome) → EndsAt i o → Ends i left (o, i + 1)
  here i left o e = record {
    k = i;
    from = omega arith;
    within = omega arith;
    calls = refl;
    at_end = e;
    before = λ j p q. absurd (omega arith);
  }

  later :
      (i left : ℕ) (end : Outcome × ℕ) (err : ClientError)
      → env.do_request i ≡ inl err
      → Ends (i + 1) left end
      → Ends i (suc left) end
  later i left end err e x = record {
    k = x.k;
    from = omega (arith, x.from);
    within = omega (arith, x.within);
    calls = x.calls;
    at_end = x.at_end;
    before = λ j p q. elim (dec_lt i j) [
      | yes r ↦ x.before j (omega arith) q
      | no r ↦ let same : j ≡ i = omega arith in (err, ap env.do_request same ∙ e)
    ];
  }

  try_request-Ends :
      (left i : ℕ) (handled : List NodeError) → Ends i left (try_request env (suc left) i handled)
  try_request-Ends zero i handled = elim (Sum-cases (env.do_request i)) [
    | inr (r, e) ↦ rw (try_answered zero i handled r e) (here i zero (Outcome.answered r) e)
    | inl (err, e) ↦
        let stop : goes_on zero i handled err ≡ false = ground arith in
        rw (try_failed zero i handled err e, stop) (here i zero (Outcome.failed err) e)
  ]
  try_request-Ends (suc left) i handled = elim (Sum-cases (env.do_request i)) [
    | inr (r, e) ↦
        rw (try_answered (suc left) i handled r e) (here i (suc left) (Outcome.answered r) e)
    | inl (err, e) ↦ elim (Bool-cases (goes_on (suc left) i handled err)) [
      | inr stop ↦
          rw (try_failed (suc left) i handled err e, stop)
            (here i (suc left) (Outcome.failed err) e)
      | inl go ↦ elim (Bool-cases (env.is_cancelled i)) [
        | inl c ↦
            rw (try_failed (suc left) i handled err e, go, c)
              (here i (suc left) Outcome.cancelled (c, err, e))
        | inr c ↦
            rw (try_failed (suc left) i handled err e, go, c)
              (later i left (try_request env (suc left) (i + 1) (marked (suc left) i handled err))
                err e (try_request-Ends left (i + 1) (marked (suc left) i handled err)))
      ]
    ]
  ]

  -- Whatever the node answers and the error handler returns: a request ends after at most 5 calls of
  -- the node and never in a panic. An answer is that of the last call, a failure is the error of the
  -- last call, a cancellation comes in the wait behind an error, and all calls before the last gave
  -- errors.
  pub request_ends : Ends 0 4 (try_request env max_tries 0 [])
  request_ends = try_request-Ends 4 0 []

  busy_goes_on :
      (left i : ℕ) (handled : List NodeError) (err : ClientError)
      → is_busy err ≡ true
      → goes_on (suc left) i handled err ≡ true
  busy_goes_on left i handled err b = ground arith

  -- The node is busy at a try, and the wait behind it is not cancelled.
  abbrev pub IsBusyAt : ℕ → Type 0
  IsBusyAt j =
      (e : ClientError) × (env.do_request j ≡ inl e)
      × (is_busy e ≡ true)
      × (env.is_cancelled j ≡ false)

  busy_waits :
      (k left i : ℕ) (handled : List NodeError) (r : Text)
      → k ≤ left
      → ((j : ℕ) → i ≤ j → j < i + k → IsBusyAt j)
      → env.do_request (i + k) ≡ inr r
      → try_request env (suc left) i handled ≡ (Outcome.answered r, i + k + 1)
  busy_waits zero left i handled r h b e =
      let same : i + zero ≡ i = omega arith in
      try_answered left i handled r (ap env.do_request (sym same) ∙ e)
      ∙ ap (λ n. (Outcome.answered r, n + 1)) (sym same)
  busy_waits (suc k) zero i handled r h b e = absurd (omega arith)
  busy_waits (suc k) (suc left) i handled r h b e =
      let (err, d, busy, waits) = b i (omega arith) (omega arith) in
      let next : i + 1 + k ≡ i + suc k = omega arith in
      try_failed (suc left) i handled err d
      ∙ rw (busy_goes_on left i handled err busy, waits)
          (busy_waits k left (i + 1) (marked (suc left) i handled err) r (omega arith)
              (λ j p q. b j (omega arith) (omega arith)) (ap env.do_request next ∙ e)
            ∙ ap (λ n. (Outcome.answered r, n + 1)) next)

  -- If the node is busy for the first tries, at most 4, and answers the next, and no wait is
  -- cancelled, then the request gets that answer, whatever the error handler returns.
  pub busy_node_answers :
      (k : ℕ) (r : Text)
      → k ≤ 4
      → ((j : ℕ) → 0 ≤ j → j < 0 + k → IsBusyAt j)
      → env.do_request (0 + k) ≡ inr r
      → try_request env max_tries 0 [] ≡ (Outcome.answered r, 0 + k + 1)
  busy_node_answers k r h b e = busy_waits k 4 0 [] r h b e

  -- If the first try fails, the node is not busy, and the error handler returns nil, as it does after
  -- it has recovered from the error, then the request fails with that error and is not tried again.
  pub recovered_not_retried :
      (err : ClientError)
      → env.do_request 0 ≡ inl err
      → env.error_handler 0 err ≡ none
      → is_busy err ≡ false
      → try_request env max_tries 0 [] ≡ (Outcome.failed err, 1)
  unfolding permits_retry
  recovered_not_retried err d n b =
      let stop : goes_on 4 0 [] err ≡ false = ground arith in try_failed 4 0 [] err d ∙ rw stop
