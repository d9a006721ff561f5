-- ===== src/Tests/Client.antt =====
-- Requests to the node and its errors at concrete inputs.
use charon.Client.{
  contains, ClientCache, Tries, Outcome, is_busy, is_cachable, store_response, get_response,
  try_request, max_tries,
}
use charon.Prelude.{
  false, ℕ, ◌+◌, ◌≤◌, ◌<◌, ◌≡◌, refl, inl, inr, true, Option, none, some, [], Text, codes, text_eq,
  has_prefix, lookup, arith, ltb, if◌then◌else◌,
}
use charon.NodeErrors.{NodeError, ClientError}
use charon.Client.Retries.{Ends, IsBusyAt, request_ends, busy_node_answers}

abbrev busy : ClientError
busy = ClientError.known NodeError.revo_work_queue_depth

-- Busy twice, then an answer.
abbrev env : Tries
env = record {
  do_request = λ i. if ltb i 2 then inl busy else inr (codes "7");
  error_handler = λ i e. none;
  is_cancelled = λ i. false;
}

-- An answer at once.
abbrev quick : Tries
quick = record env { do_request = λ i. inr (codes "7") }

request_ends_example : Ends env 0 4 (try_request env max_tries 0 [])
request_ends_example = request_ends env

is_busy-busy : is_busy busy ≡ true
unfolding is_busy contains has_prefix
is_busy-busy = refl

busy_at : (j : ℕ) → 0 ≤ j → j < 0 + 2 → IsBusyAt env j
busy_at j p q = (busy, ground arith, is_busy-busy, refl)

busy_node_answers_example :
    try_request env max_tries 0 [] ≡ (Outcome.answered (codes "7"), 0 + 2 + 1)
busy_node_answers_example = busy_node_answers env 2 (codes "7") (omega arith) busy_at refl

-- A node without a wallet, where the handler has loaded one.
abbrev no_wallet : ClientError
no_wallet = ClientError.known NodeError.wallet_not_found

abbrev recovering : Tries
recovering = record env { do_request = λ i. inl no_wallet }

no_wallet_not_busy : is_busy no_wallet ≡ false
unfolding is_busy contains has_prefix
no_wallet_not_busy = refl

abbrev unmarshal : Text → Option Text
unmarshal s = some s

abbrev empty : ClientCache
empty = []

abbrev stored : ClientCache
stored = store_response (codes "getblock") (some (codes "[]")) (codes "7") empty

quick_answer : (try_request quick max_tries 0 []).0 ≡ Outcome.answered (codes "7")
unfolding try_request
quick_answer = refl

getblock_cachable : is_cachable (codes "getblock") ≡ true
unfolding is_cachable text_eq
getblock_cachable = refl

not_stored : get_response (codes "getblock") (some (codes "[]")) empty ≡ none
unfolding get_response lookup
not_stored = refl
