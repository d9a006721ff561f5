-- ===== src/Client.antt =====
-- pkg/revo/client.go and pkg/revo/client_cache.go: a request to the node, with its retries and the
-- cache of responses. The mutexes are held while the maps change, so each call on the cache is one
-- step.
pub mod Retries
pub mod Cache
pub mod Backoff
use charon.Prelude.{
  ℕ, zero, suc, ◌+◌, ◌-◌, ◌*◌, ◌/◌, ◌^◌, ◌⊎◌, inl, inr, Bool, true, false, not, ◌&&◌, ◌||◌, Option,
  none, some, List, [], ◌∷◌, ◌++◌, Map, lookup, insert, remove, text_Eq, Text, codes, text_eq,
  has_prefix, ◌==◌, if◌then◌else◌, min, max,
}
use charon.NodeErrors.{NodeError, ClientError, message_of}

abbrev pub maximum_request_time : ℕ
maximum_request_time = 10000

-- In milliseconds.
abbrev pub maximum_backoff : ℕ
maximum_backoff = 2000

abbrev pub cachable_methods : List Text
cachable_methods =
    codes "getblock"
    ∷ codes "gethexaddress"
    ∷ codes "getrawtransaction"
    ∷ codes "gettxout"
    ∷ codes "decoderawtransaction"
    ∷ []

abbrev pub ClientCache : Type 0
ClientCache = Map Text (Map Text Text)

abbrev is_one_of : List Text → Text → Bool
is_one_of [] method = false
is_one_of (m ∷ ms) method =
    let rest = is_one_of ms method in if text_eq m method then true else rest

unfoldable pub is_cachable : Text → Bool
is_cachable method = is_one_of cachable_methods method

-- The responses of a method, none of them if the map is not there.
abbrev pub responses_of : Option (Map Text Text) → Map Text Text
responses_of none = []
responses_of (some responses) = responses

-- `storeResponse` by marshalled parameters; `none` is that they cannot be marshalled. A response
-- that is there stays.
unfoldable pub store_response : Text → Option Text → Text → ClientCache → ClientCache
store_response method none response cache = cache
store_response method (some params) response cache =
    let responses = responses_of (lookup method cache) in
    elim (lookup params responses) [
      | none ↦ insert method (insert params response responses) cache
      | some _ ↦ insert method responses cache
    ]

unfoldable pub get_response : Text → Option Text → ClientCache → Option Text
get_response method none cache = none
get_response method (some params) cache = lookup params (responses_of (lookup method cache))

-- What the timer of a stored response does when it fires.
unfoldable pub flush_response : Text → Text → ClientCache → ClientCache
flush_response method params cache = elim (lookup method cache) [
  | none ↦ cache
  | some responses ↦ insert method (remove params responses) cache
]

-- `strings.Contains(s, t)` for a text that is not empty.
unfoldable pub contains : Text → Text → Bool
contains [] t = false
contains (c ∷ s) t = let rest = contains s t in if has_prefix (c ∷ s) t then true else rest

-- Whether the error's text has the one of `ErrRevoWorkQueueDepth` in it. The code in front of an
-- unknown error has no part of it.
unfoldable pub is_busy : ClientError → Bool
is_busy (ClientError.known e) = contains (message_of e) (message_of NodeError.revo_work_queue_depth)
is_busy (ClientError.unknown code m) = contains m (message_of NodeError.revo_work_queue_depth)
is_busy (ClientError.other m) = contains m (message_of NodeError.revo_work_queue_depth)

-- A lookup in `handledErrors`, whose keys are error values: one of the package is told by its
-- message, any other is a fresh value.
unfoldable pub is_handled : List NodeError → ClientError → Bool
is_handled [] e = false
is_handled (x ∷ xs) (ClientError.known e) =
    let rest = is_handled xs (ClientError.known e) in
    if text_eq (message_of x) (message_of e) then true else rest
is_handled (x ∷ xs) e = false

abbrev pub mark_handled : ClientError → List NodeError → List NodeError
mark_handled (ClientError.known e) handled = e ∷ handled
mark_handled _ handled = handled

-- What happens around one request, by the number of the try: the outcome of `Do`, what the error
-- handler returns (`none` is nil), and whether the context ends in the wait.
pub record Tries : Type 0 where
  pub do_request : ℕ → ClientError ⊎ Text
  pub error_handler : ℕ → ClientError → Option ClientError
  pub is_cancelled : ℕ → Bool

-- How the loop ends.
pub data Outcome : Type 0 where
  answered : Text → Outcome
  failed : ClientError → Outcome
  cancelled : Outcome
  panic : Outcome

abbrev pub max_tries : ℕ
max_tries = max (maximum_request_time / maximum_backoff) 1

-- Whether the handler's error permits another try.
unfoldable pub permits_retry : Option ClientError → Bool → List NodeError → Bool
permits_retry none is_last handled = false
permits_retry (some e) is_last handled = not is_last && not (is_handled handled e)

-- What a request gives.
pub data Response (A : Type 0) : Type 0 where
  result : A → Response A
  not_unmarshalled : Response A
  not_made : Response A
  no_answer : Outcome → Response A

module _ (env : Tries) where
  -- The loop with so many tries left, from try `i` on: its end, and how many requests were made by
  -- then. Behind the loop without an answer, Go reads through a nil pointer.
  unfoldable pub try_request : ℕ → ℕ → List NodeError → Outcome × ℕ
  try_request zero i handled = (Outcome.panic, i)
  try_request (suc left) i handled = elim (env.do_request i) [
    | inr response ↦ (Outcome.answered response, i + 1)
    | inl err ↦
        let is_last = left == 0 in
        let retry = permits_retry (env.error_handler i err) is_last handled in
        let rest = try_request left (i + 1) (if retry then mark_handled err handled else handled) in
        if (retry || is_busy err) && not is_last
        then (if env.is_cancelled i then (Outcome.cancelled, i + 1) else rest)
        else (Outcome.failed err, i + 1)
  ]

  -- The end of a request that was made.
  unfoldable pub finish :
      {A : Type 0}
      → (Text → Option A)
      → Text
      → Option Text
      → Outcome
      → ClientCache
      → ClientCache × Response A
  finish unmarshal method params (Outcome.answered raw) cache = elim (unmarshal raw) [
    | none ↦ (cache, Response.not_unmarshalled)
    | some r ↦ (
      if is_cachable method then store_response method params raw cache else cache,
      Response.result r,
    )
  ]
  finish unmarshal method params Outcome.cancelled cache =
      (cache, Response.no_answer Outcome.cancelled)
  finish unmarshal method params (Outcome.failed e) cache =
      (cache, Response.no_answer (Outcome.failed e))
  finish unmarshal method params Outcome.panic cache = (cache, Response.no_answer Outcome.panic)

  -- The request behind the look into the cache, with the number of calls of the node.
  unfoldable pub make_request :
      {A : Type 0}
      → (Text → Option A)
      → Text
      → Option Text
      → ClientCache
      → ClientCache × Response A × ℕ
  make_request unmarshal method none cache = (cache, Response.not_made, 0)
  make_request unmarshal method (some params) cache =
      let (outcome, calls) = try_request max_tries 0 [] in
      let (cache', response) = finish unmarshal method (some params) outcome cache in
      (cache', response, calls)

  -- `RequestWithContext`
  unfoldable pub request_with_context :
      {A : Type 0}
      → (Text → Option A)
      → Text
      → Option Text
      → ClientCache
      → ClientCache × Response A × ℕ
  request_with_context unmarshal method params cache =
      elim (if is_cachable method then get_response method params cache else none) [
        | none ↦ make_request unmarshal method params cache
        | some cached ↦ elim (unmarshal cached) [
          | none ↦ (cache, Response.not_unmarshalled, 0)
          | some r ↦ (cache, Response.result r, 0)
        ]
      ]

-- `computeBackoff` in milliseconds; `random` is `rand.Intn(500)`, or 250 without randomness.
unfoldable pub compute_backoff : ℕ → ℕ → ℕ
compute_backoff i random =
    let exponential_base = 250 * 2 ^ min i 10 in
    min (exponential_base + random - 250) maximum_backoff
