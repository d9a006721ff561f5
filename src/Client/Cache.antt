-- ===== src/Client/Cache.antt =====
-- What a request finds of the ones before it in the cache.
use charon.Prelude.{
  Bool-cases, [], ◌≡◌, refl, ◌∙◌, inl, inr, true, Option, none, some, Map, lookup, insert, remove,
  lookup-insert, lookup-remove, text_Eq, Text, text_eq_refl, arith, Option-cases,
}
use charon.Client.{
  Outcome, ClientCache, Tries, Response, is_cachable, responses_of, store_response, get_response,
  flush_response, try_request, max_tries, finish, make_request, request_with_context,
}

lookup-insert_self :
    {V : Type 0} (k : Text) (v : V) (m : Map Text V) → lookup k (insert k v m) ≡ some v
lookup-insert_self k v m = ground (arith, lookup-insert k k v m, text_eq_refl k)

get_response-store_response :
    (m p raw : Text) (cache : ClientCache)
    → get_response m (some p) cache ≡ none
    → get_response m (some p) (store_response m (some p) raw cache) ≡ some raw
unfolding get_response store_response
get_response-store_response m p raw cache e =
    let responses = responses_of (lookup m cache) in
    rw (e, store_response, lookup-insert_self m (insert p raw responses) cache)
      (lookup-insert_self p raw responses)

get_response-flush_response :
    (m p : Text) (cache : ClientCache) → get_response m (some p) (flush_response m p cache) ≡ none
unfolding get_response flush_response lookup
get_response-flush_response m p cache = elim (Option-cases (lookup m cache)) [
  | inl e ↦ rw (e, flush_response) (rw e refl)
  | inr (responses, e) ↦
      rw (e, flush_response, lookup-insert_self m (remove p responses) cache)
        (ground (arith, lookup-remove p p responses, text_eq_refl p))
]

module _ {A : Type 0} (unmarshal : Text → Option A) (method params : Text) where
  cache_missed :
      (env : Tries) (cache : ClientCache)
      → get_response method (some params) cache ≡ none
      → request_with_context env unmarshal method (some params) cache
        ≡ make_request env unmarshal method (some params) cache
  unfolding request_with_context
  cache_missed env cache e = elim (Bool-cases (is_cachable method)) [
    | inl c ↦ rw (c, e, request_with_context)
    | inr c ↦ rw (c, request_with_context)
  ]

  -- Where a cachable request finds nothing in the cache and the node answers with a response that
  -- is understood: the request gives it, and the same request again gives the same without a call
  -- of the node, whatever the node would answer then; and once the timer of the response has fired,
  -- the request is made again.
  pub cached_request :
      (env later : Tries) (cache : ClientCache) (raw : Text) (r : A)
      → is_cachable method ≡ true
      → get_response method (some params) cache ≡ none
      → (try_request env max_tries 0 []).0 ≡ Outcome.answered raw
      → unmarshal raw ≡ some r
      → let cache' = store_response method (some params) raw cache in
        let flushed = flush_response method params cache' in
        (request_with_context env unmarshal method (some params) cache
          ≡ (cache', Response.result r, (try_request env max_tries 0 []).1))
        × (request_with_context later unmarshal method (some params) cache'
            ≡ (cache', Response.result r, 0))
        × (request_with_context later unmarshal method (some params) flushed
            ≡ make_request later unmarshal method (some params) flushed)
  unfolding make_request finish request_with_context
  cached_request env later cache raw r c e o u =
      let cache' = store_response method (some params) raw cache in
      (
        cache_missed env cache e ∙ rw (o, u, c, finish),
        rw (c, get_response-store_response method params raw cache e, u, request_with_context),
        cache_missed later (flush_response method params cache')
            (get_response-flush_response method params cache'),
      )
