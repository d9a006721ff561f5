-- ===== src/Server/Websocket.antt =====
-- A message over a websocket: pkg/server/handler.go.
use charon.Prelude.{◌⊎◌, inl, inr, Bool, true, false, none, some, List, [], ◌∷◌, ◌++◌, Text}
use charon.Rpc.{JsonRpcError}
use charon.Params.{Json}
use charon.Server.Requests.{JsonRpcRequest, request_so_far, requests_so_far, empty_request}
use charon.Server.{
  JsonRpcResult, Shared, Reply, Transforms, Syntax, is_batch_requests, get_json_rpc_error,
  get_json_rpc_result,
}

module _ {S R : Type 0} (t : Transforms S R) where
  -- A response in `getRpcResponses`.
  unfoldable pub rpc_response : JsonRpcRequest → JsonRpcError ⊎ R → Text ⊎ JsonRpcResult
  unfolding get_json_rpc_result get_json_rpc_error
  rpc_response req (inl err) = inr (get_json_rpc_error (some req) err)
  rpc_response req (inr result) = elim (t.as_json_rpc_error result) [
    | some err ↦ inr (get_json_rpc_error (some req) err)
    | none ↦ get_json_rpc_result t req result
  ]

  abbrev pub then_respond :
      (JsonRpcResult → Shared S × (Text ⊎ List JsonRpcResult))
      → Shared S
      → Text ⊎ JsonRpcResult
      → Shared S × (Text ⊎ List JsonRpcResult)
  then_respond next s (inl e) = (s, inl e)
  then_respond next s (inr response) = next response

  -- `getRpcResponses`, with the responses so far.
  unfoldable pub get_rpc_responses :
      List JsonRpcResult → List JsonRpcRequest → Shared S → Shared S × (Text ⊎ List JsonRpcResult)
  unfolding rpc_response
  get_rpc_responses responses [] s = (s, inr responses)
  get_rpc_responses responses (req ∷ reqs) s =
      let (m, answer) = t.transform true req s.methods in
      let s' = record s { methods = m } in
      then_respond (λ response. get_rpc_responses (responses ++ (response ∷ [])) reqs s') s'
        (rpc_response req answer)

  -- The requests of a message; the errors of its decoding are not looked at.
  unfoldable pub requests_of : Bool → Text ⊎ Json → List JsonRpcRequest
  unfolding request_so_far requests_so_far
  requests_of true (inl _) = []
  requests_of true (inr v) = requests_so_far v
  requests_of false (inl _) = empty_request ∷ []
  requests_of false (inr v) = request_so_far v ∷ []

  abbrev pub reply_to : Bool → Shared S × (Text ⊎ List JsonRpcResult) → Shared S × Reply
  reply_to batched (s, inl _) = (s, Reply.nothing)
  reply_to true (s, inr responses) = (s, Reply.many responses)
  reply_to false (s, inr (response ∷ _)) = (s, Reply.one response)
  reply_to false (s, inr []) = (s, Reply.many [])

  -- A round of the loop of `websocketHandler` for a message; `nothing` is that the loop ends.
  unfoldable pub websocket_round : Syntax → Text → Shared S → Shared S × Reply
  unfolding is_batch_requests get_rpc_responses requests_of
  websocket_round syntax message s =
      let batched = is_batch_requests message in
      reply_to batched (get_rpc_responses [] (requests_of batched (syntax.whole message)) s)
