-- ===== src/Server/Http.antt =====
-- A request over HTTP, alone or in a batch: pkg/server/handler.go and pkg/server/server.go.
use charon.Prelude.{
  ◌⊎◌, inl, inr, true, false, Option, none, some, List, [], ◌∷◌, ◌++◌, Text, codes, if◌then◌else◌,
  pos,
}
use charon.Rpc.{JsonRpcError, new_json_rpc_error, wrap}
use charon.Params.{Json}
use charon.Server.Requests.{JsonRpcRequest, unmarshal_request, unmarshal_requests, after_marshal}
use charon.Server.{
  JsonRpcResult, Shared, Handled, Reply, Transforms, Syntax, is_batch_requests, get_json_rpc_error,
  get_json_rpc_result, count,
}

module _ {S R : Type 0} (t : Transforms S R) where
  -- What `httpHandler` does with the answer of the transformer.
  unfoldable pub respond :
      JsonRpcRequest → S × (JsonRpcError ⊎ R) → Shared S → Shared S × Handled JsonRpcResult
  unfolding get_json_rpc_result get_json_rpc_error
  respond req (m, inl err) s = (
    count t false (record s { methods = m }),
    Handled.replied (get_json_rpc_error (some req) err),
  )
  respond req (m, inr result) s = elim (t.as_json_rpc_error result) [
    | some err ↦ (
      count t false (record s { methods = m }),
      Handled.replied (get_json_rpc_error (some req) err),
    )
    | none ↦ (
      count t true (record s { methods = m }),
      elim (get_json_rpc_result t req result) [
        | inl e ↦ Handled.failed (some req) e
        | inr response ↦ Handled.replied response
      ],
    )
  ]

  -- `httpHandler` behind the decoding: a body that is `null` leaves no request.
  unfoldable pub http_request : Option JsonRpcRequest → Shared S → Shared S × Handled JsonRpcResult
  unfolding respond
  http_request none s = (s, Handled.panics)
  http_request (some req) s = respond req (t.transform false req s.methods) s

  -- `httpHandler`, of the value that the decoder reads.
  unfoldable pub http_handler : Text ⊎ Json → Shared S → Shared S × Handled JsonRpcResult
  unfolding http_request unmarshal_request
  http_handler (inl e) s =
      (count t false s, Handled.failed none (wrap (codes "json decoder issue") e))
  http_handler (inr v) s = elim (unmarshal_request v) [
    | inl e ↦ (count t false s, Handled.failed none (wrap (codes "json decoder issue") e))
    | inr req ↦ http_request req s
  ]

  -- `errorHandler`, with the request that the context holds.
  unfoldable pub error_handler : Option JsonRpcRequest → Text → JsonRpcResult
  unfolding get_json_rpc_error
  error_handler req e = get_json_rpc_error req (new_json_rpc_error (pos 100) e)

  abbrev pub interface_error : Text
  interface_error =
      codes
        "json: cannot unmarshal object into Go struct field JSONRPCResult.error of type eth.JSONRPCError"

  -- A response is decoded again: a type that is an interface with methods takes no object, and the
  -- identifier of a request that has none was printed as `null`.
  unfoldable pub reread : JsonRpcResult → Text ⊎ JsonRpcResult
  reread r = elim r.error [ some _ ↦ inl interface_error | none ↦ inr r ]

  abbrev pub decoded : Text ⊎ JsonRpcResult → Handled JsonRpcResult
  decoded (inl e) = Handled.failed none e
  decoded (inr r) = Handled.replied r

  -- What is read of the reply, or of that of `errorHandler`.
  unfoldable pub read_back : Handled JsonRpcResult → Handled JsonRpcResult
  unfolding error_handler reread
  read_back Handled.panics = Handled.panics
  read_back (Handled.failed req e) = decoded (reread (error_handler req e))
  read_back (Handled.replied r) = decoded (reread r)

  -- `callHttpHandler`
  unfoldable pub call_http_handler :
      Option JsonRpcRequest → Shared S → Shared S × Handled JsonRpcResult
  unfolding http_request after_marshal read_back
  call_http_handler req s = let (s', h) = http_request (after_marshal req) s in (s', read_back h)

  -- A round of it, with what follows a result.
  abbrev pub then_batch :
      (JsonRpcResult → Shared S → Shared S × Handled (List JsonRpcResult))
      → Shared S × Handled JsonRpcResult
      → Shared S × Handled (List JsonRpcResult)
  then_batch next (s, Handled.panics) = (s, Handled.panics)
  then_batch next (s, Handled.failed _ e) = (s, Handled.failed none e)
  then_batch next (s, Handled.replied r) = next r s

  -- The loop of `batchRequestsMiddleware`, with the results so far.
  unfoldable pub batch_from :
      List JsonRpcResult
      → List (Option JsonRpcRequest)
      → Shared S
      → Shared S × Handled (List JsonRpcResult)
  batch_from results [] s = (s, Handled.replied results)
  batch_from results (req ∷ reqs) s =
      then_batch (λ r s'. batch_from (results ++ (r ∷ [])) reqs s') (call_http_handler req s)

  -- `batchRequestsMiddleware` of a body that starts with a bracket.
  unfoldable pub batch_requests : Text ⊎ Json → Shared S → Shared S × Handled (List JsonRpcResult)
  unfolding batch_from unmarshal_requests
  batch_requests (inl e) s = (s, Handled.failed none e)
  batch_requests (inr v) s = elim (unmarshal_requests v) [
    | inl e ↦ (s, Handled.failed none e)
    | inr reqs ↦ batch_from [] reqs s
  ]

  -- What the client gets of a handler, by `errorHandler` where it fails.
  unfoldable pub reply_of : {A : Type 0} → (A → Reply) → Shared S × Handled A → Shared S × Reply
  unfolding error_handler
  reply_of reply (s, Handled.panics) = (s, Reply.nothing)
  reply_of reply (s, Handled.failed req e) = (s, Reply.one (error_handler req e))
  reply_of reply (s, Handled.replied a) = (s, reply a)

  -- A request over HTTP.
  unfoldable pub serve_http : Syntax → Text → Shared S → Shared S × Reply
  unfolding is_batch_requests reply_of http_handler batch_requests
  serve_http syntax body s =
      if is_batch_requests body
      then reply_of Reply.many (batch_requests (syntax.bind body) s)
      else reply_of Reply.one (http_handler (syntax.first body) s)
