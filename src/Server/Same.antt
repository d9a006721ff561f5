-- ===== src/Server/Same.antt =====
-- The same request over HTTP and over a websocket: pkg/server/handler.go.
use charon.Prelude.{
  ◌||◌, codes, text_eq, ◌≡◌, ◌≢◌, refl, sym, ap, ◌∙◌, ◌⊎◌, inl, inr, Bool, true, false, Option,
  none, some, List, [], ◌∷◌, ◌++◌, map, Text, Sum-cases, Option-cases, append_assoc, append-nil,
}
use mathlib.Core.Path.{subst, ap₂}
use charon.Rpc.{JsonRpcError}
use charon.Params.{Json, succeeds}
use charon.Params.Objects.{Progress, each_member, finished, unmarshal_struct}
use charon.Server.{
  rpc_version, JsonRpcResult, Shared, Handled, Reply, Transforms, Syntax, is_batch_requests, count,
  get_json_rpc_error, get_json_rpc_result,
}
use charon.Server.Requests.{
  JsonRpcRequest, unmarshal_request, request_so_far, requests_so_far, request_member, empty_request,
  pointer_to, set_so_far,
}
use charon.Server.Http.{http_request, respond, http_handler, serve_http, reply_of}
use charon.Server.Websocket.{
  rpc_response, get_rpc_responses, websocket_round, requests_of, reply_to, then_respond,
}

progress-finished :
    (p : Progress JsonRpcRequest) (req : JsonRpcRequest)
    → pointer_to (finished p) ≡ inr (some req)
    → set_so_far p ≡ req
progress-finished (inl e) req h = cc
progress-finished (inr (r, some e)) req h = cc
progress-finished (inr (r, none)) req h = cc

-- A request that is decoded with no error is what is set of it in any case.
so_far-decoded :
    (v : Json) (req : JsonRpcRequest)
    → unmarshal_request v ≡ inr (some req)
    → request_so_far v ≡ req
unfolding unmarshal_request request_so_far unmarshal_struct
so_far-decoded (Json.object ms) req h =
    progress-finished (each_member request_member ms (inr (empty_request, none))) req h
so_far-decoded Json.null req h = cc
so_far-decoded (Json.bool _) req h = cc
so_far-decoded (Json.number _) req h = cc
so_far-decoded (Json.string _) req h = cc
so_far-decoded (Json.array _) req h = cc

abbrev is_none : Option JsonRpcError → Bool
is_none none = true
is_none (some _) = false

-- The methods whose handlers ask the context for its notifier.
abbrev pub needs_notifier : Text → Bool
needs_notifier method =
    text_eq method (codes "eth_subscribe") || text_eq method (codes "eth_unsubscribe")

module _ {S R : Type 0} (t : Transforms S R)
    (marshals : (x : R) → succeeds (t.marshal x) ≡ true) where
  abbrev is_success : JsonRpcError ⊎ R → Bool
  is_success (inl err) = false
  is_success (inr x) = is_none (t.as_json_rpc_error x)

  -- The answer of the transformer makes one response, by both ways.
  record Responds (req : JsonRpcRequest) (m : S) (a : JsonRpcError ⊎ R) (s : Shared S)
      : Type 0 where
    response : JsonRpcResult
    over_websocket : rpc_response t req a ≡ inr response
    over_http :
        respond t req (m, a) s
        ≡ (count t (is_success a) (record s { methods = m }), Handled.replied response)
    same_id : response.id ≡ req.id

  marshal_fails : (x : R) (e : Text) → t.marshal x ≢ inl e
  marshal_fails x e h = let k = subst (λ o. succeeds o ≡ true) h (marshals x) in cc

  responds :
      (req : JsonRpcRequest) (m : S) (a : JsonRpcError ⊎ R) (s : Shared S) → Responds req m a s
  unfolding rpc_response respond get_json_rpc_error get_json_rpc_result
  responds req m (inl err) s = record {
    response = get_json_rpc_error (some req) err;
    over_websocket = refl;
    over_http = refl;
    same_id = refl;
  }
  responds req m (inr x) s = elim (Option-cases (t.as_json_rpc_error x)) [
    | inr (err, e) ↦ record {
      response = get_json_rpc_error (some req) err;
      over_websocket = rw (e, rpc_response) refl;
      over_http = rw (e, respond) refl;
      same_id = refl;
    }
    | inl e ↦ elim (Sum-cases (t.marshal x)) [
      | inl (f, g) ↦ absurd (marshal_fails x f g)
      | inr (raw, g) ↦ record {
        response = record {
          jsonrpc = rpc_version;
          raw_result = some raw;
          error = none;
          id = req.id;
        };
        over_websocket = rw (e, rpc_response, g, get_json_rpc_result) refl;
        over_http = rw (e, respond, g, get_json_rpc_result) refl;
        same_id = refl;
      }
    ]
  ]

  abbrev answered : Bool → JsonRpcRequest → Shared S → S × (JsonRpcError ⊎ R)
  answered notifies req s = t.transform notifies req s.methods

  abbrev after : JsonRpcRequest → Shared S → Shared S
  after req s = record s { methods = (answered true req s).0 }

  -- The one response.
  abbrev only : Bool → JsonRpcRequest → Shared S → JsonRpcResult
  only notifies req s =
      (responds req (answered notifies req s).0 (answered notifies req s).1 s).response

  http_alone :
      (syntax : Syntax) (message : Text) (v : Json) (req : JsonRpcRequest) (s : Shared S)
      → is_batch_requests message ≡ false
      → syntax.first message ≡ inr v
      → unmarshal_request v ≡ inr (some req)
      → serve_http t syntax message s ≡ (
        count t
            (is_success (answered false req s).1)
            (record s { methods = (answered false req s).0 }),
        Reply.one (only false req s),
      )
  unfolding serve_http http_request
  http_alone syntax message v req s b f u =
      rw (b, f, u, http_handler)
        (ap (reply_of t Reply.one)
          (responds req (answered false req s).0 (answered false req s).1 s).over_http)

  websocket_alone :
      (syntax : Syntax) (message : Text) (v : Json) (req : JsonRpcRequest) (s : Shared S)
      → is_batch_requests message ≡ false
      → syntax.whole message ≡ inr v
      → unmarshal_request v ≡ inr (some req)
      → websocket_round t syntax message s
        ≡ (record s { methods = (answered true req s).0 }, Reply.one (only true req s))
  unfolding websocket_round requests_of get_rpc_responses
  websocket_alone syntax message v req s b w u =
      rw (b, w, so_far-decoded v req u)
        (ap
          (λ o.
            reply_to t false (then_respond t (λ r. (after req s, inr (r ∷ []))) (after req s) o))
          (responds req (answered true req s).0 (answered true req s).1 s).over_websocket)

  -- A message that is a single object, decoded with no error, and for a method that needs no
  -- notifier, which any but eth_subscribe and eth_unsubscribe is, is answered over a websocket just
  -- as over HTTP, with a result or an error, where each result can be printed; and the methods leave
  -- the same state.
  pub same_response :
      (alike : (req : JsonRpcRequest) (m : S)
        → needs_notifier req.method ≡ false
        → t.transform true req m ≡ t.transform false req m)
      (syntax : Syntax) (message : Text) (v : Json) (req : JsonRpcRequest) (s : Shared S)
      → is_batch_requests message ≡ false
      → syntax.first message ≡ inr v
      → syntax.whole message ≡ inr v
      → unmarshal_request v ≡ inr (some req)
      → needs_notifier req.method ≡ false
      → let (s', reply) = websocket_round t syntax message s in
        let (s'', reply') = serve_http t syntax message s in
        (reply ≡ reply') × (s'.methods ≡ s''.methods)
  same_response alike syntax message v req s b f w u needs =
      let ws = websocket_alone syntax message v req s b w u in
      let http = http_alone syntax message v req s b f u in
      let same = alike req s.methods needs in
      (
        ap (λ p. p.1) ws
            ∙ ap (λ a. Reply.one (responds req a.0 a.1 s).response) same
            ∙ sym (ap (λ p. p.1) http),
        ap (λ p. p.0.methods) ws ∙ ap (λ a. a.0) same ∙ sym (ap (λ p. p.0.methods) http),
      )

  responses_identified :
      (out : List JsonRpcResult) (reqs : List JsonRpcRequest) (s : Shared S)
      → (s' : Shared S) × (rs : List JsonRpcResult) × (get_rpc_responses t out reqs s
          ≡ (s', inr (out ++ rs)))
        × (map (λ r. r.id) rs ≡ map (λ q. q.id) reqs)
  unfolding get_rpc_responses
  responses_identified out [] s = (s, [], ap (λ l. (s, inr l)) (sym (append-nil out)), refl)
  responses_identified out (req ∷ reqs) s =
      let a = responds req (answered true req s).0 (answered true req s).1 s in
      let (s', rs, e, ids) = responses_identified (out ++ (a.response ∷ [])) reqs (after req s) in
      (
        s',
        a.response ∷ rs,
        ap
              (then_respond t (λ r. get_rpc_responses t (out ++ (r ∷ [])) reqs (after req s))
                (after req s))
              a.over_websocket
            ∙ e
            ∙ ap (λ l. (s', inr l)) (append_assoc out (a.response ∷ []) rs),
        ap₂ ◌∷◌ a.same_id ids,
      )

  -- A batch over a websocket gets a response for each of its requests, in their order and with their
  -- identifiers, also where some are errors, if each result can be printed.
  pub websocket_batch_identified :
      (syntax : Syntax) (message : Text) (v : Json) (s : Shared S)
      → is_batch_requests message ≡ true
      → syntax.whole message ≡ inr v
      → (s' : Shared S) × (rs : List JsonRpcResult) × (websocket_round t syntax message s
          ≡ (s', Reply.many rs))
        × (map (λ r. r.id) rs ≡ map (λ q. q.id) (requests_so_far v))
  unfolding websocket_round requests_of
  websocket_batch_identified syntax message v s b w =
      let (s', rs, e, ids) = responses_identified [] (requests_so_far v) s in
      (s', rs, rw (b, w) (ap (reply_to t true) e), ids)
