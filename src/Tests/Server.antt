-- ===== src/Tests/Server.antt =====
-- Requests to the server, alone and in batches.
use charon.Prelude.{
  ℕ, ◌+◌, ◌≡◌, refl, inl, inr, true, false, none, some, List, [], ◌∷◌, map, Text, codes, text_eq,
  to_lower, if◌then◌else◌,
}
use charon.Rpc.{new_method_not_found_error}
use charon.Params.{Json, Members, jsons}
use charon.Server.{JsonRpcResult, Shared, Reply, Transforms, Syntax, is_batch_requests, count}
use charon.Server.Requests.{JsonRpcRequest, unmarshal_requests, unmarshal_request, requests_so_far}
use charon.Server.Http.{serve_http, error_handler, interface_error, call_http_handler}
use charon.Server.Websocket.{websocket_round}
use charon.Server.Batches.{Served, error_fails_batch}
use charon.Server.Same.{same_response, websocket_batch_identified}

-- One method, whose result is a text; the state is the number of its calls.
abbrev transforms : Transforms ℕ Json
transforms = record {
  transform = λ notifies req n. (
    n + 1,
    if text_eq req.method (codes "eth_syncing")
        then inr (Json.string (codes "no"))
        else inl (new_method_not_found_error req.method),
  );
  as_json_rpc_error = λ v. none;
  marshal = λ v. inr v;
}

abbrev request_value : Text → Text → Json
request_value method id = Json.object (
    Members.member (codes "method") (Json.string method)
      (Members.member (codes "id") (Json.number id) Members.end))

abbrev request_named : Text → Text → JsonRpcRequest
request_named method id = record {
  jsonrpc = [];
  method = method;
  id = some (Json.number id);
  params = none;
}

abbrev first_value : Json
first_value = request_value (codes "eth_syncing") (codes "1")

abbrev second_value : Json
second_value = request_value (codes "eth_mining") (codes "2")

abbrev batch_value : Json
batch_value = Json.array (jsons (first_value ∷ second_value ∷ []))

-- It reads the one value, whatever the text.
abbrev reads : Json → Syntax
reads v = record { bind = λ s. inr v; first = λ s. inr v; whole = λ s. inr v }

abbrev start : Shared ℕ
start = record { methods = 0; outcomes = [] }

abbrev after_first : Shared ℕ
after_first = record { methods = 1; outcomes = true ∷ [] }

abbrev first_result : JsonRpcResult
first_result = record {
  jsonrpc = codes "2.0";
  raw_result = some (Json.string (codes "no"));
  error = none;
  id = some (Json.number (codes "1"));
}

first-Served :
    Served transforms
      (some (request_named (codes "eth_syncing") (codes "1")) ∷ [])
      start
      after_first
      (first_result ∷ [])
unfolding call_http_handler text_eq
first-Served = Served.next refl Served.done

error_fails_batch_example : serve_http transforms (reads batch_value) (codes "[") start ≡ (
  count transforms false (record after_first { methods = 2 }),
  Reply.one (error_handler transforms none (interface_error transforms)),
)
unfolding is_batch_requests unmarshal_requests text_eq to_lower
error_fails_batch_example =
    error_fails_batch transforms (reads batch_value) (codes "[") batch_value
      (some (request_named (codes "eth_syncing") (codes "1")) ∷ [])
      (request_named (codes "eth_mining") (codes "2")) [] start after_first (first_result ∷ []) 2
      (new_method_not_found_error (codes "eth_mining")) refl refl refl first-Served refl

same_response_example :
    let (s', reply) = websocket_round transforms (reads second_value) (codes "{") start in
    let (s'', reply') = serve_http transforms (reads second_value) (codes "{") start in
    (reply ≡ reply') × (s'.methods ≡ s''.methods)
unfolding is_batch_requests unmarshal_request text_eq to_lower
same_response_example =
    same_response transforms (λ v. refl) (λ req m n. refl) (reads second_value) (codes "{")
      second_value (request_named (codes "eth_mining") (codes "2")) start refl refl refl refl refl

websocket_batch_identified_example :
    (s' : Shared ℕ) × (rs : List JsonRpcResult) × (websocket_round transforms
        (reads batch_value)
        (codes "[")
        start
      ≡ (s', Reply.many rs))
    × (map (λ r. r.id) rs ≡ map (λ q. q.id) (requests_so_far batch_value))
unfolding is_batch_requests
websocket_batch_identified_example =
    websocket_batch_identified transforms (λ v. refl) (reads batch_value) (codes "[") batch_value
      start refl refl
