-- ===== src/Server/Requests.antt =====
-- `JSONRPCRequest` of pkg/eth/eth.go, decoded strictly and as far as it goes.
use charon.Prelude.{
  ◌⊎◌, inl, inr, Option, none, some, List, [], ◌∷◌, map, Text, codes, if◌then◌else◌,
}
use charon.Params.{Json, cannot_unmarshal, elements}
use charon.Params.Objects.{Progress, text_field, each_member, unmarshal_struct, is_named}

-- The identifier and the parameters are missing, or any value, `null` included.
pub record JsonRpcRequest : Type 0 where
  pub jsonrpc : Text
  pub method : Text
  pub id : Option Json
  pub params : Option Json

abbrev pub empty_request : JsonRpcRequest
empty_request = record { jsonrpc = []; method = []; id = none; params = none }

unfoldable pub request_member : Text → Json → JsonRpcRequest × Option Text → Progress JsonRpcRequest
request_member name v (r, e) =
    if is_named (codes "jsonrpc") name
    then text_field (codes "JSONRPCRequest.jsonrpc") (λ s q. record q { jsonrpc = s }) v (r, e)
    else if is_named (codes "method") name
    then text_field (codes "JSONRPCRequest.method") (λ s q. record q { method = s }) v (r, e)
    else if is_named (codes "id") name
    then inr (record r { id = some v }, e)
    else if is_named (codes "params") name
    then inr (record r { params = some v }, e)
    else inr (r, e)

abbrev pub pointer_to : Text ⊎ JsonRpcRequest → Text ⊎ Option JsonRpcRequest
pointer_to (inl e) = inl e
pointer_to (inr r) = inr (some r)

-- Into a pointer to a request, which `null` makes nil.
unfoldable pub unmarshal_request : Json → Text ⊎ Option JsonRpcRequest
unfolding unmarshal_struct request_member
unmarshal_request Json.null = inr none
unmarshal_request v =
    pointer_to (unmarshal_struct (codes "eth.JSONRPCRequest") request_member empty_request v)

unfoldable pub each_request : List Json → Text ⊎ List (Option JsonRpcRequest)
unfolding unmarshal_request
each_request [] = inr []
each_request (v ∷ vs) =
    let rest = each_request vs in
    elim (unmarshal_request v) [
      | inl e ↦ inl e
      | inr r ↦ elim rest [ inl e ↦ inl e | inr rs ↦ inr (r ∷ rs) ]
    ]

-- Into a slice of pointers to requests.
unfoldable pub unmarshal_requests : Json → Text ⊎ List (Option JsonRpcRequest)
unfolding each_request
unmarshal_requests Json.null = inr []
unmarshal_requests (Json.array vs) = each_request (elements vs)
unmarshal_requests v = inl (cannot_unmarshal v (codes "[]*eth.JSONRPCRequest"))

abbrev pub set_so_far : Progress JsonRpcRequest → JsonRpcRequest
set_so_far (inl _) = empty_request
set_so_far (inr (r, _)) = r

-- What is set of a request where the error of its decoding is not looked at.
unfoldable pub request_so_far : Json → JsonRpcRequest
unfolding each_member request_member
request_so_far (Json.object ms) =
    set_so_far (each_member request_member ms (inr (empty_request, none)))
request_so_far v = empty_request

unfoldable pub requests_so_far : Json → List JsonRpcRequest
unfolding request_so_far
requests_so_far (Json.array vs) = map request_so_far (elements vs)
requests_so_far v = []

abbrev pub null_if_missing : Option Json → Json
null_if_missing none = Json.null
null_if_missing (some v) = v

-- A request that is printed and decoded again: an identifier or parameters that are missing are
-- `null` then.
abbrev pub marshalled : JsonRpcRequest → JsonRpcRequest
marshalled r = record r {
  id = some (null_if_missing r.id);
  params = some (null_if_missing r.params);
}

unfoldable pub after_marshal : Option JsonRpcRequest → Option JsonRpcRequest
after_marshal none = none
after_marshal (some r) = some (marshalled r)
