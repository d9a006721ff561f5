-- ===== src/Server.antt =====
-- pkg/server/handler.go, pkg/server/myctx.go and the batches of pkg/server/server.go: how a request
-- comes to the transformer and how its response goes back, over HTTP (Http) and over a websocket
-- (Websocket). The syntax of JSON and the transformer with its state are parameters. Every error that
-- the source constructs has no cause, so that `Error()` of it is nil.
pub mod Requests
pub mod Http
pub mod Websocket
pub mod Batches
pub mod Same
use charon.Prelude.{
  ℕ, ◌⊎◌, inl, inr, Bool, true, false, Option, none, some, List, [], ◌∷◌, ◌++◌, Text, codes,
  if◌then◌else◌, ◌==◌, pos,
}
use charon.Rpc.{JsonRpcError, new_json_rpc_error, wrap}
use charon.Params.{Json}
use charon.Server.Requests.{
  JsonRpcRequest, unmarshal_request, unmarshal_requests, request_so_far, requests_so_far,
  after_marshal,
}

-- `RPCVersion`
abbrev pub rpc_version : Text
rpc_version = codes "2.0"

pub record JsonRpcResult : Type 0 where
  pub jsonrpc : Text
  pub raw_result : Option Json
  pub error : Option JsonRpcError
  pub id : Option Json

-- The shared parts: what the methods change, and the outcomes that `ethAnalytics` has been given,
-- the last one first.
pub record Shared (S : Type 0) : Type 0 where
  pub methods : S
  pub outcomes : List Bool

-- What a handler does: it replies, it returns an error and leaves the context with the request that
-- it holds, or it panics.
pub data Handled (A : Type 0) : Type 0 where
  replied : A → Handled A
  failed : Option JsonRpcRequest → Text → Handled A
  panics : Handled A

-- What is sent to the client: a response, or those of a batch, or nothing.
pub data Reply : Type 0 where
  one : JsonRpcResult → Reply
  many : List JsonRpcResult → Reply
  nothing : Reply

-- Go's readers of JSON: the first value of a text, and one that is the whole text. `bind` is echo's
-- `Bind` for the content type of the request: the first value of a body whose type is JSON.
pub record Syntax : Type 0 where
  pub bind : Text → Text ⊎ Json
  pub first : Text → Text ⊎ Json
  pub whole : Text → Text ⊎ Json

-- `isBatchRequests`
unfoldable pub is_batch_requests : Text → Bool
is_batch_requests [] = false
is_batch_requests (c ∷ msg) = c == b'['

-- `Transform`, where `true` is that the context of the request has a notifier, as it has over a
-- websocket, with what its results are: an explicit error, and what is printed of one.
pub record Transforms (S R : Type 0) : Type 0 where
  pub transform : Bool → JsonRpcRequest → S → S × (JsonRpcError ⊎ R)
  pub as_json_rpc_error : R → Option JsonRpcError
  pub marshal : R → Text ⊎ Json

-- `GetJSONRPCError`, for the request that the context holds.
unfoldable pub get_json_rpc_error : Option JsonRpcRequest → JsonRpcError → JsonRpcResult
get_json_rpc_error none err = record {
  jsonrpc = rpc_version;
  raw_result = none;
  error = some err;
  id = none;
}
get_json_rpc_error (some req) err = record {
  jsonrpc = rpc_version;
  raw_result = none;
  error = some err;
  id = req.id;
}

module _ {S R : Type 0} (t : Transforms S R) where
  -- `GetJSONRPCResult` with `NewJSONRPCResult`.
  unfoldable pub get_json_rpc_result : JsonRpcRequest → R → Text ⊎ JsonRpcResult
  get_json_rpc_result req result = elim (t.marshal result) [
    | inl e ↦ inl e
    | inr raw ↦
        inr (record { jsonrpc = rpc_version; raw_result = some raw; error = none; id = req.id })
  ]

  -- `ethAnalytics.Success` and `ethAnalytics.Failure`
  abbrev pub count : Bool → Shared S → Shared S
  count outcome s = record s { outcomes = outcome ∷ s.outcomes }
