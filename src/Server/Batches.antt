-- ===== src/Server/Batches.antt =====
-- Batches over HTTP: pkg/server/server.go.
use charon.Prelude.{
  ◌≡◌, refl, sym, ap, ◌∙◌, inl, inr, true, false, Option, none, some, List, [], ◌∷◌, ◌++◌,
  append_assoc, append-nil, Text,
}
use charon.Rpc.{JsonRpcError}
use charon.Params.{Json}
use charon.Server.{
  JsonRpcResult, Shared, Handled, Reply, Transforms, Syntax, is_batch_requests, count,
  get_json_rpc_error,
}
use charon.Server.Requests.{JsonRpcRequest, unmarshal_requests, marshalled}
use charon.Server.Http.{
  then_batch, call_http_handler, batch_from, batch_requests, serve_http, interface_error,
  error_handler, reply_of,
}

module _ {S R : Type 0} (t : Transforms S R) where
  -- Requests one after the other, each replied to with a result.
  pub data Served
      : List (Option JsonRpcRequest) → Shared S → Shared S → List JsonRpcResult → Type 0 where
    done : {s : Shared S} → Served [] s s []
    next :
        {req : Option JsonRpcRequest} {reqs : List (Option JsonRpcRequest)} {s s' s'' : Shared S}
        {r : JsonRpcResult} {rs : List JsonRpcResult}
        → call_http_handler t req s ≡ (s', Handled.replied r)
        → Served reqs s' s'' rs
        → Served (req ∷ reqs) s s'' (r ∷ rs)

  batch_from-Served :
      {reqs : List (Option JsonRpcRequest)} {s s' : Shared S} {rs : List JsonRpcResult}
      (out : List JsonRpcResult)
      → Served reqs s s' rs
      → batch_from t out reqs s ≡ (s', Handled.replied (out ++ rs))
  unfolding batch_from
  batch_from-Served out Served.done = ap (λ l. (_, Handled.replied l)) (sym (append-nil out))
  batch_from-Served out (Served.next {reqs = reqs} {s'' = s''} {r = r} {rs = rs} e more) =
      ap (then_batch t (λ r' s'. batch_from t (out ++ (r' ∷ [])) reqs s')) e
      ∙ batch_from-Served (out ++ (r ∷ [])) more
      ∙ ap (λ l. (s'', Handled.replied l)) (append_assoc out (r ∷ []) rs)

  batch_from-fails :
      {before : List (Option JsonRpcRequest)} {s s' s'' : Shared S} {rs : List JsonRpcResult}
      (out : List JsonRpcResult) (req c : Option JsonRpcRequest)
      (after : List (Option JsonRpcRequest)) (e : Text)
      → Served before s s' rs
      → call_http_handler t req s' ≡ (s'', Handled.failed c e)
      → batch_from t out (before ++ (req ∷ after)) s ≡ (s'', Handled.failed none e)
  unfolding batch_from
  batch_from-fails out req c after e Served.done h =
      ap (then_batch t (λ r s. batch_from t (out ++ (r ∷ [])) after s)) h
  batch_from-fails out req c after e (Served.next {reqs = reqs} {r = r} g more) h =
      ap (then_batch t (λ r' s. batch_from t (out ++ (r' ∷ [])) (reqs ++ (req ∷ after)) s)) g
      ∙ batch_from-fails (out ++ (r ∷ [])) req c after e more h

  call-error :
      (req : JsonRpcRequest) (s : Shared S) (m : S) (err : JsonRpcError)
      → t.transform false (marshalled req) s.methods ≡ (m, inl err)
      → call_http_handler t (some req) s
        ≡ (count t false (record s { methods = m }), Handled.failed none (interface_error t))
  unfolding call_http_handler get_json_rpc_error
  call-error req s m err h = rw h refl

  batch_of :
      (syntax : Syntax) (body : Text) (v : Json) (reqs : List (Option JsonRpcRequest))
      (s : Shared S)
      → is_batch_requests body ≡ true
      → syntax.bind body ≡ inr v
      → unmarshal_requests v ≡ inr reqs
      → serve_http t syntax body s ≡ reply_of t Reply.many (batch_from t [] reqs s)
  unfolding serve_http
  batch_of syntax body v reqs s b w u = rw (b, w, u, batch_requests) refl

  -- A batch over HTTP in which the requests before one are replied to with results, and this one
  -- with an error, gets no responses at all, but a single error without an identifier; those behind
  -- it are not made, and what the ones before have changed stays.
  pub error_fails_batch :
      (syntax : Syntax) (body : Text) (v : Json) (before : List (Option JsonRpcRequest))
      (req : JsonRpcRequest) (after : List (Option JsonRpcRequest)) (s s' : Shared S)
      (rs : List JsonRpcResult) (m : S) (err : JsonRpcError)
      → is_batch_requests body ≡ true
      → syntax.bind body ≡ inr v
      → unmarshal_requests v ≡ inr (before ++ (some req ∷ after))
      → Served before s s' rs
      → t.transform false (marshalled req) s'.methods ≡ (m, inl err)
      → serve_http t syntax body s ≡ (
        count t false (record s' { methods = m }),
        Reply.one (error_handler t none (interface_error t)),
      )
  unfolding reply_of
  error_fails_batch syntax body v before req after s s' rs m err b w u served h =
      batch_of syntax body v (before ++ (some req ∷ after)) s b w u
      ∙ ap (reply_of t Reply.many) (
          batch_from-fails [] (some req) none after (interface_error t) served
            (call-error req s' m err h))

  -- A batch over HTTP whose requests are all replied to with results gets these, one for each and in
  -- their order.
  pub results_make_batch :
      (syntax : Syntax) (body : Text) (v : Json) (reqs : List (Option JsonRpcRequest))
      (s s' : Shared S) (rs : List JsonRpcResult)
      → is_batch_requests body ≡ true
      → syntax.bind body ≡ inr v
      → unmarshal_requests v ≡ inr reqs
      → Served reqs s s' rs
      → serve_http t syntax body s ≡ (s', Reply.many rs)
  unfolding reply_of
  results_make_batch syntax body v reqs s s' rs b w u served =
      batch_of syntax body v reqs s b w u ∙ ap (reply_of t Reply.many) (batch_from-Served [] served)
