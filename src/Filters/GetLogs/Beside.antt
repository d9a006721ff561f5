-- ===== src/Filters/GetLogs/Beside.antt =====
-- eth_getLogs of pkg/transformer, beside a filter with the same parameters.
use charon.Prelude.{
  ℕ, ◌<◌, ◌^◌, ◌≡◌, refl, sym, ap, ◌∙◌, inl, inr, true, some, List, [], ◌∷◌, ◌++◌, map, Text, ℤ,
  pos, to_int64-lt, word, arith, Sum-cases, List-cases, append-nil, append_assoc,
}
use mathlib.Core.List.{map-append}
use charon.Rpc.{HexUtil, Node}
use charon.Hex.Prefix.{remove_hex_prefix}
use charon.Logs.{TransactionReceipt, SearchLogsRequest, SearchLogsTopic}
use charon.Logs.Topics.{
  translate_topics, translate_from, new_search_logs_topics, new_search_logs_topics_lem,
}
use charon.Logs.Search.{search_logs_and_filter_extra_topics}
use charon.Logs.Extract.{EthLog, extract_eth_logs_from_transaction_receipt}
use charon.Blocks.{get_block_number_by_raw_param}
use charon.Filters.{
  AddressParam, FilterType, Filter, FilterSimulator, new_filter, get_filter, put_filter,
}
use charon.Filters.Ids.{get_filter-put_filter}
use charon.Filters.Requests.{
  Change, Response, install_filter, request_new_filter_of, request_new_filter, to_search_logs_req,
  stored_topics, then_search, addressed, do_search_logs, logs_of, request_filter_logs,
  request_get_filter_logs, get_filter_logs_of,
}
use charon.Filters.Polls.{process_filter-installed, to_uint64-pos}
use charon.Filters.GetLogs.{
  to_request, append_logs, request_logs, request_get_logs, as_changes, as_filter_request,
  GetLogsRequest, addresses_of,
}

module _ (h : HexUtil) where
  append_logs_lem :
      (rs : List TransactionReceipt) (logs : List EthLog)
      → map Change.log (append_logs h logs rs) ≡ map Change.log logs ++ logs_of h rs
  unfolding append_logs logs_of
  append_logs_lem [] logs = sym (append-nil (map Change.log logs))
  append_logs_lem (r ∷ rs) logs =
      let more = extract_eth_logs_from_transaction_receipt h r r.logs in
      append_logs_lem rs (logs ++ more)
      ∙ ap (λ l. l ++ logs_of h rs) (map-append Change.log logs more)
      ∙ append_assoc (map Change.log logs) (map Change.log more) (logs_of h rs)

  do_search_logs-request_logs :
      (node : Node) (req : SearchLogsRequest)
      → do_search_logs h node req ≡ as_changes h (request_logs h node req)
  unfolding do_search_logs request_logs
  do_search_logs-request_logs node req =
      elim (Sum-cases (search_logs_and_filter_extra_topics node.search_logs req)) [
        | inl w ↦ rw (w.1, do_search_logs, request_logs)
        | inr w ↦
            rw (w.1, do_search_logs, request_logs)
              (ap Response.result (sym (append_logs_lem w.0 [])))
      ]

  -- A request for logs whose blocks and topics are understood.
  pub record Understood (node : Node) (req : GetLogsRequest) (a b : ℕ) (ts : List (List Text))
      : Type 0 where
    pub from : get_block_number_by_raw_param h node req.from_block true ≡ inr (pos a)
    pub to : get_block_number_by_raw_param h node req.to_block true ≡ inr (pos b)
    pub from_small : a < 2 ^ 63
    pub to_small : b < 2 ^ 63
    pub topics : translate_topics req.topics ≡ some ts

  -- An installed filter with the parameters of the request.
  record Same (req : GetLogsRequest) (a b : ℕ) (ts : List (List Text)) (f : Filter) : Type 0 where
    type : f.type ≡ FilterType.new_filter_ty
    request : f.request ≡ some (as_filter_request h req)
    last : f.last_block_number ≡ some a
    to : f.to_block_number ≡ some b
    topics : stored_topics h f.search_topics ≡ new_search_logs_topics ts

  abbrev request_of : ℤ → ℤ → List Text → List SearchLogsTopic → SearchLogsRequest
  request_of from to addresses topics = record {
    from_block = from;
    to_block = to;
    addresses = addresses;
    topics = topics;
  }

  then_search-addressed :
      (node : Node) (f : Filter) (from to : ℤ) (address : AddressParam) (ts : List SearchLogsTopic)
      → stored_topics h f.search_topics ≡ ts
      → then_search h node (addressed h f from to address)
        ≡ as_changes h (elim (addresses_of address) [
          | inl e ↦ Response.failure e
          | inr addresses ↦ request_logs h node (request_of from to addresses ts)
        ])
  unfolding addresses_of
  then_search-addressed node f from to AddressParam.absent ts e =
      rw e (do_search_logs-request_logs node (request_of from to [] ts))
  then_search-addressed node f from to (AddressParam.one a) ts e =
      rw e (do_search_logs-request_logs node (request_of from to (remove_hex_prefix a ∷ []) ts))
  then_search-addressed node f from to (AddressParam.many as_) ts e =
      rw e (do_search_logs-request_logs node (request_of from to (map remove_hex_prefix as_) ts))
  then_search-addressed node f from to (AddressParam.malformed m) ts e = refl

  filter_search :
      (node : Node) (req : GetLogsRequest) (a b : ℕ) (ts : List (List Text)) (f : Filter)
      → Understood node req a b ts
      → Same req a b ts f
      → request_filter_logs h node f
        ≡ then_search h node (addressed h f (pos a) (pos b) req.address)
  unfolding request_filter_logs to_search_logs_req
  filter_search node req a b ts f u s = simp (
    s.last,
    s.to,
    s.request,
    to_int64-lt a u.from_small,
    to_int64-lt b u.to_small,
    request_filter_logs,
    to_search_logs_req,
  )

  logs_search :
      (node : Node) (req : GetLogsRequest) (a b : ℕ) (ts : List (List Text))
      → Understood node req a b ts
      → request_get_logs h node (inr req) ≡ (elim (addresses_of req.address) [
        | inl e ↦ Response.failure e
        | inr addresses ↦
            request_logs h node (request_of (pos a) (pos b) addresses (new_search_logs_topics ts))
      ])
  unfolding request_get_logs to_request
  logs_search node req a b ts u = elim (Sum-cases (addresses_of req.address)) [
    | inl w ↦ simp (u.from, u.to, u.topics, w.1, request_get_logs, to_request)
    | inr w ↦ simp (u.from, u.to, u.topics, w.1, request_get_logs, to_request)
  ]

  request_filter_logs-Same :
      (node : Node) (req : GetLogsRequest) (a b : ℕ) (ts : List (List Text)) (f : Filter)
      → Understood node req a b ts
      → Same req a b ts f
      → request_filter_logs h node f ≡ as_changes h (request_get_logs h node (inr req))
  request_filter_logs-Same node req a b ts f u s =
      filter_search node req a b ts f u s
      ∙ then_search-addressed node f (pos a) (pos b) req.address (new_search_logs_topics ts)
          s.topics
      ∙ ap (as_changes h) (sym (logs_search node req a b ts u))

  get_filter_logs-Same :
      (node : Node) (req : GetLogsRequest) (a b : ℕ) (ts : List (List Text)) (f : Filter) (p : Text)
      (sim : FilterSimulator)
      → Understood node req a b ts
      → Same req a b ts f
      → h.decode_uint64 p ≡ inr f.id
      → get_filter f.id sim ≡ some f
      → request_get_filter_logs h node (inr (p ∷ [])) sim
        ≡ as_changes h (request_get_logs h node (inr req))
  unfolding request_get_filter_logs
  get_filter_logs-Same node req a b ts f p sim u s d g =
      rw (process_filter-installed h p f sim d g, request_get_filter_logs)
        (ap (get_filter_logs_of h node f) s.type ∙ request_filter_logs-Same node req a b ts f u s)

  new_filter_installs :
      (node : Node) (req : GetLogsRequest) (a b : ℕ) (ts : List (List Text)) (sim : FilterSimulator)
      → Understood node req a b ts
      → request_new_filter h node (inr (as_filter_request h req)) sim
        ≡ install_filter h (as_filter_request h req) (pos a) (pos b) sim
  unfolding request_new_filter request_new_filter_of
  new_filter_installs node req a b ts sim u =
      rw (u.from, request_new_filter_of, request_new_filter) (rw (u.to, request_new_filter_of))

  -- The filter that eth_newFilter installs for the request.
  installed_filter :
      (node : Node) (req : GetLogsRequest) (a b : ℕ) (ts : List (List Text)) (sim : FilterSimulator)
      → Understood node req a b ts
      → (f : Filter) × Same req a b ts f
        × (f.id < word)
        × (request_new_filter h node (inr (as_filter_request h req)) sim ≡ (
          put_filter f (new_filter FilterType.new_filter_ty (some (as_filter_request h req)) sim).0,
          Response.result (h.encode_uint64 f.id),
        ))
  unfolding request_new_filter request_new_filter_of install_filter new_filter translate_topics
      translate_from
  installed_filter node req a b ts sim u =
      let made = new_filter FilterType.new_filter_ty (some (as_filter_request h req)) sim in
      let f = record made.1 { last_block_number = some a; to_block_number = some b } in
      let from = to_uint64-pos a (omega (arith, u.from_small)) in
      let to = to_uint64-pos b (omega (arith, u.to_small)) in
      elim (List-cases req.topics) [
        | inl e ↦
            let none_given : translate_topics [] ≡ some ts =
              sym (ap translate_topics e) ∙ u.topics in
            let empty : [] ≡ ts = cc in
            (
              f,
              record {
                type = refl;
                request = refl;
                last = refl;
                to = refl;
                topics = empty ∙ sym (new_search_logs_topics_lem ts);
              },
              omega arith,
              new_filter_installs node req a b ts sim u ∙ simp (e, from, to, install_filter),
            )
        | inr (x, xs, e) ↦
            let given : translate_topics (x ∷ xs) ≡ some ts =
              sym (ap translate_topics e) ∙ u.topics in
            (
              record f { search_topics = some (new_search_logs_topics ts) },
              record { type = refl; request = refl; last = refl; to = refl; topics = refl },
              omega arith,
              new_filter_installs node req a b ts sim u ∙ simp (e, from, to, given, install_filter),
            )
      ]

  -- For every node, and every request for logs whose blocks are below 2^63 and whose topics are
  -- understood, where the library decodes the words that it encodes: installing a filter with the
  -- same parameters succeeds, and eth_getFilterLogs by its identifier responds just as eth_getLogs
  -- does on the same node, errors included.
  pub get_logs-filter_logs :
      (node : Node) (req : GetLogsRequest) (a b : ℕ) (ts : List (List Text)) (sim : FilterSimulator)
      → ((id : ℕ) → id < word → h.decode_uint64 (h.encode_uint64 id) ≡ inr id)
      → Understood node req a b ts
      → let (sim', response) = request_new_filter h node (inr (as_filter_request h req)) sim in
        (id : Text) × (response ≡ Response.result id)
        × (request_get_filter_logs h node (inr (id ∷ [])) sim'
            ≡ as_changes h (request_get_logs h node (inr req)))
  get_logs-filter_logs node req a b ts sim laws u =
      let (f, s, small, e) = installed_filter node req a b ts sim u in
      let sim' = (new_filter FilterType.new_filter_ty (some (as_filter_request h req)) sim).0 in
      let found : get_filter f.id (put_filter f sim') ≡ some f =
        ground (arith, get_filter-put_filter f f.id sim') in
      (
        h.encode_uint64 f.id,
        ap (λ r. r.1) e,
        ap (λ r. request_get_filter_logs h node (inr (h.encode_uint64 f.id ∷ [])) r.0) e
            ∙ get_filter_logs-Same node req a b ts f (h.encode_uint64 f.id) (put_filter f sim') u s
                (laws f.id small) found,
      )
