-- ===== src/Filters/Requests.antt =====
-- The handlers of the filters in pkg/transformer: eth_newFilter, eth_newBlockFilter,
-- eth_getFilterChanges, eth_getFilterLogs and eth_uninstallFilter. A handler takes what the node
-- answers while it runs and returns the filters after it beside its response.
use charon.Prelude.{
  ℕ, zero, suc, ◌+◌, ◌^◌, ◌⊎◌, inl, inr, Bool, true, none, some, List, [], ◌∷◌, ◌++◌, map, Text,
  codes, ltb, ◌==◌, if◌then◌else◌, ℤ, to_int64, to_uint64, sub_uint64, word, ◌%◌, Option,
}
use charon.Logs.{SearchLogsTopic, TransactionReceipt, SearchLogsRequest}
use charon.Rpc.{JsonRpcError, HexUtil, Node, wrap, new_invalid_params_error, new_callback_error}
use charon.Hex.Prefix.{add_hex_prefix, remove_hex_prefix}
use charon.Logs.Topics.{translate_topics, new_search_logs_topics}
use charon.Logs.Search.{search_logs_and_filter_extra_topics}
use charon.Logs.Extract.{EthLog, extract_eth_logs_from_transaction_receipt}
use charon.Blocks.{get_block_number_by_raw_param}
use charon.Filters.{
  FilterType, Filter, FilterSimulator, NewFilterRequest, AddressParam, new_filter, uninstall,
  get_filter, put_filter,
}

-- The parameters of a request, decoded as an array of texts; `inl` is the message of the decoder.
abbrev pub Params : Type 0
Params = Text ⊎ List Text

-- An item of `GetFilterChangesResponse`.
pub data Change : Type 0 where
  hash : Text → Change
  log : EthLog → Change

-- What a handler gives: a result, an error of JSON-RPC, or a panic of the goroutine.
pub data Response {ℓ} (A : Type ℓ) : Type ℓ where
  result : A → Response A
  failure : JsonRpcError → Response A
  panic : Response A

-- The most entries of two words that a slice can have on a 64-bit machine, where `make` of more
-- panics.
abbrev pub max_slice : ℕ
max_slice = 2 ^ 44

-- `UnmarshalJSON` of the requests with one parameter, under `unmarshalRequest`.
unfoldable pub first_param : Params → Text ⊎ Text
first_param (inl e) = inl (wrap (codes "Invalid RPC input") (wrap (codes "json unmarshalling") e))
first_param (inr []) = inl (wrap (codes "Invalid RPC input") (codes "params must be set"))
first_param (inr (p ∷ ps)) = inr p

module _ (h : HexUtil) where
  -- The block that a regtest node then mines (`GenerateIfPossible`) is the node's state, and the
  -- response does not wait on it.
  unfoldable pub request_new_block_filter : Node → FilterSimulator → FilterSimulator × Response Text
  request_new_block_filter node sim = elim (node.get_block_count) [
    | inl e ↦ (sim, Response.failure (new_callback_error e))
    | inr block_count ↦
        let (sim', filter) = new_filter FilterType.new_block_filter_ty none sim in
        (
          put_filter (record filter { last_block_number = some (to_uint64 block_count) }) sim',
          Response.result (h.encode_uint64 filter.id),
        )
  ]

  -- The filter of eth_newFilter behind the two blocks. It stays installed where its topics are
  -- refused.
  unfoldable pub install_filter :
      NewFilterRequest → ℤ → ℤ → FilterSimulator → FilterSimulator × Response Text
  install_filter ethreq from to sim =
      let (sim', filter) = new_filter FilterType.new_filter_ty (some ethreq) sim in
      let filter' = record filter {
        last_block_number = some (to_uint64 from);
        to_block_number = some (to_uint64 to);
      } in
      elim (ethreq.topics) [
        | [] ↦ (put_filter filter' sim', Response.result (h.encode_uint64 filter.id))
        | t ∷ ts ↦ elim (translate_topics (t ∷ ts)) [
          | none ↦ (
            put_filter filter' sim',
            Response.failure (new_callback_error (codes "Invalid topics")),
          )
          | some topics ↦ (
            put_filter (record filter' { search_topics = some (new_search_logs_topics topics) })
                sim',
            Response.result (h.encode_uint64 filter.id),
          )
        ]
      ]

  unfoldable pub request_new_filter_of :
      Node → NewFilterRequest → FilterSimulator → FilterSimulator × Response Text
  request_new_filter_of node ethreq sim =
      elim (get_block_number_by_raw_param h node ethreq.from_block true) [
        | inl e ↦ (sim, Response.failure e)
        | inr from ↦ elim (get_block_number_by_raw_param h node ethreq.to_block true) [
          | inl e ↦ (sim, Response.failure e)
          | inr to ↦ install_filter ethreq from to sim
        ]
      ]

  -- `inl` is the message of the decoder of the request.
  unfoldable pub request_new_filter :
      Node → Text ⊎ NewFilterRequest → FilterSimulator → FilterSimulator × Response Text
  request_new_filter node req sim = elim req [
    | inl e ↦ (sim, Response.failure (new_invalid_params_error e))
    | inr ethreq ↦ request_new_filter_of node ethreq sim
  ]

  unfoldable pub request_uninstall_filter :
      Params → FilterSimulator → FilterSimulator × Response Bool
  request_uninstall_filter params sim = elim (first_param params) [
    | inl e ↦ (sim, Response.failure (new_invalid_params_error e))
    | inr p ↦ elim (h.decode_uint64 p) [
      | inl e ↦ (sim, Response.failure (new_invalid_params_error e))
      | inr id ↦ (uninstall id sim, Response.result true)
    ]
  ]

  -- `processFilter`
  unfoldable pub process_filter : Params → FilterSimulator → JsonRpcError ⊎ Filter
  process_filter params sim = elim (first_param params) [
    | inl e ↦ inl (new_invalid_params_error e)
    | inr p ↦ elim (h.decode_uint64 p) [
      | inl e ↦ inl (new_invalid_params_error e)
      | inr id ↦ elim (get_filter id sim) [
        | none ↦ inl (new_callback_error (codes "Invalid filter id"))
        | some filter ↦ inr filter
      ]
    ]
  ]

  -- The loop over the new blocks: `left` of them, `last` the number of the one before.
  unfoldable pub block_hashes : (ℕ → Text ⊎ Text) → ℕ → ℕ → Text ⊎ List Change
  block_hashes get_block_hash last zero = inr []
  block_hashes get_block_hash last (suc left) = elim (get_block_hash ((last + 1) % word)) [
    | inl e ↦ inl e
    | inr resp ↦ elim (block_hashes get_block_hash (last + 1) left) [
      | inl e ↦ inl e
      | inr hashes ↦ inr (Change.hash (add_hex_prefix resp) ∷ hashes)
    ]
  ]

  unfoldable pub request_block_filter :
      Node → Filter → FilterSimulator → FilterSimulator × Response (List Change)
  request_block_filter node filter sim = elim (filter.last_block_number) [
    | none ↦ (sim, Response.failure (new_callback_error (codes "Could not get lastBlockNumber")))
    | some last ↦ elim (node.get_block_count) [
      | inl e ↦ (sim, Response.failure (new_callback_error e))
      | inr count ↦
          let block_count = to_uint64 count in
          let differ = sub_uint64 block_count last in
          if ltb max_slice differ
          then (sim, Response.panic)
          else elim (block_hashes node.get_block_hash last differ) [
            | inl e ↦ (sim, Response.failure (new_callback_error e))
            | inr hashes ↦ (
              put_filter (record filter { last_block_number = some block_count }) sim,
              Response.result hashes,
            )
          ]
    ]
  ]

  -- `toSearchLogsReq`
  abbrev pub stored_topics : Option (List SearchLogsTopic) → List SearchLogsTopic
  stored_topics none = []
  stored_topics (some ts) = ts

  abbrev pub search_logs_req : Filter → ℤ → ℤ → List Text → SearchLogsRequest
  search_logs_req filter from to addresses = record {
    from_block = from;
    to_block = to;
    addresses = map remove_hex_prefix addresses;
    topics = stored_topics filter.search_topics;
  }

  abbrev pub addressed : Filter → ℤ → ℤ → AddressParam → Response SearchLogsRequest
  addressed filter from to AddressParam.absent = Response.result (search_logs_req filter from to [])
  addressed filter from to (AddressParam.one a) =
      Response.result (search_logs_req filter from to (a ∷ []))
  addressed filter from to (AddressParam.many addresses) =
      Response.result (search_logs_req filter from to addresses)
  addressed filter from to (AddressParam.malformed e) =
      Response.failure (new_invalid_params_error e)

  unfoldable pub to_search_logs_req : Filter → ℤ → ℤ → Response SearchLogsRequest
  to_search_logs_req filter from to = elim (filter.request) [
    | none ↦ Response.panic
    | some ethreq ↦ addressed filter from to ethreq.address
  ]

  -- The logs of the receipts, one after the other.
  unfoldable pub logs_of : List TransactionReceipt → List Change
  logs_of [] = []
  logs_of (r ∷ rs) =
      map Change.log (extract_eth_logs_from_transaction_receipt h r r.logs) ++ logs_of rs

  unfoldable pub do_search_logs : Node → SearchLogsRequest → Response (List Change)
  do_search_logs node req = elim (search_logs_and_filter_extra_topics node.search_logs req) [
    | inl e ↦ Response.failure (new_callback_error e)
    | inr receipts ↦ Response.result (logs_of receipts)
  ]

  abbrev pub then_search : Node → Response SearchLogsRequest → Response (List Change)
  then_search node (Response.result req) = do_search_logs node req
  then_search node (Response.failure e) = Response.failure e
  then_search node Response.panic = Response.panic

  -- `requestFilter` of eth_getFilterChanges; it stores nothing.
  unfoldable pub request_filter : Node → Filter → Response (List Change)
  request_filter node filter = elim (filter.last_block_number) [
    | none ↦ Response.failure (new_callback_error (codes "Could not get lastBlockNumber"))
    | some last ↦ elim (node.get_block_count) [
      | inl e ↦ Response.failure (new_callback_error e)
      | inr count ↦
          let block_count = to_uint64 count in
          if sub_uint64 block_count last == 0
          then Response.result []
          else then_search node
              (to_search_logs_req filter (to_int64 ((last + 1) % word)) (to_int64 block_count))
    ]
  ]

  abbrev pub get_filter_changes_of :
      Node → Filter → FilterType → FilterSimulator → FilterSimulator × Response (List Change)
  get_filter_changes_of node filter FilterType.new_filter_ty sim = (sim, request_filter node filter)
  get_filter_changes_of node filter FilterType.new_block_filter_ty sim =
      request_block_filter node filter sim
  get_filter_changes_of node filter FilterType.new_pending_transaction_filter_ty sim =
      (sim, Response.failure (new_invalid_params_error (codes "Unknown filter type")))

  unfoldable pub request_get_filter_changes :
      Node → Params → FilterSimulator → FilterSimulator × Response (List Change)
  request_get_filter_changes node params sim = elim (process_filter params sim) [
    | inl e ↦ (sim, Response.failure e)
    | inr filter ↦ get_filter_changes_of node filter filter.type sim
  ]

  -- `request` of eth_getFilterLogs
  unfoldable pub request_filter_logs : Node → Filter → Response (List Change)
  request_filter_logs node filter = elim (filter.last_block_number) [
    | none ↦ Response.failure (new_callback_error (codes "Could not get lastBlockNumber"))
    | some last ↦ elim (filter.to_block_number) [
      | none ↦ Response.failure (new_callback_error (codes "Could not get toBlock"))
      | some to ↦ then_search node (to_search_logs_req filter (to_int64 last) (to_int64 to))
    ]
  ]

  abbrev pub get_filter_logs_of : Node → Filter → FilterType → Response (List Change)
  get_filter_logs_of node filter FilterType.new_filter_ty = request_filter_logs node filter
  get_filter_logs_of node filter _ =
      Response.failure (new_invalid_params_error (codes "filter not found"))

  unfoldable pub request_get_filter_logs : Node → Params → FilterSimulator → Response (List Change)
  request_get_filter_logs node params sim = elim (process_filter params sim) [
    | inl e ↦ Response.failure e
    | inr filter ↦ get_filter_logs_of node filter filter.type
  ]
