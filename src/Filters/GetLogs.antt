-- ===== src/Filters/GetLogs.antt =====
-- eth_getLogs of pkg/transformer, beside a filter with the same parameters.
pub mod Beside
use charon.Prelude.{
  ℕ, ◌<◌, ◌^◌, ◌≡◌, refl, sym, ap, ◌∙◌, ◌⊎◌, inl, inr, true, none, some, List, [], ◌∷◌, ◌++◌, map,
  Text, codes, ℤ, pos, to_int64-lt, word, arith, Sum-cases, List-cases, append-nil, append_assoc,
}
use mathlib.Core.List.{map-append}
use charon.Rpc.{JsonRpcError, HexUtil, Node, new_invalid_params_error, new_callback_error}
use charon.Hex.Prefix.{remove_hex_prefix}
use charon.Logs.{TransactionReceipt, SearchLogsRequest, SearchLogsTopic}
use charon.Logs.Topics.{
  EthTopic, translate_topics, translate_from, new_search_logs_topics, new_search_logs_topics_lem,
}
use charon.Logs.Search.{search_logs_and_filter_extra_topics}
use charon.Logs.Extract.{EthLog, extract_eth_logs_from_transaction_receipt}
use charon.Blocks.{get_block_number_by_raw_param}
use charon.Filters.{
  AddressParam, FilterType, Filter, NewFilterRequest, FilterSimulator, new_filter, get_filter,
  put_filter,
}
use charon.Filters.Ids.{get_filter-put_filter}
use charon.Filters.Requests.{
  Change, Response, install_filter, request_new_filter_of, request_new_filter, to_search_logs_req,
  stored_topics, then_search, addressed, do_search_logs, logs_of, request_filter_logs,
  request_get_filter_logs, get_filter_logs_of,
}
use charon.Filters.Polls.{process_filter-installed, to_uint64-pos}

-- `eth.GetLogsRequest`, whose block hash nothing reads.
pub record GetLogsRequest : Type 0 where
  pub from_block : Text
  pub to_block : Text
  pub address : AddressParam
  pub topics : List EthTopic

-- The addresses of a request, without `0x`.
unfoldable pub addresses_of : AddressParam → JsonRpcError ⊎ List Text
addresses_of AddressParam.absent = inr []
addresses_of (AddressParam.one a) = inr (remove_hex_prefix a ∷ [])
addresses_of (AddressParam.many addresses) = inr (map remove_hex_prefix addresses)
addresses_of (AddressParam.malformed e) = inl (new_invalid_params_error e)

module _ (h : HexUtil) where
  -- `ToRequest`
  unfoldable pub to_request : Node → GetLogsRequest → JsonRpcError ⊎ SearchLogsRequest
  to_request node ethreq = elim (get_block_number_by_raw_param h node ethreq.from_block true) [
    | inl e ↦ inl e
    | inr from ↦ elim (get_block_number_by_raw_param h node ethreq.to_block true) [
      | inl e ↦ inl e
      | inr to ↦ elim (addresses_of ethreq.address) [
        | inl e ↦ inl e
        | inr addresses ↦ elim (translate_topics ethreq.topics) [
          | none ↦ inl (new_callback_error (codes "Invalid topics"))
          | some topics ↦ inr (record {
            from_block = from;
            to_block = to;
            addresses = addresses;
            topics = new_search_logs_topics topics;
          })
        ]
      ]
    ]
  ]

  -- The loop over the receipts.
  unfoldable pub append_logs : List EthLog → List TransactionReceipt → List EthLog
  append_logs logs [] = logs
  append_logs logs (r ∷ rs) =
      append_logs (logs ++ extract_eth_logs_from_transaction_receipt h r r.logs) rs

  unfoldable pub request_logs : Node → SearchLogsRequest → Response (List EthLog)
  request_logs node req = elim (search_logs_and_filter_extra_topics node.search_logs req) [
    | inl e ↦ Response.failure (new_callback_error e)
    | inr receipts ↦ Response.result (append_logs [] receipts)
  ]

  -- `inl` is the message of the decoder of the request.
  unfoldable pub request_get_logs : Node → Text ⊎ GetLogsRequest → Response (List EthLog)
  request_get_logs node req = elim req [
    | inl e ↦ Response.failure (new_invalid_params_error e)
    | inr ethreq ↦ elim (to_request node ethreq) [
      | inl e ↦ Response.failure e
      | inr revoreq ↦ request_logs node revoreq
    ]
  ]

  -- The response of eth_getLogs as one of a filter.
  abbrev pub as_changes : Response (List EthLog) → Response (List Change)
  as_changes (Response.result logs) = Response.result (map Change.log logs)
  as_changes (Response.failure e) = Response.failure e
  as_changes Response.panic = Response.panic

  abbrev pub as_filter_request : GetLogsRequest → NewFilterRequest
  as_filter_request req = record {
    from_block = req.from_block;
    to_block = req.to_block;
    address = req.address;
    topics = req.topics;
  }
