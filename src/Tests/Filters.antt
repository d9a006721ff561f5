-- ===== src/Tests/Filters.antt =====
-- The filters of clients at concrete inputs.
use charon.Prelude.{
  ℕ, ◌+◌, ◌-◌, ◌<◌, ◌≡◌, refl, inr, none, some, List, [], ◌∷◌, codes, arith, word, lookup, text_eq,
  nat_eq, ◌⊎◌, true, Text, inl,
}
use charon.Logs.Topics.{translate_topics, translate_from}
use charon.Blocks.Laws.{raw_param_cases}
use charon.Rpc.{HexUtil, Node}
use charon.Filters.{
  FilterType, Filter, FilterSimulator, AddressParam, NewFilterRequest, new_filter_simulator,
  get_filter,
}
use charon.Filters.Ids.{IsValid}
use charon.Filters.Requests.{Response, request_new_filter, request_get_filter_logs}
use charon.Filters.Polls.{Grows, At, reported, range, poll_all, polls_report_each_block_once}
use charon.Filters.GetLogs.{GetLogsRequest, request_get_logs, as_changes, as_filter_request}
use charon.Filters.GetLogs.Beside.{Understood, get_logs-filter_logs}
use charon.Tests.Fixtures.{hex_util, chain, node_at}

abbrev block_filter : Filter
block_filter = record {
  id = 1;
  type = FilterType.new_block_filter_ty;
  request = none;
  last_block_number = some 5;
  to_block_number = none;
  search_topics = none;
}

abbrev installed : FilterSimulator
installed = record { filters = (1, block_filter) ∷ []; max_filter_id = 1 }

found : get_filter 1 installed ≡ some block_filter
unfolding get_filter lookup
found = refl

one_decodes : hex_util.decode_uint64 (codes "0x1") ≡ inr 1
unfolding text_eq
one_decodes = refl

at : (count : ℕ) → At chain count (node_at count)
at count = record { height = refl; hashes = λ n h. refl }

-- Two blocks, none and one more.
abbrev nodes : List Node
nodes = node_at 7 ∷ node_at 7 ∷ node_at 8 ∷ []

nodes-Grows : Grows chain 5 nodes 8
nodes-Grows = (
  7,
  at 7,
  omega arith,
  omega arith,
  omega arith,
  (
    7,
    at 7,
    omega arith,
    omega arith,
    omega arith,
    (8, at 8, omega arith, omega arith, omega arith, refl),
  ),
)

polls_report_each_block_once_example :
    poll_all hex_util nodes (inr (codes "0x1" ∷ [])) installed
    ≡ some (reported chain (range (5 + 1) (8 - 5)))
polls_report_each_block_once_example =
    polls_report_each_block_once hex_util chain nodes 5 8 block_filter (codes "0x1") installed
      one_decodes found refl refl nodes-Grows

abbrev log_request : NewFilterRequest
log_request = record {
  from_block = codes "5";
  to_block = codes "9";
  address = AddressParam.absent;
  topics = [];
}

abbrev log_filter : Filter
log_filter = record block_filter {
  type = FilterType.new_filter_ty;
  request = some log_request;
  to_block_number = some 9;
}

abbrev searching : FilterSimulator
searching = record { filters = (1, log_filter) ∷ []; max_filter_id = 1 }

found_log_filter : get_filter 1 searching ≡ some log_filter
unfolding get_filter lookup
found_log_filter = refl

abbrev height : ℕ
height = 8

empty-IsValid : IsValid new_filter_simulator
unfolding new_filter_simulator get_filter lookup
empty-IsValid = record { given = λ id x e. cc }

below : new_filter_simulator.max_filter_id + 1 < word
unfolding new_filter_simulator
below = omega arith

abbrev decode_first : Text → Text ⊎ ℕ
decode_first [] = inl (codes "empty hex string")
decode_first (n ∷ s) = inr n

none_translated : translate_topics [] ≡ some []
unfolding translate_topics translate_from
none_translated = refl

-- A word as one character, so that every word is decoded.
abbrev echo : HexUtil
echo = record hex_util { encode_uint64 = λ n. n ∷ []; decode_uint64 = decode_first }

abbrev logs_request : GetLogsRequest
logs_request = record {
  from_block = codes "5";
  to_block = codes "9";
  address = AddressParam.absent;
  topics = [];
}

logs_request-Understood : Understood echo (node_at 9) logs_request 5 9 []
logs_request-Understood = record {
  from =
      (raw_param_cases echo (node_at 9) (codes "5") true).1 (ground arith) (λ e. cc) (omega arith);
  to = (raw_param_cases echo (node_at 9) (codes "9") true).1 (ground arith) (λ e. cc) (omega arith);
  from_small = omega arith;
  to_small = omega arith;
  topics = none_translated;
}

get_logs-filter_logs_example :
    let (sim', response) =
      request_new_filter echo (node_at 9) (inr (as_filter_request echo logs_request)) installed in
    (id : Text) × (response ≡ Response.result id)
    × (request_get_filter_logs echo (node_at 9) (inr (id ∷ [])) sim'
        ≡ as_changes echo (request_get_logs echo (node_at 9) (inr logs_request)))
get_logs-filter_logs_example =
    get_logs-filter_logs echo (node_at 9) logs_request 5 9 [] installed (λ id small. refl)
      logs_request-Understood
