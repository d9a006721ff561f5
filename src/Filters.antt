-- ===== src/Filters.antt =====
-- pkg/eth/filter.go: the filters that clients have installed. `Filter.Data`, a map from names to
-- values, is a field for each name that the handlers store.
pub mod Ids
pub mod Requests
pub mod Polls
pub mod LogPolls
pub mod GetLogs
use charon.Prelude.{
  ℕ, ◌+◌, ◌%◌, Option, none, some, List, [], Map, lookup, insert, remove, nat_eq, Text, word,
}
use charon.Logs.{SearchLogsTopic}
use charon.Logs.Topics.{EthTopic}

pub data FilterType : Type 0 where
  new_filter_ty new_block_filter_ty new_pending_transaction_filter_ty : FilterType

-- The address of a request: left out, one text or an array of texts; or JSON that is neither, with
-- the message of the error that decoding it gives.
pub data AddressParam : Type 0 where
  absent : AddressParam
  one : Text → AddressParam
  many : List Text → AddressParam
  malformed : Text → AddressParam

-- `eth.NewFilterRequest`
pub record NewFilterRequest : Type 0 where
  pub from_block : Text
  pub to_block : Text
  pub address : AddressParam
  pub topics : List EthTopic

pub record Filter : Type 0 where
  pub id : ℕ
  pub type : FilterType
  pub request : Option NewFilterRequest
  pub last_block_number : Option ℕ
  pub to_block_number : Option ℕ
  pub search_topics : Option (List SearchLogsTopic)

pub record FilterSimulator : Type 0 where
  pub filters : Map ℕ Filter
  pub max_filter_id : ℕ

unfoldable pub new_filter_simulator : FilterSimulator
new_filter_simulator = record { filters = []; max_filter_id = 0 }

-- `New`: the identifier is a uint64, which wraps.
unfoldable pub new_filter :
    FilterType → Option NewFilterRequest → FilterSimulator → FilterSimulator × Filter
new_filter ty req f =
    let id = (f.max_filter_id + 1) % word in
    let filter : Filter = record {
      id = id;
      type = ty;
      request = req;
      last_block_number = none;
      to_block_number = none;
      search_topics = none;
    } in
    (record { filters = insert id filter f.filters; max_filter_id = id }, filter)

unfoldable pub uninstall : ℕ → FilterSimulator → FilterSimulator
uninstall id f = record f { filters = remove id f.filters }

-- `Filter`
unfoldable pub get_filter : ℕ → FilterSimulator → Option Filter
get_filter id f = lookup id f.filters

-- A store through the pointer to an installed filter.
unfoldable pub put_filter : Filter → FilterSimulator → FilterSimulator
put_filter filter f = record f { filters = insert filter.id filter f.filters }
