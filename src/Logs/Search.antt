-- ===== src/Logs/Search.antt =====
-- pkg/conversion/util.go: the logs that a search keeps, over HTTP (`SearchLogsAndFilterExtraTopics`)
-- and for a websocket subscription (`FilterRevoLogs`).
pub mod Laws
pub mod Chosen
use charon.Prelude.{
  ℕ, ◌+◌, ◌⊎◌, inl, inr, Bool, true, false, Option, none, some, List, [], ◌∷◌, ◌++◌, Text, Map,
  lookup, insert, text_Eq, to_lower, if◌then◌else◌, not, ◌&&◌,
}
use charon.Logs.{Log, SearchLogsTopic, TransactionReceipt, SearchLogsRequest}
use charon.Logs.Match.{do_filters_match}
use charon.Hex.Prefix.{remove_hex_prefix}

-- `len(l) != 0`
abbrev pub not_empty {ℓ} : {A : Type ℓ} → List A → Bool
not_empty [] = false
not_empty (x ∷ xs) = true

-- `populateLoopUpMapWithToLower`, from the map `m` on.
unfoldable pub populate_from : Map Text Bool → List Text → Map Text Bool
populate_from m [] = m
populate_from m (input ∷ inputs) = populate_from (insert (to_lower input) true m) inputs

unfoldable pub populate_look_up_map_with_to_lower : List Text → Map Text Bool
populate_look_up_map_with_to_lower inputs = populate_from [] inputs

-- `m[k]` of a missing key is false.
abbrev pub flag : Option Bool → Bool
flag none = false
flag (some b) = b

-- The test of the loop of `SearchLogsAndFilterExtraTopics` on a log.
unfoldable pub keeps : Bool → Map Text Bool → List SearchLogsTopic → Log → Bool
keeps has_addresses requested topics log =
    if has_addresses && not (flag (lookup (to_lower log.address) requested))
    then false
    else do_filters_match topics log.topics

-- The loop over the logs of a receipt, from index `i` on.
unfoldable pub filter_logs :
    Bool → Map Text Bool → List SearchLogsTopic → ℕ → List Log → List Log → List Log
filter_logs has_addresses requested topics i [] logs = logs
filter_logs has_addresses requested topics i (l ∷ ls) logs =
    let log = record l { index = i } in
    filter_logs has_addresses requested topics (i + 1) ls
      (if keeps has_addresses requested topics log then logs ++ (log ∷ []) else logs)

-- The loop over the receipts.
unfoldable pub filter_receipts :
    Bool
    → Map Text Bool
    → List SearchLogsTopic
    → List TransactionReceipt
    → List TransactionReceipt
    → List TransactionReceipt
filter_receipts has_addresses requested topics [] filtered = filtered
filter_receipts has_addresses requested topics (r ∷ rs) filtered =
    let logs = filter_logs has_addresses requested topics 0 r.logs [] in
    filter_receipts has_addresses requested topics rs
      (if not_empty logs then filtered ++ (record r { logs = logs } ∷ []) else filtered)

-- `SearchLogsAndFilterExtraTopics` on the receipts that the node returned.
unfoldable pub filter_extra_topics :
    SearchLogsRequest → List TransactionReceipt → List TransactionReceipt
filter_extra_topics req receipts =
    if not (not_empty req.topics) && not (not_empty req.addresses)
    then receipts
    else filter_receipts (not_empty req.addresses)
        (populate_look_up_map_with_to_lower req.addresses) req.topics receipts []

-- The whole function; `search_logs` is the call of the node, with the message of its error.
unfoldable pub search_logs_and_filter_extra_topics :
    (SearchLogsRequest → Text ⊎ List TransactionReceipt)
    → SearchLogsRequest
    → Text ⊎ List TransactionReceipt
search_logs_and_filter_extra_topics search_logs req = elim (search_logs req) [
  | inl e ↦ inl e
  | inr rs ↦ inr (filter_extra_topics req rs)
]

-- The loop of `FilterRevoLogs`, which ends at the first log that it keeps.
unfoldable pub first_log : Bool → Map Text Bool → List SearchLogsTopic → List Log → List Log
first_log has_addresses requested filters [] = []
first_log has_addresses requested filters (log ∷ logs) =
    let rest = first_log has_addresses requested filters logs in
    if has_addresses && not (flag (lookup (to_lower (remove_hex_prefix log.address)) requested))
    then rest
    else if do_filters_match filters log.topics
    then log ∷ []
    else rest

unfoldable pub filter_revo_logs : List Text → List SearchLogsTopic → List Log → List Log
filter_revo_logs addresses filters logs =
    if not (not_empty filters) && not (not_empty addresses)
    then logs
    else first_log (not_empty addresses) (populate_look_up_map_with_to_lower addresses) filters logs
