-- ===== src/Tests/Logs.antt =====
-- The filters of logs at concrete inputs.
use charon.Prelude.{
  ℕ, ◌≡◌, ◌≢◌, ◌↔◌, ◌⊎◌, true, some, List, [], ◌∷◌, Text, codes, map, filter_by, get_elem?, pos,
}
use charon.Tests.Fixtures.{transfer, receipt}
use charon.Logs.{Log, SearchLogsTopic, SearchLogsRequest}
use charon.Logs.Topics.{Alternative, EthTopic}
use charon.Logs.Match.{do_filters_match, Accepts, do_filters_match_iff}
use charon.Logs.Search.{not_empty, filter_extra_topics, filter_revo_logs}
use charon.Logs.Search.Chosen.{IsChosen, filter_revo_logs-IsChosen}
use charon.Logs.Search.Laws.{IsWanted, keeps_log, kept, filter_extra_topics_lem}

-- Transfers, to anyone.
abbrev transfers : List SearchLogsTopic
transfers = (codes "DDF2" ∷ []) ∷ [] ∷ []

abbrev request : SearchLogsRequest
request = record {
  from_block = pos 1;
  to_block = pos 9;
  addresses = codes "Aa01" ∷ [];
  topics = transfers;
}

some_filter : transfers ≢ []
some_filter e = cc

filter_extra_topics_lem_example :
    (request.topics ≡ []
      → request.addresses ≡ []
      → filter_extra_topics request (receipt ∷ []) ≡ receipt ∷ [])
    × ((request.topics ≢ []) ⊎ (request.addresses ≢ [])
        → filter_extra_topics request (receipt ∷ [])
          ≡ filter_by (λ r. not_empty r.logs) (map (kept request) (receipt ∷ [])))
    × ((log : Log)
        → (keeps_log request.addresses request.topics log ≡ true)
          ↔ IsWanted request.addresses request.topics log)
filter_extra_topics_lem_example = filter_extra_topics_lem request (receipt ∷ [])

filter_revo_logs-IsChosen_example :
    IsChosen
      (codes "Aa01" ∷ [])
      transfers
      receipt.logs
      (filter_revo_logs (codes "Aa01" ∷ []) transfers receipt.logs)
filter_revo_logs-IsChosen_example =
    filter_revo_logs-IsChosen (codes "Aa01" ∷ []) transfers receipt.logs

do_filters_match_iff_example : (do_filters_match transfers transfer.topics ≡ true) ↔ (
    (j : ℕ) (f : SearchLogsTopic) (t : Text)
    → get_elem? transfers j ≡ some f
    → get_elem? transfer.topics j ≡ some t
    → Accepts f t)
do_filters_match_iff_example = do_filters_match_iff transfers transfer.topics

abbrev asked : List EthTopic
asked =
    EthTopic.string (codes "0xddf2")
    ∷ EthTopic.null
    ∷ EthTopic.items (Alternative.text (codes "0x01") ∷ Alternative.text (codes "02") ∷ [])
    ∷ []
