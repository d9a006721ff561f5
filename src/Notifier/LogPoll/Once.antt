-- ===== src/Notifier/LogPoll/Once.antt =====
-- Each log is sent once.
use charon.Prelude.{
  none, false, if◌then◌else◌, ◌++◌, true, text_Eq, ◌≡◌, inl, inr, Bool, List, [], ◌∷◌, Text,
}
use charon.Notifier.LogPoll.{block_before, Turn, Loop, Next}
use charon.Logs.{Log, TransactionReceipt, SearchLogsTopic}
use charon.Logs.Search.{filter_revo_logs}
use charon.Notifier.LogPoll.Throttle.{IsLimited}
use charon.Rpc.{HexUtil}
use charon.Logs.Extract.{EthLog, extract_eth_logs_from_transaction_receipt}
use charon.Notifier.LogPoll.Sends.{sends, after}

module _ (hash : EthLog → Text) (h : HexUtil) (addresses : List Text)
    (topics : List SearchLogsTopic) where
  -- Of the logs of some receipts those that are chosen, one after the other.
  abbrev pub accepted : (List Log → List Log) → List TransactionReceipt → List EthLog
  accepted choose [] = []
  accepted choose (r ∷ rs) =
      extract_eth_logs_from_transaction_receipt h r (choose r.logs) ++ accepted choose rs

  abbrev filtered : List Log → List Log
  filtered = filter_revo_logs addresses topics

  -- What a round finds, whatever the loop did before.
  abbrev pub found : (List Log → List Log) → Turn → List EthLog
  found choose turn = elim (turn.wait_for_logs) [
    | inl e ↦ []
    | inr next ↦ elim (turn.search_logs (block_before next)) [
      | inl e ↦ []
      | inr receipts ↦ accepted choose receipts
    ]
  ]

  -- Whether the loop returns in the round.
  abbrev pub stops : Turn → Bool
  stops turn = elim (turn.wait_for_logs) [
    | inl e ↦ turn.is_done
    | inr next ↦ elim (turn.search_logs (block_before next)) [
      | inl e ↦ true
      | inr receipts ↦ turn.is_done
    ]
  ]

  -- What is found until the loop returns.
  abbrev pub found_by : (List Log → List Log) → List Turn → List EthLog
  found_by choose [] = []
  found_by choose (turn ∷ turns) =
      let rest = found_by choose turns in found choose turn ++ (if stops turn then [] else rest)

  -- How the loop stands after a round.
  abbrev IsAfter : Turn → Loop → Next → Type 0
  IsAfter turn loop Next.panics = ⊥
  IsAfter turn loop Next.returns = stops turn ≡ true
  IsAfter turn loop (Next.goes_on loop' d) =
      (stops turn ≡ false)
      × IsLimited loop'.rolling
      × (loop'.sent_hashes ≡ after hash h addresses topics (found filtered turn) loop.sent_hashes)

  -- What a round sends, and how it ends.
  record Rounds (turn : Turn) (loop : Loop) (r : Next × List EthLog) : Type 0 where
    out : r.1 ≡ sends hash h addresses topics (found filtered turn) loop.sent_hashes
    next : IsAfter turn loop r.0

  -- The queue of the connection stays open.
  abbrev pub StayOpen : List Turn → Type 0
  StayOpen [] = Unit
  StayOpen (turn ∷ turns) = (turn.closed_behind ≡ none) × StayOpen turns
