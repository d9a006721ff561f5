-- ===== src/Notifier/LogPoll.antt =====
-- pkg/notifier/subscription.go, `run`: the loop that polls the node for the logs of one subscription
-- and sends each of them once. A turn is what the loop meets in one round.
pub mod Sends
pub mod Once
mod Throttle
use charon.Prelude.{
  take, length, ℤ, to_int64, sub_uint64, ℕ, ◌+◌, ◌-◌, ◌*◌, ◌⊎◌, inl, inr, Bool, true, false, Option,
  none, some, List, [], ◌∷◌, ◌++◌, Map, lookup, insert, text_Eq, Text, ltb, if◌then◌else◌,
}
use charon.Rpc.{HexUtil}
use charon.Logs.{SearchLogsTopic, TransactionReceipt}
use charon.Logs.Search.{filter_revo_logs}
use charon.Logs.Extract.{EthLog, extract_eth_logs_from_transaction_receipt}
use charon.Notifier.Rolling.{RollingLimit, new_rolling_limit, push, oldest_value}
use charon.Notifier.Backoff.{second, wait_time}

-- Times are in nanoseconds. `wait_for_logs` gives the next block, `search_logs` the receipts of a
-- block. `closed_behind` is that the connection's loop ends, which closes its queue, behind so many
-- sends of the round.
pub record Turn : Type 0 where
  pub before_call : ℕ
  pub after_call : ℕ
  pub now : ℕ
  pub wait_for_logs : Text ⊎ ℕ
  pub search_logs : ℤ → Text ⊎ List TransactionReceipt
  pub closed_behind : Option ℕ
  pub is_done : Bool

-- The variables of the loop; `next_block` is nil at first.
pub record Loop : Type 0 where
  pub next_block : Option ℕ
  pub rolling : RollingLimit ℕ
  pub sent_hashes : Map Text Bool
  pub failures : ℕ

abbrev pub limit_to_x_api_calls : ℕ
limit_to_x_api_calls = 5

abbrev pub in_y_seconds : ℕ
in_y_seconds = 10 * second

unfoldable pub start : Loop
start = record {
  next_block = none;
  rolling = new_rolling_limit limit_to_x_api_calls;
  sent_hashes = [];
  failures = 0;
}

-- Whether the call made so many calls before came too shortly before.
abbrev pub too_quick : ℕ → Option ℕ → Bool
too_quick now none = false
too_quick now (some oldest) = ltb (now - oldest) in_y_seconds

-- The block that is searched: `int64(resp.NextBlock - 1)` of a uint64.
abbrev pub block_before : ℕ → ℤ
block_before next = to_int64 (sub_uint64 next 1)

-- How a round ends: the loop returns or panics, or waits so long and goes on.
pub data Next : Type 0 where
  returns : Next
  panics : Next
  goes_on : Loop → ℕ → Next

-- `Send` of the logs, one after the other: whether one meets a queue that is closed, which panics, and
-- those that are put into the queue.
unfoldable pub send : Option ℕ → List EthLog → Bool × List EthLog
send none logs = (false, logs)
send (some n) logs = (ltb n (length logs), take n logs)

-- The hash of a log in a notification, whose JSON is never an error, since hashing it marshals it, and
-- panics on one; and the addresses and topics of the subscription.
module _ (hash : EthLog → Text) (h : HexUtil) (addresses : List Text)
    (topics : List SearchLogsTopic) where
  -- The loop over the logs of a receipt; a log whose hash was sent is passed over.
  unfoldable pub send_logs : List EthLog → Map Text Bool → Map Text Bool × List EthLog
  send_logs [] sent = (sent, [])
  send_logs (log ∷ logs) sent =
      let (more, out) = send_logs logs (insert (hash log) true sent) in
      let rest = send_logs logs sent in
      elim (lookup (hash log) sent) [ none ↦ (more, log ∷ out) | some _ ↦ rest ]

  abbrev pub logs_for : TransactionReceipt → List EthLog
  logs_for r =
      extract_eth_logs_from_transaction_receipt h r (filter_revo_logs addresses topics r.logs)

  -- The loop over the receipts.
  unfoldable pub send_receipts :
      List TransactionReceipt → Map Text Bool → Map Text Bool × List EthLog
  send_receipts [] sent = (sent, [])
  send_receipts (r ∷ rs) sent =
      let (sent', out) = send_logs (logs_for r) sent in
      let (sent'', more) = send_receipts rs sent' in (sent'', out ++ more)

  -- The end of a round: the context, and the wait.
  unfoldable pub wait : Turn → Loop → Next
  wait turn loop =
      if turn.is_done
      then Next.returns
      else Next.goes_on loop (wait_time loop.failures turn.before_call turn.after_call)

  -- The round behind a call that gave the next block.
  unfoldable pub on_logs : Turn → Loop → ℕ → Next × List EthLog
  unfolding send
  on_logs turn loop next = elim (turn.search_logs (block_before next)) [
    | inl e ↦ (Next.returns, [])
    | inr receipts ↦
        let (sent, out) = send_receipts receipts loop.sent_hashes in
        let loop' = record loop { next_block = some next; sent_hashes = sent } in
        let (closed, put) = send turn.closed_behind out in
        if closed then (Next.panics, put) else (elim (oldest_value loop.rolling) [
          | none ↦ (Next.panics, put)
          | some oldest ↦ (
            wait turn (record loop' {
              failures = if too_quick turn.now oldest then loop.failures + 1 else 0;
            }),
            put,
          )
        ])
  ]

  unfoldable pub round : Turn → Loop → Next × List EthLog
  round turn loop = elim (push turn.before_call loop.rolling) [
    | none ↦ (Next.panics, [])
    | some rolling ↦
        let loop' = record loop { rolling = rolling } in
        elim (turn.wait_for_logs) [
          | inl e ↦ (wait turn (record loop' { failures = loop.failures + 1 }), [])
          | inr next ↦ on_logs turn loop' next
        ]
  ]

  -- What the loop sends in a series of rounds, and whether it panicked.
  unfoldable pub poll : List Turn → Next → Bool × List EthLog
  poll turns Next.returns = (false, [])
  poll turns Next.panics = (true, [])
  poll [] (Next.goes_on loop d) = (false, [])
  poll (turn ∷ turns) (Next.goes_on loop d) =
      let (next, out) = round turn loop in
      let (panicked, more) = poll turns next in (panicked, out ++ more)
