-- ===== src/Lib.antt =====
-- A model of charon, the adapter that offers the Ethereum JSON-RPC, over HTTP and websockets, in
-- front of a Revo node.
--
-- The parts and how they interact. A request comes to a method of pkg/transformer, which translates
-- its parameters, asks the node through the client of pkg/revo, and translates the answer back.
-- Filters (pkg/eth/filter.go) are what eth_newFilter and eth_newBlockFilter install and
-- eth_getFilterChanges polls. Over a websocket, eth_subscribe makes a subscription in the notifier of
-- the connection and in a registry of the agent (pkg/notifier): one loop of the agent watches for
-- new heads, and each subscription of logs polls the node in a loop of its own. The client counts the
-- outcomes of its calls in pkg/analytics.
--
-- Which file models what:
-- - Prelude: the library's names that the others share, Booleans, lists over the native numbers, Go
--   strings as lists of bytes, maps as association lists, windows at the end of a history, and
--   integers of 64 bits.
-- - Params: the requests of pkg/eth/rpc_types.go as they are decoded: by position (Positional,
--   Optional), with an object (Objects, with pkg/eth/eth_int.go, and Subscription), and the shapes
--   that are accepted (Shapes, Kinds, Types).
-- - Hex: pkg/utils/hex.go with Go's encoding/hex, pkg/eth/eth_address.go, and convertETHAddress of
--   pkg/transformer/util.go.
-- - Logs: the logs and receipts of pkg/revo/rpc_types.go, TranslateTopics of pkg/eth/util.go
--   (Logs/Topics), and pkg/conversion/util.go: DoFiltersMatch (Logs/Match), the two searches
--   (Logs/Search) and ExtractETHLogsFromTransactionReceipt (Logs/Extract).
-- - Rpc: pkg/eth/errors.go, and what the handlers call: go-ethereum's hexutil and the node.
-- - Blocks: getBlockNumberByRawParam and getBlockNumberByParam of pkg/transformer/util.go.
-- - Filters: pkg/eth/filter.go; the handlers of pkg/transformer in Filters/Requests and eth_getLogs in
--   Filters/GetLogs; polls of blocks and of logs in Filters/Polls and Filters/LogPolls.
-- - Analytics: pkg/analytics/analytics.go.
-- - Notifier: pkg/notifier/subscription.go (Rolling, Backoff, LogPoll), pkg/notifier/agent.go and
--   pkg/notifier/notifier.go (Agent, Agent/Heads), with eth_subscribe and eth_unsubscribe, and the
--   queue of a connection's events with its loop (Events).
-- - NodeErrors: the errors of pkg/revo/jsonrpc.go and how a reply is read.
-- - Utxos: pkg/transformer/revo_getUTXOs.go, the types of scripts in pkg/eth/rpc_types.go and the
--   decoding of the request (Request).
-- - Client: pkg/revo/client.go and pkg/revo/client_cache.go: retries, waits and the cache.
-- - Health: pkg/server/health.go.
-- - Recovery: pkg/revo/error_handlers.go, with the goroutines that change its state later.
-- - Amounts: the amounts and prices of pkg/transformer/util.go.
-- - Transactions: eth_sendTransaction and eth_signTransaction (Signing), with pkg/revo/account.go.
-- - Scripts: pkg/revo/btcasm.go, and what pkg/revo/rpc_types.go reads out of scripts.
-- - Lookups: eth_getTransactionByHash (ByHash, Rewards) and eth_getTransactionReceipt (Receipts), with
--   the senders and receivers of pkg/transformer/util.go (Senders).
-- - EthBlocks: eth_getBlockByHash, with its two requests side by side (Race), and
--   eth_getBlockByNumber, and the transaction at an index of a block (Indexed).
-- - Dispatch: pkg/transformer/transformer.go.
-- - Chains: the detection of the chain in pkg/revo/revo.go.
-- - Balances: eth_getBalance.
-- - Server: pkg/server/handler.go, pkg/server/myctx.go and the batches of pkg/server/server.go, over
--   HTTP (Http) and over a websocket (Websocket), with the requests of pkg/eth/eth.go (Requests).
-- - Calls: the handlers of pkg/transformer that hand one call on to the node, eth_call first, with
--   the queries (Queries) and eth_sign (Signing).
-- - Tests: each theorem at a concrete input, and some runs.
--
-- How code is written here. A handler takes the state that it changes and returns it beside its
-- response; an error is a value, and a panic is one too. A function keeps its name, in lower case
-- with underscores, and a loop is a function by recursion on what it goes through. What the node,
-- hexutil, base58 and SHA-256 answer, the hash of a notification and the times of the loops are
-- parameters; so are the decimals of the amounts, as a record of operations with their laws, the
-- disassembler of scripts and the database of block hashes. The loop of a request is bounded by its
-- number of tries, 5 from maximumRequestTime and maximumBackoff, of which the code never runs out;
-- the endless loops of the agent and of a subscription run over a finite series of rounds, of any
-- length. The search for a sender through the transactions before has fuel for each of them, which
-- is enough if it is more than their number. A uint64 wraps at 2^64.
--
-- Mutexes are not modelled: each call that holds one is a single step. The loop of a connection and the
-- requests that share its state take their steps in any order. What SendAll of the agent sends to
-- its subscriptions, by a goroutine each, is a list in the order of a map that stands for all orders.
-- The transformer is told whether the context of a request has a notifier, as over a websocket.
--
-- Not modelled: the protocols of HTTP and websockets and the text of JSON themselves, logging, the SQL
-- of pkg/blockhash and the command line, which are calls of libraries; the client's one call for each
-- method of pkg/revo/method.go, and how their requests are printed.
pub mod Prelude
pub mod Hex
pub mod Logs
pub mod Rpc
pub mod Blocks
pub mod EthBlocks
pub mod Dispatch
pub mod Chains
pub mod Balances
pub mod Filters
pub mod Analytics
pub mod Notifier
pub mod Params
pub mod Server
pub mod Calls
pub mod NodeErrors
pub mod Client
pub mod Utxos
pub mod Health
pub mod Recovery
pub mod Amounts
pub mod Transactions
pub mod Scripts
pub mod Lookups
pub mod Tests
