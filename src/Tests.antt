-- ===== src/Tests.antt =====
-- The theorems at concrete inputs, and what the code gives on some.
mod Fixtures
mod Counters
mod Texts
mod Logs
mod Filters
mod Client
mod Notifier
mod Params
mod Server
mod Calls
mod Health
mod Recovery
mod Transactions
mod Lookups
mod EthBlocks
mod Dispatch
mod Chains
mod Events
mod Utxos
