-- ===== src/Notifier.antt =====
-- pkg/notifier: the websocket side, a subscription's polling loop, its throttle, and the registries
-- of the agent.
pub mod Rolling
pub mod Backoff
pub mod Agent
pub mod LogPoll
pub mod Events
