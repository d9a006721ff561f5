-- ===== src/Tests/Notifier.antt =====
-- The subscriptions, the new heads and the polling of logs at concrete inputs.
use charon.Prelude.{
  text_Eq, to_lower, ℕ, ◌+◌, ◌≡◌, refl, inl, inr, true, false, none, some, [], ◌∷◌, Text, codes,
  lookup, arith,
}
use charon.Logs.Extract.{EthLog}
use charon.Notifier.Agent.{
  SubscriptionRegistry, Agent, State, subscription_count, new_subscription, unsubscribe,
}
use charon.Notifier.Agent.Counted.{IsValid, subscriptions_counted}
use charon.Notifier.Agent.Registries.{IsOffered, IsFresh, subscribe_unsubscribe}
use charon.Notifier.Agent.Heads.{Turn, watch, IsAscending, heads-IsAscending}
use charon.Notifier.LogPoll
use charon.Tests.Fixtures.{receipt}

abbrev empty_registry : SubscriptionRegistry
empty_registry = record { subscriptions = []; subscription_count = 0 }

abbrev agent : Agent
agent = record {
  new_heads = empty_registry;
  logs = empty_registry;
  new_pending_txs = empty_registry;
  syncing = empty_registry;
}

abbrev state : State
state = record {
  agent = agent;
  notifier = record { subscriptions = []; subscription_id_pending = false };
  cancelled = [];
}

agent-IsFresh : IsFresh (codes "0x1") agent
unfolding lookup
agent-IsFresh = record { new_heads = refl; logs = refl; new_pending_txs = refl; syncing = refl }

not_subscribed : lookup (codes "0x1") state.notifier.subscriptions ≡ none
unfolding lookup
not_subscribed = refl

subscribe_unsubscribe_example :
    let (st', r) = new_subscription (some (codes "0x1")) (codes "newHeads") state in
    let ended = record state { cancelled = codes "0x1" ∷ [] } in
    (r ≡ inr (codes "0x1"))
    × (subscription_count st'.agent ≡ subscription_count agent + 1)
    × (unsubscribe (codes "0x1") st' ≡ (ended, true))
    × (unsubscribe (codes "0x1") ended ≡ (ended, false))
unfolding to_lower
subscribe_unsubscribe_example =
    subscribe_unsubscribe (codes "0x1") (codes "newHeads") state (inr (inl refl)) agent-IsFresh
      not_subscribed

agent-IsValid : IsValid agent
agent-IsValid = record {
  new_heads = record { unique = tt; counted = refl };
  logs = record { unique = tt; counted = refl };
  new_pending_txs = record { unique = tt; counted = refl };
  syncing = record { unique = tt; counted = refl };
}

subscriptions_counted_example :
    IsValid (new_subscription (some (codes "0x1")) (codes "logs") state).0.agent
    × IsValid (unsubscribe (codes "0x1") state).0.agent
subscriptions_counted_example =
    subscriptions_counted (some (codes "0x1")) (codes "0x1") (codes "logs") state agent-IsValid

newblocks_not-IsOffered : ¬ IsOffered (codes "newblocks")
unfolding to_lower
newblocks_not-IsOffered h = ground arith

abbrev watched : SubscriptionRegistry
watched = record {
  subscriptions = (codes "0x1", record { id = codes "0x1"; method = codes "newHeads" }) ∷ [];
  subscription_count = 1;
}

-- A node at a height, whose heads are their own hashes.
abbrev turn_at : ℕ → Turn Text
turn_at n = record {
  new_heads = watched;
  transformer = some (λ hash. some hash);
  info = inr (record { blocks = n; best_block_hash = codes "0xb" });
}

heads-IsAscending_example :
    IsAscending 0 (watch (turn_at 5 ∷ turn_at 7 ∷ turn_at 6 ∷ turn_at 8 ∷ []) 0)
heads-IsAscending_example = heads-IsAscending (turn_at 5 ∷ turn_at 7 ∷ turn_at 6 ∷ turn_at 8 ∷ [])

abbrev hash : EthLog → Text
hash log = log.data_hex

-- Two rounds that find one log.
abbrev turn : LogPoll.Turn
turn = record {
  before_call = 0;
  after_call = 5;
  now = 6;
  wait_for_logs = inr 8;
  search_logs = λ n. inr (receipt ∷ []);
  closed_behind = none;
  is_done = false;
}
