-- ===== src/Notifier/Agent.antt =====
-- pkg/notifier/agent.go and pkg/notifier/notifier.go: the registries of the agent, the subscriptions
-- of one connection's notifier, and eth_subscribe and eth_unsubscribe of pkg/transformer. Each call
-- is one step: the mutexes are held while the maps change.
pub mod Registries
pub mod Counted
pub mod Heads
use charon.Prelude.{
  ℕ, ◌+◌, ◌-◌, ◌⊎◌, inl, inr, Bool, true, false, Option, none, some, List, [], ◌∷◌, ◌++◌, Map,
  lookup, insert, remove, text_Eq, Text, codes, text_eq, to_lower, if◌then◌else◌,
}
use charon.Rpc.{
  JsonRpcError, new_method_not_found_error, new_invalid_params_error, new_callback_error,
}

-- `subscriptionInformation`: what the registries keep of a subscription.
pub record SubscriptionInformation : Type 0 where
  pub id : Text
  pub method : Text

-- `subscriptionRegistry`; the count is an `int`, never below 0 while it is the number of entries.
pub record SubscriptionRegistry : Type 0 where
  pub subscriptions : Map Text SubscriptionInformation
  pub subscription_count : ℕ

unfoldable pub new_subscription_registry : SubscriptionRegistry
new_subscription_registry = record { subscriptions = []; subscription_count = 0 }

pub record Agent : Type 0 where
  pub new_heads : SubscriptionRegistry
  pub logs : SubscriptionRegistry
  pub new_pending_txs : SubscriptionRegistry
  pub syncing : SubscriptionRegistry

-- `Notifier`: its subscriptions, where true is that `once` of the subscription has run, and whether
-- a response is still to be sent before the next event.
pub record Notifier : Type 0 where
  pub subscriptions : Map Text Bool
  pub subscription_id_pending : Bool

-- One connection's notifier, the agent, and the contexts that were cancelled.
pub record State : Type 0 where
  pub agent : Agent
  pub notifier : Notifier
  pub cancelled : List Text

unfoldable pub add_subscription :
    SubscriptionInformation → SubscriptionRegistry → SubscriptionRegistry
add_subscription s registry = record {
  subscriptions = insert s.id s registry.subscriptions;
  subscription_count = elim (lookup s.id registry.subscriptions) [
    | none ↦ registry.subscription_count + 1
    | some _ ↦ registry.subscription_count
  ];
}

-- The second of the two looks is under the lock, and sees what the first saw.
unfoldable pub remove_subscription : Text → SubscriptionRegistry → SubscriptionRegistry
remove_subscription id registry = elim (lookup id registry.subscriptions) [
  | none ↦ registry
  | some _ ↦ record {
    subscriptions = remove id registry.subscriptions;
    subscription_count = registry.subscription_count - 1;
  }
]

-- Whose context `removeSubscription` cancels.
unfoldable pub cancelled_by : Text → SubscriptionRegistry → List Text
cancelled_by id registry = elim (lookup id registry.subscriptions) [ none ↦ [] | some _ ↦ id ∷ [] ]

unfoldable pub subscription_count : Agent → ℕ
subscription_count a =
    a.new_heads.subscription_count + a.logs.subscription_count
    + a.new_pending_txs.subscription_count + a.syncing.subscription_count

-- `unsubscribe` of the agent
unfoldable pub agent_unsubscribe : Text → Agent → Agent
agent_unsubscribe id a = record {
  new_heads = remove_subscription id a.new_heads;
  logs = remove_subscription id a.logs;
  new_pending_txs = remove_subscription id a.new_pending_txs;
  syncing = remove_subscription id a.syncing;
}

unfoldable pub cancelled_in : Text → Agent → List Text
cancelled_in id a =
    cancelled_by id a.new_heads
    ++ (cancelled_by id a.logs ++ (cancelled_by id a.new_pending_txs ++ cancelled_by id a.syncing))

-- The switch of `NewSubscription`; `none` is its default case.
unfoldable pub add_to_agent : SubscriptionInformation → Agent → Option Agent
add_to_agent s a =
    let method = to_lower s.method in
    if text_eq method (codes "logs")
    then some (record a { logs = add_subscription s a.logs })
    else if text_eq method (codes "newheads")
    then some (record a { new_heads = add_subscription s a.new_heads })
    else if text_eq method (codes "newpendingtransactions")
    then some (record a { new_pending_txs = add_subscription s a.new_pending_txs })
    else if text_eq method (codes "syncing")
    then some (record a { syncing = add_subscription s a.syncing })
    else none

-- `Subscribe`
unfoldable pub subscribe : Text → Notifier → Notifier
subscribe id n = record n { subscriptions = insert id false n.subscriptions }

-- `NewSubscription` of the agent; `none` in place of the random identifier is that there were not
-- enough random bytes.
unfoldable pub new_subscription : Option Text → Text → State → State × (Text ⊎ Text)
new_subscription none method st = (st, inl (codes "Unable to generate subscription id"))
new_subscription (some id) method st =
    let st' = record st { notifier = subscribe id st.notifier } in
    elim (add_to_agent (record { id = id; method = method }) st.agent) [
      | none ↦ (st', inl (codes "Unknown subscription type " ++ method))
      | some agent ↦ (record st' { agent = agent }, inr id)
    ]

-- `Unsubscribe` of a subscription, whose callback runs once.
unfoldable pub unsubscribe_once : Text → Bool → State → State
unsubscribe_once id true st = st
unsubscribe_once id false st = record st {
  agent = agent_unsubscribe id st.agent;
  cancelled = cancelled_in id st.agent ++ st.cancelled;
}

-- `Unsubscribe` of the notifier. The callback starts it once more, in a goroutine.
unfoldable pub unsubscribe : Text → State → State × Bool
unsubscribe id st = elim (lookup id st.notifier.subscriptions) [
  | none ↦ (st, false)
  | some done ↦ (
    record (unsubscribe_once id done st) {
      notifier = record st.notifier { subscriptions = remove id st.notifier.subscriptions };
    },
    true,
  )
]

unfoldable pub response_required : Notifier → Notifier
response_required n = record n { subscription_id_pending = true }

unfoldable pub response_sent : Notifier → Notifier
response_sent n = record n { subscription_id_pending = false }

-- What a handler gives beside an error.
pub data Reply {ℓ} (A : Type ℓ) : Type ℓ where
  reply : A → Reply A
  refused : JsonRpcError → Reply A

-- eth_subscribe over a websocket (`true`) or not, with the decoded method or the decoder's message.
unfoldable pub request_subscribe : Bool → Option Text → Text ⊎ Text → State → State × Reply Text
request_subscribe false random req st =
    (st, Reply.refused (new_method_not_found_error (codes "eth_subscribe")))
request_subscribe true random (inl e) st = (st, Reply.refused (new_invalid_params_error e))
request_subscribe true random (inr method) st =
    let (st', r) =
      new_subscription random method (record st { notifier = response_required st.notifier }) in
    (st', elim r [ inl e ↦ Reply.refused (new_callback_error e) | inr id ↦ Reply.reply id ])

-- eth_unsubscribe; without a websocket it names the other method.
unfoldable pub request_unsubscribe : Bool → Text ⊎ List Text → State → State × Reply Bool
request_unsubscribe false req st =
    (st, Reply.refused (new_method_not_found_error (codes "eth_subscribe")))
request_unsubscribe true (inl e) st = (st, Reply.refused (new_invalid_params_error e))
request_unsubscribe true (inr (id ∷ [])) st =
    let (st', success) = unsubscribe id st in (st', Reply.reply success)
request_unsubscribe true (inr _) st =
    (st, Reply.refused (new_invalid_params_error (codes "requires one parameter")))
