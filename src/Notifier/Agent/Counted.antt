-- ===== src/Notifier/Agent/Counted.antt =====
-- pkg/notifier/agent.go: the counts of the registries.
use charon.Prelude.{
  text_eq, Option, Option-cases, length, true, false, Bool-cases, ◌≡◌, inl, inr, none, some, lookup,
  IsUnique, text_Eq, Text, codes, to_lower, arith, length-insert_absent, length-insert_present,
  length-remove_present, insert-IsUnique, remove-IsUnique,
}
use charon.Notifier.Agent.{
  State, new_subscription, unsubscribe_once, unsubscribe, SubscriptionInformation,
  SubscriptionRegistry, Agent, add_subscription, remove_subscription, agent_unsubscribe,
  add_to_agent,
}

-- The count is the number of the entries, one for an identifier.
pub record IsCounted (r : SubscriptionRegistry) : Type 0 where
  pub unique : IsUnique r.subscriptions
  pub counted : r.subscription_count ≡ length r.subscriptions

pub record IsValid (a : Agent) : Type 0 where
  pub new_heads : IsCounted a.new_heads
  pub logs : IsCounted a.logs
  pub new_pending_txs : IsCounted a.new_pending_txs
  pub syncing : IsCounted a.syncing

add_subscription-IsCounted :
    (s : SubscriptionInformation) (r : SubscriptionRegistry)
    → IsCounted r
    → IsCounted (add_subscription s r)
unfolding add_subscription
add_subscription-IsCounted s r v = elim (Option-cases (lookup s.id r.subscriptions)) [
  | inl e ↦ record {
    unique = insert-IsUnique s.id s r.subscriptions v.unique;
    counted =
        rw (e, add_subscription)
          (omega (arith, v.counted, length-insert_absent s.id s r.subscriptions e));
  }
  | inr w ↦ record {
    unique = insert-IsUnique s.id s r.subscriptions v.unique;
    counted =
        rw (w.1, add_subscription)
          (omega (arith, v.counted, length-insert_present s.id s w.0 r.subscriptions w.1));
  }
]

remove_subscription-IsCounted :
    (id : Text) (r : SubscriptionRegistry) → IsCounted r → IsCounted (remove_subscription id r)
unfolding remove_subscription
remove_subscription-IsCounted id r v = elim (Option-cases (lookup id r.subscriptions)) [
  | inl e ↦ rw (e, remove_subscription) v
  | inr w ↦
      rw (w.1, remove_subscription)
        (record {
          unique = remove-IsUnique id r.subscriptions v.unique;
          counted =
              omega (arith, v.counted, length-remove_present id w.0 r.subscriptions v.unique w.1);
        })
]

IsValid-some : (a b : Agent) → some a ≡ some b → IsValid a → IsValid b
IsValid-some a b e v = let same : a ≡ b = cc in rw same at v

add_to_agent-IsValid :
    (s : SubscriptionInformation) (a b : Agent) → add_to_agent s a ≡ some b → IsValid a → IsValid b
unfolding add_to_agent
add_to_agent-IsValid s a b e v =
    let m = to_lower s.method in
    let logs' = add_subscription-IsCounted s a.logs v.logs in
    let heads' = add_subscription-IsCounted s a.new_heads v.new_heads in
    let txs' = add_subscription-IsCounted s a.new_pending_txs v.new_pending_txs in
    let sync' = add_subscription-IsCounted s a.syncing v.syncing in
    elim (Bool-cases (text_eq m (codes "logs"))) [
      | inl p ↦
          IsValid-some (record a { logs = add_subscription s a.logs }) b (rw p at e)
            (record {
              new_heads = v.new_heads;
              logs = logs';
              new_pending_txs = v.new_pending_txs;
              syncing = v.syncing;
            })
      | inr p ↦ elim (Bool-cases (text_eq m (codes "newheads"))) [
        | inl q ↦
            IsValid-some (record a { new_heads = add_subscription s a.new_heads }) b
              (rw (p, q) at e)
              (record {
                new_heads = heads';
                logs = v.logs;
                new_pending_txs = v.new_pending_txs;
                syncing = v.syncing;
              })
        | inr q ↦ elim (Bool-cases (text_eq m (codes "newpendingtransactions"))) [
          | inl r ↦
              IsValid-some (record a { new_pending_txs = add_subscription s a.new_pending_txs }) b
                (rw (p, q, r) at e)
                (record {
                  new_heads = v.new_heads;
                  logs = v.logs;
                  new_pending_txs = txs';
                  syncing = v.syncing;
                })
          | inr r ↦ elim (Bool-cases (text_eq m (codes "syncing"))) [
            | inl t ↦
                IsValid-some (record a { syncing = add_subscription s a.syncing }) b
                  (rw (p, q, r, t) at e)
                  (record {
                    new_heads = v.new_heads;
                    logs = v.logs;
                    new_pending_txs = v.new_pending_txs;
                    syncing = sync';
                  })
            | inr t ↦ let never : none ≡ some b = (rw (p, q, r, t) at e) in absurd (cc)
          ]
        ]
      ]
    ]

unsubscribe-IsValid :
    (id : Text) (st : State) → IsValid st.agent → IsValid (unsubscribe id st).0.agent
unfolding unsubscribe unsubscribe_once agent_unsubscribe
unsubscribe-IsValid id st v = elim (Option-cases (lookup id st.notifier.subscriptions)) [
  | inl e ↦ rw (e, unsubscribe) v
  | inr (true, e) ↦ rw (e, unsubscribe) v
  | inr (false, e) ↦
      rw (e, unsubscribe)
        (record {
          new_heads = remove_subscription-IsCounted id st.agent.new_heads v.new_heads;
          logs = remove_subscription-IsCounted id st.agent.logs v.logs;
          new_pending_txs =
              remove_subscription-IsCounted id st.agent.new_pending_txs v.new_pending_txs;
          syncing = remove_subscription-IsCounted id st.agent.syncing v.syncing;
        })
]

new_subscription-IsValid :
    (random : Option Text) (method : Text) (st : State)
    → IsValid st.agent
    → IsValid (new_subscription random method st).0.agent
unfolding new_subscription
new_subscription-IsValid none method st v = v
new_subscription-IsValid (some id) method st v =
    let s : SubscriptionInformation = record { id = id; method = method } in
    elim (Option-cases (add_to_agent s st.agent)) [
      | inl e ↦ rw (e, new_subscription) v
      | inr (b, e) ↦ rw (e, new_subscription) (add_to_agent-IsValid s st.agent b e v)
    ]

-- For every state whose registries count their entries, every identifier and every method: after a
-- subscription is asked for, and after one is ended, they still do.
pub subscriptions_counted :
    (random : Option Text) (id method : Text) (st : State)
    → IsValid st.agent
    → IsValid (new_subscription random method st).0.agent × IsValid (unsubscribe id st).0.agent
subscriptions_counted random id method st v =
    (new_subscription-IsValid random method st v, unsubscribe-IsValid id st v)
