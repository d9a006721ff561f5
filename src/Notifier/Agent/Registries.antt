-- ===== src/Notifier/Agent/Registries.antt =====
-- pkg/notifier/agent.go and pkg/notifier/notifier.go: the registries and the notifier through
-- subscriptions and their end.
use charon.Prelude.{
  text_eq, ◌++◌, text_eq_iff, true, false, ap, ◌∙◌, ◌+◌, ◌-◌, ◌≡◌, ◌⊎◌, inl, inr, none, some, [],
  ◌∷◌, Map, lookup, insert, lookup-insert, text_Eq, Text, codes, text_eq_refl, to_lower, arith,
  remove-insert_absent,
}
use charon.Notifier.Agent.{
  State, subscribe, new_subscription, unsubscribe_once, unsubscribe, SubscriptionInformation,
  SubscriptionRegistry, Agent, add_subscription, remove_subscription, cancelled_by,
  subscription_count, agent_unsubscribe, cancelled_in, add_to_agent,
}

remove_subscription_absent :
    (id : Text) (r : SubscriptionRegistry)
    → lookup id r.subscriptions ≡ none
    → (remove_subscription id r ≡ r) × (cancelled_by id r ≡ [])
unfolding remove_subscription cancelled_by
remove_subscription_absent id r e = (rw (e, remove_subscription), rw (e, cancelled_by))

lookup-insert_self :
    {V : Type 0} (id : Text) (v : V) (m : Map Text V) → lookup id (insert id v m) ≡ some v
lookup-insert_self id v m = ground (arith, lookup-insert id id v m, text_eq_refl id)

remove-add_subscription :
    (s : SubscriptionInformation) (r : SubscriptionRegistry)
    → lookup s.id r.subscriptions ≡ none
    → (remove_subscription s.id (add_subscription s r) ≡ r)
      × (cancelled_by s.id (add_subscription s r) ≡ s.id ∷ [])
      × ((add_subscription s r).subscription_count ≡ r.subscription_count + 1)
unfolding remove_subscription add_subscription cancelled_by
remove-add_subscription s r e =
    let found = lookup-insert_self s.id s r.subscriptions in
    let back : r.subscription_count + 1 - 1 ≡ r.subscription_count = omega arith in
    (
      rw (found, remove_subscription)
          (rw (remove-insert_absent s.id s r.subscriptions e)
            (rw (e, add_subscription) (ap (λ n. record r { subscription_count = n }) back))),
      rw (found, cancelled_by),
      rw (e, add_subscription),
    )

-- The method of a subscription that the agent offers.
abbrev pub IsOffered : Text → Type 0
IsOffered method =
    (to_lower method ≡ codes "logs")
    ⊎ (to_lower method ≡ codes "newheads")
    ⊎ (to_lower method ≡ codes "newpendingtransactions")
    ⊎ (to_lower method ≡ codes "syncing")

-- No registry holds the identifier.
pub record IsFresh (id : Text) (a : Agent) : Type 0 where
  pub new_heads : lookup id a.new_heads.subscriptions ≡ none
  pub logs : lookup id a.logs.subscriptions ≡ none
  pub new_pending_txs : lookup id a.new_pending_txs.subscriptions ≡ none
  pub syncing : lookup id a.syncing.subscriptions ≡ none

-- An agent after a subscription was added, and what taking it away again does.
record Added (s : SubscriptionInformation) (a b : Agent) : Type 0 where
  added : add_to_agent s a ≡ some b
  removed : agent_unsubscribe s.id b ≡ a
  cancels : cancelled_in s.id b ≡ s.id ∷ []
  counts : subscription_count b ≡ subscription_count a + 1

add_to_agent-Added :
    (s : SubscriptionInformation) (a : Agent)
    → IsOffered s.method
    → IsFresh s.id a
    → (b : Agent) × Added s a b
unfolding add_to_agent agent_unsubscribe cancelled_in subscription_count text_eq
add_to_agent-Added s a (inl e) f =
    let heads = remove_subscription_absent s.id a.new_heads f.new_heads in
    let logs = remove-add_subscription s a.logs f.logs in
    let txs = remove_subscription_absent s.id a.new_pending_txs f.new_pending_txs in
    let sync = remove_subscription_absent s.id a.syncing f.syncing in
    (
      record a { logs = add_subscription s a.logs },
      record {
        added = rw e;
        removed = rw (heads.0, logs.0, txs.0, sync.0);
        cancels = rw (heads.1, logs.1, txs.1, sync.1);
        counts = omega (arith, logs.2);
      },
    )
add_to_agent-Added s a (inr (inl e)) f =
    let heads = remove-add_subscription s a.new_heads f.new_heads in
    let logs = remove_subscription_absent s.id a.logs f.logs in
    let txs = remove_subscription_absent s.id a.new_pending_txs f.new_pending_txs in
    let sync = remove_subscription_absent s.id a.syncing f.syncing in
    (
      record a { new_heads = add_subscription s a.new_heads },
      record {
        added = rw e;
        removed = rw (heads.0, logs.0, txs.0, sync.0);
        cancels = rw (heads.1, logs.1, txs.1, sync.1);
        counts = omega (arith, heads.2);
      },
    )
add_to_agent-Added s a (inr (inr (inl e))) f =
    let heads = remove_subscription_absent s.id a.new_heads f.new_heads in
    let logs = remove_subscription_absent s.id a.logs f.logs in
    let txs = remove-add_subscription s a.new_pending_txs f.new_pending_txs in
    let sync = remove_subscription_absent s.id a.syncing f.syncing in
    (
      record a { new_pending_txs = add_subscription s a.new_pending_txs },
      record {
        added = rw e;
        removed = rw (heads.0, logs.0, txs.0, sync.0);
        cancels = rw (heads.1, logs.1, txs.1, sync.1);
        counts = omega (arith, txs.2);
      },
    )
add_to_agent-Added s a (inr (inr (inr e))) f =
    let heads = remove_subscription_absent s.id a.new_heads f.new_heads in
    let logs = remove_subscription_absent s.id a.logs f.logs in
    let txs = remove_subscription_absent s.id a.new_pending_txs f.new_pending_txs in
    let sync = remove-add_subscription s a.syncing f.syncing in
    (
      record a { syncing = add_subscription s a.syncing },
      record {
        added = rw e;
        removed = rw (heads.0, logs.0, txs.0, sync.0);
        cancels = rw (heads.1, logs.1, txs.1, sync.1);
        counts = omega (arith, sync.2);
      },
    )

-- For every state, an identifier that neither the notifier nor a registry holds, and a method that
-- is offered: the subscription is made under the identifier and the agent counts one more; ending
-- it then succeeds, cancels its context and no other, and leaves the registries and the notifier
-- just as they were before; and ending it again, as the callback does, finds nothing and changes
-- nothing.
pub subscribe_unsubscribe :
    (id method : Text) (st : State)
    → IsOffered method
    → IsFresh id st.agent
    → lookup id st.notifier.subscriptions ≡ none
    → let (st', r) = new_subscription (some id) method st in
      let ended = record st { cancelled = id ∷ st.cancelled } in
      (r ≡ inr id)
      × (subscription_count st'.agent ≡ subscription_count st.agent + 1)
      × (unsubscribe id st' ≡ (ended, true))
      × (unsubscribe id ended ≡ (ended, false))
unfolding new_subscription unsubscribe unsubscribe_once subscribe
subscribe_unsubscribe id method st o f n =
    let (b, made) = add_to_agent-Added (record { id = id; method = method }) st.agent o f in
    let found = lookup-insert_self id false st.notifier.subscriptions in
    let st' = record st { agent = b; notifier = subscribe id st.notifier } in
    let subscribed : (new_subscription (some id) method st).0 ≡ st' =
      rw (made.added, new_subscription) in
    let back = remove-insert_absent id false st.notifier.subscriptions n in
    (
      rw (made.added, new_subscription),
      rw (made.added, new_subscription) made.counts,
      ap (unsubscribe id) subscribed ∙ rw (found, made.removed, made.cancels, back, unsubscribe),
      rw (n, unsubscribe),
    )

not_added :
    (s : SubscriptionInformation) (a : Agent) → ¬ IsOffered s.method → add_to_agent s a ≡ none
unfolding add_to_agent
not_added s a n =
    let m = to_lower s.method in
    ground (
      arith,
      n,
      text_eq_iff m (codes "logs"),
      text_eq_iff m (codes "newheads"),
      text_eq_iff m (codes "newpendingtransactions"),
      text_eq_iff m (codes "syncing"),
    )

-- A subscription to a method that is not offered is refused and no registry changes, but the
-- notifier keeps its identifier.
pub unknown_method_stays :
    (id method : Text) (st : State)
    → ¬ IsOffered method
    → let (st', r) = new_subscription (some id) method st in
      (r ≡ inl (codes "Unknown subscription type " ++ method))
      × (st'.agent ≡ st.agent)
      × (lookup id st'.notifier.subscriptions ≡ some false)
unfolding new_subscription subscribe
unknown_method_stays id method st n =
    let e = not_added (record { id = id; method = method }) st.agent n in
    (
      rw (e, new_subscription),
      rw (e, new_subscription),
      rw (e, new_subscription) (lookup-insert_self id false st.notifier.subscriptions),
    )
