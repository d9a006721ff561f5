-- ===== src/Notifier/Agent/Heads.antt =====
-- pkg/notifier/agent.go, `run`: the loop that watches the node for new heads. A turn is what it
-- meets in one round.
use charon.Prelude.{
  lookup, length, text_Eq, refl, ap, zero, suc, ◌⊎◌, Option-cases, Sum-cases, ◌<◌, ◌≡◌, false,
  Bool-cases, arith, ℕ, inl, inr, Option, none, some, List, [], ◌∷◌, Text, ltb, ◌==◌, if◌then◌else◌,
  Map,
}
use charon.Hex.Prefix.{add_hex_prefix}
use charon.Notifier.Agent.{SubscriptionInformation, SubscriptionRegistry}

-- The height and the hash of `getblockchaininfo`.
pub record BlockChainInfo : Type 0 where
  pub blocks : ℕ
  pub best_block_hash : Text

-- `eth.EthSubscriptionParams`
pub record EthSubscriptionParams (A : Type 0) : Type 0 where
  pub subscription_id : Text
  pub result : A

-- What a round meets: the registry, the answer of the node, and eth_getBlockByHash by the
-- transformer, if there is one, where `none` is an error or a response of another type.
pub record Turn (A : Type 0) : Type 0 where
  pub new_heads : SubscriptionRegistry
  pub transformer : Option (Text → Option A)
  pub info : Text ⊎ BlockChainInfo

-- It is among what is sent.
abbrev pub IsSent : {B : Type 0} → B → List B → Type 0
IsSent x [] = ⊥
IsSent x (y ∷ l) = (x ≡ y) ⊎ IsSent x l

module _ {A : Type 0} where
  -- `SendAll`: a goroutine each, in the order of the map, which Go does not give. The list stands for
  -- what is sent, in whatever order.
  unfoldable pub send_to : Map Text SubscriptionInformation → A → List (EthSubscriptionParams A)
  send_to [] message = []
  send_to ((id, s) ∷ m) message =
      record { subscription_id = s.id; result = message } ∷ send_to m message

  unfoldable pub send_all : SubscriptionRegistry → A → List (EthSubscriptionParams A)
  send_all registry message = send_to registry.subscriptions message

  -- The body of the loop behind the answers: the last block after it, and the response that is sent.
  unfoldable pub new_head : ℕ → (Text → Option A) → BlockChainInfo → ℕ × Option A
  new_head last transform info =
      if last == 0
      then (info.blocks, none)
      else if ltb last info.blocks
      then (elim (transform (add_hex_prefix info.best_block_hash)) [
        | none ↦ (last, none)
        | some response ↦ (info.blocks, some response)
      ])
      else (last, none)

  unfoldable pub round : ℕ → Turn A → ℕ × Option A
  round last turn = elim (turn.transformer) [
    | none ↦ (last, none)
    | some transform ↦ elim (turn.info) [
      | inl e ↦ (last, none)
      | inr info ↦ new_head last transform info
    ]
  ]

  abbrev notify :
      SubscriptionRegistry
      → ℕ × Option A
      → List (ℕ × List (EthSubscriptionParams A))
      → List (ℕ × List (EthSubscriptionParams A))
  notify registry (last, none) rest = rest
  notify registry (last, some response) rest = (last, send_all registry response) ∷ rest

  -- The loop, which ends where there are no subscriptions: what it sends, each beside the height.
  unfoldable pub watch : List (Turn A) → ℕ → List (ℕ × List (EthSubscriptionParams A))
  watch [] last = []
  watch (turn ∷ turns) last =
      let rest = watch turns (round last turn).0 in
      if turn.new_heads.subscription_count == 0
      then []
      else notify turn.new_heads (round last turn) rest

  -- The heights go up, from above `n`.
  abbrev pub IsAscending : ℕ → List (ℕ × List (EthSubscriptionParams A)) → Type 0
  IsAscending n [] = Unit
  IsAscending n ((height, sent) ∷ l) = (n < height) × IsAscending height l

  -- A round behind the first answer leaves everything, or sends a response and goes up.
  new_head_lem :
      (last : ℕ) (transform : Text → Option A) (info : BlockChainInfo)
      → 0 < last
      → ((new_head last transform info).0 ≡ last) × ((new_head last transform info).1 ≡ none)
        ⊎ (r : A) × ((new_head last transform info).1 ≡ some r)
          × (last < (new_head last transform info).0)
  unfolding new_head
  new_head_lem last transform info h =
      let positive : (last == 0) ≡ false = ground arith in
      elim (Bool-cases (ltb last info.blocks)) [
        | inl e ↦ elim (Option-cases (transform (add_hex_prefix info.best_block_hash))) [
          | inl n ↦ inl (rw (positive, e, n, new_head), rw (positive, e, n, new_head))
          | inr (r, n) ↦
              inr (r, rw (positive, e, n, new_head), rw (positive, e, n, new_head) (ground arith))
        ]
        | inr e ↦ inl (rw (positive, e, new_head), rw (positive, e, new_head))
      ]

  round_lem :
      (last : ℕ) (turn : Turn A)
      → 0 < last
      → ((round last turn).0 ≡ last) × ((round last turn).1 ≡ none)
        ⊎ (r : A) × ((round last turn).1 ≡ some r) × (last < (round last turn).0)
  unfolding round
  round_lem last turn h = elim (Option-cases turn.transformer) [
    | inl e ↦ inl (rw (e, round), rw (e, round))
    | inr (transform, e) ↦ elim (Sum-cases turn.info) [
      | inl (m, i) ↦ inl (rw (e, i, round), rw (e, i, round))
      | inr (info, i) ↦ rw (e, i, round) (new_head_lem last transform info h)
    ]
  ]

  notify-none :
      (registry : SubscriptionRegistry) (p : ℕ × Option A)
      (rest : List (ℕ × List (EthSubscriptionParams A)))
      → p.1 ≡ none
      → notify registry p rest ≡ rest
  notify-none registry (last, none) rest e = refl
  notify-none registry (last, some r) rest e = cc

  notify-some :
      (registry : SubscriptionRegistry) (p : ℕ × Option A) (r : A)
      (rest : List (ℕ × List (EthSubscriptionParams A)))
      → p.1 ≡ some r
      → notify registry p rest ≡ (p.0, send_all registry r) ∷ rest
  notify-some registry (last, none) r rest e = cc
  notify-some registry (last, some q) r rest e =
      let same : q ≡ r = cc in ap (λ x. (last, send_all registry x) ∷ rest) same

  IsAscending-zero :
      (n : ℕ) (l : List (ℕ × List (EthSubscriptionParams A))) → IsAscending n l → IsAscending 0 l
  IsAscending-zero n [] a = tt
  IsAscending-zero n ((height, sent) ∷ l) (up, a) = (omega arith, a)

  watch_above : (turns : List (Turn A)) (last : ℕ) → 0 < last → IsAscending last (watch turns last)
  unfolding watch
  watch_above [] last h = tt
  watch_above (turn ∷ turns) last h = elim (Bool-cases (turn.new_heads.subscription_count == 0)) [
    | inl e ↦ rw e tt
    | inr e ↦ rw e (elim (round_lem last turn h) [
      | inl (same, silent) ↦
          rw
            (
              notify-none turn.new_heads (round last turn) (watch turns (round last turn).0) silent,
              same,
            )
            (watch_above turns last h)
      | inr (r, sent, up) ↦
          rw (notify-some turn.new_heads (round last turn) r (watch turns (round last turn).0) sent)
            (up, watch_above turns (round last turn).0 (omega arith))
    ])
  ]

  -- The first answer is not sent.
  round-zero : (turn : Turn A) → (round 0 turn).1 ≡ none
  unfolding round new_head
  round-zero turn = elim (Option-cases turn.transformer) [
    | inl e ↦ rw (e, round)
    | inr (transform, e) ↦ elim (Sum-cases turn.info) [
      | inl (m, i) ↦ rw (e, i, round)
      | inr (info, i) ↦ rw (e, i, round)
    ]
  ]

  watch_any : (turns : List (Turn A)) (last : ℕ) → IsAscending 0 (watch turns last)
  unfolding watch
  watch_any turns (suc n) =
      IsAscending-zero (suc n) (watch turns (suc n)) (watch_above turns (suc n) (omega arith))
  watch_any [] zero = tt
  watch_any (turn ∷ turns) zero = elim (Bool-cases (turn.new_heads.subscription_count == 0)) [
    | inl e ↦ rw e tt
    | inr e ↦
        let silent = round-zero turn in
        rw (e, notify-none turn.new_heads (round 0 turn) (watch turns (round 0 turn).0) silent)
          (watch_any turns (round 0 turn).0)
  ]

  -- For every series of rounds from the start of the loop, whatever the node and the transformer
  -- answer in them: the heights of the heads that are sent go up strictly, so that no head is sent
  -- twice and none after a later one.
  pub heads-IsAscending : (turns : List (Turn A)) → IsAscending 0 (watch turns 0)
  heads-IsAscending turns = watch_any turns 0

  -- There are subscriptions, the node stands at the height, and its head is found.
  pub record Answers (turn : Turn A) (height : ℕ) (response : A) : Type 0 where
    pub subscribed : (turn.new_heads.subscription_count == 0) ≡ false
    pub transform : Text → Option A
    pub info : BlockChainInfo
    pub has_transformer : turn.transformer ≡ some transform
    pub has_info : turn.info ≡ inr info
    pub blocks : info.blocks ≡ height
    pub found : transform (add_hex_prefix info.best_block_hash) ≡ some response

  -- Every round is answered, at a height above 0 and below the given one.
  abbrev pub AreBelow : List (Turn A) → ℕ → Type 0
  AreBelow [] height = Unit
  AreBelow (turn ∷ turns) height =
      (k : ℕ) × (r : A) × Answers turn k r × (0 < k) × (k < height) × AreBelow turns height

  -- Each subscription gets the response under its own identifier, and nothing else is sent.
  pub record Reaches (m : Map Text SubscriptionInformation) (response : A)
      (out : List (EthSubscriptionParams A)) : Type 0 where
    pub each :
        (id : Text) (s : SubscriptionInformation)
        → lookup id m ≡ some s
        → IsSent (record { subscription_id = s.id; result = response }) out
    pub as_many : length out ≡ length m
