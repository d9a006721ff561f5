-- ===== src/Chains.antt =====
-- pkg/revo/revo.go: which chain the node is on, and how it is found out.
pub mod Detection
use charon.Prelude.{
  ℕ, ◌+◌, ◌*◌, min, ◌⊎◌, inl, inr, Bool, true, false, ◌&&◌, ◌||◌, not, Option, none, some, List, [],
  ◌∷◌, ◌++◌, Text, codes, text_eq, to_lower, if◌then◌else◌,
}

-- `AllChains`
abbrev pub all_chains : List Text
all_chains = codes "main" ∷ codes "regtest" ∷ codes "test" ∷ codes "auto" ∷ codes "" ∷ []

-- `utils.InStrSlice`
unfoldable pub in_str_slice : List Text → Text → Bool
in_str_slice [] s = false
in_str_slice (t ∷ ts) s = let rest = in_str_slice ts s in if text_eq t s then true else rest

-- The chain of `Revo`, and whether it is being asked for; `querying_complete` is that there is a
-- channel, which is not closed yet.
pub record ChainState : Type 0 where
  pub chain : Text
  pub querying_chain : Bool
  pub querying_complete : Bool

-- `detectChain`, and whether the goroutine is started.
unfoldable pub detect_chain : ChainState → ChainState × Bool
detect_chain s =
    if s.querying_chain
      || (not (text_eq s.chain (codes "auto")) && not (text_eq s.chain (codes "")))
    then (s, false)
    else (record s { querying_chain = true; querying_complete = true }, true)

-- `New`
unfoldable pub new_revo : Text → Text ⊎ (ChainState × Bool)
new_revo chain =
    if in_str_slice all_chains chain
    then inr
        (detect_chain (record { chain = chain; querying_chain = false; querying_complete = false }))
    else inl (codes "Invalid revo chain: '" ++ (chain ++ codes "'"))

-- What comes of one call of the node; `cancelled` is one that fails, with the context done in the
-- wait that follows.
pub data Attempt : Type 0 where
  answers : Text → Attempt
  fails cancelled : Attempt

-- A chain that the node answered.
unfoldable pub detected : Text → ChainState → ChainState
detected chain s = record {
  chain = to_lower chain;
  querying_chain = false;
  querying_complete = false;
}

-- The wait after the try of a number, in milliseconds.
unfoldable pub detecting_backoff : ℕ → ℕ
detecting_backoff i = min i 10 * 250

-- `detectingChain` from a try on, over the tries to come, with the milliseconds waited.
unfoldable pub detecting_chain : ℕ → List Attempt → ChainState → ChainState × ℕ
detecting_chain i [] s = (s, 0)
detecting_chain i (Attempt.answers chain ∷ tries) s = (detected chain s, 0)
detecting_chain i (Attempt.cancelled ∷ tries) s = (s, 0)
detecting_chain i (Attempt.fails ∷ tries) s =
    let (t, waited) = detecting_chain (i + 1) tries s in (t, detecting_backoff i + waited)

-- `Chain`, where `true` is that the context is done, and `none` that it waits for the channel.
unfoldable pub current_chain : Bool → ChainState → Option Text
current_chain done s =
    if s.querying_chain && s.querying_complete && not done then none else some s.chain

-- `ChainId`, of what `Chain` returns.
unfoldable pub chain_id : Text → ℕ
chain_id chain =
    let lower = to_lower chain in
    if text_eq lower (codes "main")
    then 81
    else if text_eq lower (codes "test")
    then 8889
    else if text_eq lower (codes "regtest")
    then 8890
    else 8890
