-- ===== src/Recovery.antt =====
-- pkg/revo/error_handlers.go: what the client does when the node has no wallet, with the state that
-- the handler keeps between its runs. The node is a parameter: each call may change it.
pub mod Stuck
pub mod Retry
use charon.Prelude.{
  ℕ, ◌+◌, ◌⊎◌, inl, inr, Bool, true, false, Option, none, some, List, [], ◌∷◌, Text, codes, ltb,
  length, if◌then◌else◌, Map, lookup, insert, text_Eq, ℤ, pos, negsuc, ◌==◌,
}

-- A value of `map[string]interface{}`, where a missing one is nil.
pub data Entry : Type 0 where
  nil : Entry
  bool : Bool → Entry
  int : ℕ → Entry

-- `errorState`
pub record ErrorState : Type 0 where
  pub state : Map Text Entry

unfoldable pub new_error_state : ErrorState
new_error_state = record { state = [] }

-- `Get`
unfoldable pub get : Text → ErrorState → Entry
get variable e = elim (lookup variable e.state) [ none ↦ Entry.nil | some v ↦ v ]

-- `Put`
unfoldable pub put : Text → Entry → ErrorState → ErrorState
put variable value e = record { state = insert variable value e.state }

abbrev pub is_nil : Entry → Bool
is_nil Entry.nil = true
is_nil (Entry.bool b) = false
is_nil (Entry.int i) = false

-- The calls of the node; `inl` is an error with its message, `false` one that is not looked at.
pub record Wallets (W : Type 0) : Type 0 where
  pub list_wallets : W → W × (Text ⊎ List Text)
  pub unload_wallet : Text → W → W
  pub list_wallet_dir : W → W × (Text ⊎ List Text)
  pub create_wallet : Text → W → W × Bool
  pub load_wallet : Text → W → W × Bool

-- A goroutine that waits, and then changes the state.
pub data Timer : Type 0 where
  expire_created : Timer
  expire_index : ℕ → Timer

pub data HandlerError : Type 0 where
  error_handler_failed error_handler_running unload_failed : HandlerError
  node_error : Text → HandlerError

-- How a run of the handler ends; a nil error is `recovered`.
pub data Handled : Type 0 where
  recovered : Handled
  failed : HandlerError → Handled
  panics : Handled

-- The node, the state, and the goroutines started so far.
pub record Run (W : Type 0) : Type 0 where
  pub node : W
  pub state : ErrorState
  pub timers : List Timer

-- `loadWallet.(int)`, where nil stands for -1 and `none` is a panic.
unfoldable pub load_wallet_index : Entry → Option ℤ
load_wallet_index Entry.nil = some (negsuc 0)
load_wallet_index (Entry.int i) = some (pos i)
load_wallet_index (Entry.bool b) = none

-- `-1` if the index is greater than the number of wallets
unfoldable pub reset_index : ℕ → ℤ → ℤ
reset_index count (pos i) = if ltb count i then negsuc 0 else pos i
reset_index count (negsuc i) = negsuc i

-- `loadWalletIndex > index`
unfoldable pub is_past : ℤ → ℕ → Bool
is_past (pos i) index = ltb index i
is_past (negsuc i) index = false

abbrev pub set_index : ℕ → ErrorState → ErrorState
set_index i = put (codes "loadwallet") (Entry.int i)

module _ {W : Type 0} (n : Wallets W) where
  -- The wallet that is created where the directory has none.
  unfoldable pub create_if_none : List Text → Run W → Run W
  create_if_none (wallet ∷ wallets) r = r
  create_if_none [] r =
      let (node, created) = n.create_wallet (codes "wallet") r.node in
      if created
      then record {
        node = node;
        state = put (codes "createwallet") (Entry.bool true) r.state;
        timers = Timer.expire_created ∷ r.timers;
      }
      else record r { node = node }

  unfoldable pub load_one : ℕ → Text → Run W → Run W
  load_one index wallet r =
      let (node, loaded) = n.load_wallet wallet r.node in
      if loaded then record r { node = node } else record {
        node = node;
        state = set_index index r.state;
        timers = Timer.expire_index index ∷ r.timers;
      }

  -- The loop over the wallets, which ends with the first that it does not skip.
  unfoldable pub load_from : ℤ → ℕ → List Text → Run W → Run W
  load_from at index [] r = r
  load_from at index (wallet ∷ wallets) r =
      let rest = load_from at (index + 1) wallets r in
      if is_past at index then rest else load_one index wallet r

  unfoldable pub load_wallets : Run W → Run W × Handled
  load_wallets r =
      let (node, listed) = n.list_wallet_dir r.node in
      elim listed [
        | inl e ↦ (record r { node = node }, Handled.failed (HandlerError.node_error e))
        | inr wallets ↦
            let r' = create_if_none wallets (record r { node = node }) in
            elim (load_wallet_index (get (codes "loadwallet") r'.state)) [
              | none ↦ (r', Handled.panics)
              | some at ↦
                  (load_from (reset_index (length wallets) at) 0 wallets r', Handled.recovered)
            ]
      ]

  unfoldable pub unload_all : List Text → W → W
  unload_all [] node = node
  unload_all (wallet ∷ wallets) node = unload_all wallets (n.unload_wallet wallet node)

  -- What follows after all wallets were unloaded.
  unfoldable pub load_again : Run W → Run W × Handled
  load_again r =
      let (node, listed) = n.list_wallets r.node in
      elim listed [
        | inl e ↦ (record r { node = node }, Handled.failed (HandlerError.node_error e))
        | inr [] ↦ load_wallets (record r { node = node })
        | inr (wallet ∷ []) ↦ (record r { node = node }, Handled.recovered)
        | inr (wallet ∷ wallet' ∷ wallets) ↦
            (record r { node = node }, Handled.failed HandlerError.unload_failed)
      ]

  -- The handler between setting `createwalletRunning` and its release.
  unfoldable pub recover_wallets : Run W → Run W × Handled
  recover_wallets r =
      let (node, listed) = n.list_wallets r.node in
      elim listed [
        | inl e ↦ (record r { node = node }, Handled.failed (HandlerError.node_error e))
        | inr [] ↦ load_wallets (record r { node = node })
        | inr (wallet ∷ []) ↦ (record r { node = node }, Handled.recovered)
        | inr (wallet ∷ wallet' ∷ wallets) ↦
            load_again (record r { node = unload_all (wallet ∷ wallet' ∷ wallets) node })
      ]

  unfoldable pub release : Run W × Handled → Run W × Handled
  release (r, handled) =
      (record r { state = put (codes "createwalletRunning") Entry.nil r.state }, handled)

  -- `errWalletNotFoundHandler`
  unfoldable pub wallet_not_found_handler : Run W → Run W × Handled
  wallet_not_found_handler r =
      if is_nil (get (codes "createwallet") r.state)
      then (if is_nil (get (codes "createwalletRunning") r.state)
          then release (
              recover_wallets
                (record r { state = put (codes "createwalletRunning") (Entry.bool true) r.state }))
          else (r, Handled.failed HandlerError.error_handler_running))
      else (r, Handled.failed HandlerError.error_handler_failed)

-- A goroutine after its wait; `none` is a panic.
unfoldable pub fire : Timer → ErrorState → Option ErrorState
fire Timer.expire_created e = some (put (codes "createwallet") (Entry.bool false) e)
fire (Timer.expire_index i) e = elim (get (codes "loadwallet") e) [
  | nil ↦ some e
  | bool b ↦ none
  | int j ↦ some (if j == i then put (codes "loadwallet") Entry.nil e else e)
]

-- A series of runs of the handler, and of goroutines that end between them.
pub data Event : Type 0 where
  request_fails : Event
  timer_fires : Timer → Event

-- The state after a goroutine, whose panic would end the program.
abbrev pub fired : {W : Type 0} → Run W → Option ErrorState → Run W
fired r none = r
fired r (some e) = record r { state = e }

module _ {W : Type 0} (n : Wallets W) where
  -- Where the series ends, and how each run of the handler in it did.
  unfoldable pub run_events : List Event → Run W → Run W × List Handled
  run_events [] r = (r, [])
  run_events (request_fails ∷ events) r =
      let (r', handled) = wallet_not_found_handler n r in
      let (last, others) = run_events events r' in (last, handled ∷ others)
  run_events (timer_fires t ∷ events) r = run_events events (fired r (fire t r.state))
