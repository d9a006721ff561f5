-- ===== src/Recovery/Retry.antt =====
-- pkg/revo/error_handlers.go: the handler where the first wallet of the directory does not load.
use charon.Prelude.{
  ap, length, true, ℕ, zero, suc, Bool-cases, ◌≡◌, refl, ◌∙◌, ◌⊎◌, false, inl, inr, List, [], ◌∷◌,
  Text, codes, arith, text_eq, some, if◌then◌else◌, ◌==◌, ℤ, pos, negsuc,
}
use charon.Recovery.{
  load_wallets, create_if_none, recover_wallets, release, wallet_not_found_handler, run_events,
  Handled, Entry, ErrorState, get, put, set_index, Wallets, Timer, Run, load_wallet_index,
  reset_index, is_past, load_one, load_from, fire, Event,
}
use charon.Recovery.Stuck.{get-put, count_runs}

-- No wallet was created, the handler is not running, and at most the first wallet is noted.
pub record IsIdle (e : ErrorState) : Type 0 where
  pub created : get (codes "createwallet") e ≡ Entry.nil
  pub running : get (codes "createwalletRunning") e ≡ Entry.nil
  pub noted : (get (codes "loadwallet") e ≡ Entry.nil) ⊎ (get (codes "loadwallet") e ≡ Entry.int 0)

abbrev pub AllRecovered : List Handled → Type 0
AllRecovered [] = Unit
AllRecovered (h ∷ hs) = (h ≡ Handled.recovered) × AllRecovered hs

-- No goroutine of a created wallet ends in the series.
abbrev pub NoneCreated : List Event → Type 0
NoneCreated [] = Unit
NoneCreated (Event.request_fails ∷ events) = NoneCreated events
NoneCreated (Event.timer_fires Timer.expire_created ∷ events) = ⊥
NoneCreated (Event.timer_fires (Timer.expire_index i) ∷ events) = NoneCreated events

abbrev pub iterate {ℓ} : {W : Type ℓ} → ℕ → (W → W) → W → W
iterate zero f w = w
iterate (suc k) f w = iterate k f (f w)

note-IsIdle :
    (e : ErrorState) (v : Entry)
    → (v ≡ Entry.nil) ⊎ (v ≡ Entry.int 0)
    → IsIdle e
    → IsIdle (put (codes "loadwallet") v e)
unfolding text_eq
note-IsIdle e v h i =
    let found = λ (k : Text). get-put k (codes "loadwallet") v e in
    record {
      created = found (codes "createwallet") ∙ i.created;
      running = found (codes "createwalletRunning") ∙ i.running;
      noted = rw (found (codes "loadwallet")) h;
    }

fire-index :
    (i : ℕ) (e : ErrorState)
    → IsIdle e
    → (e' : ErrorState) × (fire (Timer.expire_index i) e ≡ some e') × IsIdle e'
unfolding fire
fire-index i e v = elim v.noted [
  | inl h ↦ (e, rw (h, fire), v)
  | inr h ↦ (
    if 0 == i then put (codes "loadwallet") Entry.nil e else e,
    rw (h, fire),
    elim (Bool-cases (0 == i)) [
      | inl z ↦ rw z (note-IsIdle e Entry.nil (inl refl) v)
      | inr z ↦ rw z v
    ],
  )
]

-- The first wallet of the directory, which is not loaded.
abbrev StartsFirst : Entry → Type 0
StartsFirst v =
    (at : ℤ) × (load_wallet_index v ≡ some at)
    × ((count : ℕ) → is_past (reset_index count at) 0 ≡ false)

noted-StartsFirst : (v : Entry) → (v ≡ Entry.nil) ⊎ (v ≡ Entry.int 0) → StartsFirst v
unfolding load_wallet_index reset_index is_past
noted-StartsFirst v (inl e) = rw e (negsuc 0, refl, λ count. refl)
noted-StartsFirst v (inr e) = rw e (pos 0, refl, λ count. ground arith)

running_state : ErrorState → ErrorState
running_state e = put (codes "createwalletRunning") (Entry.bool true) e

running-noted :
    (e : ErrorState) → get (codes "loadwallet") (running_state e) ≡ get (codes "loadwallet") e
unfolding running_state text_eq
running-noted e = get-put (codes "loadwallet") (codes "createwalletRunning") (Entry.bool true) e

-- The state after a run that notes the first wallet.
noted_state : ErrorState → ErrorState
noted_state e = put (codes "createwalletRunning") Entry.nil (set_index 0 (running_state e))

noted_state-IsIdle : (e : ErrorState) → IsIdle e → IsIdle (noted_state e)
unfolding noted_state running_state text_eq
noted_state-IsIdle e v =
    let a = λ (k : Text). get-put k (codes "createwalletRunning") (Entry.bool true) e in
    let b = λ (k : Text). get-put k (codes "loadwallet") (Entry.int 0) (running_state e) in
    let c = λ (k : Text).
      get-put k (codes "createwalletRunning") Entry.nil (set_index 0 (running_state e)) in
    record {
      created =
          c (codes "createwallet")
          ∙ b (codes "createwallet")
          ∙ a (codes "createwallet")
          ∙ v.created;
      running = c (codes "createwalletRunning");
      noted = inr (c (codes "loadwallet") ∙ b (codes "loadwallet"));
    }

module _ {W : Type 0} (n : Wallets W) (name : Text) (names : List Text) where
  -- The calls of one run: the wallets, the directory, and the first wallet of it.
  abbrev pub attempt : W → W
  attempt w =
      let listed = (n.list_wallets w).0 in (n.load_wallet name (n.list_wallet_dir listed).0).0

  first-load_from :
      (at : ℤ) (r : Run W)
      → is_past at 0 ≡ false
      → (n.load_wallet name r.node).1 ≡ false
      → load_from n at 0 (name ∷ names) r ≡ record {
        node = (n.load_wallet name r.node).0;
        state = set_index 0 r.state;
        timers = Timer.expire_index 0 ∷ r.timers;
      }
  unfolding load_from load_one
  first-load_from at r p l = rw p (rw (l, load_one))

  -- The node has no wallet loaded, and a directory whose first wallet does not load.
  pub record Refuses : Type 0 where
    pub unloaded : (w : W) → (n.list_wallets w).1 ≡ inr []
    pub directory : (w : W) → (n.list_wallet_dir w).1 ≡ inr (name ∷ names)
    pub fails : (w : W) → (n.load_wallet name w).1 ≡ false

  module _ (h : Refuses) where
    open h use {unloaded, directory, fails}

    failing-load_wallets :
        (r : Run W)
        → (get (codes "loadwallet") r.state ≡ Entry.nil)
          ⊎ (get (codes "loadwallet") r.state ≡ Entry.int 0)
        → load_wallets n r ≡ (
          record {
            node = (n.load_wallet name (n.list_wallet_dir r.node).0).0;
            state = set_index 0 r.state;
            timers = Timer.expire_index 0 ∷ r.timers;
          },
          Handled.recovered,
        )
    unfolding load_wallets create_if_none
    failing-load_wallets r v =
        let (at, e, p) = noted-StartsFirst (get (codes "loadwallet") r.state) v in
        rw (directory r.node, load_wallets)
          (rw e (
            rw (
              first-load_from (reset_index (length (name ∷ names)) at)
                (record r { node = (n.list_wallet_dir r.node).0 }) (p (length (name ∷ names)))
                (fails (n.list_wallet_dir r.node).0))))

    refused-handler :
        (r : Run W)
        → IsIdle r.state
        → wallet_not_found_handler n r ≡ (
          record {
            node = attempt r.node;
            state = noted_state r.state;
            timers = Timer.expire_index 0 ∷ r.timers;
          },
          Handled.recovered,
        )
    unfolding wallet_not_found_handler recover_wallets release noted_state running_state
    refused-handler r v =
        let noted = running-noted r.state in
        let load =
          failing-load_wallets
            (record r { node = (n.list_wallets r.node).0; state = running_state r.state })
            (rw noted v.noted) in
        rw (v.created, v.running) (rw (unloaded r.node, recover_wallets) (rw load))

    -- Where the node never has a wallet loaded, and the first wallet of its directory never loads, as
    -- one with a passphrase: from a state in which no wallet was created, the handler is not running
    -- and at most the first wallet is noted, whatever runs of the handler there are, and whatever
    -- goroutines that forget a noted wallet end between them, each run returns as if the wallets had
    -- been recovered, and asks the node just for its wallets, for its directory and to load that
    -- first wallet, so that no other wallet is ever tried.
    pub first_wallet_again :
        (events : List Event) (r : Run W)
        → NoneCreated events
        → IsIdle r.state
        → let (last, handled) = run_events n events r in
          (last.node ≡ iterate (count_runs events) attempt r.node)
          × AllRecovered handled
          × (length handled ≡ count_runs events)
    unfolding run_events
    first_wallet_again [] r h v = (refl, tt, refl)
    first_wallet_again (Event.request_fails ∷ events) r h v = rw (refused-handler r v) (
        let (a, b, l) =
          first_wallet_again events
            (record {
              node = attempt r.node;
              state = noted_state r.state;
              timers = Timer.expire_index 0 ∷ r.timers;
            })
            h (noted_state-IsIdle r.state v) in
        (a, (refl, b), ap suc l))
    first_wallet_again (Event.timer_fires Timer.expire_created ∷ events) r h v = absurd h
    first_wallet_again (Event.timer_fires (Timer.expire_index i) ∷ events) r h v =
        let (e, fires, idle) = fire-index i r.state v in
        rw (fires, run_events) (first_wallet_again events (record r { state = e }) h idle)
