-- ===== src/Recovery/Stuck.antt =====
-- pkg/revo/error_handlers.go: the handler after it has created a wallet.
use charon.Prelude.{
  ℕ, suc, ◌≡◌, refl, ◌∙◌, Bool, true, false, Option, inr, List, [], ◌∷◌, Text, codes, arith, ap,
  text_eq, text_Eq, lookup-insert, some, none, length, if◌then◌else◌,
}
use charon.Recovery.{
  Entry, ErrorState, get, put, is_nil, Wallets, Timer, HandlerError, Handled, Run, create_if_none,
  load_wallet_index, load_from, load_wallets, recover_wallets, release, wallet_not_found_handler,
  fire, Event, fired, run_events,
}

-- What `Get` finds after `Put`.
pub get-put :
    (j k : Text) (v : Entry) (e : ErrorState)
    → get j (put k v e) ≡ (if text_eq k j then v else get j e)
unfolding get put
get-put j k v e = ground (arith, lookup-insert k j v e.state)

-- A wallet was created, whether that has expired or not.
abbrev pub IsCreated : ErrorState → Type 0
IsCreated e = is_nil (get (codes "createwallet") e) ≡ false

put-IsCreated :
    (k : Text) (v : Entry) (e : ErrorState)
    → text_eq k (codes "createwallet") ≡ false
    → IsCreated e
    → IsCreated (put k v e)
put-IsCreated k v e h c = ap is_nil (get-put (codes "createwallet") k v e ∙ rw h) ∙ c

put_flag-IsCreated :
    (b : Bool) (e : ErrorState) → IsCreated (put (codes "createwallet") (Entry.bool b) e)
unfolding text_eq
put_flag-IsCreated b e =
    ap is_nil (get-put (codes "createwallet") (codes "createwallet") (Entry.bool b) e)

-- A goroutine that ends leaves the wallet created.
fired-IsCreated :
    {W : Type 0} (t : Timer) (r : Run W)
    → IsCreated r.state
    → IsCreated (fired r (fire t r.state)).state
unfolding fire text_eq
fired-IsCreated Timer.expire_created r c = put_flag-IsCreated false r.state
fired-IsCreated (Timer.expire_index i) r c =
    let p = put-IsCreated (codes "loadwallet") Entry.nil r.state refl c in ground arith

abbrev pub AllFailed : List Handled → Type 0
AllFailed [] = Unit
AllFailed (h ∷ hs) = (h ≡ Handled.failed HandlerError.error_handler_failed) × AllFailed hs

-- The runs of the handler in a series.
abbrev pub count_runs : List Event → ℕ
count_runs [] = 0
count_runs (Event.request_fails ∷ events) = suc (count_runs events)
count_runs (Event.timer_fires t ∷ events) = count_runs events

pub fired-node : {W : Type 0} (r : Run W) (o : Option ErrorState) → (fired r o).node ≡ r.node
fired-node r none = refl
fired-node r (some e) = refl

module _ {W : Type 0} (n : Wallets W) where
  created-handler :
      (r : Run W)
      → IsCreated r.state
      → wallet_not_found_handler n r ≡ (r, Handled.failed HandlerError.error_handler_failed)
  unfolding wallet_not_found_handler
  created-handler r c = rw c

  created-run_events :
      (events : List Event) (r : Run W)
      → IsCreated r.state
      → let (last, others) = run_events n events r in
        (last.node ≡ r.node) × AllFailed others × (length others ≡ count_runs events)
  unfolding run_events
  created-run_events [] r c = (refl, tt, refl)
  created-run_events (Event.request_fails ∷ events) r c =
      rw (created-handler r c)
        (let (a, b, l) = created-run_events events r c in (a, (refl, b), ap suc l))
  created-run_events (Event.timer_fires t ∷ events) r c =
      let (a, b, l) =
        created-run_events events (fired r (fire t r.state)) (fired-IsCreated t r c) in
      (a ∙ fired-node r (fire t r.state), b, l)

  -- The state that a run leaves which created a wallet.
  abbrev created_state : ErrorState → ErrorState
  created_state e = put (codes "createwalletRunning") Entry.nil (
      put (codes "createwallet") (Entry.bool true)
        (put (codes "createwalletRunning") (Entry.bool true) e))

  created_state-IsCreated : (e : ErrorState) → IsCreated (created_state e)
  unfolding text_eq
  created_state-IsCreated e =
      put-IsCreated (codes "createwalletRunning") Entry.nil _ refl (put_flag-IsCreated true _)

  creating-load_wallets :
      (r : Run W) (b c : W)
      → get (codes "loadwallet") r.state ≡ Entry.nil
      → n.list_wallet_dir r.node ≡ (b, inr [])
      → n.create_wallet (codes "wallet") b ≡ (c, true)
      → load_wallets n r ≡ (
        record {
          node = c;
          state = put (codes "createwallet") (Entry.bool true) r.state;
          timers = Timer.expire_created ∷ r.timers;
        },
        Handled.recovered,
      )
  unfolding load_wallets create_if_none load_from load_wallet_index text_eq
  creating-load_wallets r b c e l l' =
      rw (l, load_wallets)
        (rw l (
          rw (l', create_if_none)
            (rw (get-put (codes "loadwallet") (codes "createwallet") (Entry.bool true) r.state, e)
              (rw l (rw (l', create_if_none))))))

  creating-handler :
      (r : Run W) (a b c : W)
      → get (codes "createwallet") r.state ≡ Entry.nil
      → get (codes "createwalletRunning") r.state ≡ Entry.nil
      → get (codes "loadwallet") r.state ≡ Entry.nil
      → n.list_wallets r.node ≡ (a, inr [])
      → n.list_wallet_dir a ≡ (b, inr [])
      → n.create_wallet (codes "wallet") b ≡ (c, true)
      → wallet_not_found_handler n r ≡ (
        record {
          node = c;
          state = created_state r.state;
          timers = Timer.expire_created ∷ r.timers;
        },
        Handled.recovered,
      )
  unfolding wallet_not_found_handler recover_wallets release text_eq
  creating-handler r a b c e1 e2 e3 l1 l2 l3 =
      let running = put (codes "createwalletRunning") (Entry.bool true) r.state in
      let idle : get (codes "loadwallet") running ≡ Entry.nil =
        get-put (codes "loadwallet") (codes "createwalletRunning") (Entry.bool true) r.state ∙ e3 in
      let load = creating-load_wallets (record r { node = a; state = running }) b c idle l2 l3 in
      rw (e1, e2) (rw (l1, recover_wallets) (rw l1 (rw load)))

  -- Where the handler has no trouble, the node has loaded no wallet and has none in its directory,
  -- and creates one: the run recovers. From then on, whatever goroutines end in between, the one
  -- included that is to let the handler recover again, every run fails and calls the node no more.
  pub created_never_recovers :
      (events : List Event) (r : Run W) (a b c : W)
      → get (codes "createwallet") r.state ≡ Entry.nil
      → get (codes "createwalletRunning") r.state ≡ Entry.nil
      → get (codes "loadwallet") r.state ≡ Entry.nil
      → n.list_wallets r.node ≡ (a, inr [])
      → n.list_wallet_dir a ≡ (b, inr [])
      → n.create_wallet (codes "wallet") b ≡ (c, true)
      → let (r', handled) = wallet_not_found_handler n r in
        let (last, others) = run_events n events r' in
        (handled ≡ Handled.recovered)
        × (r'.node ≡ c)
        × (last.node ≡ c)
        × AllFailed others
        × (length others ≡ count_runs events)
  created_never_recovers events r a b c e1 e2 e3 l1 l2 l3 =
      rw (creating-handler r a b c e1 e2 e3 l1 l2 l3) (
        let (x, y, z) = created-run_events events _ (created_state-IsCreated r.state) in
        (refl, refl, x, y, z))
