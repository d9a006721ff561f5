-- ===== src/Tests/Recovery.antt =====
-- Recovery from a missing wallet at concrete inputs; the node counts the calls that change it.
use charon.Prelude.{
  lookup, inl, ℕ, ◌+◌, ◌≡◌, refl, inr, true, false, List, [], ◌∷◌, Text, codes, length,
}
use charon.Recovery.{
  Entry, new_error_state, get, Wallets, Timer, Handled, Run, wallet_not_found_handler, Event,
  run_events,
}
use charon.Recovery.Stuck.{AllFailed, count_runs, created_never_recovers}
use charon.Recovery.Retry.{IsIdle, AllRecovered, Refuses, attempt, iterate, first_wallet_again}

abbrev empty_dir : Wallets ℕ
empty_dir = record {
  list_wallets = λ n. (n, inr []);
  unload_wallet = λ wallet n. n;
  list_wallet_dir = λ n. (n, inr []);
  create_wallet = λ wallet n. (n + 1, true);
  load_wallet = λ wallet n. (n + 1, true);
}

abbrev locked : Wallets ℕ
locked = record {
  list_wallets = λ n. (n, inr []);
  unload_wallet = λ wallet n. n;
  list_wallet_dir = λ n. (n, inr (codes "locked" ∷ codes "open" ∷ []));
  create_wallet = λ wallet n. (n + 1, true);
  load_wallet = λ wallet n. (n + 1, false);
}

abbrev fresh : Run ℕ
fresh = record { node = 0; state = new_error_state; timers = [] }

fresh-nil : (k : Text) → get k new_error_state ≡ Entry.nil
unfolding get new_error_state lookup
fresh-nil k = refl

abbrev expiring : List Event
expiring = Event.request_fails ∷ Event.timer_fires Timer.expire_created ∷ Event.request_fails ∷ []

created_never_recovers_example :
    let (r', handled) = wallet_not_found_handler empty_dir fresh in
    let (last, others) = run_events empty_dir expiring r' in
    (handled ≡ Handled.recovered)
    × (r'.node ≡ 1)
    × (last.node ≡ 1)
    × AllFailed others
    × (length others ≡ count_runs expiring)
created_never_recovers_example =
    created_never_recovers empty_dir expiring fresh 0 0 1 (fresh-nil (codes "createwallet"))
      (fresh-nil (codes "createwalletRunning")) (fresh-nil (codes "loadwallet")) refl refl refl

locked-Refuses : Refuses locked (codes "locked") (codes "open" ∷ [])
locked-Refuses = record { unloaded = λ n. refl; directory = λ n. refl; fails = λ n. refl }

fresh-IsIdle : IsIdle new_error_state
fresh-IsIdle = record {
  created = fresh-nil (codes "createwallet");
  running = fresh-nil (codes "createwalletRunning");
  noted = inl (fresh-nil (codes "loadwallet"));
}

abbrev retries : List Event
retries =
    Event.request_fails
    ∷ Event.request_fails
    ∷ Event.timer_fires (Timer.expire_index 0)
    ∷ Event.request_fails
    ∷ []

first_wallet_again_example :
    let (last, handled) = run_events locked retries fresh in
    (last.node
      ≡ iterate (count_runs retries) (attempt locked (codes "locked") (codes "open" ∷ [])) 0)
    × AllRecovered handled
    × (length handled ≡ count_runs retries)
first_wallet_again_example =
    first_wallet_again locked (codes "locked") (codes "open" ∷ []) locked-Refuses retries fresh tt
      fresh-IsIdle
