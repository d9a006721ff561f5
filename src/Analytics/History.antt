-- ===== src/Analytics/History.antt =====
-- How the counters and the ring follow the history of outcomes, for every number of requests.
use charon.Prelude.{
  ℕ, ◌+◌, ◌-◌, ◌%◌, ◌≤◌, ◌<◌, ◌≡◌, refl, sym, ap, ◌∙◌, inl, inr, Bool, true, false, some, List, [],
  ◌∷◌, ◌++◌, append_assoc, append-nil, arith, length, get_elem?, set, replicate, drop,
  length-replicate, length-append, length-set, spin, slide, last_n, spin-set, spin_head,
  last_n-append, last_n_all, length-last_n, last_n_pad, get_elem?-ne-none, Option-cases, spin_zero,
  leb,
}
use native.Mathlib.Decide.{dec_lt}
use charon.Analytics.{
  Analytics, new_analytics, get_success_rate, count_request, uncount, advance, store, bump, run,
}
use charon.Analytics.Counts.{tally, weight, tally-append, tally_total, tally-drop}

-- The state after the outcomes `es`, oldest first: the ring is the end of the history behind the
-- `false` entries of a new ring, and the counters count the last `n` outcomes.
pub record Tracks (n : ℕ) (es : List Bool) (a : Analytics) : Type 0 where
  pub capacity : a.total_requests ≡ n
  pub size : length a.last_requests ≡ n
  pub index : a.last_request < n
  pub window : spin a.last_request a.last_requests ≡ last_n n (replicate n false ++ es)
  pub succeeded : a.success ≡ tally true (last_n n es)
  pub failed : a.failures ≡ tally false (last_n n es)

pub new_analytics-Tracks : (n : ℕ) → 0 < n → Tracks n [] (new_analytics n)
unfolding new_analytics
new_analytics-Tracks n h = record {
  capacity = refl;
  size = length-replicate n false;
  index = h;
  window = spin_zero (replicate n false) ∙ sym (padded n);
  succeeded = rw nothing;
  failed = rw nothing;
}
  where
    nothing : last_n {A = Bool} n [] ≡ []
    nothing = last_n_all n [] (omega arith)

    padded : (n : ℕ) → last_n n (replicate n false ++ []) ≡ replicate n false
    padded n =
        last_n_all n (replicate n false ++ [])
          (omega (arith, length-append (replicate n false) [], length-replicate n false))
        ∙ append-nil (replicate n false)

module _ {n : ℕ} {es : List Bool} {a : Analytics} (t : Tracks n es a) where
  -- The window moves on by the outcome stored.
  window_next :
      (ok : Bool)
      → spin ((a.last_request + 1) % n) (set a.last_requests a.last_request ok)
        ≡ last_n n (replicate n false ++ (es ++ (ok ∷ [])))
  window_next ok =
      ap (λ k. spin ((a.last_request + 1) % k) (set a.last_requests a.last_request ok)) (sym t.size)
      ∙ spin-set a.last_request a.last_requests ok (omega (arith, t))
      ∙ ap (slide ok) t.window
      ∙ sym (
          last_n-append n (replicate n false ++ es) ok (omega (arith, t))
            (omega (arith, length-append (replicate n false) es, length-replicate n false)))
      ∙ ap (last_n n) (append_assoc (replicate n false) es (ok ∷ []))

  total-lt : length es < n → a.success + a.failures ≡ length es
  total-lt h = omega (
    arith,
    t.succeeded ∙ ap (tally true) (last_n_all n es (omega arith)),
    t.failed ∙ ap (tally false) (last_n_all n es (omega arith)),
    tally_total es,
  )

  total-ge : n ≤ length es → a.success + a.failures ≡ n
  total-ge h = omega (arith, t, tally_total (last_n n es), length-last_n n es h)

  store_lem :
      (ok : Bool) (c : Analytics)
      → c.last_request ≡ a.last_request
      → c.last_requests ≡ a.last_requests
      → c.total_requests ≡ a.total_requests
      → store ok c ≡ some (advance ok c)
  unfolding store
  store_lem ok c e f g = ground (arith, t, ap length f)

  tally_lt :
      (b ok : Bool)
      → length es < n
      → tally b (last_n n (es ++ (ok ∷ []))) ≡ tally b (last_n n es) + weight b ok
  tally_lt b ok h =
      ap (tally b) (last_n_all n (es ++ (ok ∷ [])) (omega (arith, length-append es (ok ∷ []))))
      ∙ tally-append b es ok
      ∙ ap (λ l. tally b l + weight b ok) (sym (last_n_all n es (omega arith)))

  tally_ge :
      (b ok x : Bool)
      → n ≤ length es
      → get_elem? (last_n n es) 0 ≡ some x
      → tally b (last_n n (es ++ (ok ∷ []))) + weight b x ≡ tally b (last_n n es) + weight b ok
  tally_ge b ok x h e = omega (
    arith,
    ap (tally b) (last_n-append n es ok (omega (arith, t)) h),
    tally-append b (drop 1 (last_n n es)) ok,
    tally-drop b x (last_n n es) e,
  )

  -- The entry that is pushed off is the oldest of the last `n`.
  head_ge : n ≤ length es → get_elem? a.last_requests a.last_request ≡ get_elem? (last_n n es) 0
  head_ge h =
      sym (spin_head a.last_request a.last_requests (omega (arith, t)))
      ∙ ap (λ l. get_elem? l 0) (t.window ∙ last_n_pad n (replicate n false) es h)

  advance-Tracks :
      (ok : Bool) (c : Analytics)
      → c.last_request ≡ a.last_request
      → c.last_requests ≡ a.last_requests
      → c.total_requests ≡ a.total_requests
      → c.success ≡ tally true (last_n n (es ++ (ok ∷ [])))
      → c.failures ≡ tally false (last_n n (es ++ (ok ∷ [])))
      → Tracks n (es ++ (ok ∷ [])) (advance ok c)
  unfolding advance
  advance-Tracks ok c e f g s u = record {
    capacity = g ∙ t.capacity;
    size = rw (e, f) (length-set a.last_requests a.last_request ok ∙ t.size);
    index = rw (g, t.capacity) (grind (arith, t));
    window = rw (e, f, g, t.capacity) (window_next ok);
    succeeded = s;
    failed = u;
  }

  partial : length es < n → leb a.total_requests (a.success + a.failures) ≡ false
  partial h = ground (arith, t, total-lt h)

  full : n ≤ length es → leb a.total_requests (a.success + a.failures) ≡ true
  full h = ground (arith, t, total-ge h)

  -- A ring that is not full yet takes the outcome and counts it.
  bump-lt :
      (ok : Bool)
      → length es < n
      → (b : Analytics) × (bump ok a ≡ some b) × Tracks n (es ++ (ok ∷ [])) b
  unfolding bump count_request
  bump-lt true h =
      let c = count_request true a in
      (
        advance true c,
        rw (partial h, bump) (store_lem true c refl refl refl),
        advance-Tracks true c refl refl refl (omega (arith, t, tally_lt true true h))
            (omega (arith, t, tally_lt false true h)),
      )
  bump-lt false h =
      let c = count_request false a in
      (
        advance false c,
        rw (partial h, bump) (store_lem false c refl refl refl),
        advance-Tracks false c refl refl refl (omega (arith, t, tally_lt true false h))
            (omega (arith, t, tally_lt false false h)),
      )

  -- A full ring pushes its oldest outcome off, whose counter is not 0.
  bump-ge :
      (ok x : Bool)
      → n ≤ length es
      → get_elem? a.last_requests a.last_request ≡ some x
      → (b : Analytics) × (bump ok a ≡ some b) × Tracks n (es ++ (ok ∷ [])) b
  unfolding bump count_request uncount
  bump-ge true true h e =
      let c : Analytics = record a { success = a.success + 1 - 1; failures = a.failures } in
      let st = tally_ge true true true h (sym (head_ge h) ∙ e) in
      let sf = tally_ge false true true h (sym (head_ge h) ∙ e) in
      (
        advance true c,
        rw (full h, e, bump) (ground (arith, t, st, sf, store_lem true c refl refl refl)),
        advance-Tracks true c refl refl refl (omega (arith, t, st)) (omega (arith, t, sf)),
      )
  bump-ge true false h e =
      let c : Analytics = record a { success = a.success + 1; failures = a.failures - 1 } in
      let st = tally_ge true true false h (sym (head_ge h) ∙ e) in
      let sf = tally_ge false true false h (sym (head_ge h) ∙ e) in
      (
        advance true c,
        rw (full h, e, bump) (ground (arith, t, st, sf, store_lem true c refl refl refl)),
        advance-Tracks true c refl refl refl (omega (arith, t, st)) (omega (arith, t, sf)),
      )
  bump-ge false true h e =
      let c : Analytics = record a { success = a.success - 1; failures = a.failures + 1 } in
      let st = tally_ge true false true h (sym (head_ge h) ∙ e) in
      let sf = tally_ge false false true h (sym (head_ge h) ∙ e) in
      (
        advance false c,
        rw (full h, e, bump) (ground (arith, t, st, sf, store_lem false c refl refl refl)),
        advance-Tracks false c refl refl refl (omega (arith, t, st)) (omega (arith, t, sf)),
      )
  bump-ge false false h e =
      let c : Analytics = record a { success = a.success; failures = a.failures + 1 - 1 } in
      let st = tally_ge true false false h (sym (head_ge h) ∙ e) in
      let sf = tally_ge false false false h (sym (head_ge h) ∙ e) in
      (
        advance false c,
        rw (full h, e, bump) (ground (arith, t, st, sf, store_lem false c refl refl refl)),
        advance-Tracks false c refl refl refl (omega (arith, t, st)) (omega (arith, t, sf)),
      )

-- A recorded request keeps the state in step with the history, and never panics.
pub bump-Tracks :
    {n : ℕ} {es : List Bool} {a : Analytics} (ok : Bool)
    → Tracks n es a
    → (b : Analytics) × (bump ok a ≡ some b) × Tracks n (es ++ (ok ∷ [])) b
bump-Tracks {n} {es} {a} ok t = elim (dec_lt (length es) n) [
  | yes p ↦ bump-lt t ok p
  | no p ↦ elim (Option-cases (get_elem? a.last_requests a.last_request)) [
    | inl e ↦ absurd (get_elem?-ne-none a.last_requests a.last_request (omega (arith, t)) e)
    | inr w ↦ bump-ge t ok w.0 (omega arith) w.1
  ]
]

pub run-Tracks :
    (oks : List Bool) {n : ℕ} {es : List Bool} {a : Analytics}
    → Tracks n es a
    → (b : Analytics) × (run oks a ≡ some b) × Tracks n (es ++ oks) b
unfolding run
run-Tracks [] {n} {es} {a} t = (a, refl, rw (append-nil es) t)
run-Tracks (ok ∷ oks) {n} {es} {a} t =
    let (b, e, u) = bump-Tracks ok t in
    let (c, f, v) = run-Tracks oks u in (c, rw (e, run) f, rw append_assoc at v)

-- For a capacity n above 0, recording any series of outcomes with `Success` and `Failure` from a
-- new Analytics never panics, and leaves in `success` and `failures` the number of successes and
-- of failures among the last n outcomes.
pub run_counts :
    (n : ℕ) (oks : List Bool)
    → 0 < n
    → (a : Analytics) × (run oks (new_analytics n) ≡ some a)
      × (a.success ≡ tally true (last_n n oks))
      × (a.failures ≡ tally false (last_n n oks))
run_counts n oks h =
    let (a, e, t) = run-Tracks oks (new_analytics-Tracks n h) in (a, e, t.succeeded, t.failed)

-- For a capacity n above 0, recording any series of outcomes from a new Analytics does not panic,
-- and the success rate then reported is 1 while fewer than n outcomes are recorded, and from n
-- outcomes on the number of successes among the last n outcomes, over n.
pub success_rate_window :
    (n : ℕ) (oks : List Bool)
    → 0 < n
    → (a : Analytics) × (run oks (new_analytics n) ≡ some a)
      × (length oks < n → get_success_rate a ≡ (1, 1))
      × (n ≤ length oks → get_success_rate a ≡ (tally true (last_n n oks), n))
unfolding get_success_rate
success_rate_window n oks h =
    let (a, e, t) = run-Tracks oks (new_analytics-Tracks n h) in
    (a, e, λ p. ground (arith, t, total-lt t p), λ p. ground (arith, t, total-ge t p))
