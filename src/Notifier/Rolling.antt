-- ===== src/Notifier/Rolling.antt =====
-- pkg/notifier/subscription.go, `rollingLimit`: an array with a rolling index, whose oldest entry is
-- the start of the call made `limit` calls ago.
use charon.Prelude.{
  ℕ, ◌+◌, ◌-◌, ◌%◌, ◌≤◌, ◌<◌, ◌≡◌, refl, sym, ap, ◌∙◌, Option, none, some, List, [], ◌∷◌, ◌++◌,
  append_assoc, append-nil, map, arith, length, get_elem?, set, replicate, ltb, if◌then◌else◌,
  length-replicate, length-append, length-set, spin, slide, last_n, spin-set, spin_head,
  last_n-append, last_n_all, last_n_pad, get_elem?-drop, zero, suc, lt→ltb, length-map,
}
use mathlib.Core.List.{map-append}
use native.Mathlib.Nat.{mod-eq_of_lt}

-- `times` holds `nil` or a time; the two options are not to be confused with the panics below.
pub record RollingLimit {ℓ} (A : Type ℓ) : Type ℓ where
  pub index : ℕ
  pub limit : ℕ
  pub times : List (Option A)

module _ {ℓ} {A : Type ℓ} where
  unfoldable pub new_rolling_limit : ℕ → RollingLimit A
  new_rolling_limit limit = record { index = 0; limit = limit; times = replicate limit none }

  -- At limit 0, where Go panics on `% 0`, every index is out of range.
  abbrev pub oldest : RollingLimit A → ℕ
  oldest r = (r.index + 1) % r.limit

  -- `Oldest`; the outer `none` is a panic.
  unfoldable pub oldest_value : RollingLimit A → Option (Option A)
  oldest_value r = get_elem? r.times (oldest r)

  -- `Push`; `none` is a panic.
  unfoldable pub push : A → RollingLimit A → Option (RollingLimit A)
  push t r =
      if ltb (oldest r) (length r.times)
      then some (record r { index = oldest r; times = set r.times (oldest r) (some t) })
      else none

  unfoldable pub push_all : List A → RollingLimit A → Option (RollingLimit A)
  push_all [] r = some r
  push_all (t ∷ ts) r = elim (push t r) [ none ↦ none | some r' ↦ push_all ts r' ]

  -- The state after the pushes `ts`, oldest first.
  record Tracks (n : ℕ) (ts : List A) (r : RollingLimit A) : Type ℓ where
    capacity : r.limit ≡ n
    size : length r.times ≡ n
    index : r.index < n
    window : spin (oldest r) r.times ≡ last_n n (replicate n none ++ map some ts)

  push-Tracks :
      {n : ℕ} {ts : List A} {r : RollingLimit A} (x : A)
      → 0 < n
      → Tracks n ts r
      → (r' : RollingLimit A) × (push x r ≡ some r') × Tracks n (ts ++ (x ∷ [])) r'
  unfolding push
  push-Tracks {n} {ts} {r} x h t =
      let next = record r { index = oldest r; times = set r.times (oldest r) (some x) } in
      let inside : oldest r < n = rw t.capacity (grind arith) in
      (
        next,
        rw (lt→ltb (oldest r) (length r.times) (rw t.size inside)),
        record {
          capacity = t.capacity;
          size = length-set r.times (oldest r) (some x) ∙ t.size;
          index = inside;
          window = moved inside;
        },
      )
    where
      moved :
          oldest r < n
          → spin ((oldest r + 1) % r.limit) (set r.times (oldest r) (some x))
            ≡ last_n n (replicate n none ++ map some (ts ++ (x ∷ [])))
      moved inside =
          ap (λ k. spin ((oldest r + 1) % k) (set r.times (oldest r) (some x)))
            (t.capacity ∙ sym t.size)
          ∙ spin-set (oldest r) r.times (some x) (rw t.size inside)
          ∙ ap (slide (some x)) t.window
          ∙ sym (
              last_n-append n (replicate n none ++ map some ts) (some x) h (
                omega (
                  arith,
                  length-append (replicate n none) (map some ts),
                  length-replicate {A = Option A} n none,
                )))
          ∙ ap (last_n n) (
              append_assoc (replicate n none) (map some ts) (some x ∷ [])
              ∙ ap (λ l. replicate n none ++ l) (sym (map-append some ts (x ∷ []))))

  snoc-replicate : (n : ℕ) (v : Option A) → replicate n v ++ (v ∷ []) ≡ v ∷ replicate n v
  snoc-replicate zero v = refl
  snoc-replicate (suc n) v = ap (λ l. v ∷ l) (snoc-replicate n v)

  spin-replicate : (n : ℕ) (v : Option A) → 0 < n → spin (1 % n) (replicate n v) ≡ replicate n v
  spin-replicate zero v h = absurd (omega arith)
  spin-replicate (suc zero) v h = refl
  spin-replicate (suc (suc n)) v h =
      let e : 1 % suc (suc n) ≡ 1 =
        omega (arith, mod-eq_of_lt {n = 1} {m = suc (suc n)} (omega arith)) in
      rw e (snoc-replicate (suc n) v)

  new_rolling_limit-Tracks : (n : ℕ) → 0 < n → Tracks n [] (new_rolling_limit n)
  unfolding new_rolling_limit
  new_rolling_limit-Tracks n h = record {
    capacity = refl;
    size = length-replicate n none;
    index = h;
    window =
        spin-replicate n none h
        ∙ sym (
            last_n_all n (replicate n none ++ []) (
              omega (
                arith,
                length-append {A = Option A} (replicate n none) [],
                length-replicate {A = Option A} n none,
              ))
            ∙ append-nil (replicate n none));
  }

  push_all-Tracks :
      (more : List A) {n : ℕ} {ts : List A} {r : RollingLimit A}
      → 0 < n
      → Tracks n ts r
      → (r' : RollingLimit A) × (push_all more r ≡ some r') × Tracks n (ts ++ more) r'
  unfolding push_all
  push_all-Tracks [] {n} {ts} {r} h t = (r, refl, rw (append-nil ts) t)
  push_all-Tracks (x ∷ more) h t =
      let (r', e, u) = push-Tracks x h t in
      let (r'', f, v) = push_all-Tracks more h u in (r'', rw (e, push_all) f, rw append_assoc at v)

  get_elem?-map :
      (ts : List A) (i : ℕ) → i < length ts → get_elem? (map some ts) i ≡ some (get_elem? ts i)
  get_elem?-map [] i h = absurd (omega arith)
  get_elem?-map (x ∷ ts) zero h = refl
  get_elem?-map (x ∷ ts) (suc i) h = get_elem?-map ts i (omega arith)

  get_elem?-pad :
      (n i : ℕ) (v : Option A) (l : List (Option A))
      → i < n
      → get_elem? (replicate n v ++ l) i ≡ some v
  get_elem?-pad zero i v l h = absurd (omega arith)
  get_elem?-pad (suc n) zero v l h = refl
  get_elem?-pad (suc n) (suc i) v l h = get_elem?-pad n i v l (omega arith)

  oldest-Tracks :
      {n : ℕ} {ts : List A} {r : RollingLimit A}
      → 0 < n
      → Tracks n ts r
      → oldest_value r ≡ get_elem? (last_n n (replicate n none ++ map some ts)) 0
  unfolding oldest_value
  oldest-Tracks {n} {ts} {r} h t =
      sym (spin_head (oldest r) r.times (rw (t.size, t.capacity) (grind arith)))
      ∙ ap (λ l. get_elem? l 0) t.window

  -- With a limit n above 0, pushing any series of times on a new rolling limit does not panic, and
  -- `Oldest` is then nil while fewer than n times are pushed, and after that the time that was
  -- pushed n - 1 pushes before the newest.
  pub oldest_of_pushes :
      (n : ℕ) (ts : List A)
      → 0 < n
      → (r : RollingLimit A) × (push_all ts (new_rolling_limit n) ≡ some r)
        × (length ts < n → oldest_value r ≡ some none)
        × (n ≤ length ts → oldest_value r ≡ some (get_elem? ts (length ts - n)))
  oldest_of_pushes n ts h =
      let (r, e, t) = push_all-Tracks ts h (new_rolling_limit-Tracks n h) in
      let k = length (replicate n none ++ map some ts) - n in
      let sum : k ≡ length ts = omega (
        arith,
        length-append (replicate n none) (map some ts),
        length-replicate {A = Option A} n none,
        length-map {B = Option A} ts some,
      ) in
      let first = oldest-Tracks h t ∙ get_elem?-drop k (replicate n none ++ map some ts) in
      (
        r,
        e,
        λ p. first ∙ get_elem?-pad n k none (map some ts) (omega arith),
        λ p.
            oldest-Tracks h t
            ∙ ap (λ l. get_elem? l 0)
                (last_n_pad n (replicate n none) (map some ts)
                  (omega (arith, length-map {B = Option A} ts some)))
            ∙ get_elem?-drop (length (map some ts) - n) (map some ts)
            ∙ ap (λ m. get_elem? (map some ts) (m - n)) (length-map ts some)
            ∙ get_elem?-map ts (length ts - n) (omega arith),
      )
