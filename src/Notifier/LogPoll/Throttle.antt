-- ===== src/Notifier/LogPoll/Throttle.antt =====
-- The rolling limit of a polling loop, which never runs out of its bounds.
use charon.Prelude.{
  ltb, set, length-set, get_elem?, get_elem?-ne-none, ℕ, length, Option, ◌∙◌, true, text_Eq,
  Option-cases, arith, some, ◌≡◌, inl, inr,
}
use charon.Notifier.Rolling.{oldest, RollingLimit, push, oldest_value}

-- The limit of a polling loop: the times of its last five calls.
pub record IsLimited (r : RollingLimit ℕ) : Type 0 where
  pub limit : r.limit ≡ 5
  pub size : length r.times ≡ 5

pub push-IsLimited :
    (t : ℕ) (r : RollingLimit ℕ)
    → IsLimited r
    → (r' : RollingLimit ℕ) × (push t r ≡ some r') × IsLimited r'
unfolding push
push-IsLimited t r v =
    let inside : ltb (oldest r) (length r.times) ≡ true = (rw (v.limit, v.size) (ground arith)) in
    (
      record r { index = oldest r; times = set r.times (oldest r) (some t) },
      rw inside,
      record { limit = v.limit; size = length-set r.times (oldest r) (some t) ∙ v.size },
    )

pub oldest-IsLimited :
    (r : RollingLimit ℕ) → IsLimited r → (o : Option ℕ) × (oldest_value r ≡ some o)
unfolding oldest_value
oldest-IsLimited r v = elim (Option-cases (get_elem? r.times (oldest r))) [
  | inl e ↦ absurd (get_elem?-ne-none r.times (oldest r) (rw (v.limit, v.size) (omega arith)) e)
  | inr w ↦ w
]
