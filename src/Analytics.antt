-- ===== src/Analytics.antt =====
-- pkg/analytics/analytics.go: the outcomes of the last requests, kept in a ring, with counters.
-- Each method runs under the mutex of the object, so a call is one step. `none` is a panic.
pub mod Counts
pub mod History
use charon.Prelude.{
  ℕ, zero, ◌+◌, ◌-◌, ◌%◌, Bool, true, false, Option, none, some, List, [], ◌∷◌, ltb, leb, ◌==◌,
  if◌then◌else◌, length, get_elem?, set, replicate,
}

pub record Analytics : Type 0 where
  pub success : ℕ
  pub failures : ℕ
  pub last_request : ℕ
  pub last_requests : List Bool
  pub total_requests : ℕ

unfoldable pub new_analytics : ℕ → Analytics
new_analytics requests = record {
  success = 0;
  failures = 0;
  last_request = 0;
  last_requests = replicate requests false;
  total_requests = requests;
}

-- `float32(success) / float32(total)` as its numerator and denominator.
unfoldable pub get_success_rate : Analytics → ℕ × ℕ
get_success_rate a =
    let total = a.success + a.failures in
    if total == a.total_requests then (a.success, total) else (1, 1)

-- The counter of the outcome goes up.
unfoldable pub count_request : Bool → Analytics → Analytics
count_request true a = record a { success = a.success + 1 }
count_request false a = record a { failures = a.failures + 1 }

-- The counter of the outcome that is pushed off goes down; below 0 is a panic.
unfoldable pub uncount : Option Bool → Analytics → Option Analytics
uncount none a = none
uncount (some true) a = if a.success == 0 then none else some (record a { success = a.success - 1 })
uncount (some false) a =
    if a.failures == 0 then none else some (record a { failures = a.failures - 1 })

-- The write of the outcome, and the step of the index.
unfoldable pub advance : Bool → Analytics → Analytics
advance ok a = record a {
  last_requests = set a.last_requests a.last_request ok;
  last_request = (a.last_request + 1) % a.total_requests;
}

-- Out of bounds, and `% 0`, are panics.
unfoldable pub store : Bool → Analytics → Option Analytics
store ok a =
    if ltb a.last_request (length a.last_requests)
    then (if a.total_requests == 0 then none else some (advance ok a))
    else none

unfoldable pub bump : Bool → Analytics → Option Analytics
bump ok a =
    let total = a.success + a.failures in
    let counted = count_request ok a in
    let evicted =
      if leb a.total_requests total
      then uncount (get_elem? a.last_requests a.last_request) counted
      else some counted in
    elim evicted [ none ↦ none | some b ↦ store ok b ]

-- The outcomes of a series of requests, one `Success` or `Failure` for each.
unfoldable pub run : List Bool → Analytics → Option Analytics
run [] a = some a
run (ok ∷ oks) a = elim (bump ok a) [ none ↦ none | some b ↦ run oks b ]
