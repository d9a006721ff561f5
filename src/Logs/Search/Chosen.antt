-- ===== src/Logs/Search/Chosen.antt =====
-- Which logs of a receipt a subscription is given: `FilterRevoLogs` of pkg/conversion/util.go.
use mathlib.Core.Path.{subst}
use charon.Prelude.{
  ◌≡◌, refl, ◌∙◌, ◌⊎◌, ◌≢◌, inl, inr, Bool-cases, List, [], ◌∷◌, Text, filter_by, take, sym,
}
use charon.Logs.{Log, SearchLogsTopic}
use charon.Logs.Search.{filter_revo_logs}
use charon.Logs.Search.Laws.{IsWanted, bare, keeps_log, filter_revo_logs_first, keeps_log_iff}

-- The first log that is wanted, its address compared without `0x`, and none behind it.
pub data IsFirstWanted (addresses : List Text) (topics : List SearchLogsTopic)
    : List Log → List Log → Type 0 where
  none_wanted : IsFirstWanted addresses topics [] []
  wanted :
      {l : Log} {logs : List Log}
      → IsWanted addresses topics (bare l)
      → IsFirstWanted addresses topics (l ∷ logs) (l ∷ [])
  passed_over :
      {l : Log} {logs out : List Log}
      → ¬ IsWanted addresses topics (bare l)
      → IsFirstWanted addresses topics logs out
      → IsFirstWanted addresses topics (l ∷ logs) out

-- All logs, without addresses and topics, and otherwise the first one that is wanted.
abbrev pub IsChosen : List Text → List SearchLogsTopic → List Log → List Log → Type 0
IsChosen addresses topics logs out =
    ((addresses ≡ []) × (topics ≡ []) × (out ≡ logs))
    ⊎ (((topics ≢ []) ⊎ (addresses ≢ [])) × IsFirstWanted addresses topics logs out)

take_first :
    (addresses : List Text) (topics : List SearchLogsTopic) {logs out : List Log}
    → IsFirstWanted addresses topics logs out
    → take 1 (filter_by (λ l. keeps_log addresses topics (bare l)) logs) ≡ out
take_first addresses topics IsFirstWanted.none_wanted = refl
take_first addresses topics (IsFirstWanted.wanted {l} w) =
    rw ((keeps_log_iff addresses topics (bare l)).1 w) refl
take_first addresses topics (IsFirstWanted.passed_over {l} w more) =
    elim (Bool-cases (keeps_log addresses topics (bare l))) [
      | inl e ↦ absurd (w ((keeps_log_iff addresses topics (bare l)).0 e))
      | inr e ↦ rw e (take_first addresses topics more)
    ]

pub IsChosen-filter :
    (addresses : List Text) (topics : List SearchLogsTopic) (logs out : List Log)
    → IsChosen addresses topics logs out
    → filter_revo_logs addresses topics logs ≡ out
unfolding filter_revo_logs
IsChosen-filter addresses topics logs out (inl (a, t, e)) = rw (a, t) (sym e)
IsChosen-filter addresses topics logs out (inr (some_given, first)) =
    (filter_revo_logs_first addresses topics logs some_given).0 ∙ take_first addresses topics first

first-IsFirstWanted :
    (addresses : List Text) (topics : List SearchLogsTopic) (logs : List Log)
    → IsFirstWanted addresses topics logs
        (take 1 (filter_by (λ l. keeps_log addresses topics (bare l)) logs))
first-IsFirstWanted addresses topics [] = IsFirstWanted.none_wanted
first-IsFirstWanted addresses topics (l ∷ logs) =
    elim (Bool-cases (keeps_log addresses topics (bare l))) [
      | inl e ↦ rw e (IsFirstWanted.wanted ((keeps_log_iff addresses topics (bare l)).0 e))
      | inr e ↦
          let other : ¬ IsWanted addresses topics (bare l) =
            λ w. let k = (keeps_log_iff addresses topics (bare l)).1 w in cc in
          rw e (IsFirstWanted.passed_over other (first-IsFirstWanted addresses topics logs))
    ]

given-IsChosen :
    (addresses : List Text) (topics : List SearchLogsTopic) (logs : List Log)
    → (topics ≢ []) ⊎ (addresses ≢ [])
    → IsChosen addresses topics logs (filter_revo_logs addresses topics logs)
given-IsChosen addresses topics logs given = inr (
  given,
  subst (λ out. IsFirstWanted addresses topics logs out)
      (sym ((filter_revo_logs_first addresses topics logs given).0))
      (first-IsFirstWanted addresses topics logs),
)

-- For all addresses, topics and logs of a receipt: without addresses and topics a subscription is
-- given all the logs, and otherwise the first log that is wanted and none behind it, or none if none
-- is wanted. A log is wanted if its address, without `0x` and up to case, is one of the addresses, if
-- there are any, and each of its topics is accepted by the filter at its place, if there is one.
pub filter_revo_logs-IsChosen :
    (addresses : List Text) (topics : List SearchLogsTopic) (logs : List Log)
    → IsChosen addresses topics logs (filter_revo_logs addresses topics logs)
unfolding filter_revo_logs
filter_revo_logs-IsChosen [] [] logs = inl (refl, refl, refl)
filter_revo_logs-IsChosen (a ∷ addresses) topics logs =
    given-IsChosen (a ∷ addresses) topics logs (inr (λ e. cc))
filter_revo_logs-IsChosen [] (t ∷ topics) logs = given-IsChosen [] (t ∷ topics) logs (inl (λ e. cc))
