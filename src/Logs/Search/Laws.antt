-- ===== src/Logs/Search/Laws.antt =====
-- What the searches keep, against filters of the numbered logs.
use charon.Prelude.{
  ℕ, ◌+◌, ◌≡◌, ◌↔◌, ◌⊎◌, ◌≢◌, refl, sym, ◌∙◌, inl, inr, Bool, true, false, some, List, [], ◌∷◌,
  ◌++◌, arith, Text, Map, lookup, insert, lookup-insert, text_Eq, text_eq, text_eq_iff, to_lower,
  if◌then◌else◌, Bool-cases, take, map, get_elem?, append_assoc, append-nil, filter_by, not, ◌&&◌,
  length, ◌≤◌,
}
use charon.Logs.{Log, SearchLogsTopic, TransactionReceipt, SearchLogsRequest}
use charon.Logs.Match.{do_filters_match, do_filters_match_iff, Accepts}
use charon.Hex.Prefix.{remove_hex_prefix}
use charon.Logs.Search.{
  not_empty, populate_from, populate_look_up_map_with_to_lower, flag, keeps, filter_logs,
  filter_receipts, filter_extra_topics, first_log, filter_revo_logs,
}

-- One of the addresses is the text, up to case.
abbrev pub HasAddress : Text → List Text → Type 0
HasAddress k [] = ⊥
HasAddress k (a ∷ addrs) = (to_lower a ≡ k) ⊎ HasAddress k addrs

flag-insert :
    (k a : Text) (m : Map Text Bool)
    → flag (lookup k (insert (to_lower a) true m))
      ≡ (if text_eq (to_lower a) k then true else flag (lookup k m))
flag-insert k a m = elim (Bool-cases (text_eq (to_lower a) k)) [
  | inl e ↦ rw (lookup-insert (to_lower a) k true m, e)
  | inr e ↦ rw (lookup-insert (to_lower a) k true m, e)
]

flag-populate_from :
    (k : Text) (m : Map Text Bool) (addrs : List Text)
    → (flag (lookup k (populate_from m addrs)) ≡ true)
      ↔ ((flag (lookup k m) ≡ true) ⊎ HasAddress k addrs)
unfolding populate_from
flag-populate_from k m [] = (λ h. inl h, λ h. elim h [ inl e ↦ e | inr b ↦ absurd b ])
flag-populate_from k m (a ∷ addrs) =
    let ih = flag-populate_from k (insert (to_lower a) true m) addrs in
    let eq = text_eq_iff (to_lower a) k in
    (
      λ h. elim (ih.0 h) [
        | inl e ↦ elim (Bool-cases (text_eq (to_lower a) k)) [
          | inl same ↦ inr (inl (eq.0 same))
          | inr other ↦ inl (rw (flag-insert k a m, other) at e)
        ]
        | inr b ↦ inr (inr b)
      ],
      λ h. elim h [
        | inl e ↦ ih.1 (inl (ground (arith, flag-insert k a m, e)))
        | inr b ↦ elim b [
          | inl same ↦ ih.1 (inl (ground (arith, flag-insert k a m, eq.1 same)))
          | inr c ↦ ih.1 (inr c)
        ]
      ],
    )

-- A log is kept for addresses and topics if one of the addresses, if there are any, is its address
-- up to case, and every topic of the log is accepted by the filter at its position, if there is one.
abbrev pub IsWanted : List Text → List SearchLogsTopic → Log → Type 0
IsWanted addresses filters log =
    ((addresses ≡ []) ⊎ HasAddress (to_lower log.address) addresses)
    × ((j : ℕ) (f : SearchLogsTopic) (t : Text)
        → get_elem? filters j ≡ some f
        → get_elem? log.topics j ≡ some t
        → Accepts f t)

abbrev pub keeps_log : List Text → List SearchLogsTopic → Log → Bool
keeps_log addresses filters log =
    keeps (not_empty addresses) (populate_look_up_map_with_to_lower addresses) filters log

requested_iff :
    (addrs : List Text) (k : Text)
    → (flag (lookup k (populate_look_up_map_with_to_lower addrs)) ≡ true) ↔ HasAddress k addrs
unfolding populate_look_up_map_with_to_lower lookup
requested_iff addrs k = (
  λ h. elim ((flag-populate_from k [] addrs).0 h) [ inl e ↦ cc | inr b ↦ b ],
  λ h. (flag-populate_from k [] addrs).1 (inr h),
)

pub keeps_log_iff :
    (addrs : List Text) (fs : List SearchLogsTopic) (log : Log)
    → (keeps_log addrs fs log ≡ true) ↔ IsWanted addrs fs log
unfolding keeps
keeps_log_iff [] fs log = (
  λ h. (inl refl, (do_filters_match_iff fs log.topics).0 h),
  λ h. (do_filters_match_iff fs log.topics).1 h.1,
)
keeps_log_iff (a ∷ addrs) fs log =
    let asked =
      flag (lookup (to_lower log.address) (populate_look_up_map_with_to_lower (a ∷ addrs))) in
    let requested = requested_iff (a ∷ addrs) (to_lower log.address) in
    let matches = do_filters_match_iff fs log.topics in
    elim (Bool-cases asked) [
      | inl e ↦ (
        λ h. (inr (requested.0 e), matches.0 (rw (e, keeps) at h)),
        λ h. rw (e, keeps) (matches.1 h.1),
      )
      | inr e ↦ (
        λ h. cc (sym (unfold keeps in rw (e, keeps) at h)),
        λ h. elim h.0 [ inl n ↦ cc | inr b ↦ cc (sym e ∙ requested.1 b) ],
      )
    ]

-- The logs with their positions, from `i` on.
abbrev pub number : ℕ → List Log → List Log
number i [] = []
number i (l ∷ ls) = record l { index = i } ∷ number (i + 1) ls

module _ (has : Bool) (requested : Map Text Bool) (topics : List SearchLogsTopic) where
  filter_logs_lem :
      (i : ℕ) (ls logs : List Log)
      → filter_logs has requested topics i ls logs
        ≡ logs ++ filter_by (keeps has requested topics) (number i ls)
  unfolding filter_logs
  filter_logs_lem i [] logs = sym (append-nil logs)
  filter_logs_lem i (l ∷ ls) logs =
      let log = record l { index = i } in
      elim (Bool-cases (keeps has requested topics log)) [
        | inl e ↦ rw e (
            filter_logs_lem (i + 1) ls (logs ++ (log ∷ []))
            ∙ append_assoc logs (log ∷ [])
                (filter_by (keeps has requested topics) (number (i + 1) ls)))
        | inr e ↦ rw e (filter_logs_lem (i + 1) ls logs)
      ]

  -- A receipt with the logs that are kept, numbered.
  abbrev pub trimmed : TransactionReceipt → TransactionReceipt
  trimmed r = record r { logs = filter_by (keeps has requested topics) (number 0 r.logs) }

  filter_receipts_lem :
      (rs filtered : List TransactionReceipt)
      → filter_receipts has requested topics rs filtered
        ≡ filtered ++ filter_by (λ r. not_empty r.logs) (map trimmed rs)
  unfolding filter_receipts
  filter_receipts_lem [] filtered = sym (append-nil filtered)
  filter_receipts_lem (r ∷ rs) filtered =
      rw (filter_logs_lem 0 r.logs []) (elim (Bool-cases (not_empty (trimmed r).logs)) [
        | inl e ↦ rw e (
            filter_receipts_lem rs (filtered ++ (trimmed r ∷ []))
            ∙ append_assoc filtered (trimmed r ∷ [])
                (filter_by (λ r. not_empty r.logs) (map trimmed rs)))
        | inr e ↦ rw e (filter_receipts_lem rs filtered)
      ])

-- A receipt with the logs that a request keeps.
abbrev pub kept : SearchLogsRequest → TransactionReceipt → TransactionReceipt
kept req r = record r { logs = filter_by (keeps_log req.addresses req.topics) (number 0 r.logs) }

has_filters :
    (addrs : List Text) (fs : List SearchLogsTopic)
    → (fs ≢ []) ⊎ (addrs ≢ [])
    → (not (not_empty fs) && not (not_empty addrs)) ≡ false
has_filters addrs fs h = ground arith

-- For every request and all receipts of the node: without topics and addresses the receipts are
-- returned as they came, their logs not numbered. Otherwise the result is the receipts in order,
-- each with just the logs that are kept, in order and with their position in the receipt as the
-- index, less the receipts that keep none; and a log is kept exactly if its address is requested,
-- up to case, where any is, and the filter at the position of each of its topics, if there is one,
-- accepts it.
pub filter_extra_topics_lem :
    (req : SearchLogsRequest) (rs : List TransactionReceipt)
    → (req.topics ≡ [] → req.addresses ≡ [] → filter_extra_topics req rs ≡ rs)
      × ((req.topics ≢ []) ⊎ (req.addresses ≢ [])
          → filter_extra_topics req rs ≡ filter_by (λ r. not_empty r.logs) (map (kept req) rs))
      × ((log : Log)
          → (keeps_log req.addresses req.topics log ≡ true) ↔ IsWanted req.addresses req.topics log)
unfolding filter_extra_topics
filter_extra_topics_lem req rs = (
  λ t a. rw (t, a),
  λ h. rw (has_filters req.addresses req.topics h) (
      filter_receipts_lem (not_empty req.addresses)
        (populate_look_up_map_with_to_lower req.addresses) req.topics rs []),
  λ log. keeps_log_iff req.addresses req.topics log,
)

-- A log as a subscription looks at it: its address without `0x`.
abbrev pub bare : Log → Log
bare log = record log { address = remove_hex_prefix log.address }

first_log_lem :
    (has : Bool) (requested : Map Text Bool) (fs : List SearchLogsTopic) (logs : List Log)
    → first_log has requested fs logs
      ≡ take 1 (filter_by (λ l. keeps has requested fs (bare l)) logs)
unfolding first_log keeps
first_log_lem has requested fs [] = refl
first_log_lem has requested fs (l ∷ ls) =
    let stop = has && not (flag (lookup (to_lower (remove_hex_prefix l.address)) requested)) in
    elim (Bool-cases stop) [
      | inl e ↦ rw e (first_log_lem has requested fs ls)
      | inr e ↦ elim (Bool-cases (do_filters_match fs l.topics)) [
        | inl m ↦ rw (e, m)
        | inr m ↦ rw (e, m) (first_log_lem has requested fs ls)
      ]
    ]

-- For all addresses, filters and logs of a receipt, where there are addresses or filters: a
-- subscription is given the first of the logs that are kept and none of the later ones, so one log
-- of a receipt at most; a log is kept as in a search, its address compared without `0x`.
pub filter_revo_logs_first :
    (addrs : List Text) (fs : List SearchLogsTopic) (logs : List Log)
    → (fs ≢ []) ⊎ (addrs ≢ [])
    → (filter_revo_logs addrs fs logs ≡ take 1 (filter_by (λ l. keeps_log addrs fs (bare l)) logs))
      × (length (filter_revo_logs addrs fs logs) ≤ 1)
      × ((log : Log) → (keeps_log addrs fs (bare log) ≡ true) ↔ IsWanted addrs fs (bare log))
unfolding filter_revo_logs
filter_revo_logs_first addrs fs logs h =
    let first =
      first_log_lem (not_empty addrs) (populate_look_up_map_with_to_lower addrs) fs logs in
    (
      rw (has_filters addrs fs h) first,
      rw (has_filters addrs fs h, first)
          (take_one (filter_by (λ l. keeps_log addrs fs (bare l)) logs)),
      λ log. keeps_log_iff addrs fs (bare log),
    )
  where
    take_one : (l : List Log) → length (take 1 l) ≤ 1
    take_one [] = omega arith
    take_one (x ∷ l) = omega arith
