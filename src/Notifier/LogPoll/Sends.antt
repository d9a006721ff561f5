-- ===== src/Notifier/LogPoll/Sends.antt =====
-- What is sent of some logs: each that was not sent before, once.
use charon.Prelude.{
  ◌++◌, ◌≢◌, ap, sym, ◌∙◌, refl, true, insert, lookup-insert, text_Eq, text_eq, text_eq_refl,
  text_eq_iff, Bool-cases, Option-cases, arith, some, none, lookup, ◌≡◌, ◌⊎◌, inl, inr, Bool, List,
  [], ◌∷◌, Map, Text,
}
use charon.Notifier.LogPoll.{send_logs}
use charon.Logs.{SearchLogsTopic}
use charon.Rpc.{HexUtil}
use charon.Logs.Extract.{EthLog}

module _ (hash : EthLog → Text) (h : HexUtil) (addresses : List Text)
    (topics : List SearchLogsTopic) where
  -- A log with the hash is in the list.
  abbrev pub HasHash : Text → List EthLog → Type 0
  HasHash k [] = ⊥
  HasHash k (l ∷ ls) = (hash l ≡ k) ⊎ HasHash k ls

  -- No two logs of the list have one hash.
  abbrev pub AreDistinct : List EthLog → Type 0
  AreDistinct [] = Unit
  AreDistinct (l ∷ ls) = (¬ HasHash (hash l) ls) × AreDistinct ls

  -- What is sent of some logs, and the hashes that were sent then.
  unfoldable pub sends : List EthLog → Map Text Bool → List EthLog
  sends ls sent = (send_logs hash h addresses topics ls sent).1

  unfoldable pub after : List EthLog → Map Text Bool → Map Text Bool
  after ls sent = (send_logs hash h addresses topics ls sent).0

  pub sends-nil : (sent : Map Text Bool) → (sends [] sent ≡ []) × (after [] sent ≡ sent)
  unfolding sends after send_logs
  sends-nil sent = (refl, refl)

  pub sends-absent :
      (l : EthLog) (ls : List EthLog) (sent : Map Text Bool)
      → lookup (hash l) sent ≡ none
      → (sends (l ∷ ls) sent ≡ l ∷ sends ls (insert (hash l) true sent))
        × (after (l ∷ ls) sent ≡ after ls (insert (hash l) true sent))
  unfolding sends after send_logs
  sends-absent l ls sent e = (rw (e, send_logs, sends), rw (e, send_logs, after))

  pub sends-present :
      (l : EthLog) (ls : List EthLog) (sent : Map Text Bool) (v : Bool)
      → lookup (hash l) sent ≡ some v
      → (sends (l ∷ ls) sent ≡ sends ls sent) × (after (l ∷ ls) sent ≡ after ls sent)
  unfolding sends after send_logs
  sends-present l ls sent v e = (rw (e, send_logs, sends), rw (e, send_logs, after))

  pub sends_found :
      (ls : List EthLog) (sent : Map Text Bool) (k : Text)
      → HasHash k (sends ls sent)
      → HasHash k ls
  sends_found [] sent k b = rw ((sends-nil sent).0) at b
  sends_found (l ∷ ls) sent k b = elim (Option-cases (lookup (hash l) sent)) [
    | inl e ↦ elim (rw ((sends-absent l ls sent e).0) at b) [
      | inl same ↦ inl same
      | inr c ↦ inr (sends_found ls (insert (hash l) true sent) k c)
    ]
    | inr (v, e) ↦ inr (sends_found ls sent k (rw ((sends-present l ls sent v e).0) at b))
  ]

  pub sends_new :
      (ls : List EthLog) (sent : Map Text Bool) (k : Text)
      → HasHash k (sends ls sent)
      → lookup k sent ≡ none
  sends_new [] sent k b = absurd (rw ((sends-nil sent).0) at b)
  sends_new (l ∷ ls) sent k b = elim (Option-cases (lookup (hash l) sent)) [
    | inl e ↦ elim (rw ((sends-absent l ls sent e).0) at b) [
      | inl same ↦ ap (λ x. lookup x sent) (sym same) ∙ e
      | inr c ↦
          let ih = sends_new ls (insert (hash l) true sent) k c in
          ground (arith, ih, lookup-insert (hash l) k true sent)
    ]
    | inr (v, e) ↦ sends_new ls sent k (rw ((sends-present l ls sent v e).0) at b)
  ]

  pub sends-AreDistinct : (ls : List EthLog) (sent : Map Text Bool) → AreDistinct (sends ls sent)
  sends-AreDistinct [] sent = rw ((sends-nil sent).0) tt
  sends-AreDistinct (l ∷ ls) sent = elim (Option-cases (lookup (hash l) sent)) [
    | inl e ↦
        let marked = insert (hash l) true sent in
        rw ((sends-absent l ls sent e).0) (
          λ b. ground (
            arith,
            sends_new ls marked (hash l) b,
            lookup-insert (hash l) (hash l) true sent,
            text_eq_refl (hash l),
          ),
          sends-AreDistinct ls marked,
        )
    | inr (v, e) ↦ rw ((sends-present l ls sent v e).0) (sends-AreDistinct ls sent)
  ]

  -- A log is sent now, unless one with its hash was sent.
  pub sends_all :
      (ls : List EthLog) (sent : Map Text Bool) (k : Text)
      → HasHash k ls
      → (lookup k sent ≢ none) ⊎ HasHash k (sends ls sent)
  sends_all [] sent k b = absurd b
  sends_all (l ∷ ls) sent k b = elim (Option-cases (lookup (hash l) sent)) [
    | inl e ↦ rw ((sends-absent l ls sent e).0) (elim b [
      | inl same ↦ inr (inl same)
      | inr c ↦ elim (sends_all ls (insert (hash l) true sent) k c) [
        | inr d ↦ inr (inr d)
        | inl n ↦ elim (Bool-cases (text_eq (hash l) k)) [
          | inl same ↦ inr (inl ((text_eq_iff (hash l) k).0 same))
          | inr other ↦ inl (λ z. n (ground (arith, z, other, lookup-insert (hash l) k true sent)))
        ]
      ]
    ])
    | inr (v, e) ↦ rw ((sends-present l ls sent v e).0) (elim b [
      | inl same ↦ inl (λ z. cc (sym e ∙ ap (λ x. lookup x sent) same ∙ z))
      | inr c ↦ sends_all ls sent k c
    ])
  ]

  pub sends-append :
      (xs ys : List EthLog) (sent : Map Text Bool)
      → (sends (xs ++ ys) sent ≡ sends xs sent ++ sends ys (after xs sent))
        × (after (xs ++ ys) sent ≡ after ys (after xs sent))
  sends-append [] ys sent = (rw ((sends-nil sent).0, (sends-nil sent).1), rw ((sends-nil sent).1))
  sends-append (x ∷ xs) ys sent = elim (Option-cases (lookup (hash x) sent)) [
    | inl e ↦
        let ih = sends-append xs ys (insert (hash x) true sent) in
        let here = sends-absent x xs sent e in
        let all = sends-absent x (xs ++ ys) sent e in
        (cc (ih.0, here.0, here.1, all.0), cc (ih.1, here.1, all.1))
    | inr (v, e) ↦
        let ih = sends-append xs ys sent in
        let here = sends-present x xs sent v e in
        let all = sends-present x (xs ++ ys) sent v e in
        (cc (ih.0, here.0, here.1, all.0), cc (ih.1, here.1, all.1))
  ]
