-- ===== src/Dispatch/Served.antt =====
-- pkg/transformer/transformer.go: each request is served by the one proxy of its method.
use charon.Prelude.{
  inr_injective, ◌≡◌, ◌↔◌, ◌⊎◌, refl, sym, ap, ◌∙◌, inl, inr, true, false, Bool-cases, Option, none,
  some, Option-cases, Sum-cases, List, [], ◌∷◌, Text, text_eq, text_eq_iff, text_eq_refl, text_Eq,
  Map, lookup, insert, lookup-insert, if◌then◌else◌, arith,
}
use charon.Rpc.{JsonRpcError, new_method_not_found_error}
use charon.Dispatch.{
  Proxy, Transformer, Setting, register, register_all, apply_settings, new_transformer, get_proxy,
  transform,
}

module _ {Q R : Type 0} where
  -- The first proxy of a method.
  unfoldable pub named : Text → List (Proxy Q R) → Option (Proxy Q R)
  named method [] = none
  named method (p ∷ ps) =
      let rest = named method ps in if text_eq p.method method then some p else rest

  -- No two have the same method.
  pub data IsDistinct : List (Proxy Q R) → Type 0 where
    none_left : IsDistinct []
    another :
        {p : Proxy Q R} {ps : List (Proxy Q R)}
        → named p.method ps ≡ none
        → IsDistinct ps
        → IsDistinct (p ∷ ps)

  -- What a map and the proxies to come have for a method.
  abbrev either : Option (Proxy Q R) → Option (Proxy Q R) → Option (Proxy Q R)
  either none o = o
  either (some p) o = some p

  -- Proxies that were all registered: the map has what it had and theirs.
  record AllRegistered (ps : List (Proxy Q R)) (m m' : Map Text (Proxy Q R)) : Type 0 where
    distinct : IsDistinct ps
    fresh : (k : Text) (p : Proxy Q R) → lookup k m ≡ some p → named k ps ≡ none
    lookups : (k : Text) → lookup k m' ≡ either (lookup k m) (named k ps)

  either-none : (o : Option (Proxy Q R)) → either o none ≡ o
  either-none none = refl
  either-none (some p) = refl

  one_more-AllRegistered :
      (p : Proxy Q R) (ps : List (Proxy Q R)) (m m' : Map Text (Proxy Q R))
      → lookup p.method m ≡ none
      → AllRegistered ps (insert p.method p m) m'
      → AllRegistered (p ∷ ps) m m'
  unfolding named
  one_more-AllRegistered p ps m m' e a = record {
    distinct =
        let new = lookup-insert p.method p.method p m in
        IsDistinct.another (a.fresh p.method p (new ∙ rw (text_eq_refl p.method) refl)) a.distinct;
    fresh = λ k q h. elim (Bool-cases (text_eq p.method k)) [
      | inl t ↦
          let same : p.method ≡ k = (text_eq_iff p.method k).0 t in
          absurd (ground (arith, e, (rw (← same) at h)))
      | inr f ↦ rw f (a.fresh k q (lookup-insert p.method k p m ∙ rw f h))
    ];
    lookups = λ k. elim (Bool-cases (text_eq p.method k)) [
      | inl t ↦
          let same : p.method ≡ k = (text_eq_iff p.method k).0 t in
          let here : lookup k m ≡ none = rw (← same) e in
          a.lookups k ∙ rw (lookup-insert p.method k p m) (rw (t, here) refl)
      | inr f ↦ a.lookups k ∙ rw (lookup-insert p.method k p m) (rw f refl)
    ];
  }

  register_all-AllRegistered :
      (ps : List (Proxy Q R)) (m m' : Map Text (Proxy Q R))
      → register_all ps m ≡ inr m'
      → AllRegistered ps m m'
  unfolding register_all register named
  register_all-AllRegistered [] m m' h =
      let same : m ≡ m' = cc in
      record {
        distinct = IsDistinct.none_left;
        fresh = λ k p e. refl;
        lookups = λ k. ap (λ l. lookup k l) (sym same) ∙ sym (either-none (lookup k m));
      }
  register_all-AllRegistered (p ∷ ps) m m' h = elim (Option-cases (lookup p.method m)) [
    | inr (q, e) ↦ absurd (ground (arith, (rw (e, register_all) at h)))
    | inl e ↦
        one_more-AllRegistered p ps m m' e
          (register_all-AllRegistered ps (insert p.method p m) m' (rw (e, register_all) at h))
  ]

  -- The settings leave the methods as they are.
  apply_settings-transformers :
      (settings : List Setting) (t : Transformer Q R)
      → (apply_settings settings t).transformers ≡ t.transformers
  unfolding apply_settings
  apply_settings-transformers [] t = refl
  apply_settings-transformers (Setting.set_debug debug ∷ settings) t =
      apply_settings-transformers settings (record t { debug_mode = debug })
  apply_settings-transformers (Setting.set_logger ∷ settings) t =
      apply_settings-transformers settings t

  -- Proxies of which none is registered and no two have one method are all registered.
  distinct_registered :
      (ps : List (Proxy Q R)) (m : Map Text (Proxy Q R))
      → IsDistinct ps
      → ((k : Text) (p : Proxy Q R) → named k ps ≡ some p → lookup k m ≡ none)
      → (m' : Map Text (Proxy Q R)) × (register_all ps m ≡ inr m')
  unfolding register_all register named
  distinct_registered [] m d h = (m, refl)
  distinct_registered (p ∷ ps) m (IsDistinct.another n d) h =
      let free = h p.method p (rw (text_eq_refl p.method) refl) in
      let (m', r) = distinct_registered ps (insert p.method p m) d (λ k q e.
        elim (Bool-cases (text_eq p.method k)) [
          | inl t ↦
              let same : p.method ≡ k = (text_eq_iff p.method k).0 t in
              absurd (ground (arith, (rw same at n), e))
          | inr f ↦ lookup-insert p.method k p m ∙ rw f (h k q (rw f e))
        ]) in
      (m', rw (free, register_all) r)

  -- What the proxy of a method answers, or that there is none.
  abbrev pub served : Text → Q → Option (Proxy Q R) → JsonRpcError ⊎ R
  served method req none = inl (new_method_not_found_error method)
  served method req (some p) = p.request req

  made_of :
      (proxies : List (Proxy Q R)) (settings : List Setting) (t : Transformer Q R)
      → new_transformer true proxies settings ≡ inr t
      → AllRegistered proxies [] t.transformers
  unfolding new_transformer
  made_of proxies settings t h = elim (Sum-cases (register_all proxies [])) [
    | inl (e, r) ↦ absurd (ground (arith, (rw (r, new_transformer) at h)))
    | inr (m, r) ↦
        let plain : Transformer Q R = record { debug_mode = false; transformers = m } in
        let made : apply_settings settings plain ≡ t =
          inr_injective (new_transformer true proxies settings) _ t (rw (r, new_transformer) refl)
            h in
        let same : m ≡ t.transformers =
          sym (apply_settings-transformers settings plain) ∙ ap (λ x. x.transformers) made in
        register_all-AllRegistered proxies [] t.transformers (r ∙ ap (λ x. inr x) same)
  ]

  -- For all proxies: there is a transformer of them just where no two have the same method.
  pub new_transformer_iff :
      (proxies : List (Proxy Q R)) (settings : List Setting)
      → ((t : Transformer Q R) × (new_transformer true proxies settings ≡ inr t))
        ↔ IsDistinct proxies
  unfolding new_transformer lookup
  new_transformer_iff proxies settings = (
    λ (t, h). let a = made_of proxies settings t h in a.distinct,
    λ d.
        let (m, r) = distinct_registered proxies [] d (λ k p e. refl) in
        let plain : Transformer Q R = record { debug_mode = false; transformers = m } in
        (apply_settings settings plain, rw (r, new_transformer) refl),
  )

  -- In every transformer that is made, each request is answered by the one proxy of its method, and
  -- a method of none is not found.
  pub transform-served :
      (proxies : List (Proxy Q R)) (settings : List Setting) (t : Transformer Q R) (method : Text)
      (req : Q)
      → new_transformer true proxies settings ≡ inr t
      → transform method req t ≡ served method req (named method proxies)
  unfolding new_transformer transform get_proxy lookup
  transform-served proxies settings t method req h =
      let a = made_of proxies settings t h in
      let l : lookup method t.transformers ≡ named method proxies = a.lookups method in
      elim (Option-cases (named method proxies)) [
        | inl e ↦ rw e (rw (l ∙ e, transform) refl)
        | inr (p, e) ↦ rw e (rw (l ∙ e, transform) refl)
      ]
