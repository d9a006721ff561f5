-- ===== src/Filters/Ids.antt =====
-- The identifiers of filters.
use charon.Prelude.{
  ℕ, ◌+◌, ◌≤◌, ◌<◌, ◌≡◌, ◌≢◌, sym, ap, ◌∙◌, Option, none, some, lookup-insert, lookup-remove,
  nat_eq, word, arith, if◌then◌else◌, ◌==◌, ==_iff, Option-cases, inl, inr, Bool-cases,
}
use charon.Filters.{
  FilterType, Filter, FilterSimulator, NewFilterRequest, new_filter, uninstall, get_filter,
  put_filter,
}

-- An installed filter stands under its own identifier, which was given out.
pub record IsValid (f : FilterSimulator) : Type 0 where
  pub given :
      (id : ℕ) (x : Filter)
      → get_filter id f ≡ some x
      → (x.id ≡ id) × (0 < id) × (id ≤ f.max_filter_id)

-- After `put_filter` a filter is found under its identifier, and the others as before.
pub get_filter-put_filter :
    (x : Filter) (id : ℕ) (f : FilterSimulator)
    → get_filter id (put_filter x f) ≡ (if x.id == id then some x else get_filter id f)
unfolding get_filter put_filter
get_filter-put_filter x id f = lookup-insert x.id id x f.filters

get_filter-uninstall :
    (j id : ℕ) (f : FilterSimulator)
    → get_filter id (uninstall j f) ≡ (if j == id then none else get_filter id f)
unfolding get_filter uninstall
get_filter-uninstall j id f = lookup-remove j id f.filters

new_id :
    (ty : FilterType) (req : Option NewFilterRequest) (f : FilterSimulator)
    → f.max_filter_id + 1 < word
    → ((new_filter ty req f).1.id ≡ f.max_filter_id + 1)
      × ((new_filter ty req f).0.max_filter_id ≡ f.max_filter_id + 1)
unfolding new_filter
new_id ty req f h = (omega arith, omega arith)

get_filter-new_filter :
    (ty : FilterType) (req : Option NewFilterRequest) (id : ℕ) (f : FilterSimulator)
    → get_filter id (new_filter ty req f).0
      ≡ (if (new_filter ty req f).1.id == id then some (new_filter ty req f).1 else get_filter id f)
unfolding get_filter new_filter
get_filter-new_filter ty req id f =
    lookup-insert (new_filter ty req f).1.id id (new_filter ty req f).1 f.filters

pub put_filter-IsValid :
    (x : Filter) (f : FilterSimulator)
    → 0 < x.id
    → x.id ≤ f.max_filter_id
    → IsValid f
    → IsValid (put_filter x f)
unfolding put_filter
put_filter-IsValid x f h k v = record {
  given = λ id y e. elim (Bool-cases (x.id == id)) [
    | inl same ↦ ground (arith, get_filter-put_filter x id f, e, same)
    | inr other ↦ ground (arith, v.given id y, get_filter-put_filter x id f, e, other)
  ];
}

pub uninstall-IsValid : (j : ℕ) (f : FilterSimulator) → IsValid f → IsValid (uninstall j f)
unfolding uninstall
uninstall-IsValid j f v = record {
  given = λ id y e. ground (arith, v.given id y, get_filter-uninstall j id f, e);
}

module _ (ty : FilterType) (req : Option NewFilterRequest) (f : FilterSimulator) (v : IsValid f)
    (h : f.max_filter_id + 1 < word) where
  fresh : get_filter (new_filter ty req f).1.id f ≡ none
  fresh = elim (Option-cases (get_filter (new_filter ty req f).1.id f)) [
    | inl e ↦ e
    | inr w ↦ absurd (omega (arith, new_id ty req f h, v.given (new_filter ty req f).1.id w.0 w.1))
  ]

  new_filter-IsValid : IsValid (new_filter ty req f).0
  new_filter-IsValid = record {
    given = λ id y e. elim (Bool-cases ((new_filter ty req f).1.id == id)) [
      | inl same ↦ ground (arith, get_filter-new_filter ty req id f, e, same, new_id ty req f h)
      | inr other ↦
          ground
            (arith, v.given id y, get_filter-new_filter ty req id f, e, other, new_id ty req f h)
    ];
  }

  removed :
      (id : ℕ)
      → get_filter id (uninstall (new_filter ty req f).1.id (new_filter ty req f).0)
        ≡ get_filter id f
  removed id = elim (Bool-cases ((new_filter ty req f).1.id == id)) [
    | inl same ↦
        let e : (new_filter ty req f).1.id ≡ id = (==_iff ((new_filter ty req f).1.id) id).0 same in
        get_filter-uninstall (new_filter ty req f).1.id id (new_filter ty req f).0
        ∙ ap (λ b. if b then none else get_filter id (new_filter ty req f).0) same
        ∙ sym (ap (λ k. get_filter k f) (sym e) ∙ fresh)
    | inr other ↦
        get_filter-uninstall (new_filter ty req f).1.id id (new_filter ty req f).0
        ∙ ap (λ b. if b then none else get_filter id (new_filter ty req f).0) other
        ∙ get_filter-new_filter ty req id f
        ∙ ap (λ b. if b then some (new_filter ty req f).1 else get_filter id f) other
  ]

-- A new filter gets an identifier that no installed filter has, while identifiers last: it is found
-- under it, the other filters are as before, and it is above every identifier given out; once it is
-- uninstalled, no filter is found under it and the others are as before; and the filters stay valid
-- under all of these steps.
pub new_filter_fresh :
    (ty : FilterType) (req : Option NewFilterRequest) (f : FilterSimulator)
    → IsValid f
    → f.max_filter_id + 1 < word
    → let (f', x) = new_filter ty req f in
      (get_filter x.id f ≡ none)
      × (get_filter x.id f' ≡ some x)
      × (f.max_filter_id < x.id)
      × ((id : ℕ) → id ≢ x.id → get_filter id f' ≡ get_filter id f)
      × (get_filter x.id (uninstall x.id f') ≡ none)
      × ((id : ℕ) → get_filter id (uninstall x.id f') ≡ get_filter id f)
      × IsValid f'
      × IsValid (uninstall x.id f')
new_filter_fresh ty req f v h = (
  fresh ty req f v h,
  ground (arith, get_filter-new_filter ty req (new_filter ty req f).1.id f),
  omega (arith, new_id ty req f h),
  λ id n. ground (arith, get_filter-new_filter ty req id f, n),
  removed ty req f v h (new_filter ty req f).1.id ∙ fresh ty req f v h,
  removed ty req f v h,
  new_filter-IsValid ty req f v h,
  uninstall-IsValid (new_filter ty req f).1.id (new_filter ty req f).0
      (new_filter-IsValid ty req f v h),
)
