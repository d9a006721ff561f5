-- ===== src/Filters/Polls.antt =====
-- Polling a block filter (eth_getFilterChanges of pkg/transformer): which blocks each poll reports.
use charon.Prelude.{
  ℕ, zero, suc, ◌+◌, ◌-◌, ◌≤◌, ◌<◌, ◌≡◌, refl, sym, ap, ◌∙◌, Option, none, some, List, [], ◌∷◌,
  ◌++◌, nat_eq, Text, word, arith, inr, pos, to_uint64, sub_uint64, sub_uint64-le, sub_uint64-lt,
  ltb, ◌%◌, map, false, true, ◌^◌,
}
use native.Mathlib.Nat.{suc-add, add-zero, zero-add}
use mathlib.Core.List.{map-append}
use charon.Rpc.{HexUtil, Node}
use charon.Hex.Prefix.{add_hex_prefix}
use charon.Filters.{FilterType, Filter, FilterSimulator, get_filter, put_filter}
use charon.Filters.Ids.{get_filter-put_filter}
use charon.Filters.Requests.{
  Params, first_param, Change, Response, max_slice, process_filter, block_hashes,
  request_block_filter, get_filter_changes_of, request_get_filter_changes,
}

-- The `n` numbers from `a` on.
abbrev pub range : ℕ → ℕ → List ℕ
range a zero = []
range a (suc n) = a ∷ range (a + 1) n

-- What a poll reports of blocks by their numbers, on the chain of hashes.
abbrev pub reported : (ℕ → Text) → List ℕ → List Change
reported chain ns = map (λ n. Change.hash (add_hex_prefix (chain n))) ns

range-append : (a n m : ℕ) → range a n ++ range (a + n) m ≡ range a (n + m)
range-append a zero m = rw (add-zero, zero-add)
range-append a (suc n) m =
    let e : a + suc n ≡ a + 1 + n = omega arith in
    rw (suc-add n m, e) (ap (λ l. a ∷ l) (range-append (a + 1) n m))

-- The node stands at block `count`, and knows the hashes of the blocks up to there.
pub record At (chain : ℕ → Text) (count : ℕ) (node : Node) : Type 0 where
  pub height : node.get_block_count ≡ inr (pos count)
  pub hashes : (n : ℕ) → n ≤ count → node.get_block_hash n ≡ inr (chain n)

-- The node at each of a series of polls stands at a block no lower than at the one before, and not
-- so much higher that the response would be too long; the last of them is `final`.
abbrev pub Grows : (ℕ → Text) → ℕ → List Node → ℕ → Type 0
Grows chain last [] final = last ≡ final
Grows chain last (node ∷ nodes) final =
    (count : ℕ) × At chain count node
    × (last ≤ count)
    × (count < word)
    × (count - last ≤ max_slice)
    × Grows chain count nodes final

pub to_uint64-pos : (n : ℕ) → n < word → to_uint64 (pos n) ≡ n
unfolding to_uint64
to_uint64-pos n h = omega arith

module _ (h : HexUtil) where
  block_hashes-At :
      (chain : ℕ → Text) (node : Node) (count last n : ℕ)
      → At chain count node
      → last + n ≤ count
      → count < word
      → block_hashes h node.get_block_hash last n ≡ inr (reported chain (range (last + 1) n))
  unfolding block_hashes
  block_hashes-At chain node count last zero at k w = refl
  block_hashes-At chain node count last (suc n) at k w =
      let number : (last + 1) % word ≡ last + 1 = omega arith in
      rw (
        number,
        at.hashes (last + 1) (omega arith),
        block_hashes-At chain node count (last + 1) n at (omega arith) w,
        block_hashes,
      )

  -- A poll reports the blocks after the last one that was reported, and moves on to the node's.
  poll_block_filter :
      (chain : ℕ → Text) (node : Node) (count last : ℕ) (filter : Filter) (sim : FilterSimulator)
      → filter.last_block_number ≡ some last
      → At chain count node
      → last ≤ count
      → count < word
      → count - last ≤ max_slice
      → request_block_filter h node filter sim ≡ (
        put_filter (record filter { last_block_number = some count }) sim,
        Response.result (reported chain (range (last + 1) (count - last))),
      )
  unfolding request_block_filter
  poll_block_filter chain node count last filter sim e at k w m =
      let same = to_uint64-pos count w in
      let short : ltb max_slice (count - last) ≡ false = ground arith in
      rw
        (
          e,
          at.height,
          same,
          sub_uint64-le count last k w,
          short,
          block_hashes-At chain node count last (count - last) at (omega arith) w,
          request_block_filter,
        )
        (rw same)

  -- The responses of a series of polls with one identifier, one after the other; `none` if one of
  -- them is no result.
  abbrev pub joined : Response (List Change) → Option (List Change) → Option (List Change)
  joined (Response.result l) (some m) = some (l ++ m)
  joined _ _ = none

  pub poll_all : List Node → Params → FilterSimulator → Option (List Change)
  poll_all [] params sim = some []
  poll_all (node ∷ nodes) params sim =
      let (sim', response) = request_get_filter_changes h node params sim in
      joined response (poll_all nodes params sim')

  pub process_filter-installed :
      (p : Text) (filter : Filter) (sim : FilterSimulator)
      → h.decode_uint64 p ≡ inr filter.id
      → get_filter filter.id sim ≡ some filter
      → process_filter h (inr (p ∷ [])) sim ≡ inr filter
  unfolding process_filter first_param
  process_filter-installed p filter sim d g = rw (d, g, process_filter)

  request-block_filter :
      (node : Node) (p : Text) (filter : Filter) (sim : FilterSimulator)
      → h.decode_uint64 p ≡ inr filter.id
      → get_filter filter.id sim ≡ some filter
      → filter.type ≡ FilterType.new_block_filter_ty
      → request_get_filter_changes h node (inr (p ∷ [])) sim
        ≡ request_block_filter h node filter sim
  unfolding request_get_filter_changes
  request-block_filter node p filter sim d g t =
      rw (process_filter-installed p filter sim d g, request_get_filter_changes)
        (ap (λ ty. get_filter_changes_of h node filter ty sim) t)

  reported-append :
      (chain : ℕ → Text) (last count final : ℕ)
      → last ≤ count
      → count ≤ final
      → reported chain (range (last + 1) (count - last))
          ++ reported chain (range (count + 1) (final - count))
        ≡ reported chain (range (last + 1) (final - last))
  reported-append chain last count final k l =
      let start : count + 1 ≡ last + 1 + (count - last) = omega arith in
      let all : count - last + (final - count) ≡ final - last = omega arith in
      sym (
        map-append (λ n. Change.hash (add_hex_prefix (chain n))) (range (last + 1) (count - last))
          (range (count + 1) (final - count)))
      ∙ ap (reported chain) (
          ap (λ a. range (last + 1) (count - last) ++ range a (final - count)) start
          ∙ range-append (last + 1) (count - last) (final - count)
          ∙ ap (range (last + 1)) all)

  poll_all-block :
      (chain : ℕ → Text) (nodes : List Node) (last final : ℕ) (filter : Filter) (p : Text)
      (sim : FilterSimulator)
      → h.decode_uint64 p ≡ inr filter.id
      → get_filter filter.id sim ≡ some filter
      → filter.type ≡ FilterType.new_block_filter_ty
      → filter.last_block_number ≡ some last
      → Grows chain last nodes final
      → (last ≤ final)
        × (poll_all nodes (inr (p ∷ [])) sim
            ≡ some (reported chain (range (last + 1) (final - last))))
  unfolding poll_all
  poll_all-block chain [] last final filter p sim d g t e gr =
      let none_left : final - last ≡ 0 = omega arith in (omega arith, rw none_left)
  poll_all-block chain (node ∷ nodes) last final filter p sim d g t e (count, at, k, w, m, gr) =
      let f' = record filter { last_block_number = some count } in
      let sim' = put_filter f' sim in
      let found : get_filter filter.id sim' ≡ some f' =
        ground (arith, get_filter-put_filter f' filter.id sim) in
      let ih = poll_all-block chain nodes count final f' p sim' d found t refl gr in
      let step =
        request-block_filter node p filter sim d g t
        ∙ poll_block_filter chain node count last filter sim e at k w m in
      (
        omega (arith, ih.0),
        ap (λ r. joined r.1 (poll_all nodes (inr (p ∷ [])) r.0)) step
            ∙ ap (joined (Response.result (reported chain (range (last + 1) (count - last))))) ih.1
            ∙ ap some (reported-append chain last count final k ih.0),
      )

  -- For every series of polls of a block filter by one identifier that decodes to its own, where
  -- the node at each poll stands at a block no lower than at the one before, knows the hashes of
  -- one chain up to there, and is not ahead by more than a response can hold: the responses, one
  -- after the other, are the hashes of exactly the blocks after the one that the filter started
  -- from up to the node's at the last poll, each once and in order.
  pub polls_report_each_block_once :
      (chain : ℕ → Text) (nodes : List Node) (last final : ℕ) (filter : Filter) (p : Text)
      (sim : FilterSimulator)
      → h.decode_uint64 p ≡ inr filter.id
      → get_filter filter.id sim ≡ some filter
      → filter.type ≡ FilterType.new_block_filter_ty
      → filter.last_block_number ≡ some last
      → Grows chain last nodes final
      → poll_all nodes (inr (p ∷ [])) sim ≡ some (reported chain (range (last + 1) (final - last)))
  polls_report_each_block_once chain nodes last final filter p sim d g t e gr =
      (poll_all-block chain nodes last final filter p sim d g t e gr).1

  -- A poll of a block filter panics where the node stands below the block that the filter reported
  -- last, as after a reorganisation to a shorter chain, if the number of that block is below 2^63.
  pub poll_block_filter_behind :
      (node : Node) (count last : ℕ) (filter : Filter) (p : Text) (sim : FilterSimulator)
      → h.decode_uint64 p ≡ inr filter.id
      → get_filter filter.id sim ≡ some filter
      → filter.type ≡ FilterType.new_block_filter_ty
      → filter.last_block_number ≡ some last
      → node.get_block_count ≡ inr (pos count)
      → count < last
      → last < 2 ^ 63
      → request_get_filter_changes h node (inr (p ∷ [])) sim ≡ (sim, Response.panic)
  unfolding request_block_filter
  poll_block_filter_behind node count last filter p sim d g t e c k w =
      let wrapped : ltb max_slice (sub_uint64 count last) ≡ true =
        ground (arith, sub_uint64-lt count last k (omega arith)) in
      request-block_filter node p filter sim d g t
      ∙ rw (e, c, to_uint64-pos count (omega arith), wrapped, request_block_filter)
