-- ===== src/Filters/LogPolls.antt =====
-- Polling a filter for logs (eth_getFilterChanges of pkg/transformer): which blocks are searched.
use charon.Prelude.{
  ℕ, ◌+◌, ◌≤◌, ◌<◌, ◌^◌, ◌%◌, ◌≡◌, ap, ◌∙◌, some, [], ◌∷◌, Text, word, arith, ◌==◌, inr, pos,
  to_int64-lt, sub_uint64, sub_uint64-le, false, true,
}
use charon.Rpc.{HexUtil, Node}
use charon.Filters.{FilterType, Filter, FilterSimulator, get_filter}
use charon.Filters.Requests.{
  Response, request_filter, to_search_logs_req, then_search, get_filter_changes_of,
  request_get_filter_changes,
}
use charon.Filters.Polls.{process_filter-installed, to_uint64-pos}

module _ (h : HexUtil) where
  request-log_filter :
      (node : Node) (p : Text) (filter : Filter) (sim : FilterSimulator)
      → h.decode_uint64 p ≡ inr filter.id
      → get_filter filter.id sim ≡ some filter
      → filter.type ≡ FilterType.new_filter_ty
      → request_get_filter_changes h node (inr (p ∷ [])) sim ≡ (sim, request_filter h node filter)
  unfolding request_get_filter_changes
  request-log_filter node p filter sim d g t =
      rw (process_filter-installed h p filter sim d g, request_get_filter_changes)
        (ap (λ ty. get_filter_changes_of h node filter ty sim) t)

  -- For every poll of a filter for logs that started from a block, where the node stands at one
  -- that is no lower: the filters stay as they are, so that the next poll starts from the same block
  -- again; nothing is reported where the node stands at that block, and otherwise the response is
  -- that of a search of the blocks after it up to the node's.
  pub log_filter_poll :
      (node : Node) (count last : ℕ) (filter : Filter) (p : Text) (sim : FilterSimulator)
      → h.decode_uint64 p ≡ inr filter.id
      → get_filter filter.id sim ≡ some filter
      → filter.type ≡ FilterType.new_filter_ty
      → filter.last_block_number ≡ some last
      → node.get_block_count ≡ inr (pos count)
      → last ≤ count
      → count < 2 ^ 63
      → ((request_get_filter_changes h node (inr (p ∷ [])) sim).0 ≡ sim)
        × (count ≡ last
            → (request_get_filter_changes h node (inr (p ∷ [])) sim).1 ≡ Response.result [])
        × (last < count
            → (request_get_filter_changes h node (inr (p ∷ [])) sim).1
              ≡ then_search h node (to_search_logs_req h filter (pos (last + 1)) (pos count)))
  unfolding request_filter
  log_filter_poll node count last filter p sim d g t e c k w =
      let request = request-log_filter node p filter sim d g t in
      let here = to_uint64-pos count (omega arith) in
      let differ = sub_uint64-le count last k (omega arith) in
      (
        ap (λ r. r.0) request,
        λ same.
            let none_new : (sub_uint64 count last == 0) ≡ true = ground (arith, differ) in
            ap (λ r. r.1) request ∙ rw (e, c, here, none_new, request_filter),
        λ more.
            let some_new : (sub_uint64 count last == 0) ≡ false = ground (arith, differ) in
            let number : (last + 1) % word ≡ last + 1 = omega arith in
            ap (λ r. r.1) request
            ∙ simp (
              e,
              c,
              here,
              some_new,
              number,
              to_int64-lt (last + 1) (omega arith),
              to_int64-lt count w,
              request_filter,
            ),
      )
