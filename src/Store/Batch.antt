-- ===== src/Store/Batch.antt =====
-- `pending_matching_m`, `list_unforwarded` and `list_flush_batch` of src/queue/store.cpp: which rows
-- a flush takes, and in which order. The minute of the hour is an argument, `limit` of 0 or less is 0.
use xnminer.Base.{
  ℕ, ◌+◌, ℤ, pos, ltb_ℤ, eqb_ℤ, Bool, true, false, not, ◌&&◌, Option, List, [], ◌∷◌, ◌++◌, Text,
  length, filter, ltb, leb, ◌==◌, if◌then◌else◌, value_or, codes, text_eq,
}
use xnminer.Common.Stats.{Kinds}
use xnminer.Policy.{ready_to_flush, flush_priority}
use xnminer.Store.Defs.{PendingBlock, Store}
pub mod Select
pub mod Sort
pub mod Result
pub mod Listed

-- The m= of a row, as the flush reads it.
unfoldable pub hit_m : ℤ → ℤ → PendingBlock → ℤ
hit_m net_m default_m pb =
    value_or pb.memory_cost (if ltb_ℤ (pos 0) default_m then default_m else net_m)

unfoldable pub matches_m : ℤ → ℤ → PendingBlock → Bool
unfolding hit_m
matches_m net_m default_m pb = eqb_ℤ (hit_m net_m default_m pb) net_m

unfoldable pub pending_matching_m : ℤ → ℤ → Store → ℕ
pending_matching_m m default_m s = length (filter (matches_m m default_m) s.pending)

-- `list_unforwarded`: the loop, with the rows taken so far.
unfoldable pub collect_unforwarded : ℕ → List PendingBlock → List PendingBlock → List PendingBlock
collect_unforwarded limit [] out = out
collect_unforwarded limit (pb ∷ ps) out =
    let out' = if pb.forwarded then out else out ++ (pb ∷ []) in
    let rest = collect_unforwarded limit ps out' in
    if not pb.forwarded && ltb 0 limit && leb limit (length out') then out' else rest

unfoldable pub list_unforwarded : ℕ → Store → List PendingBlock
list_unforwarded limit s = collect_unforwarded limit s.pending []

unfoldable pub eligible : ℕ → ℤ → ℤ → PendingBlock → Bool
eligible minute net_m default_m pb =
    matches_m net_m default_m pb && (ready_to_flush minute pb.block_type).0

-- The lambda `take`: `ok` says that the row is eligible.
unfoldable pub take_into : ℕ → Bool → List PendingBlock → PendingBlock → List PendingBlock
take_into cap ok dest pb =
    if leb cap (length dest) then dest else if ok then dest ++ (pb ∷ []) else dest

-- Passed over in this wave, because the id is below the skip mark.
unfoldable pub is_old : ℕ → PendingBlock → Bool
is_old skip pb = ltb 0 skip && ltb pb.id skip

module _ (cap skip : ℕ) (ok : PendingBlock → Bool) where
  -- The loop over the rows, with what is preferred and what is kept for the wrap.
  unfoldable pub collect :
      List PendingBlock
      → List PendingBlock
      → List PendingBlock
      → List PendingBlock × List PendingBlock
  collect [] preferred wrapped = (preferred, wrapped)
  collect (pb ∷ ps) preferred wrapped =
      let preferred' = if is_old skip pb then preferred else take_into cap (ok pb) preferred pb in
      let wrapped' = if is_old skip pb then take_into cap (ok pb) wrapped pb else wrapped in
      let rest = collect ps preferred' wrapped' in
      if leb cap (length preferred') then (preferred', wrapped') else rest

  unfoldable pub top_up : List PendingBlock → List PendingBlock → List PendingBlock
  top_up [] preferred = preferred
  top_up (pb ∷ wrapped) preferred =
      let preferred' = preferred ++ (pb ∷ []) in
      let rest = top_up wrapped preferred' in
      if leb cap (length preferred') then preferred' else rest

  unfoldable pub finish : List PendingBlock × List PendingBlock → List PendingBlock
  unfolding top_up
  finish (preferred, wrapped) =
      if ltb (length preferred) cap then top_up wrapped preferred else preferred

-- The order of the comparison that the sort is given.
unfoldable pub flushes_before : PendingBlock → PendingBlock → Bool
flushes_before a b =
    let pa = flush_priority a.block_type in
    let pb = flush_priority b.block_type in if pa == pb then ltb a.id b.id else ltb pa pb

unfoldable pub insert_sorted : PendingBlock → List PendingBlock → List PendingBlock
insert_sorted x [] = x ∷ []
insert_sorted x (y ∷ ys) = if flushes_before y x then y ∷ insert_sorted x ys else x ∷ y ∷ ys

-- `std::sort`: the order is strict and total on rows of distinct ids, so any sort gives this list.
unfoldable pub sort_batch : List PendingBlock → List PendingBlock
unfolding insert_sorted flushes_before
sort_batch [] = []
sort_batch (x ∷ xs) = insert_sorted x (sort_batch xs)

unfoldable pub list_flush_batch : ℕ → ℤ → ℤ → ℕ → ℕ → Store → List PendingBlock
unfolding collect finish sort_batch
list_flush_batch minute net_m default_m limit skip s =
    let cap = if ltb 0 limit then limit else length s.pending in
    let ok = eligible minute net_m default_m in
    sort_batch (finish cap skip ok (collect cap skip ok s.pending [] []))
