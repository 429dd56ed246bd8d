-- ===== src/Store/Batch/Result.antt =====
-- What `list_flush_batch` (src/queue/store.cpp) returns: which rows, how many, and in which order.
use mathlib.Core.List.{perm_middle}
use mathlib.Core.List.Perm
use xnminer.Base.{
  ℕ, zero, suc, ◌+◌, ◌≤◌, ◌<◌, ◌≡◌, refl, ap, ◌∙◌, ℤ, Bool, true, not, ◌&&◌, List, [], ◌∷◌, ◌++◌,
  Perm, length, length-append, length-filter-le, length-take, take, All-append, All-take,
  All-filter, filter, All, min, ltb, Bool-cases, inl, inr, arith,
}
use xnminer.Store.Defs.{PendingBlock, Store}
use xnminer.Store.Batch.{
  matches_m, pending_matching_m, eligible, is_old, collect, finish, sort_batch, list_flush_batch,
}
use xnminer.Store.Batch.Select.{take_all, collect-take}
use xnminer.Store.Batch.Sort.{
  InOrder, sort_batch-perm, length-sort_batch, sort_batch-All, sort_batch-InOrder,
}

-- The rows in the order in which the wave takes them.
abbrev pub wave_order : ℕ → (PendingBlock → Bool) → List PendingBlock → List PendingBlock
wave_order skip ok ps =
    filter (λ pb. ok pb && not (is_old skip pb)) ps ++ filter (λ pb. ok pb && is_old skip pb) ps

-- With a positive limit, the batch is the first `limit` rows of: the eligible rows whose id is not
-- below the skip mark, oldest first, then the eligible rows below it; and these rows sorted.
pub list_flush_batch-eq :
    (minute : ℕ) (net_m default_m : ℤ) (limit skip : ℕ) (s : Store)
    → 0 < limit
    → list_flush_batch minute net_m default_m limit skip s
      ≡ sort_batch (take limit (wave_order skip (eligible minute net_m default_m) s.pending))
unfolding list_flush_batch
list_flush_batch-eq minute net_m default_m limit skip s h = rw positive (
    ap sort_batch
      (collect-take limit skip (eligible minute net_m default_m) s.pending [] [] h (omega arith)))
  where
    positive : ltb 0 limit ≡ true
    positive = ground arith

module _ (skip : ℕ) (ok : PendingBlock → Bool) where
  wave_order-perm : (ps : List PendingBlock) → Perm (wave_order skip ok ps) (filter ok ps)
  wave_order-perm [] = Perm.refl []
  wave_order-perm (pb ∷ ps) = elim (Bool-cases (ok pb)) [
    | inl good ↦ elim (Bool-cases (is_old skip pb)) [
      | inl old ↦ rw (good, old) (Perm.trans (perm_middle _ _) (Perm.cons pb (wave_order-perm ps)))
      | inr new ↦ rw (good, new) (Perm.cons pb (wave_order-perm ps))
    ]
    | inr bad ↦ rw bad (wave_order-perm ps)
  ]

  pub length-wave_order :
      (ps : List PendingBlock) → length (wave_order skip ok ps) ≡ length (filter ok ps)
  length-wave_order ps = omega (
    arith,
    length-append (filter (λ pb. ok pb && not (is_old skip pb)) ps)
        (filter (λ pb. ok pb && is_old skip pb) ps),
    halves ps,
  )
    where
      halves :
          (qs : List PendingBlock)
          → length (filter (λ pb. ok pb && not (is_old skip pb)) qs)
              + length (filter (λ pb. ok pb && is_old skip pb) qs)
            ≡ length (filter ok qs)
      halves [] = omega arith
      halves (pb ∷ qs) = ground (arith, halves qs)

  wave_order-All : (ps : List PendingBlock) → All (λ pb. ok pb ≡ true) (wave_order skip ok ps)
  wave_order-All ps =
      All-append _ (filter (λ pb. ok pb && not (is_old skip pb)) ps)
        (filter (λ pb. ok pb && is_old skip pb) ps) (passed (λ pb. not (is_old skip pb)) ps)
        (passed (is_old skip) ps)
    where
      passed :
          (q : PendingBlock → Bool) (qs : List PendingBlock)
          → All (λ pb. ok pb ≡ true) (filter (λ pb. ok pb && q pb) qs)
      passed q [] = tt
      passed q (pb ∷ qs) = ground (arith, passed q qs)

wave_order-All_rows :
    (P : PendingBlock → Type 0) (skip : ℕ) (ok : PendingBlock → Bool) (ps : List PendingBlock)
    → All P ps
    → All P (wave_order skip ok ps)
wave_order-All_rows P skip ok ps a =
    All-append P (filter (λ pb. ok pb && not (is_old skip pb)) ps) _ (All-filter P _ ps a)
      (All-filter P _ ps a)

-- The batch with no limit, as a sort of all eligible rows.
pub whole-eq :
    (minute : ℕ) (net_m default_m : ℤ) (skip : ℕ) (s : Store) (ps : List PendingBlock)
    → s.pending ≡ ps
    → list_flush_batch minute net_m default_m 0 skip s
      ≡ sort_batch (wave_order skip (eligible minute net_m default_m) s.pending)
unfolding list_flush_batch collect finish
whole-eq minute net_m default_m skip s [] e = rw e refl
whole-eq minute net_m default_m skip s (pb ∷ ps) e = ap sort_batch (
    collect-take (length s.pending) skip ok s.pending [] [] (rw e (omega arith)) (omega arith)
    ∙ take_all (length s.pending) (wave_order skip ok s.pending)
        (omega (arith, length-wave_order skip ok s.pending, length-filter-le ok s.pending)))
  where
    ok : PendingBlock → Bool
    ok = eligible minute net_m default_m

-- What holds at every row of the bag holds at the rows of the batch.
pub list_flush_batch-All :
    (P : PendingBlock → Type 0) (minute : ℕ) (net_m default_m : ℤ) (limit skip : ℕ) (s : Store)
    → All P s.pending
    → All P (list_flush_batch minute net_m default_m limit skip s)
list_flush_batch-All P minute net_m default_m zero skip s a =
    rw (whole-eq minute net_m default_m skip s s.pending refl) (
      sort_batch-All P _ (wave_order-All_rows P skip (eligible minute net_m default_m) s.pending a))
list_flush_batch-All P minute net_m default_m (suc n) skip s a =
    rw (list_flush_batch-eq minute net_m default_m (suc n) skip s (omega arith)) (
      sort_batch-All P _ (
        All-take P (suc n) _
          (wave_order-All_rows P skip (eligible minute net_m default_m) s.pending a)))

-- With no limit, the batch holds every eligible row exactly once and nothing else, whatever the skip
-- mark is: it is a permutation of the rows that match the m= and may be flushed in this minute.
pub list_flush_batch-perm :
    (minute : ℕ) (net_m default_m : ℤ) (skip : ℕ) (s : Store)
    → Perm
        (list_flush_batch minute net_m default_m 0 skip s)
        (filter (eligible minute net_m default_m) s.pending)
list_flush_batch-perm minute net_m default_m skip s =
    rw (whole-eq minute net_m default_m skip s s.pending refl) (
      Perm.trans (sort_batch-perm _)
        (wave_order-perm skip (eligible minute net_m default_m) s.pending))

-- The batch of a positive limit has as many rows as the limit allows: the limit, or the number of
-- eligible rows if that is less.
pub length-list_flush_batch :
    (minute : ℕ) (net_m default_m : ℤ) (limit skip : ℕ) (s : Store)
    → 0 < limit
    → length (list_flush_batch minute net_m default_m limit skip s)
      ≡ min limit (length (filter (eligible minute net_m default_m) s.pending))
length-list_flush_batch minute net_m default_m limit skip s h =
    rw (list_flush_batch-eq minute net_m default_m limit skip s h) (
      omega (
        arith,
        length-sort_batch (take limit (wave_order skip ok s.pending)),
        length-take limit (wave_order skip ok s.pending),
        length-wave_order skip ok s.pending,
      ))
  where
    ok : PendingBlock → Bool
    ok = eligible minute net_m default_m

-- Every batch is in the order of flushing: each row is of a kind that `flush_priority` puts before the
-- later row's, or of an equal one and has no larger id. Each row in it matches the m= and may be
-- flushed in this minute.
pub list_flush_batch-InOrder :
    (minute : ℕ) (net_m default_m : ℤ) (limit skip : ℕ) (s : Store)
    → InOrder (list_flush_batch minute net_m default_m limit skip s)
      × All
          (λ pb. eligible minute net_m default_m pb ≡ true)
          (list_flush_batch minute net_m default_m limit skip s)
list_flush_batch-InOrder minute net_m default_m zero skip s =
    rw (whole-eq minute net_m default_m skip s s.pending refl) (
      sort_batch-InOrder _,
      sort_batch-All _ _ (wave_order-All skip (eligible minute net_m default_m) s.pending),
    )
list_flush_batch-InOrder minute net_m default_m (suc n) skip s =
    rw (list_flush_batch-eq minute net_m default_m (suc n) skip s (omega arith)) (
      sort_batch-InOrder _,
      sort_batch-All _ _
          (All-take _ (suc n) _ (wave_order-All skip (eligible minute net_m default_m) s.pending)),
    )

fewer :
    (minute : ℕ) (net_m default_m : ℤ) (ps : List PendingBlock)
    → length (filter (eligible minute net_m default_m) ps)
      ≤ length (filter (matches_m net_m default_m) ps)
unfolding eligible
fewer minute net_m default_m [] = omega arith
fewer minute net_m default_m (pb ∷ ps) = ground (arith, fewer minute net_m default_m ps)

-- No wave is larger than what `pending_matching_m` announces.
pub list_flush_batch-le-pending_matching_m :
    (minute : ℕ) (net_m default_m : ℤ) (limit skip : ℕ) (s : Store)
    → length (list_flush_batch minute net_m default_m limit skip s)
      ≤ pending_matching_m net_m default_m s
unfolding pending_matching_m
list_flush_batch-le-pending_matching_m minute net_m default_m zero skip s =
    rw (whole-eq minute net_m default_m skip s s.pending refl) (
      omega (
        arith,
        length-sort_batch (wave_order skip (eligible minute net_m default_m) s.pending),
        length-wave_order skip (eligible minute net_m default_m) s.pending,
        fewer minute net_m default_m s.pending,
      ))
list_flush_batch-le-pending_matching_m minute net_m default_m (suc n) skip s = omega (
  arith,
  length-list_flush_batch minute net_m default_m (suc n) skip s,
  fewer minute net_m default_m s.pending,
)
