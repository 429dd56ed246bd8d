-- ===== src/Store/Batch/Listed.antt =====
-- Which ids `list_flush_batch` of src/queue/store.cpp lists with no limit, and which rows are left without
-- them.
use xnminer.Base.{
  ℕ, ◌≡◌, refl, ap, ◌∙◌, ℤ, Bool, true, false, not, ◌&&◌, ◌||◌, List, [], ◌∷◌, map, any, any-append,
  any-filter, filter, ◌==◌, arith,
}
use xnminer.Store.Defs.{PendingBlock, Store}
use xnminer.Store.Contents.{listed}
use xnminer.Store.Batch.{eligible, is_old, insert_sorted, sort_batch, list_flush_batch}
use xnminer.Store.Batch.Result.{whole-eq, wave_order}

abbrev pub ids_of : List PendingBlock → List ℕ
ids_of = map (λ pb. pb.id)

-- Every eligible row of the bag is in the batch that has no limit, by its id.
module _ (q : PendingBlock → Bool) where
  pub any-insert_sorted :
      (x : PendingBlock) (ys : List PendingBlock) → any q (insert_sorted x ys) ≡ (q x || any q ys)
  unfolding insert_sorted
  any-insert_sorted x [] = refl
  any-insert_sorted x (y ∷ ys) = ground (arith, any-insert_sorted x ys)

  pub any-sort_batch : (xs : List PendingBlock) → any q (sort_batch xs) ≡ any q xs
  unfolding sort_batch
  any-sort_batch [] = refl
  any-sort_batch (x ∷ xs) = any-insert_sorted x (sort_batch xs) ∙ ground (arith, any-sort_batch xs)

  pub halves :
      (old ok : PendingBlock → Bool) (ps : List PendingBlock)
      → (any (λ x. (ok x && not (old x)) && q x) ps || any (λ x. (ok x && old x) && q x) ps)
        ≡ any (λ x. ok x && q x) ps
  halves old ok [] = refl
  halves old ok (pb ∷ ps) = ground (arith, halves old ok ps)

  pub any-wave_order :
      (skip : ℕ) (ok : PendingBlock → Bool) (ps : List PendingBlock)
      → any q (wave_order skip ok ps) ≡ any (λ x. ok x && q x) ps
  any-wave_order skip ok ps =
      rw
        (
          any-append q (filter (λ pb. ok pb && not (is_old skip pb)) ps)
              (filter (λ pb. ok pb && is_old skip pb) ps),
          any-filter q (λ pb. ok pb && not (is_old skip pb)) ps,
          any-filter q (λ pb. ok pb && is_old skip pb) ps,
        )
        (halves (is_old skip) ok ps)

pub listed-ids :
    (id : ℕ) (pbs : List PendingBlock) → listed id (ids_of pbs) ≡ any (λ pb. id == pb.id) pbs
listed-ids id [] = refl
listed-ids id (pb ∷ pbs) = ground (arith, listed-ids id pbs)

-- Each eligible row is listed.
pub listed-eligible :
    (minute : ℕ) (net_m default_m : ℤ) (skip id : ℕ) (s : Store)
    → listed id (ids_of (list_flush_batch minute net_m default_m 0 skip s))
      ≡ any (λ pb. eligible minute net_m default_m pb && (id == pb.id)) s.pending
listed-eligible minute net_m default_m skip id s =
    listed-ids id (list_flush_batch minute net_m default_m 0 skip s)
    ∙ ap (any (λ pb. id == pb.id)) (whole-eq minute net_m default_m skip s s.pending refl)
    ∙ any-sort_batch (λ pb. id == pb.id)
        (wave_order skip (eligible minute net_m default_m) s.pending)
    ∙ any-wave_order (λ pb. id == pb.id) skip (eligible minute net_m default_m) s.pending

-- What stays when the listed ids go is not eligible.
module _ (ok : PendingBlock → Bool) (ids : List ℕ) (rows : List PendingBlock)
    (h : (id : ℕ) → listed id ids ≡ any (λ pb. ok pb && (id == pb.id)) rows) where
  pub any-rest :
      (ps : List PendingBlock)
      → ((p : PendingBlock → Bool) → any p ps ≡ true → any p rows ≡ true)
      → any (λ pb. not (listed pb.id ids) && ok pb) ps ≡ false
  any-rest [] within = refl
  any-rest (pb ∷ ps) within = ground (
    arith,
    h pb.id,
    within (λ x. ok x && (pb.id == x.id)),
    any-rest ps (λ p e. within p (ground (arith, e))),
  )
