-- ===== src/Store/Batch/Sort.antt =====
-- The sort at the end of `list_flush_batch` (src/queue/store.cpp).
use mathlib.Core.List.Perm
use xnminer.Base.{
  ◌+◌, ◌≤◌, ◌<◌, ◌⊎◌, ◌≡◌, refl, true, false, List, [], ◌∷◌, Perm, length, All, Bool-cases, inl,
  inr, arith,
}
use xnminer.Policy.{flush_priority}
use xnminer.Store.Defs.{PendingBlock}
use xnminer.Store.Batch.{flushes_before, insert_sorted, sort_batch}

-- The row is of a kind that is flushed before the other's, or of an equal one and not younger.
abbrev pub Precedes : PendingBlock → PendingBlock → Type 0
Precedes x y =
    (flush_priority x.block_type < flush_priority y.block_type)
    ⊎ ((flush_priority x.block_type ≡ flush_priority y.block_type) × (x.id ≤ y.id))

-- Each row precedes all that follow it.
abbrev pub InOrder : List PendingBlock → Type 0
InOrder [] = Unit {0}
InOrder (x ∷ xs) = All (λ y. Precedes x y) xs × InOrder xs

-- No later row is to be flushed before an earlier one.
abbrev Sorted : List PendingBlock → Type 0
Sorted [] = Unit {0}
Sorted (x ∷ xs) = All (λ y. flushes_before y x ≡ false) xs × Sorted xs

insert_sorted-perm :
    (x : PendingBlock) (ys : List PendingBlock) → Perm (insert_sorted x ys) (x ∷ ys)
unfolding insert_sorted
insert_sorted-perm x [] = Perm.refl (x ∷ [])
insert_sorted-perm x (y ∷ ys) = elim (Bool-cases (flushes_before y x)) [
  | inl e ↦ rw e (Perm.trans (Perm.cons y (insert_sorted-perm x ys)) (Perm.swap x y ys))
  | inr e ↦ rw e (Perm.refl (x ∷ y ∷ ys))
]

pub sort_batch-perm : (xs : List PendingBlock) → Perm (sort_batch xs) xs
unfolding sort_batch
sort_batch-perm [] = Perm.refl []
sort_batch-perm (x ∷ xs) =
    Perm.trans (insert_sorted-perm x (sort_batch xs)) (Perm.cons x (sort_batch-perm xs))

length-insert_sorted :
    (x : PendingBlock) (ys : List PendingBlock) → length (insert_sorted x ys) ≡ length ys + 1
unfolding insert_sorted
length-insert_sorted x [] = omega arith
length-insert_sorted x (y ∷ ys) = ground (arith, length-insert_sorted x ys)

pub length-sort_batch : (xs : List PendingBlock) → length (sort_batch xs) ≡ length xs
unfolding sort_batch
length-sort_batch [] = refl
length-sort_batch (x ∷ xs) =
    omega (arith, length-insert_sorted x (sort_batch xs), length-sort_batch xs)

module _ (P : PendingBlock → Type 0) where
  insert_sorted-All :
      (x : PendingBlock) (ys : List PendingBlock) → P x → All P ys → All P (insert_sorted x ys)
  unfolding insert_sorted
  insert_sorted-All x [] p a = (p, tt)
  insert_sorted-All x (y ∷ ys) p a = elim (Bool-cases (flushes_before y x)) [
    | inl e ↦ rw e (a.0, insert_sorted-All x ys p a.1)
    | inr e ↦ rw e (p, a)
  ]

  pub sort_batch-All : (xs : List PendingBlock) → All P xs → All P (sort_batch xs)
  unfolding sort_batch
  sort_batch-All [] a = tt
  sort_batch-All (x ∷ xs) a = insert_sorted-All x (sort_batch xs) a.0 (sort_batch-All xs a.1)

flushes_before_asym : (x y : PendingBlock) → flushes_before x y ≡ true → flushes_before y x ≡ false
unfolding flushes_before
flushes_before_asym x y h = ground arith

flushes_before_trans :
    (x y z : PendingBlock)
    → flushes_before y x ≡ false
    → flushes_before z y ≡ false
    → flushes_before z x ≡ false
unfolding flushes_before
flushes_before_trans x y z h k = ground arith

All-after :
    (x y : PendingBlock) (zs : List PendingBlock)
    → flushes_before y x ≡ false
    → All (λ z. flushes_before z y ≡ false) zs
    → All (λ z. flushes_before z x ≡ false) zs
All-after x y [] h a = tt
All-after x y (z ∷ zs) h a = (flushes_before_trans x y z h a.0, All-after x y zs h a.1)

insert_sorted-Sorted :
    (x : PendingBlock) (ys : List PendingBlock) → Sorted ys → Sorted (insert_sorted x ys)
unfolding insert_sorted
insert_sorted-Sorted x [] s = (tt, tt)
insert_sorted-Sorted x (y ∷ ys) s = elim (Bool-cases (flushes_before y x)) [
  | inl e ↦ rw e (
    insert_sorted-All (λ z. flushes_before z y ≡ false) x ys (flushes_before_asym y x e) s.0,
    insert_sorted-Sorted x ys s.1,
  )
  | inr e ↦ rw e ((e, All-after x y ys e s.0), s)
]

sort_batch-Sorted : (xs : List PendingBlock) → Sorted (sort_batch xs)
unfolding sort_batch
sort_batch-Sorted [] = tt
sort_batch-Sorted (x ∷ xs) = insert_sorted-Sorted x (sort_batch xs) (sort_batch-Sorted xs)

All-Precedes :
    (x : PendingBlock) (ys : List PendingBlock)
    → All (λ y. flushes_before y x ≡ false) ys
    → All (λ y. Precedes x y) ys
unfolding flushes_before
All-Precedes x [] a = tt
All-Precedes x (y ∷ ys) a = (ground (arith, a.0), All-Precedes x ys a.1)

Sorted-InOrder : (xs : List PendingBlock) → Sorted xs → InOrder xs
Sorted-InOrder [] s = tt
Sorted-InOrder (x ∷ xs) s = (All-Precedes x xs s.0, Sorted-InOrder xs s.1)

pub sort_batch-InOrder : (xs : List PendingBlock) → InOrder (sort_batch xs)
sort_batch-InOrder xs = Sorted-InOrder (sort_batch xs) (sort_batch-Sorted xs)
