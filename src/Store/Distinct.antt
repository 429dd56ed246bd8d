-- ===== src/Store/Distinct.antt =====
-- Rows of the queue with ids and digests that are all different, and the set of digests kept beside
-- them: what a removal, an addition at the end and a change of one row do to these.
use xnminer.Base.{
  ℕ, ◌+◌, ◌≤◌, ◌<◌, ◌≡◌, refl, ◌∙◌, inl, inr, Bool, true, false, not, ◌&&◌, ◌||◌, List, [], ◌∷◌,
  ◌++◌, map, Text, text_eq, text_eq_comm, eq_of_text_eq, is_empty, member, filter, any, any-append,
  All, arith, ◌==◌, Bool-cases,
}
use xnminer.Store.Defs.{PendingBlock, unindex, update_first, set_forwarded, forward_ids}

-- Some row has the id.
abbrev pub has_id : ℕ → List PendingBlock → Bool
has_id id = any (λ pb. pb.id == id)

-- Some row has the digest.
abbrev pub has_hash : Text → List PendingBlock → Bool
has_hash h = any (λ pb. text_eq pb.hash_str h)

abbrev pub DistinctIds : List PendingBlock → Type 0
DistinctIds [] = Unit {0}
DistinctIds (pb ∷ ps) = (has_id pb.id ps ≡ false) × DistinctIds ps

-- Two rows share a digest only where it is empty.
abbrev pub DistinctHashes : List PendingBlock → Type 0
DistinctHashes [] = Unit {0}
DistinctHashes (pb ∷ ps) =
    ((is_empty pb.hash_str || not (has_hash pb.hash_str ps)) ≡ true) × DistinctHashes ps

abbrev pub Below : ℕ → List PendingBlock → Type 0
Below n = All (λ pb. (1 ≤ pb.id) × (pb.id < n))

module _ (p q : PendingBlock → Bool) where
  pub any-filter-false : (ps : List PendingBlock) → any p ps ≡ false → any p (filter q ps) ≡ false
  any-filter-false [] h = refl
  any-filter-false (pb ∷ ps) h = ground (arith, any-filter-false ps)

module _ (q : PendingBlock → Bool) where
  pub filter-DistinctIds : (ps : List PendingBlock) → DistinctIds ps → DistinctIds (filter q ps)
  filter-DistinctIds [] d = tt
  filter-DistinctIds (pb ∷ ps) d =
      ground
        (arith, filter-DistinctIds ps, any-filter-false (λ (x : PendingBlock). x.id == pb.id) q ps)

  pub filter-DistinctHashes :
      (ps : List PendingBlock) → DistinctHashes ps → DistinctHashes (filter q ps)
  filter-DistinctHashes [] d = tt
  filter-DistinctHashes (pb ∷ ps) d = ground (
    arith,
    filter-DistinctHashes ps,
    any-filter-false (λ (x : PendingBlock). text_eq x.hash_str pb.hash_str) q ps,
  )

  pub filter-Below : (n : ℕ) (ps : List PendingBlock) → Below n ps → Below n (filter q ps)
  filter-Below n [] b = tt
  filter-Below n (pb ∷ ps) b = ground (arith, filter-Below n ps)

pub Below-suc : (n : ℕ) (ps : List PendingBlock) → Below n ps → Below (n + 1) ps
Below-suc n [] b = tt
Below-suc n (pb ∷ ps) b = ground (arith, Below-suc n ps)

pub Below-mono : (m n : ℕ) (ps : List PendingBlock) → m ≤ n → Below m ps → Below n ps
Below-mono m n [] h b = tt
Below-mono m n (pb ∷ ps) h b = (omega arith, Below-mono m n ps h b.1)

pub has_id-Below : (n : ℕ) (ps : List PendingBlock) → Below n ps → has_id n ps ≡ false
has_id-Below n [] b = refl
has_id-Below n (pb ∷ ps) b = ground (arith, has_id-Below n ps)

pub append-Below :
    (n : ℕ) (ps qs : List PendingBlock) → Below n ps → Below n qs → Below n (ps ++ qs)
append-Below n [] qs b c = c
append-Below n (pb ∷ ps) qs b c = (b.0, append-Below n ps qs b.1 c)

module _ (pb : PendingBlock) where
  pub snoc-DistinctIds :
      (ps : List PendingBlock)
      → has_id pb.id ps ≡ false
      → DistinctIds ps
      → DistinctIds (ps ++ pb ∷ [])
  snoc-DistinctIds [] h d = (refl, tt)
  snoc-DistinctIds (x ∷ ps) h d =
      ground
        (arith, snoc-DistinctIds ps, any-append (λ (y : PendingBlock). y.id == x.id) ps (pb ∷ []))

  pub snoc-DistinctHashes :
      (ps : List PendingBlock)
      → (is_empty pb.hash_str || not (has_hash pb.hash_str ps)) ≡ true
      → DistinctHashes ps
      → DistinctHashes (ps ++ pb ∷ [])
  snoc-DistinctHashes [] h d = (ground arith, tt)
  snoc-DistinctHashes (x ∷ ps) h d = ground (
    arith,
    snoc-DistinctHashes ps,
    any-append (λ (y : PendingBlock). text_eq y.hash_str x.hash_str) ps (pb ∷ []),
    text_eq_comm x.hash_str pb.hash_str,
    eq_of_text_eq pb.hash_str x.hash_str,
  )

-- Erasing one text from a set.
member-erase :
    (t h : Text) (ix : List Text)
    → member h (filter (λ x. not (text_eq t x)) ix) ≡ (member h ix && not (text_eq t h))
member-erase t h [] = refl
member-erase t h (x ∷ ix) =
    ground (arith, member-erase t h ix, eq_of_text_eq h x, eq_of_text_eq t x, text_eq_comm t h)

any_and_false :
    (p q : PendingBlock → Bool) (ps : List PendingBlock)
    → any q ps ≡ false
    → any (λ x. p x && q x) ps ≡ false
any_and_false p q [] h = refl
any_and_false p q (pb ∷ ps) h = ground (arith, any_and_false p q ps)

-- What `unindex` leaves in the set.
pub member-unindex :
    (q : PendingBlock → Bool) (h : Text) (ps : List PendingBlock) (ix : List Text)
    → member h (unindex q ps ix)
      ≡ (member h ix && not (any (λ pb. q pb && text_eq pb.hash_str h) ps))
unfolding unindex
member-unindex q h [] ix = ground arith
member-unindex q h (pb ∷ ps) ix = elim (Bool-cases (q pb)) [
  | inl e ↦
      rw (e, member-unindex q h ps (filter (λ x. not (text_eq pb.hash_str x)) ix))
        (ground (arith, member-erase pb.hash_str h ix))
  | inr e ↦ rw (e, member-unindex q h ps ix) refl
]

-- The digests that a removal leaves in the rows, where the digests are distinct.
pub has_hash-filter :
    (p : PendingBlock → Bool) (h : Text) (ps : List PendingBlock)
    → is_empty h ≡ false
    → DistinctHashes ps
    → has_hash h (filter (λ pb. not (p pb)) ps)
      ≡ (has_hash h ps && not (any (λ pb. p pb && text_eq pb.hash_str h) ps))
has_hash-filter p h [] n d = refl
has_hash-filter p h (pb ∷ ps) n d =
    ground (arith, has_hash-filter p h ps, eq_of_text_eq pb.hash_str h, absent)
  where
    absent : has_hash h ps ≡ false → any (λ x. p x && text_eq x.hash_str h) ps ≡ false
    absent = any_and_false p (λ x. text_eq x.hash_str h) ps

-- What the invariant reads of the rows.
abbrev pub keys : List PendingBlock → List (ℕ × Text)
keys = map (λ pb. (pb.id, pb.hash_str))

pub has_id-keys :
    (i : ℕ) (ps qs : List PendingBlock) → keys qs ≡ keys ps → has_id i qs ≡ has_id i ps
has_id-keys i [] [] e = refl
has_id-keys i [] (q ∷ qs) e = cc
has_id-keys i (p ∷ ps) [] e = cc
has_id-keys i (p ∷ ps) (q ∷ qs) e = ground (arith, has_id-keys i ps qs)

pub has_hash-keys :
    (h : Text) (ps qs : List PendingBlock) → keys qs ≡ keys ps → has_hash h qs ≡ has_hash h ps
has_hash-keys h [] [] e = refl
has_hash-keys h [] (q ∷ qs) e = cc
has_hash-keys h (p ∷ ps) [] e = cc
has_hash-keys h (p ∷ ps) (q ∷ qs) e = ground (arith, has_hash-keys h ps qs)

pub DistinctIds-keys :
    (ps qs : List PendingBlock) → keys qs ≡ keys ps → DistinctIds ps → DistinctIds qs
DistinctIds-keys [] [] e d = tt
DistinctIds-keys [] (q ∷ qs) e d = cc
DistinctIds-keys (p ∷ ps) [] e d = tt
DistinctIds-keys (p ∷ ps) (q ∷ qs) e d =
    ground (arith, has_id-keys p.id ps qs, DistinctIds-keys ps qs)

pub DistinctHashes-keys :
    (ps qs : List PendingBlock) → keys qs ≡ keys ps → DistinctHashes ps → DistinctHashes qs
DistinctHashes-keys [] [] e d = tt
DistinctHashes-keys [] (q ∷ qs) e d = cc
DistinctHashes-keys (p ∷ ps) [] e d = tt
DistinctHashes-keys (p ∷ ps) (q ∷ qs) e d =
    ground (arith, has_hash-keys p.hash_str ps qs, DistinctHashes-keys ps qs)

pub Below-keys : (n : ℕ) (ps qs : List PendingBlock) → keys qs ≡ keys ps → Below n ps → Below n qs
Below-keys n [] [] e d = tt
Below-keys n [] (q ∷ qs) e d = cc
Below-keys n (p ∷ ps) [] e d = tt
Below-keys n (p ∷ ps) (q ∷ qs) e d = ground (arith, Below-keys n ps qs)

-- A change that keeps the id and the digest keeps the keys of the list.
pub keys-update_first :
    (id : ℕ) (f : PendingBlock → PendingBlock)
    → ((pb : PendingBlock) → (f pb).id ≡ pb.id)
    → ((pb : PendingBlock) → (f pb).hash_str ≡ pb.hash_str)
    → (ps : List PendingBlock) → keys (update_first id f ps) ≡ keys ps
unfolding update_first
keys-update_first id f i h [] = refl
keys-update_first id f i h (pb ∷ ps) = ground (arith, i pb, h pb, keys-update_first id f i h ps)

pub keys-map :
    (f : PendingBlock → PendingBlock)
    → ((pb : PendingBlock) → (f pb).id ≡ pb.id)
    → ((pb : PendingBlock) → (f pb).hash_str ≡ pb.hash_str)
    → (ps : List PendingBlock) → keys (map f ps) ≡ keys ps
keys-map f i h [] = refl
keys-map f i h (pb ∷ ps) = ground (arith, i pb, h pb, keys-map f i h ps)

pub keys-forward_ids : (ids : List ℕ) (ps : List PendingBlock) → keys (forward_ids ids ps) ≡ keys ps
unfolding forward_ids
keys-forward_ids [] ps = refl
keys-forward_ids (id ∷ ids) ps =
    keys-forward_ids ids (update_first id set_forwarded ps)
    ∙ keys-update_first id set_forwarded (λ pb. refl) (λ pb. refl) ps
