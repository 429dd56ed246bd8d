-- ===== src/Store/Invariant.antt =====
-- The invariant of `BlockStore` and its preservation by each operation of src/queue/store.cpp.
use xnminer.Base.{
  ℕ, ◌+◌, ◌≤◌, ◌≡◌, refl, sym, ◌∙◌, inl, inr, Bool, true, false, not, ◌&&◌, List, [], ◌∷◌, map,
  Text, text_eq, text_eq_comm, eq_of_text_eq, is_empty, member, filter, any-append, length, arith,
  leb, ltb, ◌==◌, Bool-cases, ℤ,
}
use mathlib.Core.Path.{fun_ext}
use xnminer.Common.{BlockHit}
use xnminer.Store.Defs.{
  PendingBlock, Store, save_db, mark_dirty, maybe_save, flush, unindex, insert_hash, drop_by_hash,
  add_block, new_block, enqueue, log_rejection, remove_id, remove_ids, mark_submitted_many,
  set_reason, mark_pending_reason, mark_forwarded_many, defer_reason, defer_all_to_next_start,
  save_every_ops,
}
use xnminer.Store.Distinct.{
  has_hash, DistinctIds, DistinctHashes, Below, filter-DistinctIds, filter-DistinctHashes,
  filter-Below, Below-suc, has_id-Below, append-Below, snoc-DistinctIds, snoc-DistinctHashes,
  member-unindex, has_hash-filter, keys, has_hash-keys, DistinctIds-keys, DistinctHashes-keys,
  Below-keys, keys-update_first, keys-map, keys-forward_ids,
}

-- Ids are given out in order and never twice, a digest stands in one row, and the digest set holds
-- exactly the digests of the rows.
pub record ValidRows (ps : List PendingBlock) (ix : List Text) (next : ℕ) : Type 0 where
  pub counted : 1 ≤ next
  pub fresh : Below next ps
  pub ids : DistinctIds ps
  pub hashes : DistinctHashes ps
  pub indexed : (h : Text) → is_empty h ≡ false → member h ix ≡ has_hash h ps

abbrev pub IsValid : Store → Type 0
IsValid s = ValidRows s.pending s.hash_index s.next_id

maybe_save-IsValid : (s : Store) → IsValid s → IsValid (maybe_save s)
unfolding maybe_save save_db
maybe_save-IsValid s v = elim (Bool-cases (leb save_every_ops s.dirty_ops)) [
  | inl e ↦ rw e v
  | inr e ↦ rw e v
]

ValidRows-keys :
    (ps qs : List PendingBlock) (ix : List Text) (next : ℕ)
    → keys qs ≡ keys ps
    → ValidRows ps ix next
    → ValidRows qs ix next
ValidRows-keys ps qs ix next e v = record {
  counted = v.counted;
  fresh = Below-keys next ps qs e v.fresh;
  ids = DistinctIds-keys ps qs e v.ids;
  hashes = DistinctHashes-keys ps qs e v.hashes;
  indexed = λ h n. v.indexed h n ∙ sym (has_hash-keys h ps qs e);
}

add_block-IsValid :
    (hit : BlockHit) (reason : Text) (s : Store)
    → IsValid s
    → (not (is_empty hit.hash_str) && member hit.hash_str s.hash_index) ≡ false
    → IsValid (add_block hit reason s)
unfolding add_block insert_hash
add_block-IsValid hit reason s v h = record {
  counted = omega (arith, v.counted);
  fresh =
      append-Below (s.next_id + 1) s.pending (pb ∷ []) (Below-suc s.next_id s.pending v.fresh)
        ((v.counted, omega arith), tt);
  ids = snoc-DistinctIds pb s.pending (has_id-Below s.next_id s.pending v.fresh) v.ids;
  hashes = snoc-DistinctHashes pb s.pending (ground (arith, v.indexed hit.hash_str)) v.hashes;
  indexed = λ x n. ground (
    arith,
    v.indexed x n,
    any-append (λ (y : PendingBlock). text_eq y.hash_str x) s.pending (pb ∷ []),
    text_eq_comm x hit.hash_str,
    eq_of_text_eq hit.hash_str x,
  );
}
  where
    pb : PendingBlock
    pb = new_block s.next_id hit reason

pub enqueue-IsValid :
    (hit : BlockHit) (reason : Text) (s : Store) → IsValid s → IsValid (enqueue hit reason s).0
unfolding enqueue mark_dirty
enqueue-IsValid hit reason s v =
    elim (Bool-cases (not (is_empty hit.hash_str) && member hit.hash_str s.hash_index)) [
      | inl e ↦ rw e v
      | inr e ↦ rw e (
          maybe_save-IsValid (mark_dirty (add_block hit reason s))
            (add_block-IsValid hit reason s v e))
    ]

pub log_rejection-IsValid :
    (hit : BlockHit) (status : ℤ) (body source : Text) (s : Store)
    → IsValid s
    → IsValid (log_rejection hit status body source s)
unfolding log_rejection
log_rejection-IsValid hit status body source s v = v

-- A removal of rows together with their digests.
remove_where-IsValid :
    (p q : PendingBlock → Bool) (s : Store)
    → ((h : Text) (pb : PendingBlock)
        → is_empty h ≡ false
        → (q pb && text_eq pb.hash_str h) ≡ (p pb && text_eq pb.hash_str h))
    → IsValid s
    → IsValid (record s {
      pending = filter (λ pb. not (p pb)) s.pending;
      hash_index = unindex q s.pending s.hash_index;
    })
remove_where-IsValid p q s agree v = record {
  counted = v.counted;
  fresh = filter-Below (λ pb. not (p pb)) s.next_id s.pending v.fresh;
  ids = filter-DistinctIds (λ pb. not (p pb)) s.pending v.ids;
  hashes = filter-DistinctHashes (λ pb. not (p pb)) s.pending v.hashes;
  indexed = λ h n.
      member-unindex q h s.pending s.hash_index
      ∙ rw (fun_ext (λ pb. agree h pb n), v.indexed h n)
          (sym (has_hash-filter p h s.pending n v.hashes));
}

remove_id-IsValid : (id : ℕ) (s : Store) → IsValid s → IsValid (remove_id id s)
unfolding remove_id
remove_id-IsValid id s v =
    remove_where-IsValid (λ pb. pb.id == id) (λ pb. pb.id == id && not (is_empty pb.hash_str)) s
      (λ h pb n. ground (arith, eq_of_text_eq pb.hash_str h)) v

remove_ids-IsValid : (ids : List ℕ) (s : Store) → IsValid s → IsValid (remove_ids ids s)
unfolding remove_ids
remove_ids-IsValid [] s v = v
remove_ids-IsValid (id ∷ ids) s v =
    remove_ids-IsValid ids (remove_id id s) (remove_id-IsValid id s v)

pub mark_submitted_many-IsValid :
    (ids : List ℕ) (s : Store) → IsValid s → IsValid (mark_submitted_many ids s)
unfolding mark_submitted_many save_db mark_dirty
mark_submitted_many-IsValid [] s v = v
mark_submitted_many-IsValid (id ∷ ids) s v = remove_ids-IsValid (id ∷ ids) s v

-- A digest that is to be dropped is not empty.
member_nonempty :
    (t : Text) (hs : List Text)
    → member t (filter (λ h. not (is_empty h)) hs) ≡ true
    → is_empty t ≡ false
member_nonempty t [] h = cc
member_nonempty t (x ∷ hs) h = ground (arith, member_nonempty t hs, eq_of_text_eq t x)

pub drop_by_hash-IsValid :
    (hashes : List Text) (s : Store) → IsValid s → IsValid (drop_by_hash hashes s).0
unfolding drop_by_hash save_db
drop_by_hash-IsValid hashes s v =
    elim (Bool-cases (is_empty (filter (λ h. not (is_empty h)) hashes))) [
      | inl e ↦ rw e v
      | inr e ↦ elim (Bool-cases (length (filter dropped s.pending) == 0)) [
        | inl z ↦ rw (e, z) rest
        | inr z ↦ rw (e, z) rest
      ]
    ]
  where
    dropped : PendingBlock → Bool
    dropped pb = member pb.hash_str (filter (λ h. not (is_empty h)) hashes)

    rest :
        ValidRows
          (filter (λ pb. not (dropped pb)) s.pending)
          (unindex dropped s.pending s.hash_index)
          s.next_id
    rest = remove_where-IsValid dropped dropped s (λ h pb n. refl) v

pub mark_pending_reason-IsValid :
    (id : ℕ) (reason : Text) (s : Store) → IsValid s → IsValid (mark_pending_reason id reason s)
unfolding mark_pending_reason mark_dirty
mark_pending_reason-IsValid id reason s v = maybe_save-IsValid _ (
    ValidRows-keys s.pending _ s.hash_index s.next_id
      (keys-update_first id (set_reason reason) (λ pb. refl) (λ pb. refl) s.pending) v)

pub mark_forwarded_many-IsValid :
    (ids : List ℕ) (s : Store) → IsValid s → IsValid (mark_forwarded_many ids s)
unfolding mark_forwarded_many mark_dirty save_db
mark_forwarded_many-IsValid [] s v = v
mark_forwarded_many-IsValid (id ∷ ids) s v =
    ValidRows-keys s.pending _ s.hash_index s.next_id (keys-forward_ids (id ∷ ids) s.pending) v

pub keys-defer : (m : ℕ) (ps : List PendingBlock) → keys (map (defer_reason m) ps) ≡ keys ps
unfolding defer_reason
keys-defer m = keys-map (defer_reason m) (λ pb. ground arith) (λ pb. ground arith)

pub defer_all_to_next_start-IsValid :
    (m : ℕ) (s : Store) → IsValid s → IsValid (defer_all_to_next_start m s)
unfolding defer_all_to_next_start mark_dirty save_db
defer_all_to_next_start-IsValid m s v =
    ValidRows-keys s.pending _ s.hash_index s.next_id (keys-defer m s.pending) v

pub flush-IsValid : (s : Store) → IsValid s → IsValid (flush s)
unfolding flush save_db
flush-IsValid s v = elim (Bool-cases (ltb 0 s.dirty_ops)) [ inl e ↦ rw e v | inr e ↦ rw e v ]
