-- ===== src/Store/Contents.antt =====
-- The abstract view of `BlockStore`: the blocks that wait, with their ids. The digest set, the files,
-- the save counter, the reasons and the flags are forgotten.
use mathlib.Core.List.{map-append}
use mathlib.Core.Path.{fun_ext}
use xnminer.Base.{
  ℕ, ◌+◌, ◌≡◌, refl, sym, ap, ◌∙◌, Bool, false, not, ◌&&◌, List, [], ◌∷◌, ◌++◌, map, Text, text_eq,
  is_empty, member, filter, any, filter-filter, filter-map, nil_of_is_empty, filter_all, length,
  ◌==◌, if◌then◌else◌, Bool-cases, inl, inr, arith, codes,
}
use xnminer.Common.{BlockHit}
use xnminer.Store.Defs.{
  PendingBlock, Store, save_db, mark_dirty, maybe_save, flush, drop_by_hash, new_block, add_block,
  enqueue, log_rejection, record_rejection, remove_id, remove_ids, mark_submitted,
  mark_submitted_many, update_first, set_reason, set_forwarded, mark_pending_reason, forward_ids,
  mark_forwarded_many, defer_reason, defer_all_to_next_start,
}
use xnminer.Store.Distinct.{has_hash}
use xnminer.Store.Invariant.{IsValid}
use xnminer.Store.History.{
  Op, enqueues, logs_rejection, records_rejection, submitted, submitted_many, reasons, flushes,
  drops, forwarded_many, defers, step, run, step-IsValid,
}

pub record Bag : Type 0 where
  pub blocks : List (ℕ × BlockHit)
  pub next : ℕ

abbrev pub entry : PendingBlock → ℕ × BlockHit
entry pb = (pb.id, pb.hit)

abbrev pub blocks_of : List PendingBlock → List (ℕ × BlockHit)
blocks_of = map entry

abbrev pub contents : Store → Bag
contents s = record { blocks = blocks_of s.pending; next = s.next_id }

-- A block with the digest waits.
abbrev pub holds : Text → List (ℕ × BlockHit) → Bool
holds h = any (λ b. text_eq b.1.hash_str h)

-- A new digest, or an empty one, goes to the end under the next id.
unfoldable pub add : BlockHit → Bag → Bag
add hit b =
    if not (is_empty hit.hash_str) && holds hit.hash_str b.blocks
    then b
    else record { blocks = b.blocks ++ ((b.next, hit) ∷ []); next = b.next + 1 }

abbrev pub listed : ℕ → List ℕ → Bool
listed id = any (λ i. id == i)

unfoldable pub take_out : List ℕ → Bag → Bag
take_out ids b = record b { blocks = filter (λ e. not (listed e.0 ids)) b.blocks }

unfoldable pub drop_out : List Text → Bag → Bag
drop_out hashes b = record b {
  blocks = filter (λ e. not (member e.1.hash_str (filter (λ h. not (is_empty h)) hashes))) b.blocks;
}

-- What each operation promises of the bag.
unfoldable pub promise : Op → Bag → Bag
unfolding add take_out drop_out
promise (enqueues hit reason) b = add hit b
promise (logs_rejection hit status body source) b = b
promise (records_rejection hit status body source) b = add hit b
promise (submitted id) b = take_out (id ∷ []) b
promise (submitted_many ids) b = take_out ids b
promise (reasons id reason) b = b
promise flushes b = b
promise (drops hashes) b = drop_out hashes b
promise (forwarded_many ids) b = b
promise (defers minute) b = b

contents-maybe_save : (s : Store) → contents (maybe_save s) ≡ contents s
unfolding maybe_save save_db
contents-maybe_save s = ground arith

pub has_hash-holds : (h : Text) (ps : List PendingBlock) → has_hash h ps ≡ holds h (blocks_of ps)
has_hash-holds h [] = refl
has_hash-holds h (pb ∷ ps) = ground (arith, has_hash-holds h ps)

contents-enqueue :
    (hit : BlockHit) (reason : Text) (s : Store)
    → IsValid s
    → contents (enqueue hit reason s).0 ≡ add hit (contents s)
unfolding enqueue add mark_dirty add_block
contents-enqueue hit reason s v = elim (Bool-cases (is_empty hit.hash_str)) [
  | inl e ↦ rw e (contents-maybe_save _ ∙ appended)
  | inr e ↦ elim (Bool-cases (member hit.hash_str s.hash_index)) [
    | inl k ↦ rw (e, k, same e, k)
    | inr k ↦ rw (e, k, same e, k) (contents-maybe_save _ ∙ appended)
  ]
]
  where
    same :
        is_empty hit.hash_str ≡ false
        → holds hit.hash_str (blocks_of s.pending) ≡ member hit.hash_str s.hash_index
    same e = sym (v.indexed hit.hash_str e ∙ has_hash-holds hit.hash_str s.pending)

    appended :
        contents (add_block hit reason s)
        ≡ record { blocks = blocks_of s.pending ++ ((s.next_id, hit) ∷ []); next = s.next_id + 1 }
    appended = ground (arith, map-append entry s.pending (new_block s.next_id hit reason ∷ []))

pending-remove_ids :
    (ids : List ℕ) (s : Store)
    → (remove_ids ids s).pending ≡ filter (λ pb. not (listed pb.id ids)) s.pending
unfolding remove_ids remove_id
pending-remove_ids [] s = sym (filter_all s.pending)
pending-remove_ids (id ∷ ids) s =
    pending-remove_ids ids (remove_id id s)
    ∙ filter-filter (λ (pb : PendingBlock). not (listed pb.id ids))
        (λ (pb : PendingBlock). not (pb.id == id)) s.pending
    ∙ rw (fun_ext (λ (pb : PendingBlock). merge pb.id)) refl
  where
    merge : (i : ℕ) → (not (i == id) && not (listed i ids)) ≡ not (listed i (id ∷ ids))
    merge i = ground arith

next_id-remove_ids : (ids : List ℕ) (s : Store) → (remove_ids ids s).next_id ≡ s.next_id
unfolding remove_ids remove_id
next_id-remove_ids [] s = refl
next_id-remove_ids (id ∷ ids) s = next_id-remove_ids ids (remove_id id s)

contents-remove_ids :
    (ids : List ℕ) (s : Store) → contents (remove_ids ids s) ≡ take_out ids (contents s)
unfolding take_out
contents-remove_ids ids s =
    rw (pending-remove_ids ids s, next_id-remove_ids ids s)
      (ground (arith, filter-map (λ (e : ℕ × BlockHit). not (listed e.0 ids)) entry s.pending))

contents-mark_submitted_many :
    (ids : List ℕ) (s : Store) → contents (mark_submitted_many ids s) ≡ take_out ids (contents s)
unfolding mark_submitted_many save_db mark_dirty
contents-mark_submitted_many [] s =
    unfold take_out in ground (arith, filter_all (blocks_of s.pending))
contents-mark_submitted_many (id ∷ ids) s = contents-remove_ids (id ∷ ids) s

contents-drop_by_hash :
    (hashes : List Text) (s : Store)
    → contents (drop_by_hash hashes s).0 ≡ drop_out hashes (contents s)
unfolding drop_by_hash save_db drop_out
contents-drop_by_hash hashes s = elim (Bool-cases (is_empty wanted)) [
  | inl e ↦ rw e (none_wanted (nil_of_is_empty wanted e))
  | inr e ↦ elim (Bool-cases (length (filter dropped s.pending) == 0)) [
    | inl z ↦ rw (e, z) kept
    | inr z ↦ rw (e, z) kept
  ]
]
  where
    wanted : List Text
    wanted = filter (λ h. not (is_empty h)) hashes

    dropped : PendingBlock → Bool
    dropped pb = member pb.hash_str wanted

    kept :
        record { blocks = blocks_of (filter (λ pb. not (dropped pb)) s.pending); next = s.next_id }
        ≡ drop_out hashes (contents s)
    kept =
        ground (
          arith,
          filter-map (λ (e : ℕ × BlockHit). not (member e.1.hash_str wanted)) entry s.pending,
        )

    none_wanted : wanted ≡ [] → contents s ≡ drop_out hashes (contents s)
    none_wanted e = rw e (ground (arith, filter_all (blocks_of s.pending)))

blocks_of-update_first :
    (id : ℕ) (f : PendingBlock → PendingBlock)
    → ((pb : PendingBlock) → entry (f pb) ≡ entry pb)
    → (ps : List PendingBlock) → blocks_of (update_first id f ps) ≡ blocks_of ps
unfolding update_first
blocks_of-update_first id f h [] = refl
blocks_of-update_first id f h (pb ∷ ps) = ground (arith, h pb, blocks_of-update_first id f h ps)

blocks_of-forward_ids :
    (ids : List ℕ) (ps : List PendingBlock) → blocks_of (forward_ids ids ps) ≡ blocks_of ps
unfolding forward_ids
blocks_of-forward_ids [] ps = refl
blocks_of-forward_ids (id ∷ ids) ps =
    blocks_of-forward_ids ids (update_first id set_forwarded ps)
    ∙ blocks_of-update_first id set_forwarded (λ pb. refl) ps

blocks_of-defer :
    (m : ℕ) (ps : List PendingBlock) → blocks_of (map (defer_reason m) ps) ≡ blocks_of ps
unfolding defer_reason
blocks_of-defer m [] = refl
blocks_of-defer m (pb ∷ ps) = ground (arith, blocks_of-defer m ps)

-- Each operation of a well-formed store does to the waiting blocks what is promised of it: `enqueue`
-- and `record_rejection` add the block at the end under the next id unless its digest waits already,
-- `mark_submitted` and `mark_submitted_many` take out the rows with the given ids and no others,
-- `drop_by_hash` those with one of the given non-empty digests, and no other operation touches them.
pub contents-step :
    (op : Op) (s : Store) → IsValid s → contents (step op s) ≡ promise op (contents s)
unfolding step promise record_rejection log_rejection mark_submitted
contents-step (enqueues hit reason) s v = contents-enqueue hit reason s v
contents-step (logs_rejection hit status body source) s v = refl
contents-step (records_rejection hit status body source) s v =
    contents-enqueue hit (codes "resubmission") (log_rejection hit status body source s) v
contents-step (submitted id) s v = contents-mark_submitted_many (id ∷ []) s
contents-step (submitted_many ids) s v = contents-mark_submitted_many ids s
contents-step (reasons id reason) s v =
    unfold mark_pending_reason mark_dirty in
    contents-maybe_save _
    ∙ ground (arith, blocks_of-update_first id (set_reason reason) (λ pb. refl) s.pending)
contents-step flushes s v = unfold flush save_db in ground arith
contents-step (drops hashes) s v = contents-drop_by_hash hashes s
contents-step (forwarded_many []) s v = unfold mark_forwarded_many in refl
contents-step (forwarded_many (id ∷ ids)) s v =
    unfold mark_forwarded_many mark_dirty save_db in
    ground (arith, blocks_of-forward_ids (id ∷ ids) s.pending)
contents-step (defers minute) s v =
    unfold defer_all_to_next_start mark_dirty save_db in
    ground (arith, blocks_of-defer minute s.pending)

-- So does every history.
unfoldable pub promises : List Op → Bag → Bag
promises [] b = b
promises (op ∷ ops) b = promises ops (promise op b)

-- Any history of operations from a well-formed store leaves the bag of blocks that the same
-- operations leave on the abstract bag.
pub contents-run :
    (ops : List Op) (s : Store) → IsValid s → contents (run ops s) ≡ promises ops (contents s)
unfolding run promises
contents-run [] s v = refl
contents-run (op ∷ ops) s v =
    contents-run ops (step op s) (step-IsValid op s v) ∙ ap (promises ops) (contents-step op s v)
