-- ===== src/Store/Defs.antt =====
-- The state of `BlockStore` (src/queue/store.hpp) with its three files, and the operations of
-- src/queue/store.cpp that change it. A file is the sequence of the records in it: the JSON text of
-- a record is left to the JSON library. Every operation holds the store's mutex, so each is one step.
use xnminer.Base.{
  ℕ, ◌+◌, ℤ, Bool, true, false, not, ◌&&◌, Option, some, List, [], ◌∷◌, ◌++◌, map, Text, codes,
  text_eq, is_empty, member, filter, length, leb, ltb, ◌==◌, if◌then◌else◌,
}
use xnminer.Common.{BlockHit}
use xnminer.Store.Json.{Object, hit_to_json}
use xnminer.Policy.{in_xuni_submit_window, outside_xuni_window_reason, shutdown_pending_reason}

pub record PendingBlock : Type 0 where
  pub id : ℕ
  pub hit : BlockHit
  pub open hit use {hash_str, block_type, memory_cost}
  pub queue_reason : Text
  pub reject_count : ℤ
  pub forwarded : Bool

-- One row of blocks.db: the fields of its hit, and the others as they are read. The `id` may be missing.
pub record DbRow : Type 0 where
  pub id : Option ℕ
  pub hit : Object
  pub queue_reason : Text
  pub reject_count : ℤ
  pub forwarded : Bool

-- blocks.db: no such file, a text that is no JSON, JSON with no list of pending rows, or rows. A row
-- is `none` where reading a field of it, other than those of its hit, throws. `next_id` is the number as
-- written; a file where it is no number is read as one that is no JSON.
pub data DbFile : Type 0 where
  absent : DbFile
  discarded : DbFile
  no_pending : ℕ → DbFile
  rows : ℕ → List (Option DbRow) → DbFile

-- One object of queue.jsonl: the fields of its hit, and the others as they are read.
pub record QueueLine : Type 0 where
  pub id : Option ℕ
  pub hit : Object
  pub queue_reason : Text
  pub reject_count : ℤ

-- A line of queue.jsonl: one that is blank or no object, an object, or an object where reading a field
-- other than those of its hit throws.
pub data QueueRecord : Type 0 where
  no_object : QueueRecord
  object : QueueLine → QueueRecord
  unreadable : Object → QueueRecord

-- One object of the log of rejections.
pub record Rejection : Type 0 where
  pub hit : BlockHit
  pub http_status : ℤ
  pub response_body : Text
  pub source : Text

pub record Store : Type 0 where
  pub pending : List PendingBlock
  pub hash_index : List Text
  pub next_id : ℕ
  pub dirty_ops : ℕ
  pub db : DbFile
  pub jsonl : List QueueRecord
  pub rejected : List Rejection

abbrev pub save_every_ops : ℕ
save_every_ops = 8

unfoldable pub db_row : PendingBlock → DbRow
unfolding hit_to_json
db_row pb = record {
  id = some pb.id;
  hit = hit_to_json pb.hit;
  queue_reason = pb.queue_reason;
  reject_count = pb.reject_count;
  forwarded = pb.forwarded;
}

-- The content that `save_db_unlocked` writes.
unfoldable pub snapshot : Store → DbFile
unfolding db_row
snapshot s = rows s.next_id (map (λ pb. some (db_row pb)) s.pending)

unfoldable pub save_db : Store → Store
save_db s = record s { db = snapshot s; dirty_ops = 0 }

unfoldable pub mark_dirty : Store → Store
mark_dirty s = record s { dirty_ops = s.dirty_ops + 1 }

unfoldable pub maybe_save : Store → Store
maybe_save s = if leb save_every_ops s.dirty_ops then save_db s else s

unfoldable pub flush : Store → Store
flush s = if ltb 0 s.dirty_ops then save_db s else s

-- `hash_index_.erase(h)` for the blocks that pass a test.
unfoldable pub unindex : (PendingBlock → Bool) → List PendingBlock → List Text → List Text
unindex p [] ix = ix
unindex p (pb ∷ ps) ix =
    unindex p ps (if p pb then filter (λ h. not (text_eq pb.hash_str h)) ix else ix)

unfoldable pub insert_hash : Text → List Text → List Text
insert_hash h ix = if is_empty h then ix else h ∷ ix

-- The store, and the number of rows dropped.
unfoldable pub drop_by_hash : List Text → Store → Store × ℕ
drop_by_hash hashes s =
    let drop = filter (λ h. not (is_empty h)) hashes in
    let dropped = λ (pb : PendingBlock). member pb.hash_str drop in
    let n = length (filter dropped s.pending) in
    let s' = record s {
      pending = filter (λ pb. not (dropped pb)) s.pending;
      hash_index = unindex dropped s.pending s.hash_index;
    } in
    if is_empty drop then (s, 0) else (if n == 0 then s' else save_db s', n)

unfoldable pub queue_line : PendingBlock → QueueLine
unfolding hit_to_json
queue_line pb = record {
  id = some pb.id;
  hit = hit_to_json pb.hit;
  queue_reason = pb.queue_reason;
  reject_count = ℤ.pos 0;
}

abbrev pub new_block : ℕ → BlockHit → Text → PendingBlock
new_block id hit reason = record {
  id = id;
  hit = hit;
  queue_reason = reason;
  reject_count = ℤ.pos 0;
  forwarded = false;
}

-- The store with a block added, before it is saved.
unfoldable pub add_block : BlockHit → Text → Store → Store
add_block hit reason s =
    let pb = new_block s.next_id hit reason in
    record s {
      pending = s.pending ++ (pb ∷ []);
      hash_index = insert_hash hit.hash_str s.hash_index;
      next_id = s.next_id + 1;
      jsonl = s.jsonl ++ (object (queue_line pb) ∷ []);
    }

-- `enqueue`: the id of the new row, or 0 for a digest that is already in the bag.
unfoldable pub enqueue : BlockHit → Text → Store → Store × ℕ
enqueue hit reason s =
    if not (is_empty hit.hash_str) && member hit.hash_str s.hash_index
    then (s, 0)
    else (maybe_save (mark_dirty (add_block hit reason s)), s.next_id)

unfoldable pub log_rejection : BlockHit → ℤ → Text → Text → Store → Store
log_rejection hit status body source s = record s {
  rejected =
      s.rejected
      ++ (record { hit = hit; http_status = status; response_body = body; source = source } ∷ []);
}

-- Always reports true to the caller.
unfoldable pub record_rejection : BlockHit → ℤ → Text → Text → Store → Store × Bool
record_rejection hit status body source s =
    ((enqueue hit (codes "resubmission") (log_rejection hit status body source s)).0, true)

-- One round of the loop of `mark_submitted_many`.
unfoldable pub remove_id : ℕ → Store → Store
remove_id id s = record s {
  pending = filter (λ pb. not (pb.id == id)) s.pending;
  hash_index = unindex (λ pb. pb.id == id && not (is_empty pb.hash_str)) s.pending s.hash_index;
}

unfoldable pub remove_ids : List ℕ → Store → Store
remove_ids [] s = s
remove_ids (id ∷ ids) s = remove_ids ids (remove_id id s)

unfoldable pub mark_submitted_many : List ℕ → Store → Store
mark_submitted_many [] s = s
mark_submitted_many (id ∷ ids) s = save_db (mark_dirty (remove_ids (id ∷ ids) s))

unfoldable pub mark_submitted : ℕ → Store → Store
mark_submitted id s = mark_submitted_many (id ∷ []) s

-- The first row with the id is changed; the loop breaks there.
unfoldable pub update_first :
    ℕ → (PendingBlock → PendingBlock) → List PendingBlock → List PendingBlock
update_first id f [] = []
update_first id f (pb ∷ ps) = if pb.id == id then f pb ∷ ps else pb ∷ update_first id f ps

abbrev pub set_reason : Text → PendingBlock → PendingBlock
set_reason reason pb = record pb { queue_reason = reason }

abbrev pub set_forwarded : PendingBlock → PendingBlock
set_forwarded pb = record pb { forwarded = true }

unfoldable pub mark_pending_reason : ℕ → Text → Store → Store
mark_pending_reason id reason s =
    maybe_save (mark_dirty (record s { pending = update_first id (set_reason reason) s.pending }))

unfoldable pub forward_ids : List ℕ → List PendingBlock → List PendingBlock
forward_ids [] ps = ps
forward_ids (id ∷ ids) ps = forward_ids ids (update_first id set_forwarded ps)

unfoldable pub mark_forwarded_many : List ℕ → Store → Store
mark_forwarded_many [] s = s
mark_forwarded_many (id ∷ ids) s =
    save_db (mark_dirty (record s { pending = forward_ids (id ∷ ids) s.pending }))

-- The reason that a row is given at shutdown, in the minute `m`.
unfoldable pub defer_reason : ℕ → PendingBlock → PendingBlock
defer_reason m pb =
    if text_eq pb.block_type (codes "XUNI") && not (in_xuni_submit_window m)
    then set_reason outside_xuni_window_reason pb
    else set_reason shutdown_pending_reason pb

unfoldable pub defer_all_to_next_start : ℕ → Store → Store
defer_all_to_next_start m s =
    save_db (mark_dirty (record s { pending = map (defer_reason m) s.pending }))
