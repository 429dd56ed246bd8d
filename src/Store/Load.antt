-- ===== src/Store/Load.antt =====
-- `BlockStore::load` and `recover_jsonl_unlocked` of src/queue/store.cpp: the store that a start
-- finds in the files.
use xnminer.Base.{
  ℕ, ◌+◌, Bool, true, false, ◌||◌, Option, none, some, List, [], ◌∷◌, ◌++◌, is_empty, member, ltb,
  if◌then◌else◌, max, value_or, to_int32, pos, pos_part,
}
use xnminer.Common.{BlockHit}
use xnminer.Store.Defs.{
  DbRow, DbFile, absent, discarded, no_pending, rows, QueueLine, QueueRecord, no_object, object,
  unreadable, Rejection, Store, insert_hash, save_db,
}
use xnminer.Store.Distinct.{has_id}
use xnminer.Store.Json.{Casts, and_then, hit_from_json}

-- `next_id` is read as an `int`. One that is negative as an `int` is held as 0, since ids are natural
-- numbers here: it is exact again after the first row with an id.
unfoldable pub read_next_id : ℕ → ℕ
unfolding to_int32
read_next_id n = pos_part (to_int32 (pos n))

-- The argument `next_id_++` is evaluated whether or not the row has an id.
unfoldable pub load_row : DbRow → BlockHit → Store → Store
load_row row hit s =
    let id = value_or row.id s.next_id in
    record s {
      pending =
          s.pending
          ++ (record {
            id = id;
            hit = hit;
            queue_reason = row.queue_reason;
            reject_count = row.reject_count;
            forwarded = row.forwarded;
          }
              ∷ []);
      hash_index = insert_hash hit.hash_str s.hash_index;
      next_id = max (s.next_id + 1) (id + 1);
    }

-- The loop over the rows, and whether it ended with no exception.
unfoldable pub load_rows : Casts → List (Option DbRow) → Store → Store × Bool
unfolding hit_from_json
load_rows k [] s = (s, true)
load_rows k (none ∷ rs) s = (record s { next_id = s.next_id + 1 }, false)
load_rows k (some row ∷ rs) s = elim (hit_from_json k row.hit) [
  | none ↦ (record s { next_id = s.next_id + 1 }, false)
  | some hit ↦ load_rows k rs (load_row row hit s)
]

-- The id of a recovered row: its own, if it is positive and not taken.
unfoldable pub recover_id : Option ℕ → Store → ℕ
recover_id id? s =
    let own = value_or id? s.next_id in
    let id = if ltb own 1 then s.next_id else own in if has_id id s.pending then s.next_id else id

unfoldable pub recover_row : QueueLine → BlockHit → Store → Store
unfolding recover_id
recover_row line hit s =
    let id = recover_id line.id s in
    record s {
      pending =
          s.pending
          ++ (record {
            id = id;
            hit = hit;
            queue_reason = line.queue_reason;
            reject_count = line.reject_count;
            forwarded = false;
          }
              ∷ []);
      hash_index = hit.hash_str ∷ s.hash_index;
      next_id = max s.next_id (id + 1);
    }

-- A hit with no digest or a known one is passed over.
unfoldable pub is_known : BlockHit → Store → Bool
is_known hit s = is_empty hit.hash_str || member hit.hash_str s.hash_index

-- A line, with whether a row was added so far; `none` where reading it throws.
unfoldable pub recover_line : Casts → QueueRecord → Store × Bool → Option (Store × Bool)
unfolding hit_from_json is_known
recover_line k no_object (s, added) = some (s, added)
recover_line k (object line) (s, added) =
    and_then (hit_from_json k line.hit)
      (λ hit. some (if is_known hit s then (s, added) else (recover_row line hit s, true)))
recover_line k (unreadable o) (s, added) =
    and_then (hit_from_json k o) (λ hit. if is_known hit s then some (s, added) else none)

unfoldable pub recover_lines : Casts → List QueueRecord → Store × Bool → Option (Store × Bool)
recover_lines k [] r = some r
recover_lines k (line ∷ lines) r = and_then (recover_line k line r) (λ t. recover_lines k lines t)

abbrev pub save_if : Store × Bool → Store
save_if (s, added) = if added then save_db s else s

unfoldable pub recover_jsonl : Casts → Store → Option Store
unfolding recover_lines recover_line recover_row
recover_jsonl k s = and_then (recover_lines k s.jsonl (s, false)) (λ r. some (save_if r))

abbrev pub empty_store : DbFile → List QueueRecord → List Rejection → Store
empty_store db jsonl rejected = record {
  pending = [];
  hash_index = [];
  next_id = 1;
  dirty_ops = 0;
  db = db;
  jsonl = jsonl;
  rejected = rejected;
}

abbrev pub or_recover : Casts → Store × Bool → Option Store
or_recover k (s, true) = some s
or_recover k (s, false) = recover_jsonl k s

-- The constructor: what it makes of the three files. It throws, and gives `none`, where the recovery does:
-- the `catch` around the reading of blocks.db only leads to the recovery, which then comes to the same line.
unfoldable pub load : Casts → DbFile → List QueueRecord → List Rejection → Option Store
unfolding load_rows load_row recover_jsonl read_next_id
load k absent jsonl rejected = recover_jsonl k (empty_store absent jsonl rejected)
load k discarded jsonl rejected = recover_jsonl k (empty_store discarded jsonl rejected)
load k (no_pending n) jsonl rejected =
    recover_jsonl k
      (record (empty_store (no_pending n) jsonl rejected) { next_id = read_next_id n })
load k (rows n rs) jsonl rejected =
    or_recover k (
      load_rows k rs (record (empty_store (rows n rs) jsonl rejected) { next_id = read_next_id n }))
