-- ===== src/Store/Reload.antt =====
-- A save of blocks.db and a start from it: what comes back, and what does not.
use mathlib.Core.Option
use mathlib.Core.List.{append_assoc, append-nil}
use xnminer.Base.{
  ◌+◌, ◌<◌, ◌^◌, ◌-◌, ◌≡◌, refl, ap, ◌∙◌, ℕ, max, true, false, false, ◌||◌, Option, none, some,
  List, [], ◌∷◌, ◌++◌, map, Text, is_empty, member, text_eq_comm, eq_of_text_eq, length, All, ℤ,
  ◌≤ℤ◌, ◌<ℤ◌, to_int32, to_int32_id, arith,
}
use xnminer.Store.Defs.{
  PendingBlock, DbRow, QueueRecord, Rejection, Store, db_row, snapshot, save_db, insert_hash,
}
use xnminer.Store.Distinct.{has_hash, Below, Below-suc, Below-mono}
use xnminer.Store.Invariant.{IsValid}
use xnminer.Store.Json.{Casts, read_hit, hit_to_json, hit_from_json, hit_from_json-hit_to_json}
use xnminer.Common.{BlockHit}
use xnminer.Store.Load.{read_next_id, load_row, load_rows, empty_store, load}

-- A row as a start reads it: the whole numbers of its hit have gone through a 32-bit `int`.
unfoldable pub reread : PendingBlock → PendingBlock
unfolding read_hit
reread pb = record pb { hit = read_hit pb.hit }

pub index_all : List PendingBlock → List Text → List Text
index_all [] ix = ix
index_all (pb ∷ ps) ix = index_all ps (insert_hash pb.hash_str ix)

member-index_all :
    (h : Text) (ps : List PendingBlock) (ix : List Text)
    → is_empty h ≡ false
    → member h (index_all ps ix) ≡ (member h ix || has_hash h ps)
unfolding index_all insert_hash
member-index_all h [] ix n = ground arith
member-index_all h (pb ∷ ps) ix n =
    member-index_all h ps (insert_hash pb.hash_str ix) n
    ∙ ground (arith, text_eq_comm h pb.hash_str, eq_of_text_eq pb.hash_str h)

has_hash-reread : (h : Text) (ps : List PendingBlock) → has_hash h (map reread ps) ≡ has_hash h ps
unfolding reread read_hit
has_hash-reread h [] = refl
has_hash-reread h (pb ∷ ps) = ground (arith, has_hash-reread h ps)

-- The next id after the rows are read, from the one before them.
pub next_after : ℕ → List PendingBlock → ℕ
next_after n [] = n
next_after n (pb ∷ ps) = next_after (max (n + 1) (pb.id + 1)) ps

next_after-Below : (n : ℕ) (ps : List PendingBlock) → Below n ps → next_after n ps ≡ n + length ps
unfolding next_after
next_after-Below n [] b = omega arith
next_after-Below n (pb ∷ ps) b =
    rw (at_next) (next_after-Below (n + 1) ps (Below-suc n ps b.1) ∙ omega arith)
  where
    at_next : max (n + 1) (pb.id + 1) ≡ n + 1
    at_next = omega (arith, b.0.1)

-- The row that is appended.
with_row : PendingBlock → Store → Store
with_row pb s = record s {
  pending = s.pending ++ (reread pb ∷ []);
  hash_index = insert_hash pb.hash_str s.hash_index;
  next_id = max (s.next_id + 1) (pb.id + 1);
}

load_rows-cons :
    (k : Casts) (pb : PendingBlock) (rs : List (Option DbRow)) (s : Store)
    → load_rows k (some (db_row pb) ∷ rs) s ≡ load_rows k rs (with_row pb s)
unfolding load_rows db_row with_row load_row reread read_hit
load_rows-cons k pb rs s =
    by_hit (hit_from_json k (hit_to_json pb.hit)) (hit_from_json-hit_to_json k pb.hit)
  where
    by_hit :
        (o : Option BlockHit)
        → o ≡ some (read_hit pb.hit)
        → (elim o [
          | none ↦ (record s { next_id = s.next_id + 1 }, false)
          | some hit ↦ load_rows k rs (load_row (db_row pb) hit s)
        ])
          ≡ load_rows k rs (with_row pb s)
    by_hit o e = rw e refl

load_rows-snapshot :
    (k : Casts) (ps : List PendingBlock) (s : Store)
    → load_rows k (map (λ pb. some (db_row pb)) ps) s ≡ (
      record s {
        pending = s.pending ++ map reread ps;
        hash_index = index_all ps s.hash_index;
        next_id = next_after s.next_id ps;
      },
      true,
    )
unfolding index_all next_after with_row
load_rows-snapshot k [] s = unfold load_rows in ground (arith, append-nil s.pending)
load_rows-snapshot k (pb ∷ ps) s =
    load_rows-cons k pb (map (λ x. some (db_row x)) ps) s
    ∙ load_rows-snapshot k ps (with_row pb s)
    ∙ ap
        (λ (xs : List PendingBlock). (
          record s {
            pending = xs;
            hash_index = index_all ps (insert_hash pb.hash_str s.hash_index);
            next_id = next_after (max (s.next_id + 1) (pb.id + 1)) ps;
          },
          true,
        ))
        (append_assoc s.pending (reread pb ∷ []) (map reread ps))

-- What a start makes of the rows that were saved.
pub load-snapshot :
    (k : Casts) (s : Store) (jsonl : List QueueRecord) (rejected : List Rejection)
    → load k (snapshot s) jsonl rejected
      ≡ some (record (empty_store (snapshot s) jsonl rejected) {
        pending = map reread s.pending;
        hash_index = index_all s.pending [];
        next_id = next_after (read_next_id s.next_id) s.pending;
      })
unfolding load snapshot
load-snapshot k s jsonl rejected =
    rw
      (load_rows-snapshot k s.pending
        (record (empty_store (snapshot s) jsonl rejected) { next_id = read_next_id s.next_id }))
      refl

abbrev pub FitsInt : ℤ → Type 0
FitsInt n = (ℤ.negsuc (2 ^ 31 - 1) ≤ℤ n) × (n <ℤ ℤ.pos (2 ^ 31))

abbrev pub IfCost : Option ℤ → Type 0
IfCost none = Unit {0}
IfCost (some m) = FitsInt m

-- The attempts of a block and its memory cost fit a 32-bit `int`.
abbrev pub Fits : PendingBlock → Type 0
Fits pb = FitsInt pb.hit.attempts × IfCost pb.hit.memory_cost

same_cost : (m : Option ℤ) → IfCost m → Option.map to_int32 m ≡ m
same_cost none f = refl
same_cost (some m) f = ap (λ (n : ℤ). some n) (to_int32_id m f.0 f.1)

same_row : (pb : PendingBlock) → Fits pb → reread pb ≡ pb
unfolding reread read_hit
same_row pb f = rw (to_int32_id pb.hit.attempts f.0.0 f.0.1, same_cost pb.hit.memory_cost f.1) refl

read_next_id-small : (n : ℕ) → n < 2 ^ 31 → read_next_id n ≡ n
unfolding read_next_id to_int32
read_next_id-small n h = ground arith

map-reread : (ps : List PendingBlock) → All Fits ps → map reread ps ≡ ps
unfolding reread read_hit
map-reread [] f = refl
map-reread (pb ∷ ps) f =
    ap (λ (x : PendingBlock). x ∷ map reread ps) (same_row pb f.0)
    ∙ ap (λ (xs : List PendingBlock). pb ∷ xs) (map-reread ps f.1)

-- After a save, a start gives back every row as it was, in its order, with the digest set that
-- belongs to the rows, provided that the attempts and the memory cost of each block fit an `int`, and
-- so does the next id. Ids go on above all that were given out, after a gap of one for each row.
pub load-save_db :
    (k : Casts) (s : Store) (jsonl : List QueueRecord) (rejected : List Rejection)
    → IsValid s
    → All Fits s.pending
    → s.next_id < 2 ^ 31
    → (t : Store) × (load k (save_db s).db jsonl rejected ≡ some t)
      × (t.pending ≡ s.pending)
      × IsValid t
      × (t.next_id ≡ s.next_id + length s.pending)
unfolding save_db
load-save_db k s jsonl rejected v f small = (
  t,
  load-snapshot k s jsonl rejected,
  map-reread s.pending f,
  record {
    counted = omega (arith, v.counted, next);
    fresh =
        rw (map-reread s.pending f, next) (Below-mono s.next_id _ s.pending (omega arith) v.fresh);
    ids = rw (map-reread s.pending f) v.ids;
    hashes = rw (map-reread s.pending f) v.hashes;
    indexed = λ h n. rw (map-reread s.pending f) (member-index_all h s.pending [] n);
  },
  next,
)
  where
    t : Store
    t = record (empty_store (snapshot s) jsonl rejected) {
      pending = map reread s.pending;
      hash_index = index_all s.pending [];
      next_id = next_after (read_next_id s.next_id) s.pending;
    }

    next : next_after (read_next_id s.next_id) s.pending ≡ s.next_id + length s.pending
    next = rw (read_next_id-small s.next_id small) (next_after-Below s.next_id s.pending v.fresh)

-- A digest that is in the saved rows is in those that a start reads.
pub load-save_db-has_hash :
    (k : Casts) (h : Text) (s : Store) (jsonl : List QueueRecord) (rejected : List Rejection)
    → (t : Store) × (load k (save_db s).db jsonl rejected ≡ some t)
      × (has_hash h t.pending ≡ has_hash h s.pending)
unfolding save_db
load-save_db-has_hash k h s jsonl rejected =
    (_, load-snapshot k s jsonl rejected, has_hash-reread h s.pending)
