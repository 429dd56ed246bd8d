-- ===== src/Tests/Stores.antt =====
-- The theorems on src/queue/store.cpp at concrete inputs.
use xnminer.Base.{
  ◌+◌, ◌≤◌, ◌≡◌, refl, true, pos, some, List, [], ◌∷◌, map, codes, text_eq, text_eq_comm, All,
  length, filter, min, arith, to_int32, Perm,
}
use xnminer.Store.Invariant.{IsValid}
use xnminer.Policy.{in_xuni_submit_window}
use xnminer.Store.Defs.{
  Store, QueueRecord, no_object, object, unreadable, absent, discarded, no_pending, save_db,
  defer_all_to_next_start, mark_dirty, defer_reason,
}
use xnminer.Store.History.{Op, enqueues, submitted_many, defers, flushes, run, run-IsValid}
use xnminer.Store.Contents.{contents, promises, contents-run}
use xnminer.Store.Disk.{InSync, run-InSync, load-shutdown}
use xnminer.Store.Load.{load, read_next_id}
use xnminer.Store.Reload.{Fits, load-save_db}
use xnminer.Store.Recover.{Readable, Starts, load_jsonl-IsValid}
use xnminer.Store.Batch.{list_flush_batch, eligible}
use xnminer.Store.Batch.Sort.{InOrder}
use xnminer.Store.Batch.Result.{
  list_flush_batch-perm, list_flush_batch-InOrder, length-list_flush_batch,
}
use xnminer.Base.{not, true}
use xnminer.Store.Json.{read_hit}
use xnminer.Store.Counts.{
  pending_by_type, pending_by_type_lem, count_where, is_xuni_row, is_xblk_row, is_other_row,
}
use xnminer.Store.Exchange.{
  hits_from_bag_json, hits_to_bag_json, is_blank, hits_from_bag_json-hits_to_bag_json,
}
use xnminer.Tests.Data.{hit_a, no_rows, two_rows, hit_b, line_a, casts}

pub no_rows-IsValid : IsValid no_rows
no_rows-IsValid = record {
  counted = omega arith;
  fresh = tt;
  ids = tt;
  hashes = tt;
  indexed = λ h n. refl;
}

pub two_rows-IsValid : IsValid two_rows
unfolding text_eq
two_rows-IsValid = record {
  counted = omega arith;
  fresh = ((omega arith, omega arith), ((omega arith, omega arith), tt));
  ids = (refl, (refl, tt));
  hashes = (refl, (refl, tt));
  indexed = λ h n. ground (arith, text_eq_comm h (codes "aa"), text_eq_comm h (codes "bb"));
}

abbrev history : List Op
history = submitted_many (2 ∷ []) ∷ enqueues hit_b (codes "network_down") ∷ flushes ∷ defers 30 ∷ []

run-IsValid_example : IsValid (run history two_rows)
run-IsValid_example = run-IsValid history two_rows two_rows-IsValid

contents-run_example : contents (run history two_rows) ≡ promises history (contents two_rows)
contents-run_example = contents-run history two_rows two_rows-IsValid

two_rows-InSync : InSync two_rows
two_rows-InSync = record { few = omega arith; saved = λ e. absurd (omega arith) }

run-InSync_example : InSync (run history two_rows)
run-InSync_example = run-InSync history two_rows two_rows-InSync

-- The attempts and the memory cost of the rows are small.
two_rows-Fits : All Fits two_rows.pending
two_rows-Fits = (
  ((ground arith, ground arith), (ground arith, ground arith)),
  (((ground arith, ground arith), (ground arith, ground arith)), tt),
)

load-shutdown_example :
    let t = defer_all_to_next_start 30 (run [] two_rows) in
    (u : Store) × (load casts t.db [] [] ≡ some u)
    × (u.pending ≡ t.pending)
    × IsValid u
    × (t.next_id ≤ u.next_id)
unfolding defer_all_to_next_start save_db mark_dirty run defer_reason text_eq in_xuni_submit_window
load-shutdown_example =
    load-shutdown casts [] 30 two_rows [] [] two_rows-IsValid two_rows-Fits (omega arith)

load-save_db_example :
    (t : Store) × (load casts (save_db two_rows).db [] [] ≡ some t)
    × (t.pending ≡ two_rows.pending)
    × IsValid t
    × (t.next_id ≡ two_rows.next_id + length two_rows.pending)
load-save_db_example =
    load-save_db casts two_rows [] [] two_rows-IsValid two_rows-Fits (omega arith)

abbrev lines : List QueueRecord
lines = object line_a ∷ no_object ∷ object line_a ∷ unreadable [] ∷ []

load_jsonl-IsValid_example :
    Starts (All (Readable casts) lines) (load casts absent lines [])
    × Starts (All (Readable casts) lines) (load casts discarded lines [])
    × Starts (All (Readable casts) lines) (load casts (no_pending 5) lines [])
unfolding read_next_id to_int32
load_jsonl-IsValid_example = load_jsonl-IsValid casts 5 lines [] (omega arith)

list_flush_batch-perm_example :
    Perm
      (list_flush_batch 57 (pos 100) (pos 100) 0 2 two_rows)
      (filter (eligible 57 (pos 100) (pos 100)) two_rows.pending)
list_flush_batch-perm_example = list_flush_batch-perm 57 (pos 100) (pos 100) 2 two_rows

length-list_flush_batch_example :
    length (list_flush_batch 57 (pos 100) (pos 100) 1 2 two_rows)
    ≡ min 1 (length (filter (eligible 57 (pos 100) (pos 100)) two_rows.pending))
length-list_flush_batch_example =
    length-list_flush_batch 57 (pos 100) (pos 100) 1 2 two_rows (omega arith)

list_flush_batch-InOrder_example :
    InOrder (list_flush_batch 57 (pos 100) (pos 100) 0 0 two_rows)
    × All
        (λ pb. eligible 57 (pos 100) (pos 100) pb ≡ true)
        (list_flush_batch 57 (pos 100) (pos 100) 0 0 two_rows)
list_flush_batch-InOrder_example = list_flush_batch-InOrder 57 (pos 100) (pos 100) 0 0 two_rows

hits_from_bag_json-hits_to_bag_json_example :
    hits_from_bag_json casts (some (hits_to_bag_json (hit_a ∷ hit_b ∷ []) (codes "rig")))
    ≡ some
        (map read_hit (filter (λ hit. not (is_blank hit)) (hit_a ∷ hit_b ∷ [])), some (codes "rig"))
hits_from_bag_json-hits_to_bag_json_example =
    hits_from_bag_json-hits_to_bag_json casts (hit_a ∷ hit_b ∷ []) (codes "rig")

pending_by_type_lem_example :
    let n = pending_by_type true two_rows in
    (n.xuni ≡ count_where is_xuni_row true two_rows.pending)
    × (n.xblk ≡ count_where is_xblk_row true two_rows.pending)
    × (n.xnm ≡ count_where is_other_row true two_rows.pending)
pending_by_type_lem_example = pending_by_type_lem true two_rows
