-- ===== src/Store/Disk.antt =====
-- How far blocks.db may lag behind the rows in memory (src/queue/store.cpp).
use xnminer.Base.{
  ℕ, ◌+◌, ◌^◌, ◌≤◌, ◌<◌, ◌≡◌, refl, sym, ap, ◌∙◌, Bool, not, ◌&&◌, Option, some, List, [], ◌∷◌, map,
  Text, is_empty, member, filter, filter-not, length, leb, ltb, ◌==◌, Bool-cases, inl, inr, arith,
  All,
}
use xnminer.Common.{BlockHit}
use xnminer.Store.Defs.{
  PendingBlock, DbRow, DbFile, absent, discarded, no_pending, rows, QueueRecord, Rejection, Store,
  save_every_ops, db_row, snapshot, save_db, mark_dirty, maybe_save, flush, drop_by_hash, add_block,
  enqueue, log_rejection, record_rejection, mark_submitted, mark_submitted_many,
  mark_pending_reason, mark_forwarded_many, defer_reason, defer_all_to_next_start,
}
use xnminer.Store.Invariant.{IsValid, defer_all_to_next_start-IsValid}
use xnminer.Store.Json.{Casts}
use xnminer.Store.Load.{load}
use xnminer.Store.Reload.{Fits, load-save_db}
use xnminer.Store.History.{
  Op, enqueues, logs_rejection, records_rejection, submitted, submitted_many, reasons, flushes,
  drops, forwarded_many, defers, step, run, run-IsValid,
}

abbrev pub db_rows : DbFile → List (Option DbRow)
db_rows absent = []
db_rows discarded = []
db_rows (no_pending n) = []
db_rows (rows n rs) = rs

abbrev pub saved_rows : List PendingBlock → List (Option DbRow)
saved_rows = map (λ pb. some (db_row pb))

-- Fewer than `kSaveEveryOps` changes are unsaved, and with none unsaved the file has the rows.
pub record InSync (s : Store) : Type 0 where
  pub few : s.dirty_ops < save_every_ops
  pub saved : s.dirty_ops ≡ 0 → db_rows s.db ≡ saved_rows s.pending

save_db-InSync : (s : Store) → InSync (save_db s)
unfolding save_db snapshot
save_db-InSync s = record { few = omega arith; saved = λ e. refl }

maybe_save-InSync : (s : Store) → s.dirty_ops < save_every_ops → InSync (maybe_save (mark_dirty s))
unfolding maybe_save mark_dirty save_db snapshot
maybe_save-InSync s h = elim (Bool-cases (leb save_every_ops (s.dirty_ops + 1))) [
  | inl e ↦ rw e (record { few = omega arith; saved = λ z. refl })
  | inr e ↦ rw e (record { few = ground arith; saved = λ z. absurd (omega arith) })
]

enqueue-InSync :
    (hit : BlockHit) (reason : Text) (s : Store) → InSync s → InSync (enqueue hit reason s).0
unfolding enqueue add_block
enqueue-InSync hit reason s v =
    elim (Bool-cases (not (is_empty hit.hash_str) && member hit.hash_str s.hash_index)) [
      | inl e ↦ rw e v
      | inr e ↦ rw e (maybe_save-InSync (add_block hit reason s) v.few)
    ]

drop_by_hash-InSync : (hashes : List Text) (s : Store) → InSync s → InSync (drop_by_hash hashes s).0
unfolding drop_by_hash
drop_by_hash-InSync hashes s v = elim (Bool-cases (is_empty wanted)) [
  | inl e ↦ rw e v
  | inr e ↦ elim (Bool-cases (length (filter dropped s.pending) == 0)) [
    | inl z ↦
        rw (e, z)
          (record {
            few = v.few;
            saved =
                λ k. v.saved k ∙ ap saved_rows (sym (filter-not dropped s.pending (ground arith)));
          })
    | inr z ↦ rw (e, z) (save_db-InSync _)
  ]
]
  where
    wanted : List Text
    wanted = filter (λ h. not (is_empty h)) hashes

    dropped : PendingBlock → Bool
    dropped pb = member pb.hash_str wanted

flush-InSync : (s : Store) → InSync s → InSync (flush s)
unfolding flush
flush-InSync s v = elim (Bool-cases (ltb 0 s.dirty_ops)) [
  | inl e ↦ rw e (save_db-InSync s)
  | inr e ↦ rw e v
]

pub step-InSync : (op : Op) (s : Store) → InSync s → InSync (step op s)
unfolding step record_rejection log_rejection mark_submitted
step-InSync (enqueues hit reason) s v = enqueue-InSync hit reason s v
step-InSync (logs_rejection hit status body source) s v = record { few = v.few; saved = v.saved }
step-InSync (records_rejection hit status body source) s v =
    enqueue-InSync hit _ (log_rejection hit status body source s)
      (record { few = v.few; saved = v.saved })
step-InSync (submitted id) s v = unfold mark_submitted_many in save_db-InSync _
step-InSync (submitted_many []) s v = unfold mark_submitted_many in v
step-InSync (submitted_many (id ∷ ids)) s v = unfold mark_submitted_many in save_db-InSync _
step-InSync (reasons id reason) s v = unfold mark_pending_reason in maybe_save-InSync _ v.few
step-InSync flushes s v = flush-InSync s v
step-InSync (drops hashes) s v = drop_by_hash-InSync hashes s v
step-InSync (forwarded_many []) s v = unfold mark_forwarded_many in v
step-InSync (forwarded_many (id ∷ ids)) s v = unfold mark_forwarded_many in save_db-InSync _
step-InSync (defers minute) s v = unfold defer_all_to_next_start in save_db-InSync _

-- After any history that starts in step with the file, fewer than eight changes are unsaved, and
-- where none is, blocks.db holds the rows in memory.
pub run-InSync : (ops : List Op) (s : Store) → InSync s → InSync (run ops s)
unfolding run
run-InSync [] s v = v
run-InSync (op ∷ ops) s v = run-InSync ops (step op s) (step-InSync op s v)

-- A flush of a store that is in step with its file leaves the rows of the store in blocks.db, whether or
-- not a change was unsaved.
pub flush-saved : (s : Store) → InSync s → db_rows (flush s).db ≡ saved_rows (flush s).pending
unfolding flush save_db snapshot
flush-saved s v = elim (Bool-cases (ltb 0 s.dirty_ops)) [
  | inl e ↦ rw e refl
  | inr e ↦ rw e (v.saved (ground arith))
]

-- A shutdown and a restart: after any history of a well-formed store, the deferral that ends a
-- session (`defer_all_to_next_start`) leaves a blocks.db from which the next start finds a well-formed
-- store with the same rows in the same order, provided that the attempts and memory costs of the blocks
-- fit an `int`, and so does the next id.
pub load-shutdown :
    (k : Casts) (ops : List Op) (minute : ℕ) (s : Store) (jsonl : List QueueRecord)
    (rejected : List Rejection)
    → IsValid s
    → All Fits (defer_all_to_next_start minute (run ops s)).pending
    → (run ops s).next_id < 2 ^ 31
    → let t = defer_all_to_next_start minute (run ops s) in
      (u : Store) × (load k t.db jsonl rejected ≡ some u)
      × (u.pending ≡ t.pending)
      × IsValid u
      × (t.next_id ≤ u.next_id)
unfolding defer_all_to_next_start save_db
load-shutdown k ops minute s jsonl rejected v f small =
    let (u, loaded, same, valid, above) = load-save_db k t jsonl rejected deferred f next in
    (u, loaded, same, valid, omega (arith, above))
  where
    t : Store
    t = mark_dirty (record (run ops s) { pending = map (defer_reason minute) (run ops s).pending })

    next : t.next_id < 2 ^ 31
    next = unfold mark_dirty in small

    deferred : IsValid t
    deferred =
        unfold mark_dirty in
        defer_all_to_next_start-IsValid minute (run ops s) (run-IsValid ops s v)
