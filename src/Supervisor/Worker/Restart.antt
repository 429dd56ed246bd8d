-- ===== src/Supervisor/Worker/Restart.antt =====
-- The closing down of src/app/supervisor.cpp followed by the next start of src/queue/store.cpp.
use xnminer.Base.{◌≡◌, ap, true, false, ◌||◌, is_empty, some, List, [], Text, map, arith}
use xnminer.Policy.{shutdown_pending_reason}
use xnminer.Store.Defs.{
  Store, QueueRecord, Rejection, save_db, mark_dirty, defer_reason, defer_all_to_next_start,
}
use xnminer.Store.Distinct.{has_hash}
use xnminer.Store.Invariant.{IsValid}
use xnminer.Store.Json.{Casts}
use xnminer.Store.Load.{load}
use xnminer.Store.Reload.{load-save_db-has_hash}
use xnminer.Supervisor.State.{Settings, World, Sup, should_store}
use xnminer.Supervisor.Hits.{bag_live_queue_to_store, persist_queue_for_restart}
use xnminer.Supervisor.Hits.Kept.{accepted, saved}
use xnminer.Supervisor.Worker.Batch.{tracked, waiting}
use xnminer.Supervisor.Worker.Keeps.{Keeps, persist_queue-Keeps}
use xnminer.Supervisor.Worker.NoLoss.{persist_queue_for_restart-on_disk}

saved_when_empty :
    (h : Text) (t : Sup) → t.live_submit_q ≡ [] → tracked h t ≡ true → saved h t ≡ true
saved_when_empty h t e k = ground (arith, ap (waiting h) e, k)

-- A close and a restart lose no hit: with storing on and a consistent bag, a digest that was in the
-- live queue, in the bag or accepted before `persist_queue_for_restart` is accepted, or in a row that
-- the next start reads from blocks.db; that start throws nothing.
pub persist_queue_for_restart-load :
    (k : Casts) (c : Settings) (w : World) (h : Text) (s : Sup) (jsonl : List QueueRecord)
    (rejected : List Rejection)
    → should_store c ≡ true
    → is_empty h ≡ false
    → IsValid s.store
    → tracked h s ≡ true
    → let t = persist_queue_for_restart w s in
      (u : Store) × (load k t.store.db jsonl rejected ≡ some u)
      × ((has_hash h u.pending || accepted h t.posts) ≡ true)
unfolding persist_queue_for_restart defer_all_to_next_start save_db mark_dirty
persist_queue_for_restart-load k c w h s jsonl rejected on n v e =
    let (u, loaded, same) = load-save_db-has_hash k h unsaved jsonl rejected in
    (
      u,
      loaded,
      rw same (
          saved_when_empty h (persist_queue_for_restart w s)
            (persist_queue_for_restart-on_disk w s).0 (keep.keeps on h n v e)),
    )
  where
    bagged : Sup
    bagged = bag_live_queue_to_store shutdown_pending_reason (record s { shutting_down = true })

    unsaved : Store
    unsaved =
        mark_dirty
          (record bagged.store { pending = map (defer_reason w.minute) bagged.store.pending })

    keep : Keeps c s (persist_queue_for_restart w s)
    keep = persist_queue-Keeps c w s
