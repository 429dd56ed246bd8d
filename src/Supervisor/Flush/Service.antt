-- ===== src/Supervisor/Flush/Service.antt =====
-- `service_pending_queue` of src/app/supervisor.cpp, which ends a round of the submit worker, and the
-- last part of `submit_worker_loop`, where the worker is stopped.
use xnminer.Base.{ℕ, ◌+◌, true, false, not, ◌&&◌, ◌||◌, length, ltb, leb, min, if◌then◌else◌}
use xnminer.Policy.{in_xuni_submit_window, in_xuni_taper_window, shutdown_pending_reason}
use xnminer.Store.Defs.{defer_all_to_next_start}
use xnminer.Store.Counts.{pending_by_type}
use xnminer.Supervisor.State.{Settings, World, Sup, bag_only, live_submit_allowed}
use xnminer.Supervisor.Hits.{bag_live_queue_to_store}
use xnminer.Supervisor.Flush.Try.{is_draining, try_flush_pending}

unfoldable pub flush_now : Settings → World → Sup → Sup
flush_now c w s = (try_flush_pending c w false s).0

-- The XUNI blocks are flushed once when the window opens.
unfoldable pub open_window : Settings → World → ℕ → Sup → Sup
unfolding flush_now
open_window c w pending_xuni s =
    if in_xuni_submit_window w.minute && not s.was_in_xuni_window
    then (if ltb 0 pending_xuni
        then record (flush_now c w (record s { was_in_xuni_window = true })) {
          last_xuni_flush = w.now;
          last_queue_flush = w.now;
        }
        else record s { was_in_xuni_window = true })
    else if not (in_xuni_submit_window w.minute)
    then record s { was_in_xuni_window = false }
    else s

-- The time between two flushes of the queue, in milliseconds.
unfoldable pub flush_every : Settings → World → ℕ → ℕ → Sup → ℕ
flush_every c w pending_xuni pending_total s =
    let every =
      if ltb 500 pending_total then 1000 else if ltb 50 pending_total then 2000 else 5000 in
    let drained = if is_draining c s then 0 else every in
    if in_xuni_taper_window w.minute && ltb 0 pending_xuni then min drained 250 else drained

unfoldable pub service_due : Settings → World → ℕ → ℕ → Sup → Sup
unfolding flush_every flush_now
service_due c w pending_xuni pending_total s =
    let xuni_every = if in_xuni_taper_window w.minute then 500 else 2000 in
    if leb (s.last_queue_flush + flush_every c w pending_xuni pending_total s) w.now
    then record (flush_now c w s) { last_queue_flush = w.now }
    else if in_xuni_submit_window w.minute && ltb 0 pending_xuni
    then (if leb (s.last_xuni_flush + xuni_every) w.now
        then record (flush_now c w s) { last_xuni_flush = w.now }
        else s)
    else s

unfoldable pub service_pending_queue : Settings → World → Sup → Sup
unfolding open_window service_due
service_pending_queue c w s =
    let pending_xuni = (pending_by_type false s.store).xuni in
    service_due c w pending_xuni (length s.store.pending) (open_window c w pending_xuni s)

-- The end of a round: nothing is flushed in a shutdown, nor where only the bag is filled.
unfoldable pub serve : Settings → World → Sup → Sup
unfolding service_pending_queue
serve c w s = if s.shutting_down || bag_only c then s else service_pending_queue c w s

-- The worker is stopped: the live queue goes to the bag, the bag waits for the next start, and is
-- flushed once if the network allows it.
unfoldable pub stop_worker : Settings → World → Sup → Sup
stop_worker c w s =
    let bagged = bag_live_queue_to_store shutdown_pending_reason s in
    let t = record bagged { store = defer_all_to_next_start w.minute bagged.store } in
    if not (bag_only c) && (not t.shutting_down || live_submit_allowed c w t)
    then (try_flush_pending c w true t).0
    else t
