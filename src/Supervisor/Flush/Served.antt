-- ===== src/Supervisor/Flush/Served.antt =====
-- The submit worker's own calls of the flush in src/app/supervisor.cpp, at the end of a round, spare the
-- bag.
use xnminer.Base.{ℕ, ◌+◌, refl, Bool, true, false, not, ◌&&◌, ◌||◌, length, ltb, leb, if◌then◌else◌}
use xnminer.Policy.{in_xuni_submit_window, in_xuni_taper_window}
use xnminer.Store.Counts.{pending_by_type}
use xnminer.Supervisor.State.{Settings, World, Sup, bag_only}
use xnminer.Supervisor.Hits.Kept.{Grows-refl, by_if}
use xnminer.Supervisor.Flush.Spared.{Spares, Spares-Grows, Spares-trans}
use xnminer.Supervisor.Flush.Tried.{try_flush_pending-Flushes}
use xnminer.Supervisor.Flush.Service.{
  flush_now, open_window, flush_every, service_due, service_pending_queue, serve,
}

Spares-refl : (s : Sup) → Spares s s
Spares-refl s = Spares-Grows s s (Grows-refl s)

flush_now-Spares : (c : Settings) (w : World) (s : Sup) → Spares s (flush_now c w s)
unfolding flush_now
flush_now-Spares c w s = (try_flush_pending-Flushes c w false s).0

-- The marks of the times are not the bag's.
stamped :
    (s t : Sup) (queue_at xuni_at : ℕ)
    → Spares s t
    → Spares s (record t { last_queue_flush = queue_at; last_xuni_flush = xuni_at })
stamped s t queue_at xuni_at k = record { queue = k.queue; valid = k.valid; kept = k.kept }

open_window-Spares : (c : Settings) (w : World) (n : ℕ) (s : Sup) → Spares s (open_window c w n s)
unfolding open_window
open_window-Spares c w n s =
    by_if (Spares s) (in_xuni_submit_window w.minute && not s.was_in_xuni_window)
      (λ _.
        by_if (Spares s) (ltb 0 n)
          (λ _. stamped s (flush_now c w opened) w.now w.now (Spares-trans (noted true) flushed))
          (λ _. noted true))
      (λ _.
        by_if (Spares s) (not (in_xuni_submit_window w.minute)) (λ _. noted false)
          (λ _. Spares-refl s))
  where
    opened : Sup
    opened = record s { was_in_xuni_window = true }

    noted : (b : Bool) → Spares s (record s { was_in_xuni_window = b })
    noted b = record { queue = refl; valid = λ v. v; kept = λ h enc v e. e }

    flushed : Spares opened (flush_now c w opened)
    flushed = flush_now-Spares c w opened

service_due-Spares :
    (c : Settings) (w : World) (xunis all : ℕ) (s : Sup) → Spares s (service_due c w xunis all s)
unfolding service_due
service_due-Spares c w xunis all s =
    by_if (Spares s) (leb (s.last_queue_flush + flush_every c w xunis all s) w.now)
      (λ _. stamped s flushed w.now flushed.last_xuni_flush (flush_now-Spares c w s))
      (λ _.
        by_if (Spares s) (in_xuni_submit_window w.minute && ltb 0 xunis)
          (λ _.
            by_if (Spares s)
              (leb (s.last_xuni_flush + (if in_xuni_taper_window w.minute then 500 else 2000))
                w.now)
              (λ _. stamped s flushed flushed.last_queue_flush w.now (flush_now-Spares c w s))
              (λ _. Spares-refl s))
          (λ _. Spares-refl s))
  where
    flushed : Sup
    flushed = flush_now c w s

service_pending_queue-Spares :
    (c : Settings) (w : World) (s : Sup) → Spares s (service_pending_queue c w s)
unfolding service_pending_queue
service_pending_queue-Spares c w s =
    Spares-trans (open_window-Spares c w xunis s)
      (service_due-Spares c w xunis (length s.store.pending) (open_window c w xunis s))
  where
    xunis : ℕ
    xunis = (pending_by_type false s.store).xuni

pub serve-Spares : (c : Settings) (w : World) (s : Sup) → Spares s (serve c w s)
unfolding serve
serve-Spares c w s =
    by_if (Spares s) (s.shutting_down || bag_only c) (λ _. Spares-refl s)
      (λ _. service_pending_queue-Spares c w s)
