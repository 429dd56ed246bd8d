-- ===== src/Supervisor/Worker.antt =====
-- The threads of src/app/supervisor.cpp that share the submit state: the mining thread with
-- `handle_hit`, the submit worker with rounds of `submit_worker_loop` that end with the flush
-- of the bag, the stop of the worker, and the closing down.
use xnminer.Base.{
  ℕ, suc, Bool, true, false, not, ◌&&◌, ◌||◌, List, [], ◌∷◌, Text, codes, is_empty, if◌then◌else◌,
}
use xnminer.Common.{BlockHit}
use xnminer.Policy.{shutdown_pending_reason, match_window_new_reason}
use xnminer.Supervisor.State.{
  Settings, World, Sup, LiveSubmitJob, bag_only, should_store, verify_ready_to_push,
}
use xnminer.Supervisor.Network.{refresh_network, update_match_drain}
use xnminer.Supervisor.Hits.{
  queue_hit, handle_hit, process_live_submit, bag_jobs, sync_stats, persist_queue_for_restart,
}
use xnminer.Supervisor.Flush.Service.{serve, stop_worker}
pub mod Batch
pub mod Keeps
pub mod NoLoss
pub mod Restart
pub mod Mined

-- The jobs of a batch go through `queue_hit` under one reason.
unfoldable pub queue_jobs : Text → List LiveSubmitJob → Sup → Sup
queue_jobs reason [] s = s
queue_jobs reason (job ∷ jobs) s = queue_jobs reason jobs (queue_hit job.hit job.kind reason s)

-- The jobs of a batch one after the other; `ws` gives what each of them finds outside.
unfoldable pub process_jobs : Settings → (ℕ → World) → List LiveSubmitJob → Sup → Sup
process_jobs c ws [] s = s
process_jobs c ws (job ∷ jobs) s =
    process_jobs c (λ i. ws (suc i)) jobs (process_live_submit c (ws 0) job.hit job.kind s)

unfoldable pub sync_batch : List LiveSubmitJob → Sup → Sup
sync_batch batch s = if is_empty batch then s else sync_stats s

-- What the worker does with the batch that it took from the live queue.
unfoldable pub dispose_batch : Settings → (ℕ → World) → List LiveSubmitJob → Sup → Sup
unfolding sync_batch
dispose_batch c ws batch s =
    let (t, ready) = verify_ready_to_push (ws 0) s in
    if s.shutting_down
    then sync_batch batch (bag_jobs shutdown_pending_reason batch s)
    else if bag_only c || s.match_drain_active
    then sync_batch batch
        (bag_jobs (if bag_only c then codes "bag_only" else match_window_new_reason) batch s)
    else if is_empty batch
    then s
    else if not ready
    then (if should_store c then queue_jobs (codes "network_down") batch t else t)
    else process_jobs c (λ i. ws (suc i)) batch t

-- The poll at the start of a round.
unfoldable pub worker_refresh : Settings → World → Sup → Sup
worker_refresh c w s =
    if not s.shutting_down && not (bag_only c)
    then update_match_drain c w (refresh_network c w false s).0
    else s

-- A round of `submit_worker_loop` up to the flush of the bag.
unfoldable pub worker_round : Settings → (ℕ → World) → Sup → Sup
unfolding worker_refresh dispose_batch
worker_round c ws s =
    dispose_batch c (λ i. ws (suc i)) s.live_submit_q
      (worker_refresh c (ws 0) (record s { live_submit_q = [] }))

-- What may happen next, on whatever thread. A round of the worker has a `World` for the flush at its
-- end, and one for each step before that.
pub data Event : Type 0 where
  mined : World → BlockHit → Event
  worked : (ℕ → World) → World → Event
  stopped : World → Event
  polled : World → Bool → Event
  closed : World → Event

unfoldable pub happen : Settings → Event → Sup → Sup
unfolding worker_round serve stop_worker
happen c (mined w hit) s = handle_hit c w hit s
happen c (worked ws w) s = serve c w (worker_round c ws s)
happen c (stopped w) s = stop_worker c w s
happen c (polled w blocking) s = (refresh_network c w blocking s).0
happen c (closed w) s = persist_queue_for_restart w s

unfoldable pub happen_all : Settings → List Event → Sup → Sup
happen_all c [] s = s
happen_all c (e ∷ es) s = happen_all c es (happen c e s)
