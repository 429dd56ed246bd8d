-- ===== src/Tests/Threads.antt =====
-- The theorems on the threads of src/app/supervisor.cpp at concrete inputs.
use xnminer.Base.{
  some, ◌<◌, ◌≡◌, refl, true, false, not, ◌&&◌, ◌||◌, is_some, List, [], ◌∷◌, arith, text_eq, codes,
  starts_with, digits_value, drop_digits, fit_int, trim, contains, pos, ◌≤ℤ◌,
}
use xnminer.Mining.Encode.{is_hex64_key, is_argon2_encoded, memory_cost_from_hash, match_cost}
use xnminer.Mining.Prepare.{prepare_hit_for_submit, other_cost}
use xnminer.Mining.Classify.{classify_block, has_xuni, is_superblock}
use xnminer.Store.Distinct.{has_hash}
use xnminer.Store.Invariant.{IsValid}
use xnminer.Store.Load.{load}
use xnminer.Supervisor.State.{should_store, bag_only, known_m, oracle_says_m}
use xnminer.Store.Defs.{Store}
use xnminer.Store.Batch.{pending_matching_m, matches_m}
use xnminer.Supervisor.State.{mining_difficulty, force_mine_mode, bag_target_m}
use xnminer.Supervisor.Network.{
  refresh_network, update_match_drain, drain_off, drain_starts, bag_queue,
}
use xnminer.Supervisor.Network.Laws.{refresh_network-known, update_match_drain-in_time}
use xnminer.Supervisor.Hits.{handle_hit, process_live_submit, persist_queue_for_restart, prepared}
use xnminer.Supervisor.Hits.Kept.{accepted}
use xnminer.Supervisor.Hits.Posts.{Sent, process_live_submit-posts}
use xnminer.Supervisor.Worker.{Event, worked, stopped, polled, closed, mined, happen_all}
use xnminer.Supervisor.Worker.Batch.{tracked}
use xnminer.Supervisor.Worker.NoLoss.{happen_all-tracked, happen_all-IsValid, handle_hit-happen_all}
use xnminer.Supervisor.Worker.Restart.{persist_queue_for_restart-load}
use xnminer.Base.{length, max_ℤ, ◌≤◌}
use xnminer.Store.Batch.{list_flush_batch}
use xnminer.Supervisor.State.{submit_target_m}
use xnminer.Supervisor.Pool.{
  brute_drain_parallel, brute_drain_parallel_lem, matching_queue_depth,
  list_flush_batch-le-matching_queue_depth,
}
use xnminer.Base.{false}
use xnminer.Store.Contents.{contents, take_out}
use xnminer.Supervisor.Flush.{WorkItem, flush_wave, is_stopped}
use xnminer.Supervisor.Flush.Reached.{reached}
use xnminer.Supervisor.Flush.Cleared.{Cleared}
use xnminer.Supervisor.Flush.Bag.{accepted_of, flush_wave-contents}
use xnminer.Base.{any, filter}
use xnminer.Store.Batch.{eligible}
use xnminer.Supervisor.Flush.Try.{flush_matching, flush_net_m, wave_size, is_draining}
use xnminer.Supervisor.Flush.Drained.{flush_matching-drained}
use xnminer.Tests.Data.{
  two_rows, hit_b, hit_encoded, bags, casts, up, down, idle, busy, encoded_100,
}
use xnminer.Tests.Stores.{two_rows-IsValid, no_rows-IsValid}

abbrev some_events : List Event
some_events =
    polled up false
    ∷ worked (λ i. up) up
    ∷ mined down hit_b
    ∷ worked (λ i. down) down
    ∷ stopped up
    ∷ closed down
    ∷ []

handle_hit-happen_all_example :
    tracked encoded_100 (happen_all bags some_events (handle_hit bags up hit_encoded idle)) ≡ true
unfolding should_store bag_only is_hex64_key prepared prepare_hit_for_submit other_cost
    is_argon2_encoded starts_with memory_cost_from_hash match_cost digits_value drop_digits fit_int
    mining_difficulty classify_block text_eq trim has_xuni contains is_superblock
handle_hit-happen_all_example =
    handle_hit-happen_all bags up hit_encoded hit_encoded some_events idle refl refl refl
      no_rows-IsValid

happen_all-tracked_example : tracked encoded_100 (happen_all bags some_events busy) ≡ true
unfolding should_store bag_only text_eq is_argon2_encoded starts_with
happen_all-tracked_example =
    happen_all-tracked bags some_events encoded_100 busy refl refl two_rows-IsValid refl

happen_all-IsValid_example : IsValid (happen_all bags some_events busy).store
happen_all-IsValid_example = happen_all-IsValid bags some_events busy two_rows-IsValid

persist_queue_for_restart-load_example :
    let t = persist_queue_for_restart down busy in
    (u : Store) × (load casts t.store.db [] [] ≡ some u)
    × ((has_hash encoded_100 u.pending || accepted encoded_100 t.posts) ≡ true)
unfolding should_store bag_only text_eq
persist_queue_for_restart-load_example =
    persist_queue_for_restart-load casts bags down encoded_100 busy [] [] refl refl two_rows-IsValid
      refl

process_live_submit-posts_example :
    Sent bags up hit_encoded
      (codes "XNM")
      busy
      (process_live_submit bags up hit_encoded (codes "XNM") busy)
process_live_submit-posts_example = process_live_submit-posts bags up hit_encoded (codes "XNM") busy

refresh_network-known_example :
    let (t, up_now) = refresh_network bags down true busy in
    (up_now ≡ (t.network_ok && is_some t.network_difficulty))
    × (not (known_m busy.network_difficulty) || known_m t.network_difficulty) ≡ true
refresh_network-known_example = refresh_network-known bags down true busy

update_match_drain-in_time_example : 50000 < (update_match_drain bags up busy).match_drain_until
unfolding update_match_drain drain_off bag_only force_mine_mode drain_starts oracle_says_m
    bag_target_m bag_queue pending_matching_m matches_m
update_match_drain-in_time_example = update_match_drain-in_time bags up busy (omega arith) refl refl

brute_drain_parallel_lem_example :
    (pos 1 ≤ℤ brute_drain_parallel (pos 512) (pos 0) (pos 30000))
    × (brute_drain_parallel (pos 512) (pos 0) (pos 30000) ≤ℤ pos 4096)
    × (brute_drain_parallel (pos 512) (pos 0) (pos 30000) ≤ℤ max_ℤ (pos 512) (pos 1))
    × (brute_drain_parallel (pos 512) (pos 0) (pos 30000)
        ≡ brute_drain_parallel (pos 512) (pos 0) (pos 3))
brute_drain_parallel_lem_example = brute_drain_parallel_lem (pos 512) (pos 0) (pos 30000) (pos 3)

list_flush_batch-le-matching_queue_depth_example :
    length (list_flush_batch 57 (submit_target_m bags busy) (bag_target_m bags busy) 1 0 busy.store)
    ≤ matching_queue_depth bags busy
unfolding submit_target_m bag_target_m oracle_says_m force_mine_mode
list_flush_batch-le-matching_queue_depth_example =
    list_flush_batch-le-matching_queue_depth bags 57 1 0 busy refl

abbrev flushed_row : WorkItem
flushed_row = record { id = 2; hit = hit_b }

flush_wave-contents_example :
    let (t, flushed) = flush_wave up false true (flushed_row ∷ []) busy in
    (contents t.store
      ≡ take_out (accepted_of up (reached false busy (flushed_row ∷ []))) (contents busy.store))
    × IsValid t.store
    × (flushed ≡ length (accepted_of up (reached false busy (flushed_row ∷ []))))
flush_wave-contents_example =
    flush_wave-contents up false true (flushed_row ∷ []) busy two_rows-IsValid

flush_matching-drained_example :
    let (t, flushed) = flush_matching bags up true busy in
    let may_go = eligible 57 (flush_net_m bags busy) (bag_target_m bags busy) in
    (any may_go t.store.pending ≡ false) × (flushed ≡ length (filter may_go two_rows.pending))
unfolding force_mine_mode wave_size flush_net_m is_draining oracle_says_m bag_target_m is_stopped
flush_matching-drained_example =
    flush_matching-drained bags up true busy refl (λ hit. refl) refl refl refl two_rows-IsValid
