-- ===== src/Supervisor/Hits.antt =====
-- The way of a hit in src/app/supervisor.cpp: `handle_hit` on the mining thread, `process_live_submit`
-- on the submit worker, and the bagging of what cannot be sent. Logs and the dashboard are left out.
use xnminer.Base.{
  ℕ, ◌+◌, ℤ, pos, eqb_ℤ, ltb_ℤ, Bool, true, false, not, ◌&&◌, ◌||◌, Option, none, some, List, [],
  ◌∷◌, ◌++◌, Text, codes, text_eq, is_empty, ltb, ◌==◌, if◌then◌else◌, value_or, length,
}
use xnminer.Common.{BlockHit, SubmitResult}
use xnminer.Common.Stats.{
  record_found, record_enqueued, record_accepted_live, record_rejected_live, record_resubmission,
  sync_pending,
}
use xnminer.Policy.{
  in_xuni_submit_window, outside_xuni_window_reason, shutdown_pending_reason,
  difficulty_change_reason, match_window_new_reason,
}
use xnminer.Store.Defs.{enqueue, record_rejection, defer_all_to_next_start}
use xnminer.Network.Submit.{
  is_difficulty_mismatch, is_pool_hold, is_transient_submit_failure, is_xuni_window_reject,
  counts_as_reject,
}
use xnminer.Mining.Classify.{classify_block}
use xnminer.Mining.Encode.{is_hex64_key}
use xnminer.Mining.Prepare.{prepare_hit_for_submit}
use xnminer.Supervisor.State.{
  Settings, World, LiveSubmitJob, Sup, force_mine_mode, bag_only, should_store, mining_difficulty,
  live_submit_allowed, verify_ready_to_push, oracle_says_m, can_submit_hit_m, equals_m, known_m,
}
use xnminer.Supervisor.Network.{refresh_network, note_submit_transport_failure}
pub mod Kept
pub mod Live
pub mod Posts

abbrev pub is_xuni : Text → Bool
is_xuni kind = text_eq kind (codes "XUNI")

unfoldable pub queue_hit : BlockHit → Text → Text → Sup → Sup
queue_hit hit kind reason s =
    let (store, id) = enqueue hit reason s.store in
    if id == 0 then record s { store = store } else record s {
      store = store;
      stats = sync_pending (length store.pending) (record_enqueued kind s.stats);
    }

unfoldable pub enqueue_live_submit : BlockHit → Text → Sup → Sup
enqueue_live_submit hit kind s = record s {
  live_submit_q = s.live_submit_q ++ (record { hit = hit; kind = kind } ∷ []);
}

abbrev pub hit_m_of : Settings → World → BlockHit → ℤ
hit_m_of c w hit = value_or hit.memory_cost (mining_difficulty c w)

-- The reason under which a hit that cannot be submitted now is bagged.
unfoldable pub wait_reason : Settings → World → ℤ → Sup → Text
wait_reason c w hit_m s =
    let net_m = value_or s.network_difficulty (pos 0) in
    if s.network_ok && ltb_ℤ (pos 0) net_m && not (eqb_ℤ net_m hit_m)
    then difficulty_change_reason
    else if not (force_mine_mode c) && ltb w.now s.defer_submit_until
    then difficulty_change_reason
    else codes "network_down"

-- `handle_hit` from where the hit is prepared.
unfoldable pub route_hit : Settings → World → BlockHit → Sup → Sup
unfolding queue_hit enqueue_live_submit
route_hit c w hit s =
    let kind = hit.block_type in
    let off_window = is_xuni kind && not (in_xuni_submit_window w.minute) in
    if bag_only c
    then queue_hit hit kind (codes "bag_only") s
    else if s.shutting_down
    then queue_hit hit kind
        (if off_window then outside_xuni_window_reason else shutdown_pending_reason) s
    else if off_window
    then (if should_store c then queue_hit hit kind outside_xuni_window_reason s else s)
    else if s.match_drain_active
    then queue_hit hit kind match_window_new_reason s
    else if not (can_submit_hit_m c w (hit_m_of c w hit) s)
    then (if should_store c then queue_hit hit kind (wait_reason c w (hit_m_of c w hit) s) s else s)
    else enqueue_live_submit hit kind s

-- The kind of a hit before it is prepared.
unfoldable pub first_kind : BlockHit → Text
first_kind hit =
    let kind = classify_block hit.hash_str hit.block_type in
    if text_eq kind (codes "OTHER")
    then (if is_empty hit.block_type then codes "OTHER" else hit.block_type)
    else kind

unfoldable pub prepared : Settings → World → BlockHit → Option BlockHit
prepared c w hit =
    prepare_hit_for_submit w.base64_encode hit
      (if is_empty hit.salt_hex then c.salt_hex else hit.salt_hex) (mining_difficulty c w)
      c.time_cost c.parallelism

abbrev pub route_prepared : Settings → World → Option BlockHit → Sup → Sup
route_prepared c w none s = s
route_prepared c w (some hit) s = route_hit c w hit s

-- A XUNI that is not wanted now.
unfoldable pub unwanted_xuni : Settings → World → Text → Bool
unwanted_xuni c w kind =
    is_xuni kind
    && not (should_store c)
    && (not c.xuni_mining_enabled || not (in_xuni_submit_window w.minute))

unfoldable pub handle_hit : Settings → World → BlockHit → Sup → Sup
unfolding first_kind unwanted_xuni
handle_hit c w hit s =
    if not (is_hex64_key hit.key)
    then s
    else if unwanted_xuni c w (first_kind hit)
    then s
    else route_prepared c w (prepared c w hit)
        (record s { stats = record_found (first_kind hit) s.stats })

-- An accepted POST.
unfoldable pub accept_live : Text → Sup → Sup
accept_live kind s = record s {
  submit_backoff_until = 0;
  network_ok = true;
  match_drain_flushed =
      if s.match_drain_active then s.match_drain_flushed + 1 else s.match_drain_flushed;
  stats = record_accepted_live kind s.stats;
}

unfoldable pub reject_live : BlockHit → Text → SubmitResult → Sup → Sup
reject_live hit kind r s =
    let store = (record_rejection hit r.status r.body (codes "live") s.store).0 in
    let stats =
      if counts_as_reject r.status r.body then record_rejected_live kind s.stats else s.stats in
    record s {
      store = store;
      stats = sync_pending (length store.pending) (record_resubmission kind stats);
    }

-- What follows the answer to the POST of a live hit.
unfoldable pub answer_live : Settings → World → BlockHit → Text → SubmitResult → Sup → Sup
unfolding queue_hit accept_live reject_live
answer_live c w hit kind r s =
    if r.ok
    then accept_live kind s
    else if is_difficulty_mismatch r.status r.body
    then (if should_store c then queue_hit hit kind difficulty_change_reason s else s)
    else if is_pool_hold r.status r.body
    then queue_hit hit kind difficulty_change_reason s
    else if eqb_ℤ r.status (pos 0) || is_transient_submit_failure r.status r.body
    then queue_hit hit kind (codes "network_down") (note_submit_transport_failure c w r.status s)
    else if is_xuni_window_reject r.status r.body
    then queue_hit hit kind outside_xuni_window_reason s
    else reject_live hit kind r s

-- `process_live_submit` from where the network status is read.
unfoldable pub push_live : Settings → World → BlockHit → Text → Sup → Sup
unfolding queue_hit answer_live
push_live c w hit kind s =
    let (t, ready) = verify_ready_to_push w s in
    if not (can_submit_hit_m c w (hit_m_of c w hit) s)
    then (if not (should_store c)
        then s
        else if live_submit_allowed c w s && not (oracle_says_m (hit_m_of c w hit) s)
        then queue_hit hit kind difficulty_change_reason s
        else queue_hit hit kind (codes "network_down") s)
    else if not ready
    then (if should_store c then queue_hit hit kind (codes "network_down") t else t)
    else answer_live c w hit kind (w.answer hit)
        (record t { posts = record { hit = hit; answer = w.answer hit } ∷ t.posts })

unfoldable pub process_live_submit : Settings → World → BlockHit → Text → Sup → Sup
unfolding queue_hit push_live
process_live_submit c w hit kind s =
    if bag_only c
    then queue_hit hit kind (codes "bag_only") s
    else if s.shutting_down
    then queue_hit hit kind shutdown_pending_reason s
    else if is_xuni kind && not c.xuni_mining_enabled && not (should_store c)
    then s
    else if is_xuni kind && not (in_xuni_submit_window w.minute)
    then (if should_store c then queue_hit hit kind outside_xuni_window_reason s else s)
    else push_live c w hit kind (refresh_network c w false s).0

-- The jobs of a batch go to the store under one reason.
unfoldable pub bag_jobs : Text → List LiveSubmitJob → Sup → Sup
bag_jobs reason [] s = s
bag_jobs reason (job ∷ jobs) s = bag_jobs reason jobs (record s {
  store = (enqueue job.hit reason s.store).0;
  stats = record_enqueued job.kind s.stats;
})

unfoldable pub sync_stats : Sup → Sup
sync_stats s = record s { stats = sync_pending (length s.store.pending) s.stats }

unfoldable pub bag_live_queue_to_store : Text → Sup → Sup
unfolding bag_jobs sync_stats
bag_live_queue_to_store reason s =
    let t = bag_jobs reason s.live_submit_q (record s { live_submit_q = [] }) in
    if is_empty s.live_submit_q then t else sync_stats t

unfoldable pub persist_queue_for_restart : World → Sup → Sup
unfolding bag_live_queue_to_store
persist_queue_for_restart w s =
    let t = bag_live_queue_to_store shutdown_pending_reason (record s { shutting_down = true }) in
    record t { store = defer_all_to_next_start w.minute t.store }
