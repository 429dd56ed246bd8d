-- ===== src/Supervisor/Network.antt =====
-- `refresh_network`, `update_match_drain` and `note_submit_transport_failure` of
-- src/app/supervisor.cpp: how the submit side follows the poll of /difficulty. The calls are those of
-- the submit worker, which never replan the GPU engine.
use xnminer.Base.{
  ℕ, ◌+◌, ℤ, pos, eqb_ℤ, Bool, true, false, not, ◌&&◌, ◌||◌, Option, none, some, Text, ltb, leb,
  ◌==◌, if◌then◌else◌, value_or, is_some, max,
}
use xnminer.Common.{NetworkStatus}
use xnminer.Store.Defs.{flush}
use xnminer.Store.Batch.{pending_matching_m}
use xnminer.Network.Difficulty.{accept_network_difficulty}
use xnminer.Supervisor.State.{
  Settings, World, Sup, force_mine_mode, bag_only, oracle_says_m, oracle_left_m, bag_target_m,
  equals_m,
}
pub mod Laws

unfoldable pub end_drain : Sup → Sup
end_drain s = record s { match_drain_active = false; match_drain_until = 0; store = flush s.store }

unfoldable pub start_drain : Settings → World → ℕ → Sup → Sup
start_drain c w match_q s = record s {
  match_drain_active = true;
  match_drain_until = if ltb 0 c.match_drain_max_ms then w.now + c.match_drain_max_ms else 0;
  match_drain_start_queue = match_q;
  match_drain_flushed = 0;
  match_drain_cleared = 0;
  flush_skip_before_id = 0;
}

-- The drain's time budget is used up.
unfoldable pub drain_timed_out : Settings → World → Sup → Bool
drain_timed_out c w s =
    ltb 0 c.match_drain_max_ms && ltb 0 s.match_drain_until && leb s.match_drain_until w.now

unfoldable pub drain_off : Settings → Bool
drain_off c = bag_only c || not c.match_drain_enabled || not (force_mine_mode c)

-- The rows that match the m= of the bag.
unfoldable pub bag_queue : Settings → Sup → ℕ
bag_queue c s = pending_matching_m (bag_target_m c s) (bag_target_m c s) s.store

unfoldable pub drain_ends : Settings → World → Sup → Bool
drain_ends c w s =
    (oracle_says_m (bag_target_m c s) s && bag_queue c s == 0)
    || drain_timed_out c w s
    || oracle_left_m (bag_target_m c s) s

unfoldable pub drain_starts : Settings → Sup → Bool
drain_starts c s = oracle_says_m (bag_target_m c s) s && leb c.match_drain_min_queue (bag_queue c s)

unfoldable pub update_match_drain : Settings → World → Sup → Sup
unfolding end_drain start_drain
update_match_drain c w s =
    if drain_off c
    then (if s.match_drain_active then record s { match_drain_active = false } else s)
    else if s.match_drain_active
    then (if drain_ends c w s then end_drain s else s)
    else if drain_starts c s
    then start_drain c w (bag_queue c s) s
    else s

-- The number of a good poll is taken over; a change defers the submits of the classic mode.
unfoldable pub take_difficulty : Settings → World → ℤ → Sup → Sup
take_difficulty c w raw s =
    let diff = accept_network_difficulty raw (value_or s.network_difficulty c.memory_cost) in
    let changed = is_some s.network_difficulty && not (equals_m s.network_difficulty diff) in
    record s {
      network_difficulty = some diff;
      network_ok = true;
      difficulty_stale = false;
      difficulty_fail_streak = 0;
      last_difficulty_ok_at = w.now;
      submit_backoff_until = 0;
      defer_submit_until =
          if changed then w.now + max 5000 c.sample_interval_ms else s.defer_submit_until;
    }

-- The last good poll is less than so many milliseconds old.
abbrev pub age_below : ℕ → World → Sup → Bool
age_below k w s = ltb 0 s.last_difficulty_ok_at && ltb w.now (s.last_difficulty_ok_at + k)

unfoldable pub matching_hybrid : Settings → Sup → Bool
matching_hybrid c s = force_mine_mode c && equals_m s.network_difficulty c.force_mine_memory_cost

-- A poll with no number: the last good one is kept.
unfoldable pub miss_difficulty : Settings → World → Sup → Sup × Bool
unfolding matching_hybrid
miss_difficulty c w s =
    let streak = s.difficulty_fail_streak + 1 in
    let fail_budget = if matching_hybrid c s then 6 else 3 in
    let age_budget = if matching_hybrid c s then 120000 else 60000 in
    if is_some s.network_difficulty && age_below 180000 w s && ltb streak 8
    then (
      record s {
        difficulty_fail_streak = streak;
        difficulty_stale = true;
        network_ok = ltb streak fail_budget && age_below age_budget w s;
      },
      ltb streak fail_budget && age_below age_budget w s,
    )
    else (
      record s {
        difficulty_fail_streak = streak;
        network_ok = false;
        difficulty_stale = is_some s.network_difficulty;
      },
      false,
    )

abbrev pub after_poll : Settings → World → Option ℤ → Sup → Sup × Bool
after_poll c w none s = miss_difficulty c w s
after_poll c w (some raw) s = (update_match_drain c w (take_difficulty c w raw s), true)

-- `blocking` polls at once; otherwise a snapshot that was seen before changes nothing. The result says
-- whether the network counts as up.
unfoldable pub refresh_network : Settings → World → Bool → Sup → Sup × Bool
unfolding take_difficulty miss_difficulty
refresh_network c w blocking s =
    let st = w.poll in
    let seen = record s { last_poll_seq = if st.seq == 0 then s.last_poll_seq else st.seq } in
    if not blocking && (st.seq == 0 || st.seq == s.last_poll_seq)
    then (s, s.network_ok && is_some s.network_difficulty)
    else after_poll c w st.difficulty seen

-- The pause after a POST that did not get through: 0.15 s in a drain, 3 s after a rate limit or in a
-- match window, else at least 15 s.
unfoldable pub note_submit_transport_failure : Settings → World → ℤ → Sup → Sup
note_submit_transport_failure c w status s =
    let hybrid_match = force_mine_mode c && oracle_says_m c.force_mine_memory_cost s in
    let rate_limit = eqb_ℤ status (pos 401) || eqb_ℤ status (pos 403) || eqb_ℤ status (pos 429) in
    let backoff =
      if s.match_drain_active
      then 150
      else if hybrid_match || rate_limit
      then 3000
      else max 15000 c.network_down_poll_interval_ms in
    record s {
      submit_backoff_until = w.now + backoff;
      network_ok =
          if hybrid_match || rate_limit || s.match_drain_active then s.network_ok else false;
    }
