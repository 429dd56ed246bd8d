-- ===== src/Supervisor/State.antt =====
-- The submit state of `Supervisor` (src/app/supervisor.hpp) and the gates of src/app/supervisor.cpp
-- that read it. Times are whole milliseconds; what a call reads from outside is a `World`.
use xnminer.Base.{
  ℕ, ◌+◌, ℤ, pos, ltb_ℤ, leb_ℤ, eqb_ℤ, Bool, true, false, not, ◌&&◌, ◌||◌, Option, none, some, List,
  Text, ltb, if◌then◌else◌, value_or,
}
use xnminer.Common.{BlockHit, NetworkStatus, SubmitResult}
use xnminer.Common.Stats.{MiningStats}
use xnminer.Store.Defs.{Store}

-- The settings that the submit side reads.
pub record Settings : Type 0 where
  pub force_mine_memory_cost : ℤ
  pub memory_cost : ℤ
  pub time_cost : ℤ
  pub parallelism : ℤ
  pub salt_hex : Text
  pub submit_enabled : Bool
  pub store_blocks : Bool
  pub xuni_mining_enabled : Bool
  pub match_drain_enabled : Bool
  pub match_drain_min_queue : ℕ
  pub match_drain_max_ms : ℕ
  pub match_drain_batch : ℕ
  pub sample_interval_ms : ℕ
  pub network_down_poll_interval_ms : ℕ

-- What a call finds outside: the clock, the poller's last status, whether /verify answers a probe, the
-- answer to the POST of a block, the m= of the GPU engine, and the hash library's base64.
pub record World : Type 0 where
  pub now : ℕ
  pub minute : ℕ
  pub poll : NetworkStatus
  pub probe_ok : Bool
  pub answer : BlockHit → SubmitResult
  pub engine_m : ℤ
  pub base64_encode : List ℕ → Text

pub record LiveSubmitJob : Type 0 where
  pub hit : BlockHit
  pub kind : Text

-- A block that was sent to /verify, and the answer.
pub record Post : Type 0 where
  pub hit : BlockHit
  pub answer : SubmitResult

-- `posts` is the trace of what was sent to /verify, newest first.
pub record Sup : Type 0 where
  pub store : Store
  pub stats : MiningStats
  pub live_submit_q : List LiveSubmitJob
  pub shutting_down : Bool
  pub network_ok : Bool
  pub difficulty_stale : Bool
  pub network_difficulty : Option ℤ
  pub last_difficulty_ok_at : ℕ
  pub difficulty_fail_streak : ℕ
  pub last_poll_seq : ℕ
  pub defer_submit_until : ℕ
  pub submit_backoff_until : ℕ
  pub verify_alive : Bool
  pub verify_probe_at : ℕ
  pub match_drain_active : Bool
  pub match_drain_until : ℕ
  pub match_drain_start_queue : ℕ
  pub match_drain_flushed : ℕ
  pub match_drain_cleared : ℕ
  pub flush_skip_before_id : ℕ
  pub last_queue_flush : ℕ
  pub last_xuni_flush : ℕ
  pub was_in_xuni_window : Bool
  pub posts : List Post

unfoldable pub force_mine_mode : Settings → Bool
force_mine_mode c = ltb_ℤ (pos 0) c.force_mine_memory_cost

unfoldable pub bag_only : Settings → Bool
bag_only c = not c.submit_enabled

unfoldable pub should_store : Settings → Bool
unfolding bag_only
should_store c = c.store_blocks || bag_only c

-- A hit comes from the engine, so that there is one; the branch with no engine is left out.
unfoldable pub mining_difficulty : Settings → World → ℤ
unfolding force_mine_mode
mining_difficulty c w = if force_mine_mode c then c.force_mine_memory_cost else w.engine_m

abbrev pub known_m : Option ℤ → Bool
known_m none = false
known_m (some m) = ltb_ℤ (pos 0) m

abbrev pub equals_m : Option ℤ → ℤ → Bool
equals_m none m = false
equals_m (some n) m = eqb_ℤ n m

-- A probe that failed within the last two seconds.
unfoldable pub probe_down : World → Sup → Bool
probe_down w s =
    ltb 0 s.verify_probe_at && ltb w.now (s.verify_probe_at + 2000) && not s.verify_alive

unfoldable pub live_submit_allowed : Settings → World → Sup → Bool
unfolding probe_down bag_only force_mine_mode
live_submit_allowed c w s =
    if bag_only c
    then false
    else if ltb w.now s.submit_backoff_until
    then false
    else if not (force_mine_mode c) && ltb w.now s.defer_submit_until
    then false
    else if not (known_m s.network_difficulty)
    then false
    else if s.network_ok
    then true
    else not (probe_down w s)

unfoldable pub flush_submit_allowed : Settings → World → Sup → Bool
unfolding probe_down bag_only force_mine_mode
flush_submit_allowed c w s =
    if bag_only c
    then false
    else if not s.match_drain_active && ltb w.now s.submit_backoff_until
    then false
    else if not (force_mine_mode c) && ltb w.now s.defer_submit_until
    then false
    else if not (known_m s.network_difficulty)
    then false
    else if s.network_ok
    then true
    else not (probe_down w s)

-- The state with the probe noted, and whether a block may be pushed.
unfoldable pub verify_ready_to_push : World → Sup → Sup × Bool
verify_ready_to_push w s =
    if s.network_ok
    then (s, true)
    else if ltb 0 s.verify_probe_at && ltb w.now (s.verify_probe_at + 2000)
    then (s, s.verify_alive)
    else (record s { verify_alive = w.probe_ok; verify_probe_at = w.now }, w.probe_ok)

unfoldable pub oracle_says_m : ℤ → Sup → Bool
oracle_says_m m s = if leb_ℤ m (pos 0) then false else equals_m s.network_difficulty m

unfoldable pub oracle_left_m : ℤ → Sup → Bool
oracle_left_m m s =
    if leb_ℤ m (pos 0)
    then false
    else if not (s.network_ok && known_m s.network_difficulty)
    then false
    else not (equals_m s.network_difficulty m)

unfoldable pub bag_target_m : Settings → Sup → ℤ
unfolding force_mine_mode
bag_target_m c s =
    if force_mine_mode c
    then c.force_mine_memory_cost
    else value_or s.network_difficulty c.memory_cost

unfoldable pub submit_target_m : Settings → Sup → ℤ
unfolding bag_target_m oracle_says_m
submit_target_m c s =
    if oracle_says_m (bag_target_m c s) s
    then bag_target_m c s
    else if known_m s.network_difficulty
    then value_or s.network_difficulty (pos 0)
    else pos 0

unfoldable pub can_submit_hit_m : Settings → World → ℤ → Sup → Bool
unfolding live_submit_allowed oracle_says_m
can_submit_hit_m c w hit_m s = live_submit_allowed c w s && oracle_says_m hit_m s
