-- ===== src/Supervisor/Pool.antt =====
-- `brute_drain_parallel`, `matching_queue_depth` and `network_difficulty_for_public` of
-- src/app/supervisor.cpp. The cap on HTTP threads is an argument.
use xnminer.Base.{
  ℕ, ◌≡◌, ap, sym, ◌∙◌, ◌≤◌, ℤ, pos, ◌≤ℤ◌, leb_ℤ, ltb_ℤ, max_ℤ, min_ℤ, false, ◌&&◌, is_some,
  value_or, if◌then◌else◌, arith, length,
}
use xnminer.Supervisor.State.{Settings, Sup, submit_target_m, bag_target_m}
use xnminer.Store.Batch.{pending_matching_m, list_flush_batch}
use xnminer.Store.Batch.Result.{list_flush_batch-le-pending_matching_m}

-- The number of threads before it is bounded.
unfoldable pub wanted_parallel : ℤ → ℤ → ℤ → ℤ
wanted_parallel cap configured bag_q =
    let par = if leb_ℤ (pos 5000) bag_q then max_ℤ cap (min_ℤ (pos 1024) cap) else cap in
    if leb_ℤ configured (pos 0)
    then (if leb_ℤ (pos 25000) bag_q then max_ℤ par cap else par)
    else configured

-- The three bounds that follow, in their order.
unfoldable pub bound_parallel : ℤ → ℤ → ℤ
bound_parallel http_cap par =
    let par' = if ltb_ℤ http_cap par then http_cap else par in
    let par'' = if ltb_ℤ par' (pos 1) then pos 1 else par' in
    if ltb_ℤ (pos 4096) par'' then pos 4096 else par''

unfoldable pub brute_drain_parallel : ℤ → ℤ → ℤ → ℤ
unfolding wanted_parallel bound_parallel
brute_drain_parallel http_cap configured bag_q =
    bound_parallel http_cap (wanted_parallel http_cap configured bag_q)

max-min : (http_cap n : ℤ) → max_ℤ http_cap (min_ℤ n http_cap) ≡ http_cap
unfolding max_ℤ min_ℤ
max-min http_cap n = ground arith

max_self : (n : ℤ) → max_ℤ n n ≡ n
unfolding max_ℤ
max_self n = ground arith

wanted_parallel-eq :
    (http_cap configured bag_q : ℤ)
    → wanted_parallel http_cap configured bag_q
      ≡ (if leb_ℤ configured (pos 0) then http_cap else configured)
unfolding wanted_parallel
wanted_parallel-eq http_cap configured bag_q =
    rw (max-min http_cap (pos 1024)) (ground (arith, max_self http_cap))

bound_parallel_lem :
    (http_cap par : ℤ)
    → (pos 1 ≤ℤ bound_parallel http_cap par)
      × (bound_parallel http_cap par ≤ℤ pos 4096)
      × (bound_parallel http_cap par ≤ℤ max_ℤ http_cap (pos 1))
unfolding bound_parallel max_ℤ
bound_parallel_lem http_cap par = (ground arith, ground arith, ground arith)

-- The number of threads lies in 1 to 4096 and exceeds the cap only where the cap is below 1. It does not
-- depend on the size of the bag.
pub brute_drain_parallel_lem :
    (http_cap configured bag_q bag_q' : ℤ)
    → (pos 1 ≤ℤ brute_drain_parallel http_cap configured bag_q)
      × (brute_drain_parallel http_cap configured bag_q ≤ℤ pos 4096)
      × (brute_drain_parallel http_cap configured bag_q ≤ℤ max_ℤ http_cap (pos 1))
      × (brute_drain_parallel http_cap configured bag_q
          ≡ brute_drain_parallel http_cap configured bag_q')
unfolding brute_drain_parallel
brute_drain_parallel_lem http_cap configured bag_q bag_q' =
    let (low, high, capped) =
      bound_parallel_lem http_cap (wanted_parallel http_cap configured bag_q) in
    (
      low,
      high,
      capped,
      ap (bound_parallel http_cap) (
          wanted_parallel-eq http_cap configured bag_q
          ∙ sym (wanted_parallel-eq http_cap configured bag_q')),
    )

unfoldable pub matching_queue_depth : Settings → Sup → ℕ
matching_queue_depth c s =
    if leb_ℤ (submit_target_m c s) (pos 0)
    then 0
    else pending_matching_m (submit_target_m c s) (bag_target_m c s) s.store

-- No flush wave at the submit target is larger than the depth that is announced for it, whatever the
-- limit and the skip mark, provided that the target is known.
pub list_flush_batch-le-matching_queue_depth :
    (c : Settings) (minute limit skip : ℕ) (s : Sup)
    → leb_ℤ (submit_target_m c s) (pos 0) ≡ false
    → length (list_flush_batch minute (submit_target_m c s) (bag_target_m c s) limit skip s.store)
      ≤ matching_queue_depth c s
unfolding matching_queue_depth
list_flush_batch-le-matching_queue_depth c minute limit skip s known = rw known (
    list_flush_batch-le-pending_matching_m minute (submit_target_m c s) (bag_target_m c s) limit
      skip s.store)

unfoldable pub network_difficulty_for_public : Sup → ℤ
network_difficulty_for_public s =
    if s.network_ok && is_some s.network_difficulty
    then value_or s.network_difficulty (pos 0)
    else pos 0
