-- ===== src/Policy.antt =====
-- src/queue/policy.cpp: when a block may be submitted, and in which order. The minute of the local
-- hour, which `local_minute_of_hour` reads from the clock, is an argument.
use xnminer.Base.{
  ℕ, ◌<◌, ◌≤◌, ◌≡◌, Bool, true, false, ◌&&◌, ◌||◌, not, Text, codes, text_eq, to_upper, map, arith,
  ltb, leb, ◌==◌, if◌then◌else◌, ◌↔◌, ◌⊎◌,
}
pub mod Laws

abbrev pub outside_xuni_window_reason : Text
outside_xuni_window_reason = codes "outside_xuni_window"

abbrev pub shutdown_pending_reason : Text
shutdown_pending_reason = codes "shutdown_pending"

abbrev pub difficulty_change_reason : Text
difficulty_change_reason = codes "difficulty_change"

abbrev pub match_window_new_reason : Text
match_window_new_reason = codes "match_window_new"

unfoldable pub in_xuni_window : ℕ → Bool
in_xuni_window m = leb 56 m || ltb m 5

unfoldable pub in_xuni_submit_window : ℕ → Bool
in_xuni_submit_window m = leb 55 m || ltb m 5

unfoldable pub in_xuni_taper_window : ℕ → Bool
in_xuni_taper_window m = m == 4

abbrev pub upper_case : Text → Text
upper_case = map to_upper

-- The readiness and the label that goes with it.
unfoldable pub ready_to_flush : ℕ → Text → Bool × Text
ready_to_flush m block_type =
    let kind = upper_case block_type in
    if text_eq kind (codes "XUNI") && not (in_xuni_submit_window m)
    then (false, codes "waiting_for_xuni_window")
    else (true, codes "ready")

unfoldable pub flush_priority : Text → ℕ
flush_priority block_type =
    let kind = upper_case block_type in
    if text_eq kind (codes "XNM") || text_eq kind (codes "XEN11") || text_eq kind (codes "NORMAL")
    then 0
    else if text_eq kind (codes "XBLK")
    then 1
    else if text_eq kind (codes "XUNI")
    then 2
    else 3
