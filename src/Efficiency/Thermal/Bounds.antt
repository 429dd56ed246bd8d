-- ===== src/Efficiency/Thermal/Bounds.antt =====
-- The batch of `hunt_thermal_scale` (src/efficiency/thermal_policy.cpp) in its bounds, and where a cut and
-- a raise may land.
use xnminer.Base.{ℕ, ◌+◌, ◌≤◌, ◌<◌, ◌≡◌, arith, ◌≢◌}
use xnminer.Efficiency.Thermal.{
  HuntState, Reading, stride, planned, least, start_batch, bounded, drop_to,
}

pub least-le-planned : (r : Reading) → (1 ≤ least r) × (least r ≤ planned r) × (1 ≤ stride r)
least-le-planned r = ground arith

pub start_batch_bounds :
    (r : Reading) (b : ℕ) → (least r ≤ start_batch r b) × (start_batch r b ≤ planned r)
unfolding start_batch
start_batch_bounds r b = ground arith

pub bounded_bounds : (r : Reading) (n : ℕ) → (least r ≤ bounded r n) × (bounded r n ≤ planned r)
unfolding bounded
bounded_bounds r n = ground arith

pub drop_to_lem :
    (r : Reading) (st : HuntState)
    → least r ≤ st.floor
    → drop_to r st ≢ st.batch
    → (st.floor < drop_to r st) × (drop_to r st < st.batch)
unfolding drop_to
drop_to_lem r st h ne = ground arith

-- A count in bounds is kept.
pub bounded_id : (r : Reading) (n : ℕ) → least r ≤ n → n ≤ planned r → bounded r n ≡ n
unfolding bounded
bounded_id r n lo hi = ground arith

pub bounded_up :
    (r : Reading) (b : ℕ)
    → b ≤ planned r
    → least r ≤ b
    → (b ≤ bounded r (b + stride r)) × (bounded r (b + stride r) ≤ b + stride r)
unfolding bounded
bounded_up r b hi lo = ground arith
