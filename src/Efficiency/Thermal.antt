-- ===== src/Efficiency/Thermal.antt =====
-- `hunt_thermal_scale` and `normalize_power_range` of src/efficiency/thermal_policy.cpp. Degrees and
-- batch counts are natural numbers, as the sensors and the planner give them, so that a difference is
-- compared by what it is added to; times are whole milliseconds. `scale`, a double, is left out.
use xnminer.Base.{
  ℕ, ◌+◌, ◌-◌, ◌*◌, Bool, true, false, not, ◌&&◌, ◌||◌, Text, codes, ltb, leb, ◌==◌, if◌then◌else◌,
  min, max,
}
pub mod Bounds
pub mod Steps
pub mod Runs
pub mod Climb

-- `ThermalHuntState`; `over_floor_streak`, which nothing reads or writes, is left out.
pub record HuntState : Type 0 where
  pub batch : ℕ
  pub last_adjust : ℕ
  pub last_temp : ℕ
  pub consecutive_cool : ℕ
  pub idle_ms : ℕ
  pub floor : ℕ
  pub last_ok : ℕ

pub data Action : Type 0 where
  hold : Action
  cut : Action
  raise : Action

-- `ThermalHuntResult`; `lane_delta` is always 0.
pub record HuntResult : Type 0 where
  pub batch : ℕ
  pub action : Action
  pub control_c : ℕ
  pub sensor : Text
  pub idle_ms : ℕ

-- The arguments of a call.
pub record Reading : Type 0 where
  pub gpu_c : ℕ
  pub mem_c : ℕ
  pub use_mem : Bool
  pub target_c : ℕ
  pub cap_c : ℕ
  pub gpu_cap_c : ℕ
  pub planned_batch : ℕ
  pub batch_step : ℕ
  pub min_batch : ℕ
  pub now : ℕ
  pub cut_settle : ℕ

-- The arguments as the call first corrects them.
abbrev pub settle : Reading → ℕ
settle r = max 5000 r.cut_settle

abbrev pub stride : Reading → ℕ
stride r = if ltb r.batch_step 1 then 1000 else r.batch_step

abbrev pub planned : Reading → ℕ
planned r = if ltb r.planned_batch 1 then 1 else r.planned_batch

abbrev pub least : Reading → ℕ
least r =
    let low = if ltb r.min_batch (stride r) then stride r else r.min_batch in
    if ltb (planned r) low then planned r else low

abbrev pub target : Reading → ℕ
target r = if ltb r.target_c 40 then 40 else r.target_c

abbrev pub cap : Reading → ℕ
cap r = if leb r.cap_c (target r) then target r + 3 else r.cap_c

-- The batch of the state, brought into bounds.
unfoldable pub start_batch : Reading → ℕ → ℕ
start_batch r batch =
    let b = if batch == 0 then planned r else batch in
    let c = if ltb (planned r) b then planned r else b in if ltb c (least r) then least r else c

-- The degrees that steer, and the name of the sensor.
unfoldable pub control : Reading → ℕ × Text
control r =
    let junction = r.use_mem && ltb 0 r.mem_c in
    let c = if junction then r.mem_c else r.gpu_c in
    if ltb 0 r.gpu_cap_c && leb r.gpu_cap_c r.gpu_c && ltb c r.gpu_c
    then (r.gpu_c, codes "gpu")
    else (c, if junction then codes "mem" else codes "gpu")

-- A drop of 12 degrees in one sample is taken for a glitch.
unfoldable pub steady_temp : Reading → HuntState → ℕ → ℕ
steady_temp r st temp =
    if leb (target r) st.last_temp && ltb 0 temp && leb (temp + 12) st.last_temp
    then st.last_temp
    else temp

-- The first reading starts the window and moves nothing.
unfoldable pub first_reading : Reading → HuntState → ℕ → HuntState
first_reading r st temp = record st {
  last_adjust = r.now;
  last_temp = temp;
  floor = if st.floor == 0 then st.batch else st.floor;
  last_ok = if st.last_ok == 0 then st.batch else st.last_ok;
}

-- The watermarks of a later reading.
unfoldable pub mark_floor : Reading → HuntState → HuntState
mark_floor r st =
    let floor = if st.floor == 0 then st.batch else st.floor in
    record st {
      floor = if ltb floor (least r) then least r else floor;
      last_ok = if st.last_ok == 0 then st.batch else st.last_ok;
    }

unfoldable pub want_idle : Reading → ℕ → ℕ
want_idle r temp = if leb (target r) temp then min 80 (12 * (temp - target r + 1)) else 0

-- The temperature rises, or falls or stands, against the last reading, where there is one.
unfoldable pub rising : HuntState → ℕ → Bool
rising st temp = ltb 0 st.last_temp && ltb st.last_temp temp

unfoldable pub is_cool : Reading → HuntState → ℕ → Bool
unfolding rising
is_cool r st temp = leb temp (target r) && not (rising st temp)

unfoldable pub is_hot : Reading → HuntState → ℕ → Bool
unfolding rising
is_hot r st temp =
    leb (cap r) temp || leb (target r + 2) temp || (leb (target r) temp && rising st temp)

unfoldable pub bounded : Reading → ℕ → ℕ
bounded r next =
    let n = if ltb (planned r) next then planned r else next in
    if ltb n (least r) then least r else n

-- The lambda `apply`: no change before the last one has settled.
unfoldable pub apply : Reading → Action → ℕ → HuntState × Action → HuntState × Action
unfolding bounded
apply r action next (st, done) =
    if ltb r.now (st.last_adjust + settle r)
    then (st, done)
    else if bounded r next == st.batch
    then (st, done)
    else (record st { batch = bounded r next; last_adjust = r.now }, action)

-- Where a cut would land.
unfoldable pub drop_to : Reading → HuntState → ℕ
drop_to r st =
    let a = if leb st.last_ok st.floor then st.floor + stride r else st.last_ok in
    let b = if leb st.batch a then st.batch - stride r else a in
    let c = if leb b st.floor then st.floor + stride r else b in
    let d = if ltb c (least r) then least r else c in if ltb st.batch d then st.batch else d

unfoldable pub raise_floor : HuntState × Action → HuntState × Action
raise_floor (st, done) =
    if ltb st.floor st.batch then (record st { floor = st.batch }, done) else (st, done)

unfoldable pub on_cool : Reading → HuntState → HuntState × Action
unfolding apply
on_cool r st =
    let noted = record st { last_ok = st.batch; consecutive_cool = st.consecutive_cool + 1 } in
    apply r raise (st.batch + stride r) (noted, hold)

unfoldable pub on_hot : Reading → HuntState → HuntState × Action
unfolding apply drop_to raise_floor
on_hot r st =
    let reset = record st { consecutive_cool = 0 } in
    if drop_to r reset == st.batch
    then (reset, hold)
    else raise_floor (apply r cut (drop_to r reset) (reset, hold))

unfoldable pub later_reading : Reading → HuntState → ℕ → HuntState × Action
unfolding mark_floor want_idle is_cool is_hot on_cool on_hot
later_reading r st temp =
    let marked = record (mark_floor r st) { idle_ms = want_idle r temp } in
    let (moved, action) =
      if is_cool r marked temp
      then on_cool r marked
      else if is_hot r marked temp
      then on_hot r marked
      else (record marked { consecutive_cool = 0 }, hold) in
    (record moved { last_temp = temp }, action)

-- The state after the call, and its result.
unfoldable pub hunt_thermal_scale : Reading → HuntState → HuntState × HuntResult
unfolding start_batch control steady_temp first_reading later_reading
hunt_thermal_scale r st =
    let begun = record st { batch = start_batch r st.batch } in
    let temp = steady_temp r begun (control r).0 in
    let first = first_reading r begun temp in
    let (later, action) = later_reading r begun temp in
    if st.last_adjust == 0
    then (
      first,
      record {
        batch = first.batch;
        action = hold;
        control_c = temp;
        sensor = (control r).1;
        idle_ms = 0;
      },
    )
    else (
      later,
      record {
        batch = later.batch;
        action = action;
        control_c = temp;
        sensor = (control r).1;
        idle_ms = later.idle_ms;
      },
    )

unfoldable pub clamp : ℕ → ℕ → ℕ → ℕ
clamp lo hi x = if ltb x lo then lo else if ltb hi x then hi else x

-- The two percentages.
unfoldable pub normalize_power_range : ℕ → ℕ → ℕ × ℕ
unfolding clamp
normalize_power_range target_pct min_pct =
    let target = clamp 50 100 target_pct in (target, clamp 50 target min_pct)
