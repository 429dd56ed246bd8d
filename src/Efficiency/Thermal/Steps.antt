-- ===== src/Efficiency/Thermal/Steps.antt =====
-- What one call of `hunt_thermal_scale` (src/efficiency/thermal_policy.cpp) may do to the batch.
use xnminer.Base.{ℕ, ◌+◌, ◌≤◌, ◌<◌, ◌≡◌, refl, true, false, ltb, ◌==◌, if◌then◌else◌, arith}
use native.Mathlib.Nat.{le_trans}
use xnminer.Supervisor.Hits.Kept.{by_if}
use xnminer.Efficiency.Thermal.{
  HuntState, HuntResult, Action, hold, cut, raise, Reading, settle, stride, planned, least,
  start_batch, first_reading, mark_floor, bounded, apply, drop_to, raise_floor, on_cool, on_hot,
  later_reading, hunt_thermal_scale, control, steady_temp, is_cool, is_hot, want_idle,
}
use xnminer.Efficiency.Thermal.Bounds.{
  start_batch_bounds, bounded_bounds, drop_to_lem, bounded_id, bounded_up,
}

-- The time since the last change is used up, and the change is noted.
abbrev Settled : Reading → HuntState → HuntState → Type 0
Settled r s t = (s.last_adjust + settle r ≤ r.now) × (t.last_adjust ≡ r.now)

-- What the action says of the batch: a cut lands above the floor, a raise is at most one stride.
abbrev pub Does : Reading → HuntState → HuntState → Action → Type 0
Does r s t hold = t.batch ≡ s.batch
Does r s t cut = (s.floor < t.batch) × (t.batch < s.batch) × Settled r s t
Does r s t raise = (s.batch < t.batch) × (t.batch ≤ s.batch + stride r) × Settled r s t

-- A move between two states in bounds that never lowers the floor, nor raises it above the batch.
pub record Moves (r : Reading) (s t : HuntState) (a : Action) : Type 0 where
  pub least_le : least r ≤ t.batch
  pub le_planned : t.batch ≤ planned r
  pub does : Does r s t a
  pub floor_grows : s.floor ≤ t.floor

-- A state in bounds, with its floor set.
pub record InRange (r : Reading) (s : HuntState) : Type 0 where
  pub least_le : least r ≤ s.batch
  pub le_planned : s.batch ≤ planned r
  pub least_floor : least r ≤ s.floor

on_cool-Moves :
    (r : Reading) (s : HuntState) → InRange r s → Moves r s (on_cool r s).0 (on_cool r s).1
unfolding on_cool apply bounded
on_cool-Moves r s v =
    by_if (λ (p : HuntState × Action). Moves r s p.0 p.1) (ltb r.now (s.last_adjust + settle r))
      (λ _. record {
        least_le = v.least_le;
        le_planned = v.le_planned;
        does = refl;
        floor_grows = omega arith;
      })
      (λ late.
        by_if (λ (p : HuntState × Action). Moves r s p.0 p.1)
          (bounded r (s.batch + stride r) == s.batch)
          (λ _. record {
            least_le = v.least_le;
            le_planned = v.le_planned;
            does = refl;
            floor_grows = omega arith;
          })
          (λ moved. record {
            least_le = (bounded_bounds r (s.batch + stride r)).0;
            le_planned = (bounded_bounds r (s.batch + stride r)).1;
            does = (
              ground (arith, moved, bounded_up r s.batch v.le_planned v.least_le),
              (bounded_up r s.batch v.le_planned v.least_le).1,
              (ground (arith, late), refl),
            );
            floor_grows = omega arith;
          }))

-- The floor follows the batch.
raise_floor-Moves :
    (r : Reading) (s t : HuntState) (a : Action)
    → Moves r s t a
    → Moves r s (raise_floor (t, a)).0 (raise_floor (t, a)).1
unfolding raise_floor
raise_floor-Moves r s t a m =
    by_if (λ (p : HuntState × Action). Moves r s p.0 p.1) (ltb t.floor t.batch)
      (λ below. record {
        least_le = m.least_le;
        le_planned = m.le_planned;
        does = same a m.does;
        floor_grows = ground (arith, below, m.floor_grows);
      })
      (λ _. m)
  where
    same : (b : Action) → Does r s t b → Does r s (record t { floor = t.batch }) b
    same hold d = d
    same cut d = d
    same raise d = d

on_hot-Moves : (r : Reading) (s : HuntState) → InRange r s → Moves r s (on_hot r s).0 (on_hot r s).1
unfolding on_hot apply
on_hot-Moves r s v =
    by_if (λ (p : HuntState × Action). Moves r s p.0 p.1) (drop_to r reset == s.batch) (λ _. still)
      (λ lower. raise_floor-Moves r s _ _ (
        by_if (λ (p : HuntState × Action). Moves r s p.0 p.1) (ltb r.now (s.last_adjust + settle r))
          (λ _. still)
          (λ late.
            by_if (λ (p : HuntState × Action). Moves r s p.0 p.1)
              (bounded r (drop_to r reset) == s.batch) (λ _. still) (λ _. drops lower late))))
  where
    reset : HuntState
    reset = record s { consecutive_cool = 0 }

    still : Moves r s reset hold
    still = record {
      least_le = v.least_le;
      le_planned = v.le_planned;
      does = refl;
      floor_grows = omega arith;
    }

    drops :
        (drop_to r reset == s.batch) ≡ false
        → ltb r.now (s.last_adjust + settle r) ≡ false
        → Moves r s (record reset { batch = bounded r (drop_to r reset); last_adjust = r.now }) cut
    drops lower late =
        let (above, below) = drop_to_lem r reset v.least_floor (ground (arith, lower)) in
        let same : bounded r (drop_to r reset) ≡ drop_to r reset =
          bounded_id r (drop_to r reset) (omega (arith, v.least_floor))
            (omega (arith, v.le_planned)) in
        record {
          least_le = (bounded_bounds r (drop_to r reset)).0;
          le_planned = (bounded_bounds r (drop_to r reset)).1;
          does = (omega arith, omega arith, (ground (arith, late), refl));
          floor_grows = omega arith;
        }

-- The state that a later reading works on.
abbrev pub marked_state : Reading → HuntState → HuntState
marked_state r s = mark_floor r (record s { batch = start_batch r s.batch })

pub marked-InRange : (r : Reading) (s : HuntState) → InRange r (marked_state r s)
unfolding mark_floor
marked-InRange r s = record {
  least_le = (start_batch_bounds r s.batch).0;
  le_planned = (start_batch_bounds r s.batch).1;
  least_floor = ground arith;
}

later_reading-Moves :
    (r : Reading) (s : HuntState) (temp : ℕ)
    → let begun = record s { batch = start_batch r s.batch } in
      Moves r (marked_state r s) (later_reading r begun temp).0 (later_reading r begun temp).1
unfolding later_reading
later_reading-Moves r s temp = timed (
    by_if (λ (p : HuntState × Action). Moves r (marked_state r s) p.0 p.1) (is_cool r marked temp)
      (λ _. timeless (on_cool-Moves r marked range))
      (λ _.
        by_if (λ (p : HuntState × Action). Moves r (marked_state r s) p.0 p.1)
          (is_hot r marked temp) (λ _. timeless (on_hot-Moves r marked range))
          (λ _. record {
            least_le = range.least_le;
            le_planned = range.le_planned;
            does = refl;
            floor_grows = omega arith;
          })))
  where
    marked : HuntState
    marked = record (marked_state r s) { idle_ms = want_idle r temp }

    range : InRange r marked
    range = record {
      least_le = (marked-InRange r s).least_le;
      le_planned = (marked-InRange r s).le_planned;
      least_floor = (marked-InRange r s).least_floor;
    }

    timeless :
        {p : HuntState × Action} → Moves r marked p.0 p.1 → Moves r (marked_state r s) p.0 p.1
    timeless m = record {
      least_le = m.least_le;
      le_planned = m.le_planned;
      does = m.does;
      floor_grows = m.floor_grows;
    }

    timed :
        {p : HuntState × Action}
        → Moves r (marked_state r s) p.0 p.1
        → Moves r (marked_state r s) (record p.0 { last_temp = temp }) p.1
    timed m = record {
      least_le = m.least_le;
      le_planned = m.le_planned;
      does = m.does;
      floor_grows = m.floor_grows;
    }

or_batch-le : (floor batch : ℕ) → floor ≤ (if floor == 0 then batch else floor)
or_batch-le floor batch = ground arith

le_of_ltb : (n m : ℕ) → ltb n m ≡ true → n ≤ m
le_of_ltb n m e = ground (arith, e)

mark_floor-le : (r : Reading) (s : HuntState) → s.floor ≤ (mark_floor r s).floor
unfolding mark_floor
mark_floor-le r s =
    at_least (if s.floor == 0 then s.batch else s.floor) (or_batch-le s.floor s.batch)
  where
    at_least : (n : ℕ) → s.floor ≤ n → s.floor ≤ (if ltb n (least r) then least r else n)
    at_least n h =
        by_if (λ (m : ℕ). s.floor ≤ m) (ltb n (least r)) (λ e. le_trans h (le_of_ltb n (least r) e))
          (λ _. h)

-- Whatever the state and the readings are: the batch ends in the bounds, the result shows it, and the
-- floor never sinks. A hold leaves the batch that was brought into bounds; a cut lowers it to above the
-- floor, and a raise lifts it by one step at most, each only when the settle time since the last change
-- has passed, which the new time of change then notes.
pub hunt_thermal_scale_lem :
    (r : Reading) (s : HuntState)
    → let (t, res) = hunt_thermal_scale r s in
      (least r ≤ t.batch)
      × (t.batch ≤ planned r)
      × (res.batch ≡ t.batch)
      × (s.floor ≤ t.floor)
      × Does r (marked_state r s) t res.action
unfolding hunt_thermal_scale first_reading mark_floor
hunt_thermal_scale_lem r s =
    by_if P (s.last_adjust == 0)
      (λ _. (range.least_le, range.le_planned, refl, or_batch-le s.floor begun.batch, refl))
      (λ _. (later.least_le, later.le_planned, refl, rising_floor, later.does))
  where
    P : HuntState × HuntResult → Type 0
    P p =
        (least r ≤ p.0.batch)
        × (p.0.batch ≤ planned r)
        × (p.1.batch ≡ p.0.batch)
        × (s.floor ≤ p.0.floor)
        × Does r (marked_state r s) p.0 p.1.action

    begun : HuntState
    begun = record s { batch = start_batch r s.batch }

    temp : ℕ
    temp = steady_temp r begun (control r).0

    range : InRange r (marked_state r s)
    range = marked-InRange r s

    later : Moves r (marked_state r s) (later_reading r begun temp).0 (later_reading r begun temp).1
    later = later_reading-Moves r s temp

    rising_floor : s.floor ≤ (later_reading r begun temp).0.floor
    rising_floor = le_trans (mark_floor-le r begun) later.floor_grows
