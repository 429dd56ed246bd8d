-- ===== src/Efficiency/Thermal/Climb.antt =====
-- While the card stays cool, `hunt_thermal_scale` (src/efficiency/thermal_policy.cpp) brings the batch up to
-- the planned one.
use native.Mathlib.Nat.{le_trans, le-add_right}
use xnminer.Base.{
  ℕ, suc, ◌+◌, ◌*◌, ◌≤◌, ◌<◌, ◌≡◌, refl, sym, ◌∙◌, ==_iff, Bool, true, false, not, ◌&&◌, ltb, leb,
  ◌==◌, arith, inl, inr, Bool-cases, ◌⊎◌, List, [], ◌∷◌, map, length,
}
use xnminer.Supervisor.Hits.Kept.{by_if}
use xnminer.Efficiency.Thermal.{
  HuntState, HuntResult, Action, Reading, settle, stride, planned, least, target, start_batch,
  mark_floor, bounded, apply, on_cool, later_reading, hunt_thermal_scale, control, steady_temp,
  rising, is_cool, want_idle,
}
use xnminer.Efficiency.Thermal.Steps.{marked_state, hunt_thermal_scale_lem}
use xnminer.Efficiency.Thermal.Runs.{hunt_all}

-- After a step from the batch `b`: as far up as the plan allows, at the same temperature.
record Climbed (r : Reading) (b : ℕ) (s t : HuntState) : Type 0 where
  up : (b + stride r ≤ t.batch) ⊎ (planned r ≤ t.batch)
  temp : t.last_temp ≡ s.last_temp
  started : 0 < t.last_adjust
  by_now : t.last_adjust ≤ r.now

bounded-up_or_planned :
    (r : Reading) (b : ℕ)
    → (b + stride r ≤ bounded r (b + stride r)) ⊎ (planned r ≤ bounded r (b + stride r))
unfolding bounded
bounded-up_or_planned r b = elim (Bool-cases (ltb (planned r) (b + stride r))) [
  | inl e ↦ inr (rw e (ground arith))
  | inr e ↦ inl (rw e (ground arith))
]

on_cool-Climbed :
    (r : Reading) (s : HuntState)
    → 0 < s.last_adjust
    → s.last_adjust + settle r ≤ r.now
    → let t = (on_cool r s).0 in
      ((s.batch + stride r ≤ t.batch) ⊎ (planned r ≤ t.batch))
      × (0 < t.last_adjust)
      × (t.last_adjust ≤ r.now)
unfolding on_cool apply
on_cool-Climbed r s started late =
    by_if P (ltb r.now (s.last_adjust + settle r)) (λ e. absurd (too_late _ _ late e))
      (λ _.
        by_if P (bounded r (s.batch + stride r) == s.batch)
          (λ same. (standing same, started, omega arith))
          (λ _. (bounded-up_or_planned r s.batch, omega arith, omega arith)))
  where
    P : HuntState × Action → Type 0
    P p =
        ((s.batch + stride r ≤ p.0.batch) ⊎ (planned r ≤ p.0.batch))
        × (0 < p.0.last_adjust)
        × (p.0.last_adjust ≤ r.now)

    too_late : (n m : ℕ) → m ≤ n → ltb n m ≡ true → ⊥
    too_late n m h e = ground (arith, h, e)

    standing :
        (bounded r (s.batch + stride r) == s.batch) ≡ true
        → (s.batch + stride r ≤ s.batch) ⊎ (planned r ≤ s.batch)
    standing same =
        rw ((==_iff (bounded r (s.batch + stride r)) s.batch).0 same) at
          (bounded-up_or_planned r s.batch)

steady_flat :
    (r : Reading) (s : HuntState) (temp : ℕ) → s.last_temp ≡ temp → steady_temp r s temp ≡ temp
unfolding steady_temp
steady_flat r s temp e =
    by_if (λ (n : ℕ). n ≡ temp)
      (leb (target r) s.last_temp && ltb 0 temp && leb (temp + 12) s.last_temp) (λ _. e) (λ _. refl)

cool_flat :
    (r : Reading) (s : HuntState) (temp : ℕ)
    → temp ≤ target r
    → s.last_temp ≡ temp
    → is_cool r s temp ≡ true
unfolding is_cool rising
cool_flat r s temp h e = low (target r) s.last_temp temp h e
  where
    low : (t n m : ℕ) → m ≤ t → n ≡ m → (leb m t && not (ltb 0 n && ltb n m)) ≡ true
    low t n m h e = ground arith

start_batch_id : (r : Reading) (b : ℕ) → least r ≤ b → b ≤ planned r → start_batch r b ≡ b
unfolding start_batch
start_batch_id r b lo hi = ground arith

moved_from : {a b : ℕ} (k p n : ℕ) → a ≡ b → (a + k ≤ n) ⊎ (p ≤ n) → (b + k ≤ n) ⊎ (p ≤ n)
moved_from k p n e (inl h) = inl (omega arith)
moved_from k p n e (inr h) = inr h

cool_step :
    (r : Reading) (s : HuntState)
    → least r ≤ s.batch
    → s.batch ≤ planned r
    → 0 < s.last_adjust
    → s.last_adjust + settle r ≤ r.now
    → (control r).0 ≤ target r
    → s.last_temp ≡ (control r).0
    → Climbed r s.batch s (hunt_thermal_scale r s).0
unfolding hunt_thermal_scale later_reading mark_floor
cool_step r s low fits started late cool flat =
    by_if (λ (p : HuntState × HuntResult). Climbed r s.batch s p.0) (s.last_adjust == 0)
      (λ e. absurd (positive s.last_adjust started e))
      (λ _.
        by_if (λ (p : HuntState × Action). Climbed r s.batch s (record p.0 { last_temp = temp }))
          (is_cool r marked temp) (λ _. climbed) (λ e. absurd (differ _ cooling e)))
  where
    positive : (n : ℕ) → 0 < n → (n == 0) ≡ true → ⊥
    positive n h e = ground (arith, h, e)

    differ : (b : Bool) → b ≡ true → b ≡ false → ⊥
    differ b e k = ground (arith, e, k)

    begun : HuntState
    begun = record s { batch = start_batch r s.batch }

    temp : ℕ
    temp = steady_temp r begun (control r).0

    marked : HuntState
    marked = record (marked_state r s) { idle_ms = want_idle r temp }

    same_temp : temp ≡ (control r).0
    same_temp = steady_flat r begun (control r).0 flat

    cooling : is_cool r marked temp ≡ true
    cooling = cool_flat r marked temp (rw same_temp cool) (flat ∙ sym same_temp)

    same : start_batch r s.batch ≡ s.batch
    same = start_batch_id r s.batch low fits

    climbed : Climbed r s.batch s (record (on_cool r marked).0 { last_temp = temp })
    climbed =
        let (up, go, by_now) = on_cool-Climbed r marked started late in
        record {
          up = moved_from (stride r) (planned r) _ same up;
          temp = same_temp ∙ sym flat;
          started = go;
          by_now = by_now;
        }

-- The same reading at later times.
abbrev pub at_times : Reading → List ℕ → List Reading
at_times r = map (λ t. record r { now = t })

-- Each time is at least `gap` after the one before it.
abbrev pub Spaced : ℕ → ℕ → List ℕ → Type 0
Spaced gap t [] = Unit {0}
Spaced gap t (u ∷ ts) = (t + gap ≤ u) × Spaced gap u ts

suc-mul_le : (n k b p c : ℕ) → p ≤ b + suc n * k → b + k ≤ c → p ≤ c + n * k
suc-mul_le n k b p c h e = grind arith

still_enough : (n k b p c : ℕ) → p ≤ b + suc n * k → (b + k ≤ c) ⊎ (p ≤ c) → p ≤ c + n * k
still_enough n k b p c h (inl e) = suc-mul_le n k b p c h e
still_enough n k b p c h (inr e) = le_trans e (le-add_right c (n * k))

Spaced-le : (gap t u : ℕ) (ts : List ℕ) → t ≤ u → Spaced gap u ts → Spaced gap t ts
Spaced-le gap t u [] h k = tt
Spaced-le gap t u (x ∷ ts) h k = (omega (arith, k.0), k.1)

-- A card that reads the same temperature, at the target or below it, at times that lie at least the settle
-- time apart: after so many readings that the steps from the first batch reach the planned one, the batch
-- is the planned one.
pub cool-hunt_all :
    (r : Reading) (ts : List ℕ) (s : HuntState)
    → least r ≤ s.batch
    → s.batch ≤ planned r
    → 0 < s.last_adjust
    → s.last_temp ≡ (control r).0
    → (control r).0 ≤ target r
    → Spaced (settle r) s.last_adjust ts
    → planned r ≤ s.batch + length ts * stride r
    → (hunt_all (at_times r ts) s).batch ≡ planned r
unfolding hunt_all control
cool-hunt_all r [] s low fits started flat cool spaced enough = omega arith
cool-hunt_all r (t ∷ ts) s low fits started flat cool spaced enough =
    cool-hunt_all r ts (hunt_thermal_scale (record r { now = t }) s).0 bounds.0 bounds.1
      step.started (step.temp ∙ flat) cool (Spaced-le (settle r) _ t ts step.by_now spaced.1)
      (still_enough (length ts) (stride r) s.batch (planned r)
        (hunt_thermal_scale (record r { now = t }) s).0.batch enough step.up)
  where
    step : Climbed (record r { now = t }) s.batch s (hunt_thermal_scale (record r { now = t }) s).0
    step = cool_step (record r { now = t }) s low fits started spaced.0 cool flat

    bounds :
        (least r ≤ (hunt_thermal_scale (record r { now = t }) s).0.batch)
        × ((hunt_thermal_scale (record r { now = t }) s).0.batch ≤ planned r)
    bounds = let all = hunt_thermal_scale_lem (record r { now = t }) s in (all.0, all.1)
