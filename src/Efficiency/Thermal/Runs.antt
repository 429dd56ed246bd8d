-- ===== src/Efficiency/Thermal/Runs.antt =====
-- Sequences of readings of `hunt_thermal_scale` (src/efficiency/thermal_policy.cpp): the way up while the
-- card is cool, and how low the batch can go from then on.
use xnminer.Base.{
  ℕ, ◌+◌, ◌≤◌, ◌<◌, ◌≡◌, refl, Bool, true, false, ◌||◌, ltb, leb, ◌==◌, arith, List, [], ◌∷◌, All,
}
use native.Mathlib.Nat.{le_trans}
use xnminer.Supervisor.Hits.Kept.{by_if}
use xnminer.Efficiency.Thermal.{
  HuntState, HuntResult, Action, hold, cut, raise, Reading, settle, stride, planned, least, target,
  cap, start_batch, mark_floor, apply, drop_to, raise_floor, on_hot, later_reading,
  hunt_thermal_scale, control, steady_temp, is_cool, is_hot, want_idle,
}
use xnminer.Efficiency.Thermal.Steps.{Does, marked_state, hunt_thermal_scale_lem}

unfoldable pub hunt_all : List Reading → HuntState → HuntState
hunt_all [] s = s
hunt_all (r ∷ rs) s = hunt_all rs (hunt_thermal_scale r s).0

-- The batch and the floor are at least `b`.
abbrev AtLeast : ℕ → HuntState → Type 0
AtLeast b s = (b ≤ s.batch) × (b ≤ s.floor)

start_batch-AtLeast : (r : Reading) (b n : ℕ) → b ≤ n → b ≤ planned r → b ≤ start_batch r n
unfolding start_batch
start_batch-AtLeast r b n h k = ground arith

Does-AtLeast :
    (r : Reading) (b : ℕ) (s t : HuntState) (a : Action)
    → b ≤ planned r
    → AtLeast b s
    → Does r (marked_state r s) t a
    → b ≤ t.batch
unfolding mark_floor
Does-AtLeast r b s t hold h k d = rw d (start_batch-AtLeast r b s.batch k.0 h)
Does-AtLeast r b s t cut h k d = ground (arith, d.0, start_batch-AtLeast r b s.batch k.0 h)
Does-AtLeast r b s t raise h k d = ground (arith, d.0, start_batch-AtLeast r b s.batch k.0 h)

hunt_all-AtLeast :
    (b : ℕ) (rs : List Reading) (s : HuntState)
    → All (λ r. b ≤ planned r) rs
    → AtLeast b s
    → AtLeast b (hunt_all rs s)
unfolding hunt_all
hunt_all-AtLeast b [] s a k = k
hunt_all-AtLeast b (r ∷ rs) s a k = hunt_all-AtLeast b rs (hunt_thermal_scale r s).0 a.1 (
  Does-AtLeast r b s (hunt_thermal_scale r s).0 (hunt_thermal_scale r s).1.action a.0 k step.4,
  omega (arith, step.3, k.1),
)
  where
    step :
        let (t, res) = hunt_thermal_scale r s in
        (least r ≤ t.batch)
        × (t.batch ≤ planned r)
        × (res.batch ≡ t.batch)
        × (s.floor ≤ t.floor)
        × Does r (marked_state r s) t res.action
    step = hunt_thermal_scale_lem r s

steady_temp-le : (r : Reading) (s : HuntState) (temp : ℕ) → temp ≤ steady_temp r s temp
unfolding steady_temp
steady_temp-le r s temp = ground arith

drop_to-lt :
    (r : Reading) (s : HuntState)
    → least r ≤ s.floor
    → s.floor + stride r < s.batch
    → drop_to r s < s.batch
unfolding drop_to
drop_to-lt r s h k = ground arith

-- A hot reading that comes before the last change has settled moves nothing but the floor, up to the
-- batch.
on_hot-early :
    (r : Reading) (s : HuntState)
    → least r ≤ s.floor
    → s.floor + stride r < s.batch
    → r.now < s.last_adjust + settle r
    → ((on_hot r s).0.batch ≡ s.batch) × ((on_hot r s).0.floor ≡ s.batch)
unfolding on_hot apply raise_floor
on_hot-early r s low room early = rw (moved, soon, above) (refl, refl)
  where
    moved : (drop_to r (record s { consecutive_cool = 0 }) == s.batch) ≡ false
    moved = ground (arith, drop_to-lt r (record s { consecutive_cool = 0 }) low room)

    soon : ltb r.now (s.last_adjust + settle r) ≡ true
    soon = ground arith

    above : ltb s.floor s.batch ≡ true
    above = ground arith

marked_same :
    (r : Reading) (s : HuntState)
    → least r ≤ s.floor
    → s.floor ≤ s.batch
    → s.batch ≤ planned r
    → (start_batch r s.batch ≡ s.batch) × ((marked_state r s).floor ≡ s.floor)
unfolding mark_floor start_batch
marked_same r s low mid hi = (ground arith, ground arith)

above-leb : (n m : ℕ) → n + 2 ≤ m → leb m n ≡ false
above-leb n m h = ground arith

le_leb : (n m : ℕ) → n ≤ m → leb n m ≡ true
le_leb n m h = ground arith

hot_now :
    (r : Reading) (s : HuntState) (temp : ℕ)
    → target r + 2 ≤ temp
    → (is_cool r s temp ≡ false) × (is_hot r s temp ≡ true)
unfolding is_cool is_hot
hot_now r s temp h = (
  rw (above-leb (target r) temp h) refl,
  rw (le_leb (target r + 2) temp h) (either (leb (cap r) temp) _),
)
  where
    either : (b c : Bool) → (b || true || c) ≡ true
    either b c = ground arith

early_hot-AtLeast :
    (r : Reading) (s : HuntState)
    → least r ≤ s.floor
    → s.floor + stride r < s.batch
    → s.batch ≤ planned r
    → 0 < s.last_adjust
    → r.now < s.last_adjust + settle r
    → target r + 2 ≤ (control r).0
    → AtLeast s.batch (hunt_thermal_scale r s).0
unfolding hunt_thermal_scale later_reading
early_hot-AtLeast r s low room fits started early hot =
    by_if (λ (p : HuntState × HuntResult). AtLeast s.batch p.0) (s.last_adjust == 0)
      (λ e. absurd (positive s.last_adjust started e))
      (λ _.
        by_if (λ (p : HuntState × Action). AtLeast s.batch (record p.0 { last_temp = temp }))
          (is_cool r marked temp) (λ e. absurd (differ _ e now.0))
          (λ _.
            by_if (λ (p : HuntState × Action). AtLeast s.batch (record p.0 { last_temp = temp }))
              (is_hot r marked temp) (λ _. lifted) (λ e. absurd (differ _ now.1 e))))
  where
    positive : (n : ℕ) → 0 < n → (n == 0) ≡ true → ⊥
    positive n h e = ground (arith, h, e)

    differ : (b : Bool) → b ≡ true → b ≡ false → ⊥
    differ b e k = ground (arith, e, k)

    begun : HuntState
    begun = record s { batch = start_batch r s.batch }

    temp : ℕ
    temp = steady_temp r begun (control r).0

    marked : HuntState
    marked = record (marked_state r s) { idle_ms = want_idle r temp }

    now : (is_cool r marked temp ≡ false) × (is_hot r marked temp ≡ true)
    now = hot_now r marked temp (le_trans hot (steady_temp-le r begun (control r).0))

    below : (k n m : ℕ) → n + k < m → n ≤ m
    below k n m h = omega arith

    same : (start_batch r s.batch ≡ s.batch) × ((marked_state r s).floor ≡ s.floor)
    same = marked_same r s low (below (stride r) s.floor s.batch room) fits

    moved : ((on_hot r marked).0.batch ≡ marked.batch) × ((on_hot r marked).0.floor ≡ marked.batch)
    moved =
        on_hot-early r marked (omega (arith, same.1, low)) (omega (arith, same.0, same.1, room))
          early

    lifted : AtLeast s.batch (on_hot r marked).0
    lifted = (omega (arith, moved.0, same.0), omega (arith, moved.1, same.0))

-- A reading two degrees above the target or more that comes before the last change has settled, with the
-- batch in bounds and more than a step above the floor, bars every later way below that batch: whatever
-- the readings after it are, the batch stays at least where it is, as long as the planned batch is not
-- below it. A raise that follows may still be taken back.
pub early_hot-hunt_all :
    (r : Reading) (s : HuntState) (rs : List Reading)
    → least r ≤ s.floor
    → s.floor + stride r < s.batch
    → s.batch ≤ planned r
    → 0 < s.last_adjust
    → r.now < s.last_adjust + settle r
    → target r + 2 ≤ (control r).0
    → All (λ q. s.batch ≤ planned q) rs
    → s.batch ≤ (hunt_all rs (hunt_thermal_scale r s).0).batch
early_hot-hunt_all r s rs low room fits started early hot a =
    (hunt_all-AtLeast s.batch rs (hunt_thermal_scale r s).0 a
      (early_hot-AtLeast r s low room fits started early hot)).0
