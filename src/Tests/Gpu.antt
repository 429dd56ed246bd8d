-- ===== src/Tests/Gpu.antt =====
-- The theorems on the GPU's policies at concrete inputs.
use xnminer.Base.{◌≡◌, refl, ◌≤◌, true, [], ◌∷◌, arith}
use xnminer.Efficiency.Thermal.{Reading, HuntState, hunt_thermal_scale, least, planned, control}
use xnminer.Efficiency.Thermal.Steps.{Does, marked_state, hunt_thermal_scale_lem}
use xnminer.Efficiency.Thermal.Runs.{hunt_all, early_hot-hunt_all}
use xnminer.Efficiency.Thermal.Climb.{at_times, cool-hunt_all}

-- A card of 28000 jobs, in steps of 1000, held at 81 degrees.
abbrev cool_card : Reading
cool_card = record {
  gpu_c = 60;
  mem_c = 78;
  use_mem = true;
  target_c = 81;
  cap_c = 85;
  gpu_cap_c = 85;
  planned_batch = 28000;
  batch_step = 1000;
  min_batch = 4000;
  now = 90000;
  cut_settle = 15000;
}

abbrev hot_card : Reading
hot_card = record cool_card { mem_c = 84 }

abbrev running : HuntState
running = record {
  batch = 24000;
  last_adjust = 80000;
  last_temp = 78;
  consecutive_cool = 0;
  idle_ms = 0;
  floor = 20000;
  last_ok = 24000;
}

hunt_thermal_scale_lem_example :
    let (t, res) = hunt_thermal_scale hot_card running in
    (least hot_card ≤ t.batch)
    × (t.batch ≤ planned hot_card)
    × (res.batch ≡ t.batch)
    × (running.floor ≤ t.floor)
    × Does hot_card (marked_state hot_card running) t res.action
hunt_thermal_scale_lem_example = hunt_thermal_scale_lem hot_card running

-- A hot reading 10 s after the last change, and then one that is hotter and late enough for a cut.
early_hot-hunt_all_example :
    24000
    ≤ (hunt_all
        (record hot_card { mem_c = 90; now = 200000 } ∷ [])
        (hunt_thermal_scale hot_card running).0).batch
unfolding control
early_hot-hunt_all_example =
    early_hot-hunt_all hot_card running (record hot_card { mem_c = 90; now = 200000 } ∷ [])
      (omega arith) (omega arith) (omega arith) (omega arith) (omega arith) (omega arith)
      (omega arith, tt)

cool-hunt_all_example :
    (hunt_all (at_times cool_card (95000 ∷ 110000 ∷ 125000 ∷ 140000 ∷ [])) running).batch ≡ 28000
unfolding control
cool-hunt_all_example =
    cool-hunt_all cool_card (95000 ∷ 110000 ∷ 125000 ∷ 140000 ∷ []) running (omega arith)
      (omega arith) (omega arith) refl (omega arith)
      (omega arith, (omega arith, (omega arith, (omega arith, tt)))) (omega arith)
