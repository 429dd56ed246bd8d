-- ===== src/Config/Load/Limits.antt =====
-- What holds of the settings of src/config/settings.cpp whatever stands in the file.
use xnminer.Base.{
  ◌+◌, ◌/◌, ◌≡◌, refl, ℤ, pos, negsuc, ltb_ℤ, max_ℤ, ◌≤ℤ◌, ◌<ℤ◌, -ℤ_parts, eq_of_parts, Bool, true,
  false, not, ◌&&◌, ◌||◌, ◌⊎◌, inl, inr, if◌then◌else◌, arith, Bool-cases, Option, Text,
}
use xnminer.Supervisor.Hits.Kept.{by_if}
use xnminer.Config.Ini.{Ini}
use xnminer.Config.Load.{
  at_least, at_most, half, drain_seconds, resume_of, warn_of, load_server, load_mining,
  load_thermal, load_cpu, max_cuda_lanes, bool_at, int_at,
}

at_least_lem : (lo x : ℤ) → lo ≤ℤ at_least lo x
unfolding at_least
at_least_lem lo x = ground arith

clamped :
    (lo hi x : ℤ)
    → lo ≤ℤ hi
    → (lo ≤ℤ at_most hi (at_least lo x)) × (at_most hi (at_least lo x) ≤ℤ hi)
unfolding at_least at_most
clamped lo hi x h = ground arith

drain_seconds_lem : (x : ℤ) → (drain_seconds x ≡ pos 0) ⊎ (pos 5 ≤ℤ drain_seconds x)
unfolding drain_seconds
drain_seconds_lem x =
    elim (Bool-cases (ltb_ℤ (pos 0) (at_least (pos 0) x) && ltb_ℤ (at_least (pos 0) x) (pos 5))) [
      | inl e ↦ inr (rw e (omega arith))
      | inr e ↦ rw e (elim (Bool-cases (ltb_ℤ (pos 0) (at_least (pos 0) x))) [
        | inl k ↦ inr (ground (arith, e, k))
        | inr k ↦
            inl
              (eq_of_parts (at_least (pos 0) x) (pos 0) (ground (arith, k, at_least_lem (pos 0) x)))
      ])
    ]

half-le : (x : ℤ) → max_ℤ (pos 0) (half x) ≤ℤ max_ℤ (pos 0) x
unfolding half max_ℤ
half-le (pos n) = ground arith
half-le (negsuc n) = ground (arith, -ℤ_parts (pos 0) (pos ((n + 1) / 2)))

le-max : (n m : ℤ) → ltb_ℤ n m ≡ false → m ≤ℤ max_ℤ (pos 0) n
unfolding max_ℤ
le-max n m e = ground (arith, e)

resume_of_lem : (soft_cap resume : ℤ) → resume_of soft_cap resume ≤ℤ max_ℤ (pos 0) soft_cap
unfolding resume_of
resume_of_lem soft_cap resume =
    by_if (λ (z : ℤ). z ≤ℤ max_ℤ (pos 0) soft_cap) (ltb_ℤ soft_cap resume) (λ _. half-le soft_cap)
      (λ e. le-max soft_cap resume e)

warn_of_lem :
    (most warn : ℤ) → pos 50 ≤ℤ most → (pos 40 ≤ℤ warn_of most warn) × (warn_of most warn <ℤ most)
unfolding warn_of at_least max_ℤ
warn_of_lem most warn h = ground (arith, -ℤ_parts most (pos 4))

-- Whatever the file and the environment hold: the polls lie at least a second apart, and a poll that
-- failed is repeated at the same pace; the m= to force is not negative; a drain wants at least one row,
-- has no time limit or one of five seconds at least, and 4096 threads at most; XUNI goes on after a pause
-- at no more than the cap that paused it, or at 0; and where submitting is off, the drain is off and
-- every block is stored.
pub load_server-load_mining :
    (env : Option Text) (ini : Ini)
    → let s = load_server env ini in
      let m = load_mining ini in
      (pos 1 ≤ℤ s.network_poll_interval_s)
      × (s.network_down_poll_interval_s ≡ s.network_poll_interval_s)
      × (pos 1 ≤ℤ s.network_poll_timeout_s)
      × (pos 0 ≤ℤ m.force_mine_memory_cost)
      × (pos 1 ≤ℤ m.match_drain_min_queue)
      × ((m.match_drain_max_s ≡ pos 0) ⊎ (pos 5 ≤ℤ m.match_drain_max_s))
      × (m.match_drain_parallel ≤ℤ pos 4096)
      × (m.xuni_queue_resume ≤ℤ max_ℤ (pos 0) m.xuni_queue_soft_cap)
      × ((m.submit_enabled || (not m.match_drain_enabled && m.store_blocks)) ≡ true)
unfolding load_server load_mining
load_server-load_mining env ini = (
  at_least_lem (pos 1) (int_at ini "server" "network_poll_interval_s" (pos 1)),
  refl,
  at_least_lem (pos 1) (int_at ini "server" "network_poll_timeout_s" (pos 3)),
  at_least_lem (pos 0) (int_at ini "mining" "force_mine_memory_cost" (pos 0)),
  at_least_lem (pos 1) (int_at ini "mining" "match_drain_min_queue" (pos 1)),
  drain_seconds_lem (int_at ini "mining" "match_drain_max_s" (pos 0)),
  (clamped (pos 0) (pos 4096) (int_at ini "mining" "match_drain_parallel" (pos 512))
      (omega arith)).1,
  resume_of_lem (int_at ini "mining" "xuni_queue_soft_cap" (pos 100))
      (int_at ini "mining" "xuni_queue_resume" (pos 40)),
  off_stores (bool_at ini "mining" "submit_enabled" true)
      (bool_at ini "mining" "match_drain_enabled" true) (bool_at ini "queue" "store_blocks" false),
)
  where
    off_stores :
        (on drain store : Bool)
        → (on || (not (if on then drain else false) && (if on then store else true))) ≡ true
    off_stores true drain store = refl
    off_stores false drain store = refl

-- Whatever the file holds: the memory warning lies from 40 degrees to below the limit, a change of the
-- batch has at least one step and 5 to 180 seconds to settle, no count of cores is negative, and the
-- lanes, the key threads and the patches are in their ranges.
pub load_thermal-load_cpu :
    (ini : Ini)
    → let t = load_thermal ini in
      let c = load_cpu ini in
      (pos 40 ≤ℤ t.warn_mem_temp_c)
      × (t.warn_mem_temp_c <ℤ t.max_mem_temp_c)
      × (pos 1 ≤ℤ t.thermal_batch_step)
      × ((pos 5 ≤ℤ t.thermal_settle_s) × (t.thermal_settle_s ≤ℤ pos 180))
      × ((pos 0 ≤ℤ c.desktop_cpu_cores)
          × (pos 0 ≤ℤ c.bag_sort_cpu_cores)
          × (pos 0 ≤ℤ c.flush_cpu_cores)
          × (pos 0 ≤ℤ c.dashboard_cpu_cores))
      × ((pos 0 ≤ℤ c.cuda_max_lanes) × (c.cuda_max_lanes ≤ℤ max_cuda_lanes))
      × ((pos 0 ≤ℤ c.keygen_threads) × (c.keygen_threads ≤ℤ pos 16))
      × ((pos 2 ≤ℤ c.work_patches) × (c.work_patches ≤ℤ pos 3))
unfolding load_thermal load_cpu
load_thermal-load_cpu ini = (
  warns.0,
  warns.1,
  at_least_lem (pos 1) (int_at ini "efficiency" "thermal_batch_step" (pos 1)),
  clamped (pos 5) (pos 180) (int_at ini "efficiency" "thermal_settle_s" (pos 15)) (omega arith),
  (
    at_least_lem (pos 0) (int_at ini "queue" "desktop_cpu_cores" (pos 0)),
    at_least_lem (pos 0) (int_at ini "queue" "bag_sort_cpu_cores" (pos 0)),
    at_least_lem (pos 0) (int_at ini "queue" "flush_cpu_cores" (pos 6)),
    at_least_lem (pos 0) (int_at ini "queue" "dashboard_cpu_cores" (pos 0)),
  ),
  clamped (pos 0) max_cuda_lanes (int_at ini "cuda" "max_lanes" (pos 0)) (omega arith),
  clamped (pos 0) (pos 16) (int_at ini "cuda" "keygen_threads" (pos 12)) (omega arith),
  clamped (pos 2) (pos 3) (int_at ini "cuda" "work_patches" (pos 2)) (omega arith),
)
  where
    warns :
        (pos 40 ≤ℤ (load_thermal ini).warn_mem_temp_c)
        × ((load_thermal ini).warn_mem_temp_c <ℤ (load_thermal ini).max_mem_temp_c)
    warns =
        warn_of_lem (at_least (pos 50) (int_at ini "efficiency" "max_mem_temp_c" (pos 85)))
          (int_at ini "efficiency" "warn_mem_temp_c" (pos 81))
          (at_least_lem (pos 50) (int_at ini "efficiency" "max_mem_temp_c" (pos 85)))
