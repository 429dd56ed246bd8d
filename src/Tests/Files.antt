-- ===== src/Tests/Files.antt =====
-- The theorems on the settings file at concrete inputs.
use xnminer.Base.{
  ◌≡◌, refl, ◌&&◌, ◌||◌, not, true, pos, ◌≤ℤ◌, ◌<ℤ◌, max_ℤ, ◌⊎◌, none, some, Text, codes, text_eq,
  contains, starts_with, if◌then◌else◌, [], ◌∷◌, ◌++◌,
}
use xnminer.Config.Ini.{lower_case, find, parse_ini, set_ini_value}
use xnminer.Config.Ini.Plain.{Plain}
use xnminer.Config.Ini.SetLaws.{set_ini_value-find}
use xnminer.Config.Load.{load_server, load_mining, load_thermal, load_cpu, max_cuda_lanes}
use xnminer.Config.Load.Limits.{load_server-load_mining, load_thermal-load_cpu}

-- A file with a comment, a section and a key of it.
abbrev old_file : Text
old_file =
    codes "# miner" ++ (10 ∷ codes "[Account]" ++ (13 ∷ 10 ∷ codes "worker = old" ++ (10 ∷ [])))

new_worker-Plain : Plain (codes "account") (codes "worker") (codes "rig 7")
unfolding contains starts_with
new_worker-Plain = record {
  section_front = refl;
  section_back = refl;
  key_front = refl;
  key_back = refl;
  key_plain = refl;
  key_mark = refl;
  value_front = refl;
  value_back = refl;
  value_plain = refl;
  no_feeds = refl;
}

set_ini_value-find_example :
    find
      (codes "account")
      (codes "worker")
      (parse_ini (set_ini_value (codes "account") (codes "worker") (codes "rig 7") old_file))
    ≡ (if text_eq (lower_case (codes "account")) (codes "account")
          && text_eq (lower_case (codes "worker")) (codes "worker")
        then some (codes "rig 7")
        else find (codes "account") (codes "worker") (parse_ini old_file))
set_ini_value-find_example =
    set_ini_value-find (codes "account") (codes "worker") (codes "rig 7") old_file (codes "account")
      (codes "worker") new_worker-Plain

load_server-load_mining_example :
    let s = load_server none (parse_ini old_file) in
    let m = load_mining (parse_ini old_file) in
    (pos 1 ≤ℤ s.network_poll_interval_s)
    × (s.network_down_poll_interval_s ≡ s.network_poll_interval_s)
    × (pos 1 ≤ℤ s.network_poll_timeout_s)
    × (pos 0 ≤ℤ m.force_mine_memory_cost)
    × (pos 1 ≤ℤ m.match_drain_min_queue)
    × ((m.match_drain_max_s ≡ pos 0) ⊎ (pos 5 ≤ℤ m.match_drain_max_s))
    × (m.match_drain_parallel ≤ℤ pos 4096)
    × (m.xuni_queue_resume ≤ℤ max_ℤ (pos 0) m.xuni_queue_soft_cap)
    × ((m.submit_enabled || (not m.match_drain_enabled && m.store_blocks)) ≡ true)
load_server-load_mining_example = load_server-load_mining none (parse_ini old_file)

load_thermal-load_cpu_example :
    let t = load_thermal (parse_ini old_file) in
    let c = load_cpu (parse_ini old_file) in
    (pos 40 ≤ℤ t.warn_mem_temp_c)
    × (t.warn_mem_temp_c <ℤ t.max_mem_temp_c)
    × (pos 1 ≤ℤ t.thermal_batch_step)
    × ((pos 5 ≤ℤ t.thermal_settle_s) × (t.thermal_settle_s ≤ℤ pos 180))
    × ((pos 0 ≤ℤ c.desktop_cpu_cores)
        × (pos 0 ≤ℤ c.bag_sort_cpu_cores)
        × (pos 0 ≤ℤ c.flush_cpu_cores)
        × (pos 0 ≤ℤ c.dashboard_cpu_cores))
    × ((pos 0 ≤ℤ c.cuda_max_lanes) × (c.cuda_max_lanes ≤ℤ max_cuda_lanes))
    × ((pos 0 ≤ℤ c.keygen_threads) × (c.keygen_threads ≤ℤ pos 16))
    × ((pos 2 ≤ℤ c.work_patches) × (c.work_patches ≤ℤ pos 3))
load_thermal-load_cpu_example = load_thermal-load_cpu (parse_ini old_file)
