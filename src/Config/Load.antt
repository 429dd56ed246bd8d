-- ===== src/Config/Load.antt =====
-- `load_settings` of src/config/settings.cpp: the numbers, switches and texts that it reads from the file,
-- and how it corrects them. The paths and the settings that are doubles are left out.
use Prim.Native.String.{String}
use xnminer.Base.{
  ℕ, ◌+◌, ◌/◌, ℤ, pos, negsuc, ltb_ℤ, leb_ℤ, eqb_ℤ, max_ℤ, ◌-ℤ◌, Bool, true, false, not, ◌&&◌, ◌||◌,
  Option, none, some, [], Text, codes, is_empty, contains, trim, if◌then◌else◌,
}
use xnminer.Config.Ini.{Ini, lower_case, get, get_i, get_b, parse_ini}
pub mod Limits

abbrev pub max_cuda_lanes : ℤ
max_cuda_lanes = pos 32

-- `if (x < lo) x = lo;` and `if (x > hi) x = hi;`
unfoldable pub at_least : ℤ → ℤ → ℤ
at_least lo x = if ltb_ℤ x lo then lo else x

unfoldable pub at_most : ℤ → ℤ → ℤ
at_most hi x = if ltb_ℤ hi x then hi else x

-- `x / 2`, which goes towards 0.
unfoldable pub half : ℤ → ℤ
half (pos n) = pos (n / 2)
half (negsuc n) = pos 0 -ℤ pos ((n + 1) / 2)

abbrev pub text_at : Ini → String → String → Text → Text
text_at ini sec key def = trim (get ini (codes sec) (codes key) def)

abbrev pub int_at : Ini → String → String → ℤ → ℤ
int_at ini sec key def = get_i ini (codes sec) (codes key) def

abbrev pub bool_at : Ini → String → String → Bool → Bool
bool_at ini sec key def = get_b ini (codes sec) (codes key) def

pub record ServerSettings : Type 0 where
  pub address : Text
  pub worker : Text
  pub dev_fee : Bool
  pub base_url : Text
  pub connection_timeout_s : ℤ
  pub verify_proxy : Text
  pub verify_warp_socks : Bool
  pub network_poll_interval_s : ℤ
  pub network_poll_timeout_s : ℤ
  pub network_down_poll_interval_s : ℤ

abbrev pub over_env : Text → Option Text → Text
over_env proxy none = proxy
over_env proxy (some env) = if is_empty (trim env) then proxy else trim env

-- A proxy that is the local WARP is dropped where that is off.
unfoldable pub proxy_of : Bool → Text → Text
proxy_of warp p =
    if not warp && (contains p (codes "127.0.0.1:40000") || contains p (codes "localhost:40000"))
    then []
    else p

-- `env` is the environment's VERIFY_PROXY.
unfoldable pub load_server : Option Text → Ini → ServerSettings
unfolding at_least proxy_of
load_server env ini =
    let fee_text = get ini (codes "account") (codes "dev_fee") [] in
    let poll = at_least (pos 1) (int_at ini "server" "network_poll_interval_s" (pos 1)) in
    record {
      address = text_at ini "account" "address" [];
      worker = text_at ini "account" "worker" [];
      dev_fee =
          if is_empty fee_text && eqb_ℤ (int_at ini "account" "dev_fee_pct" (negsuc 0)) (pos 0)
          then false
          else bool_at ini "account" "dev_fee" true;
      base_url = text_at ini "server" "base_url" (codes "http://xenblocks.io");
      connection_timeout_s = int_at ini "server" "connection_timeout_s" (pos 20);
      verify_proxy =
          proxy_of (bool_at ini "server" "verify_warp_socks" false)
            (over_env (text_at ini "server" "verify_proxy" []) env);
      verify_warp_socks = bool_at ini "server" "verify_warp_socks" false;
      network_poll_interval_s = poll;
      network_poll_timeout_s =
          at_least (pos 1) (int_at ini "server" "network_poll_timeout_s" (pos 3));
      network_down_poll_interval_s = poll;
    }

pub record MiningSettings : Type 0 where
  pub strategy : Text
  pub memory_cost : ℤ
  pub time_cost : ℤ
  pub parallelism : ℤ
  pub hash_len : ℤ
  pub force_mine_memory_cost : ℤ
  pub submit_enabled : Bool
  pub store_blocks : Bool
  pub match_drain_enabled : Bool
  pub match_drain_min_queue : ℤ
  pub match_drain_max_s : ℤ
  pub match_drain_parallel : ℤ
  pub match_drain_batch : ℤ
  pub xuni_mining_enabled : Bool
  pub xuni_queue_soft_cap : ℤ
  pub xuni_queue_resume : ℤ
  pub xuni_every_n_batches : ℤ
  pub xuni_max_lanes : ℤ

-- 0 stays, and what is below 5 becomes 5.
unfoldable pub drain_seconds : ℤ → ℤ
drain_seconds x =
    let s = at_least (pos 0) x in if ltb_ℤ (pos 0) s && ltb_ℤ s (pos 5) then pos 5 else s

unfoldable pub resume_of : ℤ → ℤ → ℤ
unfolding half
resume_of soft_cap resume = if ltb_ℤ soft_cap resume then max_ℤ (pos 0) (half soft_cap) else resume

unfoldable pub load_mining : Ini → MiningSettings
unfolding at_least at_most drain_seconds resume_of
load_mining ini =
    let submit = bool_at ini "mining" "submit_enabled" true in
    let xuni = bool_at ini "mining" "xuni_mining_enabled" true in
    let soft_cap = int_at ini "mining" "xuni_queue_soft_cap" (pos 100) in
    record {
      strategy = lower_case (text_at ini "mining" "strategy" (codes "random"));
      memory_cost = int_at ini "mining" "memory_cost" (pos 1100);
      time_cost = int_at ini "mining" "time_cost" (pos 1);
      parallelism = int_at ini "mining" "parallelism" (pos 1);
      hash_len = int_at ini "mining" "hash_len" (pos 64);
      force_mine_memory_cost =
          at_least (pos 0) (int_at ini "mining" "force_mine_memory_cost" (pos 0));
      submit_enabled = submit;
      store_blocks = if submit then bool_at ini "queue" "store_blocks" false else true;
      match_drain_enabled =
          if submit then bool_at ini "mining" "match_drain_enabled" true else false;
      match_drain_min_queue =
          at_least (pos 1) (int_at ini "mining" "match_drain_min_queue" (pos 1));
      match_drain_max_s = drain_seconds (int_at ini "mining" "match_drain_max_s" (pos 0));
      match_drain_parallel =
          at_most (pos 4096)
            (at_least (pos 0) (int_at ini "mining" "match_drain_parallel" (pos 512)));
      match_drain_batch = int_at ini "mining" "match_drain_batch" (pos 512);
      xuni_mining_enabled = xuni;
      xuni_queue_soft_cap = soft_cap;
      xuni_queue_resume = resume_of soft_cap (int_at ini "mining" "xuni_queue_resume" (pos 40));
      xuni_every_n_batches = at_least (pos 1) (int_at ini "mining" "xuni_every_n_batches" (pos 3));
      xuni_max_lanes =
          if xuni then at_least (pos 0) (int_at ini "mining" "xuni_max_lanes" (pos 2)) else pos 0;
    }

pub record ThermalSettings : Type 0 where
  pub max_gpu_temp_c : ℤ
  pub warn_gpu_temp_c : ℤ
  pub max_mem_temp_c : ℤ
  pub warn_mem_temp_c : ℤ
  pub thermal_use_memory_junction : Bool
  pub thermal_batch_step : ℤ
  pub thermal_settle_s : ℤ

-- The warning lies below the limit.
unfoldable pub warn_of : ℤ → ℤ → ℤ
warn_of most warn =
    let w = at_least (pos 40) warn in if leb_ℤ most w then max_ℤ (pos 40) (most -ℤ pos 4) else w

unfoldable pub load_thermal : Ini → ThermalSettings
unfolding at_least at_most warn_of
load_thermal ini =
    let max_mem = at_least (pos 50) (int_at ini "efficiency" "max_mem_temp_c" (pos 85)) in
    record {
      max_gpu_temp_c = int_at ini "efficiency" "max_gpu_temp_c" (pos 85);
      warn_gpu_temp_c = int_at ini "efficiency" "warn_gpu_temp_c" (pos 75);
      max_mem_temp_c = max_mem;
      warn_mem_temp_c = warn_of max_mem (int_at ini "efficiency" "warn_mem_temp_c" (pos 81));
      thermal_use_memory_junction = bool_at ini "efficiency" "thermal_use_memory_junction" true;
      thermal_batch_step = at_least (pos 1) (int_at ini "efficiency" "thermal_batch_step" (pos 1));
      thermal_settle_s =
          at_most (pos 180)
            (at_least (pos 5) (int_at ini "efficiency" "thermal_settle_s" (pos 15)));
    }

pub record CpuSettings : Type 0 where
  pub desktop_cpu_cores : ℤ
  pub bag_sort_cpu_cores : ℤ
  pub flush_cpu_cores : ℤ
  pub dashboard_cpu_cores : ℤ
  pub cuda_max_lanes : ℤ
  pub cuda_lane_reserve : ℤ
  pub keygen_threads : ℤ
  pub work_patches : ℤ

unfoldable pub load_cpu : Ini → CpuSettings
unfolding at_least at_most
load_cpu ini = record {
  desktop_cpu_cores = at_least (pos 0) (int_at ini "queue" "desktop_cpu_cores" (pos 0));
  bag_sort_cpu_cores = at_least (pos 0) (int_at ini "queue" "bag_sort_cpu_cores" (pos 0));
  flush_cpu_cores = at_least (pos 0) (int_at ini "queue" "flush_cpu_cores" (pos 6));
  dashboard_cpu_cores = at_least (pos 0) (int_at ini "queue" "dashboard_cpu_cores" (pos 0));
  cuda_max_lanes =
      at_most max_cuda_lanes (at_least (pos 0) (int_at ini "cuda" "max_lanes" (pos 0)));
  cuda_lane_reserve = int_at ini "cuda" "lane_reserve" (pos 1);
  keygen_threads =
      at_most (pos 16) (at_least (pos 0) (int_at ini "cuda" "keygen_threads" (pos 12)));
  work_patches = at_most (pos 3) (at_least (pos 2) (int_at ini "cuda" "work_patches" (pos 2)));
}
