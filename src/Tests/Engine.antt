-- ===== src/Tests/Engine.antt =====
-- The theorems on the engine's batches at concrete inputs.
use xnminer.Base.{
  ◌+◌, ◌*◌, ◌≤◌, ◌<◌, ℕ, pos, ◌≡◌, refl, true, false, List, [], ◌∷◌, codes, All, ltb, max_ℤ,
  text_eq, starts_with, arith,
}
use xnminer.Policy.{in_xuni_window}
use xnminer.Config.Load.{ServerSettings, MiningSettings}
use xnminer.Mining.Engine.{
  Engine, every, compute_allow_xuni_base, same_address, salt_hex_from_address,
}
use xnminer.Mining.Engine.Batch.{Match, HashApiResult, mine_batch}
use xnminer.Mining.Engine.Fees.{Round, mine_all, fee_count, user_count, hits_of}
use xnminer.Mining.Engine.Share.{mine_all-fees}
use xnminer.Mining.Engine.Payout.{Paid, mine_batch-Paid}
use xnminer.Mining.Engine.Windows.{asked, asked-allows, Report, ask_all, ask_all-full}
use xnminer.Tests.Data.{encoded_100, key_64}

abbrev server : ServerSettings
server = record {
  address = codes "0xab12";
  worker = [];
  dev_fee = true;
  base_url = [];
  connection_timeout_s = pos 20;
  verify_proxy = [];
  verify_warp_socks = false;
  network_poll_interval_s = pos 1;
  network_poll_timeout_s = pos 3;
  network_down_poll_interval_s = pos 1;
}

abbrev mining : MiningSettings
mining = record {
  strategy = codes "random";
  memory_cost = pos 1100;
  time_cost = pos 1;
  parallelism = pos 1;
  hash_len = pos 64;
  force_mine_memory_cost = pos 0;
  submit_enabled = true;
  store_blocks = true;
  match_drain_enabled = true;
  match_drain_min_queue = pos 1;
  match_drain_max_s = pos 0;
  match_drain_parallel = pos 512;
  match_drain_batch = pos 512;
  xuni_mining_enabled = true;
  xuni_queue_soft_cap = pos 100;
  xuni_queue_resume = pos 40;
  xuni_every_n_batches = pos 3;
  xuni_max_lanes = pos 2;
}

abbrev engine : Engine
engine = record {
  difficulty = pos 100;
  pending_xuni = pos 0;
  pending_xnm = pos 0;
  pending_xblk = pos 0;
  batch_seq = 4;
  xuni_queue_paused = false;
  last_allow_xuni = false;
  mining_fee = false;
  user_finds_in_cycle = 0;
  fee_finds_in_cycle = 0;
  active_payout = [];
  active_salt = [];
  last_hashrate = 0;
}

abbrev found : Match
found = record { key = key_64; hash = encoded_100; matched_pattern = codes "XEN11" }

abbrev answer : HashApiResult
answer = record { ok = true; error = []; attempts = 50; hashrate = 7; matches = found ∷ [] }

abbrev failed : HashApiResult
failed = record { ok = false; error = []; attempts = 0; hashrate = 0; matches = [] }

abbrev rounds : List Round
rounds =
    record { ready = true; minute = 30; now = []; results = answer ∷ [] }
    ∷ record { ready = true; minute = 31; now = []; results = failed ∷ answer ∷ [] }
    ∷ record { ready = true; minute = 57; now = []; results = answer ∷ [] }
    ∷ []

-- Doubles that are whole numbers, as their own bit patterns.
abbrev add_whole : ℕ → ℕ → ℕ
add_whole a b = a + b

mine_all-fees_example :
    let hits = (mine_all add_whole (ltb 0) server mining rounds engine).0 in
    (99 * fee_count hits ≤ 1 * user_count hits)
    × (user_count hits ≤ (98 + 1) * (fee_count hits + 1))
unfolding same_address salt_hex_from_address starts_with text_eq
mine_all-fees_example =
    mine_all-fees add_whole (ltb 0) server mining 1 rounds engine refl refl
      (omega arith, (omega arith, (omega arith, tt))) (refl, refl, refl)

mine_batch-Paid_example :
    All
      (λ h. Paid server h.fee_block h.payout_account h.salt_hex)
      (hits_of
        (mine_batch add_whole (ltb 0) server mining true 57 [] (answer ∷ answer ∷ []) engine).0)
mine_batch-Paid_example =
    mine_batch-Paid add_whole (ltb 0) server mining true 57 [] (answer ∷ answer ∷ []) engine

asked-allows_example :
    (n : ℕ) × (n < every mining 58)
    × ((compute_allow_xuni_base mining 58 (asked n mining 58 engine)).0 ≡ true)
unfolding in_xuni_window max_ℤ
asked-allows_example = asked-allows mining 58 engine (refl, refl, refl, refl, refl)

abbrev reported : ℕ → Report
reported n = record { minute = 58; xuni = pos n; xnm = pos 3; xblk = pos 0 }

ask_all-full_example :
    All (λ b. b ≡ false) (ask_all mining (reported 100 ∷ reported 80 ∷ reported 41 ∷ []) engine)
unfolding in_xuni_window max_ℤ
ask_all-full_example =
    ask_all-full mining (reported 100) (reported 80 ∷ reported 41 ∷ []) engine refl refl refl
      ((refl, refl), ((refl, refl), tt))
