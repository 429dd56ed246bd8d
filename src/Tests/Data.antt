-- ===== src/Tests/Data.antt =====
-- The blocks, stores and settings of the tests.
use xnminer.Base.{pos, true, false, none, some, [], ◌∷◌, Text, codes}
use xnminer.Common.{BlockHit}
use xnminer.Common.Stats.{Kinds}
use xnminer.Store.Json.{Casts, hit_to_json}
use xnminer.Store.Defs.{Store, DbFile, PendingBlock, QueueLine}
use xnminer.Supervisor.State.{Settings, World, Sup}

abbrev pub encoded_100 : Text
encoded_100 = codes "$argon2id$v=19$m=100,t=1,p=1$c2FsdA$abXEN11cd"

abbrev pub key_64 : Text
key_64 = codes "0123456789abcdef0123456789abcdef0123456789abcdef0123456789abcdef"

abbrev pub hit_of : Text → Text → BlockHit
hit_of hash kind = record {
  key = key_64;
  hash_str = hash;
  block_type = kind;
  attempts = pos 7;
  strategy = [];
  hps = 0;
  found_at = [];
  memory_cost = some (pos 100);
  payout_account = [];
  salt_hex = codes "24";
  fee_block = false;
}

abbrev pub hit_a : BlockHit
hit_a = hit_of (codes "aa") (codes "XNM")

abbrev pub hit_b : BlockHit
hit_b = hit_of (codes "bb") (codes "XUNI")

abbrev pub hit_encoded : BlockHit
hit_encoded = hit_of encoded_100 (codes "XNM")

abbrev pub row_a : PendingBlock
row_a = record {
  id = 1;
  hit = hit_a;
  queue_reason = codes "network_down";
  reject_count = pos 0;
  forwarded = false;
}

abbrev pub row_b : PendingBlock
row_b = record row_a { id = 2; hit = hit_b }

abbrev pub no_rows : Store
no_rows = record {
  pending = [];
  hash_index = [];
  next_id = 1;
  dirty_ops = 0;
  db = DbFile.rows 1 [];
  jsonl = [];
  rejected = [];
}

abbrev pub two_rows : Store
two_rows = record no_rows {
  pending = row_b ∷ row_a ∷ [];
  hash_index = codes "aa" ∷ codes "bb" ∷ [];
  next_id = 3;
  dirty_ops = 2;
}

-- Casts that serve where no double stands for a whole number or the other way round.
abbrev pub casts : Casts
casts = record { int_of_double = λ r. pos 0; double_of_int = λ n. 0 }

abbrev pub line_a : QueueLine
line_a = record { id = some 4; hit = hit_to_json hit_a; queue_reason = []; reject_count = pos 0 }

abbrev pub bags : Settings
bags = record {
  force_mine_memory_cost = pos 100;
  memory_cost = pos 100;
  time_cost = pos 1;
  parallelism = pos 1;
  salt_hex = codes "24";
  submit_enabled = true;
  store_blocks = true;
  xuni_mining_enabled = true;
  match_drain_enabled = true;
  match_drain_min_queue = 1;
  match_drain_max_ms = 9000;
  match_drain_batch = 0;
  sample_interval_ms = 1000;
  network_down_poll_interval_ms = 5000;
}

abbrev pub zero_kinds : Kinds
zero_kinds = record { xuni = 0; xnm = 0; xblk = 0 }

-- A pool that asks for m=100 and accepts every block.
abbrev pub up : World
up = record {
  now = 50000;
  minute = 57;
  poll = record { ok = true; difficulty = some (pos 100); error = []; seq = 1 };
  probe_ok = true;
  answer = λ hit. record { ok = true; status = pos 200; body = [] };
  engine_m = pos 100;
  base64_encode = λ bytes. codes "JA";
}

-- A pool that answers no more.
abbrev pub down : World
down = record up {
  now = 90000;
  poll = record { ok = false; difficulty = none; error = codes "no response"; seq = 2 };
  probe_ok = false;
  answer = λ hit. record { ok = false; status = pos 0; body = [] };
}

abbrev pub idle : Sup
idle = record {
  store = no_rows;
  stats = record {
    session_hits = 0;
    active_lanes = 0;
    found = zero_kinds;
    enqueued = zero_kinds;
    accepted_live = zero_kinds;
    accepted_flush = zero_kinds;
    rejected_live = zero_kinds;
    rejected_flush = zero_kinds;
    resubmission = zero_kinds;
    queued = 0;
  };
  live_submit_q = [];
  shutting_down = false;
  network_ok = false;
  difficulty_stale = false;
  network_difficulty = none;
  last_difficulty_ok_at = 0;
  difficulty_fail_streak = 0;
  last_poll_seq = 0;
  defer_submit_until = 0;
  submit_backoff_until = 0;
  verify_alive = false;
  verify_probe_at = 0;
  match_drain_active = false;
  match_drain_until = 0;
  match_drain_start_queue = 0;
  match_drain_flushed = 0;
  match_drain_cleared = 0;
  flush_skip_before_id = 0;
  last_queue_flush = 0;
  last_xuni_flush = 0;
  was_in_xuni_window = false;
  posts = [];
}

-- One hit waits in the live queue, two blocks in the bag.
abbrev pub busy : Sup
busy = record idle {
  store = two_rows;
  live_submit_q = record { hit = hit_encoded; kind = codes "XNM" } ∷ [];
  network_difficulty = some (pos 100);
  network_ok = true;
}
