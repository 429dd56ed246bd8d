-- ===== src/Lib.antt =====
-- Verification of XNMiner's submit side, the way of a block from the GPU engine's hit to the pool's answer
-- and the bag on disk in which it waits when it cannot be sent, with the engine's payout and XUNI rules,
-- the thermal hold of the GPU and the settings file.
--
-- The program. `Supervisor` (src/app/supervisor.cpp) runs a mining thread, which takes the hits of the CUDA
-- engine (`handle_hit`), and a CPU worker, which does all HTTP (`submit_worker_loop`). A hit that can be sent
-- goes into a live queue in memory, and from there to POST /verify (`process_live_submit`); every other hit
-- goes into `BlockStore` (src/queue/store.cpp), which keeps its rows in blocks.db, appends each row to
-- queue.jsonl, and reads either back at a start. `NetworkPoller` (src/network/difficulty.cpp) polls
-- GET /difficulty for the m= that the pool asks for. `Submitter` (src/network/submitter.cpp) sends a block and
-- reads the answer. src/queue/policy.cpp has the time windows of XUNI blocks, src/mining/block_types.cpp the
-- kinds of blocks, src/mining/argon2_encode.cpp the text form of a hash. The worker ends each round with
-- `service_pending_queue`, which times the flushes of the bag (`try_flush_pending`). Beside these,
-- `hunt_thermal_scale` (src/efficiency/thermal_policy.cpp) moves the GPU's batch with its temperature, and
-- src/config/settings.cpp reads and edits the settings file.
--
-- The files, and the code that each models.
--   Base        numbers, integers, texts and lists, as the code uses them; decimal numbers (`std::stoi`,
--               `std::to_string`)
--   Common      src/common.hpp, and src/monitoring/metrics.cpp in Common.Stats
--   Policy      src/queue/policy.cpp
--   Store       src/queue/store.cpp: the state and its operations (Defs), a hit as JSON (Json), the start
--               (Load), the choice of a flush wave (Batch), the counts (Counts), the exchange of bags
--               (Exchange). Invariant, History, Contents, Disk, Reload and Recover prove; Contents has the
--               abstract bag, which forgets the digest set, the files and the save counter.
--   Network     src/network/submitter.cpp (Submit) and src/network/difficulty.cpp (Difficulty)
--   Mining      src/mining/block_types.cpp (Classify), src/mining/argon2_encode.cpp (Encode, Prepare), and of
--               src/mining/cuda_engine.cpp what is decided around a batch (Engine: the test for XUNI, the
--               payout, the cycle of the fee) and made of its answers (Engine.Batch)
--   Supervisor  src/app/supervisor.cpp: the state and its gates (State), the poll and the drain (Network), the
--               way of a hit (Hits), the threads as events in any order (Worker), the flush of the bag
--               (Flush: its guards in Flush.Try, what they let through in Flush.Cleared, the choice of the
--               work in Flush.Work, the wave itself in Flush, the timing in Flush.Service) and the number of
--               threads for it (Pool)
--   Efficiency  src/efficiency/thermal_policy.cpp (Thermal)
--   Config      src/config/settings.cpp: the file and its editing (Ini), the settings read from it (Load)
--   Tests       concrete inputs
--
-- State and steps. A record stands for a class's fields, and a function takes the record and returns it
-- changed. Every member function of `BlockStore` holds its mutex, so that each is one step. The events of
-- Supervisor.Worker are a call of `handle_hit`, a round of the worker with the flush at its end, the stop of
-- the worker, a poll, and a close; what a call reads
-- from outside (clock, minute, poll, probe, answer of the pool) is a record `World` that the event carries, so
-- that the theorems hold for every behaviour of the pool. `posts` is a trace added to the state: what was sent,
-- and the answer.
--
-- Bounds. Ids, times and counters are natural numbers, which do not wrap: an id is an int64, a time is counted
-- in whole milliseconds, a counter is an int that one session does not fill. An `int` read from text or from a
-- file is cut or refused at 32 bits as the code does; a next id that is negative as an `int` is held as 0 at a
-- start, since ids are natural numbers here, and the theorems on the next id ask that it fits an `int`. A call
-- reads the clock and the minute once. No definition needs fuel: each loop goes along a list or a text.
--
-- Parameters. The base64 encoder of the hash library, and the JSON reading of a /difficulty body that is no
-- plain number, are arguments of the definitions and arbitrary in the theorems. The text of the JSON files is
-- left to the JSON library: a file is the sequence of the records in it, a hit is the fields of a JSON object
-- (Store.Json), and where reading a field throws, the result is `none`. The casts between doubles and whole
-- numbers that the library makes are an argument (`Casts`). A double that is saved is taken as finite, and a
-- text as valid UTF-8, since the library writes no other ones so that they can be read back.
-- The answers of the hash library to a batch are an argument, and so are the sum and the sign of its hash
-- rates, which are doubles.
-- The environment's VERIFY_PROXY is an argument of the settings. The settings file, in contrast, is its text.
--
-- Not modelled. A close in the middle of a round, while the worker holds a batch in memory, since a round is
-- one step. A flush sends its blocks one after the other, in the order of the list, where the program has
-- several threads, and one `World` serves the whole flush; a shutdown that begins in the middle of a wave is
-- not seen by it, one that has begun before it is. Whatever is a double: the scales of batch and power
-- by temperature and difficulty, the VRAM plan, the hash-rate average, some settings. The console dialogue of
-- a first start, and the paths in the settings. Logs, dashboard, wallet and reports; the engine's threads, lanes
-- and mailboxes, the requests that it sends, and the hash library; file writes that fail half way.
pub mod Base
pub mod Common
pub mod Policy
pub mod Store
pub mod Network
pub mod Mining
pub mod Supervisor
pub mod Efficiency
pub mod Config
pub mod Tests
