-- ===== src/Supervisor.antt =====
-- src/app/supervisor.cpp: the submit side of the miner, from a found hit to the POST of it.
pub mod State
pub mod Network
pub mod Hits
pub mod Worker
pub mod Pool
pub mod Flush
