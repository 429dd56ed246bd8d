-- ===== src/Config.antt =====
-- src/config: the settings file and what the miner reads from it.
pub mod Ini
pub mod Load
