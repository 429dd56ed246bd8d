-- ===== src/Store.antt =====
-- src/queue/store.hpp and src/queue/store.cpp: the queue of pending blocks.
pub mod Json
pub mod Defs
pub mod Distinct
pub mod Invariant
pub mod Load
pub mod Reload
pub mod Recover
pub mod History
pub mod Contents
pub mod Disk
pub mod Counts
pub mod Exchange
pub mod Batch
