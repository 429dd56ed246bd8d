-- ===== src/Tests.antt =====
-- Concrete inputs for the theorems on the miner.
pub mod Data
pub mod Stores
mod Wire
mod Threads
mod Gpu
mod Files
mod Engine
