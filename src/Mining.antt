-- ===== src/Mining.antt =====
-- src/mining: the blocks that the GPU finds, before they are submitted.
pub mod Classify
pub mod Encode
pub mod Prepare
pub mod Engine
