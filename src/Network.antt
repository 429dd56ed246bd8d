-- ===== src/Network.antt =====
-- src/network: the POST of a block to /verify and the poll of /difficulty.
pub mod Submit
pub mod Difficulty
