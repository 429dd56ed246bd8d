-- ===== src/Efficiency.antt =====
-- src/efficiency: the policies that size the GPU's work.
pub mod Thermal
