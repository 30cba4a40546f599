-- ===== src/Targets.antt =====
-- The kernels of a target: ltvm_pkg/target_config.py.
pub mod Kernels
