-- ===== src/Storage.antt =====
-- ltvm_pkg/storage.py: archiving and restoring artifacts between the hot and the cold directory.
pub mod Tree
pub mod Relocate
pub mod Move
