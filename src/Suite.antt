-- ===== src/Suite.antt =====
-- ltvm_pkg/suite_run.py: what a probed run of a test suite is, what its results file says, and
-- whether it failed.
pub mod Results
pub mod Status
