-- ===== src/Memory.antt =====
-- ltvm_pkg/qemu_run.py: the memory that the VMs of a host may use, the launch that waits for it, and the
-- split of a VM into NUMA nodes. Sizes are in MiB.
pub mod Budget
pub mod Numa
