-- ===== src/Net.antt =====
-- Addresses of VMs: ltvm_pkg/vm_net.py, ltvm_pkg/nic_network.py and ltvm_pkg/nic_allocation.py. An
-- address is the number that its text spells.
pub mod Pool
pub mod Overlap
pub mod Names
pub mod Alloc
pub mod AllocIp
