-- ===== src/Cluster.antt =====
-- Clusters of VMs: ltvm_pkg/vm_cluster.py, and the records of clusters in ltvm_pkg/vm_state.py.
pub mod Nodes
pub mod LocalSh
pub mod Osts
pub mod Vms
pub mod Create
pub mod Status
