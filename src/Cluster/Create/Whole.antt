-- ===== src/Cluster/Create/Whole.antt =====
-- That a creation of a cluster that fails leaves the VMs as they were.
use lustre_test_vms.Base.{ℕ, ◌≡◌, true, false, List, nat_eq, string_eq}
use lustre_test_vms.Cluster.Nodes.{ClusterNode}
use lustre_test_vms.Cluster.Create.Disks.{has, matched}

-- No disk that is there is matched by a node's pattern.
abbrev pub Unmatched : List ClusterNode → List (List ℕ) → Type 0
Unmatched ns ds = (d : List ℕ) → has d ds ≡ true → matched ns d ≡ false
