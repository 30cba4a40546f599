-- ===== src/Cluster/LocalSh.antt =====
-- `generate_local_sh` of ltvm_pkg/vm_cluster.py: the lines of the cluster block of cfg/local.sh that say
-- where each target lies, and the disks that `_create_one_node` gives a node. A disk /dev/vd<letter> is the
-- place of its letter after `a`.
pub mod Slots
pub mod Blocks
pub mod Layout
pub mod Indices
use lustre_test_vms.Base.{
  ℕ, zero, suc, ◌+◌, String, Bool, true, false, not, ◌&&◌, ◌||◌, Option, none, some, List, [], ◌∷◌,
  ◌++◌, map, keep, sum, ◌==◌, nat_eq, string_eq, contains, length, if◌then◌else◌,
}
use lustre_test_vms.Cluster.Osts.{OstFilePlan, min_disk_kb}
use lustre_test_vms.Cluster.Nodes.{
  ClusterNode, is_mgs, is_mds, is_oss, is_client, mds_nodes, oss_nodes, client_nodes, mgs_node,
  mdt_count, ost_disk_count, ost_total,
}

pub data Facet : Type 0 where
  mgs : Facet
  mds ost : ℕ → Facet

-- A line of the block. `disk` is the line of a facet's device, and for an MDT or OST also the one of its
-- host.
pub data Line : Type 0 where
  mgs_host : String → Line
  disk : Facet → String → ℕ → Line
  file : ℕ → String → Line
  failover_host : Facet → String → Line
  mds_host ost_host : String → Line
  mds_count ost_count mds_size ost_size : ℕ → Line
  clients rclients : List String → Line
  client_count : ℕ → Line

-- The first partner of a node: `cluster.failover_partners()`.
abbrev pub partner_of : List ClusterNode → String → Option String
partner_of [] name = none
partner_of (n ∷ ns) name =
    let rest = partner_of ns name in
    elim rest [
      | some p ↦ some p
      | none ↦ elim n.failover_for [
        | none ↦ none
        | some q ↦ if q == name then some n.name else none
      ]
    ]

failover_lines : Facet → Option String → List Line
failover_lines f none = []
failover_lines f (some p) = failover_host f p ∷ []

-- `for d in range(disks)`: the device and host lines of one node's targets.
unfoldable pub disk_lines : (ℕ → Facet) → String → Option String → ℕ → ℕ → ℕ → List Line
unfolding failover_lines
disk_lines facet name partner idx slot zero = []
disk_lines facet name partner idx slot (suc left) =
    (disk (facet idx) name slot ∷ failover_lines (facet idx) partner)
    ++ disk_lines facet name partner (suc idx) (suc slot) left

-- The loop over the MDS nodes, from the target `idx` on.
unfoldable pub mds_lines : List ClusterNode → ℕ → List ClusterNode → List Line
mds_lines all idx [] = []
mds_lines all idx (n ∷ ns) =
    disk_lines mds n.name (partner_of all n.name) idx 1 n.mdt_disks
    ++ mds_lines all (idx + n.mdt_disks) ns

-- Where the OST disks of a node begin.
abbrev pub ost_slot : ClusterNode → ℕ
ost_slot n = if is_mds n then 1 + n.mdt_disks else if is_mgs n then 2 else 1

unfoldable pub ost_lines : List ClusterNode → ℕ → List ClusterNode → List Line
ost_lines all idx [] = []
ost_lines all idx (n ∷ ns) =
    disk_lines ost n.name (partner_of all n.name) idx (ost_slot n) n.ost_disks
    ++ ost_lines all (idx + n.ost_disks) ns

abbrev file_lines : List (ℕ × String) → List Line
file_lines [] = []
file_lines ((idx, host) ∷ rest) = file idx host ∷ file_lines rest

unfoldable pub mgs_lines : List ClusterNode → ClusterNode → List Line
unfolding failover_lines
mgs_lines all m =
    (mgs_host m.name ∷ failover_lines mgs (partner_of all m.name))
    ++ (if is_mds m then [] else disk mgs m.name 1 ∷ [])

size_line : (ℕ → Line) → ℕ → List Line
size_line line zero = []
size_line line (suc kb) = line (suc kb) ∷ []

unfoldable pub mds_block : List ClusterNode → (String → ℕ) → List ClusterNode → List Line
unfolding size_line
mds_block all size [] = []
mds_block all size (n ∷ ns) =
    (mds_host n.name ∷ mds_count (mdt_count all) ∷ size_line mds_size (min_disk_kb size (n ∷ ns)))
    ++ mds_lines all 1 (n ∷ ns)

-- The size of an OST: a plan for files sets it for all.
ost_kb : (String → ℕ) → Option OstFilePlan → List ClusterNode → ℕ
ost_kb size none ns = min_disk_kb size ns
ost_kb size (some plan) ns = plan.size_kb

planned_files : Option OstFilePlan → List Line
planned_files none = []
planned_files (some plan) = file_lines plan.hosts

unfoldable pub ost_block :
    List ClusterNode → (String → ℕ) → ℕ → Option OstFilePlan → List ClusterNode → List Line
unfolding size_line ost_kb planned_files
ost_block all size count plan [] = []
ost_block all size count plan (n ∷ ns) =
    (ost_host n.name
      ∷ ost_count (ost_total all count)
      ∷ size_line ost_size (ost_kb size plan (n ∷ ns)))
    ++ (ost_lines all 1 (n ∷ ns) ++ planned_files plan)

rclient_line : List String → List Line
rclient_line [] = []
rclient_line (c ∷ cs) = rclients (c ∷ cs) ∷ []

unfoldable pub client_block : List String → List Line
unfolding rclient_line
client_block [] = []
client_block (c ∷ cs) = clients (c ∷ cs) ∷ rclient_line cs ++ (client_count (length (c ∷ cs)) ∷ [])

-- `generate_local_sh`, of the sizes of disks in bytes by node; a node of unknown size has 0. `none` is a
-- cluster without an MGS node. The lines that are the same for every cluster are left out.
unfoldable pub generate_local_sh :
    List ClusterNode → (String → ℕ) → ℕ → Option OstFilePlan → Option (List Line)
unfolding mgs_lines mds_block ost_block client_block
generate_local_sh ns size count plan = elim (mgs_node ns) [
  | none ↦ none
  | some m ↦ some (
      mgs_lines ns m
      ++ (mds_block ns size (mds_nodes ns)
          ++ (ost_block ns size count plan (oss_nodes ns)
              ++ client_block (map (λ (n : ClusterNode). n.name) (client_nodes ns)))))
]

-- The disks that `_create_one_node` asks `ltvm create` for: `--mdt-disks` and `--ost-disks`.
unfoldable pub created_disks : ClusterNode → ℕ
created_disks n = n.mdt_disks + (if is_mgs n && not (is_mds n) then 1 else 0) + n.ost_disks
