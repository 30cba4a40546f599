-- ===== src/Tests/Cluster.antt =====
-- A cluster of an MGS with one MDT, an OSS with two OSTs, a client, and a partner of the MDS.
use mathlib.Core.Bool.{false≢true}
use text.Mathlib.TextEquality.{eq_iff}
use lustre_test_vms.Base.{
  ℕ, ◌+◌, ◌-◌, String, ◌≡◌, refl, Option, none, some, List, [], ◌∷◌, All, keep, map, length,
  string_eq, nat_eq, arith, inl, inr, max,
}
use lustre_test_vms.Result.{ok}
use lustre_test_vms.Claim.{is_alnum, is_name_char}
use lustre_test_vms.Cluster.Nodes.{
  ClusterNode, Spec, number, parse_node_spec, failover_partners, validate_vm_name, is_mgs, new_node,
  checked_count, may_pair, matches_name, is_tail, ost_disk_count, oss_nodes, mgs_node,
}
use lustre_test_vms.Cluster.Nodes.Laws.{Partner, NoneTwice, primaries, failover_partners-Partner}
use lustre_test_vms.Cluster.Osts.{
  OstFilePlan, plan_ost_files, common_size, file_hosts, spread, ost_file_kb, min_disk_kb,
}
use lustre_test_vms.Cluster.Osts.Laws.{plan_ost_files_sound, Good, Fits, count_up}
use lustre_test_vms.Cluster.LocalSh.{
  Line, mgs, mds, ost, mgs_host, failover_host, mds_host, mds_count, mds_size, disk, ost_host,
  ost_count, ost_size, file, generate_local_sh, mgs_lines, mds_block, ost_block, client_block,
  created_disks, mds_lines, ost_lines, disk_lines,
}
use lustre_test_vms.Cluster.LocalSh.Slots.{slots, Distinct}
use lustre_test_vms.Cluster.LocalSh.Layout.{Sized, generate_local_sh-created_disks}
use lustre_test_vms.Cluster.LocalSh.Indices.{ost_indices, generate_local_sh-plan_ost_files}

abbrev pub node_m : ClusterNode
node_m = record {
  name = "m1";
  roles = "mgs" ∷ "mds" ∷ [];
  mdt_disks = 1;
  ost_disks = 0;
  ip = "";
  failover_for = none;
}

abbrev pub node_o : ClusterNode
node_o = record {
  name = "o1";
  roles = "oss" ∷ [];
  mdt_disks = 0;
  ost_disks = 2;
  ip = "";
  failover_for = none;
}

abbrev pub node_p : ClusterNode
node_p = record {
  name = "m2";
  roles = "failover" ∷ [];
  mdt_disks = 0;
  ost_disks = 0;
  ip = "";
  failover_for = some "m1";
}

abbrev pub servers : List ClusterNode
servers = node_m ∷ node_o ∷ []

abbrev pub nodes : List ClusterNode
nodes = node_m ∷ node_o ∷ node_p ∷ []

abbrev spec_m : Spec
spec_m = record { roles = "mgs" ∷ "mds" ∷ []; name = some "m1"; disks = number 1 }

m_parsed : parse_node_spec spec_m ≡ ok node_m
unfolding parse_node_spec new_node checked_count validate_vm_name matches_name is_tail is_alnum
    is_name_char string_eq
m_parsed = refl

abbrev space : String → Option ℕ
space name = some 4194304

abbrev size : String → ℕ
size name = 1073741824

abbrev plan : OstFilePlan
plan = record { hosts = (3, "o1") ∷ (4, "o1") ∷ []; size_kb = 1048576 }

planned : plan_ost_files nodes 4 space size ≡ ok (some plan)
unfolding plan_ost_files common_size file_hosts spread ost_file_kb min_disk_kb string_eq nat_eq
planned = refl

abbrev lines : List Line
lines =
    mgs_host "m1"
    ∷ failover_host mgs "m2"
    ∷ mds_host "m1"
    ∷ mds_count 1
    ∷ mds_size 1048576
    ∷ disk (mds 1) "m1" 1
    ∷ failover_host (mds 1) "m2"
    ∷ ost_host "o1"
    ∷ ost_count 4
    ∷ ost_size 1048576
    ∷ disk (ost 1) "o1" 1
    ∷ disk (ost 2) "o1" 2
    ∷ file 3 "o1"
    ∷ file 4 "o1"
    ∷ []

block : generate_local_sh nodes size 4 (some plan) ≡ some lines
unfolding generate_local_sh mgs_lines mds_block ost_block client_block mds_lines ost_lines
    disk_lines mgs_node min_disk_kb string_eq nat_eq
block = refl

plan_ost_files_sound_example :
    (map (λ (h : ℕ × String). h.0) plan.hosts
      ≡ count_up (ost_disk_count nodes + 1) (4 - ost_disk_count nodes))
    × Good (min_disk_kb size (oss_nodes nodes)) plan.size_kb
    × All (Fits space plan.hosts plan.size_kb) (oss_nodes nodes)
plan_ost_files_sound_example = plan_ost_files_sound nodes 4 space size plan planned

names_differ : Distinct nodes
names_differ = (
  (λ e. false≢true ((eq_iff "o1" "m1").1 e), (λ e. false≢true ((eq_iff "m2" "m1").1 e), tt)),
  ((λ e. false≢true ((eq_iff "m2" "o1").1 e), tt), (tt, tt)),
)

one_mgs : length (keep is_mgs nodes) ≡ 1
unfolding string_eq
one_mgs = refl

o-Sized : Sized node_o
unfolding string_eq
o-Sized = (λ e. refl, λ e. ground arith)

generate_local_sh-created_disks_example : slots "o1" lines ≡ count_up 1 (created_disks node_o)
generate_local_sh-created_disks_example =
    generate_local_sh-created_disks nodes size 4 (some plan) lines node_o block names_differ one_mgs
      o-Sized (inr (inl refl))

generate_local_sh-plan_ost_files_example :
    ost_indices lines ≡ count_up 1 (max (ost_disk_count nodes) 4)
generate_local_sh-plan_ost_files_example =
    generate_local_sh-plan_ost_files nodes 4 space size size (some plan) lines planned block

one_partner : failover_partners servers [] (("m2", "m1") ∷ []) ≡ ok (node_p ∷ [])
unfolding failover_partners may_pair validate_vm_name matches_name is_tail is_alnum is_name_char
    string_eq
one_partner = refl

failover_partners-Partner_example :
    All (Partner servers) (node_p ∷ []) × NoneTwice [] (primaries (node_p ∷ []))
failover_partners-Partner_example =
    failover_partners-Partner servers [] (("m2", "m1") ∷ []) (node_p ∷ []) one_partner
