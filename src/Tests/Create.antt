-- ===== src/Tests/Create.antt =====
-- The creation and the destruction of a small cluster.
use mathlib.Core.Bool.{false≢true}
use text.Mathlib.TextEquality.{eq_iff}
use lustre_test_vms.Base.{
  ℕ, sym, ◌∙◌, String, ◌≡◌, ◌≢◌, refl, ap, ◌==◌, true, false, none, some, List, [], ◌∷◌, ◌++◌, All,
  map, string_eq, nat_eq, arith, if◌then◌else◌,
}
use lustre_test_vms.Result.{ok, err, exit}
use lustre_test_vms.Memory.Budget.{
  Host, running, memory_budget, usable, cgroup_memory_limit_mb, running_vm_memory,
}
use lustre_test_vms.Owner.{codes}
use lustre_test_vms.Qemu.Identity.{same_codes_sound}
use lustre_test_vms.Vm.Files.{disk_name, digits, digits_on}
use lustre_test_vms.Cluster.Create.Disks.{has, matched}
use lustre_test_vms.Claim.{is_alnum, is_name_char}
use lustre_test_vms.Cluster.Nodes.{
  ClusterNode, number, parse_node_spec, failover_partners, validate_vm_name, new_node,
  checked_count, may_pair, matches_name, is_tail,
}
use lustre_test_vms.Cluster.Vms.{
  globs, remove_vm, World, members, info, exists, load, load_cluster, Hands, cmd_destroy,
  destroy_one, destroy_each, refuse_orphaned_partners, drop_orphan_clusters, is_dropped, orphaned,
  stop_vm, cluster_destroy_one, validate_vm_name_for_lookup,
}
use lustre_test_vms.Cluster.Vms.Destroy.{Backed}
use lustre_test_vms.Cluster.Create.{
  Env, Memory, Outcome, up, left_over, cmd_cluster_create, node_disks, numbered, create_one,
  create_wave, create_waves, build, create_checked, clear_record, parse_specs, is_cluster,
  has_bad_cache, require_cluster_memory, node_sizes, with_ip,
}
use lustre_test_vms.Cluster.Create.Rollback.{cmd_cluster_create-Existing}
use lustre_test_vms.Cluster.Create.Whole.{Unmatched}
use lustre_test_vms.Cluster.Create.Complete.{cmd_cluster_create-Complete}
use lustre_test_vms.Cluster.Create.Budget.{Starts, require_cluster_memory-Starts}
use lustre_test_vms.Tests.Cluster.{node_m, node_o, node_p, nodes}

abbrev host : Host
host = record { total = 16000; limits = []; scale = λ b. b }

abbrev memory : Memory
memory = record {
  host = host;
  mem = some 2048;
  default_mem = λ n. none;
  wait = false;
  running = ("other", running 4096) ∷ [];
}

abbrev hands : Hands
hands = record { stop = λ name. ok tt; can_remove = λ name. true }

abbrev env : Outcome → Env
env o = record {
  specs =
      record { roles = "mgs" ∷ "mds" ∷ []; name = some "m1"; disks = number 1 }
      ∷ record { roles = "oss" ∷ []; name = some "o1"; disks = number 2 }
      ∷ [];
  failover = ("m2", "m1") ∷ [];
  targets = ok tt;
  disk_cache = "";
  options = ok tt;
  dry_run = false;
  memory = memory;
  outcome = λ n. if n.name == "m2" then o else up;
  ip = λ name. "10.0.0.7";
  reload = ok tt;
  save = ok tt;
  hands = hands;
}

abbrev others_disk : List ℕ
others_disk = codes "other-disk1.img"

abbrev before : World
before = record {
  vms = record { name = "other"; info_file = info none } ∷ [];
  clusters = ("c", members (node_o ∷ [])) ∷ [];
  disks = others_disk ∷ [];
}

abbrev after : World
after = record {
  vms =
      record { name = "m2"; info_file = info (some "m1") }
      ∷ record { name = "o1"; info_file = info none }
      ∷ record { name = "m1"; info_file = info none }
      ∷ before.vms;
  clusters = ("c", members (map (with_ip (λ name. "10.0.0.7")) nodes)) ∷ [];
  disks = codes "o1-disk1.img" ∷ codes "o1-disk2.img" ∷ codes "m1-disk1.img" ∷ before.disks;
}

made : cmd_cluster_create (env up) "c" before ≡ (ok tt, after)
unfolding cmd_cluster_create create_checked clear_record build create_waves create_wave create_one
    node_disks numbered disk_name digits digits_on parse_specs parse_node_spec new_node
    checked_count failover_partners may_pair validate_vm_name matches_name is_tail is_alnum
    is_name_char is_cluster has_bad_cache require_cluster_memory node_sizes memory_budget usable
    cgroup_memory_limit_mb running_vm_memory orphaned string_eq nat_eq
made = refl

other_there : load "other" before.vms ≢ none
other_there l = ground arith

it_succeeds : (cmd_cluster_create (env up) "c" before).0 ≡ ok tt
it_succeeds = ap (λ r. r.0) made

parsed_specs : parse_specs (env up).specs ≡ ok (node_m ∷ node_o ∷ [])
unfolding parse_specs parse_node_spec new_node checked_count validate_vm_name matches_name is_tail
    is_alnum is_name_char string_eq nat_eq
parsed_specs = refl

parsed_partners : failover_partners (node_m ∷ node_o ∷ []) [] (("m2", "m1") ∷ []) ≡ ok (node_p ∷ [])
unfolding failover_partners may_pair validate_vm_name matches_name is_tail is_alnum is_name_char
    string_eq nat_eq
parsed_partners = refl

apart : matched nodes others_disk ≡ false
unfolding globs nat_eq
apart = refl

unmatched :
    (specs partners : List ClusterNode)
    → parse_specs (env up).specs ≡ ok specs
    → failover_partners specs [] (("m2", "m1") ∷ []) ≡ ok partners
    → Unmatched (specs ++ partners) before.disks
unmatched specs partners p q d there =
    let these : node_m ∷ node_o ∷ [] ≡ specs = ground (arith, p, parsed_specs) in
    let those : node_p ∷ [] ≡ partners = ground (arith, q, these, parsed_partners) in
    let same : d ≡ others_disk = same_codes_sound d others_disk (ground (arith, there)) in
    ap (λ x. matched (specs ++ partners) x) same
    ∙ ap (λ ss. matched (ss ++ partners) others_disk) (sym these)
    ∙ ap (λ ps. matched (node_m ∷ node_o ∷ ps) others_disk) (sym those)
    ∙ apart

there : has others_disk before.disks ≡ true
unfolding nat_eq
there = refl

cmd_cluster_create-Existing_example :
    (load "other" (cmd_cluster_create (env left_over) "c" before).1.vms ≡ load "other" before.vms)
    × (has others_disk (cmd_cluster_create (env left_over) "c" before).1.disks
        ≡ has others_disk before.disks)
cmd_cluster_create-Existing_example =
    cmd_cluster_create-Existing (env left_over) "c" "other" others_disk before other_there
      (λ specs partners p q. unmatched specs partners p q others_disk there)

cmd_cluster_create-Complete_example :
    (specs : List ClusterNode) × (partners : List ClusterNode) × (parse_specs (env up).specs
      ≡ ok specs)
    × (failover_partners specs [] (("m2", "m1") ∷ []) ≡ ok partners)
    × All
        (λ (n : ClusterNode). exists n.name (cmd_cluster_create (env up) "c" before).1.vms ≡ true)
        specs
    × All
        (λ (n : ClusterNode). exists n.name (cmd_cluster_create (env up) "c" before).1.vms ≡ true)
        partners
    × (load_cluster "c" (cmd_cluster_create (env up) "c" before).1.clusters
        ≡ some (members (map (with_ip (λ name. "10.0.0.7")) (specs ++ partners))))
cmd_cluster_create-Complete_example =
    cmd_cluster_create-Complete (env up) "c" before refl it_succeeds

sizes_read : node_sizes memory nodes ≡ some (2048 ∷ 2048 ∷ 2048 ∷ [])
unfolding node_sizes
sizes_read = refl

memory_passes : require_cluster_memory memory nodes ≡ ok tt
unfolding require_cluster_memory node_sizes memory_budget usable cgroup_memory_limit_mb
    running_vm_memory string_eq nat_eq
memory_passes = refl

require_cluster_memory-Starts_example :
    Starts host (("other", running 4096) ∷ []) nodes (2048 ∷ 2048 ∷ 2048 ∷ [])
require_cluster_memory-Starts_example =
    require_cluster_memory-Starts memory nodes (2048 ∷ 2048 ∷ 2048 ∷ []) refl
      (λ e. false≢true ((eq_iff "other" "").1 e), tt)
      (
        λ e. false≢true ((eq_iff "m1" "").1 e),
        (λ e. false≢true ((eq_iff "o1" "").1 e), (λ e. false≢true ((eq_iff "m2" "").1 e), tt)),
      )
      sizes_read memory_passes

gone_together : (cmd_destroy hands true ("m1" ∷ "m2" ∷ []) after).0 ≡ ok tt
unfolding remove_vm cmd_destroy destroy_one destroy_each refuse_orphaned_partners
    drop_orphan_clusters is_dropped orphaned stop_vm validate_vm_name_for_lookup string_eq nat_eq
gone_together = refl

-- A primary does not go without its partner.
not_alone : cmd_destroy hands true ("m1" ∷ []) after ≡ (err exit, after)
unfolding cmd_destroy refuse_orphaned_partners string_eq
not_alone = refl

backed : Backed after.vms
backed k owner l = ground arith

abbrev partner : String
partner = "m2"

abbrev saved : List ClusterNode
saved = map (with_ip (λ name. "10.0.0.7")) nodes

cleaned : (cluster_destroy_one hands (λ names. ok tt) "c" after).0 ≡ ok tt
unfolding remove_vm cluster_destroy_one cmd_destroy destroy_one destroy_each
    refuse_orphaned_partners stop_vm validate_vm_name_for_lookup string_eq nat_eq
cleaned = refl

listed : load_cluster "c" after.clusters ≡ some (members saved)
unfolding string_eq
listed = refl
