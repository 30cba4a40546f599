-- ===== src/Cluster/Create.antt =====
-- `cmd_cluster_create` and `_require_cluster_memory` of ltvm_pkg/vm_cluster.py: the checks, the two waves
-- of nodes, the rollback and the record. The nodes of a wave come up at one time, and each changes only
-- its own files: they are taken in the order of the list.
pub mod Budget
pub mod Rollback
pub mod Atomic
pub mod Free
pub mod Whole
pub mod Complete
pub mod Disks
use lustre_test_vms.Base.{
  ℕ, zero, suc, ◌+◌, max, String, Bool, true, false, not, ◌&&◌, ◌||◌, Option, none, some, List, [],
  ◌∷◌, ◌++◌, map, any, keep, sum, length, ◌==◌, string_eq, nat_eq, contains, leb, if◌then◌else◌,
}
use lustre_test_vms.Result.{Result, ok, err, exit, Err, Action, Done}
use lustre_test_vms.Memory.Budget.{
  Host, MemoryBudget, memory_budget, budget_mb, fits_budget, running_vm_memory, committed, State,
}
use lustre_test_vms.Cluster.Nodes.{
  ClusterNode, Spec, parse_node_spec, failover_partners, validate_vm_name, is_mgs, is_mds,
  is_partner,
}
use lustre_test_vms.Vm.Files.{disk_name}
use lustre_test_vms.Cluster.Vms.{
  World, Record, members, broken, Vm, info, corrupt, exists, orphaned, load_cluster, drop_cluster,
  Hands, cmd_destroy, names_of,
}

-- What the memory check reads: the memory that is asked for, or else the default of each node's target,
-- where that can be read; whether `--wait` is given; and the VMs that run.
pub record Memory : Type 0 where
  pub host : Host
  pub mem : Option ℕ
  pub default_mem : ClusterNode → Option ℕ
  pub wait : Bool
  pub running : List (String × State)

node_size : Memory → ClusterNode → Option ℕ
node_size m n = elim m.mem [ some mb ↦ some mb | none ↦ m.default_mem n ]

-- The sizes of the nodes, unless one cannot be read.
unfoldable pub node_sizes : Memory → List ClusterNode → Option (List ℕ)
unfolding node_size
node_sizes m [] = some []
node_sizes m (n ∷ ns) =
    let rest = node_sizes m ns in
    elim (node_size m n) [
      | none ↦ none
      | some mb ↦ elim rest [ none ↦ none | some sizes ↦ some (mb ∷ sizes) ]
    ]

abbrev biggest : List ℕ → ℕ
biggest [] = 0
biggest (a ∷ sizes) = max a (biggest sizes)

-- What the running VMs use; with `--wait` they may yet stop.
abbrev pub used_memory : Memory → ℕ
used_memory m = if m.wait then 0 else committed (running_vm_memory "" m.running)

-- `_require_cluster_memory`
unfoldable pub require_cluster_memory : Memory → List ClusterNode → Result Done
require_cluster_memory m ns = elim (memory_budget m.host) [
  | none ↦ ok tt
  | some b ↦ elim (node_sizes m ns) [
    | none ↦ ok tt
    | some sizes ↦
        if fits_budget (biggest sizes) b
          && leb (used_memory m + sum sizes) (m.host.scale (budget_mb b))
        then ok tt
        else err exit
  ]
]

-- How `ltvm create` of a node ends: the VM is up, or it failed and left the VM or nothing.
pub data Outcome : Type 0 where
  up left_over nothing : Outcome

-- What the command is called with and meets. `targets` are the checks of `_node_targets` and
-- `_node_kernels`, `options` those of the disk, NIC, kernel and owner options; `reload` is how the loads of
-- the new `.info` files end, and `save` how `cluster.save` does.
pub record Env : Type 0 where
  pub specs : List Spec
  pub failover : List (String × String)
  pub targets : Result Done
  pub disk_cache : String
  pub options : Result Done
  pub dry_run : Bool
  pub memory : Memory
  pub outcome : ClusterNode → Outcome
  pub ip : String → String
  pub reload : Result Done
  pub save : Result Done
  pub hands : Hands

unfoldable pub parse_specs : List Spec → Result (List ClusterNode)
parse_specs [] = ok []
parse_specs (s ∷ ss) =
    let rest = parse_specs ss in
    elim (parse_node_spec s) [
      | err x ↦ err x
      | ok n ↦ elim rest [ err x ↦ err x | ok ns ↦ ok (n ∷ ns) ]
    ]

-- Whether two nodes have one name.
abbrev pub has_dupes : List ClusterNode → Bool
has_dupes [] = false
has_dupes (n ∷ ns) = any (λ (m : ClusterNode). m.name == n.name) ns || has_dupes ns

-- The rules on names and roles, from the duplicates on.
unfoldable pub is_cluster : List ClusterNode → List Vm → Bool
is_cluster ns vs =
    not (has_dupes ns)
    && (not (any (λ (n : ClusterNode). exists n.name vs) ns)
        && (length (keep is_mgs ns) == 1 && any is_mds ns))

unfoldable pub has_bad_cache : List ClusterNode → String → Bool
has_bad_cache [] cache = false
has_bad_cache (n ∷ ns) cache = not (cache == "" || cache == "none")

-- The names of the disks `1` to `count` after a number.
unfoldable pub numbered : String → ℕ → ℕ → List (List ℕ)
numbered name n zero = []
numbered name n (suc count) = disk_name name n ∷ numbered name (suc n) count

-- The data disks that are made for a node; a failover partner has none of its own.
unfoldable pub node_disks : ClusterNode → List (List ℕ)
unfolding numbered
node_disks n = if is_partner n then [] else numbered n.name 1 (n.mdt_disks + n.ost_disks)

abbrev pub add_vm : ClusterNode → World → World
add_vm n w = record {
  vms = record { name = n.name; info_file = info n.failover_for } ∷ w.vms;
  clusters = w.clusters;
  disks = node_disks n ++ w.disks;
}

-- `ltvm create`, for one node.
unfoldable pub create_one : Env → ClusterNode → World → World
create_one e n w = elim (e.outcome n) [ up ↦ add_vm n w | left_over ↦ add_vm n w | nothing ↦ w ]

abbrev pub is_up : Outcome → Bool
is_up up = true
is_up _ = false

-- `create_wave`: the names that failed.
unfoldable pub create_wave : Env → List ClusterNode → World → List String × World
unfolding create_one
create_wave e [] w = ([], w)
create_wave e (n ∷ ns) w =
    let rest = create_wave e ns (create_one e n w) in
    if is_up (e.outcome n) then rest else (n.name ∷ rest.0, rest.1)

-- The nodes, and then, if none failed, their partners.
unfoldable pub create_waves :
    Env → List ClusterNode → List ClusterNode → World → List String × World
unfolding create_wave
create_waves e specs partners w = elim (create_wave e specs w).0 [
  | [] ↦ create_wave e partners (create_wave e specs w).1
  | n ∷ ns ↦ (n ∷ ns, (create_wave e specs w).1)
]

-- `sorted(node_specs, key=lambda n: not n.failover_for)`
abbrev pub partners_first : List ClusterNode → List ClusterNode
partners_first ns = keep is_partner ns ++ keep (λ n. not (is_partner n)) ns

-- The `ltvm destroy` of each node; one that fails is only warned about.
unfoldable pub roll_back : Hands → List ClusterNode → World → World
roll_back e [] w = w
roll_back e (n ∷ ns) w = roll_back e ns (cmd_destroy e true (n.name ∷ []) w).1

-- A node with the address of its VM.
abbrev pub with_ip : (String → String) → ClusterNode → ClusterNode
with_ip ip n = record {
  name = n.name;
  roles = n.roles;
  mdt_disks = n.mdt_disks;
  ost_disks = n.ost_disks;
  ip = ip n.name;
  failover_for = n.failover_for;
}

-- The waves, and the record or the rollback. A `.info` file that does not load, or a record that cannot be
-- written, ends the command with the VMs in place.
unfoldable pub build :
    Env → String → List ClusterNode → List ClusterNode → World → Result Done × World
build e name specs partners w = elim (create_waves e specs partners w).0 [
  | [] ↦ elim e.reload [
    | err x ↦ (err x, (create_waves e specs partners w).1)
    | ok _ ↦ elim e.save [
      | err x ↦ (err x, (create_waves e specs partners w).1)
      | ok _ ↦ (
        ok tt,
        record {
          vms = (create_waves e specs partners w).1.vms;
          clusters =
              (name, members (map (with_ip e.ip) (specs ++ partners)))
              ∷ drop_cluster name (create_waves e specs partners w).1.clusters;
          disks = (create_waves e specs partners w).1.disks;
        },
      )
    ]
  ]
  | n ∷ ns ↦ (
    err exit,
    roll_back e.hands (partners_first (specs ++ partners)) (create_waves e specs partners w).1,
  )
]

-- The checks of the options, the dry run, and the memory of the host, before anything is made.
unfoldable pub create_checked :
    Env → String → List ClusterNode → List ClusterNode → World → Result Done × World
create_checked e name specs partners w =
    if not (is_cluster (specs ++ partners) w.vms) then (err exit, w) else elim e.targets [
      | err x ↦ (err x, w)
      | ok _ ↦ if has_bad_cache partners e.disk_cache then (err exit, w) else elim e.options [
        | err x ↦ (err x, w)
        | ok _ ↦
            if e.dry_run
            then (ok tt, w)
            else elim (require_cluster_memory e.memory (specs ++ partners)) [
              | err x ↦ (err x, w)
              | ok _ ↦ build e name specs partners w
            ]
      ]
    ]

-- The record of that name: one whose VMs are all gone is removed.
unfoldable pub clear_record : String → World → Result Done × World
clear_record name w = elim (load_cluster name w.clusters) [
  | none ↦ (ok tt, w)
  | some broken ↦ (err exit, w)
  | some (members ns) ↦
      if orphaned w.vms ns
      then (ok tt, record w { clusters = drop_cluster name w.clusters })
      else (err exit, w)
]

-- `cmd_cluster_create`
unfoldable pub cmd_cluster_create : Env → String → World → Result Done × World
unfolding clear_record create_checked
cmd_cluster_create e name w =
    if not (validate_vm_name name) then (err exit, w) else elim (clear_record name w).0 [
      | err x ↦ (err x, (clear_record name w).1)
      | ok _ ↦ elim (parse_specs e.specs) [
        | err x ↦ (err x, (clear_record name w).1)
        | ok specs ↦ elim (failover_partners specs [] e.failover) [
          | err x ↦ (err x, (clear_record name w).1)
          | ok partners ↦ create_checked e name specs partners (clear_record name w).1
        ]
      ]
    ]
