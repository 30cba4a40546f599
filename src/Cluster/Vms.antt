-- ===== src/Cluster/Vms.antt =====
-- The VMs and the records of clusters of a host, as they come and go: `cmd_destroy` and
-- `_refuse_orphaned_partners` of ltvm_pkg/vm_commands.py, `orphaned` and `drop_orphan_clusters` of
-- ltvm_pkg/vm_state.py, and `cmd_cluster_destroy` of ltvm_pkg/vm_cluster.py. Of the files of a VM,
-- this state has the `.info` file and the data disks among the overlays; a removal takes both or none. The
-- claim that `cmd_destroy` forgets is not part of it.
pub mod Destroy
pub mod Names
use lustre_test_vms.Base.{
  ℕ, zero, suc, String, Bool, true, false, not, ◌&&◌, ◌||◌, Option, none, some, List, [], ◌∷◌, map,
  any, keep, ◌==◌, string_eq, nat_eq, contains, if◌then◌else◌,
}
use lustre_test_vms.Result.{
  Result, ok, err, exit, value_error, Err, Action, Done, pure, raise, lift, ◌>>=◌, ◌>>◌,
}
use lustre_test_vms.Owner.{codes}
use lustre_test_vms.Qemu.{strip}
use lustre_test_vms.Vm.Files.{disk_prefix, ends_img}
use lustre_test_vms.Cluster.Nodes.{ClusterNode}

-- What a VM's .info file says: the VM whose disks it uses, or nothing that can be read.
pub data Info : Type 0 where
  corrupt : Info
  info : Option String → Info

pub record Vm : Type 0 where
  pub name : String
  pub info_file : Info

-- A .cluster file: its nodes, or the exception that `load` or `get_nodes` raises, which is no
-- `ClusterNotFound`.
pub data Record : Type 0 where
  broken : Record
  members : List ClusterNode → Record

-- `disks` are the names of the data disks among the overlays, as code points.
pub record World : Type 0 where
  pub vms : List Vm
  pub clusters : List (String × Record)
  pub disks : List (List ℕ)

-- `(SOCKETS / f"{name}.info").exists()`
abbrev pub exists : String → List Vm → Bool
exists name vs = any (λ (v : Vm). v.name == name) vs

abbrev pub load : String → List Vm → Option Info
load name [] = none
load name (v ∷ vs) = let rest = load name vs in if v.name == name then some v.info_file else rest

abbrev pub without : String → List Vm → List Vm
without name vs = keep (λ (v : Vm). not (v.name == name)) vs

-- `ClusterInfo.load`
abbrev pub load_cluster : String → List (String × Record) → Option Record
load_cluster name [] = none
load_cluster name ((n, r) ∷ rs) =
    let rest = load_cluster name rs in if n == name then some r else rest

abbrev pub drop_cluster : String → List (String × Record) → List (String × Record)
drop_cluster name rs = keep (λ (r : String × Record). not (r.0 == name)) rs

-- `ClusterInfo.orphaned`
unfoldable pub orphaned : List Vm → List ClusterNode → Bool
orphaned vs [] = false
orphaned vs (n ∷ ns) = not (any (λ (m : ClusterNode). exists m.name vs) (n ∷ ns))

-- Whether `drop_orphan_clusters` removes a record.
unfoldable pub is_dropped : List Vm → List String → String × Record → Bool
unfolding orphaned
is_dropped vs names (c, broken) = false
is_dropped vs names (c, members ns) =
    any (λ (n : ClusterNode). contains names n.name) ns && orphaned vs ns

-- `drop_orphan_clusters`
unfoldable pub drop_orphan_clusters : List String → World → World
unfolding is_dropped
drop_orphan_clusters names w = record {
  vms = w.vms;
  clusters = keep (λ r. not (is_dropped w.vms names r)) w.clusters;
  disks = w.disks;
}

-- Whether a VM that stays uses the disks of one that goes.
abbrev pub uses : List String → Vm → Bool
uses names v = elim v.info_file [
  | corrupt ↦ false
  | info none ↦ false
  | info (some owner) ↦ not (contains names v.name) && contains names owner
]

-- `_refuse_orphaned_partners`
unfoldable pub refuse_orphaned_partners : List String → World → Result Done
refuse_orphaned_partners names w = if any (uses names) w.vms then err exit else ok tt

-- The code points of `_VM_NAME_UNSAFE`, `*?[]!/\`.
abbrev pub vm_name_unsafe : List ℕ
vm_name_unsafe = 42 ∷ 63 ∷ 91 ∷ 93 ∷ 33 ∷ 47 ∷ 92 ∷ []

-- `_validate_vm_name_for_lookup`; a name that begins with `../` has a `/`.
unfoldable pub validate_vm_name_for_lookup : String → Bool
validate_vm_name_for_lookup name =
    not (name == "")
    && (not (any (contains vm_name_unsafe) (codes name)) && not (name == ".." || name == "."))

-- What the commands need of a VM: that it may be managed and its QEMU is stopped (`_require_manageable`,
-- `_require_signalable` and `kill_qemu`), and whether its files can be removed, if need be as root; one that
-- cannot is passed over in silence.
pub record Hands : Type 0 where
  pub stop : String → Result Done
  pub can_remove : String → Bool

-- Whether `<name>-disk*.img` matches the name of a disk.
unfoldable pub globs : String → List ℕ → Bool
globs name disk = elim (strip (disk_prefix name) disk) [ none ↦ false | some rest ↦ ends_img rest ]

-- `_destroy_vm_artifacts`, of the `.info` file and the disks.
unfoldable pub remove_vm : Hands → String → World → World
remove_vm e name w =
    if e.can_remove name
    then record {
      vms = without name w.vms;
      clusters = w.clusters;
      disks = keep (λ d. not (globs name d)) w.disks;
    }
    else w

unfoldable pub stop_vm : Hands → String → Option Info → Result Done
stop_vm e name none = ok tt
stop_vm e name (some corrupt) = err value_error
stop_vm e name (some (info _)) = e.stop name

-- One turn of the loop of `cmd_destroy`.
unfoldable pub destroy_one : Hands → String → Action World Done
unfolding stop_vm
destroy_one e name w =
    if not (validate_vm_name_for_lookup name)
    then (err exit, w)
    else elim (stop_vm e name (load name w.vms)) [
      | err x ↦ (err x, w)
      | ok _ ↦ (ok tt, remove_vm e name w)
    ]

unfoldable pub destroy_each : Hands → List String → Action World Done
destroy_each e [] = pure tt
destroy_each e (name ∷ names) = destroy_one e name >> destroy_each e names

-- `cmd_destroy`
unfoldable pub cmd_destroy : Hands → Bool → List String → Action World Done
cmd_destroy e drop names w = elim (refuse_orphaned_partners names w) [
  | err x ↦ (err x, w)
  | ok _ ↦ elim (destroy_each e names w).0 [
    | err x ↦ (err x, (destroy_each e names w).1)
    | ok _ ↦ (
      ok tt,
      if drop
          then drop_orphan_clusters names (destroy_each e names w).1
          else (destroy_each e names w).1,
    )
  ]
]

abbrev pub names_of : List ClusterNode → List String
names_of ns = map (λ (n : ClusterNode). n.name) ns

-- One turn of the loop of `cmd_cluster_destroy`; `allowed` is `vm_claim.require_all` on the nodes.
unfoldable pub cluster_destroy_one :
    Hands → (List String → Result Done) → String → Action World Done
cluster_destroy_one e allowed name w = elim (load_cluster name w.clusters) [
  | none ↦ (ok tt, w)
  | some broken ↦ (err value_error, w)
  | some (members ns) ↦ elim (allowed (names_of ns)) [
    | err x ↦ (err x, w)
    | ok _ ↦ elim (cmd_destroy e false (names_of ns) w).0 [
      | err x ↦ (err x, (cmd_destroy e false (names_of ns) w).1)
      | ok _ ↦ (
        ok tt,
        record {
          vms = (cmd_destroy e false (names_of ns) w).1.vms;
          clusters = drop_cluster name (cmd_destroy e false (names_of ns) w).1.clusters;
          disks = (cmd_destroy e false (names_of ns) w).1.disks;
        },
      )
    ]
  ]
]

-- `cmd_cluster_destroy`
unfoldable pub cmd_cluster_destroy :
    Hands → (List String → Result Done) → List String → Action World Done
cmd_cluster_destroy e allowed [] = pure tt
cmd_cluster_destroy e allowed (name ∷ names) =
    cluster_destroy_one e allowed name >> cmd_cluster_destroy e allowed names
