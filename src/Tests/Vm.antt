-- ===== src/Tests/Vm.antt =====
-- Creating VMs on a host with one VM that shares its disks.
use mathlib.Core.Bool.{false≢true}
use text.Mathlib.TextEquality.{eq_iff}
use lustre_test_vms.Base.{
  ℕ, String, ◌≡◌, ◌≢◌, refl, sym, ap, ◌∙◌, inl, inr, Bool, true, false, not, none, some, List, [],
  ◌∷◌, arith, contains, ◌==◌, nat_eq, string_eq, any, Bool-cases,
}
use lustre_test_vms.Result.{ok, err, exit, Err}
use lustre_test_vms.Owner.{codes, done}
use lustre_test_vms.Claim.{is_alnum, is_name_char}
use lustre_test_vms.Cluster.Nodes.{validate_vm_name, is_tail, matches_name}
use lustre_test_vms.Cluster.Vms.{validate_vm_name_for_lookup}
use lustre_test_vms.Vm.Files.{
  VmInfo, File, overlay, info, disk, same_file, Content, bytes, fields, Files, content, Made, made,
  made_part, disk_name, disk_prefix, digits, all_vms, disk_paths, numbered_disks, make_file,
  make_each, make_disks, create_disks, unlink_each, unlink_all, sudo_rm_each, load, artifacts,
  recorded_disks, disk_dir_files, is_globbed, is_disk_of, ends_img, destroy_vm_artifacts,
}
use lustre_test_vms.Vm.Files as VmFiles
use lustre_test_vms.Vm.Files.Laws.{can_remove}
use lustre_test_vms.Vm.Files.Destroyed.{Belongs, destroy_vm_artifacts-Other}
use lustre_test_vms.Vm.Devices.{
  Bus, binds, stops_halfway, bind_to_vfio, bind_each, check_passthrough_conflicts,
}
use lustre_test_vms.Vm.Devices.Laws.{Distinct}
use lustre_test_vms.Vm.Options.{
  Args, validate_kernel_args, validate_create_bounds, check_devices, check_passthrough,
  validate_failover_disks, load_owner, validate_disk_options, taps_for_vm, check_tap_collision,
  lstrip, rstrip, split_words, is_reserved,
}
use lustre_test_vms.Vm.Create.{
  World, Meets, launched, died, launch_qemu, provision, launch_and_provision, save_vm,
  launch_and_wait, persist_vm, create_vm, check_create, create_or_converge, cmd_create,
}
use lustre_test_vms.Vm.Create.Restores.{all_removable}
use lustre_test_vms.Vm.Power.{
  Guards, Refused, require_manageable, require_signalable, collect, kill_each, cmd_stop, cmd_start,
  cmd_stop_lem, cmd_start_lem,
}
use lustre_test_vms.Qemu.{not_permitted}
use lustre_test_vms.Vm.Create.Whole.{Same}
use lustre_test_vms.Vm.Create.Command.{cmd_create-Same}
use lustre_test_vms.Vm.Create.Pairs.{Loads}
use lustre_test_vms.Vm.Create.Pairs.Invariants.{
  Pairwise, NoCommonDevice, NoCommonTap, cmd_create-NoCommonDevice, cmd_create-NoCommonTap,
}
use lustre_test_vms.Vm.Create.Pairs.Partners.{OtherDisks, Owned, cmd_create-Owned}

abbrev files_host : VmFiles.Host
files_host = record {
  overlays = "/vm/overlays";
  unlink = λ f. done;
  sudo_rm = λ f. true;
  overlays_ready = ok tt;
  make = λ f. made;
  resize = true;
}

abbrev bus : Bus
bus = record { bind = λ b. binds; rebind = λ b d. true }

abbrev meets : Meets
meets = record {
  host = files_host;
  bus = bus;
  shown = record {
    iommu_enabled = true;
    has_device = λ b. true;
    tap_for_name = λ n. n;
    extra_tap_for_name = λ n k. n;
    is_disk_dir = λ d. ok d;
  };
  owner = λ o. ok "user:dev";
  artifacts = ok tt;
  sizes = ok 1024;
  address = ok "192.168.100.9";
  numa = ok tt;
  save = ok tt;
  resave = ok tt;
  launch = died;
  ssh = ok tt;
  deploy_key = ok tt;
  layout = ok tt;
  kdump = ok tt;
  nic_numa = ok tt;
  rename_log = true;
  kill = ok tt;
  unregister = true;
}

abbrev nic : String
nic = "0000:3b:00.0"

abbrev args : Args
args = record {
  name = "co9";
  owner_id = none;
  kernel_args = "";
  dry_run = false;
  vcpus = some 2;
  mem = some 4096;
  mdt_disks = 1;
  ost_disks = 1;
  typed_disks = false;
  share_disks = false;
  disks_from = "";
  disk_dir = "";
  disk_cache = "";
  disk_prealloc = "";
  nic_count = 1;
  nics = ok (nic ∷ []);
}

abbrev bare : World
bare = record { files = []; drivers = λ b. "mlx5_core"; registered = []; running = [] }

bound_well : (k : String) → (binds ≢ stops_halfway) × (◌≢◌ {A = String} "mlx5_core" "")
bound_well k = (ground arith, λ p. false≢true ((eq_iff "mlx5_core" "").1 p))

fails : (cmd_create meets args bare).0 ≡ err exit
unfolding cmd_create create_or_converge check_create validate_vm_name is_tail matches_name is_alnum
    is_name_char validate_kernel_args lstrip rstrip split_words is_reserved validate_create_bounds
    check_passthrough check_devices check_passthrough_conflicts all_vms validate_failover_disks
    validate_disk_options check_tap_collision create_vm persist_vm create_disks make_disks make_file
    make_each disk_paths numbered_disks save_vm launch_and_wait bind_each bind_to_vfio
    launch_and_provision launch_qemu same_file string_eq nat_eq
fails = refl

cmd_create-Same_example : Same "co9" bare (cmd_create meets args bare).1
cmd_create-Same_example =
    cmd_create-Same meets args bare exit (λ f. refl) (λ k d. refl) refl refl refl
      (λ k. (λ h. bound_well k)) (λ dir f o. refl) refl refl fails

abbrev owner_vm : VmInfo
owner_vm = record {
  name = "co1";
  ip = "192.168.100.2";
  mdt_disks = 1;
  ost_disks = 2;
  disk_size = 1024;
  share_disks = true;
  disks_from = "";
  disk_dir = "";
  nics = 1;
  passthrough_drivers = (nic, "mlx5_core") ∷ [];
}

abbrev host_files : Files
host_files = (info "co1", fields owner_vm) ∷ (overlay "co1", bytes) ∷ []

abbrev host : World
host = record {
  files = host_files;
  drivers = λ b. "vfio-pci";
  registered = "co1" ∷ [];
  running = "co1" ∷ [];
}

only : (a : String) (v : VmInfo) → Loads a v host_files → (a ≡ "co1") × (v ≡ owner_vm)
unfolding same_file nat_eq
only a v l = elim (Bool-cases ("co1" == a)) [
  | inl e ↦ (ground arith, ground arith)
  | inr e ↦ absurd (ground arith)
]

one_device : Pairwise NoCommonDevice host_files
unfolding Pairwise
one_device a b v u d l k = absurd (d ((only a v l).0 ∙ sym (only b u k).0))

one_tap : Pairwise (NoCommonTap meets.shown) host_files
unfolding Pairwise
one_tap a b v u d l k = absurd (d ((only a v l).0 ∙ sym (only b u k).0))

one_disks : Pairwise OtherDisks host_files
unfolding Pairwise
one_disks a b v u d l k = absurd (d ((only a v l).0 ∙ sym (only b u k).0))

one-Owned : Owned host_files
unfolding Owned
one-Owned a v l used = absurd (used (ap (λ (x : VmInfo). x.disks_from) (only a v l).1))

abbrev partner : Args
partner = record args {
  name = "co2";
  mdt_disks = 0;
  ost_disks = 0;
  disks_from = "co1";
  nics = ok [];
}

-- A partner is made, and a third VM is refused.
a_partner : (cmd_create (record meets { launch = launched }) partner host).0 ≡ ok tt
unfolding cmd_create create_or_converge check_create validate_vm_name is_tail matches_name is_alnum
    is_name_char validate_kernel_args lstrip rstrip split_words is_reserved validate_create_bounds
    check_passthrough all_vms validate_failover_disks load_owner validate_vm_name_for_lookup
    validate_disk_options check_tap_collision taps_for_vm create_vm persist_vm create_disks
    make_disks make_file make_each disk_paths numbered_disks save_vm launch_and_wait provision
    launch_and_provision launch_qemu same_file string_eq nat_eq
a_partner = refl

cmd_create-NoCommonDevice_example : Pairwise NoCommonDevice (cmd_create meets args host).1.files
cmd_create-NoCommonDevice_example = cmd_create-NoCommonDevice meets args host one_device

cmd_create-NoCommonTap_example :
    Pairwise (NoCommonTap meets.shown) (cmd_create meets partner host).1.files
cmd_create-NoCommonTap_example = cmd_create-NoCommonTap meets partner host one_tap

cmd_create-Owned_example :
    Pairwise OtherDisks (cmd_create meets partner host).1.files
    × Owned (cmd_create meets partner host).1.files
cmd_create-Owned_example = cmd_create-Owned meets partner host one_disks one-Owned

codes_differ : codes "co1" ≢ codes "co10"
unfolding nat_eq
codes_differ p = false≢true (ap has_four p)
  where
    has_four : List ℕ → Bool
    has_four (_ ∷ _ ∷ _ ∷ _ ∷ _) = true
    has_four _ = false

two_vms : Files
two_vms = (disk "/vm/overlays" (disk_name "co10" 1), bytes) ∷ host_files

removable : any (λ g. not (can_remove files_host g)) (artifacts files_host "co1" two_vms) ≡ false
removable = all_removable files_host (artifacts files_host "co1" two_vms) (λ f. refl)

destroy_vm_artifacts-Other_example :
    content
      (disk "/vm/overlays" (disk_name "co10" 1))
      (destroy_vm_artifacts files_host "co1" two_vms).1
    ≡ content (disk "/vm/overlays" (disk_name "co10" 1)) two_vms
unfolding Belongs nat_eq
destroy_vm_artifacts-Other_example =
    destroy_vm_artifacts-Other files_host "co1" "co10" two_vms
      (disk "/vm/overlays" (disk_name "co10" 1)) removable codes_differ refl (1, refl)

abbrev failing : VmFiles.Host
failing = record files_host { make = λ f. elim f [ disk dir n ↦ made_part | _ ↦ made ] }

one_device_once : Distinct (nic ∷ [])
unfolding Distinct
one_device_once = (refl, tt)

abbrev guards : Guards
guards = record {
  claim = λ n. ok tt;
  owner = λ n. some 1000;
  euid = 1001;
  rootless = true;
  sudo = λ n. n == "co1";
  probe = λ n. not_permitted;
  kill = λ n. ok tt;
}

abbrev named : List String
named = "co1" ∷ []

cmd_stop_lem_example :
    (contains named "co1" ≡ false
      → contains (cmd_stop guards named host).1.running "co1" ≡ contains host.running "co1")
    × (contains named "co1" ≡ true
        → Refused guards host "co1"
        → (x : Err) × (cmd_stop guards named host ≡ (err x, host)))
    × ((cmd_stop guards named host).0 ≡ ok tt
        → (v : VmInfo) → content (info "co1") host.files ≡ some (fields v)
        → contains named "co1" ≡ true
        → contains (cmd_stop guards named host).1.running "co1" ≡ false)
cmd_stop_lem_example = cmd_stop_lem guards named host "co1"

-- Without sudo it would be refused.
refused : (cmd_stop (record guards { sudo = λ n. false }) named host).0 ≡ err exit
unfolding cmd_stop collect kill_each require_manageable validate_vm_name_for_lookup same_file
    string_eq nat_eq
refused = refl

-- The stop of the VM returns.
stops : (cmd_stop guards named host).0 ≡ ok tt
unfolding cmd_stop collect kill_each require_manageable require_signalable
    validate_vm_name_for_lookup same_file string_eq nat_eq
stops = refl

cmd_start_lem_example :
    (contains host.running "co1" ≡ true
      → contains (cmd_start guards (λ n. meets) named host).1.running "co1" ≡ true)
    × ((cmd_start guards (λ n. meets) named host).0 ≡ ok tt
        → contains named "co1" ≡ true
        → contains (cmd_start guards (λ n. meets) named host).1.running "co1" ≡ true)
cmd_start_lem_example = cmd_start_lem guards (λ n. meets) named host "co1"
