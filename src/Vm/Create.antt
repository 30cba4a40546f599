-- ===== src/Vm/Create.antt =====
-- `cmd_create` of ltvm_pkg/vm_commands.py, with `_handle_existing_vm`, `_allocate_and_persist_vm`,
-- `_launch_and_wait` and `_rollback_launch_failure`. Host names are registered where /etc/hosts and the ssh
-- configuration name them; Net/Names.antt has these files. The commands on TAP devices are left out.
pub mod Touched
pub mod Launched
pub mod Restores
pub mod Whole
pub mod Command
pub mod Record
pub mod Others
pub mod Pairs
use lustre_test_vms.Base.{
  ℕ, zero, String, Bool, true, false, not, ◌&&◌, ◌||◌, Option, none, some, List, [], ◌∷◌, ◌++◌, any,
  keep, ◌==◌, string_eq, nat_eq, contains, if◌then◌else◌,
}
use lustre_test_vms.Result.{Result, ok, err, exit, value_error, Err, Action, Done}
use lustre_test_vms.Owner.{codes}
use lustre_test_vms.Cluster.Nodes.{validate_vm_name}
use lustre_test_vms.Vm.Files.{
  VmInfo, File, info, log, failed_log, pid, qmp, Content, bytes, fields, Files, content, write,
  remove, load, create_disks, destroy_vm_artifacts,
}
use lustre_test_vms.Vm.Files as VmFiles
use lustre_test_vms.Vm.Devices.{Drivers, Recorded, Bus, bind_each, rebind_each}
use lustre_test_vms.Vm.Options.{
  Args, Shown, validate_kernel_args, validate_create_bounds, validate_failover_disks,
  validate_disk_options, check_tap_collision,
}

-- What commands change: the files, the drivers of devices, the names that resolve, the VMs that run.
pub record World : Type 0 where
  pub files : Files
  pub drivers : Drivers
  pub registered : List String
  pub running : List String

-- How `launch_qemu` ends.
pub data Launch : Type 0 where
  launched died refused : Launch

-- What a command meets. `owner` is `resolve_owner_id`, `artifacts` the lookup of the image and the kernel,
-- `sizes` the sizes of the disks with the check that the image fits; `address` is what the allocation of
-- addresses gives, `numa` the check of the NUMA nodes, `save` the first write of the `.info` file and `resave`
-- the one with the devices that are bound. The rest are the steps of a launch, and those
-- of taking it back.
pub record Meets : Type 0 where
  pub host : VmFiles.Host
  pub bus : Bus
  pub shown : Shown
  pub owner : Option String → Result String
  pub artifacts : Result Done
  pub sizes : Result ℕ
  pub address : Result String
  pub numa : Result Done
  pub save : Result Done
  pub resave : Result Done
  pub launch : Launch
  pub ssh : Result Done
  pub deploy_key : Result Done
  pub layout : Result Done
  pub kdump : Result Done
  pub nic_numa : Result Done
  pub rename_log : Bool
  pub kill : Result Done
  pub unregister : Bool

abbrev pub on_files : (Files → Files) → World → World
on_files f w = record w { files = f w.files }

-- `launch_qemu`: QEMU has a socket, a pidfile and a log.
unfoldable pub launch_qemu : Meets → String → Action World Done
launch_qemu e name w = elim e.launch [
  | launched ↦ (
    ok tt,
    record w {
      files = write (qmp name) bytes (write (pid name) bytes (write (log name) bytes w.files));
      running = name ∷ w.running;
    },
  )
  | died ↦ (err exit, record w { files = write (log name) bytes w.files })
  | refused ↦ (err exit, w)
]

-- Steps that only ask the guest: `check_layout`, `_seed_kdump_boot` and `_check_nic_numa`.
abbrev pub ask : Result Done → Result Done → Result Done
ask (ok _) r = r
ask (err x) r = err x

-- `provision_vm_ssh`, and the steps after it. `early` is `register_before_wait`.
unfoldable pub provision : Meets → Bool → String → Action World Done
provision e true name w = (
  ask e.ssh (ask e.deploy_key (ask e.layout (ask e.kdump e.nic_numa))),
  record w { registered = name ∷ w.registered },
)
provision e false name w = elim e.ssh [
  | err x ↦ (err x, w)
  | ok _ ↦ (
    ask e.deploy_key (ask e.layout (ask e.kdump e.nic_numa)),
    record w { registered = name ∷ w.registered },
  )
]

unfoldable pub launch_and_provision : Meets → Bool → String → Action World Done
launch_and_provision e early name w = elim (launch_qemu e name w).0 [
  | err x ↦ (err x, (launch_qemu e name w).1)
  | ok _ ↦ provision e early name (launch_qemu e name w).1
]

-- `VMInfo.save`, which replaces the file or fails.
unfoldable pub save_vm : Result Done → VmInfo → Action World Done
save_vm saved vm w = elim saved [
  | err x ↦ (err x, w)
  | ok _ ↦ (ok tt, record w { files = write (info vm.name) (fields vm) w.files })
]

abbrev pub with_drivers : Recorded → VmInfo → VmInfo
with_drivers rec vm = record vm { passthrough_drivers = rec }

-- `_launch_and_wait`: how it ends, what it recorded of the devices, and what it leaves.
unfoldable pub launch_and_wait :
    Meets → VmInfo → List String → World → Result Done × Recorded × World
launch_and_wait e vm [] w =
    let go = launch_and_provision e false vm.name w in (go.0, vm.passthrough_drivers, go.1)
launch_and_wait e vm (bdf ∷ bdfs) w =
    let b = bind_each e.bus (bdf ∷ bdfs) vm.passthrough_drivers w.drivers in
    let bound = record w { drivers = b.2 } in
    elim b.0 [
      | err x ↦ (err x, b.1, bound)
      | ok _ ↦ elim (save_vm e.resave (with_drivers b.1 vm) bound).0 [
        | err x ↦ (err x, b.1, (save_vm e.resave (with_drivers b.1 vm) bound).1)
        | ok _ ↦
            let go =
              launch_and_provision e false vm.name
                (save_vm e.resave (with_drivers b.1 vm) bound).1 in
            (go.0, b.1, go.1)
      ]
    ]

-- `log_path.rename`
unfoldable pub preserve_log : Meets → String → Files → Files
preserve_log e name fs = elim (content (log name) fs) [
  | none ↦ fs
  | some c ↦ if e.rename_log then write (failed_log name) c (remove (log name) fs) else fs
]

abbrev pub without_name : String → List String → List String
without_name name = keep (λ n. not (n == name))

-- `_rollback_launch_failure`; a step that fails is only reported.
unfoldable pub rollback_launch_failure : Meets → String → Recorded → World → World
rollback_launch_failure e name rec w = record {
  files = (destroy_vm_artifacts e.host name (preserve_log e name w.files)).1;
  drivers = rebind_each e.bus rec w.drivers;
  registered = if e.unregister then without_name name w.registered else w.registered;
  running = elim e.kill [ ok _ ↦ without_name name w.running | err _ ↦ w.running ];
}

-- The VM that is recorded: `disk_dir` and `shared` come from the checks.
abbrev pub new_vm : Args → String → ℕ → Option VmInfo → VmInfo
new_vm a dir size shared = record {
  name = a.name;
  ip = "";
  mdt_disks = elim shared [ none ↦ a.mdt_disks | some _ ↦ 0 ];
  ost_disks = elim shared [ none ↦ a.ost_disks | some _ ↦ 0 ];
  disk_size = elim shared [ none ↦ size | some owner ↦ owner.disk_size ];
  share_disks = a.share_disks;
  disks_from = a.disks_from;
  disk_dir = dir;
  nics = a.nic_count;
  passthrough_drivers = [];
}

-- `_allocate_and_persist_vm`, from the second look for the `.info` file on.
unfoldable pub persist_vm : Meets → VmInfo → Action World Done
persist_vm e vm w = elim (content (info vm.name) w.files) [
  | some _ ↦ (err exit, w)
  | none ↦ elim e.numa [
    | err x ↦ (err x, w)
    | ok _ ↦ elim (create_disks e.host vm w.files).0 [
      | err x ↦ (err x, record w { files = (create_disks e.host vm w.files).1 })
      | ok _ ↦ save_vm e.save vm (record w { files = (create_disks e.host vm w.files).1 })
    ]
  ]
]

-- `cmd_create` once the checks are passed.
unfoldable pub create_vm : Meets → VmInfo → List String → Action World Done
create_vm e vm bdfs w = elim (persist_vm e vm w).0 [
  | err x ↦ (err x, (persist_vm e vm w).1)
  | ok _ ↦
      let run = launch_and_wait e vm bdfs (persist_vm e vm w).1 in
      elim run.0 [
        | ok _ ↦ (ok tt, run.2)
        | err x ↦ (err x, rollback_launch_failure e vm.name run.1 run.2)
      ]
]

-- `_handle_existing_vm`, of a VM that has a `.info` file.
unfoldable pub handle_existing_vm : Meets → String → Content → Action World Done
handle_existing_vm e name bytes w = (err value_error, w)
handle_existing_vm e name (fields vm) w =
    if contains w.running vm.name
    then elim (ask e.ssh e.layout) [
      | err x ↦ (err x, w)
      | ok _ ↦ (ok tt, record w { registered = vm.name ∷ w.registered })
    ]
    else launch_and_provision e false vm.name w

-- What the checks make of the arguments: the VM to create and its devices.
unfoldable pub check_create : Meets → Args → Files → Result (VmInfo × List String)
check_create e a fs = elim (validate_create_bounds e.shown a fs) [
  | err x ↦ err x
  | ok bdfs ↦ elim (validate_failover_disks a fs) [
    | err x ↦ err x
    | ok shared ↦ elim (validate_disk_options e.shown a) [
      | err x ↦ err x
      | ok dir ↦ elim (check_tap_collision e.shown a.name a.nic_count fs) [
        | err x ↦ err x
        | ok _ ↦ elim e.artifacts [
          | err x ↦ err x
          | ok _ ↦ elim e.sizes [ err x ↦ err x | ok size ↦ ok (new_vm a dir size shared, bdfs) ]
        ]
      ]
    ]
  ]
]

-- `cmd_create` of a VM, past the checks of the name, the owner and the kernel arguments.
unfoldable pub create_or_converge : Meets → Args → Action World Done
create_or_converge e a w =
    let fresh : Result Done × World = elim (check_create e a w.files) [
      | err x ↦ (err x, w)
      | ok (vm, bdfs) ↦ if a.dry_run then (ok tt, w) else elim e.address [
        | err x ↦ (err x, w)
        | ok ip ↦ create_vm e (record vm { ip = ip }) bdfs w
      ]
    ] in
    elim (content (info a.name) w.files) [
      | none ↦ fresh
      | some c ↦ if a.dry_run then fresh else handle_existing_vm e a.name c w
    ]

-- `cmd_create`
unfoldable pub cmd_create : Meets → Args → Action World Done
unfolding create_or_converge
cmd_create e a w =
    if not (validate_vm_name a.name) then (err exit, w) else elim (e.owner a.owner_id) [
      | err x ↦ (err exit, w)
      | ok _ ↦ elim (validate_kernel_args (codes a.kernel_args)) [
        | err x ↦ (err x, w)
        | ok _ ↦ create_or_converge e a w
      ]
    ]
