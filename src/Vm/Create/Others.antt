-- ===== src/Vm/Create/Others.antt =====
-- That a creation leaves the `.info` files of other VMs alone.
use lustre_test_vms.Base.{
  String, ◌≡◌, ◌≢◌, refl, ◌∙◌, inl, inr, false, List, [], ◌∷◌, ◌++◌, keep, arith, nat_eq, string_eq,
  ◌==◌, Bool-cases, Option-cases,
}
use lustre_test_vms.Result.{Result-cases}
use lustre_test_vms.Vm.Files.{
  VmInfo, File, overlay, qmp, pid, info, log, info_lock, same_file, Content, bytes, fields, Files,
  content, load, artifacts, destroy_vm_artifacts, create_disks, file_names, is_globbed, is_disk_of,
  recorded_disks, disk_dir_files,
}
use lustre_test_vms.Vm.Files as VmFiles
use lustre_test_vms.Vm.Files.Laws.{among, among-keep, unlink_all-Other}
use lustre_test_vms.Vm.Files.Destroyed.{among-append}
use lustre_test_vms.Vm.Devices.{Recorded}
use lustre_test_vms.Vm.Create.{
  World, Meets, launch_and_wait, preserve_log, rollback_launch_failure, persist_vm, create_vm,
}
use lustre_test_vms.Vm.Create.Touched.{launch_and_wait-content}
use lustre_test_vms.Vm.Create.Launched.{preserve_log-content}
use lustre_test_vms.Vm.Create.Record.{
  log-info, failed_log-info, same_info, is_live-info, create_disks-info, save_vm-info,
}

recorded_disks-info :
    (name : String) (fs : Files) (m : String) → among (recorded_disks name fs) (info m) ≡ false
unfolding recorded_disks disk_dir_files is_disk_of
recorded_disks-info name fs m = elim (Option-cases (load name fs)) [
  | inl z ↦ ground arith
  | inr (vm, z) ↦ elim (Bool-cases (vm.disk_dir == "")) [
    | inl d ↦ ground arith
    | inr d ↦ ground (arith, among-keep (is_disk_of vm.disk_dir name) (info m) (file_names fs) refl)
  ]
]

small_files-info :
    (name m : String)
    → m ≢ name
    → among (qmp name ∷ pid name ∷ info name ∷ log name ∷ info_lock name ∷ []) (info m) ≡ false
unfolding same_file nat_eq
small_files-info name m d = ground arith

overlay-info : (name m : String) → same_file (overlay name) (info m) ≡ false
unfolding same_file nat_eq
overlay-info name m = refl

artifacts-info :
    (e : VmFiles.Host) (name : String) (fs : Files) (m : String)
    → m ≢ name
    → among (artifacts e name fs) (info m) ≡ false
unfolding artifacts is_globbed
artifacts-info e name fs m d =
    let glob = keep (is_globbed e name) (file_names fs) in
    let small = qmp name ∷ pid name ∷ info name ∷ log name ∷ info_lock name ∷ [] in
    ground (
      arith,
      overlay-info name m,
      among-append glob (recorded_disks name fs ++ small) (info m),
      among-append (recorded_disks name fs) small (info m),
      among-keep (is_globbed e name) (info m) (file_names fs) refl,
      recorded_disks-info name fs m,
      small_files-info name m d,
    )

rollback_launch_failure-Other :
    (e : Meets) (name : String) (rec : Recorded) (w : World) (m : String)
    → m ≢ name
    → content (info m) (rollback_launch_failure e name rec w).files ≡ content (info m) w.files
unfolding rollback_launch_failure destroy_vm_artifacts
rollback_launch_failure-Other e name rec w m d =
    let fs = preserve_log e name w.files in
    let kept =
      preserve_log-content e name w.files (info m) (log-info name m) (failed_log-info name m) in
    elim (unlink_all-Other e.host (artifacts e.host name fs) (info m) fs) [
      | inl (_, within) ↦ absurd (ground (arith, within, artifacts-info e.host name fs m d))
      | inr same ↦ same ∙ kept
    ]

persist_vm-Other :
    (e : Meets) (vm : VmInfo) (w : World) (m : String)
    → m ≢ vm.name
    → content (info m) (persist_vm e vm w).1.files ≡ content (info m) w.files
unfolding persist_vm
persist_vm-Other e vm w m d = elim (Option-cases (content (info vm.name) w.files)) [
  | inr (_, c) ↦ ground arith
  | inl c ↦ elim (Result-cases e.numa) [
    | inr (x, r) ↦ ground arith
    | inl (_, r) ↦
        let made = create_disks-info e.host vm w.files m in
        let u = record w { files = (create_disks e.host vm w.files).1 } in
        elim (Result-cases (create_disks e.host vm w.files).0) [
          | inr (x, s) ↦ ground (arith, made)
          | inl (_, s) ↦ ground (arith, made, save_vm-info e.save vm u m)
        ]
  ]
]

pub create_vm-Other :
    (e : Meets) (vm : VmInfo) (bdfs : List String) (w : World) (m : String)
    → m ≢ vm.name
    → content (info m) (create_vm e vm bdfs w).1.files ≡ content (info m) w.files
unfolding create_vm
create_vm-Other e vm bdfs w m d =
    let p = persist_vm e vm w in
    let first = persist_vm-Other e vm w m d in
    let run = launch_and_wait e vm bdfs p.1 in
    let second =
      launch_and_wait-content e vm bdfs p.1 (info m) (is_live-info vm.name m)
        (ground (arith, same_info vm.name m)) in
    elim (Result-cases p.0) [
      | inr (x, r) ↦ ground (arith, first)
      | inl (_, r) ↦ elim (Result-cases run.0) [
        | inl (_, l) ↦ ground (arith, first, second)
        | inr (x, l) ↦
            ground (arith, first, second, rollback_launch_failure-Other e vm.name run.1 run.2 m d)
      ]
    ]
