-- ===== src/Vm/Create/Restores.antt =====
-- That a creation that fails is undone.
use lustre_test_vms.Base.{
  String, ◌≡◌, refl, ◌∙◌, ◌⊎◌, inl, inr, true, false, not, none, some, List, [], ◌∷◌, any, arith,
  nat_eq, string_eq, Bool-cases, Option-cases,
}
use lustre_test_vms.Result.{ok, err, exit, Err, Result-cases}
use lustre_test_vms.Vm.Files.{
  VmInfo, File, overlay, info, log, failed_log, pid, qmp, info_lock, same_file, Content, bytes,
  fields, Files, content, write, remove, load, artifacts, destroy_vm_artifacts, create_disks,
}
use lustre_test_vms.Vm.Files as VmFiles
use lustre_test_vms.Vm.Files.Laws.{among, can_remove, left_of, content-write, same_file_refl}
use lustre_test_vms.Vm.Files.Destroyed.{takes, destroy_vm_artifacts-content}
use lustre_test_vms.Vm.Files.Created.{images, create_disks-Whole}
use lustre_test_vms.Vm.Devices.{Recorded}
use lustre_test_vms.Vm.Create.{
  World, Meets, save_vm, preserve_log, rollback_launch_failure, persist_vm,
}
use lustre_test_vms.Vm.Create.Touched.{covers, images-covers}
use lustre_test_vms.Vm.Create.Launched.{Known, preserve_log-content}

-- What is removed is what carries the name.
takes-covers :
    (e : VmFiles.Host) (name dir : String) (fs : Files) (g : File)
    → Known name dir fs
    → takes e name fs g ≡ covers e name dir g
unfolding load
takes-covers e name dir fs g (v, c, d) = ground (arith, c, d)

pub log_is_info : (name : String) → same_file (log name) (info name) ≡ false
unfolding same_file nat_eq
log_is_info name = refl

pub failed_is_info : (name : String) → same_file (failed_log name) (info name) ≡ false
unfolding same_file nat_eq
failed_is_info name = refl

preserve_log-Known :
    (e : Meets) (name dir : String) (fs : Files)
    → Known name dir fs
    → Known name dir (preserve_log e name fs)
preserve_log-Known e name dir fs (v, c, d) =
    (v, preserve_log-content e name fs (info name) (log_is_info name) (failed_is_info name) ∙ c, d)

pub rollback_launch_failure-content :
    (e : Meets) (name dir : String) (rec : Recorded) (w : World) (g : File)
    → any (λ f. not (can_remove e.host f)) (artifacts e.host name (preserve_log e name w.files))
      ≡ false
    → Known name dir w.files
    → same_file (failed_log name) g ≡ false
    → content g (rollback_launch_failure e name rec w).files
      ≡ left_of (covers e.host name dir g) (content g w.files)
unfolding rollback_launch_failure
rollback_launch_failure-content e name dir rec w g can k n =
    let fs = preserve_log e name w.files in
    let gone = (destroy_vm_artifacts-content e.host name fs g can).1 in
    let same = takes-covers e.host name dir fs g (preserve_log-Known e name dir w.files k) in
    elim (Bool-cases (covers e.host name dir g)) [
      | inl o ↦ ground (arith, gone, same, o)
      | inr o ↦
          ground (arith, gone, same, o, preserve_log-content e name w.files g (ground arith) n)
    ]

pub all_removable :
    (e : VmFiles.Host) (fs : List File)
    → ((f : File) → can_remove e f ≡ true)
    → any (λ f. not (can_remove e f)) fs ≡ false
all_removable e [] can = refl
all_removable e (f ∷ fs) can = ground (arith, can f, all_removable e fs can)

-- What the first part of a creation leaves besides files.
unfoldable pub SameRest : World → World → Type 0
SameRest w u = (u.drivers ≡ w.drivers) × (u.registered ≡ w.registered) × (u.running ≡ w.running)

pub persist_vm-SameRest : (e : Meets) (vm : VmInfo) (w : World) → SameRest w (persist_vm e vm w).1
unfolding SameRest persist_vm save_vm
persist_vm-SameRest e vm w = elim (Option-cases (content (info vm.name) w.files)) [
  | inr (_, c) ↦ (ground arith, ground arith, ground arith)
  | inl c ↦ elim (Result-cases e.numa) [
    | inr (_, n) ↦ (ground arith, ground arith, ground arith)
    | inl (_, n) ↦ elim (Result-cases (create_disks e.host vm w.files).0) [
      | inr (_, d) ↦ (ground arith, ground arith, ground arith)
      | inl (_, d) ↦ elim (Result-cases e.save) [
        | inr (_, s) ↦ (ground arith, ground arith, ground arith)
        | inl (_, s) ↦ (ground arith, ground arith, ground arith)
      ]
    ]
  ]
]

-- The first part of a creation either records the VM, and touches only its own files, or fails and leaves
-- all files as they were.
pub persist_vm-content :
    (e : Meets) (vm : VmInfo) (w : World) (g : File)
    → ((f : File) → can_remove e.host f ≡ true)
    → e.save ≡ ok tt
    → ((f : File) → covers e.host vm.name vm.disk_dir f ≡ true → content f w.files ≡ none)
    → (((persist_vm e vm w).0 ≡ ok tt)
        × (content (info vm.name) (persist_vm e vm w).1.files ≡ some (fields vm))
        × (covers e.host vm.name vm.disk_dir g ≡ false
            → content g (persist_vm e vm w).1.files ≡ content g w.files))
      ⊎ ((x : Err) × ((persist_vm e vm w).0 ≡ err x)
          × (content g (persist_vm e vm w).1.files ≡ content g w.files))
unfolding persist_vm save_vm
persist_vm-content e vm w g can saves fresh =
    let absent : among (images e.host vm) g ≡ true → content g w.files ≡ none =
      λ h. fresh g (images-covers e.host vm g h) in
    elim (Option-cases (content (info vm.name) w.files)) [
      | inr (_, c) ↦ inr (exit, ground arith, ground arith)
      | inl c ↦ elim (Result-cases e.numa) [
        | inr (x, n) ↦ inr (x, ground arith, ground arith)
        | inl (_, n) ↦
            let made =
              create_disks-Whole e.host vm w.files g (all_removable e.host (images e.host vm) can)
                absent in
            let fs = (create_disks e.host vm w.files).1 in
            elim made [
              | inr (x, r, same) ↦ inr (x, ground arith, ground (arith, same))
              | inl (r, has) ↦ inl (
                ground arith,
                ground (
                  arith,
                  content-write (info vm.name) (info vm.name) (fields vm) fs,
                  same_file_refl (info vm.name),
                ),
                λ o. elim (Bool-cases (among (images e.host vm) g)) [
                  | inl a ↦ absurd (ground (arith, images-covers e.host vm g a, o))
                  | inr a ↦ ground (arith, has, a, o, content-write (info vm.name) g (fields vm) fs)
                ],
              )
            ]
      ]
    ]
