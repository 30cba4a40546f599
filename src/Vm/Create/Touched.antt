-- ===== src/Vm/Create/Touched.antt =====
-- Which files the steps of a creation touch.
use lustre_test_vms.Base.{
  ℕ, String, ◌≡◌, refl, ◌⊎◌, inl, inr, Bool, true, false, not, ◌||◌, ◌&&◌, List, [], ◌∷◌, arith,
  nat_eq, string_eq, ◌==◌, Bool-cases, Option-cases,
}
use lustre_test_vms.Result.{Result, Done, Result-cases}
use lustre_test_vms.Qemu.{strip}
use lustre_test_vms.Vm.Files.{
  VmInfo, File, overlay, info, log, failed_log, pid, qmp, info_lock, disk, same_file, Content,
  bytes, fields, Files, content, write, remove, load, dot_img, disk_prefix, is_globbed, is_disk_of,
  is_number_img, ends_img, artifacts, destroy_vm_artifacts, disk_paths,
}
use lustre_test_vms.Vm.Files as VmFiles
use lustre_test_vms.Vm.Files.Laws.{among, content-write}
use lustre_test_vms.Vm.Files.Created.{images, disk_paths-Named}
use lustre_test_vms.Vm.Devices.{bind_each}
use lustre_test_vms.Vm.Create.{
  World, Meets, Launch, launched, died, refused, launch_qemu, provision, launch_and_provision,
  save_vm, with_drivers, launch_and_wait,
}

-- The files of a VM, with the directory of its disks, and all that a removal of it takes: among the overlays,
-- whatever `<name>-disk*.img` matches, which may be a disk of another VM (of `a-disk1`, where `a` is removed).
abbrev pub covers : VmFiles.Host → String → String → File → Bool
covers e name dir f =
    same_file (overlay name) f
    || (is_globbed e name f
        || ((not (dir == "") && is_disk_of dir name f)
            || among (qmp name ∷ pid name ∷ info name ∷ log name ∷ info_lock name ∷ []) f))

number_img-ends : (seen : Bool) (cs : List ℕ) → is_number_img seen cs ≡ true → ends_img cs ≡ true
unfolding is_number_img ends_img
number_img-ends seen [] h = absurd (ground arith)
number_img-ends seen (c ∷ cs) h = elim (Bool-cases (is_number_img true cs)) [
  | inl e ↦ ground (arith, number_img-ends true cs e)
  | inr e ↦ ground arith
]

-- A disk among the overlays is one that the pattern for them finds.
is_disk_of-globbed :
    (e : VmFiles.Host) (name : String) (f : File)
    → is_disk_of e.overlays name f ≡ true
    → is_globbed e name f ≡ true
unfolding is_disk_of is_globbed
is_disk_of-globbed e name (disk dir n) h = elim (Option-cases (strip (disk_prefix name) n)) [
  | inl z ↦ absurd (ground arith)
  | inr (rest, z) ↦ ground (arith, number_img-ends false rest)
]
is_disk_of-globbed e name (overlay a) h = absurd (ground arith)
is_disk_of-globbed e name (qmp a) h = absurd (ground arith)
is_disk_of-globbed e name (pid a) h = absurd (ground arith)
is_disk_of-globbed e name (info a) h = absurd (ground arith)
is_disk_of-globbed e name (log a) h = absurd (ground arith)
is_disk_of-globbed e name (failed_log a) h = absurd (ground arith)
is_disk_of-globbed e name (info_lock a) h = absurd (ground arith)

-- The images of a VM are its own.
pub images-covers :
    (e : VmFiles.Host) (vm : VmInfo) (f : File)
    → among (images e vm) f ≡ true
    → covers e vm.name vm.disk_dir f ≡ true
images-covers e vm f h = elim (Bool-cases (same_file (overlay vm.name) f)) [
  | inl s ↦ ground arith
  | inr d ↦
      let named = disk_paths-Named e vm f (ground arith) in
      elim (Bool-cases (vm.disk_dir == "")) [
        | inl z ↦ ground (arith, named, is_disk_of-globbed e vm.name f)
        | inr z ↦ ground (arith, named)
      ]
]

pub launch_cases : (a : Launch) → (a ≡ launched) ⊎ ((a ≡ died) ⊎ (a ≡ refused))
launch_cases launched = inl refl
launch_cases died = inr (inl refl)
launch_cases refused = inr (inr refl)

pub provision-files :
    (e : Meets) (early : Bool) (name : String) (w : World)
    → ((provision e early name w).1.files ≡ w.files)
      × ((provision e early name w).1.drivers ≡ w.drivers)
      × ((provision e early name w).1.running ≡ w.running)
unfolding provision
provision-files e true name w = (refl, refl, refl)
provision-files e false name w = elim (Result-cases e.ssh) [
  | inl (_, r) ↦ (ground arith, ground arith, ground arith)
  | inr (x, r) ↦ (ground arith, ground arith, ground arith)
]

-- What a launch touches.
abbrev pub is_live : String → File → Bool
is_live name g = same_file (qmp name) g || (same_file (pid name) g || same_file (log name) g)

launch_qemu-content :
    (e : Meets) (name : String) (w : World) (g : File)
    → is_live name g ≡ false
    → content g (launch_qemu e name w).1.files ≡ content g w.files
unfolding launch_qemu
launch_qemu-content e name w g n = elim (launch_cases e.launch) [
  | inl z ↦
      let one = write (log name) bytes w.files in
      let two = write (pid name) bytes one in
      ground (
        arith,
        content-write (log name) g bytes w.files,
        content-write (pid name) g bytes one,
        content-write (qmp name) g bytes two,
      )
  | inr (inl z) ↦ ground (arith, content-write (log name) g bytes w.files)
  | inr (inr z) ↦ ground arith
]

pub launch_and_provision-content :
    (e : Meets) (early : Bool) (name : String) (w : World) (g : File)
    → is_live name g ≡ false
    → content g (launch_and_provision e early name w).1.files ≡ content g w.files
unfolding launch_and_provision
launch_and_provision-content e early name w g n =
    let here = launch_qemu-content e name w g n in
    elim (Result-cases (launch_qemu e name w).0) [
      | inr (x, r) ↦ ground (arith, here)
      | inl (_, r) ↦ ground (arith, here, provision-files e early name (launch_qemu e name w).1)
    ]

pub save_vm-content :
    (e : Result Done) (vm : VmInfo) (w : World) (g : File)
    → same_file (info vm.name) g ≡ false
    → content g (save_vm e vm w).1.files ≡ content g w.files
unfolding save_vm
save_vm-content e vm w g n = elim (Result-cases e) [
  | inr (x, r) ↦ ground arith
  | inl (_, r) ↦ ground (arith, content-write (info vm.name) g (fields vm) w.files)
]

pub launch_and_wait-content :
    (e : Meets) (vm : VmInfo) (bdfs : List String) (w : World) (g : File)
    → is_live vm.name g ≡ false
    → same_file (info vm.name) g ≡ false
    → content g (launch_and_wait e vm bdfs w).2.files ≡ content g w.files
unfolding launch_and_wait
launch_and_wait-content e vm [] w g n i = launch_and_provision-content e false vm.name w g n
launch_and_wait-content e vm (bdf ∷ bdfs) w g n i =
    let b = bind_each e.bus (bdf ∷ bdfs) vm.passthrough_drivers w.drivers in
    let saved = save_vm e.resave (with_drivers b.1 vm) (record w { drivers = b.2 }) in
    let here = save_vm-content e.resave (with_drivers b.1 vm) (record w { drivers = b.2 }) g i in
    let later = launch_and_provision-content e false vm.name saved.1 g n in
    elim (Result-cases b.0) [
      | inr (x, r) ↦ ground arith
      | inl (_, r) ↦ elim (Result-cases saved.0) [
        | inr (x, s) ↦ ground (arith, here)
        | inl (_, s) ↦ ground (arith, here, later)
      ]
    ]
