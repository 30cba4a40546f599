-- ===== src/Vm/Create/Launched.antt =====
-- What a launch leaves besides files.
use lustre_test_vms.Base.{
  String, ◌≡◌, ◌≢◌, refl, sym, ap, ◌∙◌, inl, inr, false, some, List, [], ◌∷◌, arith, nat_eq,
  string_eq, ◌==◌, contains, Bool-cases, Option-cases,
}
use lustre_test_vms.Result.{Result, ok, Done, Result-cases}
use lustre_test_vms.Vm.Files.{
  VmInfo, File, info, log, failed_log, same_file, fields, Files, content, remove,
}
use lustre_test_vms.Vm.Files.Laws.{content-write, content-remove, same_file_refl}
use lustre_test_vms.Vm.Devices.{Drivers, Recorded, Bus, bind_each}
use lustre_test_vms.Vm.Create.{
  World, Meets, launch_qemu, provision, launch_and_provision, save_vm, with_drivers,
  launch_and_wait, preserve_log, without_name,
}
use lustre_test_vms.Vm.Create.Touched.{
  launch_cases, provision-files, is_live, launch_and_provision-content,
}

pub is_live-info : (name : String) → is_live name (info name) ≡ false
unfolding same_file nat_eq
is_live-info name = refl

-- The `.info` file names the directory of the disks.
abbrev pub Known : String → String → Files → Type 0
Known name dir fs = (v : VmInfo) × (content (info name) fs ≡ some (fields v)) × (v.disk_dir ≡ dir)

launch_and_provision-Known :
    (e : Meets) (name dir : String) (w : World)
    → Known name dir w.files
    → Known name dir (launch_and_provision e false name w).1.files
launch_and_provision-Known e name dir w (v, c, d) =
    (v, launch_and_provision-content e false name w (info name) (is_live-info name) ∙ c, d)

save_vm-Known :
    (e : Result Done) (vm : VmInfo) (w : World)
    → Known vm.name vm.disk_dir w.files
    → Known vm.name vm.disk_dir (save_vm e vm w).1.files
unfolding save_vm
save_vm-Known e vm w (v, c, d) = elim (Result-cases e) [
  | inr (x, r) ↦ (v, ground arith, d)
  | inl (_, r) ↦ (
    vm,
    ground (
      arith,
      content-write (info vm.name) (info vm.name) (fields vm) w.files,
      same_file_refl (info vm.name),
    ),
    refl,
  )
]

pub launch_and_wait-Known :
    (e : Meets) (vm : VmInfo) (bdfs : List String) (w : World)
    → Known vm.name vm.disk_dir w.files
    → Known vm.name vm.disk_dir (launch_and_wait e vm bdfs w).2.files
unfolding launch_and_wait
launch_and_wait-Known e vm [] w k = launch_and_provision-Known e vm.name vm.disk_dir w k
launch_and_wait-Known e vm (bdf ∷ bdfs) w k =
    let b = bind_each e.bus (bdf ∷ bdfs) vm.passthrough_drivers w.drivers in
    let saved = save_vm e.resave (with_drivers b.1 vm) (record w { drivers = b.2 }) in
    let here = save_vm-Known e.resave (with_drivers b.1 vm) (record w { drivers = b.2 }) k in
    let later = launch_and_provision-Known e vm.name vm.disk_dir saved.1 here in
    elim (Result-cases b.0) [
      | inr (x, r) ↦ (k.0, ground (arith, k.1), k.2)
      | inl (_, r) ↦ elim (Result-cases saved.0) [
        | inr (x, s) ↦ (here.0, ground (arith, here.1), here.2)
        | inl (_, s) ↦ (later.0, ground (arith, later.1), later.2)
      ]
    ]

-- The names that are registered, and that run, are the same but for one.
abbrev pub SameNames : String → World → World → Type 0
SameNames m w u =
    (contains u.registered m ≡ contains w.registered m)
    × (contains u.running m ≡ contains w.running m)

launch_and_provision-SameNames :
    (e : Meets) (name m : String) (w : World)
    → m ≢ name
    → SameNames m w (launch_and_provision e false name w).1
unfolding launch_and_provision launch_qemu provision
launch_and_provision-SameNames e name m w d = elim (launch_cases e.launch) [
  | inr (inl z) ↦ (ground arith, ground arith)
  | inr (inr z) ↦ (ground arith, ground arith)
  | inl z ↦ elim (Result-cases e.ssh) [
    | inl (_, r) ↦ (ground arith, ground arith)
    | inr (x, r) ↦ (ground arith, ground arith)
  ]
]

pub launch_and_wait-SameNames :
    (e : Meets) (vm : VmInfo) (bdfs : List String) (m : String) (w : World)
    → m ≢ vm.name
    → SameNames m w (launch_and_wait e vm bdfs w).2
unfolding launch_and_wait save_vm
launch_and_wait-SameNames e vm [] m w d = launch_and_provision-SameNames e vm.name m w d
launch_and_wait-SameNames e vm (bdf ∷ bdfs) m w d =
    let b = bind_each e.bus (bdf ∷ bdfs) vm.passthrough_drivers w.drivers in
    let saved = save_vm e.resave (with_drivers b.1 vm) (record w { drivers = b.2 }) in
    let later = launch_and_provision-SameNames e vm.name m saved.1 d in
    elim (Result-cases b.0) [
      | inr (x, r) ↦ (ground arith, ground arith)
      | inl (_, r) ↦ elim (Result-cases e.resave) [
        | inr (x, s) ↦ (ground arith, ground arith)
        | inl (_, s) ↦ (ground (arith, later), ground (arith, later))
      ]
    ]

launch_and_provision-drivers :
    (e : Meets) (name : String) (w : World)
    → (launch_and_provision e false name w).1.drivers ≡ w.drivers
unfolding launch_and_provision launch_qemu
launch_and_provision-drivers e name w = elim (launch_cases e.launch) [
  | inr (inl z) ↦ ground arith
  | inr (inr z) ↦ ground arith
  | inl z ↦ ground (arith, provision-files e false name (launch_qemu e name w).1)
]

bind_each-nil : (e : Bus) (rec : Recorded) (ds : Drivers) → bind_each e [] rec ds ≡ (ok tt, rec, ds)
unfolding bind_each
bind_each-nil e rec ds = refl

-- The drivers, and what is recorded of them, are as the loop that binds leaves them.
pub launch_and_wait-drivers :
    (e : Meets) (vm : VmInfo) (bdfs : List String) (w : World)
    → ((launch_and_wait e vm bdfs w).1 ≡ (bind_each e.bus bdfs vm.passthrough_drivers w.drivers).1)
      × ((launch_and_wait e vm bdfs w).2.drivers
          ≡ (bind_each e.bus bdfs vm.passthrough_drivers w.drivers).2)
unfolding launch_and_wait save_vm
launch_and_wait-drivers e vm [] w = (
  ground (arith, bind_each-nil e.bus vm.passthrough_drivers w.drivers),
  launch_and_provision-drivers e vm.name w
      ∙ sym (
          ap (λ (r : Result Done × Recorded × Drivers). r.2)
            (bind_each-nil e.bus vm.passthrough_drivers w.drivers)),
)
launch_and_wait-drivers e vm (bdf ∷ bdfs) w =
    let b = bind_each e.bus (bdf ∷ bdfs) vm.passthrough_drivers w.drivers in
    let saved = save_vm e.resave (with_drivers b.1 vm) (record w { drivers = b.2 }) in
    let later = launch_and_provision-drivers e vm.name saved.1 in
    elim (Result-cases b.0) [
      | inr (x, r) ↦ (ground arith, ground arith)
      | inl (_, r) ↦ elim (Result-cases e.resave) [
        | inr (x, s) ↦ (ground arith, ground arith)
        | inl (_, s) ↦ (ground arith, ground (arith, later))
      ]
    ]

pub preserve_log-content :
    (e : Meets) (name : String) (fs : Files) (g : File)
    → same_file (log name) g ≡ false
    → same_file (failed_log name) g ≡ false
    → content g (preserve_log e name fs) ≡ content g fs
unfolding preserve_log
preserve_log-content e name fs g n m = elim (Option-cases (content (log name) fs)) [
  | inl z ↦ ground arith
  | inr (c, z) ↦ elim (Bool-cases e.rename_log) [
    | inr y ↦ ground arith
    | inl y ↦ ground (
      arith,
      content-write (failed_log name) g c (remove (log name) fs),
      content-remove (log name) g fs,
    )
  ]
]

pub contains-without_name :
    (name m : String) (xs : List String)
    → m ≢ name
    → contains (without_name name xs) m ≡ contains xs m
contains-without_name name m [] d = refl
contains-without_name name m (x ∷ xs) d = elim (Bool-cases (x == name)) [
  | inl e ↦ ground (arith, contains-without_name name m xs d)
  | inr e ↦ ground (arith, contains-without_name name m xs d)
]
