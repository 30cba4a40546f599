-- ===== src/Vm/Create/Record.antt =====
-- What a creation makes of the `.info` files, however it ends.
use lustre_test_vms.Base.{
  ℕ, zero, suc, ◌+◌, String, ◌≡◌, refl, sym, ap, subst, ◌∙◌, ◌⊎◌, inl, inr, true, false, ◌||◌,
  Option, none, some, List, [], ◌∷◌, arith, nat_eq, string_eq, ◌==◌, contains,
}
use lustre_test_vms.Result.{Result, Done, Result-cases}
use lustre_test_vms.Vm.Files.{
  VmInfo, File, overlay, disk, info, log, failed_log, same_file, Content, fields, Files, content,
  artifacts, destroy_vm_artifacts, create_disks, make_disks, disk_paths, numbered_disks,
}
use lustre_test_vms.Vm.Files as VmFiles
use lustre_test_vms.Vm.Files.Laws.{among, content-write, unlink_all-Other}
use lustre_test_vms.Vm.Files.Created.{images, make_disks-content}
use lustre_test_vms.Vm.Devices.{Drivers, Recorded, Bus, bind_to_vfio, bind_each, put, has_key}
use lustre_test_vms.Vm.Create.{
  World, Meets, save_vm, with_drivers, launch_and_wait, preserve_log, rollback_launch_failure,
  persist_vm, create_vm,
}
use lustre_test_vms.Vm.Create.Touched.{is_live, launch_and_provision-content}
use lustre_test_vms.Vm.Create.Launched.{preserve_log-content}

pub same_info : (a b : String) → same_file (info a) (info b) ≡ (a == b)
unfolding same_file nat_eq
same_info a b = ground arith

pub is_live-info : (name m : String) → is_live name (info m) ≡ false
unfolding same_file nat_eq
is_live-info name m = refl

pub log-info : (name m : String) → same_file (log name) (info m) ≡ false
unfolding same_file nat_eq
log-info name m = refl

pub failed_log-info : (name m : String) → same_file (failed_log name) (info m) ≡ false
unfolding same_file nat_eq
failed_log-info name m = refl

numbered_disks-info :
    (dir name : String) (n count : ℕ) (m : String)
    → among (numbered_disks dir name n count) (info m) ≡ false
unfolding numbered_disks same_file nat_eq
numbered_disks-info dir name n zero m = refl
numbered_disks-info dir name n (suc count) m = numbered_disks-info dir name (suc n) count m

images-info : (e : VmFiles.Host) (vm : VmInfo) (m : String) → among (images e vm) (info m) ≡ false
unfolding disk_paths same_file nat_eq
images-info e vm m = numbered_disks-info _ vm.name 1 (vm.mdt_disks + vm.ost_disks) m

pub create_disks-info :
    (e : VmFiles.Host) (vm : VmInfo) (fs : Files) (m : String)
    → content (info m) (create_disks e vm fs).1 ≡ content (info m) fs
unfolding create_disks
create_disks-info e vm fs m =
    let apart = images-info e vm m in
    let made = make_disks-content e vm (info m) fs in
    let gone = unlink_all-Other e (images e vm) (info m) (make_disks e vm fs).1 in
    elim (Result-cases e.overlays_ready) [
      | inr (x, r) ↦ ground arith
      | inl (_, r) ↦ elim (Result-cases (make_disks e vm fs).0) [
        | inl (_, s) ↦ ground (arith, made.0 apart)
        | inr (x, s) ↦
            elim (Result-cases (VmFiles.unlink_all e (images e vm) (make_disks e vm fs).1).0) [
              | inl (_, t) ↦ ground (arith, made.0 apart, gone, apart)
              | inr (y, t) ↦ ground (arith, made.0 apart, gone, apart)
            ]
      ]
    ]

has_key-put :
    (k v b : String) (rec : Recorded) → has_key b (put k v rec) ≡ (k == b || has_key b rec)
has_key-put k v b [] = ground arith
has_key-put k v b (r ∷ rs) = ground (arith, has_key-put k v b rs)

-- Only the devices that are bound are recorded.
bind_each-has_key :
    (e : Bus) (bdfs : List String) (rec : Recorded) (ds : Drivers) (b : String)
    → has_key b (bind_each e bdfs rec ds).1 ≡ true
    → has_key b rec || contains bdfs b ≡ true
unfolding bind_each
bind_each-has_key e [] rec ds b h = ground arith
bind_each-has_key e (bdf ∷ bdfs) rec ds b h = elim (Result-cases (bind_to_vfio e bdf ds).0) [
  | inr (x, r) ↦ ground arith
  | inl (from, r) ↦
      let later =
        bind_each-has_key e bdfs (put bdf from rec) (bind_to_vfio e bdf ds).1 b (ground arith) in
      ground (arith, later, has_key-put bdf from b rec)
]

-- The file is not there, or holds the VM with some of its devices.
unfoldable pub Recording : VmInfo → List String → Option Content → Type 0
Recording vm bdfs c =
    (c ≡ none)
    ⊎ ((rec : Recorded) × (c ≡ some (fields (with_drivers rec vm)))
        × ((k : String) → has_key k rec ≡ true → contains bdfs k ≡ true))

pub save_vm-info :
    (e : Result Done) (vm : VmInfo) (w : World) (m : String)
    → ((content (info m) (save_vm e vm w).1.files ≡ some (fields vm)) × (m ≡ vm.name))
      ⊎ (content (info m) (save_vm e vm w).1.files ≡ content (info m) w.files)
unfolding save_vm
save_vm-info e vm w m = elim (Result-cases e) [
  | inr (x, r) ↦ inr (ground arith)
  | inl (_, r) ↦
      let new = content-write (info vm.name) (info m) (fields vm) w.files in
      ground (arith, new, same_info vm.name m)
]

with_drivers-same : (vm : VmInfo) → vm.passthrough_drivers ≡ [] → with_drivers [] vm ≡ vm
with_drivers-same vm n = ap (λ (d : Recorded). with_drivers d vm) (sym n)

persist_vm-Recording :
    (e : Meets) (vm : VmInfo) (bdfs : List String) (w : World)
    → vm.passthrough_drivers ≡ []
    → content (info vm.name) w.files ≡ none
    → Recording vm bdfs (content (info vm.name) (persist_vm e vm w).1.files)
unfolding persist_vm Recording
persist_vm-Recording e vm bdfs w n new = elim (Result-cases e.numa) [
  | inr (x, r) ↦ inl (ground arith)
  | inl (_, r) ↦
      let made = create_disks-info e.host vm w.files vm.name in
      elim (Result-cases (create_disks e.host vm w.files).0) [
        | inr (x, d) ↦ inl (ground (arith, made))
        | inl (_, d) ↦
            let u = record w { files = (create_disks e.host vm w.files).1 } in
            elim (save_vm-info e.save vm u vm.name) [
              | inl (s, _) ↦
                  inr (
                    [],
                    ground (arith, s, with_drivers-same vm n),
                    λ k. (λ h. absurd (ground arith)),
                  )
              | inr s ↦ inl (ground (arith, s, made))
            ]
      ]
]

save_vm-Recording :
    (e : Meets) (vm : VmInfo) (bdfs : List String) (rec : Recorded) (u : World)
    → ((k : String) → has_key k rec ≡ true → contains bdfs k ≡ true)
    → Recording vm bdfs (content (info vm.name) u.files)
    → Recording vm bdfs (content (info vm.name) (save_vm e.resave (with_drivers rec vm) u).1.files)
unfolding Recording
save_vm-Recording e vm bdfs rec u within q =
    elim (save_vm-info e.resave (with_drivers rec vm) u vm.name) [
      | inl (s, _) ↦ inr (rec, s, within)
      | inr s ↦ subst (Recording vm bdfs) (sym s) q
    ]

launch_and_wait-Recording :
    (e : Meets) (vm : VmInfo) (bdfs : List String) (w : World)
    → vm.passthrough_drivers ≡ []
    → Recording vm bdfs (content (info vm.name) w.files)
    → Recording vm bdfs (content (info vm.name) (launch_and_wait e vm bdfs w).2.files)
unfolding launch_and_wait
launch_and_wait-Recording e vm [] w n h =
    subst (Recording vm [])
      (sym (
        launch_and_provision-content e false vm.name w (info vm.name)
          (is_live-info vm.name vm.name)))
      h
launch_and_wait-Recording e vm (bdf ∷ bdfs) w n h =
    let b = bind_each e.bus (bdf ∷ bdfs) vm.passthrough_drivers w.drivers in
    let bound = record w { drivers = b.2 } in
    let saved = save_vm e.resave (with_drivers b.1 vm) bound in
    let live = is_live-info vm.name vm.name in
    let later = launch_and_provision-content e false vm.name saved.1 (info vm.name) live in
    let keep_saved : Recording vm (bdf ∷ bdfs) (content (info vm.name) saved.1.files) =
      save_vm-Recording e vm (bdf ∷ bdfs) b.1 bound
        (λ k. (λ q.
          ground
            (arith, bind_each-has_key e.bus (bdf ∷ bdfs) vm.passthrough_drivers w.drivers k q)))
        h in
    let at : Result Done × Recorded × World → Option Content =
      λ r. content (info vm.name) r.2.files in
    elim (Result-cases b.0) [
      | inr (x, r) ↦
          let turn : at (launch_and_wait e vm (bdf ∷ bdfs) w) ≡ content (info vm.name) w.files =
            ground arith in
          subst (Recording vm (bdf ∷ bdfs)) (sym turn) h
      | inl (_, r) ↦ elim (Result-cases saved.0) [
        | inr (x, s) ↦
            let turn : at (launch_and_wait e vm (bdf ∷ bdfs) w)
                ≡ content (info vm.name) saved.1.files =
              ground arith in
            subst (Recording vm (bdf ∷ bdfs)) (sym turn) keep_saved
        | inl (_, s) ↦
            let turn : at (launch_and_wait e vm (bdf ∷ bdfs) w)
                ≡ content (info vm.name) saved.1.files =
              ground (arith, later) in
            subst (Recording vm (bdf ∷ bdfs)) (sym turn) keep_saved
      ]
    ]

rollback_launch_failure-info :
    (e : Meets) (name : String) (rec : Recorded) (w : World) (m : String)
    → (content (info m) (rollback_launch_failure e name rec w).files ≡ none)
      ⊎ (content (info m) (rollback_launch_failure e name rec w).files ≡ content (info m) w.files)
unfolding rollback_launch_failure destroy_vm_artifacts
rollback_launch_failure-info e name rec w m =
    let fs = preserve_log e name w.files in
    let kept =
      preserve_log-content e name w.files (info m) (log-info name m) (failed_log-info name m) in
    elim (unlink_all-Other e.host (artifacts e.host name fs) (info m) fs) [
      | inl (gone, _) ↦ inl gone
      | inr same ↦ inr (same ∙ kept)
    ]

Recording-shrinks :
    (vm : VmInfo) (bdfs : List String) (b c : Option Content)
    → (c ≡ none) ⊎ (c ≡ b)
    → Recording vm bdfs b
    → Recording vm bdfs c
unfolding Recording
Recording-shrinks vm bdfs b c (inl g) h = inl g
Recording-shrinks vm bdfs b c (inr g) h = subst (Recording vm bdfs) (sym g) h

-- A creation leaves the `.info` file of the new VM absent, or with the VM and some of its devices.
pub create_vm-Recording :
    (e : Meets) (vm : VmInfo) (bdfs : List String) (w : World)
    → vm.passthrough_drivers ≡ []
    → content (info vm.name) w.files ≡ none
    → Recording vm bdfs (content (info vm.name) (create_vm e vm bdfs w).1.files)
unfolding create_vm
create_vm-Recording e vm bdfs w n new =
    let p = persist_vm e vm w in
    let first = persist_vm-Recording e vm bdfs w n new in
    let run = launch_and_wait e vm bdfs p.1 in
    let second = launch_and_wait-Recording e vm bdfs p.1 n first in
    let at : Result Done × World → Option Content = λ r. content (info vm.name) r.1.files in
    elim (Result-cases p.0) [
      | inr (x, r) ↦
          let turn : at (create_vm e vm bdfs w) ≡ content (info vm.name) p.1.files = ground arith in
          subst (Recording vm bdfs) (sym turn) first
      | inl (_, r) ↦ elim (Result-cases run.0) [
        | inl (_, l) ↦
            let turn : at (create_vm e vm bdfs w) ≡ content (info vm.name) run.2.files =
              ground arith in
            subst (Recording vm bdfs) (sym turn) second
        | inr (x, l) ↦
            let u = rollback_launch_failure e vm.name run.1 run.2 in
            let turn : at (create_vm e vm bdfs w) ≡ content (info vm.name) u.files = ground arith in
            subst (Recording vm bdfs) (sym turn) (
              Recording-shrinks vm bdfs _ (content (info vm.name) u.files)
                (rollback_launch_failure-info e vm.name run.1 run.2 vm.name) second)
      ]
    ]
