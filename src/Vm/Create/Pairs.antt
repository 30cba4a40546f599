-- ===== src/Vm/Create/Pairs.antt =====
-- What holds of the VMs of a host two by two, through creations.
pub mod Invariants
pub mod Partners
use lustre_test_vms.Base.{
  ℕ, String, ◌≡◌, ◌≢◌, refl, sym, ap, subst, ◌∙◌, ◌⊎◌, inl, inr, Bool, true, false, not, ◌||◌, ◌&&◌,
  Option, none, some, List, [], ◌∷◌, any, arith, nat_eq, string_eq, ◌==◌, contains, Bool-cases,
  Option-cases, if◌then◌else◌,
}
use lustre_test_vms.Result.{Result, ok, err, exit, Err, Done, Result-cases}
use lustre_test_vms.Owner.{codes}
use lustre_test_vms.Cluster.Nodes.{validate_vm_name}
use lustre_test_vms.Vm.Files.{
  VmInfo, File, overlay, qmp, pid, info, log, failed_log, info_lock, disk, same_file, Content,
  bytes, fields, Files, content, all_vms,
}
use lustre_test_vms.Vm.Files.Laws.{same_file_lem}
use lustre_test_vms.Vm.Devices.{Recorded, has_key}
use lustre_test_vms.Vm.Options.{Args, validate_kernel_args}
use lustre_test_vms.Vm.Create.{
  World, Meets, with_drivers, create_vm, check_create, handle_existing_vm, create_or_converge,
  cmd_create, launch_and_provision,
}
use lustre_test_vms.Vm.Create.Touched.{launch_and_provision-content}
use lustre_test_vms.Vm.Create.Command.{Checked, with_ip, cmd_create-run}
use lustre_test_vms.Vm.Create.Record.{Recording, create_vm-Recording, is_live-info}
use lustre_test_vms.Vm.Create.Others.{create_vm-Other}

-- A VM that has a `.info` file that can be read.
abbrev pub Loads : String → VmInfo → Files → Type 0
Loads name v fs = content (info name) fs ≡ some (fields v)

same_kind_info :
    (f : File) (m : String) (p : String × VmInfo → Bool) (c : Content) (fs : Files)
    → same_file f (info m) ≡ false
    → any p (all_vms ((f, c) ∷ fs)) ≡ false
    → any p (all_vms fs) ≡ false
unfolding all_vms
same_kind_info (info n) m p (fields v) fs d h = ground arith
same_kind_info (info n) m p bytes fs d h = h
same_kind_info (overlay n) m p c fs d h = h
same_kind_info (qmp n) m p c fs d h = h
same_kind_info (pid n) m p c fs d h = h
same_kind_info (log n) m p c fs d h = h
same_kind_info (failed_log n) m p c fs d h = h
same_kind_info (info_lock n) m p c fs d h = h
same_kind_info (disk dir n) m p c fs d h = h

all_vms-first :
    (m : String) (v : VmInfo) (p : String × VmInfo → Bool) (c : Content) (fs : Files)
    → c ≡ fields v
    → any p (all_vms ((info m, c) ∷ fs)) ≡ false
    → p (m, v) ≡ false
unfolding all_vms
all_vms-first m v p bytes fs e h = absurd (ground arith)
all_vms-first m v p (fields u) fs e h = ground arith

-- A test that fails for all VMs fails for one that loads.
pub all_vms-Loads :
    (m : String) (v : VmInfo) (p : String × VmInfo → Bool) (fs : Files)
    → Loads m v fs
    → any p (all_vms fs) ≡ false
    → p (m, v) ≡ false
all_vms-Loads m v p [] l h = absurd (ground arith)
all_vms-Loads m v p ((f, c) ∷ fs) l h = elim (Bool-cases (same_file f (info m))) [
  | inr d ↦ all_vms-Loads m v p fs (ground arith) (same_kind_info f m p c fs d h)
  | inl s ↦
      let same = same_file_lem f (info m) s in
      all_vms-first m v p c fs (ground arith)
        (subst (λ g. any p (all_vms ((g, c) ∷ fs)) ≡ false) same h)
]

-- The VM that a creation records, with some of the devices asked for.
pub record New (e : Meets) (a : Args) (fs : Files) (v : VmInfo) : Type 0 where
  pub vm : VmInfo
  pub bdfs : List String
  pub ip : String
  pub rec : Recorded
  pub checked : Checked e a fs vm bdfs
  pub made : v ≡ with_drivers rec (with_ip ip vm)
  pub within : (k : String) → has_key k rec ≡ true → contains bdfs k ≡ true

handle_existing_vm-info :
    (e : Meets) (name : String) (c : Content) (w : World) (m : String)
    → content (info m) (handle_existing_vm e name c w).1.files ≡ content (info m) w.files
unfolding handle_existing_vm
handle_existing_vm-info e name bytes w m = refl
handle_existing_vm-info e name (fields vm) w m = elim (Bool-cases (contains w.running vm.name)) [
  | inr r ↦
      let live = launch_and_provision-content e false vm.name w (info m) (is_live-info vm.name m) in
      ground (arith, live)
  | inl r ↦ ground arith
]

converge-info :
    (e : Meets) (a : Args) (w : World) (c : Content) (m : String)
    → content (info a.name) w.files ≡ some c
    → content (info m) (create_or_converge e a w).1.files ≡ content (info m) w.files
unfolding create_or_converge
converge-info e a w c m there =
    let existing = handle_existing_vm-info e a.name c w m in
    elim (Bool-cases a.dry_run) [
      | inr d ↦ ground (arith, existing)
      | inl d ↦ elim (Result-cases (check_create e a w.files)) [
        | inr (x, r) ↦ ground arith
        | inl ((vm, bdfs), r) ↦ ground arith
      ]
    ]

present-info :
    (e : Meets) (a : Args) (w : World) (c : Content) (m : String)
    → content (info a.name) w.files ≡ some c
    → content (info m) (cmd_create e a w).1.files ≡ content (info m) w.files
unfolding cmd_create
present-info e a w c m there =
    let through = converge-info e a w c m there in
    elim (Bool-cases (validate_vm_name a.name)) [
      | inr n ↦ ground arith
      | inl n ↦ elim (Result-cases (e.owner a.owner_id)) [
        | inr (x, o) ↦ ground arith
        | inl (_, o) ↦ elim (Result-cases (validate_kernel_args (codes a.kernel_args))) [
          | inr (x, k) ↦ ground arith
          | inl (_, k) ↦ ground (arith, through)
        ]
      ]
    ]

-- Every `.info` file is as it was, or is gone and had the name, or holds the VM that the checks passed.
pub cmd_create-info :
    (e : Meets) (a : Args) (w : World) (m : String)
    → (content (info m) (cmd_create e a w).1.files ≡ content (info m) w.files)
      ⊎ ((m ≡ a.name)
          × (content (info m) w.files ≡ none)
          × ((content (info m) (cmd_create e a w).1.files ≡ none)
              ⊎ ((v : VmInfo) × Loads m v (cmd_create e a w).1.files × New e a w.files v)))
unfolding Recording
cmd_create-info e a w m = elim (Option-cases (content (info a.name) w.files)) [
  | inr (c, there) ↦ inl (present-info e a w c m there)
  | inl new ↦ elim (cmd_create-run e a w new) [
    | inl same ↦ inl (ap (λ (u : World). content (info m) u.files) same)
    | inr (vm, bdfs, ip, checked, run) ↦
        let named : vm.name ≡ a.name = ap (λ (v : VmInfo). v.name) checked.made in
        let none_yet : vm.passthrough_drivers ≡ [] =
          ap (λ (v : VmInfo). v.passthrough_drivers) checked.made in
        let turn : content (info m) (cmd_create e a w).1.files
            ≡ content (info m) (create_vm e (with_ip ip vm) bdfs w).1.files =
          ap (λ (r : Result Done × World). content (info m) r.1.files) run in
        elim (Bool-cases (m == a.name)) [
          | inr d ↦ inl (turn ∙ create_vm-Other e (with_ip ip vm) bdfs w m (ground arith))
          | inl s ↦
              let mine : m ≡ a.name = ground arith in
              let m_vm : m ≡ vm.name = mine ∙ sym named in
              let after =
                create_vm-Recording e (with_ip ip vm) bdfs w none_yet
                  (subst (λ n. content (info n) w.files ≡ none) (sym named) new) in
              inr (
                mine,
                subst (λ n. content (info n) w.files ≡ none) (sym mine) new,
                recorded vm bdfs ip checked turn m_vm after,
              )
        ]
  ]
]
  where
    recorded :
        (vm : VmInfo) (bdfs : List String) (ip : String)
        → Checked e a w.files vm bdfs
        → content (info m) (cmd_create e a w).1.files
          ≡ content (info m) (create_vm e (with_ip ip vm) bdfs w).1.files
        → m ≡ vm.name
        → Recording
            (with_ip ip vm)
            bdfs
            (content (info vm.name) (create_vm e (with_ip ip vm) bdfs w).1.files)
        → (content (info m) (cmd_create e a w).1.files ≡ none)
          ⊎ ((v : VmInfo) × Loads m v (cmd_create e a w).1.files × New e a w.files v)
    recorded vm bdfs ip checked turn same (inl gone) =
        inl (
          turn
          ∙ ap (λ n. content (info n) (create_vm e (with_ip ip vm) bdfs w).1.files) same
          ∙ gone)
    recorded vm bdfs ip checked turn same (inr (rec, holds, within)) = inr (
      with_drivers rec (with_ip ip vm),
      turn ∙ ap (λ n. content (info n) (create_vm e (with_ip ip vm) bdfs w).1.files) same ∙ holds,
      record {
        vm = vm;
        bdfs = bdfs;
        ip = ip;
        rec = rec;
        checked = checked;
        made = refl;
        within = within;
      },
    )
