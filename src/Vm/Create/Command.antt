-- ===== src/Vm/Create/Command.antt =====
-- What `ltvm create` does as a whole.
use lustre_test_vms.Base.{
  ℕ, String, ◌≡◌, ◌≢◌, refl, sym, ap, subst, ◌∙◌, ◌⊎◌, inl, inr, true, false, ◌||◌, Option, none,
  List, [], ◌∷◌, ◌+◌, arith, nat_eq, string_eq, contains, ltb, Bool-cases,
}
use lustre_test_vms.Result.{Result, ok, err, Err, Done, Result-cases}
use lustre_test_vms.Owner.{codes}
use lustre_test_vms.Cluster.Nodes.{validate_vm_name}
use lustre_test_vms.Vm.Files.{VmInfo, File, info, Files, content}
use lustre_test_vms.Vm.Files.Laws.{can_remove, same_file_refl}
use lustre_test_vms.Vm.Devices.{stops_halfway, check_passthrough_conflicts}
use lustre_test_vms.Vm.Devices.Laws.{Distinct}
use lustre_test_vms.Vm.Options.{
  Args, Shown, validate_kernel_args, validate_create_bounds, validate_failover_disks, check_devices,
  validate_disk_options, check_tap_collision, check_passthrough, is_zero,
}
use lustre_test_vms.Vm.Create.{
  World, Meets, create_vm, new_vm, check_create, create_or_converge, cmd_create,
}
use lustre_test_vms.Vm.Create.Touched.{covers}
use lustre_test_vms.Vm.Create.Whole.{Same, create_vm-Same}

check_devices-Distinct :
    (s : Shown) (seen bdfs : List String)
    → check_devices s seen bdfs ≡ ok tt
    → Distinct bdfs × ((b : String) → contains seen b ≡ true → contains bdfs b ≡ false)
unfolding check_devices Distinct
check_devices-Distinct s seen [] h = (tt, λ b. (λ n. refl))
check_devices-Distinct s seen (bdf ∷ bdfs) h =
    let later = check_devices-Distinct s (bdf ∷ seen) bdfs (ground arith) in
    ((later.1 bdf (ground arith), later.0), λ b. (λ n. ground (arith, h, later.1 b (ground arith))))

-- The devices that a command asks for.
abbrev pub devices : Args → List String
devices a = elim a.nics [ ok bdfs ↦ bdfs | err _ ↦ [] ]

check_passthrough-Distinct :
    (s : Shown) (bdfs : List String) (fs : Files)
    → check_passthrough s bdfs fs ≡ ok tt
    → Distinct bdfs × ((bdfs ≡ []) ⊎ (check_passthrough_conflicts bdfs fs ≡ ok tt))
unfolding check_passthrough Distinct
check_passthrough-Distinct s [] fs h = (tt, inl refl)
check_passthrough-Distinct s (bdf ∷ bdfs) fs h =
    elim (Result-cases (check_devices s [] (bdf ∷ bdfs))) [
      | inr (x, r) ↦ absurd (ground arith)
      | inl (tt, r) ↦
          ((check_devices-Distinct s [] (bdf ∷ bdfs) (ground arith)).0, inr (ground arith))
    ]

-- What the checks say that passed.
pub record Checked (e : Meets) (a : Args) (fs : Files) (vm : VmInfo) (bdfs : List String)
    : Type 0 where
  pub bounds : validate_create_bounds e.shown a fs ≡ ok bdfs
  pub shared : Option VmInfo
  pub failover : validate_failover_disks a fs ≡ ok shared
  pub taps : check_tap_collision e.shown a.name a.nic_count fs ≡ ok tt
  pub dir : String
  pub size : ℕ
  pub made : vm ≡ new_vm a dir size shared

ok_pair :
    (r : Result (VmInfo × List String)) (vm u : VmInfo) (bs cs : List String)
    → r ≡ ok (vm, bs)
    → r ≡ ok (u, cs)
    → (vm ≡ u) × (bs ≡ cs)
ok_pair r vm u bs cs h k = (ground arith, ground arith)

pub check_create-Checked :
    (e : Meets) (a : Args) (fs : Files) (vm : VmInfo) (bdfs : List String)
    → check_create e a fs ≡ ok (vm, bdfs)
    → Checked e a fs vm bdfs
unfolding check_create
check_create-Checked e a fs vm bdfs h = elim (Result-cases (validate_create_bounds e.shown a fs)) [
  | inr (x, b) ↦ absurd (ground arith)
  | inl (devs, b) ↦ elim (Result-cases (validate_failover_disks a fs)) [
    | inr (x, f) ↦ absurd (ground arith)
    | inl (shared, f) ↦ elim (Result-cases (validate_disk_options e.shown a)) [
      | inr (x, d) ↦ absurd (ground arith)
      | inl (dir, d) ↦ elim (Result-cases (check_tap_collision e.shown a.name a.nic_count fs)) [
        | inr (x, t) ↦ absurd (ground arith)
        | inl (tt, t) ↦ elim (Result-cases e.artifacts) [
          | inr (x, i) ↦ absurd (ground arith)
          | inl (_, i) ↦ elim (Result-cases e.sizes) [
            | inr (x, z) ↦ absurd (ground arith)
            | inl (size, z) ↦
                let passed : check_create e a fs ≡ ok (new_vm a dir size shared, devs) =
                  ground arith in
                let same =
                  ok_pair (check_create e a fs) vm (new_vm a dir size shared) bdfs devs h passed in
                record {
                  bounds = b ∙ ap ok (sym same.1);
                  shared = shared;
                  failover = f;
                  taps = t;
                  dir = dir;
                  size = size;
                  made = same.0;
                }
          ]
        ]
      ]
    ]
  ]
]

pub bounds-Distinct :
    (s : Shown) (a : Args) (fs : Files) (bdfs : List String)
    → validate_create_bounds s a fs ≡ ok bdfs
    → (devices a ≡ bdfs)
      × Distinct bdfs
      × ((bdfs ≡ []) ⊎ (check_passthrough_conflicts bdfs fs ≡ ok tt))
unfolding validate_create_bounds
bounds-Distinct s a fs bdfs h = elim (Bool-cases (is_zero a.vcpus || is_zero a.mem)) [
  | inl z ↦ absurd (ground arith)
  | inr z ↦ elim (Bool-cases (ltb 25 (a.mdt_disks + a.ost_disks))) [
    | inl y ↦ absurd (ground arith)
    | inr y ↦ elim (Result-cases a.nics) [
      | inr (x, n) ↦ absurd (ground arith)
      | inl (devs, n) ↦ elim (Result-cases (check_passthrough s devs fs)) [
        | inr (x, p) ↦ absurd (ground arith)
        | inl (tt, p) ↦
            let same : devs ≡ bdfs = ground arith in
            let all = check_passthrough-Distinct s devs fs (ground arith) in
            (
              ground arith,
              subst Distinct same all.0,
              subst (λ d. (d ≡ []) ⊎ (check_passthrough_conflicts d fs ≡ ok tt)) same all.1,
            )
      ]
    ]
  ]
]

Same-refl : (name : String) (w : World) → Same name w w
unfolding Same
Same-refl name w = (λ g. (λ n. refl), λ b. refl, λ m. (refl, refl))

abbrev pub with_ip : String → VmInfo → VmInfo
with_ip ip vm = record vm { ip = ip }

create_or_converge-run :
    (e : Meets) (a : Args) (w : World)
    → content (info a.name) w.files ≡ none
    → ((create_or_converge e a w).1 ≡ w)
      ⊎ ((vm : VmInfo) × (bdfs : List String) × (ip : String) × Checked e a w.files vm bdfs
          × (create_or_converge e a w ≡ create_vm e (with_ip ip vm) bdfs w))
unfolding create_or_converge
create_or_converge-run e a w new = elim (Result-cases (check_create e a w.files)) [
  | inr (x, c) ↦ inl (ground arith)
  | inl ((vm, bdfs), c) ↦ elim (Bool-cases a.dry_run) [
    | inl d ↦ inl (ground arith)
    | inr d ↦ elim (Result-cases e.address) [
      | inr (x, i) ↦ inl (ground arith)
      | inl (ip, i) ↦ inr (vm, bdfs, ip, check_create-Checked e a w.files vm bdfs c, ground arith)
    ]
  ]
]

-- A create of a VM that has no `.info` file changes nothing, or is one whose checks pass.
pub cmd_create-run :
    (e : Meets) (a : Args) (w : World)
    → content (info a.name) w.files ≡ none
    → ((cmd_create e a w).1 ≡ w)
      ⊎ ((vm : VmInfo) × (bdfs : List String) × (ip : String) × Checked e a w.files vm bdfs
          × (cmd_create e a w ≡ create_vm e (with_ip ip vm) bdfs w))
unfolding cmd_create
cmd_create-run e a w new = elim (Bool-cases (validate_vm_name a.name)) [
  | inr n ↦ inl (ground arith)
  | inl n ↦ elim (Result-cases (e.owner a.owner_id)) [
    | inr (x, o) ↦ inl (ground arith)
    | inl (_, o) ↦ elim (Result-cases (validate_kernel_args (codes a.kernel_args))) [
      | inr (x, k) ↦ inl (ground arith)
      | inl (_, k) ↦
          let through : cmd_create e a w ≡ create_or_converge e a w = ground arith in
          elim (create_or_converge-run e a w new) [
            | inl same ↦ inl (ap (λ (r : Result Done × World). r.1) through ∙ same)
            | inr (vm, bdfs, ip, checked, run) ↦ inr (vm, bdfs, ip, checked, through ∙ run)
          ]
    ]
  ]
]

info_owned : (e : Meets) (name dir : String) → covers e.host name dir (info name) ≡ true
info_owned e name dir = ground (arith, same_file_refl (info name))

-- A `ltvm create` that fails leaves all files but the preserved log as they were, and all drivers,
-- registered names and running VMs, if: there was no file that a removal of the VM takes, which are its own,
-- and among the overlays all that `<name>-disk*.img` matches, also the disks of another VM; the VM was not
-- registered and did not run; files can be removed, devices given back, QEMU killed and names unregistered;
-- the `.info` file can be written at first; and the devices have drivers, and no bind of them fails after the device
-- was unbound.
pub cmd_create-Same :
    (e : Meets) (a : Args) (w : World) (x : Err)
    → ((f : File) → can_remove e.host f ≡ true)
    → ((k d : String) → e.bus.rebind k d ≡ true)
    → e.save ≡ ok tt
    → e.kill ≡ ok tt
    → e.unregister ≡ true
    → ((k : String)
        → contains (devices a) k ≡ true
        → (e.bus.bind k ≢ stops_halfway) × (w.drivers k ≢ ""))
    → ((dir : String) (f : File) → covers e.host a.name dir f ≡ true → content f w.files ≡ none)
    → contains w.registered a.name ≡ false
    → contains w.running a.name ≡ false
    → (cmd_create e a w).0 ≡ err x
    → Same a.name w (cmd_create e a w).1
cmd_create-Same e a w x can back saves kills unregisters bindable fresh unnamed stopped fails =
    elim (cmd_create-run e a w (fresh "" (info a.name) (info_owned e a.name ""))) [
      | inl same ↦ subst (Same a.name w) (sym same) (Same-refl a.name w)
      | inr (vm, bdfs, ip, checked, run) ↦
          let named : vm.name ≡ a.name = ap (λ (v : VmInfo). v.name) checked.made in
          let none_yet : vm.passthrough_drivers ≡ [] =
            ap (λ (v : VmInfo). v.passthrough_drivers) checked.made in
          let devs = bounds-Distinct e.shown a w.files bdfs checked.bounds in
          let same =
            create_vm-Same e can back saves kills unregisters (with_ip ip vm) bdfs w x none_yet
              devs.1 (λ k. (λ h. bindable k (subst (λ d. contains d k ≡ true) (sym devs.0) h)))
              (λ f. (λ o.
                fresh vm.disk_dir f (subst (λ n. covers e.host n vm.disk_dir f ≡ true) named o)))
              (subst (λ n. contains w.registered n ≡ false) (sym named) unnamed)
              (subst (λ n. contains w.running n ≡ false) (sym named) stopped)
              (ap (λ (r : Result Done × World). r.0) (sym run) ∙ fails) in
          subst (λ u. Same a.name w u) (ap (λ (r : Result Done × World). r.1) (sym run))
            (subst (λ n. Same n w (create_vm e (with_ip ip vm) bdfs w).1) named same)
    ]
