-- ===== src/Vm/Create/Pairs/Invariants.antt =====
-- What creations keep of the devices, the TAP devices and the shared disks of VMs.
use lustre_test_vms.Base.{
  ℕ, zero, suc, ◌≤◌, ◌⊎◌, String, ◌≡◌, ◌≢◌, sym, ap, subst, ◌∙◌, inl, inr, Bool, true, false, ◌&&◌,
  List, [], ◌∷◌, any, arith, nat_eq, string_eq, ◌==◌, contains, Bool-cases,
}
use lustre_test_vms.Result.{ok}
use lustre_test_vms.Vm.Files.{VmInfo, Files, all_vms}
use lustre_test_vms.Vm.Devices.{has_key, clashes, check_passthrough_conflicts}
use lustre_test_vms.Vm.Options.{
  Args, Shown, extra_taps, taps_for_vm, has_common, tap_clashes, check_tap_collision,
}
use lustre_test_vms.Vm.Create.{World, Meets, cmd_create}
use lustre_test_vms.Vm.Create.Command.{bounds-Distinct}
use lustre_test_vms.Vm.Create.Pairs.{Loads, New, all_vms-Loads, cmd_create-info}

-- A relation holds between any two VMs that load.
unfoldable pub Pairwise : (String → VmInfo → String → VmInfo → Type 0) → Files → Type 0
Pairwise R fs = (a b : String) (v u : VmInfo) → a ≢ b → Loads a v fs → Loads b u fs → R a v b u

-- A creation keeps a relation that the new VM has with all others, both ways.
pub Pairwise-create :
    (R : String → VmInfo → String → VmInfo → Type 0) (e : Meets) (a : Args) (w : World)
    → ((v : VmInfo) (m : String) (u : VmInfo)
        → New e a w.files v
        → m ≢ a.name
        → Loads m u w.files
        → R a.name v m u × R m u a.name v)
    → Pairwise R w.files
    → Pairwise R (cmd_create e a w).1.files
unfolding Pairwise
Pairwise-create R e a w fits pairs x y v u d lx ly = elim (cmd_create-info e a w x) [
  | inl sx ↦ elim (cmd_create-info e a w y) [
    | inl sy ↦ pairs x y v u d (sym sx ∙ lx) (sym sy ∙ ly)
    | inr (ny, fy, inl gone) ↦ absurd (ground arith)
    | inr (ny, fy, inr (u2, l2, new)) ↦
        let one : u2 ≡ u = ground arith in
        let fit = fits u2 x v new (λ p. d (p ∙ sym ny)) (sym sx ∙ lx) in
        subst (λ n. R x v n u) (sym ny) (subst (λ z. R x v a.name z) one fit.1)
  ]
  | inr (nx, fx, inl gone) ↦ absurd (ground arith)
  | inr (nx, fx, inr (v2, l2, new)) ↦ elim (cmd_create-info e a w y) [
    | inr (ny, _, _) ↦ absurd (d (nx ∙ sym ny))
    | inl sy ↦
        let one : v2 ≡ v = ground arith in
        let fit = fits v2 y u new (λ p. d (nx ∙ sym p)) (sym sy ∙ ly) in
        subst (λ n. R n v y u) (sym nx) (subst (λ z. R a.name z y u) one fit.0)
  ]
]

-- No PCI device is recorded of both VMs.
unfoldable pub NoCommonDevice : String → VmInfo → String → VmInfo → Type 0
NoCommonDevice a v b u =
    (k : String) → has_key k v.passthrough_drivers && has_key k u.passthrough_drivers ≡ false

any-contains :
    (p : String → Bool) (bs : List String) (k : String)
    → any p bs ≡ false
    → contains bs k ≡ true
    → p k ≡ false
any-contains p [] k h c = absurd (ground arith)
any-contains p (b ∷ bs) k h c = elim (Bool-cases (k == b)) [
  | inl e ↦ ground arith
  | inr e ↦ any-contains p bs k (ground arith) (ground arith)
]

conflict_free :
    (bdfs : List String) (m : String) (u : VmInfo) (fs : Files) (k : String)
    → check_passthrough_conflicts bdfs fs ≡ ok tt
    → Loads m u fs
    → contains bdfs k ≡ true
    → has_key k u.passthrough_drivers ≡ false
unfolding check_passthrough_conflicts
conflict_free bdfs m u fs k h l c = elim (Bool-cases (any (clashes bdfs) (all_vms fs))) [
  | inl z ↦ absurd (ground arith)
  | inr z ↦
      any-contains (λ b. has_key b u.passthrough_drivers) bdfs k
        (all_vms-Loads m u (clashes bdfs) fs l z) c
]

New-NoCommonDevice :
    (e : Meets) (a : Args) (fs : Files) (v : VmInfo) (m : String) (u : VmInfo)
    → New e a fs v
    → Loads m u fs
    → (k : String) → has_key k v.passthrough_drivers && has_key k u.passthrough_drivers ≡ false
New-NoCommonDevice e a fs v m u n l k =
    let bounds = bounds-Distinct e.shown a fs n.bdfs n.checked.bounds in
    let recorded : v.passthrough_drivers ≡ n.rec =
      ap (λ (x : VmInfo). x.passthrough_drivers) n.made in
    elim (Bool-cases (has_key k v.passthrough_drivers)) [
      | inr z ↦ ground arith
      | inl z ↦
          let asked = n.within k (subst (λ r. has_key k r ≡ true) recorded z) in
          elim bounds.2 [
            | inl none_asked ↦ absurd (ground arith)
            | inr free ↦ ground (arith, conflict_free n.bdfs m u fs k free l asked)
          ]
    ]

-- Whatever a `ltvm create` meets and however it ends, if no PCI device was recorded of two VMs before, none
-- is after.
pub cmd_create-NoCommonDevice :
    (e : Meets) (a : Args) (w : World)
    → Pairwise NoCommonDevice w.files
    → Pairwise NoCommonDevice (cmd_create e a w).1.files
unfolding NoCommonDevice
cmd_create-NoCommonDevice e a w = Pairwise-create NoCommonDevice e a w (λ v m u n d l. (
  New-NoCommonDevice e a w.files v m u n l,
  λ k. ground (arith, New-NoCommonDevice e a w.files v m u n l k),
))

-- A TAP device is a VM's: the one of its name, or that of one of its extra NICs, which count from 1.
abbrev pub IsTap : Shown → String → ℕ → String → Type 0
IsTap s name nics t =
    (t ≡ s.tap_for_name name) ⊎ ((i : ℕ) × (1 ≤ i) × (i ≤ nics) × (t ≡ s.extra_tap_for_name name i))

-- No TAP device is both VMs'.
unfoldable pub NoCommonTap : Shown → String → VmInfo → String → VmInfo → Type 0
NoCommonTap s a v b u = (t : String) → IsTap s a v.nics t → ¬ IsTap s b u.nics t

extra_taps-contains :
    (s : Shown) (name : String) (nics i : ℕ)
    → 1 ≤ i
    → i ≤ nics
    → contains (extra_taps s name nics) (s.extra_tap_for_name name i) ≡ true
unfolding extra_taps
extra_taps-contains s name zero i l m = absurd (omega (arith, l, m))
extra_taps-contains s name (suc idx) i l m = elim (Bool-cases (i == suc idx)) [
  | inl e ↦ let same : i ≡ suc idx = ground arith in ground (arith, same)
  | inr e ↦ ground (arith, extra_taps-contains s name idx i l (ground arith))
]

IsTap-contains :
    (s : Shown) (name : String) (nics : ℕ) (t : String)
    → IsTap s name nics t
    → contains (taps_for_vm s name nics) t ≡ true
unfolding taps_for_vm
IsTap-contains s name nics t (inl e) = ground arith
IsTap-contains s name nics t (inr (i, l, m, e)) =
    ground (arith, extra_taps-contains s name nics i l m)

has_common-contains :
    (xs ys : List String) (t : String)
    → has_common xs ys ≡ false
    → contains xs t && contains ys t ≡ false
has_common-contains xs ys t h = elim (Bool-cases (contains xs t)) [
  | inr z ↦ ground arith
  | inl z ↦ ground (arith, any-contains (contains ys) xs t h z)
]

New-NoCommonTap :
    (e : Meets) (a : Args) (fs : Files) (v : VmInfo) (m : String) (u : VmInfo)
    → New e a fs v
    → m ≢ a.name
    → Loads m u fs
    → (t : String)
    → contains (taps_for_vm e.shown a.name v.nics) t && contains (taps_for_vm e.shown m u.nics) t
      ≡ false
unfolding check_tap_collision
New-NoCommonTap e a fs v m u n d l t =
    let count : v.nics ≡ a.nic_count =
      ap (λ (x : VmInfo). x.nics) n.made ∙ ap (λ (x : VmInfo). x.nics) n.checked.made in
    let taps = n.checked.taps in
    elim (Bool-cases (any (tap_clashes e.shown a.name a.nic_count) (all_vms fs))) [
      | inl z ↦ absurd (ground arith)
      | inr z ↦
          let free = all_vms-Loads m u (tap_clashes e.shown a.name a.nic_count) fs l z in
          let apart : has_common (taps_for_vm e.shown a.name a.nic_count)
                (taps_for_vm e.shown m u.nics)
              ≡ false =
            ground arith in
          subst
            (λ c.
              contains (taps_for_vm e.shown a.name c) t && contains (taps_for_vm e.shown m u.nics) t
              ≡ false)
            (sym count)
            (has_common-contains (taps_for_vm e.shown a.name a.nic_count)
              (taps_for_vm e.shown m u.nics) t apart)
    ]

-- Whatever a `ltvm create` meets and however it ends, if no two VMs had a TAP device in common before, no
-- two have one after.
pub cmd_create-NoCommonTap :
    (e : Meets) (a : Args) (w : World)
    → Pairwise (NoCommonTap e.shown) w.files
    → Pairwise (NoCommonTap e.shown) (cmd_create e a w).1.files
unfolding NoCommonTap
cmd_create-NoCommonTap e a w = Pairwise-create (NoCommonTap e.shown) e a w (λ v m u n d l. (
  λ t mine theirs. absurd (
      ground (
        arith,
        New-NoCommonTap e a w.files v m u n d l t,
        IsTap-contains e.shown a.name v.nics t mine,
        IsTap-contains e.shown m u.nics t theirs,
      )),
  λ t theirs mine. absurd (
      ground (
        arith,
        New-NoCommonTap e a w.files v m u n d l t,
        IsTap-contains e.shown a.name v.nics t mine,
        IsTap-contains e.shown m u.nics t theirs,
      )),
))
