-- ===== src/Vm/Options.antt =====
-- The checks of `ltvm create` before anything is made: `_validate_kernel_args`,
-- `_validate_create_bounds`, `_validate_failover_disks` and `_validate_disk_options` of
-- ltvm_pkg/vm_commands.py, and `taps_for_vm` and `check_tap_collision` of ltvm_pkg/vm_net.py.
use lustre_test_vms.Base.{
  ℕ, zero, suc, ◌+◌, String, Bool, true, false, not, ◌&&◌, ◌||◌, Option, none, some, List, [], ◌∷◌,
  ◌++◌, any, length, ◌==◌, string_eq, nat_eq, contains, ltb, leb, if◌then◌else◌,
}
use lustre_test_vms.Result.{Result, ok, err, exit, value_error, Done}
use lustre_test_vms.Owner.{codes}
use lustre_test_vms.Qemu.{strip, same_codes}
use lustre_test_vms.Cluster.Vms.{validate_vm_name_for_lookup}
use lustre_test_vms.Vm.Files.{VmInfo, info, bytes, fields, Files, content, all_vms}
use lustre_test_vms.Vm.Devices.{check_passthrough_conflicts}

-- The arguments. Texts that are not given are empty, and numbers below zero count as zero, which is
-- refused like them. `typed_disks` says whether a number of disks other than zero was typed, and `nics`
-- are the PCI devices of the NICs, unless `parse_nics`, `nic_network_problem` or `nic_numa_problem`
-- refuse them.
pub record Args : Type 0 where
  pub name : String
  pub owner_id : Option String
  pub kernel_args : String
  pub dry_run : Bool
  pub vcpus : Option ℕ
  pub mem : Option ℕ
  pub mdt_disks : ℕ
  pub ost_disks : ℕ
  pub typed_disks : Bool
  pub share_disks : Bool
  pub disks_from : String
  pub disk_dir : String
  pub disk_cache : String
  pub disk_prealloc : String
  pub nic_count : ℕ
  pub nics : Result (List String)

-- White space, of which control characters are none here.
abbrev pub is_space : ℕ → Bool
is_space c =
    contains (32 ∷ 133 ∷ 160 ∷ 5760 ∷ 8232 ∷ 8233 ∷ 8239 ∷ 8287 ∷ 12288 ∷ []) c
    || (leb 8192 c && leb c 8202)

abbrev pub is_control : ℕ → Bool
is_control c = ltb c 32 || c == 127

unfoldable pub lstrip : List ℕ → List ℕ
lstrip [] = []
lstrip (c ∷ cs) = let rest = lstrip cs in if is_space c then rest else c ∷ cs

abbrev pub is_empty {ℓ} : {A : Type ℓ} → List A → Bool
is_empty [] = true
is_empty (_ ∷ _) = false

unfoldable pub rstrip : List ℕ → List ℕ
rstrip [] = []
rstrip (c ∷ cs) = let rest = rstrip cs in if is_space c && is_empty rest then [] else c ∷ rest

-- `split()`, with the word that is being read.
unfoldable pub split_words : List ℕ → List ℕ → List (List ℕ)
split_words word [] = if is_empty word then [] else word ∷ []
split_words word (c ∷ cs) =
    let rest = split_words [] cs in
    let longer = split_words (word ++ (c ∷ [])) cs in
    if is_space c then (if is_empty word then rest else word ∷ rest) else longer

-- What stands before the first `=`.
abbrev pub word_key : List ℕ → List ℕ
word_key [] = []
word_key (c ∷ cs) = let rest = word_key cs in if c == 61 then [] else c ∷ rest

abbrev pub reserved_kernel_args : List String
reserved_kernel_args = "root" ∷ "console" ∷ []

unfoldable pub is_reserved : List ℕ → Bool
is_reserved word =
    any (λ r. same_codes (word_key word) (codes r)) reserved_kernel_args
    || elim (strip (codes "fc_") (word_key word)) [ none ↦ false | some _ ↦ true ]

abbrev pub kernel_args_max : ℕ
kernel_args_max = 1024

-- `_validate_kernel_args`
unfoldable pub validate_kernel_args : List ℕ → Result (List ℕ)
validate_kernel_args raw =
    if any is_control raw
    then err exit
    else let args = rstrip (lstrip raw) in
      if ltb kernel_args_max (length args)
      then err exit
      else if any is_reserved (split_words [] args)
      then err exit
      else ok args

-- What the host shows of the devices, and the names of TAP devices, for which the code hashes long names.
pub record Shown : Type 0 where
  pub iommu_enabled : Bool
  pub has_device : String → Bool
  pub tap_for_name : String → String
  pub extra_tap_for_name : String → ℕ → String
  pub is_disk_dir : String → Result String

-- The loop over the devices, with those seen.
unfoldable pub check_devices : Shown → List String → List String → Result Done
check_devices s seen [] = ok tt
check_devices s seen (bdf ∷ bdfs) =
    let rest = check_devices s (bdf ∷ seen) bdfs in
    if not (s.has_device bdf) then err exit else if contains seen bdf then err exit else rest

unfoldable pub check_passthrough : Shown → List String → Files → Result Done
check_passthrough s [] fs = ok tt
check_passthrough s (bdf ∷ bdfs) fs =
    if not s.iommu_enabled then err exit else elim (check_devices s [] (bdf ∷ bdfs)) [
      | err x ↦ err x
      | ok _ ↦ check_passthrough_conflicts (bdf ∷ bdfs) fs
    ]

abbrev pub is_zero : Option ℕ → Bool
is_zero none = false
is_zero (some n) = n == 0

-- `_validate_create_bounds`: the devices to pass through.
unfoldable pub validate_create_bounds : Shown → Args → Files → Result (List String)
validate_create_bounds s a fs =
    if is_zero a.vcpus || is_zero a.mem
    then err exit
    else if ltb 25 (a.mdt_disks + a.ost_disks)
    then err exit
    else elim a.nics [
      | err x ↦ err x
      | ok bdfs ↦ elim (check_passthrough s bdfs fs) [ err x ↦ err x | ok _ ↦ ok bdfs ]
    ]

-- `VMInfo.load` of the VM whose disks are used.
unfoldable pub load_owner : String → Files → Result VmInfo
load_owner name fs = elim (content (info name) fs) [
  | none ↦ err exit
  | some bytes ↦ err value_error
  | some (fields vm) ↦ ok vm
]

-- A VM other than the two that uses the disks.
abbrev pub is_third : String → String → String × VmInfo → Bool
is_third name owner v = not (v.0 == name || v.0 == owner) && v.1.disks_from == owner

-- `_validate_failover_disks`: the VM whose disks are used, if any.
unfoldable pub validate_failover_disks : Args → Files → Result (Option VmInfo)
validate_failover_disks a fs =
    if a.disks_from == ""
    then ok none
    else if a.share_disks
    then err exit
    else if not (validate_vm_name_for_lookup a.disks_from) || a.disks_from == a.name
    then err exit
    else if a.typed_disks
    then err exit
    else elim (load_owner a.disks_from fs) [
      | err x ↦ err x
      | ok owner ↦
          if not (owner.disks_from == "") || not owner.share_disks
          then err exit
          else if owner.mdt_disks + owner.ost_disks == 0
          then err exit
          else if any (is_third a.name a.disks_from) (all_vms fs)
          then err exit
          else ok (some owner)
    ]

abbrev pub disk_cache_modes : List String
disk_cache_modes = "none" ∷ "writeback" ∷ "writethrough" ∷ "directsync" ∷ "unsafe" ∷ []

abbrev pub disk_prealloc_modes : List String
disk_prealloc_modes = "falloc" ∷ "full" ∷ []

-- `_validate_disk_options`: the directory as it is recorded.
unfoldable pub validate_disk_options : Shown → Args → Result String
validate_disk_options s a =
    if not (a.disk_cache == "" || contains disk_cache_modes a.disk_cache)
    then err exit
    else if not (a.disk_prealloc == "" || contains disk_prealloc_modes a.disk_prealloc)
    then err exit
    else elim (if a.disk_dir == "" then ok "" else s.is_disk_dir a.disk_dir) [
      | err x ↦ err x
      | ok dir ↦
          if not (a.disks_from == "") && (not (dir == "") || not (a.disk_prealloc == ""))
          then err exit
          else if not (a.disk_cache == "" || a.disk_cache == "none")
              && (not (a.disks_from == "") || a.share_disks)
          then err exit
          else ok dir
    ]

unfoldable pub extra_taps : Shown → String → ℕ → List String
extra_taps s name zero = []
extra_taps s name (suc idx) = s.extra_tap_for_name name (suc idx) ∷ extra_taps s name idx

-- `taps_for_vm`
unfoldable pub taps_for_vm : Shown → String → ℕ → List String
unfolding extra_taps
taps_for_vm s name extra_nics = s.tap_for_name name ∷ extra_taps s name extra_nics

abbrev pub has_common : List String → List String → Bool
has_common xs ys = any (contains ys) xs

abbrev pub tap_clashes : Shown → String → ℕ → String × VmInfo → Bool
tap_clashes s name extra_nics v =
    not (v.0 == name) && has_common (taps_for_vm s name extra_nics) (taps_for_vm s v.0 v.1.nics)

-- `check_tap_collision`
unfoldable pub check_tap_collision : Shown → String → ℕ → Files → Result Done
check_tap_collision s name extra_nics fs =
    if any (tap_clashes s name extra_nics) (all_vms fs) then err exit else ok tt
