-- ===== src/Tests/Targets.antt =====
-- Kernels of a target with a variant that pins one.
use lustre_test_vms.Base.{
  ◌≡◌, refl, ◌⊎◌, inl, inr, true, false, not, ◌||◌, none, some, List, [], ◌∷◌, any, arith, nat_eq,
  Bool-cases,
}
use lustre_test_vms.Result.{ok, err, value_error}
use lustre_test_vms.Owner.{codes}
use lustre_test_vms.Qemu.{same_codes}
use lustre_test_vms.Qemu.Identity.{same_codes_sound}
use lustre_test_vms.Targets.Kernels.{
  Name, Config, kernel_dir_version_key, split_digits, is_older, key_ltb, chunk_ltb, same_chunk,
  extends, is_among, newest_first, insert, matching_kernel_dirs, resolve_kernel_dir, resolve_kernel,
  short_kernel_name, declared_short, before_tail, is_version,
}
use lustre_test_vms.Targets.Kernels.Numbers.{SmallerNumber}
use lustre_test_vms.Targets.Kernels.Resolve.{resolve_kernel_dir-IsNewest, resolve_kernel_dir_idem}
use lustre_test_vms.Targets.Kernels.Pinned.{PrefixFree, resolve_kernel_pinned}

abbrev rhel97 : Name
rhel97 = codes "5.14-rhel9.7"

abbrev rhel95 : Name
rhel95 = codes "5.14-rhel9.5"

abbrev older : Name
older = codes "5.14-rhel9.5-5.14.0-503.89.1.el9_5"

abbrev newer : Name
newer = codes "5.14-rhel9.5-5.14.0-503.155.1.el9_5"

abbrev dirs : List Name
dirs = older ∷ newer ∷ []

abbrev config : Config
config = record {
  available = rhel97 ∷ rhel95 ∷ [];
  default_kernel = rhel97;
  pinned_kernel = some rhel95;
  built = some dirs;
}

-- A larger number is newer, though it comes first as a text.
numbers_count : is_older older newer ≡ true
unfolding is_older key_ltb kernel_dir_version_key split_digits same_chunk chunk_ltb nat_eq
numbers_count = refl

resolves : resolve_kernel config none ≡ ok newer
unfolding resolve_kernel resolve_kernel_dir matching_kernel_dirs newest_first insert extends
    is_older key_ltb kernel_dir_version_key split_digits same_chunk chunk_ltb nat_eq
resolves = refl

other_refused : resolve_kernel config (some rhel97) ≡ err value_error
unfolding resolve_kernel short_kernel_name declared_short extends nat_eq
other_refused = refl

-- A kernel that is not declared has the name before its version.
undeclared : short_kernel_name config (codes "6.6-sles16-6.6.0-12.1") ≡ codes "6.6-sles16"
unfolding short_kernel_name declared_short extends before_tail is_version nat_eq
undeclared = refl

resolve_kernel_dir-IsNewest_example :
    let r = resolve_kernel_dir (some dirs) rhel95 in
    ((r ≡ rhel95) × (is_among rhel95 dirs || not (any (extends rhel95) dirs) ≡ true))
    ⊎ ((is_among rhel95 dirs ≡ false)
        × (is_among r dirs ≡ true)
        × (extends rhel95 r ≡ true)
        × ((d : Name)
            → is_among d dirs ≡ true
            → extends rhel95 d ≡ true
            → (is_older r d ≡ false) × ¬ SmallerNumber r d))
resolve_kernel_dir-IsNewest_example = resolve_kernel_dir-IsNewest dirs rhel95

resolve_kernel_dir_idem_example :
    resolve_kernel_dir (some dirs) (resolve_kernel_dir (some dirs) rhel95)
    ≡ resolve_kernel_dir (some dirs) rhel95
resolve_kernel_dir_idem_example = resolve_kernel_dir_idem (some dirs) rhel95

one_of : (n : Name) → is_among n config.available ≡ true → (n ≡ rhel97) ⊎ (n ≡ rhel95)
one_of n h = elim (Bool-cases (same_codes n rhel97)) [
  | inl e ↦ inl (same_codes_sound n rhel97 e)
  | inr e ↦ inr (same_codes_sound n rhel95 (ground arith))
]

free_pairs :
    (extends rhel97 rhel97 ≡ false)
    × (extends rhel97 rhel95 ≡ false)
    × (extends rhel95 rhel97 ≡ false)
    × (extends rhel95 rhel95 ≡ false)
unfolding extends nat_eq
free_pairs = (refl, refl, refl, refl)

prefix_free : PrefixFree config.available
unfolding PrefixFree
prefix_free a b ha hb = elim (one_of a ha) [
  | inl p ↦ elim (one_of b hb) [
    | inl q ↦ ground (arith, p, q, free_pairs)
    | inr q ↦ ground (arith, p, q, free_pairs)
  ]
  | inr p ↦ elim (one_of b hb) [
    | inl q ↦ ground (arith, p, q, free_pairs)
    | inr q ↦ ground (arith, p, q, free_pairs)
  ]
]

declared : is_among rhel95 config.available ≡ true
unfolding nat_eq
declared = refl

resolve_kernel_pinned_example : short_kernel_name config newer ≡ rhel95
resolve_kernel_pinned_example =
    resolve_kernel_pinned config none rhel95 newer refl declared prefix_free resolves
