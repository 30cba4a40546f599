-- ===== src/Vm/Files/Created.antt =====
-- What the creation of disks leaves, also when it fails.
use lustre_test_vms.Base.{
  ℕ, zero, suc, ◌+◌, ◌/◌, ◌%◌, String, ◌≡◌, refl, subst, ◌⊎◌, inl, inr, Bool, true, false, not,
  ◌||◌, ◌&&◌, none, some, List, [], ◌∷◌, ◌++◌, any, arith, nat_eq, string_eq, ◌==◌, ltb, Bool-cases,
  if◌then◌else◌,
}
use lustre_test_vms.Result.{ok, err, Err, Result-cases}
use lustre_test_vms.Qemu.{strip, same_codes}
use lustre_test_vms.Vm.Files.{
  VmInfo, File, overlay, disk, same_file, bytes, Files, content, Host, Made, made, made_part,
  made_nothing, digits, digits_on, dot_img, disk_prefix, disk_name, is_digit, is_number_img,
  is_disk_of, make_file, make_each, make_disks, create_disks, disk_paths, numbered_disks,
}
use lustre_test_vms.Vm.Files.Laws.{
  same_file_lem, among, can_remove, content-write, unlink_all-content,
}

made_cases : (m : Made) → (m ≡ made) ⊎ ((m ≡ made_part) ⊎ (m ≡ made_nothing))
made_cases made = inl refl
made_cases made_part = inr (inl refl)
made_cases made_nothing = inr (inr refl)

make_file-content :
    (e : Host) (f g : File) (fs : Files)
    → (same_file f g ≡ false → content g (make_file e f fs).1 ≡ content g fs)
      × ((make_file e f fs).0 ≡ ok tt
          → content g (make_file e f fs).1 ≡ (if same_file f g then some bytes else content g fs))
unfolding make_file
make_file-content e f g fs = elim (made_cases (e.make f)) [
  | inl m ↦ (
    λ n. ground (arith, content-write f g bytes fs),
    λ h. ground (arith, content-write f g bytes fs),
  )
  | inr (inl m) ↦ (λ n. ground (arith, content-write f g bytes fs), λ h. ground arith)
  | inr (inr m) ↦ (λ n. ground arith, λ h. ground arith)
]

make_each-content :
    (e : Host) (paths : List File) (g : File) (fs : Files)
    → (among paths g ≡ false → content g (make_each e paths fs).1 ≡ content g fs)
      × ((make_each e paths fs).0 ≡ ok tt
          → content g (make_each e paths fs).1
            ≡ (if among paths g then some bytes else content g fs))
unfolding make_each
make_each-content e [] g fs = (λ n. refl, λ h. refl)
make_each-content e (f ∷ paths) g fs =
    let here = make_file-content e f g fs in
    elim (Result-cases (make_file e f fs).0) [
      | inr (x, r) ↦ (λ n. ground (arith, here), λ h. absurd (ground arith))
      | inl (_, r) ↦
          let later = make_each-content e paths g (make_file e f fs).1 in
          (λ n. ground (arith, here, later), λ h. ground (arith, here, later))
    ]

-- The overlay and the data disks of a VM.
abbrev pub images : Host → VmInfo → List File
images e vm = overlay vm.name ∷ disk_paths e vm

pub make_disks-content :
    (e : Host) (vm : VmInfo) (g : File) (fs : Files)
    → (among (images e vm) g ≡ false → content g (make_disks e vm fs).1 ≡ content g fs)
      × ((make_disks e vm fs).0 ≡ ok tt
          → content g (make_disks e vm fs).1
            ≡ (if among (images e vm) g then some bytes else content g fs))
unfolding make_disks
make_disks-content e vm g fs =
    let here = make_file-content e (overlay vm.name) g fs in
    elim (Result-cases (make_file e (overlay vm.name) fs).0) [
      | inr (x, r) ↦ (λ n. ground (arith, here), λ h. absurd (ground arith))
      | inl (_, r) ↦ elim (Bool-cases e.resize) [
        | inr z ↦ (λ n. ground (arith, here), λ h. absurd (ground arith))
        | inl z ↦
            let later =
              make_each-content e (disk_paths e vm) g (make_file e (overlay vm.name) fs).1 in
            (λ n. ground (arith, here, later), λ h. ground (arith, here, later))
      ]
    ]

-- Creating the disks of a VM either makes its overlay and its data disks and touches nothing else, or
-- raises; and then, if these files can be removed and were not there, everything is as before.
pub create_disks-Whole :
    (e : Host) (vm : VmInfo) (fs : Files) (g : File)
    → any (λ f. not (can_remove e f)) (images e vm) ≡ false
    → (among (images e vm) g ≡ true → content g fs ≡ none)
    → (((create_disks e vm fs).0 ≡ ok tt)
        × (content g (create_disks e vm fs).1
            ≡ (if among (images e vm) g then some bytes else content g fs)))
      ⊎ ((x : Err) × ((create_disks e vm fs).0 ≡ err x)
          × (content g (create_disks e vm fs).1 ≡ content g fs))
unfolding create_disks
create_disks-Whole e vm fs g can absent = elim (Result-cases e.overlays_ready) [
  | inr (x, r) ↦ inr (x, ground arith, ground arith)
  | inl (_, r) ↦
      let here = make_disks-content e vm g fs in
      elim (Result-cases (make_disks e vm fs).0) [
        | inl (_, s) ↦ inl (ground arith, ground (arith, here))
        | inr (x, s) ↦
            let gone = unlink_all-content e (images e vm) g (make_disks e vm fs).1 can in
            inr (
              x,
              ground (arith, gone.0),
              elim (Bool-cases (among (images e vm) g)) [
                | inl y ↦ ground (arith, gone.0, gone.1, absent y)
                | inr n ↦ ground (arith, gone.0, gone.1, here.0 n)
              ],
            )
      ]
]

-- A text of digits.
unfoldable pub are_digits : List ℕ → Bool
are_digits cs = not (any (λ c. not (is_digit c)) cs)

number_img-digits :
    (seen : Bool) (cs : List ℕ)
    → are_digits cs ≡ true
    → seen || not (same_codes cs []) ≡ true
    → is_number_img seen (cs ++ dot_img) ≡ true
unfolding are_digits is_number_img nat_eq
number_img-digits seen [] d n = ground arith
number_img-digits seen (c ∷ cs) d n = ground (arith, number_img-digits true cs (ground arith) refl)

are_digits-append : (xs ys : List ℕ) → are_digits (xs ++ ys) ≡ are_digits xs && are_digits ys
unfolding are_digits
are_digits-append [] ys = ground arith
are_digits-append (x ∷ xs) ys = ground (arith, are_digits-append xs ys)

pub digits_on-digits : (fuel n : ℕ) → are_digits (digits_on fuel n) ≡ true
unfolding digits_on are_digits
digits_on-digits zero n = refl
digits_on-digits (suc fuel) n = elim (Bool-cases (ltb n 10)) [
  | inl e ↦ ground arith
  | inr e ↦
      let last = are_digits-append (digits_on fuel (n / 10)) ((48 + n % 10) ∷ []) in
      ground (arith, last, digits_on-digits fuel (n / 10))
]

snoc_nonempty : (xs : List ℕ) (x : ℕ) → not (same_codes (xs ++ (x ∷ [])) []) ≡ true
snoc_nonempty [] x = refl
snoc_nonempty (y ∷ xs) x = refl

pub digits_nonempty : (n : ℕ) → not (same_codes (digits n) []) ≡ true
unfolding digits digits_on
digits_nonempty n = elim (Bool-cases (ltb n 10)) [
  | inl e ↦ ground arith
  | inr e ↦ ground (arith, snoc_nonempty (digits_on n (n / 10)) (48 + n % 10))
]

pub strip-append : (xs ys : List ℕ) → strip xs (xs ++ ys) ≡ some ys
strip-append [] ys = refl
strip-append (x ∷ xs) ys = ground (arith, strip-append xs ys)

is_disk_of-name :
    (dir name : String) (n : ℕ) → is_disk_of dir name (disk dir (disk_name name n)) ≡ true
unfolding is_disk_of disk_name digits
is_disk_of-name dir name n = ground (
  arith,
  strip-append (disk_prefix name) (digits n ++ dot_img),
  number_img-digits false (digits n) (digits_on-digits (suc n) n) (digits_nonempty n),
)

numbered_disks-Named :
    (dir name : String) (n count : ℕ) (g : File)
    → among (numbered_disks dir name n count) g ≡ true
    → is_disk_of dir name g ≡ true
unfolding numbered_disks
numbered_disks-Named dir name n zero g h = absurd (ground arith)
numbered_disks-Named dir name n (suc count) g h =
    elim (Bool-cases (same_file (disk dir (disk_name name n)) g)) [
      | inl s ↦
          subst (λ f. is_disk_of dir name f ≡ true)
            (same_file_lem (disk dir (disk_name name n)) g s) (is_disk_of-name dir name n)
      | inr d ↦ numbered_disks-Named dir name (suc n) count g (ground arith)
    ]

-- The disks of a VM are named as the pattern for a directory wants it.
pub disk_paths-Named :
    (e : Host) (vm : VmInfo) (g : File)
    → among (disk_paths e vm) g ≡ true
    → is_disk_of (if vm.disk_dir == "" then e.overlays else vm.disk_dir) vm.name g ≡ true
unfolding disk_paths
disk_paths-Named e vm g h = numbered_disks-Named _ vm.name 1 (vm.mdt_disks + vm.ost_disks) g h
