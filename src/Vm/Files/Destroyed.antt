-- ===== src/Vm/Files/Destroyed.antt =====
-- Which files go with a VM.
use lustre_test_vms.Base.{
  ℕ, zero, suc, ◌+◌, ◌/◌, ◌%◌, String, ◌≡◌, ◌≢◌, refl, ap, subst, ◌∙◌, ◌⊎◌, inl, inr, Bool, false,
  not, ◌||◌, ◌&&◌, Option, none, some, List, [], ◌∷◌, ◌++◌, any, keep, arith, nat_eq, string_eq,
  ◌==◌, ltb, Bool-cases, Option-cases,
}
use mathlib.Core.List.{append_assoc}
use lustre_test_vms.Result.{ok}
use lustre_test_vms.Owner.{codes}
use lustre_test_vms.Qemu.{strip}
use lustre_test_vms.Vm.Files.{
  File, overlay, qmp, pid, info, log, failed_log, info_lock, disk, same_file, Content, Files,
  content, load, Host, digits, digits_on, dash_disk, dot_img, disk_prefix, disk_name, is_globbed,
  is_disk_of, disk_dir_files, recorded_disks, artifacts, destroy_vm_artifacts, file_names,
}
use lustre_test_vms.Vm.Files.Laws.{among, can_remove, left_of, unlink_all-content, left_of-keep}

-- Whether a list of code points has a dash.
has_dash : List ℕ → Bool
has_dash cs = any (λ c. c == 45) cs

has_dash-append : (xs ys : List ℕ) → has_dash (xs ++ ys) ≡ has_dash xs || has_dash ys
unfolding has_dash
has_dash-append [] ys = refl
has_dash-append (x ∷ xs) ys = ground (arith, has_dash-append xs ys)

digits_on-dash : (fuel n : ℕ) → has_dash (digits_on fuel n) ≡ false
unfolding digits_on has_dash
digits_on-dash zero n = refl
digits_on-dash (suc fuel) n = elim (Bool-cases (ltb n 10)) [
  | inl e ↦ ground arith
  | inr e ↦
      let last = has_dash-append (digits_on fuel (n / 10)) ((48 + n % 10) ∷ []) in
      ground (arith, last, digits_on-dash fuel (n / 10))
]

-- Where a text without a dash begins another, up to a dash in that other, it begins what is before the dash.
strip_before :
    (ks r ys t : List ℕ)
    → has_dash ks ≡ false
    → strip ks (ys ++ (45 ∷ t)) ≡ some r
    → (s : List ℕ) × (strip ks ys ≡ some s)
unfolding has_dash
strip_before [] r ys t d h = (ys, refl)
strip_before (k ∷ ks) r [] t d h = absurd (ground arith)
strip_before (k ∷ ks) r (y ∷ ys) t d h =
    let rest = strip_before ks r ys t (ground arith) (ground arith) in
    (rest.0, ground (arith, rest.1))

strip_no_dash : (xs r t ks : List ℕ) → has_dash t ≡ false → strip (xs ++ (45 ∷ ks)) t ≢ some r
unfolding has_dash
strip_no_dash [] r [] ks d h = ground arith
strip_no_dash [] r (c ∷ t) ks d h = ground arith
strip_no_dash (x ∷ xs) r [] ks d h = ground arith
strip_no_dash (x ∷ xs) r (c ∷ t) ks d h = strip_no_dash xs r t ks (ground arith) (ground arith)

-- Where `xs-disk` begins `ys-disk` with a rest without a dash, the names are the same, or `xs-disk` begins
-- `ys`.
strip-disk :
    (xs ys t r : List ℕ)
    → has_dash t ≡ false
    → strip (xs ++ dash_disk) (ys ++ (dash_disk ++ t)) ≡ some r
    → (xs ≡ ys) ⊎ ((s : List ℕ) × (strip (xs ++ dash_disk) ys ≡ some s))
unfolding has_dash nat_eq
strip-disk [] [] t r d h = inl refl
strip-disk [] (y ∷ ys) t r d h =
    let rest =
      strip_before (100 ∷ 105 ∷ 115 ∷ 107 ∷ []) r ys (100 ∷ 105 ∷ 115 ∷ 107 ∷ t) refl
        (ground arith) in
    inr (rest.0, ground (arith, rest.1))
strip-disk (x ∷ xs) [] t r d h = absurd (
    strip_no_dash xs r (100 ∷ 105 ∷ 115 ∷ 107 ∷ t) (100 ∷ 105 ∷ 115 ∷ 107 ∷ []) (ground arith)
      (ground arith))
strip-disk (x ∷ xs) (y ∷ ys) t r d h = elim (strip-disk xs ys t r d (ground arith)) [
  | inl e ↦ inl (ground arith)
  | inr (s, e) ↦ inr (s, ground arith)
]

-- A data disk that is found through the `.info` file.
abbrev pub is_recorded : String → Files → File → Bool
is_recorded name es f = elim (load name es) [
  | none ↦ false
  | some vm ↦ not (vm.disk_dir == "") && is_disk_of vm.disk_dir name f
]

abbrev small_files : String → List File
small_files name = qmp name ∷ pid name ∷ info name ∷ log name ∷ info_lock name ∷ []

-- Which files are removed with a VM.
abbrev pub takes : Host → String → Files → File → Bool
takes e name es f =
    same_file (overlay name) f
    || (is_globbed e name f || (is_recorded name es f || among (small_files name) f))

pub among-append : (fs gs : List File) (g : File) → among (fs ++ gs) g ≡ among fs g || among gs g
among-append [] gs g = refl
among-append (f ∷ fs) gs g = ground (arith, among-append fs gs g)

left_of-recorded :
    (name : String) (es : Files) (f : File)
    → left_of (among (recorded_disks name es) f) (content f es)
      ≡ left_of (is_recorded name es f) (content f es)
unfolding recorded_disks disk_dir_files
left_of-recorded name es f = elim (Option-cases (load name es)) [
  | inl e ↦ ground arith
  | inr (vm, e) ↦ elim (Bool-cases (vm.disk_dir == "")) [
    | inl d ↦ ground arith
    | inr d ↦ ground (arith, left_of-keep (is_disk_of vm.disk_dir name) f es)
  ]
]

left_of-four :
    (c : Option Content) (o g h r q k : Bool)
    → left_of g c ≡ left_of h c
    → left_of r c ≡ left_of q c
    → left_of (o || (g || (r || k))) c ≡ left_of (o || (h || (q || k))) c
left_of-four none o g h r q k p s = ground arith
left_of-four (some c) o g h r q k p s = ground arith

left_of-artifacts :
    (e : Host) (name : String) (es : Files) (f : File)
    → left_of (among (artifacts e name es) f) (content f es)
      ≡ left_of (takes e name es f) (content f es)
unfolding artifacts
left_of-artifacts e name es f =
    let glob = keep (is_globbed e name) (file_names es) in
    let first = among-append glob (recorded_disks name es ++ small_files name) f in
    let next = among-append (recorded_disks name es) (small_files name) f in
    ap (λ x. left_of (same_file (overlay name) f || x) (content f es))
      (first ∙ ap (λ x. among glob f || x) next)
    ∙ left_of-four (content f es) (same_file (overlay name) f) (among glob f) (is_globbed e name f)
        (among (recorded_disks name es) f) (is_recorded name es f) (among (small_files name) f)
        (left_of-keep (is_globbed e name) f es) (left_of-recorded name es f)

-- Where what goes with a VM can be removed, it is gone, and no other file is.
pub destroy_vm_artifacts-content :
    (e : Host) (name : String) (es : Files) (f : File)
    → any (λ g. not (can_remove e g)) (artifacts e name es) ≡ false
    → ((destroy_vm_artifacts e name es).0 ≡ ok tt)
      × (content f (destroy_vm_artifacts e name es).1 ≡ left_of (takes e name es f) (content f es))
unfolding destroy_vm_artifacts
destroy_vm_artifacts-content e name es f h =
    let all = unlink_all-content e (artifacts e name es) f es h in
    (all.0, all.1 ∙ left_of-artifacts e name es f)

-- The files that carry a VM's name.
unfoldable pub Belongs : String → File → Type 0
Belongs m (overlay a) = a ≡ m
Belongs m (qmp a) = a ≡ m
Belongs m (pid a) = a ≡ m
Belongs m (info a) = a ≡ m
Belongs m (log a) = a ≡ m
Belongs m (failed_log a) = a ≡ m
Belongs m (info_lock a) = a ≡ m
Belongs m (disk dir f) = (n : ℕ) × (f ≡ disk_name m n)

disk_tail-dash : (n : ℕ) → has_dash (digits n ++ dot_img) ≡ false
unfolding has_dash digits
disk_tail-dash n = ground (arith, has_dash-append (digits n) dot_img, digits_on-dash (suc n) n)

disk_prefix_other :
    (a m : String) (n : ℕ)
    → codes a ≢ codes m
    → strip (disk_prefix a) (codes m) ≡ none
    → strip (disk_prefix a) (disk_name m n) ≡ none
unfolding disk_name
disk_prefix_other a m n differ apart = elim (Option-cases (strip (disk_prefix a) (disk_name m n))) [
  | inl z ↦ z
  | inr (r, z) ↦
      let dashless = disk_tail-dash n in
      let regroup = append_assoc (codes m) dash_disk (digits n ++ dot_img) in
      let begun = subst (λ x. strip (codes a ++ dash_disk) x ≡ some r) regroup z in
      elim (strip-disk (codes a) (codes m) (digits n ++ dot_img) r dashless begun) [
        | inl same ↦ absurd (differ same)
        | inr (s, t) ↦ absurd (ground (arith, t, apart))
      ]
]

takes-Other :
    (e : Host) (a m : String) (es : Files) (f : File)
    → codes a ≢ codes m
    → strip (disk_prefix a) (codes m) ≡ none
    → Belongs m f
    → takes e a es f ≡ false
unfolding Belongs is_globbed is_disk_of same_file
takes-Other e a m es (overlay b) differ apart b_m = ground arith
takes-Other e a m es (qmp b) differ apart b_m = ground arith
takes-Other e a m es (pid b) differ apart b_m = ground arith
takes-Other e a m es (info b) differ apart b_m = ground arith
takes-Other e a m es (log b) differ apart b_m = ground arith
takes-Other e a m es (failed_log b) differ apart b_m = ground arith
takes-Other e a m es (info_lock b) differ apart b_m = ground arith
takes-Other e a m es (disk dir g) differ apart (n, g_n) =
    ground (arith, disk_prefix_other a m n differ apart)

-- Where all that goes with a VM can be removed, removing it leaves every file of another VM as it was, if
-- the other's name is not the VM's with `-disk` and anything after it.
pub destroy_vm_artifacts-Other :
    (e : Host) (a m : String) (es : Files) (f : File)
    → any (λ g. not (can_remove e g)) (artifacts e a es) ≡ false
    → codes a ≢ codes m
    → strip (disk_prefix a) (codes m) ≡ none
    → Belongs m f
    → content f (destroy_vm_artifacts e a es).1 ≡ content f es
destroy_vm_artifacts-Other e a m es f h differ apart b_m =
    rw ((destroy_vm_artifacts-content e a es f h).1, takes-Other e a m es f differ apart b_m) refl
