-- ===== src/Vm/Files/Laws.antt =====
-- What removing files leaves.
use lustre_test_vms.Base.{
  ℕ, String, ◌≡◌, refl, sym, ap, ◌∙◌, ◌⊎◌, inl, inr, Bool, true, false, not, ◌||◌, Option, none,
  some, List, [], ◌∷◌, ◌++◌, any, keep, arith, nat_eq, string_eq, ◌==◌, Bool-cases, if◌then◌else◌,
}
use lustre_test_vms.Result.{ok, Result-cases}
use lustre_test_vms.Owner.{Attempt, done, denied, failed}
use lustre_test_vms.Qemu.{same_codes}
use lustre_test_vms.Qemu.Identity.{same_codes_sound}
use lustre_test_vms.Vm.Files.{
  File, overlay, qmp, pid, info, log, failed_log, info_lock, disk, key, same_file, Content, Files,
  content, remove, write, Host, unlink_each, sudo_rm_each, unlink_all, file_names,
}

file_of : ℕ × String × List ℕ → File
file_of (k, a, n) =
    if k == 0
    then overlay a
    else if k == 1
    then qmp a
    else if k == 2
    then pid a
    else if k == 3
    then info a
    else if k == 4
    then log a
    else if k == 5
    then failed_log a
    else if k == 6
    then info_lock a
    else disk a n

file_of-key : (f : File) → file_of (key f) ≡ f
unfolding file_of nat_eq
file_of-key (overlay a) = refl
file_of-key (qmp a) = refl
file_of-key (pid a) = refl
file_of-key (info a) = refl
file_of-key (log a) = refl
file_of-key (failed_log a) = refl
file_of-key (info_lock a) = refl
file_of-key (disk dir n) = refl

pub same_codes_refl : (xs : List ℕ) → same_codes xs xs ≡ true
same_codes_refl [] = refl
same_codes_refl (x ∷ xs) = ground (arith, same_codes_refl xs)

pub same_file_refl : (f : File) → same_file f f ≡ true
unfolding same_file
same_file_refl f = ground (arith, same_codes_refl (key f).2)

pub same_file_lem : (f g : File) → same_file f g ≡ true → f ≡ g
unfolding same_file
same_file_lem f g h =
    let names : (key f).2 ≡ (key g).2 = same_codes_sound (key f).2 (key g).2 (ground arith) in
    let keys : key f ≡ key g = ground (arith, names) in
    sym (file_of-key f) ∙ ap file_of keys ∙ file_of-key g

pub content-remove :
    (f g : File) (fs : Files)
    → content g (remove f fs) ≡ (if same_file f g then none else content g fs)
content-remove f g [] = ground arith
content-remove f g (e ∷ fs) = elim (Bool-cases (same_file e.0 f)) [
  | inl s ↦ ground (arith, content-remove f g fs, same_file_lem e.0 f s)
  | inr n ↦ elim (Bool-cases (same_file f g)) [
    | inl s ↦ ground (arith, content-remove f g fs, same_file_lem f g s)
    | inr d ↦ ground (arith, content-remove f g fs)
  ]
]

pub content-write :
    (f g : File) (c : Content) (fs : Files)
    → content g (write f c fs) ≡ (if same_file f g then some c else content g fs)
content-write f g c fs = ground (arith, content-remove f g fs)

-- Whether a file is in a list.
abbrev pub among : List File → File → Bool
among fs g = any (λ f. same_file f g) fs

-- Whether a file can be unlinked, if need be as root.
abbrev pub can_remove : Host → File → Bool
can_remove e f = elim (e.unlink f) [ done ↦ true | denied ↦ e.sudo_rm f | failed ↦ false ]

-- What is left of a file when a list of files is removed.
abbrev pub left_of : Bool → Option Content → Option Content
left_of true c = none
left_of false c = c

sudo_rm_each-content :
    (e : Host) (fs : List File) (g : File) (es : Files)
    → any (λ f. not (e.sudo_rm f)) fs ≡ false
    → content g (sudo_rm_each e fs es) ≡ left_of (among fs g) (content g es)
unfolding sudo_rm_each
sudo_rm_each-content e [] g es h = refl
sudo_rm_each-content e (f ∷ fs) g es h = elim (Bool-cases (e.sudo_rm f)) [
  | inr n ↦ absurd (ground arith)
  | inl y ↦
      ground
        (arith, sudo_rm_each-content e fs g (remove f es) (ground arith), content-remove f g es)
]

attempt_cases : (a : Attempt) → (a ≡ done) ⊎ ((a ≡ denied) ⊎ (a ≡ failed))
attempt_cases done = inl refl
attempt_cases denied = inr (inl refl)
attempt_cases failed = inr (inr refl)

any-snoc : (p : File → Bool) (fs : List File) (f : File) → any p (fs ++ (f ∷ [])) ≡ any p fs || p f
any-snoc p [] f = ground arith
any-snoc p (g ∷ fs) f = ground (arith, any-snoc p fs f)

-- What is unlinked at once and what is handed on are removed between them.
unlink_each-content :
    (e : Host) (fs stuck : List File) (g : File) (es : Files)
    → any (λ f. not (can_remove e f)) fs ≡ false
    → any (λ f. not (e.sudo_rm f)) stuck ≡ false
    → (rest : List File) × ((unlink_each e fs stuck es).0 ≡ ok rest)
      × (any (λ f. not (e.sudo_rm f)) rest ≡ false)
      × (left_of (among rest g) (content g (unlink_each e fs stuck es).1)
          ≡ left_of (among stuck g || among fs g) (content g es))
unfolding unlink_each
unlink_each-content e [] stuck g es h k = (stuck, refl, k, ground arith)
unlink_each-content e (f ∷ fs) stuck g es h k = elim (attempt_cases (e.unlink f)) [
  | inl d ↦
      let later = unlink_each-content e fs stuck g (remove f es) (ground arith) k in
      (later.0, ground (arith, later.1), later.2, ground (arith, later.3, content-remove f g es))
  | inr (inl d) ↦
      let onward = any-snoc (λ x. not (e.sudo_rm x)) stuck f in
      let later = unlink_each-content e fs (stuck ++ (f ∷ [])) g es (ground arith) (ground arith) in
      let here = any-snoc (λ x. same_file x g) stuck f in
      (later.0, ground (arith, later.1), later.2, ground (arith, later.3, here))
  | inr (inr d) ↦ absurd (ground arith)
]

-- Where every file can be unlinked or removed as root, the listed files are gone and no other is.
pub unlink_all-content :
    (e : Host) (fs : List File) (g : File) (es : Files)
    → any (λ f. not (can_remove e f)) fs ≡ false
    → ((unlink_all e fs es).0 ≡ ok tt)
      × (content g (unlink_all e fs es).1 ≡ left_of (among fs g) (content g es))
unfolding unlink_all
unlink_all-content e fs g es h =
    let all = unlink_each-content e fs [] g es h refl in
    (
      ground (arith, all.1),
      ground (arith, all.1, all.3, sudo_rm_each-content e all.0 g (unlink_each e fs [] es).1 all.2),
    )

pub among-keep :
    (p : File → Bool) (g : File) (fs : List File) → p g ≡ false → among (keep p fs) g ≡ false
among-keep p g [] n = refl
among-keep p g (f ∷ fs) n = elim (Bool-cases (same_file f g)) [
  | inl s ↦ ground (arith, among-keep p g fs n, same_file_lem f g s)
  | inr d ↦ ground (arith, among-keep p g fs n)
]

-- Removing all the files there are that satisfy a test.
pub left_of-keep :
    (p : File → Bool) (g : File) (es : Files)
    → left_of (among (keep p (file_names es)) g) (content g es) ≡ left_of (p g) (content g es)
left_of-keep p g [] = ground arith
left_of-keep p g (e ∷ es) = elim (Bool-cases (same_file e.0 g)) [
  | inl s ↦ elim (Bool-cases (p g)) [
    | inl y ↦ ground (arith, same_file_lem e.0 g s)
    | inr n ↦ ground (arith, same_file_lem e.0 g s, among-keep p g (file_names es) n)
  ]
  | inr d ↦ elim (Bool-cases (p e.0)) [
    | inl y ↦ ground (arith, left_of-keep p g es)
    | inr n ↦ ground (arith, left_of-keep p g es)
  ]
]

sudo_rm_each-Other :
    (e : Host) (fs : List File) (g : File) (es : Files)
    → ((content g (sudo_rm_each e fs es) ≡ none) × (among fs g ≡ true))
      ⊎ (content g (sudo_rm_each e fs es) ≡ content g es)
unfolding sudo_rm_each
sudo_rm_each-Other e [] g es = inr refl
sudo_rm_each-Other e (f ∷ fs) g es = elim (Bool-cases (e.sudo_rm f)) [
  | inl y ↦ ground (arith, sudo_rm_each-Other e fs g (remove f es), content-remove f g es)
  | inr n ↦ ground (arith, sudo_rm_each-Other e fs g es)
]

unlink_each-Other :
    (e : Host) (fs stuck : List File) (g : File) (es : Files)
    → (((content g (unlink_each e fs stuck es).1 ≡ none) × (among fs g ≡ true))
        ⊎ (content g (unlink_each e fs stuck es).1 ≡ content g es))
      × ((rest : List File)
          → (unlink_each e fs stuck es).0 ≡ ok rest
          → among rest g ≡ true
          → among stuck g || among fs g ≡ true)
unfolding unlink_each
unlink_each-Other e [] stuck g es = (inr refl, λ rest. (λ h. (λ k. ground arith)))
unlink_each-Other e (f ∷ fs) stuck g es = elim (attempt_cases (e.unlink f)) [
  | inl d ↦
      let later = unlink_each-Other e fs stuck g (remove f es) in
      (
        ground (arith, later.0, content-remove f g es),
        λ rest. (λ h. (λ k. ground (arith, later.1 rest (ground arith) k))),
      )
  | inr (inl d) ↦
      let later = unlink_each-Other e fs (stuck ++ (f ∷ [])) g es in
      let here = any-snoc (λ x. same_file x g) stuck f in
      (
        ground (arith, later.0),
        λ rest. (λ h. (λ k. ground (arith, here, later.1 rest (ground arith) k))),
      )
  | inr (inr d) ↦ (ground arith, λ rest. (λ h. absurd (ground arith)))
]

-- Whatever can be removed, a listed file is gone or as it was, and any other is as it was.
pub unlink_all-Other :
    (e : Host) (fs : List File) (g : File) (es : Files)
    → ((content g (unlink_all e fs es).1 ≡ none) × (among fs g ≡ true))
      ⊎ (content g (unlink_all e fs es).1 ≡ content g es)
unfolding unlink_all
unlink_all-Other e fs g es =
    let all = unlink_each-Other e fs [] g es in
    elim (Result-cases (unlink_each e fs [] es).0) [
      | inr (x, r) ↦ ground (arith, all.0)
      | inl (stuck, r) ↦
          let after = sudo_rm_each-Other e stuck g (unlink_each e fs [] es).1 in
          ground (arith, all.0, all.1 stuck r, after)
    ]
