-- ===== src/Targets/Kernels/Resolve.antt =====
-- Which directory a kernel's name stands for.
use lustre_test_vms.Base.{
  ◌≡◌, refl, sym, ap, subst, ◌∙◌, ◌⊎◌, inl, inr, Bool, true, false, not, ◌||◌, Option, none, some,
  List, [], ◌∷◌, any, keep, arith, nat_eq, Bool-cases,
}
use lustre_test_vms.Qemu.{same_codes}
use lustre_test_vms.Qemu.Identity.{same_codes_sound}
use lustre_test_vms.Vm.Files.Laws.{same_codes_refl}
use lustre_test_vms.Targets.Kernels.{
  Name, is_older, insert, newest_first, extends, is_among, first_or, matching_kernel_dirs,
  resolve_kernel_dir,
}
use lustre_test_vms.Targets.Kernels.Numbers.{SmallerNumber, SmallerNumber-is_older}
use lustre_test_vms.Targets.Kernels.Order.{is_older-asym, is_older-cotrans}

-- The second list is empty as the first is, or begins with a name of the first to which no other is newer.
IsNewest : List Name → List Name → Type 0
IsNewest l [] = l ≡ []
IsNewest l (h ∷ t) = (any (is_older h) l ≡ false) × (is_among h l ≡ true)

is_older_irrefl : (a : Name) → is_older a a ≡ false
is_older_irrefl a = elim (Bool-cases (is_older a a)) [ inl e ↦ is_older-asym a a e | inr e ↦ e ]

any-is_older :
    (x h : Name) (l : List Name)
    → is_older x h ≡ false
    → any (is_older h) l ≡ false
    → any (is_older x) l ≡ false
any-is_older x h [] o n = refl
any-is_older x h (y ∷ l) o n =
    ground (arith, any-is_older x h l o (ground arith), is_older-cotrans x h y o (ground arith))

insert-IsNewest : (x : Name) (l ys : List Name) → IsNewest l ys → IsNewest (x ∷ l) (insert x ys)
unfolding IsNewest insert
insert-IsNewest x l [] e = (ground (arith, is_older_irrefl x, e), ground (arith, same_codes_refl x))
insert-IsNewest x l (h ∷ t) (n, among) = elim (Bool-cases (is_older x h)) [
  | inl o ↦
      let turn : insert x (h ∷ t) ≡ h ∷ insert x t = ground arith in
      subst (IsNewest (x ∷ l)) (sym turn)
        (ground (arith, is_older-asym x h o, n), ground (arith, among))
  | inr o ↦
      let turn : insert x (h ∷ t) ≡ x ∷ h ∷ t = ground arith in
      subst (IsNewest (x ∷ l)) (sym turn) (
        ground (arith, is_older_irrefl x, any-is_older x h l o n),
        ground (arith, same_codes_refl x),
      )
]

newest_first-IsNewest : (l : List Name) → IsNewest l (newest_first l)
unfolding IsNewest newest_first
newest_first-IsNewest [] = refl
newest_first-IsNewest (x ∷ l) = insert-IsNewest x l (newest_first l) (newest_first-IsNewest l)

any-keep :
    (p q : Name → Bool) (l : List Name) (n : Name)
    → any p (keep q l) ≡ false
    → is_among n l ≡ true
    → q n ≡ true
    → p n ≡ false
any-keep p q [] n a m e = absurd (ground arith)
any-keep p q (x ∷ l) n a m e = elim (Bool-cases (same_codes n x)) [
  | inl s ↦ elim (Bool-cases (q x)) [
    | inl y ↦ ground (arith, same_codes_sound n x s)
    | inr y ↦ ground (arith, same_codes_sound n x s)
  ]
  | inr s ↦ elim (Bool-cases (q x)) [
    | inl y ↦ any-keep p q l n (ground arith) (ground arith) e
    | inr y ↦ any-keep p q l n (ground arith) (ground arith) e
  ]
]

among-keep :
    (q : Name → Bool) (l : List Name) (n : Name)
    → is_among n (keep q l) ≡ true
    → (is_among n l ≡ true) × (q n ≡ true)
among-keep q [] n m = absurd (ground arith)
among-keep q (x ∷ l) n m = elim (Bool-cases (q x)) [
  | inr y ↦ ground (arith, among-keep q l n)
  | inl y ↦ elim (Bool-cases (same_codes n x)) [
    | inl s ↦ ground (arith, same_codes_sound n x s)
    | inr s ↦ ground (arith, among-keep q l n (ground arith))
  ]
]

keep_none : (q : Name → Bool) (l : List Name) → keep q l ≡ [] → any q l ≡ false
keep_none q [] h = refl
keep_none q (x ∷ l) h = elim (Bool-cases (q x)) [
  | inl y ↦ absurd (ground arith)
  | inr y ↦ ground (arith, keep_none q l)
]

first_newest :
    (name : Name) (l sorted : List Name)
    → IsNewest l sorted
    → (l ≡ []) × (first_or name sorted ≡ name)
      ⊎ (any (is_older (first_or name sorted)) l ≡ false)
        × (is_among (first_or name sorted) l ≡ true)
unfolding IsNewest
first_newest name l [] h = inl (h, refl)
first_newest name l (x ∷ t) h = inr h

-- A name stands for itself if a directory has it, or none begins with the name and a dash; else it stands
-- for a directory that does, and no directory that does has a newer version: none has a larger number where
-- the two first differ in one.
pub resolve_kernel_dir-IsNewest :
    (dirs : List Name) (name : Name)
    → let r = resolve_kernel_dir (some dirs) name in
      ((r ≡ name) × (is_among name dirs || not (any (extends name) dirs) ≡ true))
      ⊎ ((is_among name dirs ≡ false)
          × (is_among r dirs ≡ true)
          × (extends name r ≡ true)
          × ((d : Name)
              → is_among d dirs ≡ true
              → extends name d ≡ true
              → (is_older r d ≡ false) × ¬ SmallerNumber r d))
unfolding resolve_kernel_dir matching_kernel_dirs
resolve_kernel_dir-IsNewest dirs name = elim (Bool-cases (is_among name dirs)) [
  | inl e ↦ inl (ground arith, ground arith)
  | inr e ↦
      let l = keep (extends name) dirs in
      let r = first_or name (newest_first l) in
      let turn : resolve_kernel_dir (some dirs) name ≡ r = ground arith in
      elim (first_newest name l (newest_first l) (newest_first-IsNewest l)) [
        | inl (nothing, same) ↦
            inl (turn ∙ same, ground (arith, keep_none (extends name) dirs nothing))
        | inr (newest, among) ↦
            let found = among-keep (extends name) dirs r among in
            inr (
              e,
              ap (λ x. is_among x dirs) turn ∙ found.0,
              ap (extends name) turn ∙ found.1,
              λ d. (λ m. (λ x.
                  let below : is_older (resolve_kernel_dir (some dirs) name) d ≡ false =
                    ap (λ y. is_older y d) turn
                    ∙ any-keep (is_older r) (extends name) dirs d newest m x in
                  (
                    below,
                    λ smaller. absurd (ground (arith, below, SmallerNumber-is_older _ d smaller)),
                  ))),
            )
      ]
]

-- What a name stands for stands for itself.
pub resolve_kernel_dir_idem :
    (built : Option (List Name)) (name : Name)
    → resolve_kernel_dir built (resolve_kernel_dir built name) ≡ resolve_kernel_dir built name
unfolding resolve_kernel_dir
resolve_kernel_dir_idem none name = refl
resolve_kernel_dir_idem (some dirs) name = elim (resolve_kernel_dir-IsNewest dirs name) [
  | inl (same, _) ↦ ap (resolve_kernel_dir (some dirs)) same
  | inr (_, among, _, _) ↦ among_resolve dirs (resolve_kernel_dir (some dirs) name) among
]
  where
    among_resolve :
        (ds : List Name) (n : Name) → is_among n ds ≡ true → resolve_kernel_dir (some ds) n ≡ n
    among_resolve ds n m = ground arith
