-- ===== src/Cluster/Osts/Laws.antt =====
-- What a plan for OSTs in files promises.
use native.Mathlib.Nat.{zero-mod, mul-div-le, mul-le-mul_left}
use lustre_test_vms.Base.{
  ℕ, zero, suc, ◌+◌, ◌-◌, ◌*◌, ◌/◌, ◌%◌, ◌≤◌, String, ◌≡◌, ◌≢◌, refl, ◌∙◌, ap, sym, subst, ◌⊎◌, inl,
  inr, Option, some, List, [], ◌∷◌, map, length, All, arith, nat_eq, string_eq, Option-cases,
}
use lustre_test_vms.Result.{ok}
use lustre_test_vms.Cluster.Nodes.{ClusterNode, oss_nodes, ost_disk_count}
use lustre_test_vms.Cluster.Osts.{
  OstFilePlan, ost_file_kb, ost_file_min_kb, ost_file_reserve_kb, files_on, get_or, spread,
  file_hosts, common_size, smaller, min_disk_kb, plan_ost_files,
}

ℕ-cases : (n : ℕ) → (n ≡ 0) ⊎ ((k : ℕ) × (n ≡ suc k))
ℕ-cases zero = inl refl
ℕ-cases (suc k) = inr (k, refl)

-- A size that a plan may have under a cap, where 0 is none.
abbrev pub Good : ℕ → ℕ → Type 0
Good cap kb = (ost_file_min_kb ≤ kb) × (kb % 1024 ≡ 0) × (cap ≢ 0 → kb ≤ cap)

-- The files of a node have room beside the reserve.
abbrev pub Fits : (String → Option ℕ) → List (ℕ × String) → ℕ → ClusterNode → Type 0
Fits space hosts size n =
    (kb : ℕ) × (space n.name ≡ some kb)
    × ((files_on n.name hosts ≡ 0) ⊎ (files_on n.name hosts * size + ost_file_reserve_kb ≤ kb))

share_bounds :
    (space k cap r : ℕ)
    → ost_file_kb space (suc k) cap ≡ suc r
    → Good cap (suc r) × (suc k * suc r + ost_file_reserve_kb ≤ space)
unfolding ost_file_kb
share_bounds space k cap r h =
    let room : suc k * ((space - ost_file_reserve_kb) / suc k) ≤ space - ost_file_reserve_kb =
      mul-div-le (space - ost_file_reserve_kb) (suc k) in
    let within : suc r ≤ (space - ost_file_reserve_kb) / suc k = ground arith in
    let wide = mul-le-mul_left (suc k) within in
    ((ground arith, ground arith, λ c. ground arith), omega arith)

-- What the loop keeps of its size, from `size` to `r`.
abbrev Shrinks : ℕ → ℕ → ℕ → Type 0
Shrinks cap size r = ((r ≡ 0) ⊎ Good cap r) × (size ≢ 0 → (r ≢ 0) × (r ≤ size))

smaller-Good :
    (cap size share : ℕ)
    → (size ≡ 0) ⊎ Good cap size
    → Good cap (suc share)
    → Good cap (smaller size (suc share))
      × (smaller size (suc share) ≤ suc share)
      × (size ≢ 0 → smaller size (suc share) ≤ size)
      × (smaller size (suc share) ≢ 0)
smaller-Good cap zero share g h = (h, omega arith, λ n. absurd (n refl), λ e. omega arith)
smaller-Good cap (suc size) share (inl z) h = absurd (omega arith)
smaller-Good cap (suc size) share (inr g) h = (
  (omega arith, ground arith, λ c. omega (arith, h.2 c)),
  omega arith,
  λ n. omega arith,
  λ e. omega arith,
)

smaller-Fits :
    (space : String → Option ℕ) (hosts : List (ℕ × String)) (n : ClusterNode) (kb k share r : ℕ)
    → space n.name ≡ some kb
    → files_on n.name hosts ≡ suc k
    → suc k * suc share + ost_file_reserve_kb ≤ kb
    → r ≤ suc share
    → Fits space hosts r n
smaller-Fits space hosts n kb k share r s f room small =
    let wide = mul-le-mul_left (suc k) small in (kb, s, inr (rw f (omega arith)))

module _ (space : String → Option ℕ) (cap : ℕ) (hosts : List (ℕ × String)) where
  common_size-Fits :
      (size : ℕ) (ns : List ClusterNode) (r : ℕ)
      → (size ≡ 0) ⊎ Good cap size
      → common_size space cap hosts size ns ≡ ok r
      → Shrinks cap size r
        × All (Fits space hosts r) ns
        × (r ≡ 0 → All (λ (n : ClusterNode). files_on n.name hosts ≡ 0) ns)
  unfolding common_size
  common_size-Fits size [] r g h =
      let same : size ≡ r = ground arith in
      ((ground arith, λ n. (λ e. n (same ∙ e), omega arith)), tt, λ z. tt)
  common_size-Fits size (n ∷ ns) r g h = elim (Option-cases (space n.name)) [
    | inl s ↦ absurd (ground arith)
    | inr (kb, s) ↦ elim (ℕ-cases (files_on n.name hosts)) [
      | inl empty ↦
          let (shrinks, rest, unused) =
            common_size-Fits size ns r g (rw (s, empty, common_size) at h) in
          (shrinks, ((kb, s, inl empty), rest), λ z. (empty, unused z))
      | inr (k, files) ↦ elim (ℕ-cases (ost_file_kb kb (suc k) cap)) [
        | inl q ↦ absurd (ground arith)
        | inr (share, q) ↦
            let (fine, room) = share_bounds kb k cap share q in
            let (good, below, less, some_size) = smaller-Good cap size share g fine in
            let ((still_good, shrinks), rest, _) =
              common_size-Fits (smaller size (suc share)) ns r (inr good)
                (rw (s, files, q, common_size) at h) in
            let (some_r, small) = shrinks some_size in
            let here : Fits space hosts r n =
              smaller-Fits space hosts n kb k share r s files room (omega arith) in
            (
              (still_good, λ n. (some_r, omega (arith, less n))),
              (here, rest),
              λ z. absurd (some_r z),
            )
      ]
    ]
  ]

-- The indices `idx`, `idx + 1`, ..., of which there are `left`.
abbrev pub count_up : ℕ → ℕ → List ℕ
count_up idx zero = []
count_up idx (suc left) = idx ∷ count_up (suc idx) left

spread_indices :
    (names : List String) (i idx left : ℕ)
    → map (λ (h : ℕ × String). h.0) (spread names i idx left) ≡ count_up idx left
unfolding spread
spread_indices names i idx zero = refl
spread_indices names i idx (suc left) =
    ap (λ xs. idx ∷ xs) (spread_indices names (suc i) (suc idx) left)

pub file_indices :
    (ns : List ClusterNode) (ost_count : ℕ)
    → map (λ (h : ℕ × String). h.0) (file_hosts ns ost_count)
      ≡ count_up (ost_disk_count ns + 1) (ost_count - ost_disk_count ns)
unfolding file_hosts
file_indices ns ost_count =
    spread_indices (map (λ (n : ClusterNode). n.name) (oss_nodes ns)) 0 (ost_disk_count ns + 1)
      (ost_count - ost_disk_count ns)

pub List-cases {ℓ} :
    {A : Type ℓ} (xs : List A) → (xs ≡ []) ⊎ ((y : A) × (ys : List A) × (xs ≡ y ∷ ys))
List-cases [] = inl refl
List-cases (x ∷ xs) = inr (x, xs, refl)

-- The first file lies on the first OSS node.
first_of_spread :
    (name : String) (names : List String) (idx left : ℕ) (h : ℕ × String) (hs : List (ℕ × String))
    → spread (name ∷ names) 0 idx left ≡ h ∷ hs
    → h.1 ≡ name
unfolding spread
first_of_spread name names idx zero h hs e = absurd (ground arith)
first_of_spread name names idx (suc left) h hs e =
    let start : 0 % suc (length names) ≡ 0 = zero-mod (suc (length names)) in
    let same : get_or "" (name ∷ names) (0 % suc (length names)) ≡ name =
      ap (get_or "" (name ∷ names)) start in
    ground (arith, same)

first_file :
    (ns : List ClusterNode) (ost_count : ℕ) (o : ClusterNode) (os : List ClusterNode)
    (h : ℕ × String) (hs : List (ℕ × String))
    → oss_nodes ns ≡ o ∷ os
    → file_hosts ns ost_count ≡ h ∷ hs
    → h.1 ≡ o.name
unfolding file_hosts
first_file ns ost_count o os h hs e f =
    first_of_spread o.name (map (λ (n : ClusterNode). n.name) os) (ost_disk_count ns + 1)
      (ost_count - ost_disk_count ns) h hs
      (ap
          (λ (xs : List ClusterNode).
            spread (map (λ (n : ClusterNode). n.name) xs) 0 (ost_disk_count ns + 1)
              (ost_count - ost_disk_count ns))
          (sym e)
        ∙ f)

used_first :
    (o : ClusterNode) (h : ℕ × String) (hs : List (ℕ × String))
    → h.1 ≡ o.name
    → files_on o.name (h ∷ hs) ≢ 0
used_first o h hs same = ground arith

plan_parts :
    (ns : List ClusterNode) (ost_count : ℕ) (space : String → Option ℕ) (size : String → ℕ)
    (plan : OstFilePlan)
    → plan_ost_files ns ost_count space size ≡ ok (some plan)
    → (o : ClusterNode) × (os : List ClusterNode) × (h : ℕ × String) × (hs : List (ℕ × String))
      × (oss_nodes ns ≡ o ∷ os)
      × (file_hosts ns ost_count ≡ h ∷ hs)
      × (common_size space (min_disk_kb size (o ∷ os)) (file_hosts ns ost_count) 0 (o ∷ os)
          ≡ ok plan.size_kb)
      × (plan.hosts ≡ h ∷ hs)
unfolding plan_ost_files
plan_parts ns ost_count space size plan e = elim (List-cases (oss_nodes ns)) [
  | inl no_oss ↦ absurd (ground arith)
  | inr (o, os, p) ↦ elim (List-cases (file_hosts ns ost_count)) [
    | inl no_files ↦ absurd (ground arith)
    | inr (h, hs, q) ↦ (o, os, h, hs, p, q, ground arith, ground arith)
  ]
]

-- A plan has one host for each OST past the disks of the OSS nodes, in order; its size is at least 256 MiB,
-- a whole number of MiB, and at most the size of a disk where that is known; and on every OSS node the
-- files have room beside the reserve.
pub plan_ost_files_sound :
    (ns : List ClusterNode) (ost_count : ℕ) (space : String → Option ℕ) (size : String → ℕ)
    (plan : OstFilePlan)
    → plan_ost_files ns ost_count space size ≡ ok (some plan)
    → (map (λ (h : ℕ × String). h.0) plan.hosts
        ≡ count_up (ost_disk_count ns + 1) (ost_count - ost_disk_count ns))
      × Good (min_disk_kb size (oss_nodes ns)) plan.size_kb
      × All (Fits space plan.hosts plan.size_kb) (oss_nodes ns)
plan_ost_files_sound ns ost_count space size plan e =
    let (o, os, h, hs, p, q, c, r) = plan_parts ns ost_count space size plan e in
    let ((good, _), fits, unused) =
      common_size-Fits space (min_disk_kb size (o ∷ os)) (h ∷ hs) 0 (o ∷ os) plan.size_kb (inl refl)
        (rw q at c) in
    let some_size : plan.size_kb ≢ 0 =
      λ z. used_first o h hs (first_file ns ost_count o os h hs p q) (unused z).0 in
    (
      ap (map (λ (k : ℕ × String). k.0)) (r ∙ sym q) ∙ file_indices ns ost_count,
      elim good [
        | inl z ↦ absurd (some_size z)
        | inr g ↦ subst (λ xs. Good (min_disk_kb size xs) plan.size_kb) (sym p) g
      ],
      subst (λ xs. All (Fits space plan.hosts plan.size_kb) xs) (sym p)
          (subst (λ ks. All (Fits space ks plan.size_kb) (o ∷ os)) (sym r) fits),
    )
