-- ===== src/Cluster/Osts.antt =====
-- OSTs in files: `plan_ost_files` and `_min_disk_kb` of ltvm_pkg/vm_cluster.py, and `ost_file_kb` of
-- ltvm_pkg/deploy.py. Sizes are in KiB.
pub mod Laws
use lustre_test_vms.Base.{
  ℕ, zero, suc, ◌+◌, ◌-◌, ◌*◌, ◌/◌, ◌%◌, min, String, Bool, true, false, not, ◌&&◌, ◌||◌, Option,
  none, some, List, [], ◌∷◌, map, keep, sum, length, ◌==◌, nat_eq, string_eq, leb, ltb,
  if◌then◌else◌,
}
use lustre_test_vms.Result.{Result, ok, err, exit, Err}
use lustre_test_vms.Cluster.Nodes.{ClusterNode, oss_nodes, ost_disk_count}

abbrev least : ℕ → List ℕ → ℕ
least a [] = a
least a (b ∷ bs) = least (min a b) bs

abbrev all_known : List ℕ → Bool
all_known [] = true
all_known (zero ∷ bs) = false
all_known (suc b ∷ bs) = all_known bs

-- `_min_disk_kb`: 0 if a size is not known.
unfoldable pub min_disk_kb : (String → ℕ) → List ClusterNode → ℕ
min_disk_kb size [] = 0
min_disk_kb size (n ∷ ns) =
    let sizes = map (λ (m : ClusterNode). size m.name) ns in
    if all_known (size n.name ∷ sizes) then least (size n.name) sizes / 1024 else 0

abbrev pub ost_file_reserve_kb : ℕ
ost_file_reserve_kb = 1048576

abbrev pub ost_file_min_kb : ℕ
ost_file_min_kb = 262144

-- `ost_file_kb`; below the reserve the share is negative in the source, and here 0.
unfoldable pub ost_file_kb : ℕ → ℕ → ℕ → ℕ
ost_file_kb space nfiles cap =
    let share = (space - ost_file_reserve_kb) / nfiles in
    let capped = if cap == 0 then share else min share cap in
    let whole = capped / 1024 * 1024 in if leb ost_file_min_kb whole then whole else 0

-- `OstFilePlan`
pub record OstFilePlan : Type 0 where
  pub hosts : List (ℕ × String)
  pub size_kb : ℕ

abbrev pub get_or {ℓ} : {A : Type ℓ} → A → List A → ℕ → A
get_or a [] i = a
get_or a (x ∷ xs) zero = x
get_or a (x ∷ xs) (suc i) = get_or a xs i

-- `oss_list[i % len(oss_list)]` for the OSTs from `idx` on, `left` of them.
unfoldable pub spread : List String → ℕ → ℕ → ℕ → List (ℕ × String)
spread names i idx zero = []
spread names i idx (suc left) =
    (idx, get_or "" names (i % length names)) ∷ spread names (suc i) (suc idx) left

abbrev pub files_on : String → List (ℕ × String) → ℕ
files_on name hosts = length (keep (λ (h : ℕ × String). h.1 == name) hosts)

abbrev smaller : ℕ → ℕ → ℕ
smaller zero kb = kb
smaller (suc size) kb = min (suc size) kb

-- The loop over the OSS nodes, with the size so far; `space` is what `prepare_ost_files` finds on a node,
-- or nothing if it fails.
unfoldable pub common_size :
    (String → Option ℕ) → ℕ → List (ℕ × String) → ℕ → List ClusterNode → Result ℕ
common_size space cap hosts size [] = ok size
common_size space cap hosts size (n ∷ ns) = elim (space n.name) [
  | none ↦ err exit
  | some kb ↦ elim (files_on n.name hosts) [
    | zero ↦ common_size space cap hosts size ns
    | suc k ↦ elim (ost_file_kb kb (suc k) cap) [
      | zero ↦ err exit
      | suc share ↦ common_size space cap hosts (smaller size (suc share)) ns
    ]
  ]
]

-- The OSTs past the disks of the OSS nodes.
unfoldable pub file_hosts : List ClusterNode → ℕ → List (ℕ × String)
unfolding spread
file_hosts ns ost_count =
    spread (map (λ (n : ClusterNode). n.name) (oss_nodes ns)) 0 (ost_disk_count ns + 1)
      (ost_count - ost_disk_count ns)

-- `plan_ost_files`
unfoldable pub plan_ost_files :
    List ClusterNode → ℕ → (String → Option ℕ) → (String → ℕ) → Result (Option OstFilePlan)
unfolding file_hosts common_size
plan_ost_files ns ost_count space size = elim (oss_nodes ns) [
  | [] ↦ if ost_count == 0 then ok none else err exit
  | o ∷ os ↦
      elim (common_size space (min_disk_kb size (o ∷ os)) (file_hosts ns ost_count) 0 (o ∷ os)) [
        | err e ↦ err e
        | ok kb ↦ elim (file_hosts ns ost_count) [
          | [] ↦ ok none
          | h ∷ hs ↦ ok (some (record { hosts = h ∷ hs; size_kb = kb }))
        ]
      ]
]
