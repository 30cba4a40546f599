-- ===== src/Cluster/LocalSh/Indices.antt =====
-- The indices of the OSTs that the block names.
use lustre_test_vms.Base.{
  ℕ, zero, suc, ◌+◌, ◌-◌, max, String, ◌≡◌, refl, ◌∙◌, ap, sym, inl, inr, Option, none, some, List,
  [], ◌∷◌, ◌++◌, map, sum, arith, nat_eq, string_eq,
}
use lustre_test_vms.Result.{ok}
use lustre_test_vms.Cluster.Nodes.{ClusterNode, mds_nodes, oss_nodes, client_nodes, ost_disk_count}
use lustre_test_vms.Cluster.Osts.{OstFilePlan, min_disk_kb, plan_ost_files, file_hosts}
use lustre_test_vms.Cluster.Osts.Laws.{count_up, file_indices, List-cases}
use lustre_test_vms.Cluster.LocalSh.{
  Line, mgs, mds, ost, mgs_host, disk, file, failover_host, mds_host, ost_host, mds_count,
  ost_count, mds_size, ost_size, clients, rclients, client_count, disk_lines, failover_lines,
  file_lines, mgs_lines, size_line, mds_block, ost_block, ost_kb, planned_files, client_block,
  rclient_line, mds_lines, ost_lines, ost_slot, partner_of, generate_local_sh,
}
use lustre_test_vms.Cluster.LocalSh.Blocks.{block_parts, count_up_++, append_nil}

-- The indices of the OSTs, on disks and in files, in the order of their lines.
abbrev pub ost_indices : List Line → List ℕ
ost_indices [] = []
ost_indices (disk (ost i) host slot ∷ ls) = i ∷ ost_indices ls
ost_indices (file i host ∷ ls) = i ∷ ost_indices ls
ost_indices (_ ∷ ls) = ost_indices ls

ost_indices_++ : (xs ys : List Line) → ost_indices (xs ++ ys) ≡ ost_indices xs ++ ost_indices ys
ost_indices_++ [] ys = refl
ost_indices_++ (disk (ost i) host slot ∷ xs) ys = ap (λ r. i ∷ r) (ost_indices_++ xs ys)
ost_indices_++ (file i h ∷ xs) ys = ap (λ r. i ∷ r) (ost_indices_++ xs ys)
ost_indices_++ (disk mgs h s ∷ xs) ys = ost_indices_++ xs ys
ost_indices_++ (disk (mds i) h s ∷ xs) ys = ost_indices_++ xs ys
ost_indices_++ (mgs_host h ∷ xs) ys = ost_indices_++ xs ys
ost_indices_++ (failover_host f h ∷ xs) ys = ost_indices_++ xs ys
ost_indices_++ (mds_host h ∷ xs) ys = ost_indices_++ xs ys
ost_indices_++ (ost_host h ∷ xs) ys = ost_indices_++ xs ys
ost_indices_++ (mds_count n ∷ xs) ys = ost_indices_++ xs ys
ost_indices_++ (ost_count n ∷ xs) ys = ost_indices_++ xs ys
ost_indices_++ (mds_size n ∷ xs) ys = ost_indices_++ xs ys
ost_indices_++ (ost_size n ∷ xs) ys = ost_indices_++ xs ys
ost_indices_++ (clients cs ∷ xs) ys = ost_indices_++ xs ys
ost_indices_++ (rclients cs ∷ xs) ys = ost_indices_++ xs ys
ost_indices_++ (client_count n ∷ xs) ys = ost_indices_++ xs ys

indices-mds_disk_lines :
    (name : String) (p : Option String) (idx slot left : ℕ)
    → ost_indices (disk_lines mds name p idx slot left) ≡ []
unfolding disk_lines failover_lines
indices-mds_disk_lines name p idx slot zero = refl
indices-mds_disk_lines name none idx slot (suc left) =
    indices-mds_disk_lines name none (suc idx) (suc slot) left
indices-mds_disk_lines name (some q) idx slot (suc left) =
    indices-mds_disk_lines name (some q) (suc idx) (suc slot) left

indices-ost_disk_lines :
    (name : String) (p : Option String) (idx slot left : ℕ)
    → ost_indices (disk_lines ost name p idx slot left) ≡ count_up idx left
unfolding disk_lines failover_lines
indices-ost_disk_lines name p idx slot zero = refl
indices-ost_disk_lines name none idx slot (suc left) =
    ap (λ xs. idx ∷ xs) (indices-ost_disk_lines name none (suc idx) (suc slot) left)
indices-ost_disk_lines name (some q) idx slot (suc left) =
    ap (λ xs. idx ∷ xs) (indices-ost_disk_lines name (some q) (suc idx) (suc slot) left)

indices-mds_lines :
    (all : List ClusterNode) (idx : ℕ) (ns : List ClusterNode)
    → ost_indices (mds_lines all idx ns) ≡ []
unfolding mds_lines
indices-mds_lines all idx [] = refl
indices-mds_lines all idx (n ∷ ns) =
    ost_indices_++ (disk_lines mds n.name (partner_of all n.name) idx 1 n.mdt_disks)
      (mds_lines all (idx + n.mdt_disks) ns)
    ∙ rw (indices-mds_disk_lines n.name (partner_of all n.name) idx 1 n.mdt_disks)
        (indices-mds_lines all (idx + n.mdt_disks) ns)

indices-ost_lines :
    (all : List ClusterNode) (idx : ℕ) (ns : List ClusterNode)
    → ost_indices (ost_lines all idx ns)
      ≡ count_up idx (sum (map (λ (n : ClusterNode). n.ost_disks) ns))
unfolding ost_lines
indices-ost_lines all idx [] = refl
indices-ost_lines all idx (n ∷ ns) =
    ost_indices_++ (disk_lines ost n.name (partner_of all n.name) idx (ost_slot n) n.ost_disks)
      (ost_lines all (idx + n.ost_disks) ns)
    ∙ rw
        (
          indices-ost_disk_lines n.name (partner_of all n.name) idx (ost_slot n) n.ost_disks,
          indices-ost_lines all (idx + n.ost_disks) ns,
        )
        (count_up_++ idx n.ost_disks (sum (map (λ (k : ClusterNode). k.ost_disks) ns)))

indices-file_lines :
    (fs : List (ℕ × String)) → ost_indices (file_lines fs) ≡ map (λ (h : ℕ × String). h.0) fs
indices-file_lines [] = refl
indices-file_lines ((i, h) ∷ fs) = ap (λ xs. i ∷ xs) (indices-file_lines fs)

indices-client_block : (cs : List String) → ost_indices (client_block cs) ≡ []
unfolding client_block rclient_line
indices-client_block [] = refl
indices-client_block (c ∷ []) = refl
indices-client_block (c ∷ d ∷ cs) = refl

indices-mds_size :
    (kb : ℕ) (ls : List Line) → ost_indices (size_line mds_size kb ++ ls) ≡ ost_indices ls
unfolding size_line
indices-mds_size zero ls = refl
indices-mds_size (suc kb) ls = refl

indices-ost_size :
    (kb : ℕ) (ls : List Line) → ost_indices (size_line ost_size kb ++ ls) ≡ ost_indices ls
unfolding size_line
indices-ost_size zero ls = refl
indices-ost_size (suc kb) ls = refl

indices-mds_block :
    (all : List ClusterNode) (size : String → ℕ) (ns : List ClusterNode)
    → ost_indices (mds_block all size ns) ≡ []
unfolding mds_block mds_lines
indices-mds_block all size [] = refl
indices-mds_block all size (n ∷ ns) =
    indices-mds_size (min_disk_kb size (n ∷ ns)) (mds_lines all 1 (n ∷ ns))
    ∙ indices-mds_lines all 1 (n ∷ ns)

indices-mgs_lines : (all : List ClusterNode) (m : ClusterNode) → ost_indices (mgs_lines all m) ≡ []
unfolding mgs_lines failover_lines
indices-mgs_lines all m = elim (partner_of all m.name) [
  | none ↦ ground arith
  | some p ↦ ground arith
]

plan_without_oss :
    (ns : List ClusterNode) (count : ℕ) (space : String → Option ℕ) (size : String → ℕ)
    (plan : Option OstFilePlan)
    → plan_ost_files ns count space size ≡ ok plan
    → oss_nodes ns ≡ []
    → count ≡ 0
unfolding plan_ost_files
plan_without_oss ns count space size plan e z = ground arith

-- The files of a plan go on where the disks end.
planned_indices :
    (ns : List ClusterNode) (count : ℕ) (space : String → Option ℕ) (size : String → ℕ)
    (plan : Option OstFilePlan) (o : ClusterNode) (os : List ClusterNode)
    → plan_ost_files ns count space size ≡ ok plan
    → oss_nodes ns ≡ o ∷ os
    → ost_indices (planned_files plan) ≡ map (λ (h : ℕ × String). h.0) (file_hosts ns count)
unfolding plan_ost_files planned_files
planned_indices ns count space size none o os e s = elim (List-cases (file_hosts ns count)) [
  | inl z ↦ rw z refl
  | inr (h, hs, q) ↦ absurd (ground arith)
]
planned_indices ns count space size (some plan) o os e s = elim (List-cases (file_hosts ns count)) [
  | inl z ↦ absurd (ground arith)
  | inr (h, hs, q) ↦
      let same : plan.hosts ≡ file_hosts ns count = ground arith in
      indices-file_lines plan.hosts ∙ ap (map (λ (h : ℕ × String). h.0)) same
]

-- The OSTs of a block: those on disks, then those in files.
indices-ost_block :
    (all : List ClusterNode) (size : String → ℕ) (count : ℕ) (plan : Option OstFilePlan)
    (o : ClusterNode) (os : List ClusterNode)
    → ost_indices (ost_block all size count plan (o ∷ os))
      ≡ count_up 1 (sum (map (λ (n : ClusterNode). n.ost_disks) (o ∷ os)))
        ++ ost_indices (planned_files plan)
unfolding ost_block
indices-ost_block all size count plan o os =
    indices-ost_size (ost_kb size plan (o ∷ os)) (ost_lines all 1 (o ∷ os) ++ planned_files plan)
    ∙ ost_indices_++ (ost_lines all 1 (o ∷ os)) (planned_files plan)
    ∙ ap (λ xs. xs ++ ost_indices (planned_files plan)) (indices-ost_lines all 1 (o ∷ os))

block_indices :
    (ns : List ClusterNode) (count : ℕ) (space : String → Option ℕ) (dsize size : String → ℕ)
    (plan : Option OstFilePlan)
    → plan_ost_files ns count space dsize ≡ ok plan
    → ost_indices (ost_block ns size count plan (oss_nodes ns))
      ≡ count_up 1 (ost_disk_count ns)
        ++ count_up (ost_disk_count ns + 1) (count - ost_disk_count ns)
unfolding ost_block
block_indices ns count space dsize size plan e = elim (List-cases (oss_nodes ns)) [
  | inl z ↦ rw (z, plan_without_oss ns count space dsize plan e z) refl
  | inr (o, os, s) ↦
      ap (λ xs. ost_indices (ost_block ns size count plan xs)) s
      ∙ indices-ost_block ns size count plan o os
      ∙ ap
          (λ xs.
            count_up 1 (sum (map (λ (n : ClusterNode). n.ost_disks) xs))
            ++ ost_indices (planned_files plan))
          (sym s)
      ∙ ap (λ xs. count_up 1 (ost_disk_count ns) ++ xs)
          (planned_indices ns count space dsize plan o os e s ∙ file_indices ns count)
]

total_indices :
    (disks count : ℕ)
    → count_up 1 disks ++ count_up (disks + 1) (count - disks) ≡ count_up 1 (max disks count)
total_indices disks count =
    let next : disks + 1 ≡ 1 + disks = omega arith in
    let all : disks + (count - disks) ≡ max disks count = omega arith in
    ap (λ b. count_up 1 disks ++ count_up b (count - disks)) next
    ∙ count_up_++ 1 disks (count - disks)
    ∙ ap (count_up 1) all

only_third :
    (a b c d : List Line)
    → ost_indices a ≡ []
    → ost_indices b ≡ []
    → ost_indices d ≡ []
    → ost_indices (a ++ (b ++ (c ++ d))) ≡ ost_indices c
only_third a b c d p q r =
    let tail : ost_indices (c ++ d) ≡ ost_indices c =
      ost_indices_++ c d ∙ ap (λ xs. ost_indices c ++ xs) r ∙ append_nil (ost_indices c) in
    let most : ost_indices (b ++ (c ++ d)) ≡ ost_indices c =
      ost_indices_++ b (c ++ d) ∙ ap (λ xs. xs ++ ost_indices (c ++ d)) q ∙ tail in
    ost_indices_++ a (b ++ (c ++ d)) ∙ ap (λ xs. xs ++ ost_indices (b ++ (c ++ d))) p ∙ most

-- With a plan that `plan_ost_files` makes for a count of OSTs, the block names the OSTs 1, 2, ... up to the
-- larger of the count and the number of OST disks, each once and in order.
pub generate_local_sh-plan_ost_files :
    (ns : List ClusterNode) (count : ℕ) (space : String → Option ℕ) (dsize size : String → ℕ)
    (plan : Option OstFilePlan) (ls : List Line)
    → plan_ost_files ns count space dsize ≡ ok plan
    → generate_local_sh ns size count plan ≡ some ls
    → ost_indices ls ≡ count_up 1 (max (ost_disk_count ns) count)
generate_local_sh-plan_ost_files ns count space dsize size plan ls e f =
    let (m, s, parts_of) = block_parts ns size count plan ls f in
    let osts = ost_block ns size count plan (oss_nodes ns) in
    let names = map (λ (n : ClusterNode). n.name) (client_nodes ns) in
    ap ost_indices parts_of
    ∙ only_third (mgs_lines ns m) (mds_block ns size (mds_nodes ns)) osts (client_block names)
        (indices-mgs_lines ns m) (indices-mds_block ns size (mds_nodes ns))
        (indices-client_block names)
    ∙ block_indices ns count space dsize size plan e
    ∙ total_indices (ost_disk_count ns) count
