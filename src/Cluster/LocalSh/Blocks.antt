-- ===== src/Cluster/LocalSh/Blocks.antt =====
-- The parts of the block, and the devices that each names.
use lustre_test_vms.Base.{
  ℕ, zero, suc, ◌+◌, String, ◌≡◌, refl, ◌∙◌, ap, inl, inr, Option, none, some, List, [], ◌∷◌, ◌++◌,
  map, arith, nat_eq, string_eq, Option-cases,
}
use lustre_test_vms.Cluster.Nodes.{ClusterNode, mgs_node, mds_nodes, oss_nodes, client_nodes}
use lustre_test_vms.Cluster.Osts.{OstFilePlan, min_disk_kb}
use lustre_test_vms.Cluster.Osts.Laws.{count_up}
use lustre_test_vms.Cluster.LocalSh.{
  Line, mds_size, ost_size, file_lines, mgs_lines, size_line, mds_block, ost_block, ost_kb,
  planned_files, client_block, rclient_line, mds_lines, ost_lines, generate_local_sh,
}
use lustre_test_vms.Cluster.LocalSh.Slots.{slots, slots_++}

pub count_up_++ : (a k j : ℕ) → count_up a k ++ count_up (a + k) j ≡ count_up a (k + j)
count_up_++ a zero j =
    let here : a + 0 ≡ a = omega arith in
    let same : j ≡ 0 + j = omega arith in ap (λ b. count_up b j) here ∙ ap (count_up a) same
count_up_++ a (suc k) j =
    let next : a + suc k ≡ suc a + k = omega arith in
    let left = ap (λ b. count_up (suc a) k ++ count_up b j) next ∙ count_up_++ (suc a) k j in
    let last : suc (k + j) ≡ suc k + j = omega arith in
    ap (λ xs. a ∷ xs) left ∙ ap (count_up a) last

slots-file_lines : (name : String) (fs : List (ℕ × String)) → slots name (file_lines fs) ≡ []
slots-file_lines name [] = refl
slots-file_lines name ((i, h) ∷ fs) = slots-file_lines name fs

slots-planned_files :
    (name : String) (plan : Option OstFilePlan) → slots name (planned_files plan) ≡ []
unfolding planned_files
slots-planned_files name none = refl
slots-planned_files name (some plan) = slots-file_lines name plan.hosts

pub slots-client_block : (name : String) (cs : List String) → slots name (client_block cs) ≡ []
unfolding client_block rclient_line
slots-client_block name [] = refl
slots-client_block name (c ∷ []) = refl
slots-client_block name (c ∷ d ∷ cs) = refl

slots-mds_size :
    (name : String) (kb : ℕ) (ls : List Line)
    → slots name (size_line mds_size kb ++ ls) ≡ slots name ls
unfolding size_line
slots-mds_size name zero ls = refl
slots-mds_size name (suc kb) ls = refl

slots-ost_size :
    (name : String) (kb : ℕ) (ls : List Line)
    → slots name (size_line ost_size kb ++ ls) ≡ slots name ls
unfolding size_line
slots-ost_size name zero ls = refl
slots-ost_size name (suc kb) ls = refl

pub slots-mds_block :
    (all : List ClusterNode) (size : String → ℕ) (name : String) (ns : List ClusterNode)
    → slots name (mds_block all size ns) ≡ slots name (mds_lines all 1 ns)
unfolding mds_block mds_lines
slots-mds_block all size name [] = refl
slots-mds_block all size name (n ∷ ns) =
    slots-mds_size name (min_disk_kb size (n ∷ ns)) (mds_lines all 1 (n ∷ ns))

pub append_nil : (xs : List ℕ) → xs ++ [] ≡ xs
append_nil [] = refl
append_nil (x ∷ xs) = ap (λ ys. x ∷ ys) (append_nil xs)

pub slots-ost_block :
    (all : List ClusterNode) (size : String → ℕ) (count : ℕ) (plan : Option OstFilePlan)
    (name : String) (ns : List ClusterNode)
    → slots name (ost_block all size count plan ns) ≡ slots name (ost_lines all 1 ns)
unfolding ost_block ost_lines
slots-ost_block all size count plan name [] = refl
slots-ost_block all size count plan name (n ∷ ns) =
    slots-ost_size name (ost_kb size plan (n ∷ ns)) (ost_lines all 1 (n ∷ ns) ++ planned_files plan)
    ∙ slots_++ name (ost_lines all 1 (n ∷ ns)) (planned_files plan)
    ∙ ap (λ xs. slots name (ost_lines all 1 (n ∷ ns)) ++ xs) (slots-planned_files name plan)
    ∙ append_nil (slots name (ost_lines all 1 (n ∷ ns)))

pub block_parts :
    (ns : List ClusterNode) (size : String → ℕ) (count : ℕ) (plan : Option OstFilePlan)
    (ls : List Line)
    → generate_local_sh ns size count plan ≡ some ls
    → (m : ClusterNode) × (mgs_node ns ≡ some m)
      × (ls
          ≡ mgs_lines ns m
            ++ (mds_block ns size (mds_nodes ns)
                ++ (ost_block ns size count plan (oss_nodes ns)
                    ++ client_block (map (λ (n : ClusterNode). n.name) (client_nodes ns)))))
unfolding generate_local_sh
block_parts ns size count plan ls e = elim (Option-cases (mgs_node ns)) [
  | inl no_mgs ↦ absurd (ground arith)
  | inr (m, s) ↦ (m, s, ground arith)
]
