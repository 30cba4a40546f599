-- ===== src/Cluster/LocalSh/Layout.antt =====
-- That each node has the devices that the block names on it.
use lustre_test_vms.Base.{
  ℕ, suc, ◌+◌, String, ◌≡◌, ◌≢◌, refl, ◌∙◌, ap, sym, subst, inl, inr, Bool, true, false, not, ◌&&◌,
  Option, none, some, List, [], ◌∷◌, ◌++◌, map, keep, length, arith, nat_eq, string_eq, Bool-cases,
  if◌then◌else◌,
}
use lustre_test_vms.Cluster.Nodes.{
  ClusterNode, is_mgs, is_mds, is_oss, mgs_node, mds_nodes, oss_nodes, client_nodes,
}
use lustre_test_vms.Cluster.Osts.{OstFilePlan}
use lustre_test_vms.Cluster.Osts.Laws.{count_up}
use lustre_test_vms.Cluster.LocalSh.{
  Line, mds, ost, failover_lines, mgs_lines, mds_block, ost_block, client_block, ost_slot,
  partner_of, generate_local_sh, created_disks,
}
use lustre_test_vms.Cluster.LocalSh.Slots.{
  slots, slots_++, In, Distinct, All-In, expected, slots-target_lines, mds_lines_lem, ost_lines_lem,
}
use lustre_test_vms.Cluster.LocalSh.Blocks.{
  count_up_++, slots-client_block, slots-mds_block, append_nil, slots-ost_block, block_parts,
}

-- As `parse_node_spec` makes a node: disks only for its roles.
abbrev pub Sized : ClusterNode → Type 0
Sized n = (is_mds n ≡ false → n.mdt_disks ≡ 0) × (is_oss n ≡ false → n.ost_disks ≡ 0)

mgs_slots : ClusterNode → List ℕ
mgs_slots n = if is_mgs n && not (is_mds n) then 1 ∷ [] else []

-- The three parts of a node's devices, by its roles.
parts :
    (g m o : Bool) (k j : ℕ)
    → (m ≡ false → k ≡ 0)
    → (o ≡ false → j ≡ 0)
    → (if g && not m then 1 ∷ [] else [])
        ++ ((if m then count_up 1 k else [])
            ++ (if o then count_up (if m then 1 + k else if g then 2 else 1) j else []))
      ≡ count_up 1 (k + (if g && not m then 1 else 0) + j)
parts g true true k j a b = ends g ∙ ap (count_up 1) (count g)
  where
    ends :
        (h : Bool)
        → (if h && false then 1 ∷ [] else []) ++ (count_up 1 k ++ count_up (1 + k) j)
          ≡ count_up 1 (k + j)
    ends true = count_up_++ 1 k j
    ends false = count_up_++ 1 k j

    count : (h : Bool) → k + j ≡ k + (if h && false then 1 else 0) + j
    count true = omega arith
    count false = omega arith
parts g true false k j a b = by_mgs (b refl) g
  where
    by_mgs :
        j ≡ 0
        → (h : Bool)
        → (if h && false then 1 ∷ [] else []) ++ (count_up 1 k ++ [])
          ≡ count_up 1 (k + (if h && false then 1 else 0) + j)
    by_mgs z true = append_nil (count_up 1 k) ∙ ap (count_up 1) (omega (arith, z))
    by_mgs z false = append_nil (count_up 1 k) ∙ ap (count_up 1) (omega (arith, z))
parts true false true k j a b =
    let n : suc j ≡ k + 1 + j = omega (arith, a refl) in ap (count_up 1) n
parts true false false k j a b =
    let n : 1 ≡ k + 1 + j = omega (arith, a refl, b refl) in ap (count_up 1) n
parts false false true k j a b = let n : j ≡ k + 0 + j = omega (arith, a refl) in ap (count_up 1) n
parts false false false k j a b =
    let n : 0 ≡ k + 0 + j = omega (arith, a refl, b refl) in ap (count_up 1) n

one_run :
    (ns : List ClusterNode) (n : ClusterNode)
    → Sized n
    → mgs_slots n
        ++ (expected mds (λ n. 1) (λ n. n.mdt_disks) is_mds ns n
            ++ expected ost ost_slot (λ n. n.ost_disks) is_oss ns n)
      ≡ count_up 1 (created_disks n)
unfolding mgs_slots expected created_disks
one_run ns n (m, o) = parts (is_mgs n) (is_mds n) (is_oss n) n.mdt_disks n.ost_disks m o

-- The MGS node is the only one with that role.
same_name :
    (a b : ClusterNode) (ns : List ClusterNode)
    → Distinct ns
    → In a ns
    → In b ns
    → a.name ≡ b.name
    → a ≡ b
same_name a b [] d i j e = absurd i
same_name a b (n ∷ ns) (f, d) (inl i) (inl j) e = i ∙ sym j
same_name a b (n ∷ ns) (f, d) (inl i) (inr j) e =
    absurd (All-In (λ m. m.name ≢ n.name) b ns f j (sym e ∙ ap (λ (m : ClusterNode). m.name) i))
same_name a b (n ∷ ns) (f, d) (inr i) (inl j) e =
    absurd (All-In (λ m. m.name ≢ n.name) a ns f i (e ∙ ap (λ (m : ClusterNode). m.name) j))
same_name a b (n ∷ ns) (f, d) (inr i) (inr j) e = same_name a b ns d i j e

mgs_node-In :
    (ns : List ClusterNode) (m : ClusterNode) → mgs_node ns ≡ some m → In m ns × (is_mgs m ≡ true)
unfolding mgs_node
mgs_node-In [] m e = absurd (ground arith)
mgs_node-In (n ∷ ns) m e = elim (Bool-cases (is_mgs n)) [
  | inl t ↦ let same : n ≡ m = ground arith in (inl (sym same), subst (λ k. is_mgs k ≡ true) same t)
  | inr f ↦ let (i, t) = mgs_node-In ns m (rw (f, mgs_node) at e) in (inr i, t)
]

none_kept :
    (n : ClusterNode) (ns : List ClusterNode)
    → length (keep is_mgs ns) ≡ 0
    → In n ns
    → is_mgs n ≡ false
none_kept n [] z i = absurd i
none_kept n (m ∷ ms) z (inl e) = elim (Bool-cases (is_mgs m)) [
  | inl t ↦ absurd (ground arith)
  | inr f ↦ subst (λ k. is_mgs k ≡ false) (sym e) f
]
none_kept n (m ∷ ms) z (inr i) = elim (Bool-cases (is_mgs m)) [
  | inl t ↦ absurd (ground arith)
  | inr f ↦ none_kept n ms (rw (f, keep) at z) i
]

only_mgs :
    (n m : ClusterNode) (ns : List ClusterNode)
    → mgs_node ns ≡ some m
    → length (keep is_mgs ns) ≡ 1
    → In n ns
    → is_mgs n ≡ true
    → n ≡ m
unfolding mgs_node
only_mgs n m [] e one i t = absurd i
only_mgs n m (k ∷ ks) e one (inl i) t =
    let first : is_mgs k ≡ true = subst (λ x. is_mgs x ≡ true) i t in
    let found : k ≡ m = ground arith in i ∙ found
only_mgs n m (k ∷ ks) e one (inr i) t = elim (Bool-cases (is_mgs k)) [
  | inl first ↦
      let rest : length (keep is_mgs ks) ≡ 0 = ground arith in
      let not_mgs = none_kept n ks rest i in absurd (ground (arith, t, not_mgs))
  | inr f ↦ only_mgs n m ks (rw (f, mgs_node) at e) (rw (f, keep) at one) i t
]

slots-mgs_lines :
    (all : List ClusterNode) (m : ClusterNode)
    → is_mgs m ≡ true
    → slots m.name (mgs_lines all m) ≡ mgs_slots m
unfolding mgs_lines failover_lines mgs_slots
slots-mgs_lines all m t = elim (partner_of all m.name) [
  | none ↦ ground (arith, t)
  | some p ↦ ground (arith, t)
]

slots-no_mgs_lines :
    (all : List ClusterNode) (m : ClusterNode) (name : String)
    → m.name ≢ name
    → slots name (mgs_lines all m) ≡ []
unfolding mgs_lines failover_lines
slots-no_mgs_lines all m name n = elim (partner_of all m.name) [
  | none ↦ ground arith
  | some p ↦ ground arith
]

none_there : (n : ClusterNode) → is_mgs n ≡ false → [] ≡ mgs_slots n
unfolding mgs_slots
none_there n f = ground arith

-- The lines of the MGS name a device on a node only where it is the MGS node.
first_slots :
    (n m : ClusterNode) (ns : List ClusterNode)
    → mgs_node ns ≡ some m
    → Distinct ns
    → length (keep is_mgs ns) ≡ 1
    → In n ns
    → slots n.name (mgs_lines ns m) ≡ mgs_slots n
first_slots n m ns e d one i =
    let (here, t) = mgs_node-In ns m e in
    elim (Bool-cases (is_mgs n)) [
      | inl g ↦
          subst (λ k. slots k.name (mgs_lines ns m) ≡ mgs_slots k) (sym (only_mgs n m ns e one i g))
            (slots-mgs_lines ns m t)
      | inr f ↦
          let other : m.name ≢ n.name = λ same.
            (let one_node = same_name m n ns d here i same in
              let is = subst (λ k. is_mgs k ≡ true) one_node t in ground (arith, is, f)) in
          slots-no_mgs_lines ns m n.name other ∙ none_there n f
    ]

slots_four :
    (name : String) (a b c d : List Line)
    → slots name d ≡ []
    → slots name (a ++ (b ++ (c ++ d))) ≡ slots name a ++ (slots name b ++ slots name c)
slots_four name a b c d z =
    slots_++ name a (b ++ (c ++ d))
    ∙ ap (λ xs. slots name a ++ xs)
        (slots_++ name b (c ++ d)
          ∙ ap (λ xs. slots name b ++ xs)
              (slots_++ name c d ∙ ap (λ xs. slots name c ++ xs) z ∙ append_nil (slots name c)))

-- In a cluster whose nodes have names of their own and one MGS role between them, the block of a node that
-- has disks only for its roles names the devices 1, 2, ... up to the number of disks that it is created
-- with: each device once, and no other.
pub generate_local_sh-created_disks :
    (ns : List ClusterNode) (size : String → ℕ) (count : ℕ) (plan : Option OstFilePlan)
    (ls : List Line) (n : ClusterNode)
    → generate_local_sh ns size count plan ≡ some ls
    → Distinct ns
    → length (keep is_mgs ns) ≡ 1
    → Sized n
    → In n ns
    → slots n.name ls ≡ count_up 1 (created_disks n)
generate_local_sh-created_disks ns size count plan ls n e d one z i =
    let (m, s, parts_of) = block_parts ns size count plan ls e in
    let names = map (λ (k : ClusterNode). k.name) (client_nodes ns) in
    let mdts =
      slots-mds_block ns size n.name (mds_nodes ns)
      ∙ ap (slots n.name) (mds_lines_lem ns 1 (mds_nodes ns))
      ∙ slots-target_lines mds (λ k. 1) (λ k. k.mdt_disks) is_mds ns n 1 ns d i in
    let osts =
      slots-ost_block ns size count plan n.name (oss_nodes ns)
      ∙ ap (slots n.name) (ost_lines_lem ns 1 (oss_nodes ns))
      ∙ slots-target_lines ost ost_slot (λ k. k.ost_disks) is_oss ns n 1 ns d i in
    ap (slots n.name) parts_of
    ∙ slots_four n.name (mgs_lines ns m) (mds_block ns size (mds_nodes ns))
        (ost_block ns size count plan (oss_nodes ns)) (client_block names)
        (slots-client_block n.name names)
    ∙ rw (first_slots n m ns s d one i, mdts, osts) (one_run ns n z)
