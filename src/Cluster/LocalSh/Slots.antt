-- ===== src/Cluster/LocalSh/Slots.antt =====
-- The devices of one node among the lines of the block.
use lustre_test_vms.Base.{
  ℕ, zero, suc, ◌+◌, String, ◌≡◌, ◌≢◌, refl, ◌∙◌, ap, sym, subst, ◌⊎◌, inl, inr, Bool, Option, none,
  some, List, [], ◌∷◌, ◌++◌, keep, All, arith, nat_eq, string_eq, ◌==◌, Bool-cases, if◌then◌else◌,
}
use lustre_test_vms.Cluster.Nodes.{ClusterNode}
use lustre_test_vms.Cluster.Osts.Laws.{count_up}
use lustre_test_vms.Cluster.LocalSh.{
  Facet, Line, mds, ost, mgs_host, disk, file, failover_host, mds_host, ost_host, mds_count,
  ost_count, mds_size, ost_size, clients, rclients, client_count, disk_lines, mds_lines, ost_lines,
  ost_slot, partner_of,
}

-- The places of the devices that the lines name on a node, in their order.
abbrev pub slots : String → List Line → List ℕ
slots name [] = []
slots name (disk f host slot ∷ ls) =
    let rest = slots name ls in if host == name then slot ∷ rest else rest
slots name (_ ∷ ls) = slots name ls

pub slots_++ :
    (name : String) (xs ys : List Line) → slots name (xs ++ ys) ≡ slots name xs ++ slots name ys
slots_++ name [] ys = refl
slots_++ name (disk f host slot ∷ xs) ys = elim (Bool-cases (host == name)) [
  | inl e ↦ rw (e, slots) (ap (λ r. slot ∷ r) (slots_++ name xs ys))
  | inr e ↦ rw (e, slots) (slots_++ name xs ys)
]
slots_++ name (mgs_host h ∷ xs) ys = slots_++ name xs ys
slots_++ name (file i h ∷ xs) ys = slots_++ name xs ys
slots_++ name (failover_host f h ∷ xs) ys = slots_++ name xs ys
slots_++ name (mds_host h ∷ xs) ys = slots_++ name xs ys
slots_++ name (ost_host h ∷ xs) ys = slots_++ name xs ys
slots_++ name (mds_count n ∷ xs) ys = slots_++ name xs ys
slots_++ name (ost_count n ∷ xs) ys = slots_++ name xs ys
slots_++ name (mds_size n ∷ xs) ys = slots_++ name xs ys
slots_++ name (ost_size n ∷ xs) ys = slots_++ name xs ys
slots_++ name (clients cs ∷ xs) ys = slots_++ name xs ys
slots_++ name (rclients cs ∷ xs) ys = slots_++ name xs ys
slots_++ name (client_count n ∷ xs) ys = slots_++ name xs ys

slots-disk_lines :
    (facet : ℕ → Facet) (name : String) (p : Option String) (idx slot left : ℕ)
    → slots name (disk_lines facet name p idx slot left) ≡ count_up slot left
unfolding disk_lines
slots-disk_lines facet name p idx slot zero = refl
slots-disk_lines facet name none idx slot (suc left) =
    ground (arith, slots-disk_lines facet name none (suc idx) (suc slot) left)
slots-disk_lines facet name (some p) idx slot (suc left) =
    ground (arith, slots-disk_lines facet name (some p) (suc idx) (suc slot) left)

slots-other :
    (facet : ℕ → Facet) (name host : String) (p : Option String) (idx slot left : ℕ)
    → host ≢ name
    → slots name (disk_lines facet host p idx slot left) ≡ []
unfolding disk_lines
slots-other facet name host p idx slot zero n = refl
slots-other facet name host none idx slot (suc left) n =
    ground (arith, slots-other facet name host none (suc idx) (suc slot) left n)
slots-other facet name host (some p) idx slot (suc left) n =
    ground (arith, slots-other facet name host (some p) (suc idx) (suc slot) left n)

append_nil : (xs : List ℕ) → xs ++ [] ≡ xs
append_nil [] = refl
append_nil (x ∷ xs) = ap (λ ys. x ∷ ys) (append_nil xs)

-- What `mds_lines` and `ost_lines` share.
unfoldable pub target_lines :
    (ℕ → Facet)
    → (ClusterNode → ℕ)
    → (ClusterNode → ℕ)
    → List ClusterNode
    → ℕ
    → List ClusterNode
    → List Line
target_lines facet start disks all idx [] = []
target_lines facet start disks all idx (n ∷ ns) =
    disk_lines facet n.name (partner_of all n.name) idx (start n) (disks n)
    ++ target_lines facet start disks all (idx + disks n) ns

pub mds_lines_lem :
    (all : List ClusterNode) (idx : ℕ) (ns : List ClusterNode)
    → mds_lines all idx ns ≡ target_lines mds (λ n. 1) (λ n. n.mdt_disks) all idx ns
unfolding mds_lines target_lines
mds_lines_lem all idx [] = refl
mds_lines_lem all idx (n ∷ ns) =
    ap (λ ls. disk_lines mds n.name (partner_of all n.name) idx 1 n.mdt_disks ++ ls)
      (mds_lines_lem all (idx + n.mdt_disks) ns)

pub ost_lines_lem :
    (all : List ClusterNode) (idx : ℕ) (ns : List ClusterNode)
    → ost_lines all idx ns ≡ target_lines ost ost_slot (λ n. n.ost_disks) all idx ns
unfolding ost_lines target_lines
ost_lines_lem all idx [] = refl
ost_lines_lem all idx (n ∷ ns) =
    ap (λ ls. disk_lines ost n.name (partner_of all n.name) idx (ost_slot n) n.ost_disks ++ ls)
      (ost_lines_lem all (idx + n.ost_disks) ns)

abbrev pub In : ClusterNode → List ClusterNode → Type 0
In n [] = ⊥
In n (m ∷ ms) = (n ≡ m) ⊎ In n ms

-- No two nodes have one name.
abbrev pub Distinct : List ClusterNode → Type 0
Distinct [] = Unit
Distinct (n ∷ ns) = All (λ (m : ClusterNode). m.name ≢ n.name) ns × Distinct ns

pub All-In :
    (P : ClusterNode → Type 0) (n : ClusterNode) (ns : List ClusterNode) → All P ns → In n ns → P n
All-In P n [] a i = absurd i
All-In P n (m ∷ ms) (p, ps) (inl e) = subst P (sym e) p
All-In P n (m ∷ ms) (p, ps) (inr i) = All-In P n ms ps i

module _ (facet : ℕ → Facet) (start disks : ClusterNode → ℕ) (role : ClusterNode → Bool)
    (all : List ClusterNode) where
  slots-absent :
      (name : String) (idx : ℕ) (ns : List ClusterNode)
      → All (λ (m : ClusterNode). m.name ≢ name) ns
      → slots name (target_lines facet start disks all idx (keep role ns)) ≡ []
  unfolding target_lines
  slots-absent name idx [] a = refl
  slots-absent name idx (m ∷ ms) (a, later) = elim (Bool-cases (role m)) [
    | inl e ↦
        rw (e, keep)
          (slots_++ name (disk_lines facet m.name (partner_of all m.name) idx (start m) (disks m))
              (target_lines facet start disks all (idx + disks m) (keep role ms))
            ∙ rw (slots-other facet name m.name (partner_of all m.name) idx (start m) (disks m) a)
                (slots-absent name (idx + disks m) ms later))
    | inr e ↦ rw (e, keep) (slots-absent name idx ms later)
  ]

  -- The devices of a node with the role, and none of one without.
  unfoldable pub expected : ClusterNode → List ℕ
  expected n = if role n then count_up (start n) (disks n) else []

  slots-here :
      (m : ClusterNode) (idx : ℕ) (ms : List ClusterNode)
      → All (λ (k : ClusterNode). k.name ≢ m.name) ms
      → slots m.name (target_lines facet start disks all idx (keep role (m ∷ ms))) ≡ expected m
  unfolding target_lines expected
  slots-here m idx ms a = elim (Bool-cases (role m)) [
    | inl e ↦
        rw (e, keep)
          (slots_++ m.name (disk_lines facet m.name (partner_of all m.name) idx (start m) (disks m))
              (target_lines facet start disks all (idx + disks m) (keep role ms))
            ∙ rw
                (
                  slots-disk_lines facet m.name (partner_of all m.name) idx (start m) (disks m),
                  slots-absent m.name (idx + disks m) ms a,
                )
                (append_nil (count_up (start m) (disks m))))
    | inr e ↦ rw (e, keep) (slots-absent m.name idx ms a)
  ]

  pub slots-target_lines :
      (n : ClusterNode) (idx : ℕ) (ns : List ClusterNode)
      → Distinct ns
      → In n ns
      → slots n.name (target_lines facet start disks all idx (keep role ns)) ≡ expected n
  unfolding target_lines
  slots-target_lines n idx [] d i = absurd i
  slots-target_lines n idx (m ∷ ms) (a, d) (inl e) =
      subst
        (λ k.
          slots k.name (target_lines facet start disks all idx (keep role (m ∷ ms))) ≡ expected k)
        (sym e) (slots-here m idx ms a)
  slots-target_lines n idx (m ∷ ms) (a, d) (inr i) = elim (Bool-cases (role m)) [
    | inl e ↦
        rw (e, keep)
          (slots_++ n.name (disk_lines facet m.name (partner_of all m.name) idx (start m) (disks m))
              (target_lines facet start disks all (idx + disks m) (keep role ms))
            ∙ rw
                (slots-other facet n.name m.name (partner_of all m.name) idx (start m) (disks m)
                  (λ e. All-In (λ k. k.name ≢ m.name) n ms a i (sym e)))
                (slots-target_lines n (idx + disks m) ms d i))
    | inr e ↦ rw (e, keep) (slots-target_lines n idx ms d i)
  ]
