-- ===== src/Cluster/Nodes/Laws.antt =====
-- What parsing a cluster's nodes and its failover partners promises.
use lustre_test_vms.Base.{
  String, ◌≡◌, ◌≢◌, refl, subst, inl, inr, true, false, not, none, some, List, [], ◌∷◌, any, All,
  arith, nat_eq, string_eq, contains, ◌==◌, Bool-cases, Option-cases,
}
use lustre_test_vms.Result.{ok, Result-cases}
use lustre_test_vms.Cluster.Nodes.{
  ClusterNode, Spec, parse_node_spec, new_node, failover_partners, may_pair, partner_node,
  validate_vm_name, checked_count, known_role, by_name, is_mds, is_oss, is_server,
}

-- As `parse_node_spec` makes a node.
abbrev pub Parsed : ClusterNode → Type 0
Parsed n =
    (validate_vm_name n.name ≡ true)
    × (n.failover_for ≡ none)
    × (any (λ r. not (known_role r)) n.roles ≡ false)
    × (is_mds n ≡ false → n.mdt_disks ≡ 0)
    × (is_oss n ≡ false → n.ost_disks ≡ 0)
    × (is_mds n ≡ true → n.mdt_disks ≢ 0)
    × (is_oss n ≡ true → n.ost_disks ≢ 0)

new_node-Parsed :
    (name : String) (s : Spec)
    → validate_vm_name name ≡ true
    → any (λ r. not (known_role r)) s.roles ≡ false
    → Parsed (new_node name s.roles s.disks)
unfolding new_node
new_node-Parsed name s good known = (
  good,
  refl,
  known,
  λ e. ground (arith, e),
  λ e. ground (arith, e),
  λ e. ground (arith, e),
  λ e. ground (arith, e),
)

-- A node that a spec gives has a valid name and known roles; it has MDT disks exactly if it is an MDS, OST
-- disks exactly if it is an OSS, and it is no partner.
pub parse_node_spec-Parsed : (s : Spec) (n : ClusterNode) → parse_node_spec s ≡ ok n → Parsed n
unfolding parse_node_spec new_node
parse_node_spec-Parsed s n h = elim (Option-cases s.name) [
  | inl z ↦ absurd (ground arith)
  | inr (name, e) ↦ elim (Bool-cases (validate_vm_name name)) [
    | inr bad ↦ absurd (ground arith)
    | inl good ↦ elim (Bool-cases (checked_count s.disks)) [
      | inr bad ↦ absurd (ground arith)
      | inl fine ↦ elim (Bool-cases (any (λ r. not (known_role r)) s.roles)) [
        | inl bad ↦ absurd (ground arith)
        | inr known ↦
            let same : new_node name s.roles s.disks ≡ n = ground arith in
            subst Parsed same (new_node-Parsed name s good known)
      ]
    ]
  ]
]

-- A partner of one of the nodes that is a server, under a name that is new, without disks of its own.
abbrev pub Partner : List ClusterNode → ClusterNode → Type 0
Partner specs p =
    (validate_vm_name p.name ≡ true)
    × (any (λ (m : ClusterNode). m.name == p.name) specs ≡ false)
    × ((q : String) × (p.failover_for ≡ some q)
        × ((n : ClusterNode) × (by_name q specs ≡ some n) × (is_server n ≡ true)))
    × (p.mdt_disks ≡ 0)
    × (p.ost_disks ≡ 0)

may_pair-Partner :
    (specs : List ClusterNode) (seen : List String) (partner primary : String)
    → may_pair specs seen partner primary ≡ true
    → Partner specs (partner_node partner primary) × (contains seen primary ≡ false)
unfolding may_pair
may_pair-Partner specs seen partner primary h = elim (Option-cases (by_name primary specs)) [
  | inl z ↦ absurd (ground arith)
  | inr (n, e) ↦ (
    (ground arith, ground arith, (primary, refl, (n, e, ground arith)), refl, refl),
    ground arith,
  )
]

-- The primaries that partners are for.
abbrev pub primaries : List ClusterNode → List String
primaries [] = []
primaries (p ∷ ps) =
    let rest = primaries ps in elim p.failover_for [ none ↦ rest | some q ↦ q ∷ rest ]

-- No name twice, and none of those seen before.
abbrev pub NoneTwice : List String → List String → Type 0
NoneTwice seen [] = Unit
NoneTwice seen (q ∷ qs) = (contains seen q ≡ false) × NoneTwice (q ∷ seen) qs

-- Every failover partner is a new, valid name for a server among the nodes, without disks of its own, and
-- no node has two partners.
pub failover_partners-Partner :
    (specs : List ClusterNode) (seen : List String) (pairs : List (String × String))
    (ps : List ClusterNode)
    → failover_partners specs seen pairs ≡ ok ps
    → All (Partner specs) ps × NoneTwice seen (primaries ps)
unfolding failover_partners
failover_partners-Partner specs seen [] [] h = (tt, tt)
failover_partners-Partner specs seen [] (p ∷ ps) h = absurd (ground arith)
failover_partners-Partner specs seen ((partner, primary) ∷ rest) ps h =
    elim (Bool-cases (may_pair specs seen partner primary)) [
      | inr refused ↦ absurd (ground arith)
      | inl may ↦ elim (Result-cases (failover_partners specs (primary ∷ seen) rest)) [
        | inr (x, e) ↦ absurd (ground arith)
        | inl (qs, e) ↦
            let (one, new) = may_pair-Partner specs seen partner primary may in
            let (all, distinct) = failover_partners-Partner specs (primary ∷ seen) rest qs e in
            let same : partner_node partner primary ∷ qs ≡ ps = ground arith in
            subst (λ ns. All (Partner specs) ns × NoneTwice seen (primaries ns)) same
              ((one, all), (new, distinct))
      ]
    ]
