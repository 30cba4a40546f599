-- ===== src/Cluster/Nodes.antt =====
-- `ClusterNode` and the accessors of `ClusterInfo` (ltvm_pkg/vm_state.py), `parse_node_spec`,
-- `failover_partners` and `expected_targets` (ltvm_pkg/vm_cluster.py).
pub mod Laws
use lustre_test_vms.Base.{
  ℕ, zero, suc, ◌+◌, ◌≤◌, max, String, Bool, true, false, not, ◌&&◌, ◌||◌, Option, none, some, List,
  [], ◌∷◌, ◌++◌, map, any, keep, sum, ◌==◌, nat_eq, string_eq, contains, length, leb, if◌then◌else◌,
}
use lustre_test_vms.Result.{Result, ok, err, exit, Err}
use lustre_test_vms.Owner.{codes}
use lustre_test_vms.Claim.{is_alnum, is_name_char}

pub record ClusterNode : Type 0 where
  pub name : String
  pub roles : List String
  pub mdt_disks : ℕ
  pub ost_disks : ℕ
  pub ip : String
  pub failover_for : Option String

abbrev pub is_mgs : ClusterNode → Bool
is_mgs n = contains n.roles "mgs"

abbrev pub is_mds : ClusterNode → Bool
is_mds n = contains n.roles "mds"

abbrev pub is_oss : ClusterNode → Bool
is_oss n = contains n.roles "oss"

abbrev pub is_client : ClusterNode → Bool
is_client n = contains n.roles "client"

abbrev pub is_partner : ClusterNode → Bool
is_partner n = elim n.failover_for [ none ↦ false | some _ ↦ true ]

abbrev pub is_server : ClusterNode → Bool
is_server n = is_mgs n || (is_mds n || (is_oss n || is_partner n))

-- The tail of `_VM_NAME_RE`, whose `$` also matches before a newline that ends the name.
unfoldable pub is_tail : List ℕ → Bool
is_tail [] = true
is_tail (c ∷ []) = is_name_char c || c == 10
is_tail (c ∷ d ∷ cs) = is_name_char c && is_tail (d ∷ cs)

unfoldable pub matches_name : List ℕ → Bool
matches_name [] = false
matches_name (c ∷ cs) = is_alnum c && is_tail cs

-- `_validate_vm_name` of ltvm_pkg/vm_commands.py
unfoldable pub validate_vm_name : String → Bool
unfolding is_tail matches_name is_alnum is_name_char
validate_vm_name name = leb (length (codes name)) 63 && matches_name (codes name)

-- The disk count of a spec, as `int` reads it.
pub data Count : Type 0 where
  absent unreadable negative : Count
  number : ℕ → Count

-- A spec that is split at its colons, its roles in lower case and split at `+`. `none` is a spec without
-- a name.
pub record Spec : Type 0 where
  pub roles : List String
  pub name : Option String
  pub disks : Count

abbrev known_role : String → Bool
known_role r = r == "mgs" || (r == "mds" || (r == "oss" || r == "client"))

-- `max(disk_count, 1)`
abbrev at_least_one : Count → ℕ
at_least_one (number n) = max n 1
at_least_one _ = 1

unfoldable pub new_node : String → List String → Count → ClusterNode
new_node name roles disks = record {
  name = name;
  roles = roles;
  mdt_disks = if contains roles "mds" then at_least_one disks else 0;
  ost_disks = if contains roles "oss" then at_least_one disks else 0;
  ip = "";
  failover_for = none;
}

unfoldable pub checked_count : Count → Bool
checked_count unreadable = false
checked_count _ = true

-- `parse_node_spec`
unfoldable pub parse_node_spec : Spec → Result ClusterNode
unfolding new_node checked_count validate_vm_name
parse_node_spec s = elim s.name [
  | none ↦ err exit
  | some name ↦
      if not (validate_vm_name name)
      then err exit
      else if not (checked_count s.disks)
      then err exit
      else if any (λ r. not (known_role r)) s.roles
      then err exit
      else ok (new_node name s.roles s.disks)
]

-- `next(n for n in nodes if n.name == name)`; in a dict of the nodes by name the last one counts.
abbrev pub find_node : String → List ClusterNode → Option ClusterNode
find_node name [] = none
find_node name (n ∷ ns) = let found = find_node name ns in if n.name == name then some n else found

abbrev pub by_name : String → List ClusterNode → Option ClusterNode
by_name name [] = none
by_name name (n ∷ ns) = elim (by_name name ns) [
  | some m ↦ some m
  | none ↦ if n.name == name then some n else none
]

abbrev partner_node : String → String → ClusterNode
partner_node partner primary = record {
  name = partner;
  roles = "failover" ∷ [];
  mdt_disks = 0;
  ost_disks = 0;
  ip = "";
  failover_for = some primary;
}

-- The checks of one `--failover PARTNER=PRIMARY`; `seen` are the primaries before it.
unfoldable pub may_pair : List ClusterNode → List String → String → String → Bool
may_pair specs seen partner primary = elim (by_name primary specs) [
  | none ↦ false
  | some n ↦
      validate_vm_name partner
      && (not (any (λ (m : ClusterNode). m.name == partner) specs)
          && ((is_mgs n || (is_mds n || is_oss n)) && not (contains seen primary)))
]

-- `failover_partners`, from the items of the `--failover` dict on, after the primaries `seen`.
unfoldable pub failover_partners :
    List ClusterNode → List String → List (String × String) → Result (List ClusterNode)
failover_partners specs seen [] = ok []
failover_partners specs seen ((partner, primary) ∷ rest) =
    let later = failover_partners specs (primary ∷ seen) rest in
    if may_pair specs seen partner primary
    then elim later [ err e ↦ err e | ok ns ↦ ok (partner_node partner primary ∷ ns) ]
    else err exit

-- `ClusterInfo`'s accessors
unfoldable pub mgs_node : List ClusterNode → Option ClusterNode
mgs_node [] = none
mgs_node (n ∷ ns) = let rest = mgs_node ns in if is_mgs n then some n else rest

abbrev pub mds_nodes : List ClusterNode → List ClusterNode
mds_nodes ns = keep is_mds ns

abbrev pub oss_nodes : List ClusterNode → List ClusterNode
oss_nodes ns = keep is_oss ns

abbrev pub client_nodes : List ClusterNode → List ClusterNode
client_nodes ns = keep is_client ns

-- `local_node`
unfoldable pub local_node : List ClusterNode → Option ClusterNode
unfolding mgs_node
local_node ns = elim (client_nodes ns) [ [] ↦ mgs_node ns | c ∷ _ ↦ some c ]

abbrev pub mdt_count : List ClusterNode → ℕ
mdt_count ns = sum (map (λ (n : ClusterNode). n.mdt_disks) (mds_nodes ns))

abbrev pub ost_disk_count : List ClusterNode → ℕ
ost_disk_count ns = sum (map (λ (n : ClusterNode). n.ost_disks) (oss_nodes ns))

-- `ost_count or ...`
abbrev pub ost_total : List ClusterNode → ℕ → ℕ
ost_total ns zero = ost_disk_count ns
ost_total ns (suc k) = suc k

-- `expected_targets`; `none` is a cluster without an MGS node.
unfoldable pub expected_targets : List ClusterNode → ℕ → Option ℕ
expected_targets ns ost_count = elim (mgs_node ns) [
  | none ↦ none
  | some m ↦ some (mdt_count ns + ost_total ns ost_count + (if is_mds m then 0 else 1))
]
