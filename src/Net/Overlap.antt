-- ===== src/Net/Overlap.antt =====
-- Which subnets may stand beside each other: `overlap_problem` and `network_problem` of
-- ltvm_pkg/nic_network.py, and `nic_network_problem` of ltvm_pkg/nic_allocation.py.
pub mod Laws
use lustre_test_vms.Base.{
  ℕ, zero, suc, ◌+◌, ◌-◌, String, Bool, true, false, not, ◌&&◌, ◌||◌, Option, none, some, List, [],
  ◌∷◌, ◌++◌, map, any, length, ◌==◌, nat_eq, ltb, if◌then◌else◌,
}
use lustre_test_vms.Net.Pool.{Network, Family, ipv4, ipv6}

abbrev same_family : Family → Family → Bool
same_family ipv4 ipv4 = true
same_family ipv6 ipv6 = true
same_family _ _ = false

-- `==` of networks
unfoldable pub is_same : Network → Network → Bool
is_same a b = same_family a.family b.family && (a.first == b.first && a.size == b.size)

-- `overlaps`
unfoldable pub overlaps : Network → Network → Bool
overlaps a b =
    same_family a.family b.family
    && (ltb a.first (b.first + b.size) && ltb b.first (a.first + a.size))

unfoldable pub clash : Network → Network → Bool
clash a b = same_family a.family b.family && (not (is_same a b) && overlaps a b)

-- `list(dict.fromkeys(networks))`
unfoldable pub unique : List Network → List Network → List Network
unique seen [] = []
unique seen (n ∷ ns) =
    let rest = unique seen ns in
    let later = unique (n ∷ seen) ns in if any (is_same n) seen then rest else n ∷ later

unfoldable pub first_clash : Network → List Network → Option (Network × Network)
first_clash n [] = none
first_clash n (o ∷ os) = let rest = first_clash n os in if clash n o then some (n, o) else rest

unfoldable pub scan : List Network → List Network → Option (Network × Network)
scan earlier [] = none
scan earlier (n ∷ ns) =
    let rest = scan (earlier ++ (n ∷ [])) ns in
    elim (first_clash n earlier) [ some p ↦ some p | none ↦ rest ]

-- `overlap_problem`: the first pair of different subnets that overlap.
unfoldable pub overlap_problem : List Network → Option (Network × Network)
overlap_problem ns = scan [] (unique [] ns)

-- The parts of a NicSpec that say where its addresses come from.
pub record Nic : Type 0 where
  pub net : Option String
  pub subnet : Option Network
  pub subnet6 : Option Network

pub data Problem : Type 0 where
  too_many : Problem
  management : Network → Problem
  overlap : Network → Network → Problem

abbrev pub net4_of : Network → Nic → Network
net4_of default n = elim n.subnet [ none ↦ default | some s ↦ s ]

abbrev pub net6_of : Network → Nic → Network
net6_of default n = elim n.subnet6 [ none ↦ default | some s ↦ s ]

-- `data_networks`
unfoldable pub data_networks : List Nic → Network → Network → List Network × List Network
data_networks nics default4 default6 = (map (net4_of default4) nics, map (net6_of default6) nics)

abbrev pub is_given {ℓ} : {A : Type ℓ} → Option A → Bool
is_given none = false
is_given (some a) = true

unfoldable pub is_explicit : Nic → Bool
is_explicit n = is_given n.net || (is_given n.subnet || is_given n.subnet6)

unfoldable pub over_management : Network → List Network → Option Problem
over_management mgmt [] = none
over_management mgmt (n ∷ ns) =
    let rest = over_management mgmt ns in if overlaps n mgmt then some (management n) else rest

abbrev pub clashing : Option (Network × Network) → Option Problem
clashing none = none
clashing (some (a, b)) = some (overlap a b)

abbrev pub or_else {ℓ} : {A : Type ℓ} → Option A → Option A → Option A
or_else none b = b
or_else (some a) b = some a

-- `network_problem`
unfoldable pub network_problem : List Nic → Network → Network → Network → Option Problem
network_problem nics mgmt default4 default6 =
    let (nets4, nets6) = data_networks nics default4 default6 in
    if any is_explicit nics && ltb 8 (length nics)
    then some too_many
    else or_else (over_management mgmt nets4) (
        or_else (clashing (overlap_problem (default4 ∷ nets4)))
          (clashing (overlap_problem (default6 ∷ nets6))))
