-- ===== src/Net/Alloc.antt =====
-- `alloc_vm_addresses` of ltvm_pkg/nic_allocation.py, `alloc_ip` and `_validate_explicit_ip` of
-- ltvm_pkg/vm_net.py, `subnet_for_nic` and `nic_ip6` of ltvm_pkg/vm_state.py. They run under one lock.
pub mod Laws
use lustre_test_vms.Base.{
  ℕ, zero, suc, ◌+◌, ◌-◌, ◌*◌, ◌/◌, ◌%◌, String, Bool, true, false, not, ◌&&◌, ◌||◌, Option, none,
  some, List, [], ◌∷◌, ◌++◌, map, ◌==◌, nat_eq, string_eq, contains, ltb, leb, if◌then◌else◌,
}
use lustre_test_vms.Result.{Result, ok, err, Err, value_error, exit}
use lustre_test_vms.Net.Pool.{Network, ipv4, ipv6, default_address, select_address}
use lustre_test_vms.Net.Overlap.{
  Nic, net4_of, net6_of, data_networks, overlap_problem, network_problem, Problem,
}

-- The host's settings: the two /24 networks and the /64, each the number of its first address.
pub record Site : Type 0 where
  pub management : ℕ
  pub extra : ℕ
  pub extra6 : ℕ

-- The numbers that the hash of a VM's name gives: of its first 4 digits and of its first 8.
pub record Seeds : Type 0 where
  pub short : ℕ
  pub long : ℕ

unfoldable pub subnet_for_nic : Site → ℕ → Result ℕ
subnet_for_nic s zero = ok s.management
subnet_for_nic s (suc i) = if s.extra == s.management then err value_error else ok s.extra

-- An octet's three decimal digits after an f, read as hexadecimal.
abbrev pub hextet : ℕ → ℕ
hextet o = 0xf000 + 256 * (o / 100) + 16 * (o / 10 % 10) + o % 10

-- `nic_ip6`, in the /64 that starts at `base`
unfoldable pub nic_ip6 : ℕ → ℕ → ℕ
nic_ip6 base a =
    base
    + ((hextet (a / 16777216 % 256) * 65536 + hextet (a / 65536 % 256)) * 65536
        + hextet (a / 256 % 256))
      * 65536
    + hextet (a % 256)

-- `_data_defaults`
abbrev net24 : ℕ → Network
net24 n = record { family = ipv4; first = n; size = 256 }

abbrev net64 : ℕ → Network
net64 n = record { family = ipv6; first = n; size = 18446744073709551616 }

unfoldable pub data_defaults : Site → Result (Network × Network × Network)
unfolding subnet_for_nic
data_defaults s = elim (subnet_for_nic s 1) [
  | err e ↦ err e
  | ok extra ↦ ok (net24 s.management, net24 extra, net64 s.extra6)
]

-- `nic_network_problem`
unfoldable pub nic_network_problem : Site → List Nic → Result (Option Problem)
nic_network_problem s [] = ok none
nic_network_problem s (n ∷ ns) = elim (data_defaults s) [
  | err e ↦ err e
  | ok (mgmt, default4, default6) ↦ ok (network_problem (n ∷ ns) mgmt default4 default6)
]

-- What a stored VM uses, and what `VMInfo.load` makes of it.
pub record Peer : Type 0 where
  pub ip : Option ℕ
  pub nic_ips : List (Option ℕ)
  pub nic_ip6s : List (Option ℕ)
  pub nics : List Nic

pub data Stored : Type 0 where
  gone corrupt : Stored
  peer : Peer → Stored

pub record Reserved : Type 0 where
  pub used4 : List ℕ
  pub used6 : List ℕ
  pub subnets4 : List Network
  pub subnets6 : List Network

abbrev pub given {ℓ} : {A : Type ℓ} → List (Option A) → List A
given [] = []
given (none ∷ xs) = given xs
given (some x ∷ xs) = x ∷ given xs

abbrev pub add_peer : Peer → Reserved → Reserved
add_peer p r = record {
  used4 = given (p.ip ∷ p.nic_ips) ++ r.used4;
  used6 = given p.nic_ip6s ++ r.used6;
  subnets4 = given (map (λ n. n.subnet) p.nics) ++ r.subnets4;
  subnets6 = given (map (λ n. n.subnet6) p.nics) ++ r.subnets6;
}

-- `_stored_address_state`: what the other VMs reserve. A VM that cannot be read stops it.
unfoldable pub stored_address_state : String → List (String × Stored) → Result Reserved
stored_address_state name [] = ok (record { used4 = []; used6 = []; subnets4 = []; subnets6 = [] })
stored_address_state name ((other, stored) ∷ vms) =
    let rest = stored_address_state name vms in
    if other == name then rest else elim stored [
      | gone ↦ rest
      | corrupt ↦ err value_error
      | peer p ↦ elim rest [ err e ↦ err e | ok r ↦ ok (add_peer p r) ]
    ]

-- `_validate_explicit_ip`, of what `ipaddress.IPv4Address` reads
unfoldable pub validate_explicit_ip : Site → Option ℕ → Result ℕ
validate_explicit_ip s none = err exit
validate_explicit_ip s (some a) =
    if not (leb s.management a && ltb a (s.management + 256))
    then err exit
    else if a == s.management + 1
    then err exit
    else if a == s.management || a == s.management + 255
    then err exit
    else ok a

abbrev pub or_value_error : Option ℕ → Result ℕ
or_value_error none = err value_error
or_value_error (some a) = ok a

unfoldable pub primary_address : Site → Seeds → Option (Option ℕ) → List ℕ → Result ℕ
unfolding validate_explicit_ip
primary_address s h none used = or_value_error (default_address h.short s.management used)
primary_address s h (some text) used = elim (validate_explicit_ip s text) [
  | err e ↦ err e
  | ok a ↦ if contains used a then err exit else ok a
]

-- The addresses of the NIC with index `i + 1`.
unfoldable pub nic_address : Site → Seeds → ℕ → Nic → Network → List ℕ → Result ℕ
nic_address s h i n net4 used = elim n.subnet [
  | some _ ↦ or_value_error (select_address h.long net4 used)
  | none ↦ elim (subnet_for_nic s (suc i)) [
    | err e ↦ err e
    | ok prefix ↦ or_value_error (default_address h.short prefix used)
  ]
]

unfoldable pub nic_address6 : Site → Seeds → Nic → Network → ℕ → List ℕ → Result ℕ
nic_address6 s h n net6 a used = elim n.subnet6 [
  | some _ ↦ or_value_error (select_address h.long net6 used)
  | none ↦ ok (nic_ip6 s.extra6 a)
]

unfoldable pub unused6 : ℕ → List ℕ → Result ℕ
unused6 a used = if contains used a then err value_error else ok a

abbrev pub prepend : ℕ → ℕ → Result (List ℕ × List ℕ) → Result (List ℕ × List ℕ)
prepend a a6 (err e) = err e
prepend a a6 (ok (ips, ip6s)) = ok (a ∷ ips, a6 ∷ ip6s)

-- The loop of `alloc_vm_addresses` over the NICs and their networks.
unfoldable pub alloc_nics :
    Site → Seeds → Network → Network → ℕ → List Nic → List ℕ → List ℕ → Result (List ℕ × List ℕ)
unfolding nic_address nic_address6 unused6
alloc_nics s h default4 default6 i [] used4 used6 = ok ([], [])
alloc_nics s h default4 default6 i (n ∷ ns) used4 used6 =
    elim (nic_address s h i n (net4_of default4 n) used4) [
      | err e ↦ err e
      | ok a ↦ elim (nic_address6 s h n (net6_of default6 n) a used6) [
        | err e ↦ err e
        | ok a6 ↦ elim (unused6 a6 used6) [
          | err e ↦ err e
          | ok b ↦ prepend a b (alloc_nics s h default4 default6 (suc i) ns (a ∷ used4) (b ∷ used6))
        ]
      ]
    ]

is_problem {ℓ} : {A : Type ℓ} → Option A → Bool
is_problem none = false
is_problem (some p) = true

-- The overlaps of what is asked for with what is stored.
unfoldable pub stored_overlap : Network → Network → List Nic → Reserved → Bool
unfolding is_problem
stored_overlap default4 default6 nics r =
    let (nets4, nets6) = data_networks nics default4 default6 in
    is_problem (overlap_problem ((default4 ∷ r.subnets4) ++ nets4))
    || is_problem (overlap_problem ((default6 ∷ r.subnets6) ++ nets6))

-- The part of `alloc_vm_addresses` under the lock.
unfoldable pub alloc_locked :
    Site
    → Seeds
    → Network
    → Network
    → List Nic
    → Option (Option ℕ)
    → Reserved
    → Result (List ℕ × List ℕ)
unfolding primary_address
alloc_locked s h default4 default6 nics explicit r =
    if stored_overlap default4 default6 nics r
    then err value_error
    else elim (primary_address s h explicit r.used4) [
      | err e ↦ err e
      | ok a ↦ elim (alloc_nics s h default4 default6 0 nics (a ∷ r.used4) r.used6) [
        | err e ↦ err e
        | ok (ips, ip6s) ↦ ok (a ∷ ips, ip6s)
      ]
    ]

-- `alloc_vm_addresses`: the addresses, the management one first, and the IPv6 addresses.
unfoldable pub alloc_vm_addresses :
    Site
    → Seeds
    → List (String × Stored)
    → String
    → List Nic
    → Option (Option ℕ)
    → Result (List ℕ × List ℕ)
unfolding alloc_locked is_problem
alloc_vm_addresses s h vms name nics explicit = elim (nic_network_problem s nics) [
  | err e ↦ err e
  | ok p ↦ if is_problem p then err value_error else elim (data_defaults s) [
    | err e ↦ err e
    | ok (_, default4, default6) ↦ elim (stored_address_state name vms) [
      | err e ↦ err e
      | ok r ↦ alloc_locked s h default4 default6 nics explicit r
    ]
  ]
]
