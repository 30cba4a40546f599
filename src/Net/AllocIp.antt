-- ===== src/Net/AllocIp.antt =====
-- `alloc_ip` of ltvm_pkg/vm_net.py, with `_used_ips_by_net`: addresses by NIC index, unique within their
-- /24. It runs under a lock.
pub mod Laws
use lustre_test_vms.Base.{
  ℕ, zero, suc, ◌-◌, ◌*◌, ◌/◌, String, Bool, Option, none, some, List, [], ◌∷◌, ◌++◌, keep, ◌==◌,
  nat_eq, string_eq, contains, if◌then◌else◌,
}
use lustre_test_vms.Result.{Result, ok, err, value_error, exit}
use lustre_test_vms.Net.Pool.{default_address}
use lustre_test_vms.Net.Alloc.{
  Site, Stored, Peer, gone, corrupt, peer, given, subnet_for_nic, validate_explicit_ip,
}

-- `_net_of`: the number of the /24.
abbrev pub net_of : ℕ → ℕ
net_of a = a / 256 * 256

abbrev pub bucket : ℕ → List ℕ → List ℕ
bucket net used = keep (λ a. net_of a == net) used

-- `_used_ips_by_net`, all buckets in one list: a VM that cannot be read is skipped.
unfoldable pub used_ips : String → List (String × Stored) → List ℕ
used_ips name [] = []
used_ips name ((other, stored) ∷ vms) =
    let rest = used_ips name vms in
    if other == name
    then rest
    else elim stored [ gone ↦ rest | corrupt ↦ rest | peer p ↦ given (p.ip ∷ p.nic_ips) ++ rest ]

abbrev pub and_then : ℕ → Result (List ℕ) → Result (List ℕ)
and_then a (ok ips) = ok (a ∷ ips)
and_then a (err e) = err e

-- `for idx in range(len(ips), count)`
unfoldable pub alloc_from : Site → ℕ → ℕ → ℕ → List ℕ → Result (List ℕ)
alloc_from s seed idx zero used = ok []
alloc_from s seed idx (suc left) used = elim (subnet_for_nic s idx) [
  | err e ↦ err e
  | ok net ↦ elim (default_address seed net (bucket net used)) [
    | none ↦ err exit
    | some a ↦ and_then a (alloc_from s seed (suc idx) left (a ∷ used))
  ]
]

-- The explicit address of the management NIC.
unfoldable pub explicit_address : Site → Option ℕ → List ℕ → Result ℕ
explicit_address s text used = elim (validate_explicit_ip s text) [
  | err e ↦ err e
  | ok a ↦ if contains (bucket (net_of a) used) a then err exit else ok a
]

-- `alloc_ip`
unfoldable pub alloc_ip :
    Site → ℕ → List (String × Stored) → String → ℕ → Option (Option ℕ) → Result (List ℕ)
alloc_ip s seed vms name zero explicit = err value_error
alloc_ip s seed vms name (suc n) none = alloc_from s seed 0 (suc n) (used_ips name vms)
alloc_ip s seed vms name (suc n) (some text) = elim (explicit_address s text (used_ips name vms)) [
  | err e ↦ err e
  | ok a ↦ and_then a (alloc_from s seed 1 n (a ∷ used_ips name vms))
]
