-- ===== src/Net/Pool.antt =====
-- The bounded pools that addresses come from: `alloc_ip`'s scan and `_default_address`, which try the
-- 244 hosts .10 to .253 of a /24, and `select_address` of nic_network.py.
pub mod Laws
use lustre_test_vms.Base.{
  ℕ, zero, suc, ◌+◌, ◌-◌, ◌%◌, min, Bool, true, false, Option, none, some, List, ◌==◌, nat_eq,
  contains, ltb, if◌then◌else◌,
}

-- `for delta in range(n): i = (start + delta) % n` up to the first index that is free.
unfoldable pub first_free : (ℕ → Bool) → ℕ → ℕ → ℕ → ℕ → Option ℕ
first_free taken start n zero delta = none
first_free taken start n (suc rounds) delta =
    let i = (start + delta) % n in
    let rest = first_free taken start n rounds (suc delta) in if taken i then rest else some i

abbrev pub offset_by : ℕ → Option ℕ → Option ℕ
offset_by base none = none
offset_by base (some i) = some (base + i)

abbrev pub pool_size : ℕ
pool_size = 244

-- `_default_address`: `net` is the number of the /24, `seed` the number that the name hashes to.
unfoldable pub default_address : ℕ → ℕ → List ℕ → Option ℕ
unfolding first_free
default_address seed net used =
    offset_by (net + 10)
      (first_free (λ i. contains used (net + 10 + i)) (seed % pool_size) pool_size pool_size 0)

-- `ipaddress.ip_network`: the family, the first address and the number of addresses.
pub data Family : Type 0 where
  ipv4 ipv6 : Family

pub record Network : Type 0 where
  pub family : Family
  pub first : ℕ
  pub size : ℕ

abbrev pub max_pool_addresses : ℕ
max_pool_addresses = 65534

abbrev pub excluded : Family → ℕ
excluded ipv4 = 2
excluded ipv6 = 1

-- The number of hosts that `select_address` tries.
abbrev pub host_count : Network → ℕ
host_count n = min (n.size - excluded n.family) max_pool_addresses

-- `select_address`
unfoldable pub select_address : ℕ → Network → List ℕ → Option ℕ
unfolding first_free
select_address seed n used =
    if ltb (host_count n) 1
    then none
    else offset_by (n.first + 1) (
        first_free (λ i. contains used (n.first + 1 + i)) (seed % host_count n) (host_count n)
          (host_count n) 0)
