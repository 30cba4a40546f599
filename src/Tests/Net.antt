-- ===== src/Tests/Net.antt =====
-- Addresses of a small host.
use lustre_test_vms.Base.{
  contains, true, ℕ, String, ◌≡◌, refl, none, some, List, [], ◌∷◌, length, nat_eq, string_eq,
}
use lustre_test_vms.Result.{ok}
use lustre_test_vms.Net.Pool.{Network, ipv4, ipv6, default_address, select_address, first_free}
use lustre_test_vms.Net.Overlap.{
  Nic, network_problem, is_explicit, is_same, overlaps, over_management, data_networks,
  overlap_problem, scan, unique, first_clash, clash,
}
use lustre_test_vms.Net.Alloc.{
  Site, Seeds, Stored, peer, gone, alloc_vm_addresses, stored_address_state, nic_ip6,
  nic_network_problem, data_defaults, stored_overlap, alloc_nics, alloc_locked, nic_address,
  nic_address6, primary_address, subnet_for_nic, unused6,
}
use lustre_test_vms.Net.AllocIp.{alloc_ip, alloc_from, used_ips, explicit_address}
use lustre_test_vms.Net.AllocIp.Laws.{Aligned}
use lustre_test_vms.Net.Alloc.{validate_explicit_ip}
use lustre_test_vms.Result.{err, exit}
use lustre_test_vms.Net.Alloc.Laws.{Fresh, Taken, ips_of, ip6s_of, alloc_vm_addresses-Fresh}

abbrev small_net : Network
small_net = record { family = ipv4; first = 1000; size = 4 }

selected : select_address 7 small_net (1002 ∷ []) ≡ some 1001
unfolding select_address nat_eq
selected = refl

exhausted : select_address 7 small_net (1002 ∷ 1001 ∷ []) ≡ none
unfolding select_address nat_eq
exhausted = refl

abbrev plain_nic : Nic
plain_nic = record { net = none; subnet = none; subnet6 = none }

abbrev own_nic : Nic
own_nic = record plain_nic {
  subnet = some (record { family = ipv4; first = 0x0a000000; size = 256 });
}

abbrev mgmt : Network
mgmt = record { family = ipv4; first = 0xc0a87f00; size = 256 }

abbrev data4 : Network
data4 = record { family = ipv4; first = 0xac106400; size = 256 }

abbrev data6 : Network
data6 = record {
  family = ipv6;
  first = 0xfd1720161000f1000000000000000000;
  size = 0x10000000000000000;
}

abbrev nics : List Nic
nics = plain_nic ∷ own_nic ∷ plain_nic ∷ []

no_problem : network_problem nics mgmt data4 data6 ≡ none
unfolding network_problem nat_eq is_explicit over_management data_networks overlaps overlap_problem
    scan unique first_clash is_same clash
no_problem = refl

abbrev site : Site
site = record {
  management = 0xc0a87f00;
  extra = 0xac106400;
  extra6 = 0xfd1720161000f1000000000000000000;
}

abbrev seeds : Seeds
seeds = record { short = 488; long = 40 }

abbrev stored : List (String × Stored)
stored =
    (
      "co1",
      peer (record {
        ip = some 0xc0a87f0a;
        nic_ips = some 0xac10640a ∷ none ∷ [];
        nic_ip6s = [];
        nics = plain_nic ∷ [];
      }),
    )
    ∷ ("co2", gone)
    ∷ []

abbrev got4 : List ℕ
got4 = 0xc0a87f0b ∷ 0xac10640b ∷ 0x0a000029 ∷ 0xac10640c ∷ []

abbrev got6 : List ℕ
got6 =
    0xfd1720161000f100f172f016f100f011 ∷ 0xfd1720161000f100f010f000f000f041
    ∷ 0xfd1720161000f100f172f016f100f012 ∷ []

allocated : alloc_vm_addresses site seeds stored "co3" nics none ≡ ok (got4, got6)
unfolding alloc_vm_addresses nat_eq string_eq network_problem is_explicit over_management
    data_networks overlaps overlap_problem scan unique first_clash is_same clash nic_network_problem
    data_defaults stored_address_state stored_overlap default_address alloc_nics alloc_locked
    nic_address nic_address6 nic_ip6 primary_address subnet_for_nic unused6 first_free
    select_address
allocated = refl

alloc_vm_addresses-Fresh_example :
    ((a : ℕ) → contains got4 a ≡ true → ¬ Taken ips_of "co3" stored a)
    × ((a : ℕ) → contains got6 a ≡ true → ¬ Taken ip6s_of "co3" stored a)
    × Fresh [] got4
    × Fresh [] got6
    × (length got4 ≡ 4)
    × (length got6 ≡ 3)
alloc_vm_addresses-Fresh_example =
    alloc_vm_addresses-Fresh site seeds stored "co3" nics none got4 got6 allocated

allocated_ips :
    alloc_ip site 488 stored "co3" 3 none ≡ ok (0xc0a87f0b ∷ 0xac10640b ∷ 0xac10640c ∷ [])
unfolding alloc_ip alloc_from used_ips subnet_for_nic default_address first_free nat_eq string_eq
allocated_ips = refl

taken : alloc_ip site 488 stored "co3" 1 (some (some 0xc0a87f0a)) ≡ err exit
unfolding alloc_ip explicit_address validate_explicit_ip used_ips nat_eq string_eq
taken = refl

site-Aligned : Aligned site
unfolding Aligned
site-Aligned = (refl, refl)
