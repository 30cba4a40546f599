-- ===== src/Tests/Memory.antt =====
-- A host with 16 GiB and two running VMs, and a VM with two NUMA nodes.
use lustre_test_vms.Base.{
  String, ◌≡◌, ◌≤◌, refl, true, false, none, some, List, [], ◌∷◌, ◌++◌, ◌+◌, string_eq, nat_eq,
}
use lustre_test_vms.Result.{ok}
use lustre_test_vms.Memory.Budget.{
  Host, MemoryBudget, State, running, corrupt, stopped, Checks, memory_budget, usable,
  cgroup_memory_limit_mb, running_vm_memory, memory_shortfall, wait_for_memory, launch_qemu,
  committed, budget_mb,
}
use lustre_test_vms.Memory.Budget.Laws.{Short, launch_qemu_fits, launch_qemu_waits}
use lustre_test_vms.Memory.Numa.{numa_problem, smp_args, sockets, memory, node}

abbrev host : Host
host = record { total = 16000; limits = none ∷ some 15728640000 ∷ []; scale = λ b. b + b }

abbrev budget : MemoryBudget
budget = record { total_mb = 15000; reserve_mb = 1500 }

its_budget : memory_budget host ≡ some budget
unfolding memory_budget usable cgroup_memory_limit_mb nat_eq
its_budget = refl

abbrev crowded : List (String × State)
crowded = ("a", running 12000) ∷ ("b", running 12000) ∷ ("c", corrupt) ∷ ("d", stopped) ∷ []

abbrev freed : List (String × State)
freed = ("a", running 12000) ∷ ("b", stopped) ∷ ("d", stopped) ∷ []

abbrev checks : Checks
checks = record { is_running = false; overlay = true; refused = false; network = true }

launched : launch_qemu host checks "d" 8000 (crowded ∷ freed ∷ []) ≡ ok (some freed)
unfolding launch_qemu wait_for_memory memory_shortfall running_vm_memory memory_budget usable
    cgroup_memory_limit_mb nat_eq string_eq
launched = refl

launch_qemu_fits_example :
    (8000 ≤ budget_mb budget)
    × (committed (running_vm_memory "d" freed) + 8000 ≤ host.scale (budget_mb budget))
launch_qemu_fits_example =
    launch_qemu_fits host checks "d" 8000 (crowded ∷ freed ∷ []) freed budget its_budget launched

room : memory_shortfall host freed "d" 8000 ≡ none
unfolding memory_shortfall running_vm_memory memory_budget usable cgroup_memory_limit_mb nat_eq
    string_eq
room = refl

too_little : Short host "d" 8000 crowded
unfolding memory_shortfall running_vm_memory memory_budget usable cgroup_memory_limit_mb nat_eq
    string_eq
too_little = (_, refl)

launch_qemu_waits_example :
    launch_qemu host checks "d" 8000 ((crowded ∷ []) ++ (freed ∷ (crowded ∷ []))) ≡ ok (some freed)
launch_qemu_waits_example =
    launch_qemu_waits host checks "d" 8000 (crowded ∷ []) freed (crowded ∷ []) budget refl
      its_budget refl (too_little, tt) room

split :
    smp_args 6 4099 3
    ≡ sockets 6 3 2 ∷ memory 4099 ∷ node 0 1366 0 1 ∷ node 1 1366 2 3 ∷ node 2 1367 4 5 ∷ []
unfolding smp_args
split = refl

even : numa_problem 6 4099 3 ≡ none
unfolding numa_problem nat_eq
even = refl
