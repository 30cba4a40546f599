-- ===== src/Memory/Budget.antt =====
-- `_cgroup_memory_limit_mb`, `memory_budget`, `running_vm_memory`, `_memory_shortfall` and the loop of
-- `launch_qemu`. The factor of `_memory_overcommit` is a float: `scale` is `int(_ * overcommit)`.
pub mod Laws
use lustre_test_vms.Base.{
  ℕ, zero, suc, ◌+◌, ◌-◌, ◌/◌, min, max, String, Bool, true, false, not, ◌&&◌, ◌||◌, Option, none,
  some, List, [], ◌∷◌, map, sum, ◌==◌, string_eq, nat_eq, ltb, leb, if◌then◌else◌,
}
use lustre_test_vms.Result.{Result, ok, err, exit}

-- What a launch reads of the host: `MemTotal` (0 if it cannot be read), the `memory.max` of the cgroup
-- and of those above it, and the configured factor.
pub record Host : Type 0 where
  pub total : ℕ
  pub limits : List (Option ℕ)
  pub scale : ℕ → ℕ

abbrev tightest : List (Option ℕ) → Option ℕ
tightest [] = none
tightest (none ∷ ls) = tightest ls
tightest (some l ∷ ls) = elim (tightest ls) [ none ↦ some l | some m ↦ some (min l m) ]

-- `_cgroup_memory_limit_mb`: 0 for none.
unfoldable pub cgroup_memory_limit_mb : List (Option ℕ) → ℕ
cgroup_memory_limit_mb ls = elim (tightest ls) [ none ↦ 0 | some b ↦ b / 1048576 ]

-- `MemoryBudget`; on a host with less than the reserve the budget is negative, and here it is 0.
pub record MemoryBudget : Type 0 where
  pub total_mb : ℕ
  pub reserve_mb : ℕ

abbrev pub budget_mb : MemoryBudget → ℕ
budget_mb b = b.total_mb - b.reserve_mb

unfoldable pub usable : Host → ℕ
usable h =
    let cgroup = cgroup_memory_limit_mb h.limits in
    if ltb 0 cgroup && ltb cgroup h.total then cgroup else h.total

-- `memory_budget`
unfoldable pub memory_budget : Host → Option MemoryBudget
memory_budget h =
    if h.total == 0
    then none
    else some (record { total_mb = usable h; reserve_mb = max 1024 (usable h / 10) })

-- A VM that the host stores, as `VMInfo.load` and `is_running` see it.
pub data State : Type 0 where
  gone corrupt stopped : State
  running : ℕ → State

-- `running_vm_memory`
unfoldable pub running_vm_memory : String → List (String × State) → List (String × ℕ)
running_vm_memory skip [] = []
running_vm_memory skip ((name, state) ∷ vms) =
    let rest = running_vm_memory skip vms in
    if name == skip then rest else elim state [ running mem ↦ (name, mem) ∷ rest | _ ↦ rest ]

abbrev pub committed : List (String × ℕ) → ℕ
committed vms = sum (map (λ v. v.1) vms)

-- `_Shortfall`
pub record Shortfall : Type 0 where
  pub fits_when_idle : Bool

-- At most the budget, which is negative where the reserve is larger than the total.
abbrev pub fits_budget : ℕ → MemoryBudget → Bool
fits_budget mem b = leb (mem + b.reserve_mb) b.total_mb

-- `_memory_shortfall`
unfoldable pub memory_shortfall : Host → List (String × State) → String → ℕ → Option Shortfall
memory_shortfall h vms name mem = elim (memory_budget h) [
  | none ↦ none
  | some b ↦
      if fits_budget mem b
        && leb (committed (running_vm_memory name vms) + mem) (h.scale (budget_mb b))
      then none
      else some (record { fits_when_idle = fits_budget mem b })
]

-- The loop of `launch_qemu`: `looks` are the VMs that each look finds, the last one after the deadline.
-- The result is the VMs among which QEMU starts.
give_up_or : Bool → Result (List (String × State)) → Result (List (String × State))
give_up_or false wait = err exit
give_up_or true wait = wait

unfoldable pub wait_for_memory :
    Host → String → ℕ → List (List (String × State)) → Result (List (String × State))
unfolding give_up_or
wait_for_memory h name mem [] = err exit
wait_for_memory h name mem (vms ∷ looks) =
    let wait = wait_for_memory h name mem looks in
    elim (memory_shortfall h vms name mem) [
      | none ↦ ok vms
      | some s ↦ give_up_or s.fits_when_idle wait
    ]

-- What `launch_qemu` checks before: `is_running`, the overlay, its base image, and the network helper
-- that macOS needs.
pub record Checks : Type 0 where
  pub is_running : Bool
  pub overlay : Bool
  pub refused : Bool
  pub network : Bool

-- `launch_qemu`: nothing is started for a VM that runs.
unfoldable pub launch_qemu :
    Host
    → Checks
    → String
    → ℕ
    → List (List (String × State))
    → Result (Option (List (String × State)))
launch_qemu h c name mem looks =
    if c.is_running
    then ok none
    else if not c.overlay || (c.refused || not c.network)
    then err exit
    else elim (wait_for_memory h name mem looks) [ ok vms ↦ ok (some vms) | err e ↦ err e ]
