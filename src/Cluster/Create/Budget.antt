-- ===== src/Cluster/Create/Budget.antt =====
-- That the nodes of a cluster that passes the memory check can all start, one after the other.
use lustre_test_vms.Base.{
  ℕ, ◌+◌, ◌≤◌, String, ◌≡◌, ◌≢◌, inl, inr, true, false, none, some, List, [], ◌∷◌, sum, All, arith,
  nat_eq, string_eq, Option-cases,
}
use lustre_test_vms.Result.{ok}
use lustre_test_vms.Memory.Budget.{
  Host, MemoryBudget, memory_budget, budget_mb, fits_budget, running_vm_memory, committed, State,
  running, gone, corrupt, stopped, memory_shortfall,
}
use lustre_test_vms.Cluster.Nodes.{ClusterNode}
use lustre_test_vms.Cluster.Create.{Memory, node_sizes, biggest, require_cluster_memory}

-- Each node in turn finds enough memory beside the VMs that run and the nodes before it.
abbrev pub Starts : Host → List (String × State) → List ClusterNode → List ℕ → Type 0
Starts h vms [] sizes = Unit
Starts h vms (n ∷ ns) [] = Unit
Starts h vms (n ∷ ns) (mb ∷ sizes) =
    (memory_shortfall h vms n.name mb ≡ none) × Starts h ((n.name, running mb) ∷ vms) ns sizes

abbrev pub Named : List (String × State) → Type 0
Named vms = All (λ (v : String × State). v.0 ≢ "") vms

skip_less :
    (name : String) (vms : List (String × State))
    → Named vms
    → committed (running_vm_memory name vms) ≤ committed (running_vm_memory "" vms)
unfolding running_vm_memory
skip_less name [] a = omega arith
skip_less name ((v, gone) ∷ vms) (n, rest) = ground (arith, skip_less name vms rest)
skip_less name ((v, corrupt) ∷ vms) (n, rest) = ground (arith, skip_less name vms rest)
skip_less name ((v, stopped) ∷ vms) (n, rest) = ground (arith, skip_less name vms rest)
skip_less name ((v, running mb) ∷ vms) (n, rest) = ground (arith, skip_less name vms rest)

add_running :
    (name : String) (mb : ℕ) (vms : List (String × State))
    → name ≢ ""
    → committed (running_vm_memory "" ((name, running mb) ∷ vms))
      ≡ mb + committed (running_vm_memory "" vms)
unfolding running_vm_memory
add_running name mb vms n = ground arith

shortfall_none :
    (h : Host) (vms : List (String × State)) (name : String) (mem : ℕ) (b : MemoryBudget)
    → memory_budget h ≡ some b
    → fits_budget mem b ≡ true
    → committed (running_vm_memory name vms) + mem ≤ h.scale (budget_mb b)
    → memory_shortfall h vms name mem ≡ none
unfolding memory_shortfall
shortfall_none h vms name mem b e f l = ground arith

no_budget :
    (h : Host) (vms : List (String × State)) (name : String) (mem : ℕ)
    → memory_budget h ≡ none
    → memory_shortfall h vms name mem ≡ none
unfolding memory_shortfall
no_budget h vms name mem z = ground arith

sizes-Starts :
    (h : Host) (b : MemoryBudget) (vms : List (String × State)) (ns : List ClusterNode)
    (sizes : List ℕ)
    → memory_budget h ≡ some b
    → Named vms
    → All (λ (n : ClusterNode). n.name ≢ "") ns
    → fits_budget (biggest sizes) b ≡ true
    → committed (running_vm_memory "" vms) + sum sizes ≤ h.scale (budget_mb b)
    → Starts h vms ns sizes
sizes-Starts h b vms [] sizes e v n f l = tt
sizes-Starts h b vms (k ∷ ns) [] e v n f l = tt
sizes-Starts h b vms (k ∷ ns) (mb ∷ sizes) e v (m, n) f l =
    let less = skip_less k.name vms v in
    let more = add_running k.name mb vms m in
    let here : committed (running_vm_memory k.name vms) + mb ≤ h.scale (budget_mb b) =
      omega (arith, less, l) in
    (
      shortfall_none h vms k.name mb b e (ground arith) here,
      sizes-Starts h b ((k.name, running mb) ∷ vms) ns sizes e (m, v) n (ground arith)
          (omega (arith, more, l)),
    )

-- Where the sizes of all nodes are known and no `--wait` is given, a cluster that passes the memory check can
-- start: each node's own check of the memory passes with the VMs that run and the nodes before it.
pub require_cluster_memory-Starts :
    (m : Memory) (ns : List ClusterNode) (sizes : List ℕ)
    → m.wait ≡ false
    → Named m.running
    → All (λ (n : ClusterNode). n.name ≢ "") ns
    → node_sizes m ns ≡ some sizes
    → require_cluster_memory m ns ≡ ok tt
    → Starts m.host m.running ns sizes
unfolding require_cluster_memory
require_cluster_memory-Starts m ns sizes w v n s h = elim (Option-cases (memory_budget m.host)) [
  | inl z ↦ unlimited m.host m.running ns sizes z
  | inr (b, e) ↦
      let fits : fits_budget (biggest sizes) b ≡ true = ground arith in
      let room : committed (running_vm_memory "" m.running) + sum sizes
          ≤ m.host.scale (budget_mb b) =
        ground arith in
      sizes-Starts m.host b m.running ns sizes e v n fits room
]
  where
    unlimited :
        (host : Host) (vms : List (String × State)) (ks : List ClusterNode) (mbs : List ℕ)
        → memory_budget host ≡ none
        → Starts host vms ks mbs
    unlimited host vms [] mbs z = tt
    unlimited host vms (k ∷ ks) [] z = tt
    unlimited host vms (k ∷ ks) (mb ∷ mbs) z =
        (no_budget host vms k.name mb z, unlimited host ((k.name, running mb) ∷ vms) ks mbs z)
