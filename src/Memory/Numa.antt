-- ===== src/Memory/Numa.antt =====
-- `numa_problem` and `smp_args`.
pub mod Laws
use lustre_test_vms.Base.{
  ℕ, zero, suc, ◌+◌, ◌-◌, ◌*◌, ◌/◌, ◌%◌, Bool, true, false, not, ◌&&◌, ◌||◌, Option, none, some,
  List, [], ◌∷◌, ◌==◌, nat_eq, ltb, leb, if◌then◌else◌,
}

pub data Problem : Type 0 where
  uneven_vcpus small_nodes : Problem

-- `numa_problem`, for a count that is not negative
unfoldable pub numa_problem : ℕ → ℕ → ℕ → Option Problem
numa_problem vcpus mem nodes =
    if leb nodes 1
    then none
    else if not (vcpus % nodes == 0)
    then some uneven_vcpus
    else if ltb (mem / nodes) 128
    then some small_nodes
    else none

-- An argument of QEMU. `node` has a node's memory and its first and last CPU.
pub data Arg : Type 0 where
  smp : ℕ → Arg
  sockets : ℕ → ℕ → ℕ → Arg
  memory : ℕ → Arg
  node : ℕ → ℕ → ℕ → ℕ → Arg

-- `for i in range(nodes)`, of the nodes from `i` on.
unfoldable pub node_args : ℕ → ℕ → ℕ → ℕ → ℕ → ℕ → List Arg
node_args mem nodes per_cpu per_mem i zero = []
node_args mem nodes per_cpu per_mem i (suc left) =
    let size = if ltb i (nodes - 1) then per_mem else mem - per_mem * (nodes - 1) in
    node i size (i * per_cpu) (i * per_cpu + per_cpu - 1)
    ∷ node_args mem nodes per_cpu per_mem (suc i) left

-- `smp_args`
unfoldable pub smp_args : ℕ → ℕ → ℕ → List Arg
unfolding node_args
smp_args vcpus mem nodes =
    if leb nodes 1
    then smp vcpus ∷ memory mem ∷ []
    else (let per_cpu = vcpus / nodes in
        let per_mem = mem / nodes / 2 * 2 in
        sockets vcpus nodes per_cpu ∷ memory mem ∷ node_args mem nodes per_cpu per_mem 0 nodes)
