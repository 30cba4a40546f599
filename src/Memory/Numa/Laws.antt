-- ===== src/Memory/Numa/Laws.antt =====
-- The nodes share out all memory and all CPUs.
use native.Mathlib.Nat.{div-add-mod, le-div_iff_mul-le}
use native.Mathlib.Decide.{ℕ_discrete}
use lustre_test_vms.Base.{
  ℕ, zero, suc, ◌+◌, ◌-◌, ◌*◌, ◌/◌, ◌%◌, ◌≤◌, ◌<◌, ◌≡◌, refl, ap, subst, leb, false, none, List, [],
  ◌∷◌, arith, nat_eq,
}
use lustre_test_vms.Memory.Numa.{Arg, node, numa_problem, node_args, smp_args}

abbrev pub node_memory : List Arg → ℕ
node_memory [] = 0
node_memory (node i size a b ∷ rest) = size + node_memory rest
node_memory (_ ∷ rest) = node_memory rest

-- The CPU ranges start at `i`, follow one another and end before `j`.
abbrev pub Tiles : ℕ → ℕ → List Arg → Type 0
Tiles i j [] = i ≡ j
Tiles i j (node k size a b ∷ rest) = (a ≡ i) × (i ≤ b) × Tiles (b + 1) j rest
Tiles i j (_ ∷ rest) = Tiles i j rest

next_end : (i p : ℕ) → 0 < p → i * p + p - 1 + 1 ≡ suc i * p
next_end i p h = omega arith

node_args-Tiles :
    (mem nodes p m i left : ℕ)
    → 0 < p
    → Tiles (i * p) ((left + i) * p) (node_args mem nodes p m i left)
unfolding node_args
node_args-Tiles mem nodes p m i zero h = omega arith
node_args-Tiles mem nodes p m i (suc left) h =
    let rest : Tiles (suc i * p) ((left + suc i) * p) (node_args mem nodes p m (suc i) left) =
      node_args-Tiles mem nodes p m (suc i) left h in
    let same : (left + suc i) * p ≡ (suc left + i) * p = ap (λ x. x * p) (omega arith) in
    (refl, omega arith, rw (next_end i p h) (rw same at rest))

node_args_memory :
    (mem nodes p m i left : ℕ)
    → i + suc left ≡ nodes
    → m * (nodes - 1) ≤ mem
    → node_memory (node_args mem nodes p m i (suc left)) + m * i ≡ mem
unfolding node_args
node_args_memory mem nodes p m i zero h l =
    let e : nodes - 1 ≡ i = omega arith in rw e (ground arith)
node_args_memory mem nodes p m i (suc left) h l =
    let rest = node_args_memory mem nodes p m (suc i) left (omega arith) l in ground (arith, rest)

even_share : (vcpus nodes : ℕ) → vcpus % nodes ≡ 0 → (nodes + 0) * (vcpus / nodes) ≡ vcpus
even_share vcpus nodes e = omega (arith, div-add-mod vcpus nodes, e)

some_share : (vcpus nodes : ℕ) → 0 < vcpus → vcpus % nodes ≡ 0 → 0 < vcpus / nodes
some_share vcpus nodes l e = elim (ℕ_discrete (vcpus / nodes) 0) [
  | yes z ↦ absurd (omega (arith, div-add-mod vcpus nodes, e, ap (λ x. nodes * x) z))
  | no z ↦ omega arith
]

rounded_share : (mem k : ℕ) → mem / suc k / 2 * 2 * (suc k - 1) ≤ mem
rounded_share mem k =
    let even : mem / suc k / 2 * 2 ≤ mem / suc k = omega arith in
    let all : mem / suc k / 2 * 2 * suc k ≤ mem =
      (le-div_iff_mul-le {k = suc k} {x = mem / suc k / 2 * 2} {y = mem} (omega arith)).0 even in
    let one : suc k - 1 ≡ k = omega arith in rw one (omega arith)

even_nodes :
    (vcpus mem nodes : ℕ) → 2 ≤ nodes → numa_problem vcpus mem nodes ≡ none → vcpus % nodes ≡ 0
unfolding numa_problem
even_nodes vcpus mem nodes two e = ground arith

-- If nothing speaks against two or more nodes, their memory adds up to the VM's, and their ranges of CPUs
-- follow one another from 0 to the last CPU of the VM.
pub smp_args_shares :
    (vcpus mem nodes : ℕ)
    → 2 ≤ nodes
    → 0 < vcpus
    → numa_problem vcpus mem nodes ≡ none
    → (node_memory (smp_args vcpus mem nodes) ≡ mem) × Tiles 0 vcpus (smp_args vcpus mem nodes)
unfolding smp_args
smp_args_shares vcpus mem zero two l e = absurd (omega arith)
smp_args_shares vcpus mem (suc k) two l e =
    let even : vcpus % suc k ≡ 0 = even_nodes vcpus mem (suc k) two e in
    let several : leb (suc k) 1 ≡ false = ground arith in
    let share : ℕ = mem / suc k / 2 * 2 in
    let whole =
      node_args_memory mem (suc k) (vcpus / suc k) share 0 k (omega arith) (rounded_share mem k) in
    let zero_first : 0 * (vcpus / suc k) ≡ 0 = omega arith in
    let tiles : Tiles 0 vcpus (node_args mem (suc k) (vcpus / suc k) share 0 (suc k)) =
      subst (λ x. Tiles x vcpus (node_args mem (suc k) (vcpus / suc k) share 0 (suc k))) zero_first
        (subst
          (λ x.
            Tiles (0 * (vcpus / suc k)) x (node_args mem (suc k) (vcpus / suc k) share 0 (suc k)))
          (even_share vcpus (suc k) even)
          (node_args-Tiles mem (suc k) (vcpus / suc k) share 0 (suc k)
            (some_share vcpus (suc k) l even))) in
    rw several (omega (arith, whole), tiles)
