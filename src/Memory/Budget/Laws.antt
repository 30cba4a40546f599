-- ===== src/Memory/Budget/Laws.antt =====
-- The running VMs never commit more than the host allows.
use lustre_test_vms.Base.{
  ℕ, ◌+◌, ◌-◌, ◌*◌, ◌++◌, sym, subst, ◌≤◌, ◌≡◌, refl, inl, inr, String, true, false, none, some,
  List, [], ◌∷◌, arith, string_eq, nat_eq, ◌==◌, Bool-cases, Option-cases, ◌/◌, max, All,
}
use lustre_test_vms.Result.{ok, Result-cases}
use lustre_test_vms.Memory.Budget.{
  Host, MemoryBudget, State, memory_budget, running_vm_memory, committed, memory_shortfall, Checks,
  wait_for_memory, launch_qemu, budget_mb, Shortfall, usable, fits_budget,
}

usable_le : (h : Host) → usable h ≤ h.total
unfolding usable
usable_le h = ground arith

ok_injective : (xs ys : List (String × State)) → ok xs ≡ ok ys → xs ≡ ys
ok_injective xs ys e = cc

-- The budget counts at most the total memory, is at least 1 GiB below what it counts (or 0), and ten times
-- the budget is at most nine times what it counts, plus 9.
pub memory_budget_bounds :
    (h : Host) (b : MemoryBudget)
    → memory_budget h ≡ some b
    → (b.total_mb ≤ h.total)
      × (budget_mb b ≤ b.total_mb - 1024)
      × (budget_mb b * 10 ≤ b.total_mb * 9 + 9)
unfolding memory_budget usable
memory_budget_bounds h b e = elim (Bool-cases (h.total == 0)) [
  | inl z ↦ absurd (ground arith)
  | inr z ↦
      let least : usable h ≤ h.total = usable_le h in
      let same : record { total_mb = usable h; reserve_mb = max 1024 (usable h / 10) } ≡ b =
        ground arith in
      subst
        (λ c.
          (c.total_mb ≤ h.total)
          × (budget_mb c ≤ c.total_mb - 1024)
          × (budget_mb c * 10 ≤ c.total_mb * 9 + 9))
        same (least, omega arith, omega arith)
]

shortfall-none :
    (h : Host) (vms : List (String × State)) (name : String) (mem : ℕ) (b : MemoryBudget)
    → memory_budget h ≡ some b
    → memory_shortfall h vms name mem ≡ none
    → (mem ≤ budget_mb b) × (committed (running_vm_memory name vms) + mem ≤ h.scale (budget_mb b))
unfolding memory_shortfall
shortfall-none h vms name mem b e f = (ground arith, ground arith)

wait_fits :
    (h : Host) (name : String) (mem : ℕ) (looks : List (List (String × State)))
    (found : List (String × State))
    → wait_for_memory h name mem looks ≡ ok found
    → memory_shortfall h found name mem ≡ none
unfolding wait_for_memory
wait_fits h name mem [] found e = absurd (ground arith)
wait_fits h name mem (vms ∷ looks) found e = elim (Option-cases (memory_shortfall h vms name mem)) [
  | inl f ↦ rw (sym (ok_injective vms found (rw (f, wait_for_memory) at e))) f
  | inr (s, f) ↦ elim (Bool-cases s.fits_when_idle) [
    | inl g ↦ wait_fits h name mem looks found (rw (f, g, wait_for_memory) at e)
    | inr g ↦ absurd (ground arith)
  ]
]

-- A launch that starts QEMU finds room at its last look: the VM fits the budget, and together with the
-- VMs that run it is within the limit.
pub launch_qemu_fits :
    (h : Host) (c : Checks) (name : String) (mem : ℕ) (looks : List (List (String × State)))
    (found : List (String × State)) (b : MemoryBudget)
    → memory_budget h ≡ some b
    → launch_qemu h c name mem looks ≡ ok (some found)
    → (mem ≤ budget_mb b) × (committed (running_vm_memory name found) + mem ≤ h.scale (budget_mb b))
unfolding launch_qemu
launch_qemu_fits h c name mem looks found b e f =
    elim (Result-cases (wait_for_memory h name mem looks)) [
      | inl (vms, g) ↦
          let same : vms ≡ found = ground arith in
          shortfall-none h found name mem b e (wait_fits h name mem looks found (rw same at g))
      | inr (x, g) ↦ absurd (ground arith)
    ]

shortfall_fits :
    (h : Host) (vms : List (String × State)) (name : String) (mem : ℕ) (b : MemoryBudget)
    (s : Shortfall)
    → memory_budget h ≡ some b
    → fits_budget mem b ≡ true
    → memory_shortfall h vms name mem ≡ some s
    → s.fits_when_idle ≡ true
unfolding memory_shortfall
shortfall_fits h vms name mem b s e f g = ground arith

-- A look that finds too little room for a VM.
abbrev pub Short : Host → String → ℕ → List (String × State) → Type 0
Short h name mem vms = (s : Shortfall) × (memory_shortfall h vms name mem ≡ some s)

wait_succeeds :
    (h : Host) (name : String) (mem : ℕ) (before : List (List (String × State)))
    (vms : List (String × State)) (after : List (List (String × State))) (b : MemoryBudget)
    → memory_budget h ≡ some b
    → fits_budget mem b ≡ true
    → All (Short h name mem) before
    → memory_shortfall h vms name mem ≡ none
    → wait_for_memory h name mem (before ++ (vms ∷ after)) ≡ ok vms
unfolding wait_for_memory
wait_succeeds h name mem [] vms after b e f short g = rw (g, wait_for_memory) refl
wait_succeeds h name mem (v ∷ before) vms after b e f ((s, k), short) g =
    let fits : s.fits_when_idle ≡ true = shortfall_fits h v name mem b s e f k in
    rw (k, fits, wait_for_memory) (wait_succeeds h name mem before vms after b e f short g)

-- If the VM fits the budget and the checks pass, a launch goes ahead at the first look that finds room: it
-- passes over the looks before, which find too little, and takes none after.
pub launch_qemu_waits :
    (h : Host) (c : Checks) (name : String) (mem : ℕ) (before : List (List (String × State)))
    (vms : List (String × State)) (after : List (List (String × State))) (b : MemoryBudget)
    → c ≡ record { is_running = false; overlay = true; refused = false; network = true }
    → memory_budget h ≡ some b
    → fits_budget mem b ≡ true
    → All (Short h name mem) before
    → memory_shortfall h vms name mem ≡ none
    → launch_qemu h c name mem (before ++ (vms ∷ after)) ≡ ok (some vms)
unfolding launch_qemu
launch_qemu_waits h c name mem before vms after b p e f short g =
    let w = wait_succeeds h name mem before vms after b e f short g in rw (p, w, launch_qemu) refl
