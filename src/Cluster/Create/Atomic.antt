-- ===== src/Cluster/Create/Atomic.antt =====
-- That a rollback destroys every node, the partners before the nodes whose disks they use.
use lustre_test_vms.Base.{
  ℕ, not, ◌&&◌, String, ◌≡◌, ◌≢◌, refl, ap, sym, subst, inl, inr, true, false, none, some, List, [],
  ◌∷◌, ◌++◌, any, keep, All, arith, nat_eq, string_eq, contains, ◌==◌, Bool-cases, Option-cases,
  if◌then◌else◌,
}
use lustre_test_vms.Result.{ok}
use lustre_test_vms.Cluster.Nodes.{ClusterNode}
use lustre_test_vms.Cluster.Vms.{
  globs, remove_vm, World, Vm, info, corrupt, load, without, Hands, uses, stop_vm, destroy_one,
  destroy_each, cmd_destroy, drop_orphan_clusters, refuse_orphaned_partners, names_of,
  validate_vm_name_for_lookup,
}
use lustre_test_vms.Cluster.Create.Disks.{has, matched, has-keep}
use lustre_test_vms.Cluster.Vms.Destroy.{load-without}
use lustre_test_vms.Cluster.Create.{roll_back}

-- Every VM can be stopped, and its files can be removed.
abbrev pub Willing : Hands → Type 0
Willing e = (name : String) → (e.stop name ≡ ok tt) × (e.can_remove name ≡ true)

destroy_ready :
    (e : Hands) (name : String) (w : World)
    → Willing e
    → any (uses (name ∷ [])) w.vms ≡ false
    → validate_vm_name_for_lookup name ≡ true
    → load name w.vms ≢ some corrupt
    → ((cmd_destroy e true (name ∷ []) w).1.vms ≡ without name w.vms)
      × ((cmd_destroy e true (name ∷ []) w).1.disks ≡ keep (λ d. not (globs name d)) w.disks)
unfolding remove_vm cmd_destroy destroy_each destroy_one refuse_orphaned_partners
    drop_orphan_clusters stop_vm
destroy_ready e name w s u v l = elim (Option-cases (load name w.vms)) [
  | inl z ↦ (ground (arith, s name), ground (arith, s name))
  | inr (corrupt, c) ↦ absurd (l c)
  | inr (info d, i) ↦ (ground (arith, s name), ground (arith, s name))
]

-- Nodes that can be destroyed one after the other.
abbrev pub Ready : List ClusterNode → List Vm → Type 0
Ready [] vs = Unit
Ready (n ∷ ns) vs =
    (any (uses (n.name ∷ [])) vs ≡ false)
    × (validate_vm_name_for_lookup n.name ≡ true)
    × (load n.name vs ≢ some corrupt)
    × Ready ns (without n.name vs)

pub roll_back-Ready :
    (e : Hands) (ns : List ClusterNode) (k : String) (w : World)
    → Willing e
    → Ready ns w.vms
    → load k (roll_back e ns w).vms ≡ (if contains (names_of ns) k then none else load k w.vms)
unfolding roll_back
roll_back-Ready e [] k w s r = refl
roll_back-Ready e (n ∷ ns) k w s (u, v, l, r) =
    let (gone, _) = destroy_ready e n.name w s u v l in
    let next : Ready ns (cmd_destroy e true (n.name ∷ []) w).1.vms =
      subst (Ready ns) (sym gone) r in
    let rest = roll_back-Ready e ns k (cmd_destroy e true (n.name ∷ []) w).1 s next in
    ground (arith, rest, ap (load k) gone, load-without k n.name w.vms)

-- A rollback takes the disks that the patterns of its nodes match.
pub roll_back-disks :
    (e : Hands) (ns : List ClusterNode) (d : List ℕ) (w : World)
    → Willing e
    → Ready ns w.vms
    → has d (roll_back e ns w).disks ≡ (has d w.disks && not (matched ns d))
unfolding roll_back
roll_back-disks e [] d w s r = ground arith
roll_back-disks e (n ∷ ns) d w s (u, v, l, r) =
    let (gone, fewer) = destroy_ready e n.name w s u v l in
    let next : Ready ns (cmd_destroy e true (n.name ∷ []) w).1.vms =
      subst (Ready ns) (sym gone) r in
    let rest = roll_back-disks e ns d (cmd_destroy e true (n.name ∷ []) w).1 s next in
    ground (arith, rest, ap (has d) fewer, has-keep n.name d w.disks)

-- Only VMs of these names use the disks of a VM.
abbrev pub OnlyBy : List String → String → Vm → Type 0
OnlyBy names owner v = uses (owner ∷ []) v ≡ true → contains names v.name ≡ true

abbrev pub Sound : String → Vm → Type 0
Sound name v = (v.name == name) ≡ true → v.info_file ≢ corrupt

All-without :
    (P Q : Vm → Type 0) (name : String) (vs : List Vm)
    → ((v : Vm) → (v.name == name) ≡ false → P v → Q v)
    → All P vs
    → All Q (without name vs)
All-without P Q name [] f a = tt
All-without P Q name (v ∷ vs) f (p, ps) = elim (Bool-cases (v.name == name)) [
  | inl e ↦ rw (e, keep) (All-without P Q name vs f ps)
  | inr e ↦ rw (e, keep) (f v e p, All-without P Q name vs f ps)
]

unused :
    (owner : String) (vs : List Vm) → All (OnlyBy [] owner) vs → any (uses (owner ∷ [])) vs ≡ false
unused owner [] a = refl
unused owner (v ∷ vs) (p, ps) = elim (Bool-cases (uses (owner ∷ []) v)) [
  | inl e ↦ absurd (ground (arith, p e))
  | inr e ↦ ground (arith, unused owner vs ps)
]

not_corrupt : (name : String) (vs : List Vm) → All (Sound name) vs → load name vs ≢ some corrupt
not_corrupt name [] a l = absurd (ground arith)
not_corrupt name (v ∷ vs) (p, ps) l = elim (Bool-cases (v.name == name)) [
  | inl e ↦ p e (ground arith)
  | inr e ↦ not_corrupt name vs ps (ground arith)
]

-- What one node needs so that it can be destroyed after the nodes of those names.
abbrev pub Free : List String → List Vm → ClusterNode → Type 0
Free names vs n =
    All (OnlyBy names n.name) vs
    × All (Sound n.name) vs
    × (validate_vm_name_for_lookup n.name ≡ true)

Free-without :
    (names : List String) (name : String) (vs : List Vm) (ns : List ClusterNode)
    → All (Free (name ∷ names) vs) ns
    → All (Free names (without name vs)) ns
Free-without names name vs [] a = tt
Free-without names name vs (n ∷ ns) ((o, s, v), rest) = (
  (
    All-without (OnlyBy (name ∷ names) n.name) (OnlyBy names n.name) name vs
        (λ m. (λ d. (λ p. (λ u. ground (arith, p u, d))))) o,
    All-without (Sound n.name) (Sound n.name) name vs (λ m. (λ d. (λ p. p))) s,
    v,
  ),
  Free-without names name vs ns rest,
)

Free-keep :
    (name : String) (vs : List Vm) (ns : List ClusterNode)
    → All (Free [] vs) ns
    → All (Free [] (without name vs)) ns
Free-keep name vs [] a = tt
Free-keep name vs (n ∷ ns) ((o, s, v), rest) = (
  (
    All-without (OnlyBy [] n.name) (OnlyBy [] n.name) name vs (λ m. (λ d. (λ p. p))) o,
    All-without (Sound n.name) (Sound n.name) name vs (λ m. (λ d. (λ p. p))) s,
    v,
  ),
  Free-keep name vs ns rest,
)

specs-Ready : (ss : List ClusterNode) (vs : List Vm) → All (Free [] vs) ss → Ready ss vs
specs-Ready [] vs a = tt
specs-Ready (n ∷ ns) vs ((o, s, v), rest) = (
  unused n.name vs o,
  v,
  not_corrupt n.name vs s,
  specs-Ready ns (without n.name vs) (Free-keep n.name vs ns rest),
)

pub partners-Ready :
    (ps ss : List ClusterNode) (vs : List Vm)
    → All (Free [] vs) ps
    → All (Free (names_of ps) vs) ss
    → Ready (ps ++ ss) vs
partners-Ready [] ss vs a b = specs-Ready ss vs b
partners-Ready (p ∷ ps) ss vs ((o, s, v), rest) b = (
  unused p.name vs o,
  v,
  not_corrupt p.name vs s,
  partners-Ready ps ss (without p.name vs) (Free-keep p.name vs ps rest)
      (Free-without (names_of ps) p.name vs ss b),
)
