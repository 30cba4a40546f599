-- ===== src/Cluster/Create/Free.antt =====
-- That, once the waves are over, only partners use the disks of a node.
use lustre_test_vms.Base.{
  String, ◌≡◌, refl, ap, subst, ◌⊎◌, inl, inr, true, false, none, some, List, [], ◌∷◌, any, All,
  arith, nat_eq, string_eq, contains, ◌==◌, Bool-cases, Option-cases,
}
use lustre_test_vms.Result.{ok, Result-cases}
use lustre_test_vms.Cluster.Nodes.{ClusterNode, Spec, parse_node_spec, validate_vm_name, by_name}
use lustre_test_vms.Cluster.Nodes.Laws.{Parsed, parse_node_spec-Parsed, Partner}
use lustre_test_vms.Cluster.Osts.Laws.{List-cases}
use lustre_test_vms.Cluster.Vms.{World, Vm, Info, info, corrupt, exists, names_of}
use lustre_test_vms.Cluster.Vms.Names.{validate_vm_name-lookup}
use lustre_test_vms.Cluster.Create.{
  Env, Outcome, up, left_over, nothing, is_up, create_one, create_wave, create_waves, parse_specs,
}
use lustre_test_vms.Cluster.Create.Atomic.{OnlyBy, Sound, Free}

pub All-map {ℓ κ} :
    {A : Type ℓ} (P Q : A → Type κ) (f : (a : A) → P a → Q a) (xs : List A) → All P xs → All Q xs
All-map P Q f [] a = tt
All-map P Q f (x ∷ xs) (p, ps) = (f x p, All-map P Q f xs ps)

-- The VM of a node.
abbrev vm_of : ClusterNode → Vm
vm_of n = record { name = n.name; info_file = info n.failover_for }

Outcome-cases : (o : Outcome) → (o ≡ up) ⊎ ((o ≡ left_over) ⊎ (o ≡ nothing))
Outcome-cases up = inl refl
Outcome-cases left_over = inr (inl refl)
Outcome-cases nothing = inr (inr refl)

module _ (P : Vm → Type 0) (e : Env) where
  create_one-All :
      (n : ClusterNode) (w : World) → All P w.vms → P (vm_of n) → All P (create_one e n w).vms
  unfolding create_one
  create_one-All n w a p = elim (Outcome-cases (e.outcome n)) [
    | inl o ↦ rw (o, create_one) (p, a)
    | inr (inl o) ↦ rw (o, create_one) (p, a)
    | inr (inr o) ↦ rw (o, create_one) a
  ]

  create_wave-All :
      (ns : List ClusterNode) (w : World)
      → All P w.vms
      → All (λ n. P (vm_of n)) ns
      → All P (create_wave e ns w).1.vms
  unfolding create_wave
  create_wave-All [] w a b = a
  create_wave-All (n ∷ ns) w a (p, ps) =
      let rest = create_wave-All ns (create_one e n w) (create_one-All n w a p) ps in
      elim (Bool-cases (is_up (e.outcome n))) [
        | inl u ↦ rw (u, create_wave) rest
        | inr u ↦ rw (u, create_wave) rest
      ]

  create_waves-All :
      (specs partners : List ClusterNode) (w : World)
      → All P w.vms
      → All (λ n. P (vm_of n)) specs
      → All (λ n. P (vm_of n)) partners
      → All P (create_waves e specs partners w).1.vms
  unfolding create_waves
  create_waves-All specs partners w a b c =
      let first = create_wave-All specs w a b in
      let second = create_wave-All partners (create_wave e specs w).1 first c in
      elim (List-cases (create_wave e specs w).0) [
        | inl z ↦ rw (z, create_waves) second
        | inr (n, ns, z) ↦ rw (z, create_waves) first
      ]

Info-cases : (i : Info) → (i ≡ corrupt) ⊎ ((i ≡ info none) ⊎ ((o : String) × (i ≡ info (some o))))
Info-cases corrupt = inl refl
Info-cases (info none) = inr (inl refl)
Info-cases (info (some o)) = inr (inr (o, refl))

-- The VM whose disks a VM uses is there.
abbrev pub Supported : List Vm → Vm → Type 0
Supported vs v = (owner : String) → v.info_file ≡ info (some owner) → exists owner vs ≡ true

old_only :
    (names : List String) (owner : String) (all vs : List Vm)
    → exists owner all ≡ false
    → All (Supported all) vs
    → All (OnlyBy names owner) vs
old_only names owner all [] h a = tt
old_only names owner all (v ∷ vs) h (s, ss) = (
  λ u. elim (Info-cases v.info_file) [
    | inl c ↦ absurd (ground arith)
    | inr (inl c) ↦ absurd (ground arith)
    | inr (inr (o, c)) ↦
        let same : o ≡ owner = ground arith in
        absurd (ground (arith, s o c, ap (λ x. exists x all) same))
  ],
  old_only names owner all vs h ss,
)

old-Sound : (name : String) (vs : List Vm) → exists name vs ≡ false → All (Sound name) vs
old-Sound name [] h = tt
old-Sound name (v ∷ vs) h = (λ e. (λ c. ground arith), old-Sound name vs (ground arith))

pub parse_specs-Parsed :
    (ss : List Spec) (ns : List ClusterNode) → parse_specs ss ≡ ok ns → All Parsed ns
unfolding parse_specs
parse_specs-Parsed [] [] h = tt
parse_specs-Parsed [] (n ∷ ns) h = absurd (ground arith)
parse_specs-Parsed (s ∷ ss) ns h = elim (Result-cases (parse_node_spec s)) [
  | inr (x, e) ↦ absurd (ground arith)
  | inl (n, e) ↦ elim (Result-cases (parse_specs ss)) [
    | inr (x, f) ↦ absurd (ground arith)
    | inl (ms, f) ↦
        let same : n ∷ ms ≡ ns = ground arith in
        subst (All Parsed) same (parse_node_spec-Parsed s n e, parse_specs-Parsed ss ms f)
  ]
]

by_name-any :
    (q : String) (ns : List ClusterNode) (n : ClusterNode)
    → by_name q ns ≡ some n
    → any (λ (m : ClusterNode). m.name == q) ns ≡ true
by_name-any q [] n h = absurd (ground arith)
by_name-any q (m ∷ ms) n h = elim (Option-cases (by_name q ms)) [
  | inl z ↦ ground arith
  | inr (k, z) ↦ ground (arith, by_name-any q ms k z)
]

own_names :
    (ps qs : List ClusterNode)
    → ((k : String) → contains (names_of ps) k ≡ true → contains (names_of qs) k ≡ true)
    → All (λ (p : ClusterNode). contains (names_of qs) p.name ≡ true) ps
own_names [] qs f = tt
own_names (p ∷ ps) qs f =
    (f p.name (ground arith), own_names ps qs (λ k. (λ h. f k (ground arith))))

vm_of-Sound : (name : String) (n : ClusterNode) → Sound name (vm_of n)
vm_of-Sound name n = λ e. (λ c. ground arith)

All-every {ℓ κ} : {A : Type ℓ} (P : A → Type κ) (f : (a : A) → P a) (xs : List A) → All P xs
All-every P f [] = tt
All-every P f (x ∷ xs) = (f x, All-every P f xs)

spec_only :
    (names : List String) (owner : String) (n : ClusterNode)
    → Parsed n
    → OnlyBy names owner (vm_of n)
spec_only names owner n a =
    λ u. (let none_for : n.failover_for ≡ none = a.1 in absurd (ground arith))

other-OnlyBy :
    (specs : List ClusterNode) (p q : ClusterNode)
    → Partner specs p
    → Partner specs q
    → OnlyBy [] p.name (vm_of q)
other-OnlyBy specs p q a b = λ u.
    (let new = a.1 in
      let (r, same_for, (n, found, server)) = b.2 in
      let same : r ≡ p.name = ground arith in
      absurd (
        ground (
          arith,
          by_name-any r specs n found,
          ap (λ x. any (λ (m : ClusterNode). m.name == x) specs) same,
        )))

-- Every node can be destroyed once the partners are gone.
module _ (e : Env) (specs partners : List ClusterNode) (w : World)
    (supported : All (Supported w.vms) w.vms) where
  node-Free :
      (names : List String) (n : ClusterNode)
      → exists n.name w.vms ≡ false
      → validate_vm_name n.name ≡ true
      → All Parsed specs
      → All (λ (p : ClusterNode). OnlyBy names n.name (vm_of p)) partners
      → Free names (create_waves e specs partners w).1.vms n
  node-Free names n new valid parsed only = (
    create_waves-All (OnlyBy names n.name) e specs partners w
        (old_only names n.name w.vms w.vms new supported)
        (All-map Parsed (λ k. OnlyBy names n.name (vm_of k)) (spec_only names n.name) specs parsed)
        only,
    create_waves-All (Sound n.name) e specs partners w (old-Sound n.name w.vms new)
        (All-every (λ k. Sound n.name (vm_of k)) (vm_of-Sound n.name) specs)
        (All-every (λ k. Sound n.name (vm_of k)) (vm_of-Sound n.name) partners),
    validate_vm_name-lookup n.name valid,
  )

  pub specs-Free :
      (ss : List ClusterNode)
      → any (λ (n : ClusterNode). exists n.name w.vms) ss ≡ false
      → All Parsed ss
      → All Parsed specs
      → All (Free (names_of partners) (create_waves e specs partners w).1.vms) ss
  specs-Free [] new a parsed = tt
  specs-Free (n ∷ ns) new (one, rest) parsed = (
    node-Free (names_of partners) n (ground arith) one.0 parsed (
        All-map (λ (p : ClusterNode). contains (names_of partners) p.name ≡ true)
          (λ (p : ClusterNode). OnlyBy (names_of partners) n.name (vm_of p)) (λ p. (λ c. (λ u. c)))
          partners (own_names partners partners (λ k. (λ c. c)))),
    specs-Free ns (ground arith) rest parsed,
  )

  pub partners-Free :
      (ps : List ClusterNode)
      → any (λ (n : ClusterNode). exists n.name w.vms) ps ≡ false
      → All (Partner specs) ps
      → All (Partner specs) partners
      → All Parsed specs
      → All (Free [] (create_waves e specs partners w).1.vms) ps
  partners-Free [] new a all parsed = tt
  partners-Free (p ∷ ps) new (one, rest) all parsed = (
    node-Free [] p (ground arith) one.0 parsed (
        All-map (Partner specs) (λ q. OnlyBy [] p.name (vm_of q))
          (λ q. (λ at_q. other-OnlyBy specs p q one at_q)) partners all),
    partners-Free ps (ground arith) rest all parsed,
  )
