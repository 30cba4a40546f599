-- ===== src/Cluster/Vms/Destroy.antt =====
-- What destroying VMs and clusters leaves behind.
use lustre_test_vms.Base.{
  String, ◌≡◌, ◌≢◌, refl, sym, ◌∙◌, ◌⊎◌, inl, inr, Bool, true, false, none, some, List, [], ◌∷◌,
  any, arith, nat_eq, string_eq, contains, ◌==◌, Bool-cases, if◌then◌else◌,
}
use lustre_test_vms.Result.{Result, ok, err, exit, Done, Result-cases}
use lustre_test_vms.Cluster.Nodes.{ClusterNode}
use lustre_test_vms.Cluster.Vms.{
  info, Vm, Record, members, World, Hands, load, without, load_cluster, drop_cluster, uses,
  refuse_orphaned_partners, stop_vm, remove_vm, destroy_one, destroy_each, cmd_destroy,
  drop_orphan_clusters, names_of, cluster_destroy_one, validate_vm_name_for_lookup,
}

pub load-without :
    (k name : String) (vs : List Vm)
    → load k (without name vs) ≡ (if k == name then none else load k vs)
load-without k name [] = ground arith
load-without k name (v ∷ vs) = elim (Bool-cases (v.name == name)) [
  | inl e ↦ ground (arith, load-without k name vs)
  | inr e ↦ ground (arith, load-without k name vs)
]

pub destroy_one-load :
    (e : Hands) (name k : String) (w : World)
    → (((destroy_one e name w).0 ≡ ok tt)
        × (load k (destroy_one e name w).1.vms ≡ (if k == name then none else load k w.vms)))
      ⊎ (((destroy_one e name w).0 ≡ ok tt → e.can_remove name ≡ false)
          × ((destroy_one e name w).1 ≡ w))
unfolding destroy_one remove_vm
destroy_one-load e name k w = elim (Bool-cases (validate_vm_name_for_lookup name)) [
  | inr bad ↦ inr (λ h. absurd (ground arith), ground arith)
  | inl good ↦ elim (Result-cases (stop_vm e name (load name w.vms))) [
    | inl (_, s) ↦ elim (Bool-cases (e.can_remove name)) [
      | inl c ↦ inl (ground arith, ground (arith, load-without k name w.vms))
      | inr c ↦ inr (λ h. c, ground arith)
    ]
    | inr (x, s) ↦ inr (λ h. absurd (ground arith), ground arith)
  ]
]

-- Files can be removed.
abbrev pub Removing : Hands → Type 0
Removing e = (name : String) → e.can_remove name ≡ true

-- A VM that is not named stays as it is.
pub destroy_each-Other :
    (e : Hands) (names : List String) (k : String) (w : World)
    → contains names k ≡ false
    → load k (destroy_each e names w).1.vms ≡ load k w.vms
unfolding destroy_each
destroy_each-Other e [] k w n = refl
destroy_each-Other e (name ∷ names) k w n =
    let later = destroy_each-Other e names k (destroy_one e name w).1 (ground arith) in
    ground (arith, later, destroy_one-load e name k w)

pub destroy_each-Named :
    (e : Hands) (names : List String) (k : String) (w : World)
    → Removing e
    → (destroy_each e names w).0 ≡ ok tt
    → load k (destroy_each e names w).1.vms ≡ (if contains names k then none else load k w.vms)
unfolding destroy_each
destroy_each-Named e [] k w a h = refl
destroy_each-Named e (name ∷ names) k w a h = elim (Result-cases (destroy_one e name w).0) [
  | inl (_, s) ↦
      let rest : (destroy_each e names (destroy_one e name w).1).0 ≡ ok tt = ground arith in
      let later = destroy_each-Named e names k (destroy_one e name w).1 a rest in
      ground (arith, later, destroy_one-load e name k w, a name)
  | inr (x, s) ↦ absurd (ground arith)
]

drop-vms : (names : List String) (w : World) → (drop_orphan_clusters names w).vms ≡ w.vms
unfolding drop_orphan_clusters
drop-vms names w = refl

cmd_destroy-Other :
    (e : Hands) (drop : Bool) (names : List String) (k : String) (w : World)
    → contains names k ≡ false
    → load k (cmd_destroy e drop names w).1.vms ≡ load k w.vms
unfolding cmd_destroy
cmd_destroy-Other e drop names k w n =
    ground (arith, destroy_each-Other e names k w n, drop-vms names (destroy_each e names w).1)

cmd_destroy-Named :
    (e : Hands) (drop : Bool) (names : List String) (k : String) (w : World)
    → Removing e
    → (cmd_destroy e drop names w).0 ≡ ok tt
    → load k (cmd_destroy e drop names w).1.vms ≡ (if contains names k then none else load k w.vms)
unfolding cmd_destroy
cmd_destroy-Named e drop names k w a h = elim (Result-cases (refuse_orphaned_partners names w)) [
  | inr (x, r) ↦ absurd (ground arith)
  | inl (_, r) ↦ elim (Result-cases (destroy_each e names w).0) [
    | inr (x, s) ↦ absurd (ground arith)
    | inl (_, s) ↦
        ground
          (arith, destroy_each-Named e names k w a s, drop-vms names (destroy_each e names w).1)
  ]
]

-- A destroy never touches a VM that it does not name, whatever its outcome; if it succeeds and files can be
-- removed, every VM that it names is gone; and if a VM that is not named uses the disks of a named one, nothing changes.
pub cmd_destroy_lem :
    (e : Hands) (drop : Bool) (names : List String) (k : String) (w : World)
    → (contains names k ≡ false → load k (cmd_destroy e drop names w).1.vms ≡ load k w.vms)
      × (Removing e
          → (cmd_destroy e drop names w).0 ≡ ok tt
          → contains names k ≡ true
          → load k (cmd_destroy e drop names w).1.vms ≡ none)
      × (any (uses names) w.vms ≡ true → cmd_destroy e drop names w ≡ (err exit, w))
unfolding cmd_destroy refuse_orphaned_partners
cmd_destroy_lem e drop names k w = (
  cmd_destroy-Other e drop names k w,
  λ a h. (λ n. ground (arith, cmd_destroy-Named e drop names k w a h)),
  λ u. ground arith,
)

uses-load :
    (names : List String) (k : String) (vs : List Vm) (owner : String)
    → any (uses names) vs ≡ false
    → contains names k ≡ false
    → load k vs ≡ some (info (some owner))
    → contains names owner ≡ false
uses-load names k [] owner u n l = absurd (ground arith)
uses-load names k (v ∷ vs) owner u n l = elim (Bool-cases (v.name == k)) [
  | inl e ↦ elim (Bool-cases (contains names owner)) [
    | inr out ↦ out
    | inl within ↦
        let same : v.info_file ≡ info (some owner) = ground arith in
        let stays : contains names v.name ≡ false = ground arith in
        absurd (ground (arith, same, stays, within, u))
  ]
  | inr e ↦ uses-load names k vs owner (ground arith) n (ground arith)
]

not_used :
    (e : Hands) (drop : Bool) (names : List String) (w : World)
    → (cmd_destroy e drop names w).0 ≡ ok tt
    → any (uses names) w.vms ≡ false
unfolding cmd_destroy refuse_orphaned_partners
not_used e drop names w h = elim (Bool-cases (any (uses names) w.vms)) [
  | inl u ↦ absurd (ground arith)
  | inr u ↦ u
]

-- The disks of every VM are there: the VM whose disks it uses has not been destroyed.
abbrev pub Backed : List Vm → Type 0
Backed vs = (k owner : String) → load k vs ≡ some (info (some owner)) → load owner vs ≢ none

-- Where files can be removed, a destroy that succeeds keeps every VM backed that stays.
pub cmd_destroy-Backed :
    (e : Hands) (drop : Bool) (names : List String) (w : World)
    → Removing e
    → Backed w.vms
    → (cmd_destroy e drop names w).0 ≡ ok tt
    → Backed (cmd_destroy e drop names w).1.vms
cmd_destroy-Backed e drop names w a b h k owner l =
    let at_k = cmd_destroy-Named e drop names k w a h in
    let stays : contains names k ≡ false = ground arith in
    let before : load k w.vms ≡ some (info (some owner)) = ground arith in
    let free : contains names owner ≡ false =
      uses-load names k w.vms owner (not_used e drop names w h) stays before in
    λ gone. b k owner before (sym (cmd_destroy-Other e drop names owner w free) ∙ gone)

load-drop_cluster :
    (k name : String) (rs : List (String × Record))
    → load_cluster k (drop_cluster name rs) ≡ (if k == name then none else load_cluster k rs)
load-drop_cluster k name [] = ground arith
load-drop_cluster k name ((n, r) ∷ rs) = elim (Bool-cases (n == name)) [
  | inl e ↦ ground (arith, load-drop_cluster k name rs)
  | inr e ↦ ground (arith, load-drop_cluster k name rs)
]

-- `drop=False` leaves the records alone.
destroy_each-clusters :
    (e : Hands) (names : List String) (w : World) → (destroy_each e names w).1.clusters ≡ w.clusters
unfolding destroy_each destroy_one remove_vm
destroy_each-clusters e [] w = refl
destroy_each-clusters e (name ∷ names) w =
    ground (arith, destroy_each-clusters e names (destroy_one e name w).1)

cmd_destroy-clusters :
    (e : Hands) (names : List String) (w : World)
    → (cmd_destroy e false names w).1.clusters ≡ w.clusters
unfolding cmd_destroy
cmd_destroy-clusters e names w = ground (arith, destroy_each-clusters e names w)

-- Where files can be removed, a destroy of a cluster that succeeds leaves no VM of its nodes and no record of it, and every other VM
-- and record as it was.
pub cluster_destroy_one_lem :
    (e : Hands) (allowed : List String → Result Done) (name : String) (ns : List ClusterNode)
    (k : String) (w : World)
    → Removing e
    → load_cluster name w.clusters ≡ some (members ns)
    → (cluster_destroy_one e allowed name w).0 ≡ ok tt
    → (load k (cluster_destroy_one e allowed name w).1.vms
        ≡ (if contains (names_of ns) k then none else load k w.vms))
      × (load_cluster k (cluster_destroy_one e allowed name w).1.clusters
          ≡ (if k == name then none else load_cluster k w.clusters))
unfolding cluster_destroy_one
cluster_destroy_one_lem e allowed name ns k w c r h = elim (Result-cases (allowed (names_of ns))) [
  | inr (x, a) ↦ absurd (ground arith)
  | inl (_, a) ↦ elim (Result-cases (cmd_destroy e false (names_of ns) w).0) [
    | inr (x, d) ↦ absurd (ground arith)
    | inl (_, d) ↦ (
      ground (arith, cmd_destroy-Named e false (names_of ns) k w c d),
      ground (
        arith,
        cmd_destroy-clusters e (names_of ns) w,
        load-drop_cluster k name (cmd_destroy e false (names_of ns) w).1.clusters,
      ),
    )
  ]
]
