-- ===== src/Cluster/Create/Disks.antt =====
-- Which data disks a cluster's creation leaves alone: those that no node's pattern matches.
use lustre_test_vms.Base.{
  ℕ, zero, suc, ◌+◌, String, ◌≡◌, refl, ap, inl, inr, Bool, true, false, not, ◌&&◌, ◌||◌, List, [],
  ◌∷◌, ◌++◌, any, keep, arith, nat_eq, string_eq, Bool-cases,
}
use lustre_test_vms.Result.{Result-cases}
use lustre_test_vms.Qemu.{same_codes}
use lustre_test_vms.Qemu.Identity.{same_codes_sound}
use lustre_test_vms.Vm.Files.{disk_prefix, disk_name, digits, dot_img, ends_img}
use lustre_test_vms.Vm.Files.Created.{strip-append}
use lustre_test_vms.Cluster.Nodes.{ClusterNode, is_partner}
use lustre_test_vms.Cluster.Vms.{
  World, Hands, globs, load, remove_vm, stop_vm, destroy_one, destroy_each, cmd_destroy,
  drop_orphan_clusters, validate_vm_name_for_lookup,
}
use lustre_test_vms.Cluster.Create.{
  Env, numbered, node_disks, create_one, create_wave, create_waves, partners_first, roll_back,
  build,
}

-- Whether a disk is there.
abbrev pub has : List ℕ → List (List ℕ) → Bool
has d ds = any (same_codes d) ds

-- Whether a disk is among those that the patterns of nodes match.
abbrev pub matched : List ClusterNode → List ℕ → Bool
matched ns d = any (λ (n : ClusterNode). globs n.name d) ns

pub has-keep :
    (name : String) (d : List ℕ) (ds : List (List ℕ))
    → has d (keep (λ x. not (globs name x)) ds) ≡ (has d ds && not (globs name d))
has-keep name d [] = refl
has-keep name d (x ∷ ds) = elim (Bool-cases (same_codes d x)) [
  | inl s ↦
      let same : d ≡ x = same_codes_sound d x s in
      elim (Bool-cases (globs name x)) [
        | inl g ↦ ground (arith, has-keep name d ds, ap (globs name) same)
        | inr g ↦ ground (arith, has-keep name d ds, ap (globs name) same)
      ]
  | inr s ↦ elim (Bool-cases (globs name x)) [
    | inl g ↦ ground (arith, has-keep name d ds)
    | inr g ↦ ground (arith, has-keep name d ds)
  ]
]

has-append : (d : List ℕ) (xs ys : List (List ℕ)) → has d (xs ++ ys) ≡ (has d xs || has d ys)
has-append d [] ys = refl
has-append d (x ∷ xs) ys = ground (arith, has-append d xs ys)

ends_img-append : (xs : List ℕ) → ends_img (xs ++ dot_img) ≡ true
unfolding ends_img nat_eq
ends_img-append [] = refl
ends_img-append (x ∷ xs) = ground (arith, ends_img-append xs)

globs-disk_name : (name : String) (n : ℕ) → globs name (disk_name name n) ≡ true
unfolding globs disk_name
globs-disk_name name n =
    ground
      (arith, strip-append (disk_prefix name) (digits n ++ dot_img), ends_img-append (digits n))

numbered-Other :
    (name : String) (n count : ℕ) (d : List ℕ)
    → globs name d ≡ false
    → has d (numbered name n count) ≡ false
unfolding numbered
numbered-Other name n zero d g = refl
numbered-Other name n (suc count) d g = elim (Bool-cases (same_codes d (disk_name name n))) [
  | inl s ↦
      let same : d ≡ disk_name name n = same_codes_sound d (disk_name name n) s in
      absurd (ground (arith, g, ap (globs name) same, globs-disk_name name n))
  | inr s ↦ ground (arith, s, numbered-Other name (suc n) count d g)
]

create_one-disks :
    (e : Env) (n : ClusterNode) (d : List ℕ) (w : World)
    → globs n.name d ≡ false
    → has d (create_one e n w).disks ≡ has d w.disks
unfolding create_one node_disks
create_one-disks e n d w g = ground (
  arith,
  has-append d (node_disks n) w.disks,
  numbered-Other n.name 1 (n.mdt_disks + n.ost_disks) d g,
)

create_wave-disks :
    (e : Env) (ns : List ClusterNode) (d : List ℕ) (w : World)
    → matched ns d ≡ false
    → has d (create_wave e ns w).1.disks ≡ has d w.disks
unfolding create_wave
create_wave-disks e [] d w g = refl
create_wave-disks e (n ∷ ns) d w g =
    ground (arith, create_one-disks e n d w, create_wave-disks e ns d (create_one e n w))

pub any-append {ℓ} :
    {A : Type ℓ} (p : A → Bool) (xs ys : List A) → any p (xs ++ ys) ≡ (any p xs || any p ys)
any-append p [] ys = refl
any-append p (x ∷ xs) ys = ground (arith, any-append p xs ys)

-- The waves leave a disk alone that no node's pattern matches.
pub create_waves-disks :
    (e : Env) (specs partners : List ClusterNode) (d : List ℕ) (w : World)
    → matched (specs ++ partners) d ≡ false
    → has d (create_waves e specs partners w).1.disks ≡ has d w.disks
unfolding create_waves
create_waves-disks e specs partners d w g =
    let both = any-append (λ (n : ClusterNode). globs n.name d) specs partners in
    let first = create_wave-disks e specs d w (ground arith) in
    let second = create_wave-disks e partners d (create_wave e specs w).1 (ground arith) in
    ground (arith, first, second)

destroy_one-disks :
    (e : Hands) (name : String) (d : List ℕ) (w : World)
    → globs name d ≡ false
    → has d (destroy_one e name w).1.disks ≡ has d w.disks
unfolding destroy_one remove_vm
destroy_one-disks e name d w g = elim (Bool-cases (validate_vm_name_for_lookup name)) [
  | inr bad ↦ ground arith
  | inl good ↦ elim (Result-cases (stop_vm e name (load name w.vms))) [
    | inl (_, s) ↦ elim (Bool-cases (e.can_remove name)) [
      | inl c ↦ ground (arith, has-keep name d w.disks)
      | inr c ↦ ground arith
    ]
    | inr (x, s) ↦ ground arith
  ]
]

cmd_destroy-disks :
    (e : Hands) (name : String) (d : List ℕ) (w : World)
    → globs name d ≡ false
    → has d (cmd_destroy e true (name ∷ []) w).1.disks ≡ has d w.disks
unfolding cmd_destroy destroy_each drop_orphan_clusters
cmd_destroy-disks e name d w g = ground (arith, destroy_one-disks e name d w g)

roll_back-Unmatched :
    (e : Hands) (ns : List ClusterNode) (d : List ℕ) (w : World)
    → matched ns d ≡ false
    → has d (roll_back e ns w).disks ≡ has d w.disks
unfolding roll_back
roll_back-Unmatched e [] d w g = refl
roll_back-Unmatched e (n ∷ ns) d w g =
    let rest = roll_back-Unmatched e ns d (cmd_destroy e true (n.name ∷ []) w).1 in
    ground (arith, rest, cmd_destroy-disks e n.name d w)

any-keep :
    (p q : ClusterNode → Bool) (ns : List ClusterNode)
    → any p ns ≡ false
    → any p (keep q ns) ≡ false
any-keep p q [] h = refl
any-keep p q (n ∷ ns) h = elim (Bool-cases (q n)) [
  | inl e ↦ ground (arith, any-keep p q ns)
  | inr e ↦ ground (arith, any-keep p q ns)
]

-- The nodes, or the rollback of them, leave a disk alone that no node's pattern matches.
pub build-disks :
    (e : Env) (name : String) (specs partners : List ClusterNode) (d : List ℕ) (w : World)
    → matched (specs ++ partners) d ≡ false
    → has d (build e name specs partners w).1.disks ≡ has d w.disks
unfolding build
build-disks e name specs partners d w g =
    let made = create_waves-disks e specs partners d w g in
    let ns = specs ++ partners in
    let p : ClusterNode → Bool = λ n. globs n.name d in
    let ordered : matched (partners_first ns) d ≡ false = ground (
      arith,
      any-append p (keep is_partner ns) (keep (λ n. not (is_partner n)) ns),
      any-keep p is_partner ns g,
      any-keep p (λ n. not (is_partner n)) ns g,
    ) in
    let gone =
      roll_back-Unmatched e.hands (partners_first ns) d (create_waves e specs partners w).1
        ordered in
    ground (arith, made, gone)
