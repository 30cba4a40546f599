-- ===== src/Cluster/Create/Rollback.antt =====
-- What a cluster's creation leaves behind, whether it succeeds or fails.
use lustre_test_vms.Base.{
  ℕ, String, ◌≡◌, ◌≢◌, refl, ap, ◌∙◌, ◌⊎◌, inl, inr, Bool, true, false, not, ◌||◌, none, List, [],
  ◌∷◌, ◌++◌, any, keep, arith, nat_eq, string_eq, contains, ◌==◌, Bool-cases,
}
use lustre_test_vms.Result.{ok, Result-cases}
use lustre_test_vms.Cluster.Nodes.{ClusterNode, failover_partners, validate_vm_name, is_partner}
use lustre_test_vms.Cluster.Vms.{World, Vm, exists, load, Hands, cmd_destroy, names_of}
use lustre_test_vms.Cluster.Vms.Destroy.{cmd_destroy_lem}
use lustre_test_vms.Cluster.Create.Disks.{has, matched, build-disks}
use lustre_test_vms.Cluster.Create.{
  Env, create_one, create_wave, create_waves, partners_first, roll_back, build, is_cluster,
  create_checked, clear_record, parse_specs, require_cluster_memory, has_bad_cache,
  cmd_cluster_create,
}

create_one-Other :
    (e : Env) (n : ClusterNode) (k : String) (w : World)
    → (k == n.name) ≡ false
    → load k (create_one e n w).vms ≡ load k w.vms
unfolding create_one
create_one-Other e n k w h = ground arith

create_wave-Other :
    (e : Env) (ns : List ClusterNode) (k : String) (w : World)
    → contains (names_of ns) k ≡ false
    → load k (create_wave e ns w).1.vms ≡ load k w.vms
unfolding create_wave
create_wave-Other e [] k w h = refl
create_wave-Other e (n ∷ ns) k w h =
    ground (arith, create_one-Other e n k w, create_wave-Other e ns k (create_one e n w))

pub roll_back-Other :
    (e : Hands) (ns : List ClusterNode) (k : String) (w : World)
    → contains (names_of ns) k ≡ false
    → load k (roll_back e ns w).vms ≡ load k w.vms
unfolding roll_back
roll_back-Other e [] k w h = refl
roll_back-Other e (n ∷ ns) k w h =
    let rest = roll_back-Other e ns k (cmd_destroy e true (n.name ∷ []) w).1 in
    let (one, _, _) = cmd_destroy_lem e true (n.name ∷ []) k w in
    rest (ground arith) ∙ one (ground arith)

pub contains-append :
    (xs ys : List ClusterNode) (k : String)
    → contains (names_of (xs ++ ys)) k ≡ (contains (names_of xs) k || contains (names_of ys) k)
contains-append [] ys k = refl
contains-append (x ∷ xs) ys k = ground (arith, contains-append xs ys k)

contains-keep :
    (p : ClusterNode → Bool) (ns : List ClusterNode) (k : String)
    → contains (names_of ns) k ≡ false
    → contains (names_of (keep p ns)) k ≡ false
contains-keep p [] k h = refl
contains-keep p (n ∷ ns) k h = elim (Bool-cases (p n)) [
  | inl e ↦ ground (arith, contains-keep p ns k)
  | inr e ↦ ground (arith, contains-keep p ns k)
]

partners_first-Other :
    (ns : List ClusterNode) (k : String)
    → contains (names_of ns) k ≡ false
    → contains (names_of (partners_first ns)) k ≡ false
partners_first-Other ns k h = ground (
  arith,
  contains-append (keep is_partner ns) (keep (λ n. not (is_partner n)) ns) k,
  contains-keep is_partner ns k h,
  contains-keep (λ n. not (is_partner n)) ns k h,
)

pub create_waves-Other :
    (e : Env) (specs partners : List ClusterNode) (k : String) (w : World)
    → contains (names_of (specs ++ partners)) k ≡ false
    → load k (create_waves e specs partners w).1.vms ≡ load k w.vms
unfolding create_waves
create_waves-Other e specs partners k w h =
    let both = contains-append specs partners k in
    let first = create_wave-Other e specs k w (ground arith) in
    let second = create_wave-Other e partners k (create_wave e specs w).1 (ground arith) in
    ground (arith, first, second)

pub build-Other :
    (e : Env) (name : String) (specs partners : List ClusterNode) (k : String) (w : World)
    → contains (names_of (specs ++ partners)) k ≡ false
    → load k (build e name specs partners w).1.vms ≡ load k w.vms
unfolding build
build-Other e name specs partners k w h =
    let made = create_waves-Other e specs partners k w h in
    let gone =
      roll_back-Other e.hands (partners_first (specs ++ partners)) k
        (create_waves e specs partners w).1 (partners_first-Other (specs ++ partners) k h) in
    ground (arith, made, gone)

pub exists-load : (k : String) (vs : List Vm) → exists k vs ≡ false → load k vs ≡ none
exists-load k [] h = refl
exists-load k (v ∷ vs) h = ground (arith, exists-load k vs)

pub fresh_names :
    (ns : List ClusterNode) (vs : List Vm) (k : String)
    → any (λ (n : ClusterNode). exists n.name vs) ns ≡ false
    → load k vs ≢ none
    → contains (names_of ns) k ≡ false
fresh_names [] vs k h l = refl
fresh_names (n ∷ ns) vs k h l = elim (Bool-cases (k == n.name)) [
  | inl e ↦
      let same : k ≡ n.name = ground arith in
      let unknown : exists n.name vs ≡ false = ground arith in
      absurd (l (ap (λ x. load x vs) same ∙ exists-load n.name vs unknown))
  | inr e ↦ ground (arith, fresh_names ns vs k)
]

pub is_cluster-Fresh :
    (ns : List ClusterNode) (vs : List Vm)
    → is_cluster ns vs ≡ true
    → any (λ (n : ClusterNode). exists n.name vs) ns ≡ false
unfolding is_cluster
is_cluster-Fresh ns vs h = ground arith

-- Either nothing is made, or the nodes are, after all checks.
pub checked_runs :
    (e : Env) (name : String) (specs partners : List ClusterNode) (w : World)
    → ((create_checked e name specs partners w).1 ≡ w
        × ((create_checked e name specs partners w).0 ≡ ok tt → e.dry_run ≡ true))
      ⊎ ((is_cluster (specs ++ partners) w.vms ≡ true)
          × (e.dry_run ≡ false)
          × (require_cluster_memory e.memory (specs ++ partners) ≡ ok tt)
          × (create_checked e name specs partners w ≡ build e name specs partners w))
unfolding create_checked
checked_runs e name specs partners w = elim (Bool-cases (is_cluster (specs ++ partners) w.vms)) [
  | inr bad ↦ inl (ground arith, ground arith)
  | inl good ↦ elim (Result-cases e.targets) [
    | inr (x, t) ↦ inl (ground arith, ground arith)
    | inl (_, t) ↦ elim (Bool-cases (has_bad_cache partners e.disk_cache)) [
      | inl c ↦ inl (ground arith, ground arith)
      | inr c ↦ elim (Result-cases e.options) [
        | inr (x, o) ↦ inl (ground arith, ground arith)
        | inl (_, o) ↦ elim (Bool-cases e.dry_run) [
          | inl d ↦ inl (ground arith, λ _. d)
          | inr d ↦ elim (Result-cases (require_cluster_memory e.memory (specs ++ partners))) [
            | inr (x, m) ↦ inl (ground arith, ground arith)
            | inl (_, m) ↦ inr (good, d, m, ground arith)
          ]
        ]
      ]
    ]
  ]
]

pub clear_record-vms : (name : String) (w : World) → (clear_record name w).1.vms ≡ w.vms
unfolding clear_record
clear_record-vms name w = ground arith

pub clear_record-disks : (name : String) (w : World) → (clear_record name w).1.disks ≡ w.disks
unfolding clear_record
clear_record-disks name w = ground arith

-- Either nothing is made, or the specs and the partners are read and the nodes made.
pub create_runs :
    (e : Env) (name : String) (w : World)
    → (((cmd_cluster_create e name w).1.vms ≡ w.vms
          × (cmd_cluster_create e name w).1.disks ≡ w.disks)
        × ((cmd_cluster_create e name w).0 ≡ ok tt → e.dry_run ≡ true))
      ⊎ ((specs : List ClusterNode) × (partners : List ClusterNode) × (parse_specs e.specs
            ≡ ok specs)
          × (failover_partners specs [] e.failover ≡ ok partners)
          × (is_cluster (specs ++ partners) w.vms ≡ true)
          × (require_cluster_memory e.memory (specs ++ partners) ≡ ok tt)
          × (cmd_cluster_create e name w ≡ build e name specs partners (clear_record name w).1))
unfolding cmd_cluster_create
create_runs e name w = elim (Bool-cases (validate_vm_name name)) [
  | inr bad ↦ inl ((ground arith, ground arith), ground arith)
  | inl good ↦ elim (Result-cases (clear_record name w).0) [
    | inr (x, c) ↦ inl (
      (ground (arith, clear_record-vms name w), ground (arith, clear_record-disks name w)),
      ground arith,
    )
    | inl (_, c) ↦ elim (Result-cases (parse_specs e.specs)) [
      | inr (x, s) ↦ inl (
        (ground (arith, clear_record-vms name w), ground (arith, clear_record-disks name w)),
        ground arith,
      )
      | inl (specs, s) ↦ elim (Result-cases (failover_partners specs [] e.failover)) [
        | inr (x, p) ↦ inl (
          (ground (arith, clear_record-vms name w), ground (arith, clear_record-disks name w)),
          ground arith,
        )
        | inl (partners, p) ↦ elim (checked_runs e name specs partners (clear_record name w).1) [
          | inl (same, dry) ↦ inl (
            (
              ground (arith, same, clear_record-vms name w),
              ground (arith, same, clear_record-disks name w),
            ),
            ground (arith, dry),
          )
          | inr (good_names, d, m, same) ↦ inr (
            specs,
            partners,
            s,
            p,
            ground (arith, good_names, clear_record-vms name w),
            m,
            ground arith,
          )
        ]
      ]
    ]
  ]
]

-- Whatever becomes of a creation, each VM that was there before is there after it, with the same `.info`
-- file, and so is each data disk among the overlays that `<node>-disk*.img` matches for no node; a disk that
-- a pattern matches may be another VM's, and a rollback takes it.
pub cmd_cluster_create-Existing :
    (e : Env) (name k : String) (d : List ℕ) (w : World)
    → load k w.vms ≢ none
    → ((specs partners : List ClusterNode)
        → parse_specs e.specs ≡ ok specs
        → failover_partners specs [] e.failover ≡ ok partners
        → matched (specs ++ partners) d ≡ false)
    → (load k (cmd_cluster_create e name w).1.vms ≡ load k w.vms)
      × (has d (cmd_cluster_create e name w).1.disks ≡ has d w.disks)
cmd_cluster_create-Existing e name k d w l unmatched = elim (create_runs e name w) [
  | inl ((same, same_disks), _) ↦ (ap (load k) same, ap (has d) same_disks)
  | inr (specs, partners, s, p, good, m, same) ↦
      let new =
        fresh_names (specs ++ partners) w.vms k (is_cluster-Fresh (specs ++ partners) w.vms good)
          l in
      (
        ap (λ r. load k r.1.vms) same
            ∙ build-Other e name specs partners k (clear_record name w).1 new
            ∙ ap (load k) (clear_record-vms name w),
        ap (λ r. has d r.1.disks) same
            ∙ build-disks e name specs partners d (clear_record name w).1
                (unmatched specs partners s p)
            ∙ ap (has d) (clear_record-disks name w),
      )
]
