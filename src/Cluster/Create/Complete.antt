-- ===== src/Cluster/Create/Complete.antt =====
-- What a creation of a cluster that succeeds has made.
use lustre_test_vms.Base.{
  String, ◌≡◌, ap, sym, ◌∙◌, subst, inl, inr, true, false, some, List, [], ◌∷◌, ◌++◌, map, All,
  arith, nat_eq, string_eq, Bool-cases,
}
use lustre_test_vms.Result.{ok}
use lustre_test_vms.Cluster.Nodes.{ClusterNode, failover_partners}
use lustre_test_vms.Cluster.Osts.Laws.{List-cases}
use lustre_test_vms.Cluster.Vms.{World, members, exists, load_cluster}
use lustre_test_vms.Cluster.Create.{
  Env, is_up, create_one, create_wave, create_waves, with_ip, build, clear_record, parse_specs,
  cmd_cluster_create,
}
use lustre_test_vms.Cluster.Create.Rollback.{create_runs}
use lustre_test_vms.Cluster.Create.Free.{All-map}

exists-grows :
    (e : Env) (n : ClusterNode) (k : String) (w : World)
    → exists k w.vms ≡ true
    → exists k (create_one e n w).vms ≡ true
unfolding create_one
exists-grows e n k w h = ground arith

wave-grows :
    (e : Env) (ns : List ClusterNode) (k : String) (w : World)
    → exists k w.vms ≡ true
    → exists k (create_wave e ns w).1.vms ≡ true
unfolding create_wave
wave-grows e [] k w h = h
wave-grows e (n ∷ ns) k w h =
    let rest = wave-grows e ns k (create_one e n w) (exists-grows e n k w h) in ground (arith, rest)

up_exists :
    (e : Env) (n : ClusterNode) (w : World)
    → is_up (e.outcome n) ≡ true
    → exists n.name (create_one e n w).vms ≡ true
unfolding create_one
up_exists e n w h = ground arith

wave_step :
    (e : Env) (n : ClusterNode) (ns : List ClusterNode) (w : World)
    → is_up (e.outcome n) ≡ true
    → create_wave e (n ∷ ns) w ≡ create_wave e ns (create_one e n w)
unfolding create_wave
wave_step e n ns w good = ground arith

wave_ok :
    (e : Env) (ns : List ClusterNode) (w : World)
    → (create_wave e ns w).0 ≡ []
    → All (λ (n : ClusterNode). exists n.name (create_wave e ns w).1.vms ≡ true) ns
unfolding create_wave
wave_ok e [] w h = tt
wave_ok e (n ∷ ns) w h = elim (Bool-cases (is_up (e.outcome n))) [
  | inr bad ↦ absurd (ground arith)
  | inl good ↦
      let step = wave_step e n ns w good in
      let here = wave-grows e ns n.name (create_one e n w) (up_exists e n w good) in
      let rest = wave_ok e ns (create_one e n w) (sym (ap (λ r. r.0) step) ∙ h) in
      subst (λ r. All (λ (m : ClusterNode). exists m.name r.1.vms ≡ true) (n ∷ ns)) (sym step)
        (here, rest)
]

waves_step :
    (e : Env) (specs partners : List ClusterNode) (w : World)
    → (create_wave e specs w).0 ≡ []
    → create_waves e specs partners w ≡ create_wave e partners (create_wave e specs w).1
unfolding create_waves
waves_step e specs partners w h = ground arith

waves_ok :
    (e : Env) (specs partners : List ClusterNode) (w : World)
    → (create_waves e specs partners w).0 ≡ []
    → All (λ (n : ClusterNode). exists n.name (create_waves e specs partners w).1.vms ≡ true) specs
      × All
          (λ (n : ClusterNode). exists n.name (create_waves e specs partners w).1.vms ≡ true)
          partners
unfolding create_waves
waves_ok e specs partners w h = elim (List-cases (create_wave e specs w).0) [
  | inr (n, ns, z) ↦ absurd (ground arith)
  | inl z ↦
      let step = waves_step e specs partners w z in
      let first = wave_ok e specs w z in
      let second = wave_ok e partners (create_wave e specs w).1 (sym (ap (λ r. r.0) step) ∙ h) in
      let grown =
        All-map (λ (n : ClusterNode). exists n.name (create_wave e specs w).1.vms ≡ true)
          (λ (n : ClusterNode).
            exists n.name (create_wave e partners (create_wave e specs w).1).1.vms ≡ true)
          (λ n. wave-grows e partners n.name (create_wave e specs w).1) specs first in
      let Up : List String × World → Type 0 = λ r.
        All (λ (n : ClusterNode). exists n.name r.1.vms ≡ true) specs
        × All (λ (n : ClusterNode). exists n.name r.1.vms ≡ true) partners in
      subst Up (sym step) (grown, second)
]

build_done :
    (e : Env) (name : String) (specs partners : List ClusterNode) (w : World)
    → (build e name specs partners w).0 ≡ ok tt
    → ((create_waves e specs partners w).0 ≡ [])
      × ((build e name specs partners w).1.vms ≡ (create_waves e specs partners w).1.vms)
      × (load_cluster name (build e name specs partners w).1.clusters
          ≡ some (members (map (with_ip e.ip) (specs ++ partners))))
unfolding build
build_done e name specs partners w h = elim (List-cases (create_waves e specs partners w).0) [
  | inr (n, ns, z) ↦ absurd (ground arith)
  | inl z ↦ (z, ground arith, ground arith)
]

-- A creation that is no dry run and succeeds has read all the nodes and partners; their VMs are there, and
-- the record of the cluster lists them in this order with the addresses of their VMs.
pub cmd_cluster_create-Complete :
    (e : Env) (name : String) (w : World)
    → e.dry_run ≡ false
    → (cmd_cluster_create e name w).0 ≡ ok tt
    → (specs : List ClusterNode) × (partners : List ClusterNode) × (parse_specs e.specs ≡ ok specs)
      × (failover_partners specs [] e.failover ≡ ok partners)
      × All (λ (n : ClusterNode). exists n.name (cmd_cluster_create e name w).1.vms ≡ true) specs
      × All (λ (n : ClusterNode). exists n.name (cmd_cluster_create e name w).1.vms ≡ true) partners
      × (load_cluster name (cmd_cluster_create e name w).1.clusters
          ≡ some (members (map (with_ip e.ip) (specs ++ partners))))
cmd_cluster_create-Complete e name w wet h = elim (create_runs e name w) [
  | inl (_, dry) ↦ absurd (ground (arith, dry h, wet))
  | inr (specs, partners, p, q, good, m, same) ↦
      let cleared = (clear_record name w).1 in
      let (all_up, vms_same, saved) =
        build_done e name specs partners cleared (sym (ap (λ r. r.0) same) ∙ h) in
      let (ss, ps) = waves_ok e specs partners cleared all_up in
      let vms_now : (create_waves e specs partners cleared).1.vms
          ≡ (cmd_cluster_create e name w).1.vms =
        sym (ap (λ r. r.1.vms) same ∙ vms_same) in
      (
        specs,
        partners,
        p,
        q,
        subst (λ vs. All (λ (n : ClusterNode). exists n.name vs ≡ true) specs) vms_now ss,
        subst (λ vs. All (λ (n : ClusterNode). exists n.name vs ≡ true) partners) vms_now ps,
        ap (λ r. load_cluster name r.1.clusters) same ∙ saved,
      )
]
