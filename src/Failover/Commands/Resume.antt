-- ===== src/Failover/Commands/Resume.antt =====
-- When a failover acts, and how it leaves the nodes.
use lustre_test_vms.Base.{
  String, ◌≡◌, ◌≢◌, sym, ◌∙◌, subst, ◌⊎◌, inl, inr, Bool, true, false, not, ◌&&◌, [], ◌∷◌, any,
  arith, nat_eq, string_eq, Bool-cases,
}
use lustre_test_vms.Result.{ok, Result-cases}
use lustre_test_vms.Owner.{Host}
use lustre_test_vms.Claim.{Store, require_all}
use lustre_test_vms.Failover.{Cluster, Pair, new_pair, active, Active}
use lustre_test_vms.Failover.Commands.{
  How, umount, kill, panic, freeze, split_brain, frozen, thawed, link_down, link_up, report, Report,
  Log, Env, carry_out, cluster_failover, is_freeze, on, split_facets,
}

-- Whether the link of the primary is up, and its QEMU runs, after a log that began so.
abbrev pub is_linked : Log → Bool
is_linked [] = true
is_linked (link_up ∷ log) = true
is_linked (link_down ∷ log) = false
is_linked (_ ∷ log) = is_linked log

abbrev pub is_thawed : Log → Bool
is_thawed [] = true
is_thawed (thawed ∷ log) = true
is_thawed (frozen ∷ log) = false
is_thawed (_ ∷ log) = is_thawed log

abbrev pub Reachable : Log → Type 0
Reachable log = (is_linked log ≡ true) × (is_thawed log ≡ true)

carry_out-Reachable :
    (e : Env) (how : How) (p : Pair) (log : Log) (r : Report) (rest : Log)
    → Reachable log
    → (carry_out e how false p log).1 ≡ report r ∷ rest
    → Reachable (report r ∷ rest)
unfolding carry_out
carry_out-Reachable e umount p log r rest h k = ground arith
carry_out-Reachable e kill p log r rest h k = ground arith
carry_out-Reachable e panic p log r rest h k = ground arith
carry_out-Reachable e freeze p log r rest h k = ground arith
carry_out-Reachable e split_brain p log r rest h k = ground arith

-- A failover acts on the nodes only if no other session holds one of them, the node is the primary of a
-- pair whose nodes and client run, and none of its targets is recorded on the partner.
pub cluster_failover_acts :
    (e : Env) (h : Host) (s : Store) (c : Cluster) (node : String) (how : How) (hold : Bool)
    (log : Log)
    → (cluster_failover e h s c node how hold log).1 ≢ log
    → (require_all h c.nodes s ≡ ok tt)
      × ((p : Pair) × (new_pair c node ≡ ok p)
          × ((rows : Active) × (active p e.before ≡ ok rows) × (any (on p rows) p.facets ≡ false)))
      × (e.primary_runs && (e.partner_runs && e.client_runs) ≡ true)
unfolding cluster_failover
cluster_failover_acts e h s c node how hold log d = ground arith

-- Either nothing was done, or the run went on from the fault.
cluster_failover_runs :
    (e : Env) (h : Host) (s : Store) (c : Cluster) (node : String) (how : How) (hold : Bool)
    (log : Log)
    → (((cluster_failover e h s c node how hold log).1 ≡ log)
        × ((cluster_failover e h s c node how hold log).0 ≢ ok tt))
      ⊎ ((p : Pair) × (new_pair c node ≡ ok p)
          × (cluster_failover e h s c node how hold log ≡ carry_out e how hold p log))
unfolding cluster_failover
cluster_failover_runs e h s c node how hold log = elim (Result-cases (new_pair c node)) [
  | inr (x, n) ↦ inl (ground arith, λ q. ground arith)
  | inl (p, n) ↦ elim (Result-cases (active p e.before)) [
    | inr (x, a) ↦ inl (ground arith, λ q. ground arith)
    | inl (rows, a) ↦ elim (Result-cases (require_all h c.nodes s)) [
      | inr (x, r) ↦ inl (ground arith, λ q. ground arith)
      | inl (u, r) ↦
          elim (Bool-cases (
            not (is_freeze how && e.darwin)
            && (e.primary_runs && (e.partner_runs && e.client_runs))
            && not (any (on p rows) p.facets))) [
              | inl go ↦ inr (p, n, ground arith)
              | inr no_go ↦ inl (ground arith, λ q. ground arith)
            ]
    ]
  ]
]

-- A failover without `hold` that gets to its report leaves the primary with its link up and its QEMU not
-- stopped, if that is how it found it.
pub cluster_failover-Reachable :
    (e : Env) (h : Host) (s : Store) (c : Cluster) (node : String) (how : How) (log : Log)
    (r : Report) (rest : Log)
    → Reachable log
    → (cluster_failover e h s c node how false log).1 ≡ report r ∷ rest
    → Reachable (report r ∷ rest)
cluster_failover-Reachable e h s c node how log r rest up k =
    elim (cluster_failover_runs e h s c node how false log) [
      | inl (q, _) ↦ subst Reachable (sym q ∙ k) up
      | inr (p, _, q) ↦ carry_out-Reachable e how p log r rest up (rw q at k)
    ]

-- The move succeeded; on a split brain, that is that the partner has none of the targets mounted.
abbrev pub Succeeded : Env → How → Pair → Type 0
Succeeded e split_brain p =
    (rows : Active) × (active p e.after ≡ ok rows) × (split_facets p rows ≡ [])
Succeeded e _ p = e.move_rc ≡ 0

carry_out-Succeeded :
    (e : Env) (how : How) (hold : Bool) (p : Pair) (log : Log)
    → (carry_out e how hold p log).0 ≡ ok tt
    → Succeeded e how p
unfolding carry_out
carry_out-Succeeded e umount hold p log k = ground arith
carry_out-Succeeded e kill hold p log k = ground arith
carry_out-Succeeded e panic hold p log k = ground arith
carry_out-Succeeded e freeze hold p log k = ground arith
carry_out-Succeeded e split_brain hold p log k = elim (Result-cases (active p e.after)) [
  | inl (rows, q) ↦ (rows, q, ground arith)
  | inr (x, q) ↦ absurd (ground arith)
]

-- A failover that succeeds moved the targets; on a split brain it means that the partner has none of them
-- mounted.
pub cluster_failover-Succeeded :
    (e : Env) (h : Host) (s : Store) (c : Cluster) (node : String) (how : How) (hold : Bool)
    (log : Log)
    → (cluster_failover e h s c node how hold log).0 ≡ ok tt
    → (p : Pair) × (new_pair c node ≡ ok p) × Succeeded e how p
cluster_failover-Succeeded e h s c node how hold log k =
    elim (cluster_failover_runs e h s c node how hold log) [
      | inl (_, q) ↦ absurd (q k)
      | inr (p, n, q) ↦ (p, n, carry_out-Succeeded e how hold p log (rw q at k))
    ]
