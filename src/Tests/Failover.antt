-- ===== src/Tests/Failover.antt =====
-- A pair of metadata servers with one client.
use lustre_test_vms.Base.{
  String, ◌≡◌, ◌≢◌, refl, true, false, none, [], ◌∷◌, All, any, string_eq, nat_eq,
}
use lustre_test_vms.Result.{ok, err, exit}
use lustre_test_vms.Owner.{current_owner}
use lustre_test_vms.Claim.{require_all, holder, valid_name}
use lustre_test_vms.Failover.{
  Cluster, Pair, Answer, Active, new_pair, active, node_facets, add_rows, moved_from, moved_facets,
  require_no_moved_facets,
}
use lustre_test_vms.Failover.Commands.{
  freeze, split_brain, Log, Report, Env, stop, move, drop, frozen, thawed, link_down, link_up,
  report, cluster_failover, cluster_failback, on, split_facets,
}
use lustre_test_vms.Failover.Commands.Resume.{Reachable, cluster_failover-Reachable}
use lustre_test_vms.Failover.Commands.Back.{Fits, cluster_failback-Fits}
use lustre_test_vms.Tests.Claim.{person, empty}

abbrev cluster : Cluster
cluster = record {
  nodes = "mds1" ∷ "mds2" ∷ "c1" ∷ [];
  partners = ("mds1", "mds2") ∷ [];
  hosts = ("mgs", "mds1") ∷ ("mds1", "mds1") ∷ ("mds2", "mds1") ∷ [];
  separate_mgs = false;
  clients = "c1" ∷ [];
}

abbrev pair : Pair
pair = record { primary = "mds1"; partner = "mds2"; facets = "mds1" ∷ "mds2" ∷ []; client = "c1" }

its_pair : new_pair cluster "mds1" ≡ ok pair
unfolding new_pair node_facets string_eq
its_pair = refl

abbrev answer : String → String → String → String → Answer
answer h1 s1 h2 s2 = record {
  rc = 0;
  rows = ("warning" ∷ []) ∷ ("mds1" ∷ h1 ∷ s1 ∷ []) ∷ ("mds2" ∷ h2 ∷ s2 ∷ []) ∷ [];
}

abbrev home : Answer
home = answer "mds1" "mounted" "mds1" "mounted"

abbrev env : Env
env = record {
  darwin = false;
  primary_runs = true;
  partner_runs = true;
  client_runs = true;
  before = home;
  after = home;
  stop_rc = 0;
  move_rc = 0;
  start_rc = 0;
  drop_rc = 0;
  kill_sent = true;
  stop_sent = true;
  cont_sent = true;
  link_down_ok = true;
  link_up_ok = true;
  boots = true;
  answers_ssh = true;
}

abbrev done : Report
done = record { rc = 0; facets = "mds1" ∷ "mds2" ∷ []; split = none; resumed = true }

abbrev so_far : Log
so_far = link_up ∷ thawed ∷ move ("mds1" ∷ "mds2" ∷ []) ∷ frozen ∷ link_down ∷ []

failed_over :
    cluster_failover env person empty cluster "mds1" freeze false [] ≡ (ok tt, report done ∷ so_far)
unfolding cluster_failover require_all current_owner holder string_eq nat_eq valid_name new_pair
    node_facets active add_rows
failed_over = refl

changed : (cluster_failover env person empty cluster "mds1" freeze false []).1 ≢ []
changed = rw failed_over (λ h. cc)

cluster_failover-Reachable_example : Reachable (report done ∷ so_far)
cluster_failover-Reachable_example =
    cluster_failover-Reachable env person empty cluster "mds1" freeze [] done so_far (refl, refl)
      (λ i. (failed_over i).1)

abbrev split_env : Env
split_env = record env { move_rc = 1 }

refused : (cluster_failover split_env person empty cluster "mds1" split_brain false []).0 ≡ ok tt
unfolding cluster_failover require_all current_owner holder string_eq nat_eq valid_name new_pair
    node_facets active add_rows split_facets
refused = refl

-- One target is on the partner, and cannot be stopped there.
abbrev away : Answer
away = answer "mds2" "mounted" "mds1" "unmounted"

abbrev rows : Active
rows =
    ("mds1", record { host = "mds2"; state = "mounted" })
    ∷ ("mds2", record { host = "mds1"; state = "unmounted" })
    ∷ []

abbrev stuck_env : Env
stuck_env = record env { before = away; stop_rc = 5 }

its_rows : active pair away ≡ ok rows
unfolding active add_rows string_eq nat_eq
its_rows = refl

one_away : any (on pair rows) pair.facets ≡ true
unfolding string_eq
one_away = refl

abbrev failed_back : Log
failed_back =
    report (record { rc = 5; facets = "mds1" ∷ "mds2" ∷ []; split = none; resumed = false })
    ∷ stop ("mds1" ∷ [])
    ∷ drop ("mds1" ∷ [])
    ∷ link_up
    ∷ thawed
    ∷ []

back : cluster_failback stuck_env person empty cluster "mds1" [] ≡ (err exit, failed_back)
unfolding cluster_failback require_all current_owner holder string_eq nat_eq valid_name new_pair
    node_facets active add_rows
back = refl

cluster_failback-Fits_example :
    All (Fits pair rows) (cluster_failback stuck_env person empty cluster "mds1" []).1
cluster_failback-Fits_example =
    cluster_failback-Fits stuck_env person empty cluster "mds1" pair rows its_pair its_rows

passes :
    require_no_moved_facets cluster (λ node. answer "mds2" "unmounted" "mds1" "mounted") ≡ ok tt
unfolding require_no_moved_facets moved_facets moved_from new_pair node_facets active add_rows
    string_eq nat_eq
passes = refl
