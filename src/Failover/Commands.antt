-- ===== src/Failover/Commands.antt =====
-- `cmd_cluster_failover` and `cmd_cluster_failback` of ltvm_pkg/cluster_failover.py. A run's state is the
-- log of what it did to the nodes, the newest first.
pub mod Resume
pub mod Back
use lustre_test_vms.Base.{
  ℕ, String, Bool, true, false, not, ◌&&◌, ◌||◌, Option, none, some, List, [], ◌∷◌, ◌++◌, map, any,
  keep, ◌==◌, string_eq, nat_eq, if◌then◌else◌,
}
use lustre_test_vms.Result.{
  Result, ok, err, exit, Err, Action, Done, pure, raise, lift, ◌>>=◌, ◌>>◌,
}
use lustre_test_vms.Owner.{Host}
use lustre_test_vms.Claim.{Store, require_all}
use lustre_test_vms.Failover.{Cluster, Pair, Answer, Active, lookup, new_pair, active}

pub data How : Type 0 where
  umount kill panic freeze split_brain : How

pub record Report : Type 0 where
  pub rc : ℕ
  pub facets : List String
  pub split : Option (List String)
  pub resumed : Bool

pub data Event : Type 0 where
  stop move start drop : List String → Event
  killed panicked frozen thawed link_down link_up booted : Event
  report : Report → Event

abbrev pub Log : Type 0
Log = List Event

-- What the run meets: which nodes run, what the framework answers, and which steps succeed.
pub record Env : Type 0 where
  pub darwin : Bool
  pub primary_runs : Bool
  pub partner_runs : Bool
  pub client_runs : Bool
  pub before : Answer
  pub after : Answer
  pub stop_rc : ℕ
  pub move_rc : ℕ
  pub start_rc : ℕ
  pub drop_rc : ℕ
  pub kill_sent : Bool
  pub stop_sent : Bool
  pub cont_sent : Bool
  pub link_down_ok : Bool
  pub link_up_ok : Bool
  pub boots : Bool
  pub answers_ssh : Bool

abbrev pub note : Event → Action Log Done
note e log = (ok tt, e ∷ log)

abbrev pub unless : Bool → Action Log Done
unless true log = (ok tt, log)
unless false log = (err exit, log)

-- `_qmp(vm, "set_link", up=...)`
abbrev set_link : Env → Bool → Action Log Done
set_link e true = do unless e.link_up_ok; note link_up
set_link e false = do unless e.link_down_ok; note link_down

-- A SIGSTOP that cannot be sent puts the link back up first.
abbrev pub frozen_or_back : Env → Action Log Done
frozen_or_back e log = if e.stop_sent then note frozen log else (set_link e true >> raise exit) log

-- `_fault`
unfoldable pub fault : Env → How → Pair → Action Log Done
fault e umount p = do note (stop p.facets); unless (e.stop_rc == 0)
fault e kill p = do unless e.kill_sent; note killed
fault e panic p = note panicked
fault e freeze p = do set_link e false; frozen_or_back e
fault e split_brain p = set_link e false

-- `_resume`
unfoldable pub resume : Env → How → Action Log Done
resume e freeze = do unless e.cont_sent; note thawed; set_link e true
resume e _ = set_link e true

abbrev pub on : Pair → Active → String → Bool
on p rows f = elim (lookup f rows) [ none ↦ false | some at ↦ at.host == p.partner ]

abbrev pub mounted_on : String → Active → String → Bool
mounted_on node rows f = elim (lookup f rows) [
  | none ↦ false
  | some at ↦ at.host == node && at.state == "mounted"
]

-- The facets that the partner mounted while the primary runs.
unfoldable pub split_facets : Pair → Active → List String
split_facets p rows = keep (mounted_on p.partner rows) p.facets

abbrev some_rc : List String → ℕ
some_rc [] = 0
some_rc (f ∷ fs) = 1

-- The verdict on a move: on a split brain the expected result is a refusal.
unfoldable pub verdict : Env → How → Pair → Result (ℕ × Option (List String))
verdict e split_brain p =
    if e.move_rc == 124 then ok (e.move_rc, none) else elim (active p e.after) [
      | err x ↦ err x
      | ok rows ↦ ok (some_rc (split_facets p rows), some (split_facets p rows))
    ]
verdict e _ p = ok (e.move_rc, none)

abbrev pub leaves_resumable : How → Bool
leaves_resumable freeze = true
leaves_resumable split_brain = true
leaves_resumable _ = false

abbrev resume_if : Bool → Env → How → Action Log Done
resume_if true e how = resume e how
resume_if false e how = pure tt

-- From the fault on.
unfoldable pub carry_out : Env → How → Bool → Pair → Action Log Done
unfolding fault resume verdict
carry_out e how hold p = do
  fault e how p
  note (move p.facets)
  (rc, split) ← lift (verdict e how p)
  let resumes = leaves_resumable how && not hold
  resume_if resumes e how
  note (report (record { rc = rc; facets = p.facets; split = split; resumed = resumes }))
  unless (rc == 0)

abbrev is_freeze : How → Bool
is_freeze freeze = true
is_freeze _ = false

-- `cmd_cluster_failover`
unfoldable pub cluster_failover :
    Env → Host → Store → Cluster → String → How → Bool → Action Log Done
unfolding carry_out
cluster_failover e h s c node how hold = do
  unless (not (is_freeze how && e.darwin))
  lift (require_all h c.nodes s)
  p ← lift (new_pair c node)
  unless (e.primary_runs && (e.partner_runs && e.client_runs))
  rows ← lift (active p e.before)
  unless (not (any (on p rows) p.facets))
  carry_out e how hold p

-- `_unfault`
unfoldable pub unfault : Env → Action Log Done
unfolding resume
unfault e = do
  if e.primary_runs then resume e freeze else (do unless e.boots; note booted)
  unless e.answers_ssh

abbrev pub unmounted_home : Pair → Active → String → Bool
unmounted_home p rows f = elim (lookup f rows) [
  | none ↦ false
  | some at ↦ at.host == p.primary && at.state == "unmounted"
]

-- The loop over stop, move and start; only a failed stop ends it. The result is the last failed status.
start_round : Env → List String → ℕ → Action Log ℕ
start_round e [] rc = pure rc
start_round e (f ∷ fs) rc = do
  note (start (f ∷ fs))
  pure (if e.start_rc == 0 then rc else e.start_rc)

unfoldable pub rounds : Env → List String → List String → Action Log ℕ
unfolding start_round
rounds e [] remount = start_round e remount 0
rounds e (f ∷ fs) remount = do
  note (stop (f ∷ fs))
  if e.stop_rc == 0
      then (do note (move (f ∷ fs)); start_round e remount e.move_rc)
      else pure e.stop_rc

-- What the primary may still hold is dropped before anything moves to it.
drop_lost : Env → List String → Action Log Done
drop_lost e [] = pure tt
drop_lost e (f ∷ fs) = do note (drop (f ∷ fs)); unless (e.drop_rc == 0)

unfoldable pub put_back : Env → List String → List String → Action Log Done
unfolding drop_lost rounds
put_back e [] [] = pure tt
put_back e back remount = do
  drop_lost e back
  rc ← rounds e back remount
  note (report (record { rc = rc; facets = back ++ remount; split = none; resumed = false }))
  unless (rc == 0)

-- `cmd_cluster_failback`
unfoldable pub cluster_failback : Env → Host → Store → Cluster → String → Action Log Done
unfolding unfault put_back
cluster_failback e h s c node = do
  lift (require_all h c.nodes s)
  p ← lift (new_pair c node)
  unless (e.partner_runs && e.client_runs)
  unfault e
  rows ← lift (active p e.before)
  put_back e (keep (on p rows) p.facets) (keep (unmounted_home p rows) p.facets)
