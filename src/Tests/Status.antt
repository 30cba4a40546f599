-- ===== src/Tests/Status.antt =====
-- An MDT that recovers for three seconds.
use lustre_test_vms.Base.{
  ◌+◌, String, ◌≡◌, refl, true, none, some, List, [], ◌∷◌, ltb, arith, string_eq, nat_eq,
  if◌then◌else◌,
}
use lustre_test_vms.Cluster.Status.{
  Line, Cluster, parse_targets, read_recovery, list_targets, recovery_done, wait_until,
  wait_recovery,
}
use lustre_test_vms.Cluster.Status.Wait.{Answer, Clock, wait_recovery-Answer}

abbrev answer : String → List Line
answer status =
    record { heading = some "lustre-MDT0000"; pair = none }
    ∷ record { heading = none; pair = some ("status", status) }
    ∷ record { heading = none; pair = some ("evicted_clients", "1") }
    ∷ record { heading = none; pair = some ("VBR", "DISABLED") }
    ∷ []

abbrev devices : List (List String)
devices =
    ("0" ∷ "UP" ∷ "mgs" ∷ "MGS" ∷ [])
    ∷ ("3" ∷ "UP" ∷ "mdt" ∷ "lustre-MDT0000" ∷ "uuid" ∷ [])
    ∷ ("4" ∷ "UP" ∷ "osp" ∷ "lustre-OST0000-osc-MDT0000" ∷ [])
    ∷ []

parsed :
    parse_targets devices (answer "COMPLETE")
    ≡ ("MGS", []) ∷ ("lustre-MDT0000", ("status", "COMPLETE") ∷ ("evicted_clients", "1") ∷ []) ∷ []
unfolding parse_targets read_recovery list_targets string_eq
parsed = refl

abbrev recovering : Cluster
recovering = record {
  probe = λ t. parse_targets devices (answer (if ltb t 4 then "RECOVERING" else "COMPLETE")) ∷ [];
  after_probe = λ t. t;
  after_sleep = λ t. λ d. t + d;
}

its_answer :
    wait_recovery recovering 10 2 1 ≡ some (parse_targets devices (answer "COMPLETE") ∷ [], true)
unfolding wait_recovery wait_until recovery_done parse_targets read_recovery list_targets string_eq
    nat_eq
its_answer = refl

forward : Clock recovering
forward = (λ t. omega arith, λ t. (λ d. omega arith))

wait_recovery-Answer_example : Answer recovering 11 1 (wait_recovery recovering 10 2 1)
wait_recovery-Answer_example = wait_recovery-Answer recovering 10 2 1 forward (omega arith)
