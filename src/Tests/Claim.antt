-- ===== src/Tests/Claim.antt =====
-- Two agent sessions and a user at one claim store.
use mathlib.Core.Bool.{false≢true}
use text.Mathlib.TextEquality.{eq_iff}
use lustre_test_vms.Base.{
  ℕ, zero, suc, String, ◌≡◌, ◌≢◌, refl, ◌↔◌, All, true, false, none, some, List, [], ◌∷◌, string_eq,
  nat_eq,
}
use lustre_test_vms.Result.{ok, err, claim_error, claim_held}
use lustre_test_vms.Owner.{
  Host, delivered, no_such_process, done, current_owner, current_pid, is_session_owner,
}
use lustre_test_vms.Claim.{
  Claim, Store, ready, absent, file, Wish, claim, release, holder, auto_claim, load, live,
  valid_name, read, written, node, missing,
}
use lustre_test_vms.Claim.Exclusion.{
  Call, Outsider, claims, releases, autos, forgets, run-keeps, run,
}
use lustre_test_vms.Claim.Refresh
use lustre_test_vms.Claim.Guard

abbrev session : String → ℕ → Host
session name time = record {
  sudo_user = none;
  login = "dev";
  owner_id = none;
  claude_session = some name;
  owner_pid = none;
  claude_pid = some 42;
  own_pid = 7;
  now = time;
  kill = λ pid. elim pid [ zero ↦ no_such_process | suc _ ↦ delivered ];
  pid_start = λ pid. some "Mon";
  make_dir = done;
  sudo_ready = false;
  sudo_works = false;
}

abbrev pub person : Host
person = record (session "" 100) { claude_session = none }

abbrev plain : Wish
plain = record {
  owner = none;
  pid = none;
  ttl = none;
  tree = some "/src/lustre";
  force = false;
  noninteractive = true;
}

abbrev pub empty : Store
empty = record { dir = missing; nodes = λ vm. absent }

abbrev claim_of_a : Claim
claim_of_a = record {
  vm = "co1";
  owner = "claude:a";
  user = "dev";
  pid = some 42;
  pid_start = some "Mon";
  since = 100;
  expires = none;
  tree = some "/src/lustre";
}

abbrev held_by_a : Store
held_by_a = record { dir = ready; nodes = λ vm. file (written (some claim_of_a)) }

owner_of_a : current_owner (session "a" 100) none ≡ ok "claude:a"
unfolding current_owner string_eq nat_eq
owner_of_a = refl

first_claim : (claim (session "a" 100) plain "co1" empty).0 ≡ ok (claim_of_a, none)
unfolding claim current_owner current_pid live string_eq nat_eq valid_name
first_claim = refl

second_claim : (claim (session "b" 200) plain "co1" held_by_a).0 ≡ err claim_held
unfolding claim current_owner current_pid live string_eq nat_eq valid_name
second_claim = refl

bad_name : (claim (session "b" 200) plain "../etc" held_by_a).0 ≡ err claim_error
unfolding claim current_owner current_pid live string_eq nat_eq valid_name
bad_name = refl

user_is_not_claimed_for : auto_claim person none "co1" empty ≡ (ok none, empty)
unfolding auto_claim current_owner is_session_owner string_eq nat_eq
user_is_not_claimed_for = refl

abbrev agent : String
agent = "agent 7"

other_owner : current_owner (session "b" 200) none ≢ ok "claude:a"
unfolding current_owner string_eq nat_eq
other_owner e = false≢true ((eq_iff "claude:b" "claude:a").1 (cc))

a_is_read : read "co1" (written (some claim_of_a)) ≡ some claim_of_a
unfolding read written
a_is_read = refl

abbrev others : List Call
others =
    claims (session "b" 200) plain "co1"
    ∷ releases (session "b" 200) none false "co1"
    ∷ autos (session "b" 200) none "co1"
    ∷ forgets "co2"
    ∷ []

others_are_outsiders : All (Outsider "co1" claim_of_a) others
unfolding live string_eq nat_eq
others_are_outsiders = (
  λ _. (refl, refl, other_owner),
  (
    λ _. (refl, refl, other_owner),
    (λ _. (refl, other_owner), (λ e. false≢true ((eq_iff "co2" "co1").1 e), tt)),
  ),
)

run-keeps_example : node (run others held_by_a) "co1" ≡ file (written (some claim_of_a))
run-keeps_example =
    run-keeps "co1" claim_of_a (written (some claim_of_a)) a_is_read others held_by_a
      others_are_outsiders refl

abbrev after_first : Store
after_first = (claim (session "a" 100) plain "co1" empty).1

load-claim_example :
    (load "co1" after_first ≡ ok (some claim_of_a))
    × (current_owner (session "a" 100) none ≡ ok "claude:a")
    × (claim_of_a.vm ≡ "co1")
load-claim_example = Refresh.load-claim (session "a" 100) plain "co1" empty first_claim

abbrev later : Wish
later = record plain { ttl = some 60; tree = none }

again :
    (claim (session "a" 150) later "co1" held_by_a).0
    ≡ ok (record claim_of_a { expires = some 210 }, none)
unfolding claim current_owner current_pid live string_eq nat_eq valid_name
again = refl

a_is_loaded : load "co1" held_by_a ≡ ok (some claim_of_a)
unfolding load string_eq nat_eq valid_name written
a_is_loaded = refl

abbrev forced : Wish
forced = record plain { force = true; ttl = some 5 }

abbrev claim_of_b : Claim
claim_of_b = record claim_of_a { owner = "claude:b"; since = 200; expires = some 205 }

taken_over : (claim (session "b" 200) forced "co1" held_by_a).0 ≡ ok (claim_of_b, some claim_of_a)
unfolding claim current_owner current_pid live string_eq nat_eq valid_name
taken_over = refl

dropped : (release (session "a" 300) none false "co1" held_by_a).0 ≡ ok (some claim_of_a)
unfolding release current_owner live string_eq nat_eq valid_name
dropped = refl

claim-holder_example : ((claim (session "b" 200) plain "co1" held_by_a).0 ≡ err claim_held) ↔ (
    (plain.force ≡ false)
    × (Guard.names_holder (holder (session "b" 200) plain.owner "co1" held_by_a) ≡ true))
claim-holder_example = Guard.claim-holder (session "b" 200) plain "co1" held_by_a refl
