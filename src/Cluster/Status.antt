-- ===== src/Cluster/Status.antt =====
-- `parse_targets`, `recovery_done` and `wait_recovery` of ltvm_pkg/cluster_lustre_state.py. A line of
-- recovery_status is what the regular expression and the partition at ": " make of it.
pub mod Wait
use lustre_test_vms.Base.{
  ℕ, zero, suc, ◌+◌, ◌-◌, min, String, Bool, true, false, not, ◌&&◌, ◌||◌, Option, none, some, List,
  [], ◌∷◌, ◌++◌, any, ◌==◌, string_eq, nat_eq, contains, ltb, leb, if◌then◌else◌,
}

-- A line begins the status of a target (`heading`), and it may have a key and a value.
pub record Line : Type 0 where
  pub heading : Option String
  pub pair : Option (String × String)

abbrev pub Status : Type 0
Status = List (String × String)

abbrev recovery_keys : List String
recovery_keys =
    "status" ∷ "connected_clients" ∷ "completed_clients" ∷ "evicted_clients" ∷ "time_remaining"
    ∷ "recovery_duration" ∷ []

abbrev pub find {ℓ} : {A : Type ℓ} → String → List (String × A) → Option A
find k [] = none
find k ((n, a) ∷ rest) = let later = find k rest in if n == k then some a else later

-- The entry of a key, where it is in the dict and else at its end.
abbrev pub set_key {ℓ} : {A : Type ℓ} → String → A → List (String × A) → List (String × A)
set_key k a [] = (k, a) ∷ []
set_key k a ((n, b) ∷ rest) =
    let later = set_key k a rest in if n == k then (n, a) ∷ rest else (n, b) ∷ later

abbrev pub or_empty : Option Status → Status
or_empty none = []
or_empty (some s) = s

-- `status.setdefault`
abbrev pub begin_status : Option String → List (String × Status) → List (String × Status)
begin_status none found = found
begin_status (some name) found = set_key name (or_empty (find name found)) found

abbrev pub current_of : Option String → Option String → Option String
current_of none current = current
current_of (some name) current = some name

put_pair :
    Option String → Option (String × String) → List (String × Status) → List (String × Status)
put_pair none pair found = found
put_pair (some name) none found = found
put_pair (some name) (some (key, value)) found =
    if contains recovery_keys key
    then set_key name (set_key key value (or_empty (find name found))) found
    else found

-- The loop over the lines of recovery_status.
unfoldable pub read_recovery :
    Option String → List (String × Status) → List Line → List (String × Status)
unfolding put_pair
read_recovery current found [] = found
read_recovery current found (l ∷ ls) =
    read_recovery (current_of l.heading current)
      (put_pair (current_of l.heading current) l.pair (begin_status l.heading found)) ls

-- The words of a line of `lctl dl` that names a target.
abbrev pub target_of : List String → Option String
target_of (a ∷ b ∷ type ∷ name ∷ more) =
    if type == "mgs" || (type == "mdt" || type == "obdfilter") then some name else none
target_of _ = none

unfoldable pub list_targets : List (String × Status) → List (List String) → List (String × Status)
list_targets found [] = []
list_targets found (words ∷ dl) =
    let rest = list_targets found dl in
    elim (target_of words) [ none ↦ rest | some name ↦ (name, or_empty (find name found)) ∷ rest ]

-- `parse_targets`
unfoldable pub parse_targets : List (List String) → List Line → List (String × Status)
parse_targets dl recovery = list_targets (read_recovery none [] recovery) dl

-- The targets of one node that answers.
abbrev pub Row : Type 0
Row = List (String × Status)

abbrev pub is_over : String × Status → Bool
is_over (name, status) = elim (find "status" status) [
  | none ↦ true
  | some s ↦ s == "" || (s == "COMPLETE" || s == "INACTIVE")
]

-- `recovery_done`
unfoldable pub recovery_done : List Row → Bool
recovery_done rows = not (any (any (λ t. not (is_over t))) rows)

-- What `lustre_state` finds at a probe, the time after it, and the time after a sleep that begins at a
-- time and is to last for so long.
pub record Cluster : Type 0 where
  pub probe : ℕ → List Row
  pub after_probe : ℕ → ℕ
  pub after_sleep : ℕ → ℕ → ℕ

-- `wait_recovery`, for so many turns at most: the probe that is made at `now`, and the sleep after it.
unfoldable pub wait_until : Cluster → ℕ → ℕ → ℕ → ℕ → Option (List Row × Bool)
wait_until c deadline interval zero now = none
wait_until c deadline interval (suc turns) now =
    let later =
      wait_until c deadline interval turns
        (c.after_sleep (c.after_probe now) (min interval (deadline - c.after_probe now))) in
    if recovery_done (c.probe now)
    then some (c.probe now, true)
    else if leb deadline (c.after_probe now)
    then some (c.probe now, false)
    else later

unfoldable pub wait_recovery : Cluster → ℕ → ℕ → ℕ → Option (List Row × Bool)
wait_recovery c timeout interval now = wait_until c (now + timeout) interval (suc (suc timeout)) now
