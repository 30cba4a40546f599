-- ===== src/Suite/Status.antt =====
-- `classify`: the state of a run, and the nodes that crashed or do not answer. A dict is the list of
-- its items in order.
pub mod Laws
use lustre_test_vms.Base.{
  ℕ, suc, String, Bool, true, false, not, ◌&&◌, ◌||◌, Option, none, some, List, [], ◌∷◌, map, keep,
  ◌==◌, string_eq, nat_eq, contains, ltb, leb, ◌+◌, ◌-◌, if◌then◌else◌,
}

-- `now - started` may be negative: a time sync can step a guest's clock.
pub data ℤ : Type 0 where
  pos negsuc : ℕ → ℤ

abbrev pub minus : ℕ → ℕ → ℤ
minus a b = if leb b a then pos (a - b) else negsuc (b - a - 1)

abbrev pub below : ℕ → ℤ → Bool
below a (pos b) = ltb a b
below a (negsuc b) = false

pub data State : Type 0 where
  finished running died : State

-- What stands in a run's `done` file, as `_int` reads it: an exit status, or a text that is none.
pub data Code : Type 0 where
  empty unreadable : Code
  code : ℕ → Code

-- One run of `parse_probe`'s output, the key `powered` included.
pub record Run : Type 0 where
  pub id : String
  pub rc : Code
  pub alive : Bool
  pub started : Option ℕ
  pub current : String
  pub boots : List (String × String)
  pub powered : List String

-- `RunStatus`
pub record RunStatus : Type 0 where
  pub run_id : String
  pub state : State
  pub rc : Option ℕ
  pub age : Option ℤ
  pub current : String
  pub rebooted : List String
  pub unreachable : List String

abbrev pub lookup {ℓ} : {A : Type ℓ} → String → List (String × A) → Option A
lookup k [] = none
lookup k ((n, a) ∷ rest) = let found = lookup k rest in if k == n then some a else found

-- `now_ids.get(n) and now_ids[n] != b`
unfoldable pub boot_differs : List (String × Option String) → String × String → Bool
boot_differs ids (n, b) = elim (lookup n ids) [
  | none ↦ false
  | some none ↦ false
  | some (some i) ↦ not (i == "") && not (i == b)
]

abbrev pub names {ℓ} : {A : Type ℓ} → List (String × A) → List String
names xs = map (λ x. x.0) xs

abbrev pub up_less : ℤ → String × Option ℕ → Bool
up_less age (n, none) = false
up_less age (n, some u) = below u age

abbrev pub is_silent : String × Option ℕ → Bool
is_silent (n, none) = true
is_silent (n, some u) = false

-- The state, and the exit status of a run that finished with a readable one.
unfoldable pub state_of : Run → State × Option ℕ
state_of r = elim r.rc [
  | code c ↦ (finished, some c)
  | unreadable ↦ (finished, none)
  | empty ↦ if r.alive then (running, none) else (died, none)
]

abbrev pub is_finished : State → Bool
is_finished finished = true
is_finished _ = false

abbrev pub age_of : Option ℕ → Option ℕ → Option ℤ
age_of (some now) (some started) = some (minus now started)
age_of _ _ = none

-- The nodes that rebooted, those that `ltvm-power` restarted among them: by the boot IDs that the run
-- recorded, or by the uptimes where it recorded none.
unfoldable pub suspects :
    Run → Option ℤ → List (String × Option ℕ) → List (String × Option String) → List String
suspects r age uptimes ids = elim r.boots [
  | [] ↦ elim age [ none ↦ [] | some a ↦ names (keep (up_less a) uptimes) ]
  | b ∷ bs ↦ names (keep (boot_differs ids) (b ∷ bs))
]

-- `classify`
unfoldable pub classify :
    Run → Option ℕ → List (String × Option ℕ) → List (String × Option String) → RunStatus
unfolding state_of suspects boot_differs
classify r now uptimes ids =
    let (state, rc) = state_of r in
    let age = age_of now r.started in
    let rebooted : List String = if is_finished state then [] else suspects r age uptimes ids in
    record {
      run_id = r.id;
      state = state;
      rc = rc;
      age = age;
      current = r.current;
      rebooted = keep (λ n. not (contains r.powered n)) rebooted;
      unreachable = names (keep is_silent uptimes);
    }
