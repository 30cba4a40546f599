-- ===== src/Suite/Results.antt =====
-- `parse_results` and `summarize`: the suites in results files, each with its subtests, and the
-- counts. A line is what the three regular expressions make of it; `_clean` is done. The subtests are
-- objects that `cur` and `waiting` share with the suite, so both hold places in its list.
pub mod Laws
pub mod Names
pub mod Verdict
use lustre_test_vms.Base.{
  ℕ, zero, suc, ◌+◌, String, Bool, true, false, not, ◌&&◌, ◌||◌, Option, none, some, List, [], ◌∷◌,
  ◌++◌, map, length, ◌==◌, string_eq, if◌then◌else◌,
}
use lustre_test_vms.Suite.Status.{RunStatus, is_finished}

pub data Field : Type 0 where
  status duration return_code error : Field

pub data Line : Type 0 where
  sub_name : String → Line
  sub_field : Field → String → Line
  suite_name suite_status suite_duration : String → Line
  other : Line

pub record Subtest : Type 0 where
  pub name : String
  pub status : Option String
  pub duration : Option String
  pub return_code : Option String
  pub error : Option String

pub record Suite : Type 0 where
  pub name : String
  pub status : Option String
  pub duration : Option String
  pub subtests : List Subtest

abbrev pub subtest : String → Subtest
subtest n = record { name = n; status = none; duration = none; return_code = none; error = none }

-- `past` are the suites before the last one, `suite` the last one.
pub record Parser : Type 0 where
  pub past : List Suite
  pub suite : Option Suite
  pub cur : Option ℕ
  pub waiting : List ℕ

abbrev pub at {ℓ} : {A : Type ℓ} → List A → ℕ → Option A
at [] i = none
at (x ∷ xs) zero = some x
at (x ∷ xs) (suc i) = at xs i

abbrev pub update {ℓ} : {A : Type ℓ} → (A → A) → List A → ℕ → List A
update f [] i = []
update f (x ∷ xs) zero = f x ∷ xs
update f (x ∷ xs) (suc i) = x ∷ update f xs i

-- `"status" in cur`
abbrev pub has_status : Suite → ℕ → Bool
has_status s i = elim (at s.subtests i) [
  | none ↦ false
  | some t ↦ elim t.status [ none ↦ false | some _ ↦ true ]
]

abbrev pub set_field : Field → String → Subtest → Subtest
set_field status v t = record t { status = some v }
set_field duration v t = record t { duration = some v }
set_field return_code v t = record t { return_code = some v }
set_field error v t = record t { error = some v }

-- The outer tests that wait once a new one starts.
abbrev pub waiting_after : Suite → Option ℕ → List ℕ → List ℕ
waiting_after s none waiting = waiting
waiting_after s (some c) waiting = if has_status s c then waiting else c ∷ waiting

-- The subtest that a field is for, and the ones that still wait.
unfoldable pub target : Suite → Field → ℕ → List ℕ → ℕ × List ℕ
target s status c (w ∷ waiting) = if has_status s c then (w, waiting) else (c, w ∷ waiting)
target s _ c waiting = (c, waiting)

unfoldable pub name_line : Parser → Suite → String → Parser
name_line p s n = record p {
  suite = some (record s { subtests = s.subtests ++ (subtest n ∷ []) });
  cur = some (length s.subtests);
  waiting = waiting_after s p.cur p.waiting;
}

unfoldable pub field_line : Parser → Suite → ℕ → Field → String → Parser
unfolding target
field_line p s c f v =
    let (i, waiting) = target s f c p.waiting in
    record p {
      suite = some (record s { subtests = update (set_field f v) s.subtests i });
      cur = some i;
      waiting = waiting;
    }

abbrev pub closed : Option Suite → List Suite
closed none = []
closed (some s) = s ∷ []

-- The body of the loop of `parse_results`.
unfoldable pub read_line : Parser → Line → Parser
unfolding name_line field_line
read_line p (sub_name n) = elim p.suite [ none ↦ p | some s ↦ name_line p s n ]
read_line p (sub_field f v) = elim p.cur [
  | none ↦ p
  | some c ↦ elim p.suite [ none ↦ p | some s ↦ field_line p s c f v ]
]
read_line p (suite_name n) = record {
  past = p.past ++ closed p.suite;
  suite = some (record { name = n; status = none; duration = none; subtests = [] });
  cur = none;
  waiting = [];
}
read_line p (suite_status v) = elim p.suite [
  | none ↦ p
  | some s ↦ record p { suite = some (record s { status = some v }) }
]
read_line p (suite_duration v) = elim p.suite [
  | none ↦ p
  | some s ↦ record p { suite = some (record s { duration = some v }) }
]
read_line p other = p

unfoldable pub read_lines : Parser → List Line → Parser
unfolding read_line
read_lines p [] = p
read_lines p (l ∷ ls) = read_lines (read_line p l) ls

abbrev pub start : Parser
start = record { past = []; suite = none; cur = none; waiting = [] }

abbrev pub suites_of : Parser → List Suite
suites_of p = p.past ++ closed p.suite

-- `parse_results`
unfoldable pub parse_results : List Line → List Suite
unfolding read_lines
parse_results ls = suites_of (read_lines start ls)

-- `summarize` over the suites of all files; a status that is empty counts as none.
pub record Summary : Type 0 where
  pub counts : List (String × ℕ)
  pub failures : List (String × Subtest)
  pub unfinished : List (String × Subtest)

abbrev pub bump : String → List (String × ℕ) → List (String × ℕ)
bump k [] = (k, 1) ∷ []
bump k ((s, n) ∷ rest) =
    let later = bump k rest in if k == s then (s, suc n) ∷ rest else (s, n) ∷ later

abbrev pub passed : String → Bool
passed st = st == "PASS" || st == "SKIP"

unfoldable pub add_subtest : String → Summary → Subtest → Summary
add_subtest suite m t = elim t.status [
  | none ↦ record m { unfinished = m.unfinished ++ ((suite, t) ∷ []) }
  | some st ↦
      if st == "" then record m { unfinished = m.unfinished ++ ((suite, t) ∷ []) } else record m {
        counts = bump st m.counts;
        failures = if passed st then m.failures else m.failures ++ ((suite, t) ∷ []);
      }
]

unfoldable pub add_subtests : String → Summary → List Subtest → Summary
add_subtests suite m [] = m
add_subtests suite m (t ∷ ts) = add_subtests suite (add_subtest suite m t) ts

unfoldable pub add_suites : Summary → List Suite → Summary
add_suites m [] = m
add_suites m (s ∷ ss) = add_suites (add_subtests s.name m s.subtests) ss

unfoldable pub summarize : List (List Line) → Summary → Summary
summarize [] m = m
summarize (f ∷ fs) m = summarize fs (add_suites m (parse_results f))

abbrev pub nothing : Summary
nothing = record { counts = []; failures = []; unfinished = [] }

abbrev pub is_zero : Option ℕ → Bool
is_zero (some zero) = true
is_zero _ = false

abbrev pub filled {ℓ} : {A : Type ℓ} → List A → Bool
filled [] = false
filled (x ∷ xs) = true

-- `failed`
unfoldable pub failed : RunStatus → Summary → Bool
failed s m =
    not (is_finished s.state) || (not (is_zero s.rc) || (filled m.failures || filled m.unfinished))
