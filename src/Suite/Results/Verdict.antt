-- ===== src/Suite/Results/Verdict.antt =====
-- When a collected run counts as a success.
use lustre_test_vms.Base.{
  String, ◌≡◌, refl, inl, inr, Bool, true, false, not, ◌&&◌, ◌||◌, none, some, List, [], ◌∷◌, ◌++◌,
  arith, string_eq, Bool-cases, Option-cases,
}
use lustre_test_vms.Suite.Status.{RunStatus, is_finished}
use lustre_test_vms.Suite.Results.{
  Line, Subtest, Suite, Summary, passed, filled, add_subtest, add_subtests, add_suites, summarize,
  nothing, parse_results, failed, is_zero,
}

-- A subtest with the status PASS or SKIP.
abbrev pub went_well : Subtest → Bool
went_well t = elim t.status [ none ↦ false | some st ↦ passed st ]

abbrev pub all_well : List Subtest → Bool
all_well [] = true
all_well (t ∷ ts) = went_well t && all_well ts

abbrev pub suites_well : List Suite → Bool
suites_well [] = true
suites_well (s ∷ ss) = all_well s.subtests && suites_well ss

abbrev pub files_well : List (List Line) → Bool
files_well [] = true
files_well (f ∷ fs) = suites_well (parse_results f) && files_well fs

abbrev bad : Summary → Bool
bad m = filled m.failures || filled m.unfinished

filled-append {ℓ} : {A : Type ℓ} (xs : List A) (x : A) → filled (xs ++ (x ∷ [])) ≡ true
filled-append [] x = refl
filled-append (y ∷ xs) x = refl

empty_fails : passed "" ≡ false
unfolding string_eq
empty_fails = refl

bad-add_subtest :
    (suite : String) (m : Summary) (t : Subtest)
    → bad (add_subtest suite m t) ≡ bad m || not (went_well t)
unfolding add_subtest
bad-add_subtest suite m t = elim (Option-cases t.status) [
  | inl e ↦ ground (arith, filled-append m.unfinished (suite, t))
  | inr (st, e) ↦ elim (string_eq.dec st "") [
    | yes p ↦
        let q : passed st ≡ false = rw p empty_fails in
        ground (arith, filled-append m.unfinished (suite, t))
    | no p ↦ elim (Bool-cases (passed st)) [
      | inl q ↦ ground arith
      | inr q ↦ ground (arith, filled-append m.failures (suite, t))
    ]
  ]
]

bad-add_subtests :
    (suite : String) (m : Summary) (ts : List Subtest)
    → bad (add_subtests suite m ts) ≡ bad m || not (all_well ts)
unfolding add_subtests
bad-add_subtests suite m [] = ground arith
bad-add_subtests suite m (t ∷ ts) =
    let rest = bad-add_subtests suite (add_subtest suite m t) ts in
    let one = bad-add_subtest suite m t in ground (arith, rest, one)

bad-add_suites :
    (m : Summary) (ss : List Suite) → bad (add_suites m ss) ≡ bad m || not (suites_well ss)
unfolding add_suites
bad-add_suites m [] = ground arith
bad-add_suites m (s ∷ ss) =
    let rest = bad-add_suites (add_subtests s.name m s.subtests) ss in
    let one = bad-add_subtests s.name m s.subtests in ground (arith, rest, one)

bad-summarize :
    (files : List (List Line)) (m : Summary)
    → bad (summarize files m) ≡ bad m || not (files_well files)
unfolding summarize
bad-summarize [] m = ground arith
bad-summarize (f ∷ files) m =
    let rest = bad-summarize files (add_suites m (parse_results f)) in
    let one = bad-add_suites m (parse_results f) in ground (arith, rest, one)

-- A collected run does not count as failed exactly when it finished, its exit status is 0, and every
-- subtest in its results files has the status PASS or SKIP.
pub failed-summarize :
    (s : RunStatus) (files : List (List Line))
    → failed s (summarize files nothing)
      ≡ not (is_finished s.state && (is_zero s.rc && files_well files))
unfolding failed
failed-summarize s files = let all = bad-summarize files nothing in ground (arith, all)
