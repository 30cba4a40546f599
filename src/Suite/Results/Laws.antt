-- ===== src/Suite/Results/Laws.antt =====
-- Each subtest is counted once.

use lustre_test_vms.Base.{
  ℕ, suc, ◌+◌, String, ◌≡◌, refl, ◌∙◌, inl, inr, List, [], ◌∷◌, ◌++◌, map, length, length-append,
  sum, arith, string_eq, Bool-cases, Option-cases, ◌==◌,
}
use lustre_test_vms.Suite.Results.{
  Line, Subtest, Suite, Summary, parse_results, bump, add_subtest, add_subtests, add_suites,
  summarize,
}

-- The totals of a summary.
abbrev pub counted : Summary → ℕ
counted m = sum (map (λ c. c.1) m.counts) + length m.unfinished

abbrev pub total : List Suite → ℕ
total [] = 0
total (s ∷ ss) = length s.subtests + total ss

sum-bump :
    (k : String) (cs : List (String × ℕ))
    → sum (map (λ c. c.1) (bump k cs)) ≡ suc (sum (map (λ c. c.1) cs))
sum-bump k [] = refl
sum-bump k ((s, n) ∷ cs) = elim (string_eq.dec k s) [
  | yes e ↦ ground arith
  | no e ↦ ground (arith, sum-bump k cs)
]

count_more :
    (k : String) (cs : List (String × ℕ)) (n : ℕ)
    → sum (map (λ c. c.1) (bump k cs)) + n ≡ suc (sum (map (λ c. c.1) cs) + n)
count_more k cs n = omega (arith, sum-bump k cs)

left_over :
    (n : ℕ) (xs : List (String × Subtest)) (x : String × Subtest)
    → n + length (xs ++ (x ∷ [])) ≡ suc (n + length xs)
left_over n xs x = omega (arith, length-append xs (x ∷ []))

counted-add_subtest :
    (suite : String) (m : Summary) (t : Subtest) → counted (add_subtest suite m t) ≡ suc (counted m)
unfolding add_subtest
counted-add_subtest suite m t = elim (Option-cases t.status) [
  | inl e ↦ rw (e, add_subtest) (left_over _ m.unfinished (suite, t))
  | inr (st, e) ↦ elim (Bool-cases (st == "")) [
    | inl f ↦ rw (e, f, add_subtest) (left_over _ m.unfinished (suite, t))
    | inr f ↦ rw (e, f, add_subtest) (count_more st m.counts (length m.unfinished))
  ]
]

counted-add_subtests :
    (suite : String) (m : Summary) (ts : List Subtest)
    → counted (add_subtests suite m ts) ≡ counted m + length ts
unfolding add_subtests
counted-add_subtests suite m [] = omega arith
counted-add_subtests suite m (t ∷ ts) =
    let rest = counted-add_subtests suite (add_subtest suite m t) ts in
    let one = counted-add_subtest suite m t in rest ∙ omega (arith, one)

counted-add_suites :
    (m : Summary) (ss : List Suite) → counted (add_suites m ss) ≡ counted m + total ss
unfolding add_suites
counted-add_suites m [] = omega arith
counted-add_suites m (s ∷ ss) =
    let rest = counted-add_suites (add_subtests s.name m s.subtests) ss in
    let one = counted-add_subtests s.name m s.subtests in rest ∙ omega (arith, one)

-- Over results files, the subtests that have a status or are unfinished are all the subtests.
pub counted-summarize :
    (files : List (List Line)) (m : Summary)
    → counted (summarize files m) ≡ counted m + sum (map (λ f. total (parse_results f)) files)
unfolding summarize
counted-summarize [] m = omega arith
counted-summarize (f ∷ files) m =
    let rest = counted-summarize files (add_suites m (parse_results f)) in
    let one = counted-add_suites m (parse_results f) in rest ∙ omega (arith, one)
