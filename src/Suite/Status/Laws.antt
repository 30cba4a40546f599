-- ===== src/Suite/Status/Laws.antt =====
-- Which nodes `classify` reports.
use lustre_test_vms.Base.{
  String, ◌≡◌, refl, ◌∙◌, inl, inr, Bool, true, false, not, ◌&&◌, Option, List, [], ◌∷◌, keep,
  string_eq, contains, ℕ, arith, Bool-cases,
}
use lustre_test_vms.Suite.Status.{Run, classify, suspects, state_of, is_finished, age_of}

contains-keep :
    (p : String → Bool) (n : String) (xs : List String)
    → contains (keep p xs) n ≡ p n && contains xs n
contains-keep p n [] = elim (Bool-cases (p n)) [ inl h ↦ ground arith | inr h ↦ ground arith ]
contains-keep p n (x ∷ xs) = elim (string_eq.dec n x) [
  | yes e ↦ elim (Bool-cases (p x)) [
    | inl h ↦ let g : p n ≡ true = rw e h in ground arith
    | inr h ↦ let g : p n ≡ false = rw e h in ground (arith, contains-keep p n xs)
  ]
  | no e ↦ ground (arith, contains-keep p n xs)
]

-- A node is reported as crashed exactly when the run has not finished, nothing logged that it was
-- restarted, and its boot ID or its uptime says that it rebooted.
pub classify_rebooted :
    (r : Run) (now : Option ℕ) (uptimes : List (String × Option ℕ))
    (ids : List (String × Option String)) (n : String)
    → contains (classify r now uptimes ids).rebooted n ≡ (
        not (contains r.powered n)
        && (not (is_finished (classify r now uptimes ids).state)
            && contains (suspects r (age_of now r.started) uptimes ids) n))
unfolding classify
classify_rebooted r now uptimes ids n =
    contains-keep (λ m. not (contains r.powered m)) n _
    ∙ elim (Bool-cases (is_finished (state_of r).0)) [ inl h ↦ rw h refl | inr h ↦ rw h refl ]
