-- ===== src/Tests/Suite.antt =====
-- A run with a crashed node, and a results file with a nested test.
use lustre_test_vms.Base.{
  ℕ, String, ◌≡◌, refl, true, not, ◌&&◌, Option, none, some, List, [], ◌∷◌, string_eq, nat_eq,
}
use lustre_test_vms.Suite.Status.{Run, empty, classify, is_finished}
use lustre_test_vms.Suite.Results.Verdict.{files_well, failed-summarize}
use lustre_test_vms.Suite.Results.{failed, is_zero}
use lustre_test_vms.Suite.Results.{
  Line, sub_name, sub_field, suite_name, suite_status, other, status, duration, parse_results,
  summarize, nothing, subtest, add_suites, add_subtests, add_subtest,
}

abbrev lines : List Line
lines =
    other
    ∷ sub_name "early"
    ∷ suite_name "sanity-compr"
    ∷ sub_name "test_sanity"
    ∷ sub_name "test_1"
    ∷ sub_field status "PASS"
    ∷ sub_name "test_2"
    ∷ sub_field status "FAIL"
    ∷ sub_field duration "12"
    ∷ sub_field status "PASS"
    ∷ sub_name "test_3"
    ∷ suite_status "FAIL"
    ∷ []

-- The outer test gets the status that comes last, and the test that was cut off has none.
parsed :
    parse_results lines
    ≡ record {
      name = "sanity-compr";
      status = some "FAIL";
      duration = none;
      subtests =
          record (subtest "test_sanity") { status = some "PASS" }
          ∷ record (subtest "test_1") { status = some "PASS" }
          ∷ record (subtest "test_2") { status = some "FAIL"; duration = some "12" }
          ∷ subtest "test_3"
          ∷ [];
    }
      ∷ []
unfolding parse_results
parsed = refl

counts : (summarize (lines ∷ []) nothing).counts ≡ ("PASS", 2) ∷ ("FAIL", 1) ∷ []
unfolding summarize string_eq parse_results add_suites add_subtests add_subtest
counts = refl

abbrev run : Run
run = record {
  id = "r1";
  rc = empty;
  alive = true;
  started = some 1000;
  current = "sanity";
  boots = ("co1-mds", "a") ∷ ("co1-oss", "b") ∷ ("co1-c", "c") ∷ [];
  powered = "co1-c" ∷ [];
}

crashed :
    (classify run
      (some 1500)
      (("co1-mds", some 20) ∷ ("co1-oss", none) ∷ [])
      (("co1-mds", some "z") ∷ ("co1-oss", none) ∷ ("co1-c", some "y") ∷ [])).rebooted
    ≡ "co1-mds" ∷ []
unfolding classify string_eq
crashed = refl

abbrev uptimes : List (String × Option ℕ)
uptimes = ("co1-mds", some 20) ∷ ("co1-oss", none) ∷ []

abbrev now_ids : List (String × Option String)
now_ids = ("co1-mds", some "z") ∷ ("co1-oss", none) ∷ ("co1-c", some "y") ∷ []

failed-summarize_example :
    failed (classify run (some 1500) uptimes now_ids) (summarize (lines ∷ []) nothing)
    ≡ not (
        is_finished (classify run (some 1500) uptimes now_ids).state
        && (is_zero (classify run (some 1500) uptimes now_ids).rc && files_well (lines ∷ [])))
failed-summarize_example = failed-summarize (classify run (some 1500) uptimes now_ids) (lines ∷ [])
