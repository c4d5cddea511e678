-- ===== src/Initializer/SuiteRunner.antt =====
-- RunTests of initializer/test_suite_runner.go: which tests are run. The parameters of the
-- tests that it builds next, and the run itself, are in TestParams and Parallelizer.
pub mod Choice
pub mod RunTests
pub mod Whole
pub mod Verified
pub mod Finishing
mod Tests
use zz_deprecated_kurtosis.Base.{
  ℕ, List, [], ◌∷◌, none, some, Text, Dict, keys, lookup, insert, text_eq, failed, propagated,
  Result, ok, err, Site, or_fail, propagate, ◌>>=◌,
}

module _ {Test : Type 0} where
  -- All the tests, if no names are given.
  abbrev pub names_to_run : Dict Text Test → List Text → List Text
  names_to_run all_tests [] = keys all_tests
  names_to_run all_tests (name ∷ more) = name ∷ more

  -- The loop over the names.
  unfoldable pub find_tests : Dict Text Test → List Text → Dict Text Test → Result (Dict Text Test)
  find_tests all_tests [] tests_to_run = ok tests_to_run
  find_tests all_tests (test_name ∷ more) tests_to_run = elim (lookup test_name all_tests) [
    | none ↦ err (failed (Site.no_test test_name))
    | some test ↦ find_tests all_tests more (insert test_name test tests_to_run)
  ]

  -- The set of names is the list of its keys.
  unfoldable pub choose_tests : Dict Text Test → List Text → Result (Dict Text Test)
  choose_tests all_tests test_names_to_run =
      find_tests all_tests (names_to_run all_tests test_names_to_run) []
