-- ===== src/Initializer/SuiteRunner/RunTests.antt =====
-- RunTests of initializer/test_suite_runner.go as a whole. The Docker client only reaches the tests,
-- whose outcomes are those of the parallelizer's steps, so its construction is a result here.
use zz_deprecated_kurtosis.Base.{
  ℕ, List, Bool, some, Text, Dict, ◌≡◌, Error, Result, ok, err, Site, propagate, ◌>>=◌,
}
use zz_deprecated_kurtosis.Initializer.TestParams.{ParallelTestParams, build_test_params}
use zz_deprecated_kurtosis.Initializer.OutputManager.{System}
use zz_deprecated_kurtosis.Initializer.Parallelizer.{
  Workers, Steps, launched, run_in_parallel_and_print_results,
}
use zz_deprecated_kurtosis.Initializer.Parallelizer.Pool.{Finished}
use zz_deprecated_kurtosis.Initializer.SuiteRunner.{choose_tests}

pub record TestSuiteRunner (Test : Type 0) : Type 0 where
  pub test_suite : Dict Text Test
  pub network_width_bits : ℕ

unfoldable pub new_test_suite_runner : {Test : Type 0} → Dict Text Test → ℕ → TestSuiteRunner Test
new_test_suite_runner test_suite network_width_bits = record {
  test_suite = test_suite;
  network_width_bits = network_width_bits;
}

module _ {Test : Type 0} (float_to_uint32 : ℕ → ℕ) (runner : TestSuiteRunner Test) where
  -- From the construction of the Docker client on.
  abbrev pub with_params :
      Result (Unit {0})
      → Dict Text (ParallelTestParams Test)
      → Result (Dict Text (ParallelTestParams Test))
  with_params docker_client test_params =
      propagate Site.docker_client docker_client >>= λ client. ok test_params

  -- From the call of buildTestParams on.
  abbrev pub with_tests :
      Text → Result (Unit {0}) → Dict Text Test → Result (Dict Text (ParallelTestParams Test))
  with_tests execution_instance_id docker_client tests_to_run =
      propagate Site.build_params (
        build_test_params float_to_uint32 runner.network_width_bits execution_instance_id
          tests_to_run)
      >>= with_params docker_client

  -- RunTests as far as the parallelizer.
  unfoldable pub prepare :
      List Text → Text → Result (Unit {0}) → Result (Dict Text (ParallelTestParams Test))
  prepare test_names_to_run execution_instance_id docker_client =
      choose_tests runner.test_suite test_names_to_run
      >>= with_tests execution_instance_id docker_client

  -- RunTests with its results: an error before any test is run, or the verdict of the parallelizer
  -- on a run of the workers.
  pub data RunTests (test_names_to_run : List Text) (execution_instance_id : Text)
      (docker_client : Result (Unit {0})) (test_parallelism : ℕ) (w : System)
      : Result Bool → System → Type 0 where
    refused :
        {e : Error}
        → prepare test_names_to_run execution_instance_id docker_client ≡ err e
        → RunTests test_names_to_run execution_instance_id docker_client test_parallelism w
            (err e)
            w
    ran :
        {params : Dict Text (ParallelTestParams Test)} {s : Workers Test} {passed : Bool}
        {t : System}
        → prepare test_names_to_run execution_instance_id docker_client ≡ ok params
        → Steps (launched params test_parallelism) s
        → Finished s
        → run_in_parallel_and_print_results s.reports w ≡ some (passed, t)
        → RunTests test_names_to_run execution_instance_id docker_client test_parallelism w
            (ok passed)
            t
