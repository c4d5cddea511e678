-- ===== src/Initializer/Parallelizer/Turns/CleanUp.antt =====
-- Lemmas on runTestWorkerGoroutine of initializer/parallelism/test_executor_parallelizer.go: what a
-- worker leaves of the tests that initializer/test_suite_runner.go hands to it.
use zz_deprecated_kurtosis.Base.{
  ℕ, ◌+◌, ◌*◌, ◌^◌, ◌<◌, ◌≡◌, List, [], ◌∷◌, Bool, some, Text, Dict, lookup, IsDict, length,
  text_eq, All, ok,
}
use zz_deprecated_kurtosis.Net.Defs.{u32_mod}
use zz_deprecated_kurtosis.Initializer.TestParams.{ParallelTestParams, build_test_params}
use zz_deprecated_kurtosis.Initializer.TestParams.Subnets.{Converts, subnet_start}
use zz_deprecated_kurtosis.Initializer.TestParams.Isolation.{subnet-Allocates}
use zz_deprecated_kurtosis.Initializer.TestExecutor.{Engine, new_test_executor}
use zz_deprecated_kurtosis.Initializer.TestExecutor.RunTest.{Race}
use zz_deprecated_kurtosis.Initializer.TestExecutor.Returns.{Roomy, run_test-Returns}
use zz_deprecated_kurtosis.Initializer.Parallelizer.Executors.{
  TestExecutorParallelizer, test_executor_of,
}
use zz_deprecated_kurtosis.Initializer.Parallelizer.Turns.{LogFiles}
use zz_deprecated_kurtosis.Initializer.Parallelizer.Turns.Leftovers.{
  FileSystem, Runs, Clean, loop-leaves,
}

-- The test is one of those of the channel.
abbrev pub Among :
    {W Test : Type 0}
    → Dict Text (ParallelTestParams Test)
    → ParallelTestParams Test × Race W
    → Type 0
Among params q = (name : Text) × (lookup name params ≡ some q.0)

module _ {W Test : Type 0} (files : LogFiles W) (engine : Engine W)
    (executor : TestExecutorParallelizer) where
  pub Roomy-Runs :
      (p : ParallelTestParams Test) (race : Race W)
      → Roomy p.subnet_mask
      → Runs files engine executor (p, race)
  unfolding test_executor_of new_test_executor
  Roomy-Runs p race room w = run_test-Returns engine (test_executor_of executor p) race w room

  Among-Runs :
      (params : Dict Text (ParallelTestParams Test))
      (roomy : (name : Text) (p : ParallelTestParams Test)
        → lookup name params ≡ some p
        → Roomy p.subnet_mask)
      (tests : List (ParallelTestParams Test × Race W))
      → All (Among params) tests
      → All (Runs files engine executor) tests
  Among-Runs params roomy [] h = tt
  Among-Runs params roomy ((p, race) ∷ more) h =
      let (name, found) = h.0 in
      (Roomy-Runs p race (roomy name p found), Among-Runs params roomy more h.1)

-- For tests that buildTestParams made, with subnets of `2 ^ w` addresses each that fit below
-- 255.255.255.255, and a file system whose Remove removes: whichever of these tests a worker takes
-- from the channel, and whatever Docker answers, the worker's goroutine returns, it has made one
-- report for each of the tests that it took, and no temporary file that the worker created for the log
-- of a test is left, whether the test ran, failed or hit its timeout, and whether or not its log could be read. The file for the logs of the controller, which runTest
-- creates, is not meant.
pub worker_goroutine-Clean :
    (to : ℕ → ℕ) (w : ℕ) {W Test : Type 0} (id : Text) (suite : Dict Text Test)
    (params : Dict Text (ParallelTestParams Test)) (files : LogFiles W) (exists : Text → W → Bool)
    (engine : Engine W) (executor : TestExecutorParallelizer)
    (tests : List (ParallelTestParams Test × Race W)) (before : W)
    → Converts to
    → 0 < w
    → w < 32
    → IsDict suite
    → subnet_start + length suite * 2 ^ w < u32_mod
    → build_test_params to w id suite ≡ ok params
    → FileSystem files exists
    → All (Among params) tests
    → Clean files exists engine executor tests before
worker_goroutine-Clean to w id suite params files exists engine executor tests before c h v d r e
      system among =
    loop-leaves files exists engine executor tests before system (
      Among-Runs files engine executor params
        (λ name p found t made.
          subnet-Allocates to w id suite params c h v d r e name p found [] t made)
        tests among)
