-- ===== src/Initializer/SuiteRunner/Verified.antt =====
-- Lemmas on RunTests of initializer/test_suite_runner.go: what the verdict says of the tests.
use zz_deprecated_kurtosis.Base.{
  ℕ, ◌<◌, ◌≡◌, ◌≢◌, List, [], ◌∷◌, map, Bool, true, named, Text, Dict, All, text_eq, ◌==◌, ==_iff,
  arith, Result, ok, Bool-cases, inl, inr,
}
use zz_deprecated_kurtosis.Initializer.TestParams.{ParallelTestParams}
use zz_deprecated_kurtosis.Initializer.OutputManager.{System, interceptor}
use zz_deprecated_kurtosis.Initializer.TestExecutor.{Engine}
use zz_deprecated_kurtosis.Initializer.TestExecutor.Passing.{Passes}
use zz_deprecated_kurtosis.Initializer.Parallelizer.Executors.{
  TestExecutorParallelizer, new_test_executor_parallelizer, test_executor_of,
}
use zz_deprecated_kurtosis.Initializer.Parallelizer.Counts.{occ, chan_names}
use zz_deprecated_kurtosis.Initializer.Parallelizer.Turns.{LogFiles}
use zz_deprecated_kurtosis.Initializer.Parallelizer.Turns.Ended.{turns}
use zz_deprecated_kurtosis.Initializer.Parallelizer.Turns.Verified.{IsTurn, true_verdict-Passes}
use zz_deprecated_kurtosis.Initializer.SuiteRunner.{names_to_run}
use zz_deprecated_kurtosis.Initializer.SuiteRunner.RunTests.{
  TestSuiteRunner, RunTests, refused, ran,
}
use zz_deprecated_kurtosis.Initializer.SuiteRunner.Whole.{prepare-occ}

-- An element of a name that occurs.
occ-All :
    {Test : Type 0} (P : ParallelTestParams Test → Type 0) (k : Text)
    (ps : List (ParallelTestParams Test))
    → All P ps
    → 0 < occ k (chan_names ps)
    → (p : ParallelTestParams Test) × (p.test_name ≡ k) × P p
unfolding occ
occ-All P k [] h n = absurd (omega arith)
occ-All P k (p ∷ ps) h n = elim (Bool-cases (p.test_name == k)) [
  | inl same ↦ (p, (==_iff p.test_name k).0 same, h.0)
  | inr other ↦ occ-All P k ps h.1 (ground arith)
]

module _ {W Test : Type 0} (files : LogFiles W) (engine : Engine W)
    (executor : TestExecutorParallelizer) where
  -- What came of every test that was run is what a turn of a worker's loop makes of it.
  abbrev pub RealTurns :
      {to : ℕ → ℕ} {runner : TestSuiteRunner Test} {names : List Text} {id : Text}
      {client : Result (Unit {0})} {parallelism : ℕ} {w t : System} {r : Result Bool}
      → RunTests to runner names id client parallelism w r t
      → Type 0
  RealTurns (refused e) = Unit {0}
  RealTurns (ran prepared steps finished result) = All (IsTurn files engine executor) (turns steps)

-- With a parallelism of at least one, and a standard logger that is not the interceptor: if RunTests
-- returns true, and what came of every test that was run is what a turn of a worker's loop makes of
-- it, with any timing and in any state of the world, then for each test asked for (each test of the
-- suite, if none is) a network with a gateway address was created, and a controller container for
-- the test was started in it, at an address that is not the gateway's, and exited with code 0.
pub RunTests-Passes :
    {W Test : Type 0} (files : LogFiles W) (engine : Engine W) (to : ℕ → ℕ)
    (runner : TestSuiteRunner Test) (names : List Text) (id image log_level : Text)
    (variables : Dict Text Text) (client : Result (Unit {0})) (parallelism : ℕ) (w t : System)
    (run : RunTests to runner names id client parallelism w (ok true) t)
    → 0 < parallelism
    → w.std_logger.out ≢ interceptor
    → RealTurns files engine
        (new_test_executor_parallelizer id image log_level variables parallelism)
        run
    → (k : Text) → named k (names_to_run runner.test_suite names) ≡ true
    → (p : ParallelTestParams Test) × (p.test_name ≡ k)
      × Passes engine (
          test_executor_of
            (new_test_executor_parallelizer id image log_level variables parallelism)
            p)
unfolding new_test_executor_parallelizer
RunTests-Passes files engine to runner names id image log_level variables client parallelism w t
      (ran {params = params} {s = s} prepared steps finished result) pos outside real k asked =
    let once = prepare-occ to runner names id client params in
    occ-All _ k (map (λ e. e.1) params)
      (true_verdict-Passes files engine
        (new_test_executor_parallelizer id image log_level variables parallelism) params s w t steps
        pos (λ j. ground (arith, once j prepared)) outside finished real result)
      (ground (arith, once k prepared))
