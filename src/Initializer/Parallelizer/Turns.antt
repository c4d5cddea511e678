-- ===== src/Initializer/Parallelizer/Turns.antt =====
-- runTestWorkerGoroutine of initializer/parallelism/test_executor_parallelizer.go: a turn of the
-- worker's loop, from the test's temporary file to the report, and what the worker defers until it
-- leaves. The `defer`s stand in the loop, so they run only when the worker has taken its last test.
pub mod Leftovers
pub mod CleanUp
pub mod Ended
pub mod Verified
use zz_deprecated_kurtosis.Base.{
  List, [], ◌∷◌, ◌++◌, Bool, false, Option, none, some, Text, Error, Result, ok, err,
}
use zz_deprecated_kurtosis.Actions.{Act}
use zz_deprecated_kurtosis.Initializer.TestParams.{ParallelTestParams}
use zz_deprecated_kurtosis.Initializer.TestExecutor.{Engine}
use zz_deprecated_kurtosis.Initializer.TestExecutor.RunTest.{Race, run_test}
use zz_deprecated_kurtosis.Initializer.Parallelizer.{
  LogFile, opened, unreadable, Attempt, no_temp_file, ran,
}
use zz_deprecated_kurtosis.Initializer.Parallelizer.Executors.{
  TestExecutorParallelizer, test_executor_of,
}

-- The packages `ioutil` and `os`, by the names of files: TempFile, Close on the file that is
-- written, Open, Close on the file that is read, and Remove, whose error is dropped.
pub record LogFiles (W : Type 0) : Type 0 where
  pub temp_file : Text → Act W Text
  pub close_writing : Text → W → W
  pub open_file : Text → W → LogFile × W
  pub close_reading : Text → W → W
  pub remove : Text → W → W

-- What a `defer` in the loop will do.
pub data Deferred : Type 0 where
  remove_file : Text → Deferred
  close_file : Text → Deferred

-- The end of a turn: what is reported, what is deferred so far with the last on top, and the world.
pub record Turn (W : Type 0) : Type 0 where
  pub attempt : Attempt
  pub deferred : List Deferred
  pub world : W

abbrev pub result_passed : Result Bool → Bool
result_passed (ok passed) = passed
result_passed (err e) = false

abbrev pub result_err : Result Bool → Option Error
result_err (ok passed) = none
result_err (err e) = some e

-- `defer readingTempFp.Close()`, when the file was opened.
abbrev pub defer_close : Text → LogFile → List Deferred → List Deferred
defer_close name (opened logs) deferred = close_file name ∷ deferred
defer_close name (unreadable message) deferred = deferred

module _ {W : Type 0} where
  abbrev pub add_attempt : Attempt → Option (List Attempt × W) → Option (List Attempt × W)
  add_attempt attempt none = none
  add_attempt attempt (some (more, w)) = some (attempt ∷ more, w)

  abbrev pub then_turns :
      (List Deferred → W → Option (List Attempt × W)) → Option (Turn W) → Option (List Attempt × W)
  then_turns later none = none
  then_turns later (some turn) = add_attempt turn.attempt (later turn.deferred turn.world)

module _ {W : Type 0} (files : LogFiles W) where
  -- From the return of runTest on; `none` is a runTest that does not return.
  abbrev pub after_run : Text → List Deferred → Option (Result Bool × W) → Option (Turn W)
  after_run name deferred none = none
  after_run name deferred (some (r, w)) =
      let (log_file, v) = files.open_file name (files.close_writing name w) in
      some (record {
        attempt = ran (result_passed r) (result_err r) log_file;
        deferred = defer_close name log_file deferred;
        world = v;
      })

  abbrev pub run_deferred : List Deferred → W → W
  run_deferred [] w = w
  run_deferred (remove_file name ∷ more) w = run_deferred more (files.remove name w)
  run_deferred (close_file name ∷ more) w = run_deferred more (files.close_reading name w)

  module _ {Test : Type 0} (engine : Engine W) (executor : TestExecutorParallelizer) where
    -- Past the creation of the temporary file: on an error the turn ends with `continue`.
    abbrev pub with_temp_file :
        ParallelTestParams Test → Race W → List Deferred → Result Text × W → Option (Turn W)
    with_temp_file test_params race deferred (err e, w) =
        some (record { attempt = no_temp_file e; deferred = deferred; world = w })
    with_temp_file test_params race deferred (ok name, w) =
        after_run name (remove_file name ∷ deferred)
          (run_test engine (test_executor_of executor test_params) race w)

    -- "%v-%v" of the execution ID and the test's name
    abbrev pub temp_filename : ParallelTestParams Test → Text
    temp_filename test_params = executor.execution_id ++ b'-' ∷ test_params.test_name

    -- One turn of the loop, up to the call of logTestOutput.
    unfoldable pub run_turn : ParallelTestParams Test → Race W → List Deferred → W → Option (Turn W)
    run_turn test_params race deferred w =
        with_temp_file test_params race deferred (files.temp_file (temp_filename test_params) w)

    -- The goroutine, by the tests that it gets from the channel until this is empty.
    unfoldable pub worker_loop :
        List (ParallelTestParams Test × Race W) → List Deferred → W → Option (List Attempt × W)
    worker_loop [] deferred w = some ([], run_deferred deferred w)
    worker_loop ((test_params, race) ∷ more) deferred w =
        then_turns (worker_loop more) (run_turn test_params race deferred w)

    unfoldable pub run_test_worker_goroutine :
        List (ParallelTestParams Test × Race W) → W → Option (List Attempt × W)
    run_test_worker_goroutine tests w = worker_loop tests [] w
