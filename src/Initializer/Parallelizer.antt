-- ===== src/Initializer/Parallelizer.antt =====
-- initializer/parallelism/test_executor_parallelizer.go: worker goroutines that take tests from a
-- closed channel, run them and report them to the output manager. A worker's turn is one step; the
-- steps of the workers interleave in any order. Log lines of the parallelizer itself are left out.
-- When the context that the tests run in is cancelled, they may end with any outcome at any time,
-- which is what an attempt here does in any case.
pub mod Executors
pub mod Counts
pub mod Pool
pub mod Progress
pub mod Verdict
pub mod Sample
mod Tests
pub mod Signals
pub mod Turns
use zz_deprecated_kurtosis.Base.{
  ℕ, zero, suc, List, [], ◌∷◌, ◌++◌, map, Bool, false, Option, none, some, Text, codes, Dict, Error,
  propagated, Site, replicate, ◌≡◌,
}
use zz_deprecated_kurtosis.Initializer.TestParams.{ParallelTestParams}
use zz_deprecated_kurtosis.Initializer.OutputManager.{
  ParallelTestOutputManager, System, new_parallel_test_output_manager, log_test_output,
  start_intercepting_std_logger, stop_intercepting_std_logger, print_summary, get_all_tests_passed,
}
use zz_deprecated_kurtosis.Initializer.OutputLines.{TestLogs}
use zz_deprecated_kurtosis.Initializer.OutputManager.Outcomes.{Report}
use zz_deprecated_kurtosis.Initializer.OutputManager.Interception.{session}

-- What the log file of a test gives when it is opened again.
pub data LogFile : Type 0 where
  opened : TestLogs → LogFile
  unreadable : Text → LogFile

-- What the environment makes of one turn of the worker loop: no temporary file, or a run of the
-- test with its result.
pub data Attempt : Type 0 where
  no_temp_file : Error → Attempt
  ran : Bool → Option Error → LogFile → Attempt

abbrev log_reader : LogFile → TestLogs
log_reader (opened logs) = logs
log_reader (unreadable message) = record {
  content =
      codes
        "An error occurred opening the test's logfile for reading; logs for this test are unavailable:"
      ++ 10 ∷ message;
  copy_err = none;
}

module _ {Test : Type 0} where
  -- The call of logTestOutput that ends one turn of `runTestWorkerGoroutine`.
  unfoldable pub report_of : ParallelTestParams Test → Attempt → Report
  report_of test_params (no_temp_file err) = record {
    test_name = test_params.test_name;
    execution_err = some (propagated Site.temp_log_file err);
    test_passed = false;
    logs = record { content = []; copy_err = none };
  }
  report_of test_params (ran passed execution_err log_file) = record {
    test_name = test_params.test_name;
    execution_err = execution_err;
    test_passed = passed;
    logs = log_reader log_file;
  }

-- A worker goroutine: at the head of its loop, with a test, or past `waitGroup.Done`.
pub data Worker (Test : Type 0) : Type 0 where
  ready : Worker Test
  running : ParallelTestParams Test → Worker Test
  done : Worker Test

-- The channel's buffer, the workers, and the reports so far in the order in which the manager's
-- lock admitted them.
pub record Workers (Test : Type 0) : Type 0 where
  pub test_params_chan : List (ParallelTestParams Test)
  pub workers : List (Worker Test)
  pub reports : List Report

module _ {Test : Type 0} where
  -- One worker, wherever it stands among the others, makes its next move. `report` has any attempt
  -- and comes at any time: which attempts a turn makes, and that it ends, is said of `run_turn`.
  pub data Step (s t : Workers Test) : Type 0 where
    take_test :
        (before after : List (Worker Test)) (p : ParallelTestParams Test)
        (rest : List (ParallelTestParams Test))
        → s.test_params_chan ≡ p ∷ rest
        → s.workers ≡ before ++ ready ∷ after
        → t ≡ record s { test_params_chan = rest; workers = before ++ running p ∷ after }
        → Step s t
    report :
        (before after : List (Worker Test)) (p : ParallelTestParams Test) (attempt : Attempt)
        → s.workers ≡ before ++ running p ∷ after
        → t ≡ record s {
          workers = before ++ ready ∷ after;
          reports = s.reports ++ report_of p attempt ∷ [];
        }
        → Step s t
    leave :
        (before after : List (Worker Test))
        → s.test_params_chan ≡ []
        → s.workers ≡ before ++ ready ∷ after
        → t ≡ record s { workers = before ++ done ∷ after }
        → Step s t

  pub data Steps (s : Workers Test) : Workers Test → Type 0 where
    here : Steps s s
    next : {t u : Workers Test} → Steps s t → Step t u → Steps s u

  -- All tests in the channel, which is closed, and `parallelism` workers started.
  unfoldable pub launched : Dict Text (ParallelTestParams Test) → ℕ → Workers Test
  launched all_test_params parallelism = record {
    test_params_chan = map (λ e. e.1) all_test_params;
    workers = replicate parallelism ready;
    reports = [];
  }

-- `RunInParallelAndPrintResults` around a run of the workers that made the given reports.
abbrev finish_run : Option System → Option (Bool × System)
finish_run none = none
finish_run (some s) = some (get_all_tests_passed s.manager, s)

abbrev then_summary : Option System → Option System
then_summary none = none
then_summary (some s) = print_summary s

unfoldable pub run_in_parallel_and_print_results : List Report → System → Option (Bool × System)
run_in_parallel_and_print_results reports s =
    let managed : System = record s { manager = new_parallel_test_output_manager } in
    finish_run (then_summary (session reports managed))
