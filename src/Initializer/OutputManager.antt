-- ===== src/Initializer/OutputManager.antt =====
-- initializer/parallelism/parallel_test_output_manager.go: the outcomes of the tests, their output,
-- and the interception of the system-wide logger while tests run. A method is one
-- function; Locking has its calls from several goroutines. The loggers are logrus, which is not part
-- of the repository: the model keeps the calls made to them, each with the writer that the logger
-- had at the time.
pub mod Outcomes
pub mod Interception
pub mod Locking
use zz_deprecated_kurtosis.Base.{
  ℕ, zero, suc, ◌+◌, List, [], ◌∷◌, ◌++◌, map, Bool, true, false, not, ◌&&◌, ◌||◌, Option, none,
  some, if◌then◌else◌, Text, codes, Dict, lookup, insert, found, text_eq, Error, failed, Site,
}
use zz_deprecated_kurtosis.Initializer.OutputLines.{
  TestStatus, passed, failed_test, errored, ParallelTestOutput, Line, info, error_line, raw,
  error_reason, raw_error, banner_as_error, print_banner, get_test_status_from_result, status_text,
  test_line, TestLogs, report_lines, is_passed, summary_line, all_captured_lines,
  log_erroneous_system_logging,
}
use zz_deprecated_kurtosis.Net.Decimal.{dec_text}
use zz_deprecated_kurtosis.Initializer.LogWriter.{
  ErroneousSystemLogInfo, ErroneousSystemLogCaptureWriter, new_erroneous_system_log_capture_writer,
  get_captured_messages,
}

-- Where a logger writes to: nowhere yet, the interceptor of the manager, or some other writer.
pub data Writer : Type 0 where
  nil_writer interceptor : Writer
  other : ℕ → Writer

-- What the code reads and sets of a logrus.Logger.
pub record Logger : Type 0 where
  pub out : Writer
  pub formatter : ℕ
  pub level : ℕ

pub record ParallelTestOutputManager : Type 0 where
  pub interceptor_writer : ErroneousSystemLogCaptureWriter
  pub writer_before_management : Writer
  pub is_intercepting_std_logger : Bool
  pub side_channel_logger : Option Logger
  pub test_outputs : Dict Text ParallelTestOutput

-- The manager, the standard logger, and the lines written so far with their writers.
pub record System : Type 0 where
  pub manager : ParallelTestOutputManager
  pub std_logger : Logger
  pub written : List (Writer × Line)

unfoldable pub new_parallel_test_output_manager : ParallelTestOutputManager
new_parallel_test_output_manager = record {
  interceptor_writer = new_erroneous_system_log_capture_writer;
  writer_before_management = nil_writer;
  is_intercepting_std_logger = false;
  side_channel_logger = none;
  test_outputs = [];
}

-- `outputLogger`: the side channel while the standard logger is intercepted. A `none` is a nil
-- logger, whose use panics.
abbrev pub output_logger : System → Option Logger
output_logger s =
    if not s.manager.is_intercepting_std_logger
    then some s.std_logger
    else s.manager.side_channel_logger

abbrev pub print_to : Logger → List Line → System → System
print_to logger lines s = record s { written = s.written ++ map (λ l. (logger.out, l)) lines }

-- What is recorded of a test: a second report of the same test becomes an error.
unfoldable pub recorded : Text → Option Error → Bool → Bool → ParallelTestOutput
recorded test_name execution_err test_passed twice =
    if twice
    then record {
      test_name = test_name;
      execution_err = some (failed (Site.logged_twice test_name));
      test_passed = false;
    }
    else record { test_name = test_name; execution_err = execution_err; test_passed = test_passed }

abbrev pub print_or_panic : List Line → System → Option Logger → Option System
print_or_panic lines s none = none
print_or_panic lines s (some logger) = some (print_to logger lines s)

abbrev pub store_output : Text → ParallelTestOutput → System → System
store_output test_name output s = record s {
  manager = record (s.manager) { test_outputs = insert test_name output s.manager.test_outputs };
}

-- `none` is the panic on a nil logger.
unfoldable pub log_test_output : Text → Option Error → Bool → TestLogs → System → Option System
log_test_output test_name execution_err test_passed test_logs s =
    let twice = found (lookup test_name s.manager.test_outputs) in
    let output = recorded test_name execution_err test_passed twice in
    print_or_panic (report_lines output test_logs) (store_output test_name output s)
      (output_logger s)

unfoldable pub start_intercepting_std_logger : System → System
start_intercepting_std_logger s = if s.manager.is_intercepting_std_logger then s else record s {
  manager = record (s.manager) {
    writer_before_management = s.std_logger.out;
    side_channel_logger = some s.std_logger;
    is_intercepting_std_logger = true;
  };
  std_logger = record (s.std_logger) { out = interceptor };
}

unfoldable pub stop_intercepting_std_logger : System → System
stop_intercepting_std_logger s = if not s.manager.is_intercepting_std_logger then s else record s {
  manager = record (s.manager) { is_intercepting_std_logger = false };
  std_logger = record (s.std_logger) { out = s.manager.writer_before_management };
}

unfoldable pub print_summary : System → Option System
print_summary s =
    print_or_panic
      (print_banner (codes "TEST RESULTS") banner_as_error
        ++ (map summary_line s.manager.test_outputs
            ++ log_erroneous_system_logging (get_captured_messages s.manager.interceptor_writer)))
      s (output_logger s)

abbrev had_no_issues : ParallelTestOutput → Bool
had_no_issues output =
    is_passed (get_test_status_from_result output.execution_err output.test_passed)

-- The loop over the recorded outputs.
all_passed_loop : Bool → Dict Text ParallelTestOutput → Bool
all_passed_loop all_tests_passed [] = all_tests_passed
all_passed_loop all_tests_passed ((test_name, output) ∷ more) =
    all_passed_loop (all_tests_passed && had_no_issues output) more

unfoldable pub get_all_tests_passed : ParallelTestOutputManager → Bool
unfolding all_passed_loop
get_all_tests_passed manager = all_passed_loop true manager.test_outputs
